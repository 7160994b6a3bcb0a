-- ===== src/Loader/Library/Exports.antt =====
-- What the names of a `GuestLibrarySet` in crates/compatra-runtime/src/macos/loader/guest_libraries.rs
-- stand for.
use compatra.Common.{
  ℕ, zero, suc, ◌≡◌, refl, subst, ◌⊎◌, inl, inr, List, [], ◌∷◌, ◌++◌, some, get_or, if◌then◌else◌,
  length, get_elem?, All, Bool-cases, bytes_beq, bytes_beq_iff, bytes_eq, arith,
}
use compatra.Common.HashMap.{lookup}
use compatra.Common.BTree.{BTreeMap}
use compatra.Common.BTree
use compatra.Loader.Library.Keys.{guest_library_symbol_lookup_keys}
use compatra.Loader.Library.Image.{GuestLibraryImage}
use compatra.Loader.Library.Layout.{All-snoc, All-map}
use compatra.Loader.Library.Set.{
  GuestLibrarySymbol, GuestLibrarySet, push_aliases, symbol_of, push_exports, push,
}

abbrev pub IsOneOf : {A : Type 0} → A → List A → Type 0
IsOneOf x [] = ⊥
IsOneOf x (y ∷ ys) = (y ≡ x) ⊎ IsOneOf x ys

-- A symbol that is found under `key` is an export of one of the images, at its address there, and
-- `key` is a name under which that export is looked up.
pub record IsExport (images : List GuestLibraryImage) (key : List ℕ) (s : GuestLibrarySymbol)
    : Type 0 where
  pub image : GuestLibraryImage
  pub loaded : get_elem? images s.library_index ≡ some image
  pub exported : IsOneOf (s.symbol, s.file_vmaddr) image.exports
  pub made : s ≡ symbol_of image s.library_index s.symbol s.file_vmaddr
  pub alias : IsOneOf key (guest_library_symbol_lookup_keys s.symbol)

abbrev pub found : List ℕ → BTreeMap (List GuestLibrarySymbol) → List GuestLibrarySymbol
found key exports = get_or (lookup key exports) []

abbrev pub Sound : List GuestLibraryImage → BTreeMap (List GuestLibrarySymbol) → Type 0
Sound images exports = (key : List ℕ) → All (IsExport images key) (found key exports)

pub found-insert :
    (j k : List ℕ) (symbols : List GuestLibrarySymbol) (m : BTreeMap (List GuestLibrarySymbol))
    → found j (BTree.insert k symbols m) ≡ (if bytes_beq k j then symbols else found j m)
found-insert j k symbols m = rw (BTree.lookup-insert j k symbols m) (ground arith)

module _ (images : List GuestLibraryImage) (resolved : GuestLibrarySymbol) where
  insert-Sound :
      (a : List ℕ) (exports : BTreeMap (List GuestLibrarySymbol))
      → IsExport images a resolved
      → Sound images exports
      → Sound images (BTree.insert a (found a exports ++ (resolved ∷ [])) exports)
  insert-Sound a exports ok sound key = elim (Bool-cases (bytes_beq a key)) [
    | inl e ↦
        rw (found-insert key a (found a exports ++ (resolved ∷ [])) exports, e)
          (subst (λ k. All (IsExport images k) (found a exports ++ (resolved ∷ [])))
            ((bytes_beq_iff a key).0 e)
            (All-snoc (IsExport images a) (found a exports) resolved (sound a) ok))
    | inr e ↦ rw (found-insert key a (found a exports ++ (resolved ∷ [])) exports, e) (sound key)
  ]

  push_aliases-Sound :
      (aliases : List (List ℕ)) (exports : BTreeMap (List GuestLibrarySymbol))
      → All (λ a. IsExport images a resolved) aliases
      → Sound images exports
      → Sound images (push_aliases resolved aliases exports)
  unfolding push_aliases
  push_aliases-Sound [] exports ok sound = sound
  push_aliases-Sound (a ∷ aliases) exports ok sound =
      push_aliases-Sound aliases (BTree.insert a (found a exports ++ (resolved ∷ [])) exports) ok.1
        (insert-Sound a exports ok.0 sound)

module _ {A : Type 0} where
  get_elem?-snoc : (xs : List A) (x : A) → get_elem? (xs ++ (x ∷ [])) (length xs) ≡ some x
  get_elem?-snoc [] x = refl
  get_elem?-snoc (y ∷ ys) x = get_elem?-snoc ys x

  get_elem?-front :
      (xs : List A) (x y : A) (i : ℕ)
      → get_elem? xs i ≡ some y
      → get_elem? (xs ++ (x ∷ [])) i ≡ some y
  get_elem?-front [] x y i h = cc
  get_elem?-front (z ∷ zs) x y zero h = h
  get_elem?-front (z ∷ zs) x y (suc i) h = get_elem?-front zs x y i h

  All-of_IsOneOf : (P : A → Type 0) (xs : List A) → ((x : A) → IsOneOf x xs → P x) → All P xs
  All-of_IsOneOf P [] f = tt
  All-of_IsOneOf P (x ∷ xs) f = (f x (inl refl), All-of_IsOneOf P xs (λ y m. f y (inr m)))

module _ (images : List GuestLibraryImage) (image : GuestLibraryImage) where
  IsExport-alias :
      (symbol : List ℕ) (v : ℕ) (key : List ℕ)
      → IsOneOf (symbol, v) image.exports
      → IsOneOf key (guest_library_symbol_lookup_keys symbol)
      → IsExport (images ++ (image ∷ [])) key (symbol_of image (length images) symbol v)
  IsExport-alias symbol v key e k = record {
    image = image;
    loaded = get_elem?-snoc images image;
    exported = e;
    made = refl;
    alias = k;
  }

  push_exports-Sound :
      (symbols : BTreeMap ℕ) (exports : BTreeMap (List GuestLibrarySymbol))
      → All (λ (e : List ℕ × ℕ). IsOneOf e image.exports) symbols
      → Sound (images ++ (image ∷ [])) exports
      → Sound (images ++ (image ∷ [])) (push_exports image (length images) symbols exports)
  unfolding push_exports
  push_exports-Sound [] exports own sound = sound
  push_exports-Sound ((symbol, v) ∷ symbols) exports own sound =
      push_exports-Sound symbols _ own.1 (
        push_aliases-Sound (images ++ (image ∷ [])) (symbol_of image (length images) symbol v)
          (guest_library_symbol_lookup_keys symbol) exports
          (All-of_IsOneOf _ (guest_library_symbol_lookup_keys symbol)
            (λ key k. IsExport-alias symbol v key own.0 k))
          sound)

  IsExport-snoc :
      (key : List ℕ) (s : GuestLibrarySymbol)
      → IsExport images key s
      → IsExport (images ++ (image ∷ [])) key s
  IsExport-snoc key s e = record {
    image = e.image;
    loaded = get_elem?-front images image e.image s.library_index e.loaded;
    exported = e.exported;
    made = e.made;
    alias = e.alias;
  }

pub push-Sound :
    (set : GuestLibrarySet) (image : GuestLibraryImage)
    → Sound set.images set.exports
    → Sound (set.images ++ (image ∷ [])) (push set image).exports
unfolding push
push-Sound set image sound =
    push_exports-Sound set.images image image.exports set.exports
      (All-of_IsOneOf _ image.exports (λ e m. m))
      (λ key.
        All-map (IsExport set.images key) (IsExport (set.images ++ (image ∷ [])) key)
          (found key set.exports) (IsExport-snoc set.images image key) (sound key))
