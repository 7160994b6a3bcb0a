-- ===== src/Loader/Library/Complete.antt =====
-- Every export of a loaded library is found, in
-- crates/compatra-runtime/src/macos/loader/guest_libraries.rs.
use compatra.Common.{
  ℕ, zero, suc, ◌≡◌, refl, sym, subst, ap, ◌⊎◌, inl, inr, List, [], ◌∷◌, ◌++◌, some, length,
  get_elem?, All, Bool-cases, bytes_beq, bytes_beq_iff,
}
use compatra.Common.BTree.{BTreeMap}
use compatra.Common.BTree
use compatra.Loader.Library.Keys.{guest_library_symbol_lookup_keys}
use compatra.Loader.Library.Image.{GuestLibraryImage}
use compatra.Loader.Library.Layout.{All-map}
use compatra.Loader.Library.Set.{
  GuestLibrarySymbol, GuestLibrarySet, push_aliases, symbol_of, push_exports, push,
}
use compatra.Loader.Library.Exports.{IsOneOf, found, found-insert}

module _ {A : Type 0} where
  IsOneOf-last : (xs : List A) (x : A) → IsOneOf x (xs ++ (x ∷ []))
  IsOneOf-last [] x = inl refl
  IsOneOf-last (y ∷ ys) x = inr (IsOneOf-last ys x)

  IsOneOf-front : (xs : List A) (x y : A) → IsOneOf y xs → IsOneOf y (xs ++ (x ∷ []))
  IsOneOf-front [] x y h = elim h [ ]
  IsOneOf-front (z ∷ zs) x y (inl e) = inl e
  IsOneOf-front (z ∷ zs) x y (inr m) = inr (IsOneOf-front zs x y m)

  get_elem?_snoc_cases :
      (xs : List A) (x y : A) (i : ℕ)
      → get_elem? (xs ++ (x ∷ [])) i ≡ some y
      → (get_elem? xs i ≡ some y) ⊎ ((i ≡ length xs) × (x ≡ y))
  get_elem?_snoc_cases [] x y zero h = inr (refl, cc)
  get_elem?_snoc_cases [] x y (suc i) h = cc
  get_elem?_snoc_cases (z ∷ zs) x y zero h = inl h
  get_elem?_snoc_cases (z ∷ zs) x y (suc i) h = elim (get_elem?_snoc_cases zs x y i h) [
    | inl e ↦ inl e
    | inr (e, f) ↦ inr (ap suc e, f)
  ]

abbrev Exports : Type 0
Exports = BTreeMap (List GuestLibrarySymbol)

insert_keeps :
    (s r : GuestLibrarySymbol) (key a : List ℕ) (exports : Exports)
    → IsOneOf s (found key exports)
    → IsOneOf s (found key (BTree.insert a (found a exports ++ (r ∷ [])) exports))
insert_keeps s r key a exports h = elim (Bool-cases (bytes_beq a key)) [
  | inl e ↦
      rw (found-insert key a (found a exports ++ (r ∷ [])) exports, e)
        (IsOneOf-front (found a exports) r s
          (subst (λ k. IsOneOf s (found k exports)) (sym ((bytes_beq_iff a key).0 e)) h))
  | inr e ↦ rw (found-insert key a (found a exports ++ (r ∷ [])) exports, e) h
]

insert_adds :
    (r : GuestLibrarySymbol) (a : List ℕ) (exports : Exports)
    → IsOneOf r (found a (BTree.insert a (found a exports ++ (r ∷ [])) exports))
insert_adds r a exports =
    rw (found-insert a a (found a exports ++ (r ∷ [])) exports, (bytes_beq_iff a a).1 refl)
      (IsOneOf-last (found a exports) r)

push_aliases_keeps :
    (s r : GuestLibrarySymbol) (key : List ℕ) (aliases : List (List ℕ)) (exports : Exports)
    → IsOneOf s (found key exports)
    → IsOneOf s (found key (push_aliases r aliases exports))
unfolding push_aliases
push_aliases_keeps s r key [] exports h = h
push_aliases_keeps s r key (a ∷ aliases) exports h =
    push_aliases_keeps s r key aliases (BTree.insert a (found a exports ++ (r ∷ [])) exports)
      (insert_keeps s r key a exports h)

push_aliases_adds :
    (r : GuestLibrarySymbol) (aliases : List (List ℕ)) (exports : Exports)
    → All (λ a. IsOneOf r (found a (push_aliases r aliases exports))) aliases
unfolding push_aliases
push_aliases_adds r [] exports = tt
push_aliases_adds r (a ∷ aliases) exports = (
  push_aliases_keeps r r a aliases (BTree.insert a (found a exports ++ (r ∷ [])) exports)
      (insert_adds r a exports),
  push_aliases_adds r aliases (BTree.insert a (found a exports ++ (r ∷ [])) exports),
)

-- The exports of image `i` are found under all their names.
abbrev pub AllFound : GuestLibraryImage → ℕ → Exports → List ℕ × ℕ → Type 0
AllFound image i exports e =
    All (λ key. IsOneOf (symbol_of image i e.0 e.1) (found key exports))
      (guest_library_symbol_lookup_keys e.0)

module _ (image : GuestLibraryImage) (i : ℕ) where
  push_exports_keeps :
      (s : GuestLibrarySymbol) (key : List ℕ) (symbols : BTreeMap ℕ) (exports : Exports)
      → IsOneOf s (found key exports)
      → IsOneOf s (found key (push_exports image i symbols exports))
  unfolding push_exports
  push_exports_keeps s key [] exports h = h
  push_exports_keeps s key ((symbol, v) ∷ symbols) exports h = push_exports_keeps s key symbols _ (
      push_aliases_keeps s (symbol_of image i symbol v) key
        (guest_library_symbol_lookup_keys symbol) exports h)

  push_exports_adds :
      (symbols : BTreeMap ℕ) (exports : Exports)
      → All (AllFound image i (push_exports image i symbols exports)) symbols
  unfolding push_exports
  push_exports_adds [] exports = tt
  push_exports_adds ((symbol, v) ∷ symbols) exports = (
    All-map _ _ (guest_library_symbol_lookup_keys symbol)
        (λ key m. push_exports_keeps (symbol_of image i symbol v) key symbols _ m)
        (push_aliases_adds (symbol_of image i symbol v) (guest_library_symbol_lookup_keys symbol)
          exports),
    push_exports_adds symbols _,
  )

abbrev pub Complete : List GuestLibraryImage → Exports → Type 0
Complete images exports =
    (i : ℕ) (image : GuestLibraryImage)
    → get_elem? images i ≡ some image
    → All (AllFound image i exports) image.exports

pub push-Complete :
    (set : GuestLibrarySet) (image : GuestLibraryImage)
    → Complete set.images set.exports
    → Complete (set.images ++ (image ∷ [])) (push set image).exports
unfolding push
push-Complete set image complete i other h =
    elim (get_elem?_snoc_cases set.images image other i h) [
      | inl old ↦
          All-map (AllFound other i set.exports) _ other.exports
            (λ e. All-map _ _ (guest_library_symbol_lookup_keys e.0) (λ key m.
              push_exports_keeps image (length set.images) (symbol_of other i e.0 e.1) key
                image.exports set.exports m))
            (complete i other old)
      | inr (last, same) ↦
          subst
            (λ j.
              All
                (AllFound other j
                  (push_exports image (length set.images) image.exports set.exports))
                other.exports)
            (sym last)
            (subst
              (λ (o : GuestLibraryImage).
                All
                  (AllFound o (length set.images)
                    (push_exports image (length set.images) image.exports set.exports))
                  o.exports)
              same (push_exports_adds image (length set.images) image.exports set.exports))
    ]
