-- ===== src/Loader/Library/Resolution.antt =====
-- Resolution of a symbol among the libraries that `GuestLibrarySet::from_specs` of
-- crates/compatra-runtime/src/macos/loader/guest_libraries.rs loads.
use compatra.Common.{
  ℕ, ◌≡◌, refl, sym, subst, ◌∙◌, inl, inr, List, [], ◌∷◌, Option, some, none, get_or, true,
  get_elem?, All, Bool-cases, Option-cases, bytes_eq,
}
use compatra.Common.HashMap.{lookup}
use compatra.Common.Result.{ok}
use compatra.Loader.Library.Keys.{guest_library_symbol_lookup_keys}
use compatra.Loader.Library.Image.{GuestLibraryImage}
use compatra.Loader.Library.Reference.{matches_reference}
use compatra.Loader.Library.Set.{
  GuestLibrarySymbol, GuestLibrarySet, first_symbol, find_symbol, resolve_symbol, is_from,
  first_from, find_symbol_from, resolve_symbol_for_library_reference, push, symbol_of,
}
use compatra.Loader.Library.Specs.{Host, Linking, linked, no_libraries, from_specs}
use compatra.Loader.Library.LinkRule.{from_specs_rule}
use compatra.Loader.Library.Exports.{IsOneOf, IsExport, found, Sound, push-Sound}
use compatra.Loader.Library.Complete.{AllFound, Complete, push-Complete}

-- Some of the names is one of an export of a library, which answers to the reference, where there is one.
abbrev Answers : Option (List ℕ) → GuestLibraryImage → Type 0
Answers none image = Unit {0}
Answers (some reference) image = matches_reference image reference ≡ true

pub record Resolved (images : List GuestLibraryImage) (reference : Option (List ℕ))
    (keys : List (List ℕ)) (s : GuestLibrarySymbol) : Type 0 where
  pub key : List ℕ
  pub asked : IsOneOf key keys
  pub export : IsExport images key s
  pub answers : Answers reference export.image

Resolved_later :
    (images : List GuestLibraryImage) (reference : Option (List ℕ)) (k : List ℕ)
    (keys : List (List ℕ)) (s : GuestLibrarySymbol)
    → Resolved images reference keys s
    → Resolved images reference (k ∷ keys) s
Resolved_later images reference k keys s r = record {
  key = r.key;
  asked = inr r.asked;
  export = r.export;
  answers = r.answers;
}

first_symbol-All :
    (P : GuestLibrarySymbol → Type 0) (o : Option (List GuestLibrarySymbol))
    (s : GuestLibrarySymbol)
    → first_symbol o ≡ some s
    → All P (get_or o [])
    → P s
first_symbol-All P none s h a = cc
first_symbol-All P (some []) s h a = cc
first_symbol-All P (some (x ∷ xs)) s h a = let same : x ≡ s = cc in subst P same a.0

first_from-All :
    (P : GuestLibrarySymbol → Type 0) (images : List GuestLibraryImage) (reference : List ℕ)
    (symbols : List GuestLibrarySymbol) (s : GuestLibrarySymbol)
    → first_from images reference symbols ≡ some s
    → All P symbols
    → P s × (is_from images reference s ≡ true)
unfolding first_from
first_from-All P images reference [] s h a = cc
first_from-All P images reference (x ∷ xs) s h a = elim (Bool-cases (is_from images reference x)) [
  | inr e ↦ first_from-All P images reference xs s (rw (first_from, e) at h) a.1
  | inl e ↦
      let none_or : some x ≡ some s = rw (first_from, e) at h in
      let same : x ≡ s = cc in subst (λ y. P y × (is_from images reference y ≡ true)) same (a.0, e)
]

is_from-matches :
    (images : List GuestLibraryImage) (reference : List ℕ) (s : GuestLibrarySymbol)
    (image : GuestLibraryImage)
    → get_elem? images s.library_index ≡ some image
    → is_from images reference s ≡ true
    → matches_reference image reference ≡ true
is_from-matches images reference s image loaded h = rw (is_from, loaded) at h

module _ (set : GuestLibrarySet) (sound : Sound set.images set.exports) where
  find_symbol-Resolved :
      (keys : List (List ℕ)) (s : GuestLibrarySymbol)
      → find_symbol set.exports keys ≡ some s
      → Resolved set.images none keys s
  unfolding find_symbol
  find_symbol-Resolved [] s h = cc
  find_symbol-Resolved (key ∷ keys) s h =
      elim (Option-cases (first_symbol (lookup key set.exports))) [
        | inl e ↦
            Resolved_later set.images none key keys s
              (find_symbol-Resolved keys s (rw (find_symbol, e) at h))
        | inr (x, e) ↦ record {
          key = key;
          asked = inl refl;
          export =
              first_symbol-All (IsExport set.images key) (lookup key set.exports) s
                (e ∙ (rw (find_symbol, e) at h)) (sound key);
          answers = tt;
        }
      ]

  find_symbol_from-Resolved :
      (reference : List ℕ) (keys : List (List ℕ)) (s : GuestLibrarySymbol)
      → find_symbol_from set reference keys ≡ some s
      → Resolved set.images (some reference) keys s
  unfolding find_symbol_from
  find_symbol_from-Resolved reference [] s h = cc
  find_symbol_from-Resolved reference (key ∷ keys) s h =
      elim (Option-cases (first_from set.images reference (found key set.exports))) [
        | inl e ↦
            Resolved_later set.images (some reference) key keys s
              (find_symbol_from-Resolved reference keys s (rw (find_symbol_from, e) at h))
        | inr (x, e) ↦
            let (export, from) =
              first_from-All (IsExport set.images key) set.images reference (found key set.exports)
                s (e ∙ (rw (find_symbol_from, e) at h)) (sound key) in
            record {
              key = key;
              asked = inl refl;
              export = export;
              answers = is_from-matches set.images reference s export.image export.loaded from;
            }
      ]

  resolved :
      (reference : Option (List ℕ)) (symbol : List ℕ) (s : GuestLibrarySymbol)
      → resolve_symbol_for_library_reference set reference symbol ≡ some s
      → Resolved set.images reference (guest_library_symbol_lookup_keys symbol) s
  unfolding resolve_symbol_for_library_reference resolve_symbol
  resolved none symbol s h = find_symbol-Resolved (guest_library_symbol_lookup_keys symbol) s h
  resolved (some reference) symbol s h =
      find_symbol_from-Resolved reference (guest_library_symbol_lookup_keys symbol) s h

nothing_first :
    (o : Option (List GuestLibrarySymbol)) (s : GuestLibrarySymbol)
    → first_symbol o ≡ none
    → IsOneOf s (get_or o [])
    → ⊥
nothing_first none s h m = m
nothing_first (some []) s h m = m
nothing_first (some (x ∷ xs)) s h m = cc

module _ (set : GuestLibrarySet) where
  find_symbol-some :
      (keys : List (List ℕ)) (key : List ℕ) (s : GuestLibrarySymbol)
      → IsOneOf key keys
      → IsOneOf s (found key set.exports)
      → (t : GuestLibrarySymbol) × (find_symbol set.exports keys ≡ some t)
  unfolding find_symbol
  find_symbol-some [] key s k m = elim k [ ]
  find_symbol-some (first ∷ keys) key s k m =
      elim (Option-cases (first_symbol (lookup first set.exports))) [
        | inr (t, e) ↦ (t, rw (find_symbol, e) refl)
        | inl e ↦
            rw (find_symbol, e)
              (elim k [
                | inr later ↦ find_symbol-some keys key s later m
                | inl here ↦ absurd (
                    nothing_first (lookup first set.exports) s e
                      (subst (λ k. IsOneOf s (found k set.exports)) (sym here) m))
              ])
      ]

All_at : {A : Type 0} (P : A → Type 0) (xs : List A) (x : A) → All P xs → IsOneOf x xs → P x
All_at P [] x h m = elim m [ ]
All_at P (y ∷ ys) x h (inl e) = subst P e h.0
All_at P (y ∷ ys) x h (inr m) = All_at P ys x h.1 m

record IsLinked (l : Linking) : Type 0 where
  sound : Sound l.set.images l.set.exports
  complete : Complete l.set.images l.set.exports

linked-IsLinked :
    (path : List ℕ) (l : Linking) (image : GuestLibraryImage)
    → IsLinked l
    → IsLinked (linked l path image)
unfolding push
linked-IsLinked path l image h = record {
  sound = push-Sound l.set image h.sound;
  complete = push-Complete l.set image h.complete;
}

no_libraries-IsLinked : (load_base : ℕ) → IsLinked (no_libraries load_base)
unfolding lookup
no_libraries-IsLinked load_base = record { sound = λ key. tt; complete = λ i image h. cc }

from_specs-IsLinked :
    (host : Host) (specs : List (List ℕ)) (load_base : ℕ) (set : GuestLibrarySet)
    → from_specs host specs load_base ≡ ok set
    → Sound set.images set.exports × Complete set.images set.exports
from_specs-IsLinked host specs load_base set h =
    let (l, same, linked) =
      from_specs_rule host IsLinked (λ path l image opened. linked-IsLinked path l image) specs
        load_base set h (no_libraries-IsLinked load_base) in
    subst (λ (s : GuestLibrarySet). Sound s.images s.exports × Complete s.images s.exports) same
      (linked.sound, linked.complete)

-- A symbol that is resolved among the loaded libraries, for a reference to a library or for none, is an
-- export of one of them, which answers to the reference; the export and the symbol have a lookup name
-- in common, and the address is that of the export, shifted by the slide of its library.
pub resolve_symbol_for_library_reference-Resolved :
    (host : Host) (specs : List (List ℕ)) (load_base : ℕ) (set : GuestLibrarySet)
    (reference : Option (List ℕ)) (symbol : List ℕ) (s : GuestLibrarySymbol)
    → from_specs host specs load_base ≡ ok set
    → resolve_symbol_for_library_reference set reference symbol ≡ some s
    → Resolved set.images reference (guest_library_symbol_lookup_keys symbol) s
resolve_symbol_for_library_reference-Resolved host specs load_base set reference symbol s h r =
    resolved set (from_specs-IsLinked host specs load_base set h).0 reference symbol s r

-- A symbol that has a lookup name in common with an export of a loaded library is resolved.
pub resolve_symbol-some :
    (host : Host) (specs : List (List ℕ)) (load_base : ℕ) (set : GuestLibrarySet) (i : ℕ)
    (image : GuestLibraryImage) (exported symbol key : List ℕ) (v : ℕ)
    → from_specs host specs load_base ≡ ok set
    → get_elem? set.images i ≡ some image
    → IsOneOf (exported, v) image.exports
    → IsOneOf key (guest_library_symbol_lookup_keys exported)
    → IsOneOf key (guest_library_symbol_lookup_keys symbol)
    → (s : GuestLibrarySymbol) × (resolve_symbol set symbol ≡ some s)
unfolding resolve_symbol
resolve_symbol-some host specs load_base set i image exported symbol key v h loaded e k asked =
    let complete = (from_specs-IsLinked host specs load_base set h).1 in
    find_symbol-some set (guest_library_symbol_lookup_keys symbol) key
      (symbol_of image i exported v) asked
      (All_at _ (guest_library_symbol_lookup_keys exported) key
        (All_at (AllFound image i set.exports) image.exports (exported, v) (complete i image loaded)
          e)
        k)
