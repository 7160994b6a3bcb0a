-- ===== src/Loader/Library/Extension.antt =====
-- `extend_undefined_imports` of crates/compatra-runtime/src/macos/loader/guest_libraries.rs: what the
-- libraries need is added to the imports, and nothing twice.
use mathlib.Core.List.{append-nil}
use compatra.Common.{
  ℕ, ◌≡◌, refl, inl, inr, List, [], ◌∷◌, ◌++◌, true, length, All, Bool-cases, bytes_beq_iff, arith,
}
use compatra.Common.Result.{Result, Result-cases}
use compatra.Loader.Cursor.{ok}
use compatra.Loader.Parser.Binary.{MachoBinary}
use compatra.Loader.Parser.Imports.{get_undefined_symbols}
use compatra.Loader.Library.Layout.{All-map}
use compatra.Loader.Parser.Resolve.{EndsInNul, get_undefined_symbols-Succeeds}
use compatra.Loader.Library.Image.{GuestLibraryImage}
use compatra.Loader.Library.Extending.{
  Distinct, Extends, Extends-refl, Extends-trans, push_all_missing-Extends, push_all_names-Extends,
}
use compatra.Loader.Library.Set.{GuestLibrarySet}
use compatra.Loader.Library.Bindings.{
  GuestLibraryImportSetReport, Extending, is_present, push_if_missing, push_all_missing,
  extend_fixups, extend_images, extend_undefined_imports,
}

module _ (normalize : List ℕ → List ℕ) where
  abbrev pub Covers : List (List ℕ × ℕ) → List (List ℕ × ℕ) → Type 0
  Covers symbols undefs = All (λ (u : List ℕ × ℕ). is_present normalize u.0 undefs ≡ true) symbols

  is_present-append :
      (name : List ℕ) (undefs extra : List (List ℕ × ℕ))
      → is_present normalize name undefs ≡ true
      → is_present normalize name (undefs ++ extra) ≡ true
  unfolding is_present
  is_present-append name [] extra h = cc
  is_present-append name ((e, t) ∷ undefs) extra h =
      ground (arith, is_present-append name undefs extra)

  is_present_last :
      (name : List ℕ) (n_type : ℕ) (undefs : List (List ℕ × ℕ))
      → is_present normalize name (undefs ++ ((name, n_type) ∷ [])) ≡ true
  unfolding is_present
  is_present_last name n_type [] = ground (arith, bytes_beq_iff name name)
  is_present_last name n_type ((e, t) ∷ undefs) = ground (arith, is_present_last name n_type undefs)

  is_present-push :
      (name : List ℕ) (n_type : ℕ) (x : Extending)
      → is_present normalize name (push_if_missing normalize name n_type x).undefs ≡ true
  unfolding push_if_missing
  is_present-push name n_type x = elim (Bool-cases (is_present normalize name x.undefs)) [
    | inl e ↦ rw (push_if_missing, e) e
    | inr e ↦ rw (push_if_missing, e) (is_present_last name n_type x.undefs)
  ]

  is_present-Extends :
      (name : List ℕ) (x x' : Extending)
      → Extends normalize x x'
      → is_present normalize name x.undefs ≡ true
      → is_present normalize name x'.undefs ≡ true
  is_present-Extends name x x' e h = rw e.appended (is_present-append name x.undefs e.extra h)

  push_all_missing-Covers :
      (symbols : List (List ℕ × ℕ)) (x : Extending)
      → Covers symbols (push_all_missing normalize symbols x).undefs
  unfolding push_all_missing
  push_all_missing-Covers [] x = tt
  push_all_missing-Covers ((name, n_type) ∷ symbols) x = (
    is_present-Extends name (push_if_missing normalize name n_type x) _
        (push_all_missing-Extends normalize symbols (push_if_missing normalize name n_type x))
        (is_present-push name n_type x),
    push_all_missing-Covers symbols (push_if_missing normalize name n_type x),
  )

  -- What the table of the image leaves undefined is among the imports.
  abbrev pub CoversImage : List (List ℕ × ℕ) → GuestLibraryImage → Type 0
  CoversImage undefs image =
      (symbols : List (List ℕ × ℕ)) × (get_undefined_symbols image.binary ≡ ok symbols)
      × Covers symbols undefs

  CoversImage-Extends :
      (image : GuestLibraryImage) (x x' : Extending)
      → Extends normalize x x'
      → CoversImage x.undefs image
      → CoversImage x'.undefs image
  CoversImage-Extends image x x' e (symbols, read, covers) =
      (symbols, read, All-map _ _ symbols (λ u h. is_present-Extends u.0 x x' e h) covers)

  module _ (fixup_imports : MachoBinary → Result (List ℕ) (List (List ℕ))) where
    extend_fixups-Extends :
        (image : GuestLibraryImage) (x : Extending)
        → Extends normalize x (extend_fixups normalize fixup_imports image x)
    unfolding extend_fixups
    extend_fixups-Extends image x = elim (Result-cases (fixup_imports image.binary)) [
      | inl (names, e) ↦ rw (extend_fixups, e) (push_all_names-Extends normalize names x)
      | inr (message, e) ↦
          rw (extend_fixups, e)
            (record {
              extra = [];
              appended = rw append-nil refl;
              counted = omega arith;
              distinct = λ d. d;
            })
    ]

    record Extended (images : List GuestLibraryImage) (x x' : Extending) : Type 0 where
      extended : extend_images normalize fixup_imports images x ≡ ok x'
      extends : Extends normalize x x'
      covers : All (CoversImage x'.undefs) images

    extend_image :
        (image : GuestLibraryImage) (images : List GuestLibraryImage) (symbols : List (List ℕ × ℕ))
        (x x' : Extending)
        → get_undefined_symbols image.binary ≡ ok symbols
        → Extended images
            (extend_fixups normalize fixup_imports image (push_all_missing normalize symbols x))
            x'
        → Extended (image ∷ images) x x'
    unfolding extend_images
    extend_image image images symbols x x' e r =
        let pushed = push_all_missing normalize symbols x in
        let behind =
          Extends-trans normalize pushed (extend_fixups normalize fixup_imports image pushed) x'
            (extend_fixups-Extends image pushed) r.extends in
        record {
          extended = rw (extend_images, e) r.extended;
          extends =
              Extends-trans normalize x pushed x' (push_all_missing-Extends normalize symbols x)
                behind;
          covers = (
            CoversImage-Extends image pushed x' behind
                (symbols, e, push_all_missing-Covers symbols x),
            r.covers,
          );
        }

    extend_images-Extended :
        (images : List GuestLibraryImage) (x : Extending)
        → All (λ i. EndsInNul i.binary.contents) images
        → (x' : Extending) × Extended images x x'
    unfolding extend_images
    extend_images-Extended [] x nul =
        (x, record { extended = refl; extends = Extends-refl normalize x; covers = tt })
    extend_images-Extended (image ∷ images) x nul =
        let (symbols, e) = get_undefined_symbols-Succeeds image.binary nul.0 in
        let (x', r) =
          extend_images-Extended images
            (extend_fixups normalize fixup_imports image (push_all_missing normalize symbols x))
            nul.1 in
        (x', extend_image image images symbols x x' e r)

    -- What the query returns: the old imports and then new ones, with the counts of them.
    pub record IsExtension (set : GuestLibrarySet) (undefs undefs' : List (List ℕ × ℕ))
        (report : GuestLibraryImportSetReport) : Type 0 where
      pub returned :
          extend_undefined_imports normalize fixup_imports set undefs ≡ ok (undefs', report)
      pub extra : List (List ℕ × ℕ)
      pub appended : undefs' ≡ undefs ++ extra
      pub added : report.added ≡ length extra
      pub total : report.total ≡ length undefs'
      pub covers : All (CoversImage undefs') set.images
      pub distinct : Distinct normalize undefs'

    -- Where no import stands for the same symbol as another, and the file of every library ends in a NUL,
    -- the imports are extended without a panic: the old ones stay in front, the report counts the new
    -- ones and all of them, every undefined symbol of a library is among them, by its own name or by its
    -- normalized one, and still no two stand for the same symbol.
    pub extend_undefined_imports-IsExtension :
        (set : GuestLibrarySet) (undefs : List (List ℕ × ℕ))
        → All (λ i. EndsInNul i.binary.contents) set.images
        → Distinct normalize undefs
        → (undefs' : List (List ℕ × ℕ)) × (report : GuestLibraryImportSetReport) × IsExtension set
            undefs undefs' report
    unfolding extend_undefined_imports
    extend_undefined_imports-IsExtension set undefs nul d =
        let start : Extending = record { undefs = undefs; added = 0; errors = [] } in
        let (x', r) = extend_images-Extended set.images start nul in
        (
          x'.undefs,
          record { added = x'.added; total = length x'.undefs; errors = x'.errors },
          record {
            returned = rw (extend_undefined_imports, r.extended) refl;
            extra = r.extends.extra;
            appended = r.extends.appended;
            added = omega (arith, r.extends.counted);
            total = refl;
            covers = r.covers;
            distinct = r.extends.distinct d;
          },
        )
