-- ===== src/Loader/Library/LinkRule.antt =====
-- A rule for the loops of `GuestLibrarySet::from_specs` in
-- crates/compatra-runtime/src/macos/loader/guest_libraries.rs: what each library keeps, the whole run keeps.
use compatra.Common.{ℕ, ◌≡◌, subst, inl, inr, List, [], ◌∷◌, Bool-cases}
use compatra.Common.Result.{ok, ok_injective, err_is_not_ok, Result-cases}
use compatra.Loader.Library.Image.{GuestLibraryImage}
use compatra.Loader.Library.Set.{GuestLibrarySet}
use compatra.Loader.Library.Specs.{
  Host, Linking, is_seen, expand_guest_library_spec, from_path, linked, link_path, link_paths,
  link_specs, no_libraries, from_specs,
}

module _ (host : Host) (P : Linking → Type 0)
    (step : (path : List ℕ) (l : Linking) (image : GuestLibraryImage)
      → from_path host path l.next_base ≡ ok image
      → P l
      → P (linked l path image)) where
  link_path_rule : (path : List ℕ) (l l' : Linking) → link_path host path l ≡ ok l' → P l → P l'
  unfolding link_path
  link_path_rule path l l' h p = elim (Bool-cases (is_seen path l.seen)) [
    | inl e ↦ subst P (ok_injective (rw (link_path, e) at h)) p
    | inr e ↦ elim (Result-cases (from_path host path l.next_base)) [
      | inr (message, f) ↦ err_is_not_ok (rw (link_path, e, f) at h)
      | inl (image, f) ↦ subst P (ok_injective (rw (link_path, e, f) at h)) (step path l image f p)
    ]
  ]

  link_paths_rule :
      (paths : List (List ℕ)) (l l' : Linking) → link_paths host paths l ≡ ok l' → P l → P l'
  unfolding link_paths
  link_paths_rule [] l l' h p = subst P (ok_injective h) p
  link_paths_rule (path ∷ paths) l l' h p = elim (Result-cases (link_path host path l)) [
    | inr (message, f) ↦ err_is_not_ok (rw (link_paths, f) at h)
    | inl (next, f) ↦
        link_paths_rule paths next l' (rw (link_paths, f) at h) (link_path_rule path l next f p)
  ]

  link_specs_rule :
      (specs : List (List ℕ)) (l l' : Linking) → link_specs host specs l ≡ ok l' → P l → P l'
  unfolding link_specs
  link_specs_rule [] l l' h p = subst P (ok_injective h) p
  link_specs_rule (spec ∷ specs) l l' h p =
      elim (Result-cases (expand_guest_library_spec host spec)) [
        | inr (message, f) ↦ err_is_not_ok (rw (link_specs, f) at h)
        | inl (paths, f) ↦ elim (Result-cases (link_paths host paths l)) [
          | inr (message, g) ↦ err_is_not_ok (rw (link_specs, f, g) at h)
          | inl (next, g) ↦
              link_specs_rule specs next l' (rw (link_specs, f, g) at h)
                (link_paths_rule paths l next g p)
        ]
      ]

  pub from_specs_rule :
      (specs : List (List ℕ)) (load_base : ℕ) (set : GuestLibrarySet)
      → from_specs host specs load_base ≡ ok set
      → P (no_libraries load_base)
      → (l : Linking) × (l.set ≡ set) × P l
  unfolding from_specs
  from_specs_rule specs load_base set h p =
      elim (Result-cases (link_specs host specs (no_libraries load_base))) [
        | inr (message, f) ↦ err_is_not_ok (rw (from_specs, f) at h)
        | inl (l, f) ↦ (
          l,
          ok_injective (rw (from_specs, f) at h),
          link_specs_rule specs (no_libraries load_base) l f p,
        )
      ]
