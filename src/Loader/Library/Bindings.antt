-- ===== src/Loader/Library/Bindings.antt =====
-- `apply_import_bindings` and `extend_undefined_imports` of
-- crates/compatra-runtime/src/macos/loader/guest_libraries.rs. The test that chooses the imports,
-- `normalize_import_symbol` and `chained_fixup_import_symbols` of macos/imports.rs are arguments.
use compatra.Common.{
  ℕ, ◌+◌, List, [], ◌∷◌, ◌++◌, Option, none, some, Bool, false, ◌||◌, if◌then◌else◌, length,
  is_empty, bytes_beq, bytes_eq,
}
use compatra.Common.HashMap.{HashMap, insert}
use compatra.Common.Result.{Result}
use compatra.Loader.Cursor.{Outcome, ok, err, panic}
use compatra.Loader.Parser.Binary.{MachoBinary}
use compatra.Loader.Parser.Imports.{get_undefined_symbols}
use compatra.Loader.Library.Keys.{guest_library_symbol_lookup_keys}
use compatra.Loader.Library.Image.{GuestLibraryImage}
use compatra.Loader.Library.Set.{GuestLibrarySymbol, GuestLibrarySet, resolve_symbol}

pub record GuestLibraryBinding : Type 0 where
  pub import_name : List ℕ
  pub export_symbol : List ℕ
  pub address : ℕ
  pub library_path : List ℕ
  pub install_name : Option (List ℕ)

abbrev pub binding_of : List ℕ → GuestLibrarySymbol → GuestLibraryBinding
binding_of name export = record {
  import_name = name;
  export_symbol = export.symbol;
  address = export.address;
  library_path = export.library_path;
  install_name = export.install_name;
}

-- `stub_map.insert(key, address)` for each key.
unfoldable pub insert_keys : ℕ → List (List ℕ) → HashMap (List ℕ) ℕ → HashMap (List ℕ) ℕ
unfolding insert
insert_keys address [] stubs = stubs
insert_keys address (key ∷ keys) stubs = insert_keys address keys (insert key address stubs)

-- The export that an import is bound to.
abbrev pub bound_export : GuestLibrarySet → (List ℕ → Bool) → List ℕ → Option GuestLibrarySymbol
bound_export set should_resolve name = if should_resolve name then resolve_symbol set name else none

unfoldable pub binding_loop :
    GuestLibrarySet
    → (List ℕ → Bool)
    → List (List ℕ × ℕ)
    → HashMap (List ℕ) ℕ
    → HashMap (List ℕ) ℕ × List GuestLibraryBinding
unfolding resolve_symbol insert_keys guest_library_symbol_lookup_keys
binding_loop set should_resolve [] stubs = (stubs, [])
binding_loop set should_resolve ((name, n_type) ∷ undefs) stubs =
    elim (bound_export set should_resolve name) [
      | none ↦ binding_loop set should_resolve undefs stubs
      | some export ↦
          let rest =
            binding_loop set should_resolve undefs
              (insert_keys export.address (guest_library_symbol_lookup_keys name) stubs) in
          (rest.0, binding_of name export ∷ rest.1)
    ]

unfoldable pub apply_import_bindings :
    GuestLibrarySet
    → (List ℕ → Bool)
    → List (List ℕ × ℕ)
    → HashMap (List ℕ) ℕ
    → HashMap (List ℕ) ℕ × List GuestLibraryBinding
unfolding binding_loop
apply_import_bindings set should_resolve undefs stubs =
    if is_empty set.images then (stubs, []) else binding_loop set should_resolve undefs stubs

pub record GuestLibraryImportSetReport : Type 0 where
  pub added : ℕ
  pub total : ℕ
  pub errors : List (List ℕ × List ℕ)

-- The variables of the loop: the imports and the report.
pub record Extending : Type 0 where
  pub undefs : List (List ℕ × ℕ)
  pub added : ℕ
  pub errors : List (List ℕ × List ℕ)

abbrev pub report_of : Outcome Extending → Outcome (List (List ℕ × ℕ) × GuestLibraryImportSetReport)
report_of (ok x) =
    ok (x.undefs, record { added = x.added; total = length x.undefs; errors = x.errors })
report_of (err e) = err e
report_of panic = panic

module _ (normalize : List ℕ → List ℕ) where
  unfoldable pub is_present : List ℕ → List (List ℕ × ℕ) → Bool
  is_present name [] = false
  is_present name ((existing, n_type) ∷ undefs) =
      (bytes_beq existing name || bytes_beq (normalize existing) (normalize name))
      || is_present name undefs

  -- `push_undefined_symbol_if_missing`, and the count of what it adds.
  unfoldable pub push_if_missing : List ℕ → ℕ → Extending → Extending
  unfolding is_present
  push_if_missing name n_type x =
      if is_present name x.undefs
      then x
      else record x { undefs = x.undefs ++ ((name, n_type) ∷ []); added = x.added + 1 }

  unfoldable pub push_all_missing : List (List ℕ × ℕ) → Extending → Extending
  unfolding push_if_missing
  push_all_missing [] x = x
  push_all_missing ((name, n_type) ∷ symbols) x =
      push_all_missing symbols (push_if_missing name n_type x)

  unfoldable pub push_all_names : List (List ℕ) → Extending → Extending
  unfolding push_if_missing
  push_all_names [] x = x
  push_all_names (name ∷ names) x = push_all_names names (push_if_missing name 0 x)

  module _ (fixup_imports : MachoBinary → Result (List ℕ) (List (List ℕ))) where
    unfoldable pub extend_fixups : GuestLibraryImage → Extending → Extending
    unfolding push_all_names
    extend_fixups image x = elim (fixup_imports image.binary) [
      | Result.ok names ↦ push_all_names names x
      | Result.err message ↦ record x { errors = x.errors ++ ((image.path, message) ∷ []) }
    ]

    unfoldable pub extend_images : List GuestLibraryImage → Extending → Outcome Extending
    unfolding get_undefined_symbols push_all_missing extend_fixups
    extend_images [] x = ok x
    extend_images (image ∷ images) x = elim (get_undefined_symbols image.binary) [
      | panic ↦ panic
      | err e ↦ err e
      | ok symbols ↦ extend_images images (extend_fixups image (push_all_missing symbols x))
    ]

    -- The imports of the program, with what the libraries need, and the report.
    unfoldable pub extend_undefined_imports :
        GuestLibrarySet
        → List (List ℕ × ℕ)
        → Outcome (List (List ℕ × ℕ) × GuestLibraryImportSetReport)
    unfolding extend_images
    extend_undefined_imports set undefs =
        report_of (extend_images set.images (record { undefs = undefs; added = 0; errors = [] }))
