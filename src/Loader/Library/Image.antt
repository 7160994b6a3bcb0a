-- ===== src/Loader/Library/Image.antt =====
-- `GuestLibraryImage` of crates/compatra-runtime/src/macos/loader/guest_libraries.rs. A path is the
-- bytes of its UTF-8 string.
use compatra.Common.{
  ℕ, ◌+◌, ◌%◌, ◌^◌, List, [], ◌∷◌, Option, none, some, not, ◌==◌, ◌||◌, if◌then◌else◌, max, length,
  bytes_eq,
}
use compatra.Common.HashMap.{HashMap, lookup}
use compatra.Common.BTree.{BTreeMap, insert}
use compatra.Common.Result.{Result, ok, err, ◌>>=◌, ok_or, checked_sub, checked_add}
use compatra.Common.FilePath.{file_name}
use compatra.Loader.Consts.{cpu_type_arm64}
use compatra.Loader.Cursor.{LoaderError}
use compatra.Loader.Parser.Binary.{MachoBinary}
use compatra.Loader.Parser.Symbols.{get_defined_symbols}
use compatra.Loader.Parser.Imports.{get_dylib_id}
use compatra.Loader.Library.Range.{Range, range_contains, align_up, guest_library_vm_range}
use compatra.Loader.Library.Keys.{guest_library_symbol_lookup_keys}

-- The messages of the library loader, with the path of the library and the values that they print.
pub data LibraryError : Type 0 where
  not_64_bit : List ℕ → LibraryError
  wrong_cpu_type wrong_file_type : List ℕ → ℕ → LibraryError
  no_loadable_segments : List ℕ → LibraryError
  load_base_below_image : List ℕ → ℕ → ℕ → LibraryError
  invalid_vm_range mapped_range_overflows : List ℕ → LibraryError
  file_range_overflows extends_past_eof : List ℕ → List ℕ → LibraryError
  unreadable_directory missing_path unreadable_file : List ℕ → LibraryError
  parse_failed : LoaderError → LibraryError
  emulator_failed : LibraryError

pub record GuestLibraryImage : Type 0 where
  pub path : List ℕ
  pub install_name : Option (List ℕ)
  pub load_base : ℕ
  pub slide : ℕ
  pub vm_range : Range
  pub mapped_range : Range
  pub exports : BTreeMap ℕ
  pub binary : MachoBinary

abbrev pub page_size : ℕ
page_size = 0x1000

abbrev pub mh_dylib : ℕ
mh_dylib = 6

abbrev pub mh_bundle : ℕ
mh_bundle = 8

unfoldable pub validate_guest_library_binary : List ℕ → MachoBinary → Result LibraryError (Unit {0})
validate_guest_library_binary path binary =
    ok_or binary.header_64 (LibraryError.not_64_bit path) >>= λ header.
    if not (header.cputype == cpu_type_arm64)
    then err (LibraryError.wrong_cpu_type path header.cputype)
    else if not (header.filetype == mh_dylib || header.filetype == mh_bundle)
    then err (LibraryError.wrong_file_type path header.filetype)
    else ok tt

-- The symbols whose value lies in the range, in the order of their names.
unfoldable pub exports_of : Range → HashMap (List ℕ) ℕ → BTreeMap ℕ
unfolding insert
exports_of r [] = []
exports_of r ((name, vmaddr) ∷ symbols) =
    let rest = exports_of r symbols in
    if range_contains r vmaddr then insert name vmaddr rest else rest

abbrev pub or_file_name : List ℕ → Option (List ℕ) → Option (List ℕ)
or_file_name path (some name) = some name
or_file_name path none = file_name path

-- The part of `from_binary` behind the range of the binary.
unfoldable pub place : List ℕ → MachoBinary → ℕ → Range → Result LibraryError GuestLibraryImage
unfolding exports_of get_defined_symbols get_dylib_id file_name
place path binary requested_load_base vm_range =
    let load_base = align_up (max requested_load_base vm_range.start) page_size in
    ok_or (checked_sub load_base vm_range.start)
      (LibraryError.load_base_below_image path load_base vm_range.start)
    >>= λ slide.
        ok_or (checked_sub vm_range.end vm_range.start) (LibraryError.invalid_vm_range path)
        >>= λ mapped_size.
            ok_or (checked_add load_base mapped_size) (LibraryError.mapped_range_overflows path)
            >>= λ mapped_end. ok (record {
              path = path;
              install_name = or_file_name path (get_dylib_id binary);
              load_base = load_base;
              slide = slide;
              vm_range = vm_range;
              mapped_range = record { start = load_base; end = mapped_end };
              exports = exports_of vm_range (get_defined_symbols binary);
              binary = binary;
            })

unfoldable pub from_binary : List ℕ → MachoBinary → ℕ → Result LibraryError GuestLibraryImage
unfolding validate_guest_library_binary guest_library_vm_range place
from_binary path binary requested_load_base =
    validate_guest_library_binary path binary >>= λ checked.
    ok_or (guest_library_vm_range binary) (LibraryError.no_loadable_segments path) >>= λ vm_range.
    place path binary requested_load_base vm_range

abbrev pub export_count : GuestLibraryImage → ℕ
export_count image = length image.exports

-- The first of the keys that is exported, with its address in the file.
unfoldable pub first_export : BTreeMap ℕ → List (List ℕ) → Option (List ℕ × ℕ)
unfolding lookup
first_export exports [] = none
first_export exports (key ∷ keys) = elim (lookup key exports) [
  | some vmaddr ↦ some (key, vmaddr)
  | none ↦ first_export exports keys
]

unfoldable pub resolve_export_vmaddr : GuestLibraryImage → List ℕ → Option (List ℕ × ℕ)
unfolding first_export guest_library_symbol_lookup_keys
resolve_export_vmaddr image symbol =
    first_export image.exports (guest_library_symbol_lookup_keys symbol)

unfoldable pub resolve_export_address : GuestLibraryImage → List ℕ → Option ℕ
unfolding resolve_export_vmaddr
resolve_export_address image symbol = elim (resolve_export_vmaddr image symbol) [
  | none ↦ none
  | some (key, vmaddr) ↦ some ((vmaddr + image.slide) % 2 ^ 64)
]
