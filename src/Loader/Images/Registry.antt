-- ===== src/Loader/Images/Registry.antt =====
-- `GuestImageRecord` and `GuestImageRegistry` of
-- crates/compatra-runtime/src/macos/loader/guest_images.rs.
use compatra.Common.{
  ℕ, ◌+◌, ◌-◌, ◌%◌, ◌^◌, List, [], ◌∷◌, ◌++◌, Option, none, some, Bool, true, false, if◌then◌else◌,
  min, max, length, get_elem?,
}
use compatra.Loader.Parser.Binary.{MachoBinary}
use compatra.Loader.Parser.Symbols.{get_defined_symbols}
use compatra.Loader.Library.Range.{Range, range_contains, macho_vm_range}
use compatra.Loader.Library.Image.{GuestLibraryImage}
use compatra.Loader.Library.Image
use compatra.Loader.Library.Set.{GuestLibrarySet}

pub data GuestImageKind : Type 0 where
  main_executable library : GuestImageKind

-- "main" and "library".
abbrev pub as_str : GuestImageKind → List ℕ
as_str GuestImageKind.main_executable = b'm' ∷ b'a' ∷ b'i' ∷ b'n' ∷ []
as_str GuestImageKind.library = b'l' ∷ b'i' ∷ b'b' ∷ b'r' ∷ b'a' ∷ b'r' ∷ b'y' ∷ []

pub record GuestImageRecord : Type 0 where
  pub index : ℕ
  pub kind : GuestImageKind
  pub path : List ℕ
  pub install_name : Option (List ℕ)
  pub slide : ℕ
  pub vm_range : Range
  pub mapped_range : Range
  pub export_count : ℕ

unfoldable pub contains_runtime_address : GuestImageRecord → ℕ → Bool
contains_runtime_address r address = range_contains r.mapped_range address

unfoldable pub contains_file_vmaddr : GuestImageRecord → ℕ → Bool
contains_file_vmaddr r vmaddr = range_contains r.vm_range vmaddr

abbrev pub wrapping_add : ℕ → ℕ → ℕ
wrapping_add a b = (a + b) % 2 ^ 64

abbrev pub wrapping_sub : ℕ → ℕ → ℕ
wrapping_sub a b = (a + 2 ^ 64 - b) % 2 ^ 64

unfoldable pub runtime_address_for_file_vmaddr : GuestImageRecord → ℕ → Option ℕ
unfolding contains_file_vmaddr
runtime_address_for_file_vmaddr r vmaddr =
    if contains_file_vmaddr r vmaddr then some (wrapping_add vmaddr r.slide) else none

unfoldable pub file_vmaddr_for_runtime_address : GuestImageRecord → ℕ → Option ℕ
unfolding contains_runtime_address
file_vmaddr_for_runtime_address r address =
    if contains_runtime_address r address then some (wrapping_sub address r.slide) else none

pub record GuestImageAddress : Type 0 where
  pub image_index : ℕ
  pub kind : GuestImageKind
  pub path : List ℕ
  pub install_name : Option (List ℕ)
  pub file_vmaddr : ℕ
  pub runtime_address : ℕ

pub record GuestImageRegistry : Type 0 where
  pub records : List GuestImageRecord

abbrev pub new : GuestImageRegistry
new = record { records = [] }

abbrev pub main_record : ℕ → List ℕ → MachoBinary → ℕ → Range → GuestImageRecord
main_record index path binary slide vm_range = record {
  index = index;
  kind = GuestImageKind.main_executable;
  path = path;
  install_name = none;
  slide = slide;
  vm_range = vm_range;
  mapped_range = record {
    start = wrapping_add vm_range.start slide;
    end = wrapping_add vm_range.end slide;
  };
  export_count = length (get_defined_symbols binary);
}

-- The registry, and the index of the new record where there is one.
unfoldable pub push_main :
    GuestImageRegistry → List ℕ → MachoBinary → ℕ → GuestImageRegistry × Option ℕ
unfolding macho_vm_range get_defined_symbols
push_main g path binary slide = elim (macho_vm_range binary) [
  | none ↦ (g, none)
  | some vm_range ↦ (
    record {
      records = g.records ++ (main_record (length g.records) path binary slide vm_range ∷ []);
    },
    some (length g.records),
  )
]

abbrev pub library_record : ℕ → GuestLibraryImage → GuestImageRecord
library_record index image = record {
  index = index;
  kind = GuestImageKind.library;
  path = image.path;
  install_name = image.install_name;
  slide = image.slide;
  vm_range = image.vm_range;
  mapped_range = image.mapped_range;
  export_count = Image.export_count image;
}

unfoldable pub push_library : GuestImageRegistry → GuestLibraryImage → GuestImageRegistry × ℕ
push_library g image = (
  record { records = g.records ++ (library_record (length g.records) image ∷ []) },
  length g.records,
)

unfoldable pub push_libraries : List GuestLibraryImage → GuestImageRegistry → GuestImageRegistry
unfolding push_library
push_libraries [] g = g
push_libraries (image ∷ images) g = push_libraries images (push_library g image).0

unfoldable pub from_loaded_images : List ℕ → MachoBinary → ℕ → GuestLibrarySet → GuestImageRegistry
unfolding push_main push_libraries
from_loaded_images main_path main_binary main_slide guest_libraries =
    push_libraries guest_libraries.images (push_main new main_path main_binary main_slide).0

abbrev pub image_count : GuestImageRegistry → ℕ
image_count g = length g.records

unfoldable pub count_libraries : List GuestImageRecord → ℕ
count_libraries [] = 0
count_libraries (r ∷ records) =
    let rest = count_libraries records in
    elim r.kind [ GuestImageKind.library ↦ rest + 1 | GuestImageKind.main_executable ↦ rest ]

unfoldable pub library_count : GuestImageRegistry → ℕ
unfolding count_libraries
library_count g = count_libraries g.records

unfoldable pub min_start : List GuestImageRecord → Option ℕ
min_start [] = none
min_start (r ∷ records) =
    let rest = min_start records in
    elim rest [
      | none ↦ some r.mapped_range.start
      | some start ↦ some (min r.mapped_range.start start)
    ]

unfoldable pub mapped_start : GuestImageRegistry → Option ℕ
unfolding min_start
mapped_start g = min_start g.records

unfoldable pub max_end : List GuestImageRecord → Option ℕ
max_end [] = none
max_end (r ∷ records) =
    let rest = max_end records in
    elim rest [ none ↦ some r.mapped_range.end | some end ↦ some (max r.mapped_range.end end) ]

unfoldable pub mapped_end : GuestImageRegistry → Option ℕ
unfolding max_end
mapped_end g = max_end g.records

unfoldable pub find_record : ℕ → List GuestImageRecord → Option GuestImageRecord
unfolding contains_runtime_address
find_record address [] = none
find_record address (r ∷ records) = elim (contains_runtime_address r address) [
  | true ↦ some r
  | false ↦ find_record address records
]

abbrev pub address_in : GuestImageRecord → ℕ → ℕ → GuestImageAddress
address_in r address file_vmaddr = record {
  image_index = r.index;
  kind = r.kind;
  path = r.path;
  install_name = r.install_name;
  file_vmaddr = file_vmaddr;
  runtime_address = address;
}

unfoldable pub resolve_runtime_address : GuestImageRegistry → ℕ → Option GuestImageAddress
unfolding find_record file_vmaddr_for_runtime_address
resolve_runtime_address g address = elim (find_record address g.records) [
  | none ↦ none
  | some r ↦ elim (file_vmaddr_for_runtime_address r address) [
    | none ↦ none
    | some file_vmaddr ↦ some (address_in r address file_vmaddr)
  ]
]

unfoldable pub resolve_file_address : GuestImageRegistry → ℕ → ℕ → Option ℕ
unfolding runtime_address_for_file_vmaddr
resolve_file_address g image_index vmaddr = elim (get_elem? g.records image_index) [
  | none ↦ none
  | some r ↦ runtime_address_for_file_vmaddr r vmaddr
]
