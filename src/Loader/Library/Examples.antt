-- ===== src/Loader/Library/Examples.antt =====
-- A small library of crates/compatra-runtime/src/macos/loader/guest_libraries.rs, loaded twice: runs of the
-- definitions, and the theorems applied.
use compatra.Common.{
  ℕ, ◌+◌, ◌≡◌, ◌≤◌, refl, ◌⊎◌, List, [], ◌∷◌, some, none, true, false, inl, inr, min, length, All,
  bytes_eq, arith,
}
use compatra.Common.HashMap.{lookup}
use compatra.Common.Result.{Result, ok}
use compatra.Loader.Cursor
use compatra.Loader.Header.{MachOMagic, MachHeader64}
use compatra.Loader.Command.Types.{LoadCommand, SegmentCommand64, SymtabCommand}
use compatra.Loader.Parser.Binary.{MachoBinary}
use compatra.Loader.Parser.Symbols.{get_defined_symbols}
use compatra.Loader.Parser.Defined.{entries, room, last_value, get_defined_symbols_lem}
use compatra.Loader.Parser.Imports.{get_import_symbols, get_undefined_symbols}
use compatra.Loader.Parser.Imports
use compatra.Loader.Parser.Resolve.{EndsInNul, resolve_symbol-Succeeds}
use compatra.Common.HashMap.{HashMap}
use compatra.Loader.Library.Range.{Range, guest_library_vm_range, macho_vm_range}
use compatra.Loader.Library.RangeLaws.{IsSpan, loadable, guest_library_vm_range-IsSpan}
use compatra.Loader.Library.Keys.{guest_library_symbol_lookup_keys}
use compatra.Loader.Library.Image.{GuestLibraryImage, from_binary}
use compatra.Loader.Library.Placement.{IsPlaced, from_binary-IsPlaced}
use compatra.Loader.Library.Set.{
  GuestLibrarySymbol, GuestLibrarySet, resolve_symbol, resolve_symbol_for_library_reference,
  empty_set, push,
}
use compatra.Loader.Library.Specs.{Host, from_specs}
use compatra.Loader.Library.Layout.{Separated, from_specs-Separated}
use compatra.Loader.Library.Resolution.{
  Resolved, resolve_symbol_for_library_reference-Resolved, resolve_symbol-some,
}
use compatra.Loader.Library.Bindings.{
  GuestLibraryImportSetReport, bound_export, apply_import_bindings, is_present,
}
use compatra.Loader.Library.BindingLaws.{
  IsBound, apply_import_bindings-IsBound, apply_import_bindings_binds,
}
use compatra.Loader.Library.Extension.{IsExtension, extend_undefined_imports-IsExtension}

-- One symbol, "_f", of a section, at 0x1080.
abbrev pub library_bytes : List ℕ
library_bytes =
    1 ∷ 0 ∷ 0 ∷ 0 ∷ 15 ∷ 1 ∷ 0 ∷ 0 ∷ 0x80 ∷ 0x10 ∷ 0 ∷ 0 ∷ 0 ∷ 0 ∷ 0 ∷ 0 ∷ 0 ∷ 95 ∷ 102 ∷ 0 ∷ []

abbrev pub library_table : SymtabCommand
library_table = record { symoff = 0; nsyms = 1; stroff = 16; strsize = 4 }

abbrev pub library_segment : SegmentCommand64
library_segment = record {
  segname = 84 ∷ 0 ∷ [];
  vmaddr = 0x1000;
  vmsize = 0x1000;
  fileoff = 0;
  filesize = 20;
  maxprot = 5;
  initprot = 5;
  nsects = 0;
  flags = 0;
  sections = [];
  reloff = 0;
  nreloc = 0;
}

abbrev pub library_header : MachHeader64
library_header = record {
  magic = 0xFEEDFACF;
  cputype = 0x0100000C;
  cpusubtype = 0;
  filetype = 6;
  ncmds = 2;
  sizeofcmds = 0;
  flags = 0;
  reserved = 0;
}

abbrev pub library_binary : MachoBinary
library_binary = record {
  contents = library_bytes;
  magic = MachOMagic.magic64;
  header_64 = some library_header;
  header_32 = none;
  commands = LoadCommand.segment64 library_segment ∷ LoadCommand.symtab library_table ∷ [];
  segments = library_segment ∷ [];
  entry_point = none;
  is_driver = false;
  segments_data = [];
}

-- Every path names the library.
abbrev pub small_host : Host
small_host = record {
  is_file = λ path. true;
  is_dir = λ path. false;
  read_dir = λ path. none;
  parse_file = λ path. ok library_binary;
}

abbrev pub two_paths : List (List ℕ)
two_paths = (97 ∷ []) ∷ (98 ∷ []) ∷ []

abbrev pub library_range : Range
library_range = record { start = 0x1000; end = 0x2000 }

abbrev pub name_f : List ℕ
name_f = 95 ∷ 102 ∷ []

abbrev pub image_at : List ℕ → ℕ → GuestLibraryImage
image_at path base = record {
  path = path;
  install_name = some path;
  load_base = base + 0x1000;
  slide = base;
  vm_range = library_range;
  mapped_range = record { start = base + 0x1000; end = base + 0x2000 };
  exports = (name_f, 0x1080) ∷ [];
  binary = library_binary;
}

abbrev pub symbol_in : List ℕ → ℕ → ℕ → GuestLibrarySymbol
symbol_in path i address = record {
  library_index = i;
  library_path = path;
  install_name = some path;
  symbol = name_f;
  file_vmaddr = 0x1080;
  address = address;
}

abbrev pub both_symbols : List GuestLibrarySymbol
both_symbols = symbol_in (97 ∷ []) 0 0x20000080 ∷ symbol_in (98 ∷ []) 1 0x20020080 ∷ []

abbrev pub two_libraries : GuestLibrarySet
two_libraries = record {
  images = image_at (97 ∷ []) 0x1FFFF000 ∷ image_at (98 ∷ []) 0x2001F000 ∷ [];
  exports = (95 ∷ name_f, both_symbols) ∷ (name_f, both_symbols) ∷ (102 ∷ [], both_symbols) ∷ [];
}

pub two_libraries_loaded : from_specs small_host two_paths 0x20000000 ≡ ok two_libraries
unfolding from_specs
two_libraries_loaded = refl

-- Only one library is loaded where a path is given twice.
one_library_loaded :
    (set : GuestLibrarySet) × (from_specs small_host ((97 ∷ []) ∷ (97 ∷ 47 ∷ []) ∷ []) 0x20000000
      ≡ ok set)
    × (length set.images ≡ 1)
unfolding from_specs
one_library_loaded = (_, refl, refl)

-- Both "_exit" and "exit" of C, whose names here are "__f" and "_f", are exports of a library, and "_f" is
-- resolved to the other.
abbrev both_exits : GuestLibraryImage
both_exits = record (image_at (97 ∷ []) 0) {
  exports = (95 ∷ name_f, 0x1000) ∷ (name_f, 0x1080) ∷ [];
}

exit_is_not_exit :
    (s : GuestLibrarySymbol) × (resolve_symbol (push empty_set both_exits) name_f ≡ some s)
    × (s.address ≡ 0x1000)
unfolding resolve_symbol push
exit_is_not_exit = (_, refl, refl)

get_defined_symbols_lem_example :
    lookup name_f (get_defined_symbols library_binary)
    ≡ last_value name_f (entries library_binary 0 (min 1 (room library_binary 0))) none
unfolding get_defined_symbols
get_defined_symbols_lem_example = get_defined_symbols_lem library_binary library_table refl name_f

nul_at_end : EndsInNul library_bytes
nul_at_end =
    (1 ∷ 0 ∷ 0 ∷ 0 ∷ 15 ∷ 1 ∷ 0 ∷ 0 ∷ 0x80 ∷ 0x10 ∷ 0 ∷ 0 ∷ 0 ∷ 0 ∷ 0 ∷ 0 ∷ 0 ∷ 95 ∷ 102 ∷ [], refl)

resolve_symbol-Succeeds_example :
    (imports : HashMap (List ℕ) ℕ) × (undefined : List (List ℕ × ℕ)) × (get_import_symbols
        library_binary
      ≡ Cursor.ok imports)
    × (get_undefined_symbols library_binary ≡ Cursor.ok undefined)
    × (Imports.resolve_symbol library_binary name_f ≡ Cursor.ok (lookup name_f imports))
resolve_symbol-Succeeds_example = resolve_symbol-Succeeds library_binary name_f nul_at_end

ranged : guest_library_vm_range library_binary ≡ some library_range
unfolding guest_library_vm_range
ranged = refl

guest_library_vm_range-IsSpan_example :
    IsSpan (loadable library_binary.segments) library_range
    × (macho_vm_range library_binary ≡ some library_range)
guest_library_vm_range-IsSpan_example =
    guest_library_vm_range-IsSpan library_binary library_range ranged

opened : from_binary (97 ∷ []) library_binary 0x20000000 ≡ ok (image_at (97 ∷ []) 0x1FFFF000)
unfolding from_binary
opened = refl

from_binary-IsPlaced_example :
    IsPlaced (image_at (97 ∷ []) 0x1FFFF000)
    × (guest_library_vm_range library_binary ≡ some library_range)
    × (0x20000000 ≤ (image_at (97 ∷ []) 0x1FFFF000).load_base)
from_binary-IsPlaced_example =
    from_binary-IsPlaced (97 ∷ []) library_binary 0x20000000 (image_at (97 ∷ []) 0x1FFFF000)
      (omega arith) opened

from_specs-Separated_example : All IsPlaced two_libraries.images × Separated two_libraries.images
from_specs-Separated_example =
    from_specs-Separated small_host two_paths 0x20000000 two_libraries two_libraries_loaded
      (omega arith, (omega arith, tt))

found_in_b :
    resolve_symbol_for_library_reference two_libraries (some (98 ∷ [])) (102 ∷ [])
    ≡ some (symbol_in (98 ∷ []) 1 0x20020080)
unfolding resolve_symbol_for_library_reference
found_in_b = refl

resolve_symbol_for_library_reference-Resolved_example :
    Resolved two_libraries.images
      (some (98 ∷ []))
      (guest_library_symbol_lookup_keys (102 ∷ []))
      (symbol_in (98 ∷ []) 1 0x20020080)
resolve_symbol_for_library_reference-Resolved_example =
    resolve_symbol_for_library_reference-Resolved small_host two_paths 0x20000000 two_libraries
      (some (98 ∷ [])) (102 ∷ []) (symbol_in (98 ∷ []) 1 0x20020080) two_libraries_loaded found_in_b

resolve_symbol-some_example :
    (s : GuestLibrarySymbol) × (resolve_symbol two_libraries (102 ∷ []) ≡ some s)
unfolding guest_library_symbol_lookup_keys
resolve_symbol-some_example =
    resolve_symbol-some small_host two_paths 0x20000000 two_libraries 1
      (image_at (98 ∷ []) 0x2001F000) name_f (102 ∷ []) (102 ∷ []) 0x1080 two_libraries_loaded refl
      (inl refl) (inr (inr (inl refl))) (inr (inl refl))

abbrev one_import : List (List ℕ × ℕ)
one_import = (102 ∷ [], 0) ∷ []

apply_import_bindings-IsBound_example :
    (lookup name_f (apply_import_bindings two_libraries (λ name. true) one_import []).0
      ≡ lookup name_f [])
    ⊎ IsBound two_libraries
        (λ name. true)
        one_import
        name_f
        (lookup name_f (apply_import_bindings two_libraries (λ name. true) one_import []).0)
apply_import_bindings-IsBound_example =
    apply_import_bindings-IsBound two_libraries (λ name. true) name_f one_import []

bound_f :
    bound_export two_libraries (λ name. true) (102 ∷ []) ≡ some (symbol_in (97 ∷ []) 0 0x20000080)
unfolding resolve_symbol
bound_f = refl

apply_import_bindings_binds_example :
    IsBound two_libraries
      (λ name. true)
      one_import
      name_f
      (lookup name_f (apply_import_bindings two_libraries (λ name. true) one_import []).0)
unfolding guest_library_symbol_lookup_keys
apply_import_bindings_binds_example =
    apply_import_bindings_binds two_libraries (λ name. true) name_f
      (symbol_in (97 ∷ []) 0 0x20000080) one_import (102 ∷ [], 0) [] refl (inl refl) bound_f
      (inl refl)

abbrev no_fixups : MachoBinary → Result (List ℕ) (List (List ℕ))
no_fixups binary = ok []

extend_undefined_imports-IsExtension_example :
    (undefs' : List (List ℕ × ℕ)) × (report : GuestLibraryImportSetReport) × IsExtension
      (λ name. name)
      no_fixups
      two_libraries
      one_import
      undefs'
      report
unfolding is_present
extend_undefined_imports-IsExtension_example =
    extend_undefined_imports-IsExtension (λ name. name) no_fixups two_libraries one_import
      (nul_at_end, (nul_at_end, tt)) (refl, tt)
