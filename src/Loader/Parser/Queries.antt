-- ===== src/Loader/Parser/Queries.antt =====
-- Queries of a parsed binary in crates/compatra-runtime/src/macos/loader/parser.rs: segments, sections and
-- the paths of libraries.
use compatra.Common.{
  ℕ, List, [], ◌∷◌, Option, none, some, true, false, ◌==◌, ◌&&◌, get_or, bytes_eq, bytes_beq,
}
use compatra.Common.HashMap.{lookup}
use compatra.Loader.Strings.{string_at}
use compatra.Loader.Command.Types.{LoadCommand, SegmentCommand64, Section64}
use compatra.Loader.Parser.Binary.{MachoBinary}

unfoldable pub get_segment : MachoBinary → List ℕ → Option (List ℕ)
unfolding lookup
get_segment m name = lookup name m.segments_data

-- `segments.iter().find(|s| s.segname_str() == name)`.
unfoldable pub find_segment : List ℕ → List SegmentCommand64 → Option SegmentCommand64
unfolding string_at
find_segment name [] = none
find_segment name (s ∷ segments) = elim (bytes_beq (string_at s.segname) name) [
  | true ↦ some s
  | false ↦ find_segment name segments
]

unfoldable pub get_segment_by_name : MachoBinary → List ℕ → Option SegmentCommand64
unfolding find_segment
get_segment_by_name m name = find_segment name m.segments

-- The size of a command that maps nothing at address 0.
abbrev pub page_zero : LoadCommand → Option ℕ
page_zero (LoadCommand.segment64 s) = elim (s.vmaddr == 0 && s.filesize == 0) [
  | true ↦ some s.vmsize
  | false ↦ none
]
page_zero (LoadCommand.segment s) = elim (s.vmaddr == 0 && s.filesize == 0) [
  | true ↦ some s.vmsize
  | false ↦ none
]
page_zero _ = none

unfoldable pub first_page_zero : List LoadCommand → Option ℕ
first_page_zero [] = none
first_page_zero (c ∷ cs) = elim (page_zero c) [ some size ↦ some size | none ↦ first_page_zero cs ]

unfoldable pub page_zero_segment : List SegmentCommand64 → Option ℕ
page_zero_segment [] = none
page_zero_segment (s ∷ segments) = elim (s.vmaddr == 0 && s.filesize == 0) [
  | true ↦ some s.vmsize
  | false ↦ page_zero_segment segments
]

unfoldable pub page_zero_size : MachoBinary → ℕ
unfolding first_page_zero page_zero_segment
page_zero_size m = elim (first_page_zero m.commands) [
  | some size ↦ size
  | none ↦ get_or (page_zero_segment m.segments) 0
]

unfoldable pub find_section : List ℕ → List Section64 → Option Section64
unfolding string_at
find_section name [] = none
find_section name (s ∷ sections) = elim (bytes_beq (string_at s.sectname) name) [
  | true ↦ some s
  | false ↦ find_section name sections
]

-- A segment of the right name without the section is passed over.
unfoldable pub section_in : List ℕ → List ℕ → List SegmentCommand64 → Option Section64
unfolding find_section
section_in seg_name sect_name [] = none
section_in seg_name sect_name (s ∷ segments) = elim (bytes_beq (string_at s.segname) seg_name) [
  | false ↦ section_in seg_name sect_name segments
  | true ↦ elim (find_section sect_name s.sections) [
    | some x ↦ some x
    | none ↦ section_in seg_name sect_name segments
  ]
]

unfoldable pub get_section : MachoBinary → List ℕ → List ℕ → Option Section64
unfolding section_in
get_section m seg_name sect_name = section_in seg_name sect_name m.segments

unfoldable pub dyld_path : List LoadCommand → Option (List ℕ)
dyld_path [] = none
dyld_path (LoadCommand.dylinker c ∷ cs) = some c.name
dyld_path (_ ∷ cs) = dyld_path cs

unfoldable pub get_dyld_path : MachoBinary → Option (List ℕ)
unfolding dyld_path
get_dyld_path m = dyld_path m.commands

unfoldable pub dylib_paths : List LoadCommand → List (List ℕ)
dylib_paths [] = []
dylib_paths (LoadCommand.dylib c ∷ cs) = c.name ∷ dylib_paths cs
dylib_paths (_ ∷ cs) = dylib_paths cs

unfoldable pub get_dylib_paths : MachoBinary → List (List ℕ)
unfolding dylib_paths
get_dylib_paths m = dylib_paths m.commands

abbrev text_segment_name : List ℕ
text_segment_name = b'_' ∷ b'_' ∷ b'T' ∷ b'E' ∷ b'X' ∷ b'T' ∷ []

abbrev data_segment_name : List ℕ
data_segment_name = b'_' ∷ b'_' ∷ b'D' ∷ b'A' ∷ b'T' ∷ b'A' ∷ []

unfoldable pub get_text_section : MachoBinary → Option Section64
unfolding get_section
get_text_section m = get_section m text_segment_name (b'_' ∷ b'_' ∷ b't' ∷ b'e' ∷ b'x' ∷ b't' ∷ [])

-- "__la_symbol_ptr".
unfoldable pub get_lazy_symbol_ptr_section : MachoBinary → Option Section64
unfolding get_section
get_lazy_symbol_ptr_section m = get_section m data_segment_name (
    b'_' ∷ b'_' ∷ b'l' ∷ b'a' ∷ b'_' ∷ b's' ∷ b'y' ∷ b'm' ∷ b'b' ∷ b'o' ∷ b'l' ∷ b'_' ∷ b'p' ∷ b't'
    ∷ b'r' ∷ [])

-- "__nl_symbol_ptr".
unfoldable pub get_nl_symbol_ptr_section : MachoBinary → Option Section64
unfolding get_section
get_nl_symbol_ptr_section m = get_section m data_segment_name (
    b'_' ∷ b'_' ∷ b'n' ∷ b'l' ∷ b'_' ∷ b's' ∷ b'y' ∷ b'm' ∷ b'b' ∷ b'o' ∷ b'l' ∷ b'_' ∷ b'p' ∷ b't'
    ∷ b'r' ∷ [])

-- "__eh_frame".
unfoldable pub get_eh_section : MachoBinary → Option Section64
unfolding get_section
get_eh_section m =
    get_section m text_segment_name
      (b'_' ∷ b'_' ∷ b'e' ∷ b'h' ∷ b'_' ∷ b'f' ∷ b'r' ∷ b'a' ∷ b'm' ∷ b'e' ∷ [])

unfoldable pub header_address : MachoBinary → ℕ
unfolding page_zero_size
header_address m = page_zero_size m

-- The commands and sections that it looks up do not enter the result.
abbrev pub parse_bindings : MachoBinary → List (List ℕ × ℕ)
parse_bindings m = []
