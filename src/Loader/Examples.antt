-- ===== src/Loader/Examples.antt =====
-- The parser of crates/compatra-runtime/src/macos/loader on small files: runs of the definitions, and the
-- theorems applied.
use compatra.Common.{
  ◌*◌, ◌^◌, ◌%◌, ◌<◌, ◌++◌, length, min, ◌-◌, ◌/◌, ℕ, ◌≡◌, refl, ◌⊎◌, List, [], ◌∷◌, Option, none,
  some, true, false, arith, bytes_eq,
}
use compatra.Common.HashMap.{lookup}
use compatra.Loader.Consts.{cpu_type_arm64, cpu_type_x86_64}
use compatra.Loader.Cursor.{Outcome, ok}
use compatra.Loader.Header.{MachOMagic, FatArch, word_at}
use compatra.Loader.Command.Types.{LoadCommand, SegmentCommand64}
use compatra.Loader.Command.Dispatch.{parse_command, cmd_id}
use compatra.Loader.Command.Parsed.{Parsed, parse_command-Parsed}
use compatra.Loader.Command.Segments.{parse_segment64}
use compatra.Loader.Command.SectionCount.{SectionsAt, parse_segment64-SectionsAt}
use compatra.Loader.Command.RoundTrip.{encode}
use compatra.Loader.Command.Encode.{frame, fields, parse_command-encode}
use compatra.Loader.Parser.Commands.{parse_commands}
use compatra.Loader.Parser.CommandBounds.{Bounded, parse_commands-Bounded}
use compatra.Loader.Parser.Binary.{MachoBinary, build_binary}
use compatra.Loader.Parser.Build.{
  any_overflows, segments_of, last_entry, last_contents, build_binary_lem,
}
use compatra.Loader.Parser.Relocations.{relocation_of, parse_relocations_at}
use compatra.Loader.Parser.RelocationLaws.{
  info_word, relocation_of_lem, length-parse_relocations_at,
}
use compatra.Loader.Parser.Queries.{page_zero_size}
use compatra.Loader.Parser.PageZero.{IsPageZeroSize, page_zero_size_lem}
use compatra.Loader.Parser.Fat.{preferred_arch, any_cpu}
use compatra.Loader.Parser.FatChoice.{IsFirstFor, preferred_arch_lem}
use compatra.Loader.Parser.Parse.{fat_slice, parse}
use compatra.Loader.Parser.Termination.{Returns, NeverReturns, parse-Returns}

-- An LC_MAIN command, little-endian, with entry offset 0x1000.
abbrev main_bytes : List ℕ
main_bytes =
    40 ∷ 0 ∷ 0 ∷ 128 ∷ 24 ∷ 0 ∷ 0 ∷ 0 ∷ 0 ∷ 16 ∷ 0 ∷ 0 ∷ 0 ∷ 0 ∷ 0 ∷ 0 ∷ 0 ∷ 0 ∷ 0 ∷ 0 ∷ 0 ∷ 0 ∷ 0
    ∷ 0 ∷ []

abbrev main_command : LoadCommand
main_command = LoadCommand.main (record { entryoff = 0x1000; stacksize = 0 })

-- A 64-bit ARM executable with that one command.
abbrev thin_file : List ℕ
thin_file =
    207 ∷ 250 ∷ 237 ∷ 254 ∷ 12 ∷ 0 ∷ 0 ∷ 1 ∷ 0 ∷ 0 ∷ 0 ∷ 0 ∷ 2 ∷ 0 ∷ 0 ∷ 0 ∷ 1 ∷ 0 ∷ 0 ∷ 0 ∷ 24 ∷ 0
    ∷ 0 ∷ 0 ∷ 0 ∷ 0 ∷ 0 ∷ 0 ∷ 0 ∷ 0 ∷ 0 ∷ 0 ∷ 40 ∷ 0 ∷ 0 ∷ 128 ∷ 24 ∷ 0 ∷ 0 ∷ 0 ∷ 0 ∷ 16 ∷ 0 ∷ 0 ∷ 0
    ∷ 0 ∷ 0 ∷ 0 ∷ 0 ∷ 0 ∷ 0 ∷ 0 ∷ 0 ∷ 0 ∷ 0 ∷ 0 ∷ []

-- A FAT file with one entry, for ARM64, that is the file itself.
abbrev own_slice_file : List ℕ
own_slice_file =
    202 ∷ 254 ∷ 186 ∷ 190 ∷ 0 ∷ 0 ∷ 0 ∷ 1 ∷ 1 ∷ 0 ∷ 0 ∷ 12 ∷ 0 ∷ 0 ∷ 0 ∷ 0 ∷ 0 ∷ 0 ∷ 0 ∷ 0 ∷ 0 ∷ 0
    ∷ 0 ∷ 28 ∷ 0 ∷ 0 ∷ 0 ∷ 0 ∷ []

parse_main_bytes : parse_command main_bytes false ≡ ok (main_command, 24)
unfolding parse_command
parse_main_bytes = refl

abbrev outcome_entry : Option (Outcome MachoBinary) → Option ℕ
outcome_entry (some (ok m)) = m.entry_point
outcome_entry _ = none

thin_file_entry : outcome_entry (parse 1 thin_file) ≡ some 0x1000
unfolding parse
thin_file_entry = refl

own_slice_of_file : fat_slice own_slice_file ≡ ok own_slice_file
unfolding fat_slice
own_slice_of_file = refl

parse-Returns_example : Returns own_slice_file ⊎ NeverReturns own_slice_file
parse-Returns_example = parse-Returns own_slice_file

parse_command-Parsed_example :
    Parsed
      (word_at false 0 main_bytes)
      (word_at false 4 main_bytes)
      (parse_command main_bytes false)
parse_command-Parsed_example = parse_command-Parsed main_bytes false

parse_commands-Bounded_example : Bounded thin_file 1 32 (parse_commands thin_file 1 32 false)
parse_commands-Bounded_example = parse_commands-Bounded thin_file 1 32 false

parse_command-encode_example :
    parse_command
      (frame true (cmd_id main_command) 24 (encode true (fields main_command) main_bytes))
      true
    ≡ ok (main_command, 24)
parse_command-encode_example =
    parse_command-encode true main_command main_bytes refl (omega arith, (omega arith, tt))

abbrev text_segment : SegmentCommand64
text_segment = record {
  segname = 84 ∷ 0 ∷ [];
  vmaddr = 0;
  vmsize = 4096;
  fileoff = 1;
  filesize = 2;
  maxprot = 5;
  initprot = 5;
  nsects = 0;
  flags = 0;
  sections = [];
  reloff = 0;
  nreloc = 0;
}

abbrev two_commands : List LoadCommand
two_commands = LoadCommand.segment64 text_segment ∷ main_command ∷ []

abbrev arch : ℕ → ℕ → FatArch
arch cputype offset = record {
  cputype = cputype;
  cpusubtype = 0;
  offset = offset;
  size = 28;
  align = 0;
}

abbrev two_archs : List FatArch
two_archs = arch cpu_type_x86_64 4096 ∷ arch cpu_type_arm64 8192 ∷ []

preferred_arch_lem_example :
    ((two_archs ≡ []) × (preferred_arch two_archs ≡ none))
    ⊎ ((a : FatArch) × (preferred_arch two_archs ≡ some a)
        × (IsFirstFor cpu_type_arm64 two_archs a
            ⊎ ((any_cpu cpu_type_arm64 two_archs ≡ false)
                × (IsFirstFor cpu_type_x86_64 two_archs a
                    ⊎ ((any_cpu cpu_type_x86_64 two_archs ≡ false)
                        × ((rest : List FatArch) × (two_archs ≡ a ∷ rest)))))))
preferred_arch_lem_example = preferred_arch_lem two_archs

abbrev BuildOutcome : Type 0
BuildOutcome =
    ((any_overflows main_bytes two_commands ≡ true)
      × (build_binary main_bytes MachOMagic.magic64 none none two_commands ≡ Outcome.panic))
    ⊎ ((any_overflows main_bytes two_commands ≡ false)
        × ((m : MachoBinary) × (build_binary main_bytes MachOMagic.magic64 none none two_commands
              ≡ ok m)
            × (m.contents ≡ main_bytes)
            × (m.commands ≡ two_commands)
            × (m.segments ≡ segments_of two_commands)
            × (m.entry_point ≡ last_entry two_commands none)
            × ((name : List ℕ)
                → lookup name m.segments_data ≡ last_contents main_bytes name two_commands none)))

build_binary_lem_example : BuildOutcome
build_binary_lem_example =
    build_binary_lem main_bytes MachOMagic.magic64 none none two_commands
      ((omega arith, omega arith), (tt, tt))

-- A segment that claims 4,096 sections and has room for one.
abbrev segment_bytes : List ℕ
segment_bytes =
    main_bytes ++ (main_bytes ++ (main_bytes ++ (main_bytes ++ (main_bytes ++ main_bytes))))

parse_segment64-SectionsAt_example :
    (s : SegmentCommand64) × (parse_segment64 segment_bytes false ≡ ok s)
    × (length s.sections ≡ min s.nsects ((length segment_bytes - 64) / 80))
    × SectionsAt segment_bytes false 64 s.sections
parse_segment64-SectionsAt_example = parse_segment64-SectionsAt segment_bytes false (omega arith)

length-parse_relocations_at_example :
    length (parse_relocations_at main_bytes 4 9) ≡ min 9 ((length main_bytes - 4) / 8)
length-parse_relocations_at_example = length-parse_relocations_at main_bytes 4 9 (omega arith)

relocation_of_lem_example :
    let r = relocation_of 0xFFFFFFF0 0x5D000002 in
    (info_word r ≡ 0x5D000002)
    × (r.symbolnum < 2 ^ 24)
    × (r.length < 4)
    × (r.rtype < 16)
    × (r.address < 2 ^ 64)
    × (r.address % 2 ^ 32 ≡ 0xFFFFFFF0)
    × (r.address / 2 ^ 32 ≡ 0xFFFFFFF0 / 2 ^ 31 * (2 ^ 32 - 1))
relocation_of_lem_example = relocation_of_lem 0xFFFFFFF0 0x5D000002 (omega arith) (omega arith)

abbrev page_zero_segment_command : SegmentCommand64
page_zero_segment_command = record text_segment { filesize = 0; vmsize = 0x100000000 }

abbrev small_binary : MachoBinary
small_binary = record {
  contents = main_bytes;
  magic = MachOMagic.magic64;
  header_64 = none;
  header_32 = none;
  commands = LoadCommand.segment64 page_zero_segment_command ∷ two_commands;
  segments = page_zero_segment_command ∷ text_segment ∷ [];
  entry_point = some 0x1000;
  is_driver = false;
  segments_data = [];
}

base_of_small_binary : page_zero_size small_binary ≡ 0x100000000
unfolding page_zero_size
base_of_small_binary = refl

page_zero_size_lem_example : IsPageZeroSize small_binary.commands (page_zero_size small_binary)
page_zero_size_lem_example = page_zero_size_lem small_binary refl
