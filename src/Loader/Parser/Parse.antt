-- ===== src/Loader/Parser/Parse.antt =====
-- `MachoBinary::parse` and `parse_fat` of crates/compatra-runtime/src/macos/loader/parser.rs. The two
-- call each other: they recur on fuel, and `none` says that it ran out.
use compatra.Common.{
  ℕ, zero, suc, ◌+◌, List, Option, none, some, Bool, true, false, ltb, leb, length, take, drop,
}
use compatra.Common.Bytes.{value}
use compatra.Loader.Cursor.{
  Outcome, ok, err, panic, file_too_short, failed_to_parse_fat, unknown_magic, header_parse_error,
}
use compatra.Loader.Header.{
  MachOMagic, from_u32, is_cigam, detect_mach_header, detect_mach_header64, word_at,
}
use compatra.Loader.Parser.Commands.{parse_commands}
use compatra.Loader.Parser.Binary.{MachoBinary, build_binary}
use compatra.Loader.Parser.Fat.{fat_architectures, preferred_arch}

unfoldable pub parse32 : List ℕ → Outcome MachoBinary
unfolding detect_mach_header parse_commands build_binary
parse32 bs = elim (detect_mach_header bs) [
  | panic ↦ panic
  | err e ↦ err (header_parse_error e)
  | ok (h, big) ↦ elim (parse_commands bs h.ncmds 28 big) [
    | panic ↦ panic
    | err e ↦ err e
    | ok cs ↦ build_binary bs MachOMagic.magic32 (some h) none cs
  ]
]

-- The second attempt of a byte-swapped file, in little-endian order.
unfoldable pub parse64_again : List ℕ → Outcome MachoBinary
unfolding detect_mach_header64 parse_commands build_binary
parse64_again bs = elim (detect_mach_header64 bs) [
  | panic ↦ panic
  | err e ↦ err (header_parse_error e)
  | ok (h, big) ↦ elim (parse_commands bs h.ncmds 32 false) [
    | panic ↦ panic
    | err e ↦ err e
    | ok cs ↦ build_binary bs MachOMagic.magic64 none (some h) cs
  ]
]

unfoldable pub parse64 : List ℕ → Bool → Outcome MachoBinary
unfolding detect_mach_header64 parse_commands build_binary parse64_again
parse64 bs swapped = elim (detect_mach_header64 bs) [
  | panic ↦ panic
  | err e ↦ err (header_parse_error e)
  | ok (h, big) ↦ elim (parse_commands bs h.ncmds 32 big) [
    | panic ↦ panic
    | ok cs ↦ build_binary bs MachOMagic.magic64 none (some h) cs
    | err e ↦ elim swapped [ true ↦ parse64_again bs | false ↦ err e ]
  ]
]

-- The branch of an unknown magic. Its own test for a byte-swapped magic leads to a 64-bit parse.
unfoldable pub parse_unknown : List ℕ → ℕ → Outcome MachoBinary
unfolding parse64
parse_unknown bs magic_le = elim (is_cigam magic_le) [
  | true ↦ parse64 bs false
  | false ↦ err (unknown_magic magic_le)
]

-- The slice of the file that `parse_fat` descends into.
unfoldable pub fat_slice : List ℕ → Outcome (List ℕ)
unfolding fat_architectures preferred_arch
fat_slice bs = elim (fat_architectures bs) [
  | panic ↦ panic
  | err e ↦ err e
  | ok archs ↦ elim (preferred_arch archs) [
    | none ↦ err failed_to_parse_fat
    | some a ↦ elim (leb (a.offset + a.size) (length bs)) [
      | true ↦ ok (take a.size (drop a.offset bs))
      | false ↦ err failed_to_parse_fat
    ]
  ]
]

unfoldable pub parse : ℕ → List ℕ → Option (Outcome MachoBinary)
unfolding from_u32 value parse32 parse64 parse_unknown fat_slice
parse zero bs = none
parse (suc fuel) bs = elim (ltb (length bs) 4) [
  | true ↦ some (err file_too_short)
  | false ↦ elim (from_u32 (word_at false 0 bs)) [
    | MachOMagic.magic32 ↦ some (parse32 bs)
    | MachOMagic.magic64 ↦ some (parse64 bs (is_cigam (word_at false 0 bs)))
    | MachOMagic.unknown ↦ some (parse_unknown bs (word_at false 0 bs))
    | MachOMagic.fat ↦ elim (fat_slice bs) [
      | panic ↦ some panic
      | err e ↦ some (err e)
      | ok inner ↦ parse fuel inner
    ]
  ]
]
