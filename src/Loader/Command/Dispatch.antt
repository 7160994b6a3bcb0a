-- ===== src/Loader/Command/Dispatch.antt =====
-- `LoadCommand::parse` and `LoadCommand::cmd_id` of
-- crates/compatra-runtime/src/macos/loader/command.rs.
use compatra.Common.{ℕ, List, Bool, ◌==◌, ◌||◌, true, false, ltb, if◌then◌else◌, length, drop}
use compatra.Loader.Consts.{
  lc_segment_64, lc_segment, lc_symtab, lc_dysymtab, lc_load_dylinker, lc_id_dylinker, lc_uuid,
  lc_unixthread, lc_main, lc_id_dylib, lc_rpath, lc_code_signature, lc_version_min_macosx,
  lc_version_min_iphoneos, lc_source_version, lc_segment_split_info, lc_function_starts,
  lc_data_in_code, lc_dyld_info_only, lc_dyld_chained_fixups, lc_load_dylib, lc_load_weak_dylib,
}
use compatra.Loader.Cursor.{
  Outcome, ok, err, panic, read_exact, unexpected_eof, load_command_too_short, invalid_cmdsize,
}
use compatra.Common.Bytes.{value}
use compatra.Loader.Command.Types.{LoadCommand}
use compatra.Loader.Command.Thread.{parse_unix_thread}
use compatra.Loader.Command.Fixed.{
  parse_code_signature, parse_data_in_code, parse_dyld_chained_fixups, parse_dyld_info_only,
  parse_dysymtab, parse_function_starts, parse_main, parse_segment_split_info, parse_source_version,
  parse_symtab, parse_uuid, parse_version_min,
}
use compatra.Loader.Command.Names.{parse_dylinker, parse_id_dylinker, parse_dylib, parse_rpath}
use compatra.Loader.Command.Segments.{parse_segment64, parse_segment32}

abbrev pub wrap {ℓ} : {A : Type ℓ} → (A → LoadCommand) → Outcome A → Outcome LoadCommand
wrap f (ok a) = ok (f a)
wrap f (err e) = err e
wrap f panic = panic

-- The `match cmd`.
unfoldable pub parse_body : ℕ → ℕ → List ℕ → Bool → Outcome LoadCommand
unfolding parse_code_signature parse_data_in_code parse_dyld_chained_fixups parse_dyld_info_only
    parse_dylib parse_dylinker parse_dysymtab parse_function_starts parse_id_dylinker parse_main
    parse_rpath parse_segment32 parse_segment64 parse_segment_split_info parse_source_version
    parse_symtab parse_unix_thread parse_uuid parse_version_min
parse_body cmd cmdsize bs big =
    if cmd == lc_segment_64
    then wrap LoadCommand.segment64 (parse_segment64 bs big)
    else if cmd == lc_segment
    then wrap LoadCommand.segment (parse_segment32 bs big)
    else if cmd == lc_symtab
    then wrap LoadCommand.symtab (parse_symtab bs big)
    else if cmd == lc_dysymtab
    then wrap LoadCommand.dysymtab (parse_dysymtab bs big)
    else if cmd == lc_load_dylinker
    then wrap LoadCommand.dylinker (parse_dylinker bs big)
    else if cmd == lc_id_dylinker
    then wrap LoadCommand.id_dylinker (parse_id_dylinker bs big)
    else if cmd == lc_uuid
    then wrap LoadCommand.uuid (parse_uuid bs)
    else if cmd == lc_unixthread
    then wrap LoadCommand.unixthread (parse_unix_thread bs big)
    else if cmd == lc_main
    then wrap LoadCommand.main (parse_main bs big)
    else if cmd == lc_load_dylib || cmd == lc_load_weak_dylib
    then wrap LoadCommand.dylib (parse_dylib bs big)
    else if cmd == lc_id_dylib
    then wrap LoadCommand.id_dylib (parse_dylib bs big)
    else if cmd == lc_rpath
    then wrap LoadCommand.rpath (parse_rpath bs big)
    else if cmd == lc_code_signature
    then wrap LoadCommand.code_signature (parse_code_signature bs big)
    else if cmd == lc_version_min_macosx
    then wrap LoadCommand.version_min_macosx (parse_version_min bs big)
    else if cmd == lc_version_min_iphoneos
    then wrap LoadCommand.version_min_iphoneos (parse_version_min bs big)
    else if cmd == lc_source_version
    then wrap LoadCommand.source_version (parse_source_version bs big)
    else if cmd == lc_segment_split_info
    then wrap LoadCommand.segment_split_info (parse_segment_split_info bs big)
    else if cmd == lc_function_starts
    then wrap LoadCommand.function_starts (parse_function_starts bs big)
    else if cmd == lc_data_in_code
    then wrap LoadCommand.data_in_code (parse_data_in_code bs big)
    else if cmd == lc_dyld_info_only
    then wrap LoadCommand.dyld_info_only (parse_dyld_info_only bs big)
    else if cmd == lc_dyld_chained_fixups
    then wrap LoadCommand.dyld_chained_fixups (parse_dyld_chained_fixups bs big)
    else ok (LoadCommand.unknown cmd cmdsize bs)

abbrev pub with_size : ℕ → Outcome LoadCommand → Outcome (LoadCommand × ℕ)
with_size cmdsize (ok c) = ok (c, cmdsize)
with_size cmdsize (err e) = err e
with_size cmdsize panic = panic

-- The check of the size, and the command. Its data is everything behind its first 8 bytes.
unfoldable pub parse_sized : ℕ → ℕ → List ℕ → Bool → Outcome (LoadCommand × ℕ)
unfolding parse_body
parse_sized cmd cmdsize bs big = elim (ltb cmdsize 8 || ltb 65536 cmdsize) [
  | true ↦ err (invalid_cmdsize cmdsize)
  | false ↦ with_size cmdsize (parse_body cmd cmdsize (drop 8 bs) big)
]

unfoldable pub parse_command : List ℕ → Bool → Outcome (LoadCommand × ℕ)
unfolding read_exact parse_sized value
parse_command bs big = elim (ltb (length bs) 8) [
  | true ↦ err load_command_too_short
  | false ↦ elim (read_exact unexpected_eof 4 bs) [
    | panic ↦ panic
    | err e ↦ err e
    | ok (cmd, behind) ↦ elim (read_exact unexpected_eof 4 behind) [
      | panic ↦ panic
      | err e ↦ err e
      | ok (size, rest) ↦ parse_sized (value big cmd) (value big size) bs big
    ]
  ]
]

unfoldable pub cmd_id : LoadCommand → ℕ
cmd_id (LoadCommand.segment64 c) = lc_segment_64
cmd_id (LoadCommand.segment c) = lc_segment
cmd_id (LoadCommand.symtab c) = lc_symtab
cmd_id (LoadCommand.dysymtab c) = lc_dysymtab
cmd_id (LoadCommand.dylinker c) = lc_load_dylinker
cmd_id (LoadCommand.id_dylinker c) = lc_id_dylinker
cmd_id (LoadCommand.uuid c) = lc_uuid
cmd_id (LoadCommand.unixthread c) = lc_unixthread
cmd_id (LoadCommand.main c) = lc_main
cmd_id (LoadCommand.dylib c) = lc_load_dylib
cmd_id (LoadCommand.id_dylib c) = lc_id_dylib
cmd_id (LoadCommand.rpath c) = lc_rpath
cmd_id (LoadCommand.code_signature c) = lc_code_signature
cmd_id (LoadCommand.version_min_macosx c) = lc_version_min_macosx
cmd_id (LoadCommand.version_min_iphoneos c) = lc_version_min_iphoneos
cmd_id (LoadCommand.source_version c) = lc_source_version
cmd_id (LoadCommand.segment_split_info c) = lc_segment_split_info
cmd_id (LoadCommand.function_starts c) = lc_function_starts
cmd_id (LoadCommand.data_in_code c) = lc_data_in_code
cmd_id (LoadCommand.dyld_info_only c) = lc_dyld_info_only
cmd_id (LoadCommand.dyld_chained_fixups c) = lc_dyld_chained_fixups
cmd_id (LoadCommand.unknown cmd cmd_size bs) = cmd
