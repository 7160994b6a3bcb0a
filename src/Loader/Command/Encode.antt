-- ===== src/Loader/Command/Encode.antt =====
-- `LoadCommand::parse` of crates/compatra-runtime/src/macos/loader/command.rs reads back the commands of a
-- fixed layout.
use mathlib.Core.List.{append_assoc}
use compatra.Common.{
  ℕ, ◌+◌, ◌^◌, ◌<◌, ◌≤◌, ◌≡◌, sym, ap, ◌∙◌, List, [], ◌++◌, Bool, true, false, ◌||◌, ltb, length,
  length-append, drop, All, arith,
}
use compatra.Common.Bytes.{bytes, length-bytes, value-bytes, drop-append}
use compatra.Loader.Cursor.{ok, unexpected_eof, read_exact-append}
use compatra.Loader.Command.Types.{LoadCommand}
use compatra.Loader.Command.Dispatch.{
  wrap, with_size, parse_body, parse_sized, parse_command, cmd_id,
}
use compatra.Loader.Command.RoundTrip.{
  Field, FitsField, encode, width, symtab_fields, dysymtab_fields, main_fields,
  code_signature_fields, version_min_fields, source_version_fields, segment_split_info_fields,
  function_starts_fields, data_in_code_fields, dyld_info_only_fields, dyld_chained_fixups_fields,
  parse_symtab-encode, parse_dysymtab-encode, parse_main-encode, parse_code_signature-encode,
  parse_version_min-encode, parse_source_version-encode, parse_segment_split_info-encode,
  parse_function_starts-encode, parse_data_in_code-encode, parse_dyld_info_only-encode,
  parse_dyld_chained_fixups-encode,
}

-- A command word, a size word and the data.
abbrev pub frame : Bool → ℕ → ℕ → List ℕ → List ℕ
frame big cmd size body = bytes big 4 cmd ++ (bytes big 4 size ++ body)

drop_words : (xs ys zs : List ℕ) → length xs ≡ 4 → length ys ≡ 4 → drop 8 (xs ++ (ys ++ zs)) ≡ zs
drop_words xs ys zs h k =
    ap (drop 8) (sym (append_assoc xs ys zs))
    ∙ drop-append 8 (xs ++ ys) zs (omega (arith, length-append xs ys))

size_passes : (size : ℕ) → 8 ≤ size → size ≤ 65536 → (ltb size 8 || ltb 65536 size) ≡ false
size_passes size low high = ground arith

frame_long :
    (big : Bool) (cmd size : ℕ) (body : List ℕ) → ltb (length (frame big cmd size body)) 8 ≡ false
frame_long big cmd size body = ground (
  arith,
  length-append (bytes big 4 cmd) (bytes big 4 size ++ body),
  length-append (bytes big 4 size) body,
  length-bytes big 4 cmd,
  length-bytes big 4 size,
)

parse_sized-frame :
    (big : Bool) (cmd size : ℕ) (body : List ℕ)
    → 8 ≤ size
    → size ≤ 65536
    → parse_sized cmd size (frame big cmd size body) big
      ≡ with_size size (parse_body cmd size body big)
unfolding parse_sized
parse_sized-frame big cmd size body low high = rw (
  parse_sized,
  size_passes size low high,
  drop_words (bytes big 4 cmd) (bytes big 4 size) body (length-bytes big 4 cmd)
      (length-bytes big 4 size),
)

parse_command-frame :
    (big : Bool) (cmd size : ℕ) (body : List ℕ)
    → cmd < 2 ^ 32
    → 8 ≤ size
    → size ≤ 65536
    → parse_command (frame big cmd size body) big ≡ with_size size (parse_body cmd size body big)
unfolding parse_command
parse_command-frame big cmd size body h low high =
    rw
      (
        parse_command,
        frame_long big cmd size body,
        read_exact-append unexpected_eof 4 (bytes big 4 cmd) (bytes big 4 size ++ body)
            (length-bytes big 4 cmd),
        read_exact-append unexpected_eof 4 (bytes big 4 size) body (length-bytes big 4 size),
        value-bytes big 4 cmd h,
        value-bytes big 4 size (omega arith),
      )
      (parse_sized-frame big cmd size body low high)

-- The commands of a fixed layout, and their fields behind the two words of every command.
abbrev pub is_fixed : LoadCommand → Bool
is_fixed (LoadCommand.symtab c) = true
is_fixed (LoadCommand.dysymtab c) = true
is_fixed (LoadCommand.main c) = true
is_fixed (LoadCommand.code_signature c) = true
is_fixed (LoadCommand.version_min_macosx c) = true
is_fixed (LoadCommand.version_min_iphoneos c) = true
is_fixed (LoadCommand.source_version c) = true
is_fixed (LoadCommand.segment_split_info c) = true
is_fixed (LoadCommand.function_starts c) = true
is_fixed (LoadCommand.data_in_code c) = true
is_fixed (LoadCommand.dyld_info_only c) = true
is_fixed (LoadCommand.dyld_chained_fixups c) = true
is_fixed _ = false

abbrev pub fields : LoadCommand → List Field
fields (LoadCommand.symtab c) = symtab_fields c
fields (LoadCommand.dysymtab c) = dysymtab_fields c
fields (LoadCommand.main c) = main_fields c
fields (LoadCommand.code_signature c) = code_signature_fields c
fields (LoadCommand.version_min_macosx c) = version_min_fields c
fields (LoadCommand.version_min_iphoneos c) = version_min_fields c
fields (LoadCommand.source_version c) = source_version_fields c
fields (LoadCommand.segment_split_info c) = segment_split_info_fields c
fields (LoadCommand.function_starts c) = function_starts_fields c
fields (LoadCommand.data_in_code c) = data_in_code_fields c
fields (LoadCommand.dyld_info_only c) = dyld_info_only_fields c
fields (LoadCommand.dyld_chained_fixups c) = dyld_chained_fixups_fields c
fields _ = []

-- A command of a fixed layout whose fields have their widths, written out with its id and its size in
-- either byte order, parses to itself and its size, whatever follows it.
pub parse_command-encode :
    (big : Bool) (c : LoadCommand) (rest : List ℕ)
    → is_fixed c ≡ true
    → All FitsField (fields c)
    → parse_command (frame big (cmd_id c) (8 + width (fields c)) (encode big (fields c) rest)) big
      ≡ ok (c, 8 + width (fields c))
unfolding parse_body cmd_id
parse_command-encode big (LoadCommand.symtab c) rest fixed h =
    parse_command-frame big _ _ (encode big (symtab_fields c) rest) (omega arith) (omega arith)
      (omega arith)
    ∙ ap (λ o. with_size (8 + width (symtab_fields c)) (wrap LoadCommand.symtab o))
        (parse_symtab-encode big c rest h)
parse_command-encode big (LoadCommand.dysymtab c) rest fixed h =
    parse_command-frame big _ _ (encode big (dysymtab_fields c) rest) (omega arith) (omega arith)
      (omega arith)
    ∙ ap (λ o. with_size (8 + width (dysymtab_fields c)) (wrap LoadCommand.dysymtab o))
        (parse_dysymtab-encode big c rest h)
parse_command-encode big (LoadCommand.main c) rest fixed h =
    parse_command-frame big _ _ (encode big (main_fields c) rest) (omega arith) (omega arith)
      (omega arith)
    ∙ ap (λ o. with_size (8 + width (main_fields c)) (wrap LoadCommand.main o))
        (parse_main-encode big c rest h)
parse_command-encode big (LoadCommand.code_signature c) rest fixed h =
    parse_command-frame big _ _ (encode big (code_signature_fields c) rest) (omega arith)
      (omega arith) (omega arith)
    ∙ ap (λ o. with_size (8 + width (code_signature_fields c)) (wrap LoadCommand.code_signature o))
        (parse_code_signature-encode big c rest h)
parse_command-encode big (LoadCommand.version_min_macosx c) rest fixed h =
    parse_command-frame big _ _ (encode big (version_min_fields c) rest) (omega arith) (omega arith)
      (omega arith)
    ∙ ap (λ o. with_size (8 + width (version_min_fields c)) (wrap LoadCommand.version_min_macosx o))
        (parse_version_min-encode big c rest h)
parse_command-encode big (LoadCommand.version_min_iphoneos c) rest fixed h =
    parse_command-frame big _ _ (encode big (version_min_fields c) rest) (omega arith) (omega arith)
      (omega arith)
    ∙ ap
        (λ o.
          with_size (8 + width (version_min_fields c)) (wrap LoadCommand.version_min_iphoneos o))
        (parse_version_min-encode big c rest h)
parse_command-encode big (LoadCommand.source_version c) rest fixed h =
    parse_command-frame big _ _ (encode big (source_version_fields c) rest) (omega arith)
      (omega arith) (omega arith)
    ∙ ap (λ o. with_size (8 + width (source_version_fields c)) (wrap LoadCommand.source_version o))
        (parse_source_version-encode big c rest h)
parse_command-encode big (LoadCommand.segment_split_info c) rest fixed h =
    parse_command-frame big _ _ (encode big (segment_split_info_fields c) rest) (omega arith)
      (omega arith) (omega arith)
    ∙ ap
        (λ o.
          with_size (8 + width (segment_split_info_fields c))
            (wrap LoadCommand.segment_split_info o))
        (parse_segment_split_info-encode big c rest h)
parse_command-encode big (LoadCommand.function_starts c) rest fixed h =
    parse_command-frame big _ _ (encode big (function_starts_fields c) rest) (omega arith)
      (omega arith) (omega arith)
    ∙ ap
        (λ o. with_size (8 + width (function_starts_fields c)) (wrap LoadCommand.function_starts o))
        (parse_function_starts-encode big c rest h)
parse_command-encode big (LoadCommand.data_in_code c) rest fixed h =
    parse_command-frame big _ _ (encode big (data_in_code_fields c) rest) (omega arith)
      (omega arith) (omega arith)
    ∙ ap (λ o. with_size (8 + width (data_in_code_fields c)) (wrap LoadCommand.data_in_code o))
        (parse_data_in_code-encode big c rest h)
parse_command-encode big (LoadCommand.dyld_info_only c) rest fixed h =
    parse_command-frame big _ _ (encode big (dyld_info_only_fields c) rest) (omega arith)
      (omega arith) (omega arith)
    ∙ ap (λ o. with_size (8 + width (dyld_info_only_fields c)) (wrap LoadCommand.dyld_info_only o))
        (parse_dyld_info_only-encode big c rest h)
parse_command-encode big (LoadCommand.dyld_chained_fixups c) rest fixed h =
    parse_command-frame big _ _ (encode big (dyld_chained_fixups_fields c) rest) (omega arith)
      (omega arith) (omega arith)
    ∙ ap
        (λ o.
          with_size (8 + width (dyld_chained_fixups_fields c))
            (wrap LoadCommand.dyld_chained_fixups o))
        (parse_dyld_chained_fixups-encode big c rest h)
parse_command-encode big _ rest fixed h = absurd (ground arith)
