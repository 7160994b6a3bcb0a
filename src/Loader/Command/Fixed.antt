-- ===== src/Loader/Command/Fixed.antt =====
-- The parse functions of the load commands with a fixed layout in
-- crates/compatra-runtime/src/macos/loader/command.rs: a length check, then one read for each field.
use compatra.Common.{ℕ, List, Bool, ltb, if◌then◌else◌, length, take}
use compatra.Loader.Cursor.{
  Outcome, ok, err, Read, read_u32, read_u64, uuid_too_short, symtab_too_short, dysymtab_too_short,
  main_too_short, code_signature_too_short, version_min_too_short, source_version_too_short,
  segment_split_info_too_short, function_starts_too_short, dyld_chained_fixups_too_short,
  data_in_code_too_short, dyld_info_only_too_short,
}
use compatra.Loader.Read.{◌>>=◌, pure, value_of}
use compatra.Loader.Command.Types.{
  UuidCommand, SymtabCommand, DysymtabCommand, MainCommand, CodeSignatureCommand, VersionMinCommand,
  SourceVersionCommand, SegmentSplitInfoCommand, FunctionStartsCommand, DyldChainedFixupsCommand,
  DataInCodeCommand, DyldInfoOnlyCommand,
}

unfoldable pub read_symtab : Bool → Read SymtabCommand
unfolding read_u32
read_symtab big = do
  symoff' ← read_u32 big
  nsyms' ← read_u32 big
  stroff' ← read_u32 big
  strsize' ← read_u32 big
  pure (record { symoff = symoff'; nsyms = nsyms'; stroff = stroff'; strsize = strsize' })

unfoldable pub parse_symtab : List ℕ → Bool → Outcome SymtabCommand
unfolding read_symtab
parse_symtab bs big =
    if ltb (length bs) 16 then err symtab_too_short else value_of (read_symtab big bs)

unfoldable pub read_dysymtab : Bool → Read DysymtabCommand
unfolding read_u32
read_dysymtab big = do
  ilocalsym' ← read_u32 big
  nlocalsym' ← read_u32 big
  iextdefsym' ← read_u32 big
  nextdefsym' ← read_u32 big
  iundefsym' ← read_u32 big
  nundefsym' ← read_u32 big
  tocoff' ← read_u32 big
  ntoc' ← read_u32 big
  modtaboff' ← read_u32 big
  nmodtab' ← read_u32 big
  extrefsymoff' ← read_u32 big
  nextrefsyms' ← read_u32 big
  indirectsymoff' ← read_u32 big
  nindirectsyms' ← read_u32 big
  extreloff' ← read_u32 big
  nextrel' ← read_u32 big
  locreloff' ← read_u32 big
  nlocrel' ← read_u32 big
  pure (record {
    ilocalsym = ilocalsym';
    nlocalsym = nlocalsym';
    iextdefsym = iextdefsym';
    nextdefsym = nextdefsym';
    iundefsym = iundefsym';
    nundefsym = nundefsym';
    tocoff = tocoff';
    ntoc = ntoc';
    modtaboff = modtaboff';
    nmodtab = nmodtab';
    extrefsymoff = extrefsymoff';
    nextrefsyms = nextrefsyms';
    indirectsymoff = indirectsymoff';
    nindirectsyms = nindirectsyms';
    extreloff = extreloff';
    nextrel = nextrel';
    locreloff = locreloff';
    nlocrel = nlocrel';
  })

unfoldable pub parse_dysymtab : List ℕ → Bool → Outcome DysymtabCommand
unfolding read_dysymtab
parse_dysymtab bs big =
    if ltb (length bs) 72 then err dysymtab_too_short else value_of (read_dysymtab big bs)

unfoldable pub read_main : Bool → Read MainCommand
unfolding read_u64
read_main big = do
  entryoff' ← read_u64 big
  stacksize' ← read_u64 big
  pure (record { entryoff = entryoff'; stacksize = stacksize' })

unfoldable pub parse_main : List ℕ → Bool → Outcome MainCommand
unfolding read_main
parse_main bs big = if ltb (length bs) 16 then err main_too_short else value_of (read_main big bs)

unfoldable pub read_code_signature : Bool → Read CodeSignatureCommand
unfolding read_u32
read_code_signature big = do
  data_offset' ← read_u32 big
  data_size' ← read_u32 big
  pure (record { data_offset = data_offset'; data_size = data_size' })

unfoldable pub parse_code_signature : List ℕ → Bool → Outcome CodeSignatureCommand
unfolding read_code_signature
parse_code_signature bs big =
    if ltb (length bs) 8
    then err code_signature_too_short
    else value_of (read_code_signature big bs)

unfoldable pub read_version_min : Bool → Read VersionMinCommand
unfolding read_u32
read_version_min big = do
  version' ← read_u32 big
  reserved' ← read_u32 big
  pure (record { version = version'; reserved = reserved' })

unfoldable pub parse_version_min : List ℕ → Bool → Outcome VersionMinCommand
unfolding read_version_min
parse_version_min bs big =
    if ltb (length bs) 8 then err version_min_too_short else value_of (read_version_min big bs)

unfoldable pub read_source_version : Bool → Read SourceVersionCommand
unfolding read_u64
read_source_version big = do version' ← read_u64 big; pure (record { version = version' })

unfoldable pub parse_source_version : List ℕ → Bool → Outcome SourceVersionCommand
unfolding read_source_version
parse_source_version bs big =
    if ltb (length bs) 8
    then err source_version_too_short
    else value_of (read_source_version big bs)

unfoldable pub read_segment_split_info : Bool → Read SegmentSplitInfoCommand
unfolding read_u32
read_segment_split_info big = do
  data_offset' ← read_u32 big
  data_size' ← read_u32 big
  pure (record { data_offset = data_offset'; data_size = data_size' })

unfoldable pub parse_segment_split_info : List ℕ → Bool → Outcome SegmentSplitInfoCommand
unfolding read_segment_split_info
parse_segment_split_info bs big =
    if ltb (length bs) 8
    then err segment_split_info_too_short
    else value_of (read_segment_split_info big bs)

unfoldable pub read_function_starts : Bool → Read FunctionStartsCommand
unfolding read_u32
read_function_starts big = do
  data_offset' ← read_u32 big
  data_size' ← read_u32 big
  pure (record { data_offset = data_offset'; data_size = data_size' })

unfoldable pub parse_function_starts : List ℕ → Bool → Outcome FunctionStartsCommand
unfolding read_function_starts
parse_function_starts bs big =
    if ltb (length bs) 8
    then err function_starts_too_short
    else value_of (read_function_starts big bs)

unfoldable pub read_dyld_chained_fixups : Bool → Read DyldChainedFixupsCommand
unfolding read_u32
read_dyld_chained_fixups big = do
  data_offset' ← read_u32 big
  data_size' ← read_u32 big
  pure (record { data_offset = data_offset'; data_size = data_size' })

unfoldable pub parse_dyld_chained_fixups : List ℕ → Bool → Outcome DyldChainedFixupsCommand
unfolding read_dyld_chained_fixups
parse_dyld_chained_fixups bs big =
    if ltb (length bs) 8
    then err dyld_chained_fixups_too_short
    else value_of (read_dyld_chained_fixups big bs)

unfoldable pub read_data_in_code : Bool → Read DataInCodeCommand
unfolding read_u32
read_data_in_code big = do
  data_offset' ← read_u32 big
  data_size' ← read_u32 big
  pure (record { data_offset = data_offset'; data_size = data_size' })

unfoldable pub parse_data_in_code : List ℕ → Bool → Outcome DataInCodeCommand
unfolding read_data_in_code
parse_data_in_code bs big =
    if ltb (length bs) 8 then err data_in_code_too_short else value_of (read_data_in_code big bs)

unfoldable pub read_dyld_info_only : Bool → Read DyldInfoOnlyCommand
unfolding read_u32
read_dyld_info_only big = do
  rebase_off' ← read_u32 big
  rebase_size' ← read_u32 big
  binding_off' ← read_u32 big
  binding_size' ← read_u32 big
  weak_binding_off' ← read_u32 big
  weak_binding_size' ← read_u32 big
  lazy_binding_off' ← read_u32 big
  lazy_binding_size' ← read_u32 big
  export_off' ← read_u32 big
  export_size' ← read_u32 big
  pure (record {
    rebase_off = rebase_off';
    rebase_size = rebase_size';
    binding_off = binding_off';
    binding_size = binding_size';
    weak_binding_off = weak_binding_off';
    weak_binding_size = weak_binding_size';
    lazy_binding_off = lazy_binding_off';
    lazy_binding_size = lazy_binding_size';
    export_off = export_off';
    export_size = export_size';
  })

unfoldable pub parse_dyld_info_only : List ℕ → Bool → Outcome DyldInfoOnlyCommand
unfolding read_dyld_info_only
parse_dyld_info_only bs big =
    if ltb (length bs) 40
    then err dyld_info_only_too_short
    else value_of (read_dyld_info_only big bs)

unfoldable pub parse_uuid : List ℕ → Outcome UuidCommand
parse_uuid bs = if ltb (length bs) 16 then err uuid_too_short else ok (record { uuid = take 16 bs })
