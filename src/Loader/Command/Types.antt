-- ===== src/Loader/Command/Types.antt =====
-- The load commands of crates/compatra-runtime/src/macos/loader/command.rs. A name or a path is its
-- bytes before `String::from_utf8_lossy`; a signed field is the u32 of the same bits.
use compatra.Common.{ℕ, List}
use compatra.Loader.Command.Thread.{UnixThreadCommand}

pub record SymtabCommand : Type 0 where
  pub symoff : ℕ
  pub nsyms : ℕ
  pub stroff : ℕ
  pub strsize : ℕ

pub record DysymtabCommand : Type 0 where
  pub ilocalsym : ℕ
  pub nlocalsym : ℕ
  pub iextdefsym : ℕ
  pub nextdefsym : ℕ
  pub iundefsym : ℕ
  pub nundefsym : ℕ
  pub tocoff : ℕ
  pub ntoc : ℕ
  pub modtaboff : ℕ
  pub nmodtab : ℕ
  pub extrefsymoff : ℕ
  pub nextrefsyms : ℕ
  pub indirectsymoff : ℕ
  pub nindirectsyms : ℕ
  pub extreloff : ℕ
  pub nextrel : ℕ
  pub locreloff : ℕ
  pub nlocrel : ℕ

pub record MainCommand : Type 0 where
  pub entryoff : ℕ
  pub stacksize : ℕ

pub record CodeSignatureCommand : Type 0 where
  pub data_offset : ℕ
  pub data_size : ℕ

pub record VersionMinCommand : Type 0 where
  pub version : ℕ
  pub reserved : ℕ

pub record SourceVersionCommand : Type 0 where
  pub version : ℕ

pub record SegmentSplitInfoCommand : Type 0 where
  pub data_offset : ℕ
  pub data_size : ℕ

pub record FunctionStartsCommand : Type 0 where
  pub data_offset : ℕ
  pub data_size : ℕ

pub record DyldChainedFixupsCommand : Type 0 where
  pub data_offset : ℕ
  pub data_size : ℕ

pub record DataInCodeCommand : Type 0 where
  pub data_offset : ℕ
  pub data_size : ℕ

pub record DyldInfoOnlyCommand : Type 0 where
  pub rebase_off : ℕ
  pub rebase_size : ℕ
  pub binding_off : ℕ
  pub binding_size : ℕ
  pub weak_binding_off : ℕ
  pub weak_binding_size : ℕ
  pub lazy_binding_off : ℕ
  pub lazy_binding_size : ℕ
  pub export_off : ℕ
  pub export_size : ℕ

pub record Section64 : Type 0 where
  pub sectname : List ℕ
  pub segname : List ℕ
  pub addr : ℕ
  pub size : ℕ
  pub offset : ℕ
  pub align : ℕ
  pub reloff : ℕ
  pub nreloc : ℕ
  pub flags : ℕ
  pub reserved1 : ℕ
  pub reserved2 : ℕ
  pub reserved3 : ℕ

pub record Section32 : Type 0 where
  pub sectname : List ℕ
  pub segname : List ℕ
  pub addr : ℕ
  pub size : ℕ
  pub offset : ℕ
  pub align : ℕ
  pub reloff : ℕ
  pub nreloc : ℕ
  pub flags : ℕ
  pub reserved1 : ℕ
  pub reserved2 : ℕ

pub record SegmentCommand64 : Type 0 where
  pub segname : List ℕ
  pub vmaddr : ℕ
  pub vmsize : ℕ
  pub fileoff : ℕ
  pub filesize : ℕ
  pub maxprot : ℕ
  pub initprot : ℕ
  pub nsects : ℕ
  pub flags : ℕ
  pub sections : List Section64
  pub reloff : ℕ
  pub nreloc : ℕ

pub record SegmentCommand32 : Type 0 where
  pub segname : List ℕ
  pub vmaddr : ℕ
  pub vmsize : ℕ
  pub fileoff : ℕ
  pub filesize : ℕ
  pub maxprot : ℕ
  pub initprot : ℕ
  pub nsects : ℕ
  pub flags : ℕ
  pub sections : List Section32

pub record DylinkerCommand : Type 0 where
  pub name_offset : ℕ
  pub name : List ℕ

pub record IdDylinkerCommand : Type 0 where
  pub name_offset : ℕ
  pub name : List ℕ

pub record DylibCommand : Type 0 where
  pub name_offset : ℕ
  pub timestamp : ℕ
  pub current_version : ℕ
  pub compatibility_version : ℕ
  pub name : List ℕ

pub record RpathCommand : Type 0 where
  pub path_offset : ℕ
  pub path : List ℕ

pub record UuidCommand : Type 0 where
  pub uuid : List ℕ

pub data LoadCommand : Type 0 where
  segment64 : SegmentCommand64 → LoadCommand
  segment : SegmentCommand32 → LoadCommand
  symtab : SymtabCommand → LoadCommand
  dysymtab : DysymtabCommand → LoadCommand
  dylinker : DylinkerCommand → LoadCommand
  id_dylinker : IdDylinkerCommand → LoadCommand
  uuid : UuidCommand → LoadCommand
  unixthread : UnixThreadCommand → LoadCommand
  main : MainCommand → LoadCommand
  dylib : DylibCommand → LoadCommand
  id_dylib : DylibCommand → LoadCommand
  rpath : RpathCommand → LoadCommand
  code_signature : CodeSignatureCommand → LoadCommand
  version_min_macosx : VersionMinCommand → LoadCommand
  version_min_iphoneos : VersionMinCommand → LoadCommand
  source_version : SourceVersionCommand → LoadCommand
  segment_split_info : SegmentSplitInfoCommand → LoadCommand
  function_starts : FunctionStartsCommand → LoadCommand
  data_in_code : DataInCodeCommand → LoadCommand
  dyld_info_only : DyldInfoOnlyCommand → LoadCommand
  dyld_chained_fixups : DyldChainedFixupsCommand → LoadCommand
  unknown : ℕ → ℕ → List ℕ → LoadCommand
