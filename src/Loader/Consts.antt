-- ===== src/Loader/Consts.antt =====
-- The constants of crates/compatra-runtime/src/macos/loader/consts.rs that the loader uses.
use compatra.Common.{ℕ}

abbrev pub mh_magic_32 : ℕ
mh_magic_32 = 0xFEEDFACE

abbrev pub mh_cigam_32 : ℕ
mh_cigam_32 = 0xCEFAEDFE

abbrev pub mh_magic_64 : ℕ
mh_magic_64 = 0xFEEDFACF

abbrev pub mh_cigam_64 : ℕ
mh_cigam_64 = 0xCFFAEDFE

abbrev pub fat_magic : ℕ
fat_magic = 0xBEBAFECA

abbrev pub fat_cigam : ℕ
fat_cigam = 0xCAFEBABE

abbrev pub cpu_type_x86 : ℕ
cpu_type_x86 = 0x7

abbrev pub cpu_type_x86_64 : ℕ
cpu_type_x86_64 = 0x1000007

abbrev pub cpu_type_arm : ℕ
cpu_type_arm = 0xC

abbrev pub cpu_type_arm64 : ℕ
cpu_type_arm64 = 0x100000C

abbrev pub mh_kext_bundle : ℕ
mh_kext_bundle = 0xB

abbrev pub lc_segment : ℕ
lc_segment = 0x1

abbrev pub lc_symtab : ℕ
lc_symtab = 0x2

abbrev pub lc_unixthread : ℕ
lc_unixthread = 0x5

abbrev pub lc_dysymtab : ℕ
lc_dysymtab = 0xB

abbrev pub lc_load_dylib : ℕ
lc_load_dylib = 0xC

abbrev pub lc_id_dylib : ℕ
lc_id_dylib = 0xD

abbrev pub lc_load_dylinker : ℕ
lc_load_dylinker = 0xE

abbrev pub lc_id_dylinker : ℕ
lc_id_dylinker = 0xF

abbrev pub lc_load_weak_dylib : ℕ
lc_load_weak_dylib = 0x80000018

abbrev pub lc_segment_64 : ℕ
lc_segment_64 = 0x19

abbrev pub lc_uuid : ℕ
lc_uuid = 0x1B

abbrev pub lc_rpath : ℕ
lc_rpath = 0x8000001C

abbrev pub lc_code_signature : ℕ
lc_code_signature = 0x1D

abbrev pub lc_segment_split_info : ℕ
lc_segment_split_info = 0x1E

abbrev pub lc_version_min_macosx : ℕ
lc_version_min_macosx = 0x24

abbrev pub lc_version_min_iphoneos : ℕ
lc_version_min_iphoneos = 0x25

abbrev pub lc_function_starts : ℕ
lc_function_starts = 0x26

abbrev pub lc_data_in_code : ℕ
lc_data_in_code = 0x29

abbrev pub lc_source_version : ℕ
lc_source_version = 0x2A

abbrev pub lc_dyld_info_only : ℕ
lc_dyld_info_only = 0x80000022

abbrev pub lc_dyld_chained_fixups : ℕ
lc_dyld_chained_fixups = 0x80000034

abbrev pub lc_main : ℕ
lc_main = 0x80000028

abbrev pub x86_thread_state32 : ℕ
x86_thread_state32 = 0x1

abbrev pub x86_thread_state64 : ℕ
x86_thread_state64 = 0x4

abbrev pub arm_thread_state64 : ℕ
arm_thread_state64 = 0x6
