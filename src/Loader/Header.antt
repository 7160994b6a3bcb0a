-- ===== src/Loader/Header.antt =====
-- The headers of crates/compatra-runtime/src/macos/loader/header.rs: the magic, the two Mach-O headers
-- with their choice of a byte order, the FAT header and its entries.
use compatra.Common.{
  ℕ, List, Bool, true, false, not, ◌&&◌, ◌||◌, ◌==◌, ltb, if◌then◌else◌, length, take, drop,
}
use compatra.Common.Bytes.{value}
use compatra.Loader.Consts.{
  mh_magic_32, mh_cigam_32, mh_magic_64, mh_cigam_64, fat_magic, fat_cigam, cpu_type_x86,
  cpu_type_x86_64, cpu_type_arm, cpu_type_arm64,
}
use compatra.Loader.Cursor.{
  Outcome, ok, err, panic, Read, read_exact, unexpected_eof, header_too_short, fat_header_too_short,
  fat_arch_too_short,
}
use compatra.Loader.Read.{◌>>=◌, pure, value_of}

pub data MachOMagic : Type 0 where
  magic32 magic64 fat unknown : MachOMagic

unfoldable pub from_u32 : ℕ → MachOMagic
from_u32 m =
    if m == mh_magic_32 || m == mh_cigam_32
    then MachOMagic.magic32
    else if m == mh_magic_64 || m == mh_cigam_64
    then MachOMagic.magic64
    else if m == fat_magic || m == fat_cigam
    then MachOMagic.fat
    else MachOMagic.unknown

abbrev pub is_64_bit : MachOMagic → Bool
is_64_bit MachOMagic.magic64 = true
is_64_bit _ = false

abbrev pub is_cigam : ℕ → Bool
is_cigam m = m == mh_cigam_32 || m == mh_cigam_64

pub record MachHeader : Type 0 where
  pub magic : ℕ
  pub cputype : ℕ
  pub cpusubtype : ℕ
  pub filetype : ℕ
  pub ncmds : ℕ
  pub sizeofcmds : ℕ
  pub flags : ℕ

pub record MachHeader64 : Type 0 where
  pub magic : ℕ
  pub cputype : ℕ
  pub cpusubtype : ℕ
  pub filetype : ℕ
  pub ncmds : ℕ
  pub sizeofcmds : ℕ
  pub flags : ℕ
  pub reserved : ℕ

pub record FatHeader : Type 0 where
  pub magic : ℕ
  pub nfat_arch : ℕ

pub record FatArch : Type 0 where
  pub cputype : ℕ
  pub cpusubtype : ℕ
  pub offset : ℕ
  pub size : ℕ
  pub align : ℕ

-- `read_exact` of four bytes and `from_be_bytes` or `from_le_bytes`.
unfoldable pub read_word : Bool → Read ℕ
unfolding read_exact value
read_word big = do bs ← read_exact unexpected_eof 4; pure (value big bs)

unfoldable pub read_mach_header : Bool → Read MachHeader
unfolding read_word
read_mach_header big = do
  magic' ← read_word big
  cputype' ← read_word big
  cpusubtype' ← read_word big
  filetype' ← read_word big
  ncmds' ← read_word big
  sizeofcmds' ← read_word big
  flags' ← read_word big
  pure (record {
    magic = magic';
    cputype = cputype';
    cpusubtype = cpusubtype';
    filetype = filetype';
    ncmds = ncmds';
    sizeofcmds = sizeofcmds';
    flags = flags';
  })

unfoldable pub parse_mach_header : List ℕ → Bool → Outcome MachHeader
unfolding read_mach_header
parse_mach_header bs big =
    if ltb (length bs) 28 then err header_too_short else value_of (read_mach_header big bs)

unfoldable pub read_mach_header64 : Bool → Read MachHeader64
unfolding read_word
read_mach_header64 big = do
  magic' ← read_word big
  cputype' ← read_word big
  cpusubtype' ← read_word big
  filetype' ← read_word big
  ncmds' ← read_word big
  sizeofcmds' ← read_word big
  flags' ← read_word big
  reserved' ← read_word big
  pure (record {
    magic = magic';
    cputype = cputype';
    cpusubtype = cpusubtype';
    filetype = filetype';
    ncmds = ncmds';
    sizeofcmds = sizeofcmds';
    flags = flags';
    reserved = reserved';
  })

unfoldable pub parse_mach_header64 : List ℕ → Bool → Outcome MachHeader64
unfolding read_mach_header64
parse_mach_header64 bs big =
    if ltb (length bs) 32 then err header_too_short else value_of (read_mach_header64 big bs)

-- The word at an offset, within a length that the caller has checked.
abbrev pub word_at : Bool → ℕ → List ℕ → ℕ
word_at big offset bs = value big (take 4 (drop offset bs))

abbrev pub is_valid_cpu_type : ℕ → Bool
is_valid_cpu_type t =
    t == cpu_type_x86 || (t == cpu_type_x86_64 || (t == cpu_type_arm || t == cpu_type_arm64))

unfoldable pub byte_order32 : List ℕ → Bool
unfolding value
byte_order32 bs =
    let should_be_big_endian =
      word_at false 0 bs == mh_cigam_32 || word_at true 0 bs == mh_magic_32 in
    let le_is_valid = is_valid_cpu_type (word_at false 4 bs) in
    let be_is_valid = is_valid_cpu_type (word_at true 4 bs) in
    if should_be_big_endian && (be_is_valid && not le_is_valid)
    then true
    else if not should_be_big_endian && (le_is_valid && not be_is_valid)
    then false
    else if le_is_valid && not be_is_valid
    then false
    else if be_is_valid && not le_is_valid
    then true
    else should_be_big_endian

abbrev pub with_order {ℓ} : {A : Type ℓ} → Bool → Outcome A → Outcome (A × Bool)
with_order big (ok a) = ok (a, big)
with_order big (err e) = err e
with_order big panic = panic

unfoldable pub detect_mach_header : List ℕ → Outcome (MachHeader × Bool)
unfolding parse_mach_header byte_order32
detect_mach_header bs =
    if ltb (length bs) 28
    then err header_too_short
    else with_order (byte_order32 bs) (parse_mach_header bs (byte_order32 bs))

abbrev pub is_64_bit_cpu : ℕ → Bool
is_64_bit_cpu t = t == cpu_type_x86_64 || t == cpu_type_arm64

unfoldable pub byte_order64 : List ℕ → Bool
unfolding value
byte_order64 bs =
    if word_at false 0 bs == mh_cigam_64 || word_at false 0 bs == mh_cigam_32
    then true
    else if word_at false 0 bs == mh_magic_64 || word_at true 0 bs == mh_magic_64
    then (if is_64_bit_cpu (word_at false 4 bs)
        then false
        else if is_64_bit_cpu (word_at true 4 bs)
        then true
        else false)
    else false

unfoldable pub detect_mach_header64 : List ℕ → Outcome (MachHeader64 × Bool)
unfolding parse_mach_header64 byte_order64
detect_mach_header64 bs =
    if ltb (length bs) 32
    then err header_too_short
    else with_order (byte_order64 bs) (parse_mach_header64 bs (byte_order64 bs))

unfoldable pub read_fat_header : Read FatHeader
unfolding read_word
read_fat_header = do
  magic' ← read_word true
  nfat_arch' ← read_word true
  pure (record { magic = magic'; nfat_arch = nfat_arch' })

unfoldable pub parse_fat_header : List ℕ → Outcome FatHeader
unfolding read_fat_header
parse_fat_header bs =
    if ltb (length bs) 8 then err fat_header_too_short else value_of (read_fat_header bs)

unfoldable pub read_fat_arch : Read FatArch
unfolding read_word
read_fat_arch = do
  cputype' ← read_word true
  cpusubtype' ← read_word true
  offset' ← read_word true
  size' ← read_word true
  align' ← read_word true
  pure (record {
    cputype = cputype';
    cpusubtype = cpusubtype';
    offset = offset';
    size = size';
    align = align';
  })

unfoldable pub parse_fat_arch : List ℕ → Outcome FatArch
unfolding read_fat_arch
parse_fat_arch bs =
    if ltb (length bs) 20 then err fat_arch_too_short else value_of (read_fat_arch bs)
