-- ===== src/Loader/Command/Segments.antt =====
-- Segments and their sections in crates/compatra-runtime/src/macos/loader/command.rs.
use compatra.Common.{
  ℕ, zero, suc, ◌+◌, ◌-◌, List, [], ◌∷◌, Bool, ltb, leb, if◌then◌else◌, length, take, drop,
}
use compatra.Common.Bytes.{value}
use compatra.Loader.Cursor.{
  Outcome, ok, err, panic, and_then, Read, read_exact, read_u32, read_i32, read_u64,
  segment64_too_short, segment32_too_short, section64_too_short, section32_too_short,
  failed_to_read_segname, unexpected_eof,
}
use compatra.Loader.Read.{◌>>=◌, pure, value_of}
use compatra.Loader.Command.Types.{Section64, Section32, SegmentCommand64, SegmentCommand32}

-- `&data[offset..]`.
abbrev pub slice_from : ℕ → List ℕ → Outcome (List ℕ)
slice_from offset bs = if leb offset (length bs) then ok (drop offset bs) else panic

-- `&data[offset..offset + n]` within a length that the caller has checked.
abbrev pub field_at : ℕ → ℕ → List ℕ → List ℕ
field_at offset n bs = take n (drop offset bs)

-- The fields of a section, at their offsets.
unfoldable pub section64_of : List ℕ → Bool → Section64
unfolding value
section64_of bs big = record {
  sectname = field_at 0 16 bs;
  segname = field_at 16 16 bs;
  addr = value big (field_at 32 8 bs);
  size = value big (field_at 40 8 bs);
  offset = value big (field_at 48 4 bs);
  align = value big (field_at 52 4 bs);
  reloff = value big (field_at 56 4 bs);
  nreloc = value big (field_at 60 4 bs);
  flags = value big (field_at 64 4 bs);
  reserved1 = value big (field_at 68 4 bs);
  reserved2 = value big (field_at 72 4 bs);
  reserved3 = value big (field_at 76 4 bs);
}

unfoldable pub parse_section64 : List ℕ → Bool → Outcome Section64
unfolding section64_of
parse_section64 bs big =
    if ltb (length bs) 80 then err section64_too_short else ok (section64_of bs big)

unfoldable pub read_section32 : Bool → Read Section32
unfolding read_exact read_u32
read_section32 big = do
  sectname' ← read_exact unexpected_eof 16
  segname' ← read_exact unexpected_eof 16
  addr' ← read_u32 big
  size' ← read_u32 big
  offset' ← read_u32 big
  align' ← read_u32 big
  reloff' ← read_u32 big
  nreloc' ← read_u32 big
  flags' ← read_u32 big
  reserved1' ← read_u32 big
  reserved2' ← read_u32 big
  pure (record {
    sectname = sectname';
    segname = segname';
    addr = addr';
    size = size';
    offset = offset';
    align = align';
    reloff = reloff';
    nreloc = nreloc';
    flags = flags';
    reserved1 = reserved1';
    reserved2 = reserved2';
  })

unfoldable pub parse_section32 : List ℕ → Bool → Outcome Section32
unfolding read_section32
parse_section32 bs big =
    if ltb (length bs) 68 then err section32_too_short else value_of (read_section32 big bs)

-- The loop over the sections; `position` is that of the cursor.
unfoldable pub sections64 : ℕ → List ℕ → Bool → ℕ → Outcome (List Section64)
unfolding parse_section64
sections64 zero bs big position = ok []
sections64 (suc n) bs big position = and_then (slice_from position bs) (λ section_data.
    if ltb (length section_data) 80
    then ok []
    else and_then (parse_section64 section_data big) (λ section.
      and_then (sections64 n bs big (position + 80)) (λ sections. ok (section ∷ sections))))

-- `if let Ok(a)`, where an error leaves the loop.
abbrev pub or_break {ℓ κ} :
    {A : Type ℓ} {B : Type κ} → Outcome A → (A → Outcome (List B)) → Outcome (List B)
or_break (ok a) f = f a
or_break (err e) f = ok []
or_break panic f = panic

unfoldable pub sections32 : ℕ → List ℕ → Bool → ℕ → Outcome (List Section32)
unfolding parse_section32
sections32 zero bs big position = ok []
sections32 (suc n) bs big position = and_then (slice_from position bs) (λ section_data.
    if ltb (length section_data) 68
    then ok []
    else or_break (parse_section32 section_data big) (λ section.
      and_then (sections32 n bs big (position + 68)) (λ sections. ok (section ∷ sections))))

-- The fields of a segment, without its sections.
unfoldable pub read_segment64 : Bool → Read SegmentCommand64
unfolding read_exact read_u32 read_i32 read_u64
read_segment64 big = do
  segname' ← read_exact failed_to_read_segname 16
  vmaddr' ← read_u64 big
  vmsize' ← read_u64 big
  fileoff' ← read_u64 big
  filesize' ← read_u64 big
  maxprot' ← read_i32 big
  initprot' ← read_i32 big
  nsects' ← read_u32 big
  flags' ← read_u32 big
  pure (record {
    segname = segname';
    vmaddr = vmaddr';
    vmsize = vmsize';
    fileoff = fileoff';
    filesize = filesize';
    maxprot = maxprot';
    initprot = initprot';
    nsects = nsects';
    flags = flags';
    sections = [];
    reloff = 0;
    nreloc = 0;
  })

unfoldable pub parse_segment64 : List ℕ → Bool → Outcome SegmentCommand64
unfolding read_segment64 sections64
parse_segment64 bs big =
    if ltb (length bs) 64
    then err (segment64_too_short (length bs))
    else and_then (read_segment64 big bs) (λ r.
      if leb 72 (length bs)
      then and_then (sections64 r.0.nsects bs big 64)
          (λ sections. ok (record r.0 { sections = sections }))
      else ok r.0)

unfoldable pub read_segment32 : Bool → Read SegmentCommand32
unfolding read_exact read_u32 read_i32
read_segment32 big = do
  segname' ← read_exact unexpected_eof 16
  vmaddr' ← read_u32 big
  vmsize' ← read_u32 big
  fileoff' ← read_u32 big
  filesize' ← read_u32 big
  maxprot' ← read_i32 big
  initprot' ← read_i32 big
  nsects' ← read_u32 big
  flags' ← read_u32 big
  pure (record {
    segname = segname';
    vmaddr = vmaddr';
    vmsize = vmsize';
    fileoff = fileoff';
    filesize = filesize';
    maxprot = maxprot';
    initprot = initprot';
    nsects = nsects';
    flags = flags';
    sections = [];
  })

-- The sections start where the fields end.
unfoldable pub parse_segment32 : List ℕ → Bool → Outcome SegmentCommand32
unfolding read_segment32 sections32
parse_segment32 bs big =
    if ltb (length bs) 48
    then err (segment32_too_short (length bs))
    else and_then (read_segment32 big bs) (λ r.
      and_then (sections32 r.0.nsects bs big (length bs - length r.1))
        (λ sections. ok (record r.0 { sections = sections })))
