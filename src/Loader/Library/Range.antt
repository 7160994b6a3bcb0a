-- ===== src/Loader/Library/Range.antt =====
-- The range of addresses that the segments of a binary take:  `macho_vm_range` of
-- crates/compatra-runtime/src/macos/loader/guest_images.rs and `guest_library_vm_range` of
-- loader/guest_libraries.rs, and `align_up` of guest_model/memory.rs.
use compatra.Common.{
  ℕ, ◌+◌, ◌-◌, ◌%◌, ◌^◌, List, [], ◌∷◌, Option, none, some, Bool, not, ◌==◌, ◌&&◌, ◌||◌, ltb, leb,
  if◌then◌else◌, min, max, u64_max, saturating_add, bytes_beq,
}
use compatra.Loader.Strings.{string_at}
use compatra.Loader.Command.Types.{SegmentCommand64}
use compatra.Loader.Parser.Binary.{MachoBinary}

-- `Range<u64>`.
pub record Range : Type 0 where
  pub start : ℕ
  pub end : ℕ

abbrev pub range_contains : Range → ℕ → Bool
range_contains r address = leb r.start address && ltb address r.end

-- `align` is a power of two, and the sum wraps.
abbrev pub align_up : ℕ → ℕ → ℕ
align_up v align = (v + (align - 1)) % 2 ^ 64 - (v + (align - 1)) % 2 ^ 64 % align

-- "__PAGEZERO".
abbrev pub page_zero_name : List ℕ
page_zero_name = b'_' ∷ b'_' ∷ b'P' ∷ b'A' ∷ b'G' ∷ b'E' ∷ b'Z' ∷ b'E' ∷ b'R' ∷ b'O' ∷ []

-- A segment that neither loop passes over.
unfoldable pub is_loadable : SegmentCommand64 → Bool
unfolding string_at
is_loadable s = not (bytes_beq (string_at s.segname) page_zero_name || s.vmsize == 0)

abbrev pub widen : SegmentCommand64 → Range → Range
widen s r = record {
  start = min r.start s.vmaddr;
  end = max r.end (saturating_add s.vmaddr s.vmsize);
}

unfoldable pub range_loop : List SegmentCommand64 → Range → Range
unfolding is_loadable
range_loop [] r = r
range_loop (s ∷ segments) r = range_loop segments (if is_loadable s then widen s r else r)

abbrev pub nonempty_range : Range → Option Range
nonempty_range r = if not (r.start == u64_max) && ltb r.start r.end then some r else none

abbrev pub no_range : Range
no_range = record { start = u64_max; end = 0 }

unfoldable pub macho_vm_range : MachoBinary → Option Range
unfolding range_loop
macho_vm_range m = nonempty_range (range_loop m.segments no_range)

unfoldable pub guest_library_vm_range : MachoBinary → Option Range
unfolding range_loop
guest_library_vm_range m = nonempty_range (range_loop m.segments no_range)
