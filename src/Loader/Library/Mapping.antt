-- ===== src/Loader/Library/Mapping.antt =====
-- `map_into` of crates/compatra-runtime/src/macos/loader/guest_libraries.rs. The emulator is a parameter:
-- the requests change its state or fail, and after a failure its state is not used again.
use compatra.Common.{
  ℕ, ◌+◌, ◌-◌, ◌/◌, ◌%◌, ◌^◌, take, drop, List, [], ◌∷◌, Bool, true, false, ◌==◌, ◌||◌, ltb,
  if◌then◌else◌, length,
}
use compatra.Common.Result.{Result, ok, err, ◌>>=◌, ok_or, checked_add}
use compatra.Loader.Strings.{string_at}
use compatra.Loader.Command.Types.{SegmentCommand64}
use compatra.Loader.Library.Range.{align_up, is_loadable}
use compatra.Loader.Library.Image.{GuestLibraryImage, LibraryError, page_size}
use compatra.Loader.Library.Set.{GuestLibrarySet}

pub record Prot : Type 0 where
  pub read : Bool
  pub write : Bool
  pub exec : Bool

abbrev pub all_access : Prot
all_access = record { read = true; write = true; exec = true }

abbrev pub read_only : Prot
read_only = record { read = true; write = false; exec = false }

-- The bits VM_PROT_READ, VM_PROT_WRITE and VM_PROT_EXECUTE, and read access where none is set.
unfoldable pub segment_prot : ℕ → Prot
segment_prot initprot =
    let r = initprot % 2 == 1 in
    let w = (initprot / 2) % 2 == 1 in
    let x = (initprot / 4) % 2 == 1 in
    if r || (w || x) then record { read = r; write = w; exec = x } else read_only

pub record Emulator : Type 1 where
  pub State : Type 0
  pub map_memory_with_prot : ℕ → ℕ → Prot → State → Result LibraryError State
  pub write_memory : ℕ → List ℕ → State → Result LibraryError State
  pub protect_memory : ℕ → ℕ → Prot → State → Result LibraryError State

-- The bytes of a segment in the file.
unfoldable pub file_bytes : GuestLibraryImage → SegmentCommand64 → Result LibraryError (List ℕ)
unfolding string_at
file_bytes image s =
    ok_or (checked_add s.fileoff s.filesize)
      (LibraryError.file_range_overflows image.path (string_at s.segname))
    >>= λ end.
        if ltb (length image.binary.contents) end || ltb end s.fileoff
        then err (LibraryError.extends_past_eof image.path (string_at s.segname))
        else ok (take (end - s.fileoff) (drop s.fileoff image.binary.contents))

module _ (emulator : Emulator) where
  open emulator use {State, map_memory_with_prot, write_memory, protect_memory}

  unfoldable pub write_segment :
      GuestLibraryImage → SegmentCommand64 → ℕ → State → Result LibraryError State
  unfolding file_bytes
  write_segment image s mapped_addr e =
      if ltb 0 s.filesize
      then (file_bytes image s >>= λ contents. write_memory mapped_addr contents e)
      else ok e

  unfoldable pub map_segment :
      GuestLibraryImage → SegmentCommand64 → State → Result LibraryError State
  unfolding write_segment segment_prot
  map_segment image s e =
      let mapped_addr = (s.vmaddr + image.slide) % 2 ^ 64 in
      let aligned_size = align_up s.vmsize page_size in
      map_memory_with_prot mapped_addr aligned_size all_access e >>= λ mapped.
      write_segment image s mapped_addr mapped >>= λ written.
      protect_memory mapped_addr aligned_size (segment_prot s.initprot) written

  unfoldable pub map_segments :
      GuestLibraryImage → List SegmentCommand64 → State → Result LibraryError State
  unfolding map_segment is_loadable
  map_segments image [] e = ok e
  map_segments image (s ∷ segments) e = elim (is_loadable s) [
    | false ↦ map_segments image segments e
    | true ↦ map_segment image s e >>= λ e'. map_segments image segments e'
  ]

  unfoldable pub map_into : GuestLibraryImage → State → Result LibraryError State
  unfolding map_segments
  map_into image e = map_segments image image.binary.segments e

  unfoldable pub map_images : List GuestLibraryImage → State → Result LibraryError State
  unfolding map_into
  map_images [] e = ok e
  map_images (image ∷ images) e = map_into image e >>= λ e'. map_images images e'

  -- `GuestLibrarySet::map_into`.
  unfoldable pub map_set_into : GuestLibrarySet → State → Result LibraryError State
  unfolding map_images
  map_set_into set e = map_images set.images e
