-- ===== src/Loader/Images/Loaded.antt =====
-- The registry of a program and its libraries in
-- crates/compatra-runtime/src/macos/loader/guest_images.rs.
use compatra.Common.{ℕ, ◌≤◌, ◌≡◌, refl, inl, inr, List, [], ◌∷◌, some, length, All, u64_max, arith}
use compatra.Loader.Library.Specs.{Host, from_specs}
use compatra.Loader.Library.Layout.{from_specs-IsPlaced}
use compatra.Loader.Images.Addresses.{AllFrom, AllFrom-snoc, runtime_to_file, file_to_runtime}
use compatra.Loader.Images.Slide.{IsSlid}
use compatra.Common.Result.{ok}
use compatra.Loader.Parser.Binary.{MachoBinary}
use compatra.Loader.Library.Range.{Range, macho_vm_range}
use compatra.Loader.Command.Types.{SegmentCommand64}
use compatra.Loader.Library.RangeLaws.{Any, segment_end, loadable, macho_vm_range-IsSpan}
use compatra.Loader.Library.Image.{GuestLibraryImage}
use compatra.Loader.Library.Placement.{IsPlaced}
use compatra.Loader.Library.Set.{GuestLibrarySet}
use compatra.Loader.Images.Registry.{
  GuestImageAddress, GuestImageRegistry, wrapping_add, main_record, library_record, push_main,
  push_library, push_libraries, from_loaded_images, new, resolve_runtime_address,
  resolve_file_address,
}

library_record-IsSlid :
    (index : ℕ) (image : GuestLibraryImage) → IsPlaced image → IsSlid (library_record index image)
library_record-IsSlid index image p = record {
  start = omega (arith, p.shifted_start, p.shifted_end, p.below_max, p.ordered);
  size = omega (arith, p.shifted_start, p.shifted_end);
  file_max = omega (arith, p.shifted_end, p.below_max);
  mapped_max = p.below_max;
  slide_max = omega (arith, p.shifted_end, p.below_max);
}

AllFrom-push_libraries :
    (images : List GuestLibraryImage) (g : GuestImageRegistry)
    → All IsPlaced images
    → AllFrom 0 g.records
    → AllFrom 0 (push_libraries images g).records
unfolding push_libraries push_library
AllFrom-push_libraries [] g p h = h
AllFrom-push_libraries (image ∷ images) g p h =
    AllFrom-push_libraries images (push_library g image).0 p.1 (
      AllFrom-snoc 0 g.records (library_record (length g.records) image) h (omega arith)
        (library_record-IsSlid (length g.records) image p.0))

ends_low :
    (segments : List SegmentCommand64) (e : ℕ) → Any (λ s. segment_end s ≡ e) segments → e ≤ u64_max
ends_low [] e h = elim h [ ]
ends_low (s ∷ segments) e (inl h) = ground arith
ends_low (s ∷ segments) e (inr h) = ends_low segments e h

end_low : (binary : MachoBinary) (r : Range) → macho_vm_range binary ≡ some r → r.end ≤ u64_max
end_low binary r e =
    ends_low (loadable binary.segments) r.end (macho_vm_range-IsSpan binary r e).last

main_record-IsSlid :
    (path : List ℕ) (binary : MachoBinary) (slide : ℕ) (r : Range)
    → slide ≤ u64_max
    → macho_vm_range binary ≡ some r
    → wrapping_add r.start slide ≤ wrapping_add r.end slide
    → IsSlid (main_record 0 path binary slide r)
main_record-IsSlid path binary slide r small e whole = record {
  start = refl;
  size = omega (arith, end_low binary r e, (macho_vm_range-IsSpan binary r e).nonempty);
  file_max = end_low binary r e;
  mapped_max = omega arith;
  slide_max = small;
}

from_loaded_images-AllFrom :
    (path : List ℕ) (binary : MachoBinary) (slide : ℕ) (set : GuestLibrarySet) (r : Range)
    → slide ≤ u64_max
    → macho_vm_range binary ≡ some r
    → wrapping_add r.start slide ≤ wrapping_add r.end slide
    → All IsPlaced set.images
    → AllFrom 0 (from_loaded_images path binary slide set).records
unfolding from_loaded_images push_main
from_loaded_images-AllFrom path binary slide set r small e whole placed =
    AllFrom-push_libraries set.images (push_main new path binary slide).0 placed
      (rw (push_main, e) ((refl, main_record-IsSlid path binary slide r small e whole), tt))

module _ (host : Host) (specs : List (List ℕ)) (load_base : ℕ) (set : GuestLibrarySet)
    (path : List ℕ) (binary : MachoBinary) (slide : ℕ) (r : Range)
    (loaded : from_specs host specs load_base ≡ ok set) (small : slide ≤ u64_max)
    (ranged : macho_vm_range binary ≡ some r)
    (whole : wrapping_add r.start slide ≤ wrapping_add r.end slide) where
  indexed : AllFrom 0 (from_loaded_images path binary slide set).records
  indexed =
      from_loaded_images-AllFrom path binary slide set r small ranged whole
        (from_specs-IsPlaced host specs load_base set loaded)

  -- Of a program whose range is not split by its slide, and of the libraries loaded with it: a runtime
  -- address that is resolved to an image and a file address is what that file address of that image
  -- stands for.
  pub resolve_file_address-resolve_runtime_address :
      (a : ℕ) (x : GuestImageAddress)
      → resolve_runtime_address (from_loaded_images path binary slide set) a ≡ some x
      → resolve_file_address (from_loaded_images path binary slide set) x.image_index x.file_vmaddr
        ≡ some a
  resolve_file_address-resolve_runtime_address =
      runtime_to_file (from_loaded_images path binary slide set) indexed

  -- Of such a program and its libraries: a runtime address that a file address of an image stands for
  -- is resolved, to that image or to an earlier one.
  pub resolve_runtime_address-resolve_file_address :
      (i v a : ℕ)
      → resolve_file_address (from_loaded_images path binary slide set) i v ≡ some a
      → (x : GuestImageAddress) × (resolve_runtime_address
            (from_loaded_images path binary slide set)
            a
          ≡ some x)
        × (x.image_index ≤ i)
  resolve_runtime_address-resolve_file_address =
      file_to_runtime (from_loaded_images path binary slide set) indexed
