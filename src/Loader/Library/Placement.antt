-- ===== src/Loader/Library/Placement.antt =====
-- Where `GuestLibraryImage::from_binary` of
-- crates/compatra-runtime/src/macos/loader/guest_libraries.rs puts a library.
use compatra.Common.{
  ℕ, ◌+◌, ◌-◌, ◌%◌, ◌^◌, ◌≤◌, ◌<◌, ◌≡◌, refl, subst, inl, inr, List, [], ◌∷◌, some, max, u64_max,
  All, Bool-cases, Option-cases, leb, leb→le, arith,
}
use compatra.Common.HashMap.{HashMap}
use compatra.Common.BTree.{BTreeMap, insert, bytes_compare, Ordering-cases}
use compatra.Common.Result.{ok, ok_injective, err_is_not_ok, Result-cases}
use compatra.Loader.Parser.Binary.{MachoBinary}
use compatra.Loader.Parser.Symbols.{get_defined_symbols}
use compatra.Loader.Parser.Imports.{get_dylib_id}
use compatra.Loader.Library.Range.{Range, range_contains, align_up, guest_library_vm_range}
use compatra.Loader.Library.Image.{
  GuestLibraryImage, page_size, or_file_name, exports_of, place, from_binary,
  validate_guest_library_binary,
}

abbrev pub In : Range → ℕ → Type 0
In r v = (r.start ≤ v) × (v < r.end)

-- The image is shifted as a whole, onto a page, and no address of it wraps.
pub record IsPlaced (image : GuestLibraryImage) : Type 0 where
  pub on_page : image.load_base % page_size ≡ 0
  pub starts : image.mapped_range.start ≡ image.load_base
  pub shifted_start : image.vm_range.start + image.slide ≡ image.mapped_range.start
  pub shifted_end : image.vm_range.end + image.slide ≡ image.mapped_range.end
  pub ordered : image.mapped_range.start ≤ image.mapped_range.end
  pub below_max : image.mapped_range.end ≤ u64_max
  pub exports_inside : All (λ (e : List ℕ × ℕ). In image.vm_range e.1) image.exports

All-insert :
    (P : List ℕ × ℕ → Type 0) (k : List ℕ) (v : ℕ) (m : BTreeMap ℕ)
    → ((j : List ℕ) → P (j, v))
    → All P m
    → All P (insert k v m)
unfolding insert
All-insert P k v [] p h = (p k, tt)
All-insert P k v ((j, w) ∷ m) p h = elim (Ordering-cases (bytes_compare k j)) [
  | inl e ↦ rw (insert, e) (p k, h)
  | inr (inl e) ↦ rw (insert, e) (p j, h.1)
  | inr (inr e) ↦ rw (insert, e) (h.0, All-insert P k v m p h.1)
]

exports_of-In :
    (r : Range) (symbols : HashMap (List ℕ) ℕ)
    → All (λ (e : List ℕ × ℕ). In r e.1) (exports_of r symbols)
unfolding exports_of
exports_of-In r [] = tt
exports_of-In r ((name, vmaddr) ∷ symbols) = elim (Bool-cases (range_contains r vmaddr)) [
  | inr e ↦ rw (exports_of, e) (exports_of-In r symbols)
  | inl e ↦
      rw (exports_of, e)
        (All-insert _ name vmaddr (exports_of r symbols) (λ j. (ground arith, ground arith))
          (exports_of-In r symbols))
]

abbrev placed_at : List ℕ → MachoBinary → Range → ℕ → GuestLibraryImage
placed_at path binary r base = record {
  path = path;
  install_name = or_file_name path (get_dylib_id binary);
  load_base = base;
  slide = base - r.start;
  vm_range = r;
  mapped_range = record { start = base; end = base + (r.end - r.start) };
  exports = exports_of r (get_defined_symbols binary);
  binary = binary;
}

-- The three checks of `place` hold where it succeeds.
record Checks (r : Range) (base : ℕ) : Type 0 where
  above : r.start ≤ base
  ordered : r.start ≤ r.end
  fits : base + (r.end - r.start) ≤ u64_max

abbrev base_for : ℕ → Range → ℕ
base_for requested r = align_up (max requested r.start) page_size

place_inv :
    (path : List ℕ) (binary : MachoBinary) (requested : ℕ) (r : Range) (image : GuestLibraryImage)
    → place path binary requested r ≡ ok image
    → Checks r (base_for requested r) × (placed_at path binary r (base_for requested r) ≡ image)
unfolding place
place_inv path binary requested r image h = elim (Bool-cases (leb r.start (base_for requested r))) [
  | inr a ↦ err_is_not_ok (rw (place, a) at h)
  | inl a ↦ elim (Bool-cases (leb r.start r.end)) [
    | inr b ↦ err_is_not_ok (rw (place, a, b) at h)
    | inl b ↦ elim (Bool-cases (leb (base_for requested r + (r.end - r.start)) u64_max)) [
      | inr c ↦ err_is_not_ok (rw (place, a, b, c) at h)
      | inl c ↦ (
        record { above = leb→le _ _ a; ordered = leb→le _ _ b; fits = leb→le _ _ c },
        ok_injective (rw (place, a, b, c) at h),
      )
    ]
  ]
]

place-IsPlaced :
    (path : List ℕ) (binary : MachoBinary) (r : Range) (base : ℕ)
    → base % page_size ≡ 0
    → Checks r base
    → IsPlaced (placed_at path binary r base)
place-IsPlaced path binary r base page c = record {
  on_page = page;
  starts = refl;
  shifted_start = omega (arith, c.above);
  shifted_end = omega (arith, c.above, c.ordered);
  ordered = omega arith;
  below_max = c.fits;
  exports_inside = exports_of-In r (get_defined_symbols binary);
}

base_for-page : (requested : ℕ) (r : Range) → base_for requested r % page_size ≡ 0
base_for-page requested r = omega arith

base_for-le :
    (requested : ℕ) (r : Range)
    → requested + page_size ≤ 2 ^ 64
    → r.start ≤ base_for requested r
    → requested ≤ base_for requested r
base_for-le requested r small above = omega arith

from_binary_inv :
    (path : List ℕ) (binary : MachoBinary) (requested : ℕ) (image : GuestLibraryImage)
    → from_binary path binary requested ≡ ok image
    → (r : Range) × (guest_library_vm_range binary ≡ some r)
      × (place path binary requested r ≡ ok image)
unfolding from_binary
from_binary_inv path binary requested image h =
    elim (Result-cases (validate_guest_library_binary path binary)) [
      | inr (e, v) ↦ err_is_not_ok (rw (from_binary, v) at h)
      | inl (u, v) ↦ elim (Option-cases (guest_library_vm_range binary)) [
        | inl none_found ↦ err_is_not_ok (rw (from_binary, v, none_found) at h)
        | inr (r, found) ↦ (r, found, rw (from_binary, v, found) at h)
      ]
    ]

-- A library that is loaded has the range of its binary, shifted as a whole by its slide onto a page that
-- is not below the base asked for, where that is a page or more below 2 ^ 64; no address of it wraps,
-- and the file addresses of its exports lie in the range of the binary.
pub from_binary-IsPlaced :
    (path : List ℕ) (binary : MachoBinary) (requested : ℕ) (image : GuestLibraryImage)
    → requested + page_size ≤ 2 ^ 64
    → from_binary path binary requested ≡ ok image
    → IsPlaced image
      × (guest_library_vm_range binary ≡ some image.vm_range)
      × (requested ≤ image.load_base)
from_binary-IsPlaced path binary requested image small h =
    let (r, found, placed) = from_binary_inv path binary requested image h in
    let (checks, same) = place_inv path binary requested r image placed in
    subst
      (λ (i : GuestLibraryImage).
        IsPlaced i × (guest_library_vm_range binary ≡ some i.vm_range) × (requested ≤ i.load_base))
      same
      (
        place-IsPlaced path binary r (base_for requested r) (base_for-page requested r) checks,
        found,
        base_for-le requested r small checks.above,
      )
