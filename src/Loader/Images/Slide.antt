-- ===== src/Loader/Images/Slide.antt =====
-- The shift between file addresses and runtime addresses of an image in
-- crates/compatra-runtime/src/macos/loader/guest_images.rs.
use compatra.Common.{
  ℕ, ◌+◌, ◌%◌, ◌^◌, ◌≤◌, ◌<◌, ◌≡◌, ap, inl, inr, none, some, true, u64_max, Bool-cases, arith,
}
use compatra.Loader.Library.Range.{Range, range_contains}
use compatra.Loader.Images.Registry.{
  GuestImageRecord, wrapping_add, wrapping_sub, contains_runtime_address, contains_file_vmaddr,
  runtime_address_for_file_vmaddr,
}

-- The runtime range of an image is its range in the file, shifted modulo 2 ^ 64 without a split.
pub record IsSlid (r : GuestImageRecord) : Type 0 where
  pub start : (r.vm_range.start + r.slide) % 2 ^ 64 ≡ r.mapped_range.start
  pub size : r.vm_range.start + r.mapped_range.end ≡ r.vm_range.end + r.mapped_range.start
  pub file_max : r.vm_range.end ≤ u64_max
  pub mapped_max : r.mapped_range.end ≤ u64_max
  pub slide_max : r.slide ≤ u64_max

shift_back :
    (r : GuestImageRecord) (a : ℕ)
    → IsSlid r
    → r.mapped_range.start ≤ a
    → a < r.mapped_range.end
    → (r.vm_range.start ≤ wrapping_sub a r.slide)
      × (wrapping_sub a r.slide < r.vm_range.end)
      × (wrapping_add (wrapping_sub a r.slide) r.slide ≡ a)
shift_back r a s low high = (
  omega (arith, s.start, s.size, s.file_max, s.mapped_max, s.slide_max),
  omega (arith, s.start, s.size, s.file_max, s.mapped_max, s.slide_max),
  omega (arith, s.start, s.size, s.file_max, s.mapped_max, s.slide_max),
)

shift_on :
    (r : GuestImageRecord) (v : ℕ)
    → IsSlid r
    → r.vm_range.start ≤ v
    → v < r.vm_range.end
    → (r.mapped_range.start ≤ wrapping_add v r.slide)
      × (wrapping_add v r.slide < r.mapped_range.end)
shift_on r v s low high = (
  omega (arith, s.start, s.size, s.file_max, s.mapped_max, s.slide_max),
  omega (arith, s.start, s.size, s.file_max, s.mapped_max, s.slide_max),
)

range_contains-true : (r : Range) (a : ℕ) → r.start ≤ a → a < r.end → range_contains r a ≡ true
range_contains-true r a low high = ground arith

range_contains_inv : (r : Range) (a : ℕ) → range_contains r a ≡ true → (r.start ≤ a) × (a < r.end)
range_contains_inv r a h = (ground arith, ground arith)

pub to_runtime :
    (r : GuestImageRecord) (a : ℕ)
    → IsSlid r
    → contains_runtime_address r a ≡ true
    → runtime_address_for_file_vmaddr r (wrapping_sub a r.slide) ≡ some a
unfolding contains_runtime_address runtime_address_for_file_vmaddr
to_runtime r a s h =
    let (low, high) = range_contains_inv r.mapped_range a h in
    let (after, before, back) = shift_back r a s low high in
    rw
      (
        runtime_address_for_file_vmaddr,
        range_contains-true r.vm_range (wrapping_sub a r.slide) after before,
      )
      (ap some back)

contained :
    (r : GuestImageRecord) (v a : ℕ)
    → runtime_address_for_file_vmaddr r v ≡ some a
    → (contains_file_vmaddr r v ≡ true) × (wrapping_add v r.slide ≡ a)
unfolding runtime_address_for_file_vmaddr
contained r v a h = elim (Bool-cases (contains_file_vmaddr r v)) [
  | inl e ↦
      let same : some (wrapping_add v r.slide) ≡ some a =
        rw (runtime_address_for_file_vmaddr, e) at h in
      (e, cc)
  | inr e ↦ let same : none ≡ some a = rw (runtime_address_for_file_vmaddr, e) at h in cc
]

pub to_file :
    (r : GuestImageRecord) (v a : ℕ)
    → IsSlid r
    → runtime_address_for_file_vmaddr r v ≡ some a
    → contains_runtime_address r a ≡ true
unfolding contains_runtime_address contains_file_vmaddr
to_file r v a s h =
    let (inside, same) = contained r v a h in
    let (low, high) = range_contains_inv r.vm_range v inside in
    let (after, before) = shift_on r v s low high in
    range_contains-true r.mapped_range a (omega (arith, same)) (omega (arith, same))
