-- ===== src/Loader/Library/RangeLaws.antt =====
-- What the range of a binary in crates/compatra-runtime/src/macos/loader/guest_libraries.rs and
-- loader/guest_images.rs spans, and `align_up`.
use compatra.Common.{
  ℕ, ◌≤◌, ◌<◌, ◌≡◌, ◌≢◌, refl, subst, ◌⊎◌, inl, inr, List, [], ◌∷◌, some, true, false, u64_max,
  saturating_add, All, Bool-cases, arith,
}
use compatra.Loader.Command.Types.{SegmentCommand64}
use compatra.Loader.Parser.Binary.{MachoBinary}
use compatra.Loader.Library.Range.{
  Range, is_loadable, widen, range_loop, no_range, nonempty_range, macho_vm_range,
  guest_library_vm_range,
}

unfoldable pub loadable : List SegmentCommand64 → List SegmentCommand64
loadable [] = []
loadable (s ∷ segments) =
    let rest = loadable segments in elim (is_loadable s) [ true ↦ s ∷ rest | false ↦ rest ]

abbrev pub Any {ℓ} : {A : Type ℓ} → (A → Type 0) → List A → Type 0
Any P [] = ⊥
Any P (x ∷ xs) = P x ⊎ Any P xs

abbrev pub segment_end : SegmentCommand64 → ℕ
segment_end s = saturating_add s.vmaddr s.vmsize

abbrev pub Spans : Range → SegmentCommand64 → Type 0
Spans r s = (r.start ≤ s.vmaddr) × (segment_end s ≤ r.end)

-- The range contains every segment, and a segment ends it on either side.
pub record IsSpan (segments : List SegmentCommand64) (r : Range) : Type 0 where
  pub nonempty : r.start < r.end
  pub spans : All (Spans r) segments
  pub first : Any (λ s. s.vmaddr ≡ r.start) segments
  pub last : Any (λ s. segment_end s ≡ r.end) segments

record Widened (segments : List SegmentCommand64) (r r' : Range) : Type 0 where
  low : r'.start ≤ r.start
  high : r.end ≤ r'.end
  spans : All (Spans r') segments
  first : (r'.start ≡ r.start) ⊎ Any (λ s. s.vmaddr ≡ r'.start) segments
  last : (r'.end ≡ r.end) ⊎ Any (λ s. segment_end s ≡ r'.end) segments

Widened-widen :
    (s : SegmentCommand64) (segments : List SegmentCommand64) (r r' : Range)
    → Widened segments (widen s r) r'
    → Widened (s ∷ segments) r r'
Widened-widen s segments r r' w = record {
  low = ground (arith, w.low);
  high = ground (arith, w.high);
  spans = (ground (arith, w.low, w.high), w.spans);
  first = ground (arith, w.first);
  last = ground (arith, w.last);
}

range_loop-Widened :
    (segments : List SegmentCommand64) (r : Range)
    → Widened (loadable segments) r (range_loop segments r)
unfolding loadable range_loop
range_loop-Widened [] r = record {
  low = omega arith;
  high = omega arith;
  spans = tt;
  first = inl refl;
  last = inl refl;
}
range_loop-Widened (s ∷ segments) r = elim (Bool-cases (is_loadable s)) [
  | inl e ↦
      rw (loadable, e)
        (Widened-widen s (loadable segments) r (range_loop segments (widen s r))
          (range_loop-Widened segments (widen s r)))
  | inr e ↦ rw (loadable, e) (range_loop-Widened segments r)
]

nonempty_range_inv :
    (r r' : Range) → nonempty_range r ≡ some r' → (r ≡ r') × (r.start ≢ u64_max) × (r.start < r.end)
nonempty_range_inv r r' h = (ground arith, ground arith, ground arith)

other {ℓ κ} : {A : Type ℓ} {B : Type κ} → ¬ A → A ⊎ B → B
other h (inl a) = absurd (h a)
other h (inr b) = b

Widened-IsSpan :
    (segments : List SegmentCommand64) (r r' : Range)
    → Widened segments no_range r
    → nonempty_range r ≡ some r'
    → IsSpan segments r'
Widened-IsSpan segments r r' w h =
    let (same, low, order) = nonempty_range_inv r r' h in
    subst (IsSpan segments) same (record {
      nonempty = order;
      spans = w.spans;
      first = other low w.first;
      last = other (λ e. absurd (omega arith)) w.last;
    })

-- The range of a binary contains each segment that is loaded, that is no "__PAGEZERO" and not empty,
-- with an end past 2 ^ 64 taken as 2 ^ 64 - 1; it starts where one of them starts and ends where one of
-- them ends. The main executable and the libraries have the same notion of it.
pub guest_library_vm_range-IsSpan :
    (m : MachoBinary) (r : Range)
    → guest_library_vm_range m ≡ some r
    → IsSpan (loadable m.segments) r × (macho_vm_range m ≡ some r)
unfolding guest_library_vm_range macho_vm_range
guest_library_vm_range-IsSpan m r h = (
  Widened-IsSpan (loadable m.segments) (range_loop m.segments no_range) r
      (range_loop-Widened m.segments no_range) h,
  h,
)

pub macho_vm_range-IsSpan :
    (m : MachoBinary) (r : Range) → macho_vm_range m ≡ some r → IsSpan (loadable m.segments) r
unfolding guest_library_vm_range macho_vm_range
macho_vm_range-IsSpan m r h = (guest_library_vm_range-IsSpan m r h).0
