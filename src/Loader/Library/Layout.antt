-- ===== src/Loader/Library/Layout.antt =====
-- How `GuestLibrarySet::from_specs` of crates/compatra-runtime/src/macos/loader/guest_libraries.rs lays the
-- libraries out in the guest's address space.
use compatra.Common.{
  ℕ, ◌+◌, ◌^◌, ◌≤◌, ◌<◌, ◌≡◌, subst, inl, inr, List, [], ◌∷◌, ◌++◌, All, saturating_add, arith,
}
use compatra.Common.Result.{ok, err_is_not_ok, Result-cases}
use compatra.Loader.Library.Range.{align_up}
use compatra.Loader.Library.RangeLaws.{guest_library_vm_range-IsSpan}
use compatra.Loader.Library.Image.{GuestLibraryImage, page_size}
use compatra.Loader.Library.Placement.{IsPlaced, from_binary-IsPlaced}
use compatra.Loader.Library.Set.{GuestLibrarySet, push}
use compatra.Loader.Library.Specs.{
  Host, Linking, from_path, base_behind, guest_library_load_gap, linked, from_specs,
}
use compatra.Loader.Library.LinkRule.{from_specs_rule}

abbrev pub Before : GuestLibraryImage → GuestLibraryImage → Type 0
Before i j = i.mapped_range.end + guest_library_load_gap ≤ j.mapped_range.start

-- Each image ends a gap before every later one.
abbrev pub Separated : List GuestLibraryImage → Type 0
Separated [] = Unit {0}
Separated (image ∷ images) = All (Before image) images × Separated images

-- The image ends two gaps below 2 ^ 64 or earlier.
abbrev pub IsLow : GuestLibraryImage → Type 0
IsLow image = image.mapped_range.end + 0x20000 ≤ 2 ^ 64

module _ {A : Type 0} where
  pub All-snoc : (P : A → Type 0) (xs : List A) (x : A) → All P xs → P x → All P (xs ++ (x ∷ []))
  All-snoc P [] x h p = (p, tt)
  All-snoc P (y ∷ ys) x h p = (h.0, All-snoc P ys x h.1 p)

  pub All-front : (P : A → Type 0) (xs : List A) (x : A) → All P (xs ++ (x ∷ [])) → All P xs
  All-front P [] x h = tt
  All-front P (y ∷ ys) x h = (h.0, All-front P ys x h.1)

  pub All-last : (P : A → Type 0) (xs : List A) (x : A) → All P (xs ++ (x ∷ [])) → P x
  All-last P [] x h = h.0
  All-last P (y ∷ ys) x h = All-last P ys x h.1

  pub All-map : (P Q : A → Type 0) (xs : List A) → ((x : A) → P x → Q x) → All P xs → All Q xs
  All-map P Q [] f h = tt
  All-map P Q (x ∷ xs) f h = (f x h.0, All-map P Q xs f h.1)

Separated-snoc :
    (images : List GuestLibraryImage) (image : GuestLibraryImage)
    → Separated images
    → All (λ i. Before i image) images
    → Separated (images ++ (image ∷ []))
Separated-snoc [] image s b = (tt, tt)
Separated-snoc (i ∷ images) image s b =
    (All-snoc (Before i) images image s.0 b.0, Separated-snoc images image s.1 b.1)

-- Every library ends a gap before the base for the next one.
abbrev EndsBelow : ℕ → GuestLibraryImage → Type 0
EndsBelow base image = image.mapped_range.end + guest_library_load_gap ≤ base

record Laid (l : Linking) : Type 0 where
  room : l.next_base + page_size ≤ 2 ^ 64
  placed : All IsPlaced l.set.images
  below : All IsLow l.set.images → All (EndsBelow l.next_base) l.set.images
  separated : All IsLow l.set.images → Separated l.set.images

align_up-room : (v : ℕ) → align_up v 0x10000 + page_size ≤ 2 ^ 64
align_up-room v = omega arith

base_behind-le : (end : ℕ) → end + 0x20000 ≤ 2 ^ 64 → end + guest_library_load_gap ≤ base_behind end
base_behind-le end low = ground arith

from_path-IsPlaced :
    (host : Host) (path : List ℕ) (base : ℕ) (image : GuestLibraryImage)
    → base + page_size ≤ 2 ^ 64
    → from_path host path base ≡ ok image
    → IsPlaced image
      × (base ≤ image.mapped_range.start)
      × (image.vm_range.start < image.vm_range.end)
unfolding from_path
from_path-IsPlaced host path base image small h = elim (Result-cases (host.parse_file path)) [
  | inr (message, f) ↦ err_is_not_ok (rw (from_path, f) at h)
  | inl (binary, f) ↦
      let (placed, range, above) =
        from_binary-IsPlaced path binary base image small (rw (from_path, f) at h) in
      (
        placed,
        omega (arith, placed.starts),
        (guest_library_vm_range-IsSpan binary image.vm_range range).0.nonempty,
      )
]

module _ (host : Host) (path : List ℕ) (l : Linking) (image : GuestLibraryImage)
    (opened : from_path host path l.next_base ≡ ok image) (laid : Laid l) where
  behind :
      IsPlaced image
      × (l.next_base ≤ image.mapped_range.start)
      × (image.vm_range.start < image.vm_range.end)
  behind = from_path-IsPlaced host path l.next_base image laid.room opened

  ends-Before : All IsLow (l.set.images ++ (image ∷ [])) → All (λ i. Before i image) l.set.images
  ends-Before low =
      let (placed, above, nonempty) = behind in
      All-map (EndsBelow l.next_base) (λ i. Before i image) l.set.images (λ i below. omega arith)
        (laid.below (All-front IsLow l.set.images image low))

  ends_below :
      All IsLow (l.set.images ++ (image ∷ []))
      → All (EndsBelow (base_behind image.mapped_range.end)) (l.set.images ++ (image ∷ []))
  ends_below low =
      let (placed, above, nonempty) = behind in
      let next = base_behind-le image.mapped_range.end (All-last IsLow l.set.images image low) in
      let order : image.mapped_range.start ≤ image.mapped_range.end =
        omega (arith, placed.shifted_start, placed.shifted_end) in
      All-snoc (EndsBelow (base_behind image.mapped_range.end)) l.set.images image
        (All-map (EndsBelow l.next_base) (EndsBelow (base_behind image.mapped_range.end))
          l.set.images (λ i below. omega arith)
          (laid.below (All-front IsLow l.set.images image low)))
        next

  linked-Laid : Laid (linked l path image)
  unfolding push
  linked-Laid = record {
    room = align_up-room (saturating_add image.mapped_range.end guest_library_load_gap);
    placed = All-snoc IsPlaced l.set.images image laid.placed behind.0;
    below = ends_below;
    separated = λ low.
        Separated-snoc l.set.images image (laid.separated (All-front IsLow l.set.images image low))
          (ends-Before low);
  }

from_specs-Laid :
    (host : Host) (specs : List (List ℕ)) (load_base : ℕ) (set : GuestLibrarySet)
    → from_specs host specs load_base ≡ ok set
    → All IsPlaced set.images × (All IsLow set.images → Separated set.images)
from_specs-Laid host specs load_base set h =
    let (l, same, laid) =
      from_specs_rule host Laid (linked-Laid host) specs load_base set h (record {
        room = align_up-room load_base;
        placed = tt;
        below = λ e. tt;
        separated = λ e. tt;
      }) in
    subst
      (λ (s : GuestLibrarySet). All IsPlaced s.images × (All IsLow s.images → Separated s.images))
      same (laid.placed, laid.separated)

pub from_specs-IsPlaced :
    (host : Host) (specs : List (List ℕ)) (load_base : ℕ) (set : GuestLibrarySet)
    → from_specs host specs load_base ≡ ok set
    → All IsPlaced set.images
from_specs-IsPlaced host specs load_base set h = (from_specs-Laid host specs load_base set h).0

-- The libraries that a run loads are all placed, and where each ends at least two gaps of 2 ^ 16 bytes
-- below 2 ^ 64, they ascend in the order of loading with such a gap behind each: no two overlap.
pub from_specs-Separated :
    (host : Host) (specs : List (List ℕ)) (load_base : ℕ) (set : GuestLibrarySet)
    → from_specs host specs load_base ≡ ok set
    → All IsLow set.images
    → All IsPlaced set.images × Separated set.images
from_specs-Separated host specs load_base set h low =
    let (placed, separated) = from_specs-Laid host specs load_base set h in (placed, separated low)
