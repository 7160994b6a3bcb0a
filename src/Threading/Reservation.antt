-- ===== src/Threading/Reservation.antt =====
-- Thread ids and stacks that `reserve_guest_thread` of crates/compatra-threading/src/lib.rs hands out.
use compatra.Common.{
  ℕ, ◌+◌, ◌-◌, ◌≤◌, ◌<◌, min, ◌≡◌, refl, List, [], ◌∷◌, u64_max, length, arith, All,
}
use compatra.Threading.State.{
  GuestThreadRuntime, GuestThreadReservation, ok, err, thread_limit_reached,
}
use native.Mathlib.Decide.{dec_lt}
use compatra.Threading.Ops.{reserve_guest_thread}

module _ {ℓ} {C : Type ℓ} where
  -- One reservation after another until one fails, each with its stack size.
  unfoldable pub reserve_all : GuestThreadRuntime C → ℕ → List ℕ → List (GuestThreadReservation × ℕ)
  reserve_all r limit [] = []
  reserve_all r limit (s ∷ sizes) =
      let (r', reserved) = reserve_guest_thread r s limit in
      let rest = reserve_all r' limit sizes in elim reserved [ err e ↦ [] | ok v ↦ (v, s) ∷ rest ]

-- Ids count up from `t`, at most `limit + 1`; stacks follow one another from `base`; each stack top
-- lies in its stack.
abbrev pub Apart : ℕ → ℕ → ℕ → List (GuestThreadReservation × ℕ) → Type 0
Apart limit t base [] = Unit
Apart limit t base ((v, s) ∷ rest) =
    (v.thread_id ≡ t)
    × (t ≤ limit + 1)
    × (v.stack_base ≡ base)
    × (base ≤ v.stack_top)
    × (v.stack_top ≤ base + s)
    × Apart limit (t + 1) (base + s) rest

abbrev pub sum : List ℕ → ℕ
sum [] = 0
sum (n ∷ ns) = n + sum ns

module _ {ℓ} {C : Type ℓ} where
  reserve_refused :
      (r : GuestThreadRuntime C) (s limit : ℕ)
      → limit + 2 ≤ u64_max
      → limit + 1 < r.next_thread_id
      → reserve_guest_thread r s limit ≡ (r, err thread_limit_reached)
  unfolding reserve_guest_thread
  reserve_refused r s limit small h = ground arith

  abbrev granted : GuestThreadRuntime C → ℕ → GuestThreadRuntime C
  granted r s = record r {
    next_thread_id = r.next_thread_id + 1;
    next_stack_base = r.next_stack_base + s;
  }

  abbrev reservation : GuestThreadRuntime C → ℕ → GuestThreadReservation
  reservation r s = record {
    thread_id = r.next_thread_id;
    stack_base = r.next_stack_base;
    stack_top = r.next_stack_base + s - 0x100;
  }

  reserve_granted :
      (r : GuestThreadRuntime C) (s limit : ℕ)
      → limit + 2 ≤ u64_max
      → r.next_thread_id ≤ limit + 1
      → r.next_stack_base + s ≤ u64_max
      → reserve_guest_thread r s limit ≡ (granted r s, ok (reservation r s))
  unfolding reserve_guest_thread
  reserve_granted r s limit small h fits = ground arith

  reserve_all-refused :
      (r : GuestThreadRuntime C) (s limit : ℕ) (sizes : List ℕ)
      → limit + 2 ≤ u64_max
      → limit + 1 < r.next_thread_id
      → reserve_all r limit (s ∷ sizes) ≡ []
  unfolding reserve_all
  reserve_all-refused r s limit sizes small h = ground (arith, reserve_refused r s limit small h)

  reserve_all-granted :
      (r : GuestThreadRuntime C) (s limit : ℕ) (sizes : List ℕ)
      → limit + 2 ≤ u64_max
      → r.next_thread_id ≤ limit + 1
      → r.next_stack_base + s ≤ u64_max
      → reserve_all r limit (s ∷ sizes)
        ≡ (reservation r s, s) ∷ reserve_all (granted r s) limit sizes
  unfolding reserve_all
  reserve_all-granted r s limit sizes small h fits =
      ground (arith, reserve_granted r s limit small h fits)

  -- Reservations under a limit below 2 ^ 64 - 2, of stacks of at least 256 bytes that fit below
  -- 2 ^ 64 together, have distinct ids and disjoint stacks, and there are as many as were asked for
  -- unless the limit cuts them off: ids go up to the limit plus one.
  pub reserve_all-Apart :
      (r : GuestThreadRuntime C) (limit : ℕ) (sizes : List ℕ)
      → limit + 2 ≤ u64_max
      → All (λ s. 0x100 ≤ s) sizes
      → r.next_stack_base + sum sizes ≤ u64_max
      → Apart limit r.next_thread_id r.next_stack_base (reserve_all r limit sizes)
        × (length (reserve_all r limit sizes) ≡ min (length sizes) (limit + 2 - r.next_thread_id))
  reserve_all-Apart r limit [] small large fits = unfold reserve_all in (tt, omega arith)
  reserve_all-Apart r limit (s ∷ sizes) small large fits =
      elim (dec_lt (limit + 1) r.next_thread_id) [
        | yes over ↦ rw (reserve_all-refused r s limit sizes small over) (tt, omega arith)
        | no under ↦
            let (apart, count) =
              reserve_all-Apart (granted r s) limit sizes small large.1 (omega arith) in
            rw (reserve_all-granted r s limit sizes small (omega arith) (omega arith))
              ((refl, omega arith, refl, omega arith, omega arith, apart), omega (arith, count))
      ]
