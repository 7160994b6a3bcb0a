-- ===== src/Threading/Signals.antt =====
-- The pending signals of a condition in crates/compatra-threading/src/lib.rs are a counter.
use compatra.Common.{
  ℕ, zero, suc, ◌+◌, ◌-◌, ◌≤◌, ◌<◌, min, ◌≡◌, none, some, Bool, true, false, if◌then◌else◌,
  Option-cases, inl, inr, ap, u32_max, arith, nat_eq,
}
use compatra.Common.HashMap.{lookup, insert, measure, lookup-insert_self}
use native.Mathlib.Decide.{dec_lt}
use compatra.Threading.State.{GuestThreadRuntime}
use compatra.Threading.Wake.{signal_cond, consume_cond_signal, bump_signal}
use compatra.Threading.Waking.{wake_one_none}

module _ {ℓ} {C : Type ℓ} where
  -- The signals that are pending for a condition.
  abbrev pub pending_count : ℕ → GuestThreadRuntime C → ℕ
  pending_count cond r = measure (λ n. n) (lookup cond r.cond_signal_counts)

  unfoldable pub signal_many : ℕ → GuestThreadRuntime C → ℕ → GuestThreadRuntime C
  signal_many zero r cond = r
  signal_many (suc n) r cond = signal_many n (signal_cond r cond).0 cond

  -- How many of `n` attempts of thread `t` to consume a signal succeed.
  unfoldable pub consume_many : ℕ → GuestThreadRuntime C → ℕ → ℕ → ℕ → ℕ
  consume_many zero r cond mutex t = 0
  consume_many (suc n) r cond mutex t =
      let (r', got) = consume_cond_signal r cond mutex t in
      let rest = consume_many n r' cond mutex t in (if got then 1 else 0) + rest

  signal_idle :
      (r : GuestThreadRuntime C) (cond : ℕ)
      → lookup cond r.cond_waiters ≡ none
      → (signal_cond r cond).0 ≡ record r {
        cond_signal_counts =
            insert cond (bump_signal (lookup cond r.cond_signal_counts)) r.cond_signal_counts;
      }
  unfolding signal_cond
  signal_idle r cond h = rw (wake_one_none r cond h, signal_cond)

  signal_count :
      (r : GuestThreadRuntime C) (cond : ℕ)
      → lookup cond r.cond_waiters ≡ none
      → pending_count cond r < u32_max
      → (pending_count cond (signal_cond r cond).0 ≡ pending_count cond r + 1)
        × (lookup cond (signal_cond r cond).0.cond_waiters ≡ none)
  signal_count r cond h fits = rw (signal_idle r cond h) (
    rw
        (lookup-insert_self cond (bump_signal (lookup cond r.cond_signal_counts))
          r.cond_signal_counts)
        (ground arith),
    h,
  )

  signal_many-count :
      (n : ℕ) (r : GuestThreadRuntime C) (cond : ℕ)
      → lookup cond r.cond_waiters ≡ none
      → pending_count cond r + n ≤ u32_max
      → pending_count cond (signal_many n r cond) ≡ pending_count cond r + n
  unfolding signal_many
  signal_many-count zero r cond h fits = omega arith
  signal_many-count (suc n) r cond h fits =
      let (counted, idle) = signal_count r cond h (omega arith) in
      omega (arith, signal_many-count n (signal_cond r cond).0 cond idle (omega arith))

  consume_empty :
      (r : GuestThreadRuntime C) (cond mutex t : ℕ)
      → pending_count cond r ≡ 0
      → consume_cond_signal r cond mutex t ≡ (r, false)
  unfolding consume_cond_signal
  consume_empty r cond mutex t h = ground arith

  consume_some :
      (r : GuestThreadRuntime C) (cond mutex t : ℕ)
      → 0 < pending_count cond r
      → ((consume_cond_signal r cond mutex t).1 ≡ true)
        × (pending_count cond (consume_cond_signal r cond mutex t).0 + 1 ≡ pending_count cond r)
        × (lookup mutex (consume_cond_signal r cond mutex t).0.mutex_owners ≡ some t)
  unfolding consume_cond_signal
  consume_some r cond mutex t h = elim (Option-cases (lookup cond r.cond_signal_counts)) [
    | inl e ↦ absurd (ground arith)
    | inr (count, e) ↦ (
      ground arith,
      ground (arith, lookup-insert_self cond (count - 1) r.cond_signal_counts),
      ground (arith, lookup-insert_self mutex t r.mutex_owners),
    )
  ]

  consume_many-count :
      (m : ℕ) (r : GuestThreadRuntime C) (cond mutex t : ℕ)
      → consume_many m r cond mutex t ≡ min (pending_count cond r) m
  unfolding consume_many
  consume_many-count zero r cond mutex t = omega arith
  consume_many-count (suc m) r cond mutex t = elim (dec_lt 0 (pending_count cond r)) [
    | yes some_left ↦
        let (got, left, _) = consume_some r cond mutex t some_left in
        rw (got, consume_many)
          (omega
            (arith, left, consume_many-count m (consume_cond_signal r cond mutex t).0 cond mutex t))
    | no none_left ↦
        let e : pending_count cond r ≡ 0 = omega arith in
        rw (consume_empty r cond mutex t e, consume_many)
          (omega (arith, consume_many-count m r cond mutex t))
  ]

  -- Signals to a condition for which nobody waits are counted, and each is consumed once: of `m`
  -- attempts after `n` signals as many succeed as there were signals before and are now, if those
  -- fit in 32 bits.
  pub consume_many-signal_many :
      (n m : ℕ) (r : GuestThreadRuntime C) (cond mutex t : ℕ)
      → lookup cond r.cond_waiters ≡ none
      → pending_count cond r + n ≤ u32_max
      → consume_many m (signal_many n r cond) cond mutex t ≡ min (pending_count cond r + n) m
  consume_many-signal_many n m r cond mutex t idle fits = omega (
    arith,
    consume_many-count m (signal_many n r cond) cond mutex t,
    signal_many-count n r cond idle fits,
  )

  -- A consumed signal makes the thread the owner of the mutex.
  pub consume-owner :
      (r : GuestThreadRuntime C) (cond mutex t : ℕ)
      → (consume_cond_signal r cond mutex t).1 ≡ true
      → lookup mutex (consume_cond_signal r cond mutex t).0.mutex_owners ≡ some t
  consume-owner r cond mutex t h = elim (dec_lt 0 (pending_count cond r)) [
    | yes some_left ↦ (consume_some r cond mutex t some_left).2
    | no none_left ↦
        let e : pending_count cond r ≡ 0 = omega arith in
        absurd (cc (ap (λ (x : GuestThreadRuntime C × Bool). x.1) (consume_empty r cond mutex t e)))
  ]
