-- ===== src/Threading/Wake.antt =====
-- Waking and signalling in crates/compatra-threading/src/lib.rs: `consume_cond_signal`, `signal_cond`,
-- `broadcast_cond` and the four free wake functions. The loops recur on the rounds that `limit`
-- leaves, `limit - woken.len()`. The order in which a HashMap is iterated is an argument.
use compatra.Common.{
  ℕ, zero, suc, ◌-◌, ◌%◌, ◌^◌, List, [], ◌∷◌, ◌++◌, Option, none, some, Bool, true, false, ◌==◌,
  ltb, leb, if◌then◌else◌, is_empty, length, ◌+◌, u32_max, u64_max, nat_eq,
}
use compatra.Common.HashMap.{lookup, insert, remove, measure}
use compatra.Threading.State.{
  WaitingGuestThread, CondWake, CondSignal, WaitQueues, GuestThreadRuntime,
}

-- `count.saturating_add(1)` on u32.
abbrev pub bump_signal : Option ℕ → ℕ
bump_signal none = 1
bump_signal (some count) = if leb (count + 1) u32_max then count + 1 else u32_max

abbrev pub cond_and_thread : Option CondWake → Option (ℕ × ℕ)
cond_and_thread none = none
cond_and_thread (some wake) = some (wake.cond, wake.thread_id)

module _ {ℓ} {C : Type ℓ} where
  unfoldable pub consume_cond_signal :
      GuestThreadRuntime C → ℕ → ℕ → ℕ → GuestThreadRuntime C × Bool
  consume_cond_signal r cond mutex t = elim (lookup cond r.cond_signal_counts) [
    | none ↦ (r, false)
    | some count ↦
        if ltb 0 count
        then (
          record r {
            cond_signal_counts = insert cond (count - 1) r.cond_signal_counts;
            mutex_owners = insert mutex t r.mutex_owners;
          },
          true,
        )
        else (r, false)
  ]

  -- The waiter `w` leaves the front of the queue of `cond`, of which `q` is the rest.
  abbrev pub woken_first :
      GuestThreadRuntime C
      → ℕ
      → WaitingGuestThread C
      → List (WaitingGuestThread C)
      → GuestThreadRuntime C × Option CondWake
  woken_first r cond w q =
      let waiters = insert cond q r.cond_waiters in
      let remaining = measure length (lookup cond waiters) in
      (
        record r {
          mutex_owners = insert w.mutex w.thread_id r.mutex_owners;
          pending_threads = w.pending ∷ r.pending_threads;
          cond_waiters = if remaining == 0 then remove cond waiters else waiters;
        },
        some (record { cond = cond; thread_id = w.thread_id; remaining_waiters = remaining }),
      )

  unfoldable pub wake_one_cond_waiter_for :
      GuestThreadRuntime C → ℕ → GuestThreadRuntime C × Option CondWake
  wake_one_cond_waiter_for r cond = elim (lookup cond r.cond_waiters) [
    | none ↦ (r, none)
    | some [] ↦ (r, none)
    | some (w ∷ q) ↦ woken_first r cond w q
  ]

  unfoldable pub wake_for_loop :
      ℕ → GuestThreadRuntime C → ℕ → List CondWake → GuestThreadRuntime C × List CondWake
  wake_for_loop zero r cond woken = (r, woken)
  wake_for_loop (suc rounds) r cond woken =
      let (r', wake) = wake_one_cond_waiter_for r cond in
      elim wake [ none ↦ (r', woken) | some w ↦ wake_for_loop rounds r' cond (woken ++ (w ∷ [])) ]

  unfoldable pub wake_cond_waiters_for :
      GuestThreadRuntime C → ℕ → ℕ → GuestThreadRuntime C × List CondWake
  wake_cond_waiters_for r cond limit = wake_for_loop limit r cond []

  -- `usize::MAX` on a 64-bit host.
  unfoldable pub broadcast_cond : GuestThreadRuntime C → ℕ → GuestThreadRuntime C × List CondWake
  broadcast_cond r cond = wake_cond_waiters_for r cond u64_max

  abbrev pub signal_result :
      ℕ → GuestThreadRuntime C × Option CondWake → GuestThreadRuntime C × CondSignal
  signal_result cond (r, some wake) = (
    r,
    record {
      woken_thread_id = some wake.thread_id;
      pending_signals = wake.remaining_waiters % 2 ^ 32;
    },
  )
  signal_result cond (r, none) =
      let count = bump_signal (lookup cond r.cond_signal_counts) in
      (
        record r { cond_signal_counts = insert cond count r.cond_signal_counts },
        record { woken_thread_id = none; pending_signals = count },
      )

  unfoldable pub signal_cond : GuestThreadRuntime C → ℕ → GuestThreadRuntime C × CondSignal
  unfolding wake_one_cond_waiter_for
  signal_cond r cond = signal_result cond (wake_one_cond_waiter_for r cond)

  -- `find_map(|(cond, queue)| (!queue.is_empty()).then_some(*cond))` over the entries as iterated.
  unfoldable pub find_waiting : List (ℕ × List (WaitingGuestThread C)) → Option ℕ
  find_waiting [] = none
  find_waiting ((cond, q) ∷ rest) = if is_empty q then find_waiting rest else some cond

  -- `iter` gives the entries in the order in which this call meets them.
  unfoldable pub wake_one_cond_waiter :
      (WaitQueues C → List (ℕ × List (WaitingGuestThread C)))
      → GuestThreadRuntime C
      → GuestThreadRuntime C × Option (ℕ × ℕ)
  unfolding find_waiting
  wake_one_cond_waiter iter r = elim (find_waiting (iter r.cond_waiters)) [
    | none ↦ (r, none)
    | some cond ↦ let (r', wake) = wake_one_cond_waiter_for r cond in (r', cond_and_thread wake)
  ]

  -- The order may differ from round to round.
  unfoldable pub wake_loop :
      (ℕ → WaitQueues C → List (ℕ × List (WaitingGuestThread C)))
      → ℕ
      → GuestThreadRuntime C
      → List (ℕ × ℕ)
      → GuestThreadRuntime C × List (ℕ × ℕ)
  wake_loop iter zero r woken = (r, woken)
  wake_loop iter (suc rounds) r woken =
      let (r', wake) = wake_one_cond_waiter (iter rounds) r in
      elim wake [ none ↦ (r', woken) | some w ↦ wake_loop iter rounds r' (woken ++ (w ∷ [])) ]

  unfoldable pub wake_cond_waiters :
      (ℕ → WaitQueues C → List (ℕ × List (WaitingGuestThread C)))
      → GuestThreadRuntime C
      → ℕ
      → GuestThreadRuntime C × List (ℕ × ℕ)
  wake_cond_waiters iter r limit = wake_loop iter limit r []
