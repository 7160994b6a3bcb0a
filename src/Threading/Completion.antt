-- ===== src/Threading/Completion.antt =====
-- The results of finished threads in crates/compatra-threading/src/lib.rs, over sequences of operations.
use compatra.Common.{
  ℕ, zero, suc, ◌≡◌, refl, ◌∙◌, ap, sym, List, [], ◌∷◌, Option, none, some, ◌==◌, if◌then◌else◌,
  Option-cases, inl, inr, arith, nat_eq, u64_max,
}
use compatra.Common.HashMap.{lookup, lookup-insert, lookup-remove, lookup-remove_self}
use compatra.Threading.State.{CondWake, WaitingGuestThread, WaitQueues, GuestThreadRuntime}
use compatra.Threading.Ops.{
  enqueue_pending, enqueue_pending_front, pop_next_pending, remove_pending_by_id,
  activate_thread_with_exit_action, dispatch_next, dispatch_next_with_exit_action,
  dispatch_thread_by_id_with_exit_action, yield_active_to_next, block_active_on_cond,
  block_current_on_cond_and_dispatch, reserve_thread_id, reserve_guest_thread, enqueue_thread_start,
  record_thread_completion, take_thread_completion,
}
use compatra.Threading.Wake.{
  consume_cond_signal, wake_one_cond_waiter_for, wake_for_loop, wake_cond_waiters_for, find_waiting,
  broadcast_cond, signal_cond, wake_one_cond_waiter, wake_loop, wake_cond_waiters,
}
use compatra.Threading.Waking.{after_wake, wake_one_cases, wake_for_loop_stop, wake_for_loop_step}
use compatra.Threading.Calls.{Call, step, run}

module _ {ℓ} {C : Type ℓ} where
  -- The result of the thread that is recorded last and not taken since, where `old` is there before.
  abbrev pub due : ℕ → Option ℕ → List (Call C) → Option ℕ
  due t old [] = old
  due t old (Call.complete u result ∷ cs) = due t (if u == t then some result else old) cs
  due t old (Call.take_completion u ∷ cs) = due t (if u == t then none else old) cs
  due t old (_ ∷ cs) = due t old cs

  abbrev Keeps : GuestThreadRuntime C → GuestThreadRuntime C → Type 0
  Keeps r r' = r'.completed_threads ≡ r.completed_threads

  wake_one-Keeps :
      (r : GuestThreadRuntime C) (cond : ℕ) → Keeps r (wake_one_cond_waiter_for r cond).0
  unfolding wake_one_cond_waiter_for
  wake_one-Keeps r cond = ground arith

  wake_for_loop-Keeps :
      (n : ℕ) (r : GuestThreadRuntime C) (cond : ℕ) (acc : List CondWake)
      → Keeps r (wake_for_loop n r cond acc).0
  wake_for_loop-Keeps zero r cond acc = unfold wake_for_loop in refl
  wake_for_loop-Keeps (suc n) r cond acc = elim (wake_one_cases r cond) [
    | inl e ↦ rw (wake_for_loop_stop n r cond acc e) refl
    | inr (w, q, _, e) ↦
        rw (wake_for_loop_step n r cond acc e)
          (wake_for_loop-Keeps n (after_wake r cond w q) cond _)
  ]

  wake_any-Keeps :
      (iter : WaitQueues C → List (ℕ × List (WaitingGuestThread C))) (r : GuestThreadRuntime C)
      → Keeps r (wake_one_cond_waiter iter r).0
  unfolding wake_one_cond_waiter
  wake_any-Keeps iter r = elim (Option-cases (find_waiting (iter r.cond_waiters))) [
    | inl e ↦ rw (e, wake_one_cond_waiter) refl
    | inr (cond, e) ↦ rw (e, wake_one_cond_waiter) (wake_one-Keeps r cond)
  ]

  wake_loop-Keeps :
      (iter : ℕ → WaitQueues C → List (ℕ × List (WaitingGuestThread C))) (n : ℕ)
      (r : GuestThreadRuntime C) (acc : List (ℕ × ℕ))
      → Keeps r (wake_loop iter n r acc).0
  unfolding wake_loop
  wake_loop-Keeps iter zero r acc = refl
  wake_loop-Keeps iter (suc n) r acc = elim (Option-cases (wake_one_cond_waiter (iter n) r).1) [
    | inl e ↦ rw (e, wake_loop) (wake_any-Keeps (iter n) r)
    | inr (w, e) ↦ rw (e, wake_loop) (wake_loop-Keeps iter n _ _ ∙ wake_any-Keeps (iter n) r)
  ]

  signal-Keeps : (r : GuestThreadRuntime C) (cond : ℕ) → Keeps r (signal_cond r cond).0
  unfolding signal_cond
  signal-Keeps r cond = elim (wake_one_cases r cond) [
    | inl e ↦ rw (e, signal_cond) refl
    | inr (w, q, k, e) ↦ rw (e, signal_cond) refl
  ]

  due-Keeps :
      (r r' : GuestThreadRuntime C) (t : ℕ) (cs : List (Call C))
      → Keeps r r'
      → due t (lookup t r.completed_threads) cs ≡ due t (lookup t r'.completed_threads) cs
  due-Keeps r r' t cs k = ap (λ m. due t (lookup t m) cs) (sym k)

  -- One call and the rest of the sequence.
  step-due :
      (t : ℕ) (r : GuestThreadRuntime C) (c : Call C) (cs : List (Call C))
      → due t (lookup t r.completed_threads) (c ∷ cs)
        ≡ due t (lookup t (step r c).completed_threads) cs
  unfolding step
  step-due t r (Call.complete u result) cs =
      unfold record_thread_completion in
      ap (λ o. due t o cs) (sym (lookup-insert t u result r.completed_threads))
  step-due t r (Call.take_completion u) cs =
      unfold take_thread_completion in
      ap (λ o. due t o cs) (sym (lookup-remove t u r.completed_threads))
  step-due t r (Call.signal cond) cs =
      due-Keeps r (step r (Call.signal cond)) t cs (signal-Keeps r cond)
  step-due t r (Call.broadcast cond) cs =
      unfold broadcast_cond wake_cond_waiters_for in
      due-Keeps r (step r (Call.broadcast cond)) t cs (wake_for_loop-Keeps u64_max r cond [])
  step-due t r (Call.wake_for cond limit) cs =
      unfold wake_cond_waiters_for in
      due-Keeps r (step r (Call.wake_for cond limit)) t cs (wake_for_loop-Keeps limit r cond [])
  step-due t r (Call.wake_any iter limit) cs =
      unfold wake_cond_waiters in
      due-Keeps r (step r (Call.wake_any iter limit)) t cs (wake_loop-Keeps iter limit r [])
  step-due t r (Call.reserve size limit) cs =
      unfold reserve_guest_thread reserve_thread_id in
      due-Keeps r (step r (Call.reserve size limit)) t cs (ground arith)
  step-due t r c cs =
      unfold enqueue_pending enqueue_pending_front pop_next_pending remove_pending_by_id
        activate_thread_with_exit_action dispatch_next_with_exit_action
        dispatch_thread_by_id_with_exit_action yield_active_to_next block_active_on_cond
        dispatch_next block_current_on_cond_and_dispatch reserve_thread_id enqueue_thread_start
        consume_cond_signal in
      due-Keeps r (step r c) t cs (ground arith)

  run-due :
      (t : ℕ) (r : GuestThreadRuntime C) (cs : List (Call C))
      → due t (lookup t r.completed_threads) cs ≡ lookup t (run r cs).completed_threads
  unfolding run
  run-due t r [] = refl
  run-due t r (c ∷ cs) = step-due t r c cs ∙ run-due t (step r c) cs

  -- After any sequence of operations, wakes and dispatches among them, a thread is handed the result that
  -- was recorded for it last, if it was not taken since, and none otherwise; and right after that it is
  -- handed none.
  pub take-run :
      (t : ℕ) (r : GuestThreadRuntime C) (cs : List (Call C))
      → ((take_thread_completion (run r cs) t).1 ≡ due t (take_thread_completion r t).1 cs)
        × ((take_thread_completion (take_thread_completion (run r cs) t).0 t).1 ≡ none)
  unfolding take_thread_completion
  take-run t r cs = (sym (run-due t r cs), lookup-remove_self t (run r cs).completed_threads)
