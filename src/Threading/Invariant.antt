-- ===== src/Threading/Invariant.antt =====
-- The invariant of `GuestThreadRuntime` in crates/compatra-threading/src/lib.rs over every sequence of
-- its operations. The public fields of the struct are taken to be changed by these operations only.
use compatra.Common.{
  ℕ, zero, suc, ◌≡◌, refl, ◌∙◌, List, [], ◌∷◌, some, Option-cases, List-cases, inl, inr, arith,
  nat_eq, u64_max,
}
use compatra.Common.HashMap.{lookup}
use compatra.Threading.State.{
  PendingGuestThread, CondWake, return_child_result, GuestThreadExitAction, WaitingGuestThread,
  ActiveGuestThread, WaitQueues, GuestThreadRuntime, default,
}
use compatra.Threading.Ops.{
  enqueue_pending, enqueue_pending_front, pop_next_pending, remove_pending_by_id,
  activate_thread_with_exit_action, dispatch_next, dispatch_next_with_exit_action,
  dispatch_thread_by_id_with_exit_action, yield_active_to_next, push_waiter, block_active_on_cond,
  block_current_on_cond_and_dispatch, reserve_thread_id, reserve_guest_thread, enqueue_thread_start,
  record_thread_completion, take_thread_completion,
}
use compatra.Threading.Wake.{
  consume_cond_signal, wake_one_cond_waiter_for, wake_for_loop, wake_cond_waiters_for, find_waiting,
  broadcast_cond, signal_cond, wake_one_cond_waiter, wake_loop, wake_cond_waiters,
}
use compatra.Threading.Queues.{QueuesAreValid, push_waiter-QueuesAreValid, store-QueuesAreValid}
use compatra.Threading.Blocking.{
  waiter, block_inactive, block_alone, block_switch, block_current_refused, block_current_dispatch,
}
use compatra.Threading.Waking.{wake_one_cases, wake_for_loop_stop, wake_for_loop_step}
use compatra.Threading.Calls.{Call, step, run}

module _ {ℓ} {C : Type ℓ} where
  -- The wait queues are valid, and the active thread is the current one.
  pub record IsValid (r : GuestThreadRuntime C) : Type ℓ where
    pub queues : QueuesAreValid r.cond_waiters
    pub current :
        (a : ActiveGuestThread C) → r.active_thread ≡ some a → a.thread_id ≡ r.current_thread_id

  -- What waking leaves alone, and that it keeps the queues valid.
  pub record WakeKeeps (r r' : GuestThreadRuntime C) : Type ℓ where
    pub queues : QueuesAreValid r.cond_waiters → QueuesAreValid r'.cond_waiters
    pub active : r'.active_thread ≡ r.active_thread
    pub current : r'.current_thread_id ≡ r.current_thread_id

  WakeKeeps-trans : {r s t : GuestThreadRuntime C} → WakeKeeps r s → WakeKeeps s t → WakeKeeps r t
  WakeKeeps-trans h k = record {
    queues = λ v. k.queues (h.queues v);
    active = k.active ∙ h.active;
    current = k.current ∙ h.current;
  }

  pub wake_one-WakeKeeps :
      (r : GuestThreadRuntime C) (cond : ℕ) → WakeKeeps r (wake_one_cond_waiter_for r cond).0
  wake_one-WakeKeeps r cond = elim (wake_one_cases r cond) [
    | inl e ↦ rw e (record { queues = λ v. v; active = refl; current = refl })
    | inr (w, q, _, e) ↦ rw e (record {
      queues = store-QueuesAreValid cond q r.cond_waiters;
      active = refl;
      current = refl;
    })
  ]

  wake_for_loop-WakeKeeps :
      (n : ℕ) (r : GuestThreadRuntime C) (cond : ℕ) (acc : List CondWake)
      → WakeKeeps r (wake_for_loop n r cond acc).0
  wake_for_loop-WakeKeeps zero r cond acc =
      unfold wake_for_loop in record { queues = λ v. v; active = refl; current = refl }
  wake_for_loop-WakeKeeps (suc n) r cond acc = elim (wake_one_cases r cond) [
    | inl e ↦
        rw (wake_for_loop_stop n r cond acc e)
          (record { queues = λ v. v; active = refl; current = refl })
    | inr (w, q, _, e) ↦
        rw (wake_for_loop_step n r cond acc e) (
          WakeKeeps-trans (rw e at (wake_one-WakeKeeps r cond))
            (wake_for_loop-WakeKeeps n _ cond _))
  ]

  pub wake_any-WakeKeeps :
      (iter : WaitQueues C → List (ℕ × List (WaitingGuestThread C))) (r : GuestThreadRuntime C)
      → WakeKeeps r (wake_one_cond_waiter iter r).0
  unfolding wake_one_cond_waiter
  wake_any-WakeKeeps iter r = elim (Option-cases (find_waiting (iter r.cond_waiters))) [
    | inl e ↦
        rw (e, wake_one_cond_waiter) (record { queues = λ v. v; active = refl; current = refl })
    | inr (cond, e) ↦ rw (e, wake_one_cond_waiter) (wake_one-WakeKeeps r cond)
  ]

  wake_loop-WakeKeeps :
      (iter : ℕ → WaitQueues C → List (ℕ × List (WaitingGuestThread C))) (n : ℕ)
      (r : GuestThreadRuntime C) (acc : List (ℕ × ℕ))
      → WakeKeeps r (wake_loop iter n r acc).0
  unfolding wake_loop
  wake_loop-WakeKeeps iter zero r acc = record { queues = λ v. v; active = refl; current = refl }
  wake_loop-WakeKeeps iter (suc n) r acc = elim (Option-cases (wake_one_cond_waiter (iter n) r).1) [
    | inl e ↦ rw (e, wake_loop) (wake_any-WakeKeeps (iter n) r)
    | inr (w, e) ↦
        rw (e, wake_loop)
          (WakeKeeps-trans (wake_any-WakeKeeps (iter n) r) (wake_loop-WakeKeeps iter n _ _))
  ]

  WakeKeeps-IsValid : {r r' : GuestThreadRuntime C} → WakeKeeps r r' → IsValid r → IsValid r'
  WakeKeeps-IsValid k v = record {
    queues = k.queues v.queues;
    current = λ a h. ground (arith, k.active, k.current, v.current a);
  }

  signal_cond-IsValid :
      (r : GuestThreadRuntime C) (cond : ℕ) → IsValid r → IsValid (signal_cond r cond).0
  unfolding signal_cond
  signal_cond-IsValid r cond v = elim (wake_one_cases r cond) [
    | inl e ↦ rw (e, signal_cond) (record { queues = v.queues; current = v.current })
    | inr (w, q, _, e) ↦
        rw (e, signal_cond) (WakeKeeps-IsValid (rw e at (wake_one-WakeKeeps r cond)) v)
  ]

  -- An operation that leaves the wait queues alone.
  same-IsValid :
      {r r' : GuestThreadRuntime C}
      → r'.cond_waiters ≡ r.cond_waiters
      → ((a : ActiveGuestThread C) → r'.active_thread ≡ some a → a.thread_id ≡ r'.current_thread_id)
      → IsValid r
      → IsValid r'
  same-IsValid {r} {r'} e c v = record { queues = rw e v.queues; current = c }

  dispatch-IsValid :
      (r : GuestThreadRuntime C) (parent : C) (action : GuestThreadExitAction)
      → IsValid r
      → IsValid (dispatch_next_with_exit_action r parent action).0
  unfolding dispatch_next_with_exit_action
  dispatch-IsValid r parent action v =
      same-IsValid (ground arith) (λ a h. ground (arith, v.current a)) v

  dispatch_by_id-IsValid :
      (r : GuestThreadRuntime C) (t : ℕ) (parent : C) (action : GuestThreadExitAction)
      → IsValid r
      → IsValid (dispatch_thread_by_id_with_exit_action r t parent action).0
  unfolding dispatch_thread_by_id_with_exit_action
  dispatch_by_id-IsValid r t parent action v =
      same-IsValid (ground arith) (λ a h. ground (arith, v.current a)) v

  yield-IsValid :
      (r : GuestThreadRuntime C) (p : PendingGuestThread C)
      → IsValid r
      → IsValid (yield_active_to_next r p).0
  unfolding yield_active_to_next
  yield-IsValid r p v = same-IsValid (ground arith) (λ a h. ground (arith, v.current a)) v

  block-IsValid :
      (r : GuestThreadRuntime C) (cond mutex : ℕ) (p : PendingGuestThread C)
      → IsValid r
      → IsValid (block_active_on_cond r cond mutex p).0
  unfolding activate_thread_with_exit_action
  block-IsValid r cond mutex p v = elim (Option-cases r.active_thread) [
    | inl e ↦ rw (block_inactive r cond mutex p e) v
    | inr (a, e) ↦ elim (List-cases r.pending_threads) [
      | inl k ↦ rw (block_alone r cond mutex p v.queues k) v
      | inr (next, rest, k) ↦ rw (block_switch r cond mutex p e k) (record {
        queues =
            push_waiter-QueuesAreValid cond (waiter a.thread_id mutex p) r.cond_waiters v.queues;
        current = λ b h. ground arith;
      })
    ]
  ]

  block_current-IsValid :
      (r : GuestThreadRuntime C) (cond mutex : ℕ) (p : PendingGuestThread C) (parent : C)
      → IsValid r
      → IsValid (block_current_on_cond_and_dispatch r cond mutex p parent).0
  unfolding dispatch_next
  block_current-IsValid r cond mutex p parent v = elim (Option-cases r.active_thread) [
    | inr (a, e) ↦ rw (block_current_refused r cond mutex p parent (inl (λ h. cc))) v
    | inl e ↦ elim (List-cases r.pending_threads) [
      | inl k ↦ rw (block_current_refused r cond mutex p parent (inr k)) v
      | inr (next, rest, k) ↦ rw (block_current_dispatch r cond mutex p parent e k) (
          dispatch-IsValid
            (record r {
              cond_waiters = push_waiter cond (waiter p.thread_id mutex p) r.cond_waiters;
            })
            parent return_child_result
            (record {
              queues =
                  push_waiter-QueuesAreValid cond (waiter p.thread_id mutex p) r.cond_waiters
                    v.queues;
              current = v.current;
            }))
    ]
  ]

  reserve-IsValid :
      (r : GuestThreadRuntime C) (size limit : ℕ)
      → IsValid r
      → IsValid (reserve_guest_thread r size limit).0
  unfolding reserve_guest_thread
  reserve-IsValid r size limit v =
      same-IsValid (ground arith) (λ a h. ground (arith, v.current a)) v

  pub step-IsValid : (r : GuestThreadRuntime C) (c : Call C) → IsValid r → IsValid (step r c)
  unfolding step
  step-IsValid r (Call.dispatch c x) v = dispatch-IsValid r c x v
  step-IsValid r (Call.dispatch_by_id t c x) v = dispatch_by_id-IsValid r t c x v
  step-IsValid r (Call.yields p) v = yield-IsValid r p v
  step-IsValid r (Call.block cond mutex p) v = block-IsValid r cond mutex p v
  step-IsValid r (Call.block_current cond mutex p c) v = block_current-IsValid r cond mutex p c v
  step-IsValid r (Call.reserve size limit) v = reserve-IsValid r size limit v
  step-IsValid r (Call.signal cond) v = signal_cond-IsValid r cond v
  step-IsValid r (Call.broadcast cond) v =
      unfold broadcast_cond wake_cond_waiters_for in
      WakeKeeps-IsValid (wake_for_loop-WakeKeeps u64_max r cond []) v
  step-IsValid r (Call.wake_for cond limit) v =
      unfold wake_cond_waiters_for in WakeKeeps-IsValid (wake_for_loop-WakeKeeps limit r cond []) v
  step-IsValid r (Call.wake_any iter limit) v =
      unfold wake_cond_waiters in WakeKeeps-IsValid (wake_loop-WakeKeeps iter limit r []) v
  step-IsValid r c v =
      unfold enqueue_pending enqueue_pending_front pop_next_pending remove_pending_by_id
        activate_thread_with_exit_action reserve_thread_id enqueue_thread_start
        record_thread_completion take_thread_completion consume_cond_signal in
      same-IsValid (ground arith) (λ a h. ground (arith, v.current a)) v

  -- Whatever sequence of operations runs on a valid runtime, the runtime stays valid: each condition
  -- has at most one wait queue, no wait queue is stored empty, and the active thread is the current
  -- one.
  pub run-IsValid : (r : GuestThreadRuntime C) (cs : List (Call C)) → IsValid r → IsValid (run r cs)
  unfolding run
  run-IsValid r [] v = v
  run-IsValid r (c ∷ cs) v = run-IsValid (step r c) cs (step-IsValid r c v)

pub default-IsValid {ℓ} : (C : Type ℓ) → IsValid (default C)
unfolding default lookup
default-IsValid C = record {
  queues = record { keys = tt; waiting = λ cond h. cc };
  current = λ a h. cc;
}
