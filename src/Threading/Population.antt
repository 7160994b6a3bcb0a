-- ===== src/Threading/Population.antt =====
-- The scheduling operations of crates/compatra-threading/src/lib.rs and how often a thread is pending,
-- waiting or active.
use compatra.Common.{
  ℕ, zero, suc, ◌+◌, ◌≡◌, refl, ◌∙◌, List, [], ◌∷◌, ◌++◌, Option, none, some, get_or, ◌==◌,
  if◌then◌else◌, Option-cases, List-cases, inl, inr, arith, nat_eq,
}
use compatra.Common.HashMap.{
  lookup, insert, total, total-insert, total-remove, insert-IsMap, lookup-insert_self,
}
use compatra.Threading.State.{
  PendingGuestThread, CondWake, GuestThreadExitAction, WaitingGuestThread, ActiveGuestThread,
  WaitQueues, GuestThreadRuntime,
}
use compatra.Threading.Ops.{
  activate_thread_with_exit_action, dispatch_next_with_exit_action,
  dispatch_thread_by_id_with_exit_action, yield_active_to_next, push_waiter, block_active_on_cond,
}
use compatra.Threading.Wake.{
  wake_one_cond_waiter_for, wake_for_loop, find_waiting, signal_cond, wake_one_cond_waiter,
  wake_loop,
}
use compatra.Threading.Queues.{QueuesAreValid, store-QueuesAreValid}
use compatra.Threading.Pending.{position_cases}
use compatra.Threading.Blocking.{
  waiter, block_inactive, block_alone, block_switch, by_id_active, by_id_missing, by_id_found,
}
use compatra.Threading.Waking.{
  store, after_wake, wake_one_cases, wake_for_loop_stop, wake_for_loop_step,
}
use compatra.Threading.Invariant.{wake_any-WakeKeeps}

abbrev pub one_if : ℕ → ℕ → ℕ
one_if t u = if t == u then 1 else 0

module _ {ℓ} {C : Type ℓ} where
  abbrev pub count_pending : ℕ → List (PendingGuestThread C) → ℕ
  count_pending t [] = 0
  count_pending t (p ∷ ps) = one_if t p.thread_id + count_pending t ps

  abbrev pub count_waiting : ℕ → List (WaitingGuestThread C) → ℕ
  count_waiting t [] = 0
  count_waiting t (w ∷ q) = one_if t w.pending.thread_id + count_waiting t q

  abbrev pub count_active : ℕ → Option (ActiveGuestThread C) → ℕ
  count_active t none = 0
  count_active t (some a) = one_if t a.thread_id

  -- How often a thread is pending, waiting or active.
  abbrev pub population : ℕ → GuestThreadRuntime C → ℕ
  population t r =
      count_pending t r.pending_threads
      + total (count_waiting t) r.cond_waiters
      + count_active t r.active_thread

  pub count_pending-append :
      (t : ℕ) (ps qs : List (PendingGuestThread C))
      → count_pending t (ps ++ qs) ≡ count_pending t ps + count_pending t qs
  count_pending-append t [] qs = omega arith
  count_pending-append t (p ∷ ps) qs = omega (arith, count_pending-append t ps qs)

  count_waiting-append :
      (t : ℕ) (ps qs : List (WaitingGuestThread C))
      → count_waiting t (ps ++ qs) ≡ count_waiting t ps + count_waiting t qs
  count_waiting-append t [] qs = omega arith
  count_waiting-append t (p ∷ ps) qs = omega (arith, count_waiting-append t ps qs)

  pub total-push_waiter :
      (t cond : ℕ) (w : WaitingGuestThread C) (m : WaitQueues C)
      → total (count_waiting t) (push_waiter cond w m)
        ≡ total (count_waiting t) m + one_if t w.pending.thread_id
  unfolding push_waiter
  total-push_waiter t cond w m = ground (
    arith,
    total-insert (count_waiting t) cond (get_or (lookup cond m) [] ++ (w ∷ [])) m,
    count_waiting-append t (get_or (lookup cond m) []) (w ∷ []),
  )

  total-store :
      (t cond : ℕ) (w : WaitingGuestThread C) (q : List (WaitingGuestThread C)) (m : WaitQueues C)
      → QueuesAreValid m
      → lookup cond m ≡ some (w ∷ q)
      → total (count_waiting t) (store cond q m) + one_if t w.pending.thread_id
        ≡ total (count_waiting t) m
  total-store t cond w [] m v e = ground (
    arith,
    total-insert (count_waiting t) cond [] m,
    total-remove (count_waiting t) cond (insert cond [] m) (insert-IsMap cond [] m v.keys),
    lookup-insert_self cond [] m,
  )
  total-store t cond w (x ∷ q) m v e = ground (arith, total-insert (count_waiting t) cond (x ∷ q) m)

  after_wake-population :
      (t cond : ℕ) (w : WaitingGuestThread C) (q : List (WaitingGuestThread C))
      (r : GuestThreadRuntime C)
      → QueuesAreValid r.cond_waiters
      → lookup cond r.cond_waiters ≡ some (w ∷ q)
      → population t (after_wake r cond w q) ≡ population t r
  after_wake-population t cond w q r v e = omega (arith, total-store t cond w q r.cond_waiters v e)

  pub wake_for_loop-population :
      (n t cond : ℕ) (r : GuestThreadRuntime C) (acc : List CondWake)
      → QueuesAreValid r.cond_waiters
      → population t (wake_for_loop n r cond acc).0 ≡ population t r
  wake_for_loop-population zero t cond r acc v = unfold wake_for_loop in refl
  wake_for_loop-population (suc n) t cond r acc v = elim (wake_one_cases r cond) [
    | inl e ↦ rw (wake_for_loop_stop n r cond acc e)
    | inr (w, q, k, e) ↦ rw (wake_for_loop_step n r cond acc e) (
        wake_for_loop-population n t cond (after_wake r cond w q) _
          (store-QueuesAreValid cond q r.cond_waiters v)
        ∙ after_wake-population t cond w q r v k)
  ]

  wake_one-population :
      (t cond : ℕ) (r : GuestThreadRuntime C)
      → QueuesAreValid r.cond_waiters
      → population t (wake_one_cond_waiter_for r cond).0 ≡ population t r
  wake_one-population t cond r v = elim (wake_one_cases r cond) [
    | inl e ↦ rw e
    | inr (w, q, k, e) ↦ rw e (after_wake-population t cond w q r v k)
  ]

  wake_any-population :
      (t : ℕ) (iter : WaitQueues C → List (ℕ × List (WaitingGuestThread C)))
      (r : GuestThreadRuntime C)
      → QueuesAreValid r.cond_waiters
      → population t (wake_one_cond_waiter iter r).0 ≡ population t r
  unfolding wake_one_cond_waiter
  wake_any-population t iter r v = elim (Option-cases (find_waiting (iter r.cond_waiters))) [
    | inl e ↦ rw (e, wake_one_cond_waiter)
    | inr (cond, e) ↦ rw (e, wake_one_cond_waiter) (wake_one-population t cond r v)
  ]

  pub wake_loop-population :
      (iter : ℕ → WaitQueues C → List (ℕ × List (WaitingGuestThread C))) (n t : ℕ)
      (r : GuestThreadRuntime C) (acc : List (ℕ × ℕ))
      → QueuesAreValid r.cond_waiters
      → population t (wake_loop iter n r acc).0 ≡ population t r
  unfolding wake_loop
  wake_loop-population iter zero t r acc v = refl
  wake_loop-population iter (suc n) t r acc v =
      elim (Option-cases (wake_one_cond_waiter (iter n) r).1) [
        | inl e ↦ rw (e, wake_loop) (wake_any-population t (iter n) r v)
        | inr (w, e) ↦
            rw (e, wake_loop)
              (wake_loop-population iter n t (wake_one_cond_waiter (iter n) r).0 _
                  ((wake_any-WakeKeeps (iter n) r).queues v)
                ∙ wake_any-population t (iter n) r v)
      ]

  pub signal-population :
      (t cond : ℕ) (r : GuestThreadRuntime C)
      → QueuesAreValid r.cond_waiters
      → population t (signal_cond r cond).0 ≡ population t r
  unfolding signal_cond
  signal-population t cond r v = elim (wake_one_cases r cond) [
    | inl e ↦ rw (e, signal_cond)
    | inr (w, q, k, e) ↦ rw (e, signal_cond) (after_wake-population t cond w q r v k)
  ]

  pub dispatch-population :
      (t : ℕ) (r : GuestThreadRuntime C) (c : C) (x : GuestThreadExitAction)
      → population t (dispatch_next_with_exit_action r c x).0 ≡ population t r
  unfolding dispatch_next_with_exit_action
  dispatch-population t r c x = ground arith

  pub dispatch_by_id-population :
      (t : ℕ) (r : GuestThreadRuntime C) (u : ℕ) (c : C) (x : GuestThreadExitAction)
      → population t (dispatch_thread_by_id_with_exit_action r u c x).0 ≡ population t r
  unfolding activate_thread_with_exit_action
  dispatch_by_id-population t r u c x = elim (Option-cases r.active_thread) [
    | inr (a, e) ↦ rw (by_id_active r u c x e)
    | inl e ↦ elim (position_cases u r.pending_threads) [
      | inl (_, k) ↦ rw (by_id_missing r u c x e k)
      | inr (_, f) ↦ rw (by_id_found r u c x e f) (
          ground (
            arith,
            f.split,
            count_pending-append t f.before (f.thread ∷ f.after),
            count_pending-append t f.before f.after,
          ))
    ]
  ]

  -- The thread that is put aside is the active one.
  abbrev pub ResumesActive : GuestThreadRuntime C → PendingGuestThread C → Type ℓ
  ResumesActive r p =
      (a : ActiveGuestThread C) → r.active_thread ≡ some a → p.thread_id ≡ a.thread_id

  pub yield-population :
      (t : ℕ) (r : GuestThreadRuntime C) (p : PendingGuestThread C)
      → ResumesActive r p
      → population t (yield_active_to_next r p).0 ≡ population t r
  yield-population t r p h = elim (Option-cases r.active_thread) [
    | inl e ↦ unfold yield_active_to_next in ground arith
    | inr (a, e) ↦ elim (List-cases r.pending_threads) [
      | inl k ↦ unfold yield_active_to_next in ground arith
      | inr (next, rest, k) ↦
          unfold yield_active_to_next in ground (arith, h a e, count_pending-append t rest (p ∷ []))
    ]
  ]

  pub block-population :
      (t : ℕ) (r : GuestThreadRuntime C) (cond mutex : ℕ) (p : PendingGuestThread C)
      → QueuesAreValid r.cond_waiters
      → ResumesActive r p
      → population t (block_active_on_cond r cond mutex p).0 ≡ population t r
  unfolding activate_thread_with_exit_action
  block-population t r cond mutex p v h = elim (Option-cases r.active_thread) [
    | inl e ↦ rw (block_inactive r cond mutex p e)
    | inr (a, e) ↦ elim (List-cases r.pending_threads) [
      | inl k ↦ rw (block_alone r cond mutex p v k)
      | inr (next, rest, k) ↦ rw (block_switch r cond mutex p e k) (
          ground
            (arith, h a e, total-push_waiter t cond (waiter a.thread_id mutex p) r.cond_waiters))
    ]
  ]
