-- ===== src/Threading/Conservation.antt =====
-- Sequences of the operations of crates/compatra-threading/src/lib.rs neither lose a thread nor make a
-- second copy of one.
use compatra.Common.{
  ℕ, ◌+◌, ◌≡◌, refl, List, [], ◌∷◌, Option, none, some, is_some, is_empty, ◌||◌, if◌then◌else◌,
  Option-cases, List-cases, inl, inr, arith, nat_eq, u64_max,
}
use compatra.Threading.State.{PendingGuestThread, return_child_result, GuestThreadRuntime}
use compatra.Threading.Ops.{
  enqueue_pending, enqueue_pending_front, pop_next_pending, remove_pending_by_id,
  activate_thread_with_exit_action, dispatch_next, push_waiter, block_current_on_cond_and_dispatch,
  reserve_thread_id, reserve_guest_thread, enqueue_thread_start, record_thread_completion,
  take_thread_completion,
}
use compatra.Threading.Wake.{
  wake_cond_waiters_for, broadcast_cond, wake_cond_waiters, consume_cond_signal,
}
use compatra.Threading.Pending.{position_cases}
use compatra.Threading.Blocking.{waiter, block_current_refused, block_current_dispatch}
use compatra.Threading.Calls.{Call, step, run}
use compatra.Threading.Invariant.{IsValid, step-IsValid}
use compatra.Threading.Population.{
  one_if, count_active, population, count_pending-append, total-push_waiter,
  wake_for_loop-population, wake_loop-population, signal-population, dispatch-population,
  dispatch_by_id-population, ResumesActive, yield-population, block-population,
}

module _ {ℓ} {C : Type ℓ} where
  abbrev pub count_returned : ℕ → Option (PendingGuestThread C) → ℕ
  count_returned t none = 0
  count_returned t (some p) = one_if t p.thread_id

  -- How often a call brings the thread into the runtime. The current thread, which is not active, enters
  -- when it waits on a condition and another thread is dispatched.
  abbrev pub entered : ℕ → GuestThreadRuntime C → Call C → ℕ
  entered t r (Call.enqueue p) = one_if t p.thread_id
  entered t r (Call.enqueue_front p) = one_if t p.thread_id
  entered t r (Call.start v entry arg exit_pc) = one_if t v.thread_id
  entered t r (Call.activate u parent_id c x) = one_if t u
  entered t r (Call.block_current cond mutex p c) =
      if is_some r.active_thread || is_empty r.pending_threads then 0 else one_if t p.thread_id
  entered t r _ = 0

  -- How often a call takes the thread out of it: a thread that the call returns, or the active one that
  -- another replaces.
  abbrev pub left : ℕ → GuestThreadRuntime C → Call C → ℕ
  left t r Call.pop = count_returned t (pop_next_pending r).1
  left t r (Call.remove_by_id u) = count_returned t (remove_pending_by_id r u).1
  left t r (Call.activate u parent_id c x) = count_active t r.active_thread
  left t r _ = 0

  abbrev pub entered_all : ℕ → GuestThreadRuntime C → List (Call C) → ℕ
  entered_all t r [] = 0
  entered_all t r (c ∷ cs) = entered t r c + entered_all t (step r c) cs

  abbrev pub left_all : ℕ → GuestThreadRuntime C → List (Call C) → ℕ
  left_all t r [] = 0
  left_all t r (c ∷ cs) = left t r c + left_all t (step r c) cs

  -- A thread that yields, or blocks while it is active, is put aside under its own id.
  abbrev pub KeepsId : GuestThreadRuntime C → Call C → Type ℓ
  KeepsId r (Call.yields p) = ResumesActive r p
  KeepsId r (Call.block cond mutex p) = ResumesActive r p
  KeepsId r _ = Unit

  abbrev pub KeepsIds : GuestThreadRuntime C → List (Call C) → Type ℓ
  KeepsIds r [] = Unit
  KeepsIds r (c ∷ cs) = KeepsId r c × KeepsIds (step r c) cs

  enqueue-population :
      (t : ℕ) (r : GuestThreadRuntime C) (p : PendingGuestThread C)
      → population t (enqueue_pending r p) + 0 ≡ population t r + one_if t p.thread_id
  unfolding enqueue_pending
  enqueue-population t r p = omega (arith, count_pending-append t r.pending_threads (p ∷ []))

  remove-population :
      (t u : ℕ) (r : GuestThreadRuntime C)
      → population t (remove_pending_by_id r u).0 + count_returned t (remove_pending_by_id r u).1
        ≡ population t r
  unfolding remove_pending_by_id
  remove-population t u r = elim (position_cases u r.pending_threads) [
    | inl (_, k) ↦ rw (remove_pending_by_id, k) (omega arith)
    | inr (_, f) ↦
        rw (remove_pending_by_id, f.found, f.at, f.rest)
          (ground (
            arith,
            f.split,
            count_pending-append t f.before (f.thread ∷ f.after),
            count_pending-append t f.before f.after,
          ))
  ]

  pop-population :
      (t : ℕ) (r : GuestThreadRuntime C)
      → population t (pop_next_pending r).0 + count_returned t (pop_next_pending r).1
        ≡ population t r
  unfolding pop_next_pending
  pop-population t r = elim (List-cases r.pending_threads) [
    | inl k ↦ ground arith
    | inr (next, rest, k) ↦ ground arith
  ]

  block_current-population :
      (t : ℕ) (r : GuestThreadRuntime C) (cond mutex : ℕ) (p : PendingGuestThread C) (c : C)
      → population t (block_current_on_cond_and_dispatch r cond mutex p c).0
        ≡ population t r + entered t r (Call.block_current cond mutex p c)
  unfolding dispatch_next
  block_current-population t r cond mutex p c = elim (Option-cases r.active_thread) [
    | inr (a, e) ↦ rw (block_current_refused r cond mutex p c (inl (λ h. cc))) (ground arith)
    | inl e ↦ elim (List-cases r.pending_threads) [
      | inl k ↦ rw (block_current_refused r cond mutex p c (inr k)) (ground arith)
      | inr (next, rest, k) ↦ rw (block_current_dispatch r cond mutex p c e k) (
          ground (
            arith,
            dispatch-population t
                (record r {
                  cond_waiters = push_waiter cond (waiter p.thread_id mutex p) r.cond_waiters;
                })
                c return_child_result,
            total-push_waiter t cond (waiter p.thread_id mutex p) r.cond_waiters,
          ))
    ]
  ]

  step-population :
      (t : ℕ) (r : GuestThreadRuntime C) (c : Call C)
      → IsValid r
      → KeepsId r c
      → population t (step r c) + left t r c ≡ population t r + entered t r c
  unfolding step
  step-population t r (Call.dispatch c x) v h = omega (arith, dispatch-population t r c x)
  step-population t r (Call.dispatch_by_id u c x) v h =
      omega (arith, dispatch_by_id-population t r u c x)
  step-population t r (Call.yields p) v h = omega (arith, yield-population t r p h)
  step-population t r (Call.block cond mutex p) v h =
      omega (arith, block-population t r cond mutex p v.queues h)
  step-population t r (Call.block_current cond mutex p c) v h =
      omega (arith, block_current-population t r cond mutex p c)
  step-population t r (Call.signal cond) v h = omega (arith, signal-population t cond r v.queues)
  step-population t r (Call.broadcast cond) v h =
      unfold broadcast_cond wake_cond_waiters_for in
      omega (arith, wake_for_loop-population u64_max t cond r [] v.queues)
  step-population t r (Call.wake_for cond limit) v h =
      unfold wake_cond_waiters_for in
      omega (arith, wake_for_loop-population limit t cond r [] v.queues)
  step-population t r (Call.wake_any iter limit) v h =
      unfold wake_cond_waiters in omega (arith, wake_loop-population iter limit t r [] v.queues)
  step-population t r (Call.remove_by_id u) v h = omega (arith, remove-population t u r)
  step-population t r Call.pop v h = omega (arith, pop-population t r)
  step-population t r (Call.enqueue p) v h = enqueue-population t r p
  step-population t r (Call.enqueue_front p) v h = unfold enqueue_pending_front in omega arith
  step-population t r (Call.start s entry arg exit_pc) v h =
      unfold enqueue_thread_start in enqueue-population t r _
  step-population t r (Call.activate u parent_id c x) v h =
      unfold activate_thread_with_exit_action in omega arith
  step-population t r (Call.reserve size limit) v h =
      unfold reserve_guest_thread reserve_thread_id in ground arith
  step-population t r c v h =
      unfold reserve_thread_id record_thread_completion take_thread_completion
        consume_cond_signal in
      ground arith

  -- Over any run of operations of a valid runtime, in which a thread that yields, or blocks while it is
  -- active, is put aside under its own id, each thread id is pending, waiting or active as often at the
  -- end as at the start, plus the times it entered and less the times it left. It enters when it is
  -- enqueued, started or activated, or when as the current thread, which is not active, it waits on a
  -- condition and another is dispatched; it leaves when it is popped or removed, or is the active one
  -- that an activation replaces. So dispatches, yields, waits of the active thread and wakes neither lose
  -- a thread nor duplicate one.
  pub run-population :
      (t : ℕ) (r : GuestThreadRuntime C) (cs : List (Call C))
      → IsValid r
      → KeepsIds r cs
      → population t (run r cs) + left_all t r cs ≡ population t r + entered_all t r cs
  unfolding run
  run-population t r [] v h = refl
  run-population t r (c ∷ cs) v h =
      omega (
        arith,
        run-population t (step r c) cs (step-IsValid r c v) h.1,
        step-population t r c v h.0,
      )
