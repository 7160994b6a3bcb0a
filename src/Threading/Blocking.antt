-- ===== src/Threading/Blocking.antt =====
-- The five operations of crates/compatra-threading/src/lib.rs that hand the CPU to another thread: when
-- each succeeds, and that one which returns `None` has changed nothing.
use compatra.Common.{
  is_some, ℕ, ◌≡◌, ◌≢◌, ◌↔◌, ◌⊎◌, ap, max, List, [], ◌∷◌, ◌++◌, Option, none, some, Bool, true,
  false, Option-cases, List-cases, inl, inr, arith,
}
use compatra.Threading.State.{
  PendingGuestThread, GuestThreadExitAction, WaitingGuestThread, ActiveGuestThread,
  GuestThreadRuntime,
}
use compatra.Threading.Ops.{
  position, dispatch_next_with_exit_action, dispatch_next, dispatch_thread_by_id_with_exit_action,
  yield_active_to_next, push_waiter, block_active_on_cond, block_current_on_cond_and_dispatch,
  switched, dispatched,
}
use compatra.Threading.Pending.{HasThread, IsFirst, position_cases}
use compatra.Threading.Queues.{QueuesAreValid, pop_waiter-push_waiter}

module _ {ℓ} {C : Type ℓ} where
  abbrev pub waiter : ℕ → ℕ → PendingGuestThread C → WaitingGuestThread C
  waiter t mutex p = record { thread_id = t; mutex = mutex; pending = p }

  pub block_inactive :
      (r : GuestThreadRuntime C) (cond mutex : ℕ) (p : PendingGuestThread C)
      → r.active_thread ≡ none
      → block_active_on_cond r cond mutex p ≡ (r, none)
  unfolding block_active_on_cond
  block_inactive r cond mutex p h = ground arith

  pub block_alone :
      (r : GuestThreadRuntime C) (cond mutex : ℕ) (p : PendingGuestThread C)
      → QueuesAreValid r.cond_waiters
      → r.pending_threads ≡ []
      → block_active_on_cond r cond mutex p ≡ (r, none)
  unfolding block_active_on_cond
  block_alone r cond mutex p v h = elim (Option-cases r.active_thread) [
    | inl e ↦ ground arith
    | inr (a, e) ↦
        ground (arith, pop_waiter-push_waiter cond (waiter a.thread_id mutex p) r.cond_waiters v)
  ]

  pub block_switch :
      (r : GuestThreadRuntime C) (cond mutex : ℕ) (p : PendingGuestThread C)
      {a : ActiveGuestThread C} {next : PendingGuestThread C} {rest : List (PendingGuestThread C)}
      → r.active_thread ≡ some a
      → r.pending_threads ≡ next ∷ rest
      → block_active_on_cond r cond mutex p
        ≡ switched
            (record r {
              pending_threads = rest;
              active_thread = none;
              cond_waiters = push_waiter cond (waiter a.thread_id mutex p) r.cond_waiters;
            })
            a
            next
  unfolding block_active_on_cond
  block_switch r cond mutex p h k = ground arith

  pub block_current_refused :
      (r : GuestThreadRuntime C) (cond mutex : ℕ) (p : PendingGuestThread C) (parent : C)
      → (r.active_thread ≢ none) ⊎ (r.pending_threads ≡ [])
      → block_current_on_cond_and_dispatch r cond mutex p parent ≡ (r, none)
  unfolding block_current_on_cond_and_dispatch
  block_current_refused r cond mutex p parent h = ground arith

  pub block_current_dispatch :
      (r : GuestThreadRuntime C) (cond mutex : ℕ) (p : PendingGuestThread C) (parent : C)
      {next : PendingGuestThread C} {rest : List (PendingGuestThread C)}
      → r.active_thread ≡ none
      → r.pending_threads ≡ next ∷ rest
      → block_current_on_cond_and_dispatch r cond mutex p parent
        ≡ dispatch_next
            (record r {
              cond_waiters = push_waiter cond (waiter p.thread_id mutex p) r.cond_waiters;
            })
            parent
  unfolding block_current_on_cond_and_dispatch dispatch_next
  block_current_dispatch r cond mutex p parent h k = ground arith

module _ {ℓ} {C : Type ℓ} where
  pub by_id_active :
      (r : GuestThreadRuntime C) (t : ℕ) (c : C) (x : GuestThreadExitAction)
      {a : ActiveGuestThread C}
      → r.active_thread ≡ some a
      → dispatch_thread_by_id_with_exit_action r t c x ≡ (r, none)
  unfolding dispatch_thread_by_id_with_exit_action
  by_id_active r t c x e = ground arith

  pub by_id_missing :
      (r : GuestThreadRuntime C) (t : ℕ) (c : C) (x : GuestThreadExitAction)
      → r.active_thread ≡ none
      → position t r.pending_threads ≡ none
      → dispatch_thread_by_id_with_exit_action r t c x ≡ (r, none)
  unfolding dispatch_thread_by_id_with_exit_action
  by_id_missing r t c x e k = ground arith

  pub by_id_found :
      (r : GuestThreadRuntime C) (t : ℕ) (c : C) (x : GuestThreadExitAction)
      → r.active_thread ≡ none
      → (f : IsFirst t r.pending_threads)
      → dispatch_thread_by_id_with_exit_action r t c x
        ≡ dispatched
            (record r { pending_threads = f.before ++ f.after })
            f.thread
            (max r.current_thread_id 1)
            c
            x
  unfolding dispatch_thread_by_id_with_exit_action
  by_id_found r t c x e f = ground (arith, f.found, f.at, f.rest)

-- The five operations with their arguments.
pub data Handover {ℓ} (C : Type ℓ) : Type ℓ where
  dispatch : C → GuestThreadExitAction → Handover C
  dispatch_by_id : ℕ → C → GuestThreadExitAction → Handover C
  yields : PendingGuestThread C → Handover C
  block : ℕ → ℕ → PendingGuestThread C → Handover C
  block_current : ℕ → ℕ → PendingGuestThread C → C → Handover C

module _ {ℓ} {C : Type ℓ} where
  abbrev succeeded {κ} :
      {B : Type κ} → GuestThreadRuntime C × Option B → GuestThreadRuntime C × Bool
  succeeded (r, o) = (r, is_some o)

  -- The runtime afterwards, and whether the operation returned a value.
  unfoldable pub attempt : GuestThreadRuntime C → Handover C → GuestThreadRuntime C × Bool
  attempt r (dispatch c x) = succeeded (dispatch_next_with_exit_action r c x)
  attempt r (dispatch_by_id t c x) = succeeded (dispatch_thread_by_id_with_exit_action r t c x)
  attempt r (yields p) = succeeded (yield_active_to_next r p)
  attempt r (block cond mutex p) = succeeded (block_active_on_cond r cond mutex p)
  attempt r (block_current cond mutex p c) =
      succeeded (block_current_on_cond_and_dispatch r cond mutex p c)

  -- When there is a thread to hand the CPU to.
  abbrev pub IsPossible : GuestThreadRuntime C → Handover C → Type ℓ
  IsPossible r (dispatch c x) = (r.active_thread ≡ none) × (r.pending_threads ≢ [])
  IsPossible r (dispatch_by_id t c x) = (r.active_thread ≡ none) × HasThread t r.pending_threads
  IsPossible r (yields p) = (r.active_thread ≢ none) × (r.pending_threads ≢ [])
  IsPossible r (block cond mutex p) = (r.active_thread ≢ none) × (r.pending_threads ≢ [])
  IsPossible r (block_current cond mutex p c) = (r.active_thread ≡ none) × (r.pending_threads ≢ [])

  -- What `attempt` does on each side of `IsPossible`.
  abbrev Decided : GuestThreadRuntime C → Handover C → Type ℓ
  Decided r h =
      (IsPossible r h × ((attempt r h).1 ≡ true))
      ⊎ ((¬ IsPossible r h) × (attempt r h ≡ (r, false)))

  dispatch-Decided :
      (r : GuestThreadRuntime C) (c : C) (x : GuestThreadExitAction) → Decided r (dispatch c x)
  unfolding attempt dispatch_next_with_exit_action
  dispatch-Decided r c x = elim (Option-cases r.active_thread) [
    | inr (a, e) ↦ inr (λ p. cc p.0, ground arith)
    | inl e ↦ elim (List-cases r.pending_threads) [
      | inl k ↦ inr (λ p. p.1 k, ground arith)
      | inr (next, rest, k) ↦ inl ((e, λ q. cc), ground arith)
    ]
  ]

  yields-Decided : (r : GuestThreadRuntime C) (p : PendingGuestThread C) → Decided r (yields p)
  unfolding attempt yield_active_to_next
  yields-Decided r p = elim (Option-cases r.active_thread) [
    | inl e ↦ inr (λ q. q.0 e, ground arith)
    | inr (a, e) ↦ elim (List-cases r.pending_threads) [
      | inl k ↦ inr (λ q. q.1 k, ground arith)
      | inr (next, rest, k) ↦ inl ((λ q. cc, λ q. cc), ground arith)
    ]
  ]

  block-Decided :
      (r : GuestThreadRuntime C) (cond mutex : ℕ) (p : PendingGuestThread C)
      → QueuesAreValid r.cond_waiters
      → Decided r (block cond mutex p)
  unfolding attempt
  block-Decided r cond mutex p v = elim (Option-cases r.active_thread) [
    | inl e ↦ inr (λ q. q.0 e, rw (block_inactive r cond mutex p e))
    | inr (a, e) ↦ elim (List-cases r.pending_threads) [
      | inl k ↦ inr (λ q. q.1 k, rw (block_alone r cond mutex p v k))
      | inr (next, rest, k) ↦ inl ((λ q. cc, λ q. cc), rw (block_switch r cond mutex p e k))
    ]
  ]

  block_current-Decided :
      (r : GuestThreadRuntime C) (cond mutex : ℕ) (p : PendingGuestThread C) (c : C)
      → Decided r (block_current cond mutex p c)
  unfolding attempt
  block_current-Decided r cond mutex p c = elim (Option-cases r.active_thread) [
    | inr (a, e) ↦ inr (λ q. cc q.0, rw (block_current_refused r cond mutex p c (inl (λ h. cc))))
    | inl e ↦ elim (List-cases r.pending_threads) [
      | inl k ↦ inr (λ q. q.1 k, rw (block_current_refused r cond mutex p c (inr k)))
      | inr (next, rest, k) ↦ inl (
        (e, λ q. cc),
        rw (block_current_dispatch r cond mutex p c e k) (unfold dispatch_next in ground arith),
      )
    ]
  ]

  dispatch_by_id-Decided :
      (r : GuestThreadRuntime C) (t : ℕ) (c : C) (x : GuestThreadExitAction)
      → Decided r (dispatch_by_id t c x)
  unfolding attempt
  dispatch_by_id-Decided r t c x = elim (Option-cases r.active_thread) [
    | inr (a, e) ↦ inr (λ q. cc q.0, ap succeeded (by_id_active r t c x e))
    | inl e ↦ elim (position_cases t r.pending_threads) [
      | inl (h, k) ↦ inr (λ q. h q.1, ap succeeded (by_id_missing r t c x e k))
      | inr (h, f) ↦ inl ((e, h), rw (by_id_found r t c x e f))
    ]
  ]

  Decided_lem :
      (r : GuestThreadRuntime C) (h : Handover C) → QueuesAreValid r.cond_waiters → Decided r h
  Decided_lem r (dispatch c x) v = dispatch-Decided r c x
  Decided_lem r (dispatch_by_id t c x) v = dispatch_by_id-Decided r t c x
  Decided_lem r (yields p) v = yields-Decided r p
  Decided_lem r (block cond mutex p) v = block-Decided r cond mutex p v
  Decided_lem r (block_current cond mutex p c) v = block_current-Decided r cond mutex p c

  -- Where each condition has at most one wait queue and no wait queue is stored empty, a dispatch and a
  -- wait of the current thread return a value exactly if no thread is active and one is pending, a
  -- dispatch by id exactly if no thread is active and one of that id is pending, and a yield and a wait
  -- of the active thread exactly if a thread is active and one is pending.
  pub attempt-eq-true_iff :
      (r : GuestThreadRuntime C) (h : Handover C)
      → QueuesAreValid r.cond_waiters
      → ((attempt r h).1 ≡ true) ↔ IsPossible r h
  attempt-eq-true_iff r h v = elim (Decided_lem r h v) [
    | inl (p, e) ↦ (λ _. p, λ _. e)
    | inr (n, e) ↦
        (λ k. absurd (cc (ap (λ (x : GuestThreadRuntime C × Bool). x.1) e)), λ p. absurd (n p))
  ]

  -- Where each condition has at most one wait queue and no wait queue is stored empty, a dispatch, a
  -- dispatch by id, a yield or a wait on a condition, of the active or of the current thread, that returns
  -- `None` leaves the runtime as it was, the wait queues that it touched included.
  pub refused_unchanged :
      (r : GuestThreadRuntime C) (h : Handover C)
      → QueuesAreValid r.cond_waiters
      → (attempt r h).1 ≡ false
      → (attempt r h).0 ≡ r
  refused_unchanged r h v k = elim (Decided_lem r h v) [
    | inl (p, e) ↦ absurd (cc)
    | inr (n, e) ↦ ap (λ (x : GuestThreadRuntime C × Bool). x.0) e
  ]
