-- ===== src/Threading/Ops.antt =====
-- The methods of `GuestThreadRuntime` in crates/compatra-threading/src/lib.rs, each a function from
-- the runtime to the new runtime and the result.
use compatra.Common.{
  ℕ, zero, suc, ◌-◌, max, List, [], ◌∷◌, ◌++◌, Option, none, some, get_or, Bool, true, false, ◌||◌,
  ◌==◌, ltb, if◌then◌else◌, is_some, is_empty, get_elem?, pop_back, saturating_add, nat_eq,
}
use compatra.Common.HashMap.{lookup, insert, remove}
use compatra.Threading.State.{
  PendingGuestThread, GuestThreadExitAction, return_child_result, WaitingGuestThread,
  GuestThreadDispatch, GuestThreadSwitch, GuestThreadReservation, ActiveGuestThread,
  thread_limit_reached, Reserved, ok, err, WaitQueues, GuestThreadRuntime,
}

-- `VecDeque::remove`, without the element.
unfoldable pub remove_at {ℓ} : {A : Type ℓ} → List A → ℕ → List A
remove_at [] i = []
remove_at (x ∷ xs) zero = xs
remove_at (x ∷ xs) (suc i) = x ∷ remove_at xs i

module _ {ℓ} {C : Type ℓ} where
  unfoldable pub has_runnable_guest_threads : GuestThreadRuntime C → Bool
  has_runnable_guest_threads r = if is_empty r.pending_threads then false else true

  unfoldable pub enqueue_pending :
      GuestThreadRuntime C → PendingGuestThread C → GuestThreadRuntime C
  enqueue_pending r p = record r { pending_threads = r.pending_threads ++ (p ∷ []) }

  unfoldable pub enqueue_pending_front :
      GuestThreadRuntime C → PendingGuestThread C → GuestThreadRuntime C
  enqueue_pending_front r p = record r { pending_threads = p ∷ r.pending_threads }

  unfoldable pub pop_next_pending :
      GuestThreadRuntime C → GuestThreadRuntime C × Option (PendingGuestThread C)
  pop_next_pending r = elim r.pending_threads [
    | [] ↦ (r, none)
    | p ∷ rest ↦ (record r { pending_threads = rest }, some p)
  ]

  -- `iter().position(|thread| thread.thread_id == thread_id)`.
  unfoldable pub position : ℕ → List (PendingGuestThread C) → Option ℕ
  position t [] = none
  position t (p ∷ ps) = elim (p.thread_id == t) [
    | true ↦ some 0
    | false ↦ elim (position t ps) [ none ↦ none | some i ↦ some (suc i) ]
  ]

  unfoldable pub remove_pending_by_id :
      GuestThreadRuntime C → ℕ → GuestThreadRuntime C × Option (PendingGuestThread C)
  unfolding position remove_at
  remove_pending_by_id r t = elim (position t r.pending_threads) [
    | none ↦ (r, none)
    | some i ↦ (
      record r { pending_threads = remove_at r.pending_threads i },
      get_elem? r.pending_threads i,
    )
  ]

  unfoldable pub activate_thread_with_exit_action :
      GuestThreadRuntime C → ℕ → ℕ → C → GuestThreadExitAction → GuestThreadRuntime C
  activate_thread_with_exit_action r t parent_id parent action = record r {
    current_thread_id = t;
    active_thread = some (record {
      thread_id = t;
      parent_thread_id = parent_id;
      parent = parent;
      exit_action = action;
    });
  }

  unfoldable pub activate_thread : GuestThreadRuntime C → ℕ → ℕ → C → GuestThreadRuntime C
  unfolding activate_thread_with_exit_action
  activate_thread r t parent_id parent =
      activate_thread_with_exit_action r t parent_id parent return_child_result

  -- The id of the thread that dispatches: a current id of 0 becomes 1.
  unfoldable pub claim_parent : GuestThreadRuntime C → GuestThreadRuntime C × ℕ
  claim_parent r =
      if r.current_thread_id == 0
      then (record r { current_thread_id = 1 }, 1)
      else (r, r.current_thread_id)

  abbrev pub dispatched :
      GuestThreadRuntime C
      → PendingGuestThread C
      → ℕ
      → C
      → GuestThreadExitAction
      → GuestThreadRuntime C × Option (GuestThreadDispatch C)
  dispatched r next parent_id parent action = (
    activate_thread_with_exit_action r next.thread_id parent_id parent action,
    some (record { thread_id = next.thread_id; parent_thread_id = parent_id; next = next }),
  )

  unfoldable pub dispatch_next_with_exit_action :
      GuestThreadRuntime C
      → C
      → GuestThreadExitAction
      → GuestThreadRuntime C × Option (GuestThreadDispatch C)
  unfolding activate_thread_with_exit_action claim_parent
  dispatch_next_with_exit_action r parent action = elim r.active_thread [
    | some a ↦ (r, none)
    | none ↦ elim r.pending_threads [
      | [] ↦ (r, none)
      | next ∷ rest ↦
          let (r', parent_id) = claim_parent (record r { pending_threads = rest }) in
          dispatched r' next parent_id parent action
    ]
  ]

  unfoldable pub dispatch_next :
      GuestThreadRuntime C → C → GuestThreadRuntime C × Option (GuestThreadDispatch C)
  unfolding dispatch_next_with_exit_action
  dispatch_next r parent = dispatch_next_with_exit_action r parent return_child_result

  unfoldable pub dispatch_thread_by_id_with_exit_action :
      GuestThreadRuntime C
      → ℕ
      → C
      → GuestThreadExitAction
      → GuestThreadRuntime C × Option (GuestThreadDispatch C)
  unfolding activate_thread_with_exit_action remove_pending_by_id
  dispatch_thread_by_id_with_exit_action r t parent action = elim r.active_thread [
    | some a ↦ (r, none)
    | none ↦
        let (r', removed) = remove_pending_by_id r t in
        elim removed [
          | none ↦ (r', none)
          | some next ↦ dispatched r' next (max r'.current_thread_id 1) parent action
        ]
  ]

  unfoldable pub dispatch_thread_by_id :
      GuestThreadRuntime C → ℕ → C → GuestThreadRuntime C × Option (GuestThreadDispatch C)
  unfolding dispatch_thread_by_id_with_exit_action
  dispatch_thread_by_id r t parent =
      dispatch_thread_by_id_with_exit_action r t parent return_child_result

  -- The active thread `a` gives way to `next`, which inherits its parent and its exit action.
  abbrev pub switched :
      GuestThreadRuntime C
      → ActiveGuestThread C
      → PendingGuestThread C
      → GuestThreadRuntime C × Option (GuestThreadSwitch C)
  switched r a next = (
    activate_thread_with_exit_action r next.thread_id a.parent_thread_id a.parent a.exit_action,
    some (record { from_thread_id = a.thread_id; to_thread_id = next.thread_id; next = next }),
  )

  unfoldable pub yield_active_to_next :
      GuestThreadRuntime C
      → PendingGuestThread C
      → GuestThreadRuntime C × Option (GuestThreadSwitch C)
  unfolding activate_thread_with_exit_action
  yield_active_to_next r resume =
      if is_empty r.pending_threads then (r, none) else elim r.active_thread [
        | none ↦ (r, none)
        | some a ↦ elim (r.pending_threads ++ (resume ∷ [])) [
          | [] ↦ (record r { pending_threads = []; active_thread = some a }, none)
          | next ∷ rest ↦
              switched (record r { pending_threads = rest; active_thread = none }) a next
        ]
      ]

  -- `entry(cond).or_default().push_back(waiter)`.
  unfoldable pub push_waiter : ℕ → WaitingGuestThread C → WaitQueues C → WaitQueues C
  push_waiter cond w m = insert cond (get_or (lookup cond m) [] ++ (w ∷ [])) m

  -- The roll-back of a wait: the last waiter is dropped, and a queue that it leaves empty.
  unfoldable pub pop_waiter : ℕ → WaitQueues C → WaitQueues C
  pop_waiter cond m = elim (lookup cond m) [
    | none ↦ m
    | some q ↦
        let m' = insert cond (pop_back q) m in if is_empty (pop_back q) then remove cond m' else m'
  ]

  unfoldable pub block_active_on_cond :
      GuestThreadRuntime C
      → ℕ
      → ℕ
      → PendingGuestThread C
      → GuestThreadRuntime C × Option (GuestThreadSwitch C)
  unfolding activate_thread_with_exit_action push_waiter pop_waiter
  block_active_on_cond r cond mutex p = elim r.active_thread [
    | none ↦ (r, none)
    | some a ↦
        let waiters =
          push_waiter cond (record { thread_id = a.thread_id; mutex = mutex; pending = p })
            r.cond_waiters in
        elim r.pending_threads [
          | [] ↦ (record r { active_thread = some a; cond_waiters = pop_waiter cond waiters }, none)
          | next ∷ rest ↦
              switched
                (record r { pending_threads = rest; active_thread = none; cond_waiters = waiters })
                a next
        ]
  ]

  -- The failed branch of the inner dispatch.
  abbrev pub undo_wait :
      ℕ
      → GuestThreadRuntime C × Option (GuestThreadDispatch C)
      → GuestThreadRuntime C × Option (GuestThreadDispatch C)
  undo_wait cond (r, none) = (record r { cond_waiters = pop_waiter cond r.cond_waiters }, none)
  undo_wait cond (r, some d) = (r, some d)

  unfoldable pub block_current_on_cond_and_dispatch :
      GuestThreadRuntime C
      → ℕ
      → ℕ
      → PendingGuestThread C
      → C
      → GuestThreadRuntime C × Option (GuestThreadDispatch C)
  unfolding push_waiter pop_waiter dispatch_next
  block_current_on_cond_and_dispatch r cond mutex p parent =
      if is_some r.active_thread || is_empty r.pending_threads
      then (r, none)
      else undo_wait cond (
          dispatch_next
            (record r {
              cond_waiters =
                  push_waiter cond (record { thread_id = p.thread_id; mutex = mutex; pending = p })
                    r.cond_waiters;
            })
            parent)

  unfoldable pub reserve_thread_id : GuestThreadRuntime C → ℕ → GuestThreadRuntime C × Reserved ℕ
  reserve_thread_id r limit =
      if ltb (saturating_add limit 1) r.next_thread_id
      then (r, err thread_limit_reached)
      else (record r { next_thread_id = saturating_add r.next_thread_id 1 }, ok r.next_thread_id)

  abbrev pub with_stack :
      ℕ → GuestThreadRuntime C × Reserved ℕ → GuestThreadRuntime C × Reserved GuestThreadReservation
  with_stack size (r, err e) = (r, err e)
  with_stack size (r, ok t) = (
    record r { next_stack_base = saturating_add r.next_stack_base size },
    ok (record {
      thread_id = t;
      stack_base = r.next_stack_base;
      stack_top = saturating_add r.next_stack_base size - 0x100;
    }),
  )

  unfoldable pub reserve_guest_thread :
      GuestThreadRuntime C → ℕ → ℕ → GuestThreadRuntime C × Reserved GuestThreadReservation
  unfolding reserve_thread_id
  reserve_guest_thread r stack_size limit = with_stack stack_size (reserve_thread_id r limit)

  unfoldable pub enqueue_thread_start :
      GuestThreadRuntime C → GuestThreadReservation → ℕ → ℕ → ℕ → GuestThreadRuntime C
  unfolding enqueue_pending
  enqueue_thread_start r v entry arg exit_pc = enqueue_pending r (record {
    thread_id = v.thread_id;
    entry = entry;
    arg = arg;
    stack_top = v.stack_top;
    exit_pc = exit_pc;
    resume = none;
  })

  unfoldable pub record_thread_completion : GuestThreadRuntime C → ℕ → ℕ → GuestThreadRuntime C
  record_thread_completion r t result = record r {
    completed_threads = insert t result r.completed_threads;
  }

  unfoldable pub take_thread_completion : GuestThreadRuntime C → ℕ → GuestThreadRuntime C × Option ℕ
  take_thread_completion r t =
      (record r { completed_threads = remove t r.completed_threads }, lookup t r.completed_threads)
