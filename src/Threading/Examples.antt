-- ===== src/Threading/Examples.antt =====
-- Runs of the scheduler on small runtimes, and the theorems at inputs that meet their hypotheses. The
-- saved context of a thread is a number.
use compatra.Common.{
  ℕ, ◌+◌, ◌≡◌, ◌↔◌, ◌⊎◌, inl, inr, refl, List, [], ◌∷◌, ◌++◌, none, some, true, ◌==◌, Bool-cases,
  length, arith, nat_eq,
}
use compatra.Common.HashMap.{IsMap, lookup, insert, remove, total}
use compatra.Threading.State.{
  PendingGuestThread, WaitingGuestThread, GuestThreadRuntime, return_child_result, WaitQueues,
}
use compatra.Threading.Ops.{
  remove_pending_by_id, block_current_on_cond_and_dispatch, take_thread_completion,
  yield_active_to_next, block_active_on_cond,
}
use compatra.Threading.Wake.{
  wake_one_cond_waiter_for, wake_for_loop, wake_cond_waiters_for, broadcast_cond, wake_cond_waiters,
}
use compatra.Threading.Queues.{QueuesAreValid}
use compatra.Threading.Pending.{HasThread, remove_pending_by_id_lem}
use compatra.Threading.Blocking.{
  Handover, attempt, IsPossible, attempt-eq-true_iff, refused_unchanged,
}
use compatra.Threading.Waking.{Woken, wakes_of, wake_cond_waiters_for-Woken, broadcast_cond-Woken}
use compatra.Threading.Calls.{Call, step, run}
use compatra.Threading.Invariant.{IsValid, run-IsValid}
use compatra.Threading.Population.{population}
use compatra.Threading.Conservation.{entered_all, left_all, run-population}
use compatra.Threading.AnyCond.{Listed, Iterates, wake_cond_waiters-length}
use compatra.Threading.Fairness.{yield_all, yield_all-active}
use compatra.Threading.Signals.{consume_many, signal_many, consume_many-signal_many}
use compatra.Threading.Completion.{due, take-run}
use compatra.Threading.Reservation.{reserve_all, Apart, reserve_all-Apart}

abbrev thread : ℕ → PendingGuestThread ℕ
thread t = record { thread_id = t; entry = 0; arg = 0; stack_top = 0; exit_pc = 0; resume = some t }

abbrev waiting : ℕ → ℕ → WaitingGuestThread ℕ
waiting t mutex = record { thread_id = t; mutex = mutex; pending = thread t }

abbrev idle : GuestThreadRuntime ℕ
idle = record {
  next_thread_id = 2;
  current_thread_id = 1;
  next_stack_base = 0x1000;
  pending_threads = [];
  active_thread = none;
  cond_wait_streaks = [];
  cond_signal_counts = [];
  mutex_owners = [];
  cond_waiters = [];
  fork_parent_resumes = [];
  completed_threads = [];
}

-- Thread 2 is active, 3 and 4 are pending, 5 and 6 wait for condition 0x100.
abbrev busy : GuestThreadRuntime ℕ
busy = record idle {
  current_thread_id = 2;
  pending_threads = thread 3 ∷ thread 4 ∷ [];
  active_thread = some (record {
    thread_id = 2;
    parent_thread_id = 1;
    parent = 1;
    exit_action = return_child_result;
  });
  cond_waiters = (0x100, waiting 5 0x200 ∷ waiting 6 0x200 ∷ []) ∷ [];
}

busy_queues : QueuesAreValid busy.cond_waiters
unfolding lookup
busy_queues = record { keys = (refl, tt); waiting = λ cond h. ground arith }

busy-IsValid : IsValid busy
busy-IsValid = record { queues = busy_queues; current = λ a h. ground arith }

idle-IsValid : IsValid idle
unfolding lookup
idle-IsValid = record { queues = record { keys = tt; waiting = λ cond h. cc }; current = λ a h. cc }

abbrev calls : List (Call ℕ)
calls = Call.yields (thread 2) ∷ Call.broadcast 0x100 ∷ []

-- Thread 4 is removed, and enqueued again.
abbrev moves : List (Call ℕ)
moves =
    Call.yields (thread 2)
    ∷ Call.broadcast 0x100
    ∷ Call.remove_by_id 4
    ∷ Call.enqueue (thread 4)
    ∷ []

-- The current thread of a runtime without an active one waits: it enters the runtime.
abbrev ready : GuestThreadRuntime ℕ
ready = record idle { pending_threads = thread 3 ∷ [] }

current_enters :
    population 1 (step ready (Call.block_current 0x100 0x200 (thread 1) 7)) ≡ population 1 ready + 1
unfolding step block_current_on_cond_and_dispatch total insert lookup
current_enters = refl

run-population_example :
    population 4 (run busy moves) + left_all 4 busy moves
    ≡ population 4 busy + entered_all 4 busy moves
unfolding step yield_active_to_next
run-population_example =
    run-population 4 busy moves busy-IsValid ((λ a h. ground arith), (tt, (tt, (tt, tt))))

run-IsValid_example : IsValid (run busy calls)
run-IsValid_example = run-IsValid busy calls busy-IsValid

refused_unchanged_example : (attempt idle (Handover.block 0x100 0x200 (thread 1))).0 ≡ idle
unfolding attempt block_active_on_cond
refused_unchanged_example =
    refused_unchanged idle (Handover.block 0x100 0x200 (thread 1)) idle-IsValid.queues refl

attempt-eq-true_iff_example :
    ((attempt busy (Handover.block 0x100 0x200 (thread 2))).1 ≡ true)
    ↔ IsPossible busy (Handover.block 0x100 0x200 (thread 2))
attempt-eq-true_iff_example =
    attempt-eq-true_iff busy (Handover.block 0x100 0x200 (thread 2)) busy_queues

wake_cond_waiters_for-Woken_example :
    Woken busy 0x100
      (waiting 5 0x200 ∷ [])
      (waiting 6 0x200 ∷ [])
      (wake_cond_waiters_for busy 0x100 1).0
    × ((wake_cond_waiters_for busy 0x100 1).1
        ≡ wakes_of 0x100 1 (waiting 5 0x200 ∷ waiting 6 0x200 ∷ []))
unfolding lookup
wake_cond_waiters_for-Woken_example =
    wake_cond_waiters_for-Woken busy 0x100 1 (waiting 5 0x200 ∷ waiting 6 0x200 ∷ []) refl

broadcast_cond-Woken_example :
    Woken busy 0x100 (waiting 5 0x200 ∷ waiting 6 0x200 ∷ []) [] (broadcast_cond busy 0x100).0
    × ((broadcast_cond busy 0x100).1 ≡ wakes_of 0x100 2 (waiting 5 0x200 ∷ waiting 6 0x200 ∷ []))
unfolding lookup
broadcast_cond-Woken_example =
    broadcast_cond-Woken busy 0x100 (waiting 5 0x200 ∷ waiting 6 0x200 ∷ []) refl (omega arith)

remove_pending_by_id_lem_example :
    ((¬ HasThread 4 busy.pending_threads) × (remove_pending_by_id busy 4 ≡ (busy, none)))
    ⊎ ((before : List (PendingGuestThread ℕ)) × (p : PendingGuestThread ℕ) × (after : List
          (PendingGuestThread ℕ))
        × (busy.pending_threads ≡ before ++ (p ∷ after))
        × (p.thread_id ≡ 4)
        × (¬ HasThread 4 before)
        × (remove_pending_by_id busy 4
            ≡ (record busy { pending_threads = before ++ after }, some p)))
remove_pending_by_id_lem_example = remove_pending_by_id_lem busy 4

-- The order of the association list itself.
abbrev in_order : WaitQueues ℕ → List (ℕ × List (WaitingGuestThread ℕ))
in_order m = m

in_order_complete :
    (m : WaitQueues ℕ) (k : ℕ) (q : List (WaitingGuestThread ℕ))
    → IsMap m
    → lookup k m ≡ some q
    → Listed k q m
unfolding lookup
in_order_complete [] k q v h = cc
in_order_complete ((j, p) ∷ m) k q v h = elim (Bool-cases (j == k)) [
  | inl e ↦ inl (ground arith)
  | inr d ↦ inr (in_order_complete m k q v.1 (ground arith))
]

in_order_sound :
    (m : WaitQueues ℕ) (k : ℕ) (q : List (WaitingGuestThread ℕ))
    → IsMap m
    → Listed k q m
    → lookup k m ≡ some q
unfolding lookup
in_order_sound [] k q v i = absurd (i tt)
in_order_sound ((j, p) ∷ m) k q v (inl (e, f)) = ground arith
in_order_sound ((j, p) ∷ m) k q v (inr i) = ground (arith, in_order_sound m k q v.1 i)

in_order-Iterates : Iterates in_order
in_order-Iterates = record { complete = in_order_complete; sound = in_order_sound }

wake_cond_waiters-length_example : length (wake_cond_waiters (λ _. in_order) busy 5).1 ≡ 2
unfolding total
wake_cond_waiters-length_example =
    wake_cond_waiters-length (λ _. in_order) busy 5 (λ _. in_order-Iterates) busy_queues

yield_all-active_example :
    ((yield_all busy (thread 2 ∷ thread 3 ∷ [])).active_thread
      ≡ some (record {
        thread_id = 4;
        parent_thread_id = 1;
        parent = 1;
        exit_action = return_child_result;
      }))
    × ((yield_all busy (thread 2 ∷ thread 3 ∷ [])).current_thread_id ≡ 4)
yield_all-active_example =
    yield_all-active 1 busy (thread 2 ∷ thread 3 ∷ [])
      (record {
        thread_id = 2;
        parent_thread_id = 1;
        parent = 1;
        exit_action = return_child_result;
      })
      (thread 4) refl refl refl

consume_many-signal_many_example : consume_many 5 (signal_many 3 idle 0x100) 0x100 0x200 1 ≡ 3
unfolding lookup
consume_many-signal_many_example =
    consume_many-signal_many 3 5 idle 0x100 0x200 1 refl (omega arith)

-- Two results of thread 3, a broadcast, and a result of thread 4 that is taken.
abbrev results : List (Call ℕ)
results =
    Call.complete 3 0xBAD
    ∷ Call.complete 3 0xCAFE
    ∷ Call.broadcast 0x100
    ∷ Call.complete 4 1
    ∷ Call.take_completion 4
    ∷ []

take-run_example :
    ((take_thread_completion (run busy results) 3).1
      ≡ due 3 (take_thread_completion busy 3).1 results)
    × ((take_thread_completion (take_thread_completion (run busy results) 3).0 3).1 ≡ none)
take-run_example = take-run 3 busy results

due_result : due 3 none results ≡ some 0xCAFE
due_result = refl

reserve_all-Apart_example :
    Apart 3 2 0x1000 (reserve_all idle 3 (0x1000 ∷ 0x2000 ∷ 0x1000 ∷ 0x1000 ∷ []))
    × (length (reserve_all idle 3 (0x1000 ∷ 0x2000 ∷ 0x1000 ∷ 0x1000 ∷ [])) ≡ 3)
reserve_all-Apart_example =
    reserve_all-Apart idle 3 (0x1000 ∷ 0x2000 ∷ 0x1000 ∷ 0x1000 ∷ []) (omega arith) (omega arith)
      (omega arith)

-- The unit tests of the source.
yield_switches : (yield_active_to_next busy (thread 2)).0.pending_threads ≡ thread 4 ∷ thread 2 ∷ []
unfolding yield_active_to_next
yield_switches = refl

broadcast_reverses :
    (wake_cond_waiters_for busy 0x100 5).0.pending_threads
    ≡ thread 6 ∷ thread 5 ∷ thread 3 ∷ thread 4 ∷ []
unfolding wake_cond_waiters_for wake_for_loop wake_one_cond_waiter_for lookup insert remove
broadcast_reverses = refl
