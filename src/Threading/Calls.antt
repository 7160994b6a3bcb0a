-- ===== src/Threading/Calls.antt =====
-- Sequences of the operations of crates/compatra-threading/src/lib.rs.
use compatra.Common.{ℕ, List, [], ◌∷◌, nat_eq}
use compatra.Threading.State.{
  PendingGuestThread, GuestThreadExitAction, WaitingGuestThread, WaitQueues, GuestThreadReservation,
  GuestThreadRuntime,
}
use compatra.Threading.Ops.{
  enqueue_pending, enqueue_pending_front, pop_next_pending, remove_pending_by_id,
  activate_thread_with_exit_action, dispatch_next_with_exit_action,
  dispatch_thread_by_id_with_exit_action, yield_active_to_next, block_active_on_cond,
  block_current_on_cond_and_dispatch, reserve_thread_id, reserve_guest_thread, enqueue_thread_start,
  record_thread_completion, take_thread_completion,
}
use compatra.Threading.Wake.{
  consume_cond_signal, wake_cond_waiters_for, broadcast_cond, signal_cond, wake_cond_waiters,
}

-- An operation with its arguments. An iteration order of the wait queues is one of them.
pub data Call {ℓ} (C : Type ℓ) : Type ℓ where
  enqueue enqueue_front : PendingGuestThread C → Call C
  pop : Call C
  remove_by_id : ℕ → Call C
  activate : ℕ → ℕ → C → GuestThreadExitAction → Call C
  dispatch : C → GuestThreadExitAction → Call C
  dispatch_by_id : ℕ → C → GuestThreadExitAction → Call C
  yields : PendingGuestThread C → Call C
  block : ℕ → ℕ → PendingGuestThread C → Call C
  block_current : ℕ → ℕ → PendingGuestThread C → C → Call C
  reserve : ℕ → ℕ → Call C
  reserve_id : ℕ → Call C
  start : GuestThreadReservation → ℕ → ℕ → ℕ → Call C
  complete : ℕ → ℕ → Call C
  take_completion : ℕ → Call C
  consume : ℕ → ℕ → ℕ → Call C
  signal broadcast : ℕ → Call C
  wake_for : ℕ → ℕ → Call C
  wake_any : (ℕ → WaitQueues C → List (ℕ × List (WaitingGuestThread C))) → ℕ → Call C

module _ {ℓ} {C : Type ℓ} where
  unfoldable pub step : GuestThreadRuntime C → Call C → GuestThreadRuntime C
  step r (enqueue p) = enqueue_pending r p
  step r (enqueue_front p) = enqueue_pending_front r p
  step r pop = (pop_next_pending r).0
  step r (remove_by_id t) = (remove_pending_by_id r t).0
  step r (activate t p c x) = activate_thread_with_exit_action r t p c x
  step r (dispatch c x) = (dispatch_next_with_exit_action r c x).0
  step r (dispatch_by_id t c x) = (dispatch_thread_by_id_with_exit_action r t c x).0
  step r (yields p) = (yield_active_to_next r p).0
  step r (block cond mutex p) = (block_active_on_cond r cond mutex p).0
  step r (block_current cond mutex p c) = (block_current_on_cond_and_dispatch r cond mutex p c).0
  step r (reserve size limit) = (reserve_guest_thread r size limit).0
  step r (reserve_id limit) = (reserve_thread_id r limit).0
  step r (start v entry arg exit_pc) = enqueue_thread_start r v entry arg exit_pc
  step r (complete t result) = record_thread_completion r t result
  step r (take_completion t) = (take_thread_completion r t).0
  step r (consume cond mutex t) = (consume_cond_signal r cond mutex t).0
  step r (signal cond) = (signal_cond r cond).0
  step r (broadcast cond) = (broadcast_cond r cond).0
  step r (wake_for cond limit) = (wake_cond_waiters_for r cond limit).0
  step r (wake_any iter limit) = (wake_cond_waiters iter r limit).0

  unfoldable pub run : GuestThreadRuntime C → List (Call C) → GuestThreadRuntime C
  run r [] = r
  run r (c ∷ cs) = run (step r c) cs
