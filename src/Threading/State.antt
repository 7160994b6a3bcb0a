-- ===== src/Threading/State.antt =====
-- The data of crates/compatra-threading/src/lib.rs: thread records, the results of the scheduler's
-- operations and the runtime itself, over the type `C` of saved CPU contexts. A u64, u32 or usize
-- field is a native number.
use compatra.Common.{ℕ, List, [], Option, none}
use compatra.Common.HashMap.{HashMap}

pub record PendingGuestThread {ℓ} (C : Type ℓ) : Type ℓ where
  pub thread_id : ℕ
  pub entry : ℕ
  pub arg : ℕ
  pub stack_top : ℕ
  pub exit_pc : ℕ
  pub resume : Option C

pub data GuestThreadExitAction : Type 0 where
  return_child_result : GuestThreadExitAction
  return_value : ℕ → GuestThreadExitAction
  store_result_and_return : ℕ → ℕ → GuestThreadExitAction

pub record ActiveGuestThread {ℓ} (C : Type ℓ) : Type ℓ where
  pub thread_id : ℕ
  pub parent_thread_id : ℕ
  pub parent : C
  pub exit_action : GuestThreadExitAction

pub record ForkParentResume {ℓ} (C : Type ℓ) : Type ℓ where
  pub parent_tid : ℕ
  pub child_pid : ℕ
  pub context : C

pub record WaitingGuestThread {ℓ} (C : Type ℓ) : Type ℓ where
  pub thread_id : ℕ
  pub mutex : ℕ
  pub pending : PendingGuestThread C

pub record GuestThreadDispatch {ℓ} (C : Type ℓ) : Type ℓ where
  pub thread_id : ℕ
  pub parent_thread_id : ℕ
  pub next : PendingGuestThread C

pub record GuestThreadSwitch {ℓ} (C : Type ℓ) : Type ℓ where
  pub from_thread_id : ℕ
  pub to_thread_id : ℕ
  pub next : PendingGuestThread C

pub record CondWake : Type 0 where
  pub cond : ℕ
  pub thread_id : ℕ
  pub remaining_waiters : ℕ

pub record CondSignal : Type 0 where
  pub woken_thread_id : Option ℕ
  pub pending_signals : ℕ

pub record GuestThreadReservation : Type 0 where
  pub thread_id : ℕ
  pub stack_base : ℕ
  pub stack_top : ℕ

pub data GuestThreadCreateError : Type 0 where
  thread_limit_reached : GuestThreadCreateError

-- The `Result` of the two reservations.
pub data Reserved {ℓ} (A : Type ℓ) : Type ℓ where
  ok : A → Reserved A
  err : GuestThreadCreateError → Reserved A

abbrev pub WaitQueues {ℓ} : Type ℓ → Type ℓ
WaitQueues C = HashMap ℕ (List (WaitingGuestThread C))

pub record GuestThreadRuntime {ℓ} (C : Type ℓ) : Type ℓ where
  pub next_thread_id : ℕ
  pub current_thread_id : ℕ
  pub next_stack_base : ℕ
  pub pending_threads : List (PendingGuestThread C)
  pub active_thread : Option (ActiveGuestThread C)
  pub cond_wait_streaks : HashMap (ℕ × ℕ) ℕ
  pub cond_signal_counts : HashMap ℕ ℕ
  pub mutex_owners : HashMap ℕ ℕ
  pub cond_waiters : WaitQueues C
  pub fork_parent_resumes : HashMap ℕ (ForkParentResume C)
  pub completed_threads : HashMap ℕ ℕ

-- `Default::default`.
unfoldable pub default {ℓ} : (C : Type ℓ) → GuestThreadRuntime C
default C = record {
  next_thread_id = 0;
  current_thread_id = 0;
  next_stack_base = 0;
  pending_threads = [];
  active_thread = none;
  cond_wait_streaks = [];
  cond_signal_counts = [];
  mutex_owners = [];
  cond_waiters = [];
  fork_parent_resumes = [];
  completed_threads = [];
}
