-- ===== src/Guest/Os.antt =====
-- `Arm64SyntheticOsRuntime` of crates/compatra-runtime/src/macos/arch_arm64/runtime.rs: processes, file
-- descriptors, pipes and directory streams. A signed number is the unsigned number of the same bits, and
-- a set of numbers is the list of them.
use compatra.Common.{
  ℕ, List, [], ◌∷◌, Option, none, some, get_or, Bool, false, ◌==◌, if◌then◌else◌, max,
  saturating_add, nat_eq, pair_eq,
}
use compatra.Common.HashMap.{HashMap, lookup, insert}
use compatra.Common.Result.{Result, ok, err}
use compatra.Guest.Files.{
  GuestFileTable, GuestOpenTarget, GuestDirectoryEntry, HostFiles, open_guest_path_with_flags,
}
use compatra.Guest.Access

pub record SyntheticProcess : Type 0 where
  pub pid : ℕ
  pub parent_pid : ℕ
  pub exit_status : ℕ
  pub running : Bool
  pub reaped : Bool
  pub exec_path : Option (List ℕ)

pub record SyntheticPipe : Type 0 where
  pub read_fd : ℕ
  pub write_fd : ℕ
  pub buffer : List ℕ
  pub read_open : Bool
  pub write_open : Bool

pub data SyntheticFdTarget : Type 0 where
  pipe_read pipe_write file directory : ℕ → SyntheticFdTarget

pub record SyntheticKeventRegistration : Type 0 where
  pub ident : ℕ
  pub filter : ℕ
  pub flags : ℕ
  pub fflags : ℕ
  -- `data` in the source.
  pub event_data : ℕ
  pub udata : ℕ
  pub triggered : Bool

pub record SyntheticPopenStream : Type 0 where
  pub command : List ℕ
  pub mode : List ℕ
  pub label : Option (List ℕ)
  pub output : List ℕ
  pub offset : ℕ
  pub eof : Bool
  pub error : Bool

pub record Arm64SyntheticOsRuntime : Type 0 where
  pub next_process_id : ℕ
  pub next_fd : ℕ
  pub next_dir_stream : ℕ
  pub next_kqueue_fd : ℕ
  pub guest_fs_base : List ℕ
  pub processes : HashMap ℕ SyntheticProcess
  pub process_thread_ids : List ℕ
  pub thread_processes : HashMap ℕ ℕ
  pub process_fds : HashMap ℕ (List ℕ)
  pub fd_flags : HashMap ℕ ℕ
  pub process_fd_targets : HashMap (ℕ × ℕ) SyntheticFdTarget
  pub process_dir_streams : HashMap (ℕ × ℕ) ℕ
  pub fd_targets : HashMap ℕ SyntheticFdTarget
  pub pipes : HashMap ℕ SyntheticPipe
  pub guest_files : GuestFileTable
  pub last_pipe_reads : HashMap (ℕ × ℕ) (List (List ℕ))
  pub pipe_empty_eof_reads : HashMap (ℕ × ℕ × ℕ) ℕ
  pub kqueues : HashMap ℕ (List SyntheticKeventRegistration)
  pub popen_streams : HashMap ℕ SyntheticPopenStream

abbrev pub target_beq : SyntheticFdTarget → SyntheticFdTarget → Bool
target_beq (SyntheticFdTarget.pipe_read a) (SyntheticFdTarget.pipe_read b) = a == b
target_beq (SyntheticFdTarget.pipe_write a) (SyntheticFdTarget.pipe_write b) = a == b
target_beq (SyntheticFdTarget.file a) (SyntheticFdTarget.file b) = a == b
target_beq (SyntheticFdTarget.directory a) (SyntheticFdTarget.directory b) = a == b
target_beq _ _ = false

unfoldable pub set_remove : ℕ → List ℕ → List ℕ
set_remove fd [] = []
set_remove fd (other ∷ fds) =
    let rest = set_remove fd fds in if other == fd then rest else other ∷ rest

unfoldable pub set_insert : ℕ → List ℕ → List ℕ
set_insert fd [] = fd ∷ []
set_insert fd (other ∷ fds) = if other == fd then other ∷ fds else other ∷ set_insert fd fds

unfoldable pub register_process_fd : Arm64SyntheticOsRuntime → ℕ → ℕ → Arm64SyntheticOsRuntime
unfolding set_insert insert lookup
register_process_fd os pid fd = record os {
  process_fds = insert pid (set_insert fd (get_or (lookup pid os.process_fds) [])) os.process_fds;
}

unfoldable pub bind_process_fd_target :
    Arm64SyntheticOsRuntime → ℕ → ℕ → SyntheticFdTarget → Arm64SyntheticOsRuntime
unfolding register_process_fd insert
bind_process_fd_target os pid fd target =
    let os' = register_process_fd os pid fd in
    record os' { process_fd_targets = insert (pid, fd) target os'.process_fd_targets }

unfoldable pub resolve_process_fd_target :
    Arm64SyntheticOsRuntime → ℕ → ℕ → Option SyntheticFdTarget
unfolding lookup
resolve_process_fd_target os pid fd = elim (lookup (pid, fd) os.process_fd_targets) [
  | some target ↦ some target
  | none ↦ lookup fd os.fd_targets
]

abbrev pub fd_target_of : GuestOpenTarget → SyntheticFdTarget
fd_target_of (GuestOpenTarget.file file_id) = SyntheticFdTarget.file file_id
fd_target_of (GuestOpenTarget.directory dir_id) = SyntheticFdTarget.directory dir_id

abbrev pub opened :
    Arm64SyntheticOsRuntime
    → ℕ
    → ℕ
    → GuestFileTable × Result ℕ (GuestOpenTarget × List ℕ)
    → Arm64SyntheticOsRuntime × Result ℕ (ℕ × List ℕ)
opened os pid fd (t, err e) = (record os { guest_files = t }, err e)
opened os pid fd (t, ok (target, resolved)) = (
  bind_process_fd_target (record os { guest_files = t }) pid fd (fd_target_of target),
  ok (fd, resolved),
)

unfoldable pub open_guest_file_with_flags :
    HostFiles
    → Arm64SyntheticOsRuntime
    → ℕ
    → List ℕ
    → ℕ
    → Arm64SyntheticOsRuntime × Result ℕ (ℕ × List ℕ)
unfolding open_guest_path_with_flags bind_process_fd_target
open_guest_file_with_flags host os pid raw_path flags =
    let fd = max os.next_fd 3 in
    opened (record os { next_fd = saturating_add fd 1 }) pid fd
      (open_guest_path_with_flags host os.guest_files pid fd raw_path flags)

unfoldable pub read_guest_file :
    Arm64SyntheticOsRuntime → ℕ → ℕ → ℕ → Arm64SyntheticOsRuntime × Option (List ℕ × Bool)
unfolding resolve_process_fd_target Access.read_guest_file
read_guest_file os pid fd count = elim (resolve_process_fd_target os pid fd) [
  | some (SyntheticFdTarget.file file_id) ↦
      let r = Access.read_guest_file os.guest_files pid fd file_id count in
      (record os { guest_files = r.0 }, r.1)
  | _ ↦ (os, none)
]

unfoldable pub fstat_guest_file : Arm64SyntheticOsRuntime → ℕ → ℕ → Result ℕ ℕ
unfolding resolve_process_fd_target Access.fstat_guest_file
fstat_guest_file os pid fd = elim (resolve_process_fd_target os pid fd) [
  | some (SyntheticFdTarget.file file_id) ↦ Access.fstat_guest_file os.guest_files file_id
  | some (SyntheticFdTarget.directory dir_id) ↦ ok 0
  | _ ↦ err 9
]

unfoldable pub read_guest_directory_entry :
    Arm64SyntheticOsRuntime → ℕ → ℕ → Arm64SyntheticOsRuntime × Option GuestDirectoryEntry
unfolding resolve_process_fd_target Access.read_guest_directory_entry
read_guest_directory_entry os pid fd = elim (resolve_process_fd_target os pid fd) [
  | some (SyntheticFdTarget.directory dir_id) ↦
      let r = Access.read_guest_directory_entry os.guest_files pid fd dir_id in
      (record os { guest_files = r.0 }, r.1)
  | _ ↦ (os, none)
]
