-- ===== src/Guest/Streams.antt =====
-- Directory streams and the end of a process in
-- crates/compatra-runtime/src/macos/arch_arm64/runtime.rs, and sequences of calls.
use compatra.Common.{
  ℕ, List, [], ◌∷◌, Option, none, some, get_or, false, ◌==◌, if◌then◌else◌, max, saturating_add,
  nat_eq, pair_eq,
}
use compatra.Common.HashMap.{HashMap, lookup, insert, remove}
use compatra.Common.Result.{Result, ok, err}
use compatra.Guest.Files.{HostFiles}
use compatra.Guest.Os.{
  SyntheticProcess, SyntheticFdTarget, Arm64SyntheticOsRuntime, resolve_process_fd_target,
  open_guest_file_with_flags,
}
use compatra.Guest.Descriptors.{close_synthetic_fd, duplicate_synthetic_fd}

unfoldable pub open_directory_stream :
    Arm64SyntheticOsRuntime → ℕ → ℕ → Arm64SyntheticOsRuntime × Result ℕ ℕ
unfolding resolve_process_fd_target insert
open_directory_stream os pid fd = elim (resolve_process_fd_target os pid fd) [
  | some (SyntheticFdTarget.directory dir_id) ↦
      let dir_stream = max os.next_dir_stream 0x40000000 in
      (
        record os {
          next_dir_stream = saturating_add dir_stream 0x100;
          process_dir_streams = insert (pid, dir_stream) fd os.process_dir_streams;
        },
        ok dir_stream,
      )
  | some target ↦ (os, err 20)
  | none ↦ (os, err 9)
]

unfoldable pub resolve_directory_stream_fd : Arm64SyntheticOsRuntime → ℕ → ℕ → Option ℕ
unfolding lookup
resolve_directory_stream_fd os pid dir_stream = lookup (pid, dir_stream) os.process_dir_streams

unfoldable pub close_directory_stream :
    Arm64SyntheticOsRuntime → ℕ → ℕ → Arm64SyntheticOsRuntime × Result ℕ ℕ
unfolding lookup remove close_synthetic_fd
close_directory_stream os pid dir_stream = elim (lookup (pid, dir_stream) os.process_dir_streams) [
  | none ↦ (os, err 9)
  | some fd ↦ (
    (close_synthetic_fd
        (record os { process_dir_streams = remove (pid, dir_stream) os.process_dir_streams }) pid
        fd).0,
    ok fd,
  )
]

-- `retain` of the streams of other processes.
unfoldable pub retain_streams : ℕ → HashMap (ℕ × ℕ) ℕ → HashMap (ℕ × ℕ) ℕ
retain_streams pid [] = []
retain_streams pid (((stream_pid, stream), fd) ∷ streams) =
    let rest = retain_streams pid streams in
    if stream_pid == pid then rest else ((stream_pid, stream), fd) ∷ rest

abbrev pub ended :
    ℕ → ℕ → Option SyntheticProcess → HashMap ℕ SyntheticProcess → HashMap ℕ SyntheticProcess
ended pid exit_status none processes = processes
ended pid exit_status (some p) processes =
    insert pid (record p { running = false; exit_status = exit_status }) processes

unfoldable pub close_all : Arm64SyntheticOsRuntime → ℕ → List ℕ → Arm64SyntheticOsRuntime
unfolding close_synthetic_fd
close_all os pid [] = os
close_all os pid (fd ∷ fds) = close_all (close_synthetic_fd os pid fd).0 pid fds

-- The descriptors are closed in the order of the list that stands for their set.
unfoldable pub terminate_synthetic_process :
    Arm64SyntheticOsRuntime → ℕ → ℕ → Arm64SyntheticOsRuntime
unfolding retain_streams close_all insert lookup
terminate_synthetic_process os pid exit_status =
    close_all
      (record os {
        processes = ended pid exit_status (lookup pid os.processes) os.processes;
        process_dir_streams = retain_streams pid os.process_dir_streams;
      })
      pid (get_or (lookup pid os.process_fds) [])

-- A call, with the process that makes it, and its arguments.
pub data FdCall : Type 0 where
  opens : ℕ → List ℕ → ℕ → FdCall
  duplicates : ℕ → ℕ → ℕ → FdCall
  closes : ℕ → ℕ → FdCall
  opens_stream : ℕ → ℕ → FdCall
  closes_stream : ℕ → ℕ → FdCall
  ends : ℕ → ℕ → FdCall

abbrev pub after_duplicate :
    Arm64SyntheticOsRuntime
    → Option (Arm64SyntheticOsRuntime × Result ℕ ℕ)
    → Arm64SyntheticOsRuntime
after_duplicate os none = os
after_duplicate os (some (os', r)) = os'

-- The search for a free number is given `fuel`.
unfoldable pub call : ℕ → HostFiles → FdCall → Arm64SyntheticOsRuntime → Arm64SyntheticOsRuntime
unfolding open_guest_file_with_flags duplicate_synthetic_fd close_synthetic_fd open_directory_stream
    close_directory_stream terminate_synthetic_process
call fuel host (FdCall.opens pid raw flags) os =
    (open_guest_file_with_flags host os pid raw flags).0
call fuel host (FdCall.duplicates pid fd min_fd) os =
    after_duplicate os (duplicate_synthetic_fd fuel os pid fd min_fd)
call fuel host (FdCall.closes pid fd) os = (close_synthetic_fd os pid fd).0
call fuel host (FdCall.opens_stream pid fd) os = (open_directory_stream os pid fd).0
call fuel host (FdCall.closes_stream pid stream) os = (close_directory_stream os pid stream).0
call fuel host (FdCall.ends pid exit_status) os = terminate_synthetic_process os pid exit_status

unfoldable pub calls :
    ℕ → HostFiles → List FdCall → Arm64SyntheticOsRuntime → Arm64SyntheticOsRuntime
unfolding call
calls fuel host [] os = os
calls fuel host (c ∷ cs) os = calls fuel host cs (call fuel host c os)
