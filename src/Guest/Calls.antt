-- ===== src/Guest/Calls.antt =====
-- Sequences of calls on the descriptors of
-- crates/compatra-runtime/src/macos/arch_arm64/runtime.rs.
use compatra.Common.{ℕ, inl, inr, List, [], ◌∷◌, get_or, max, Option-cases, nat_eq, pair_eq}
use compatra.Common.HashMap.{lookup}
use compatra.Guest.Files.{HostFiles}
use compatra.Guest.Os.{SyntheticFdTarget, Arm64SyntheticOsRuntime, resolve_process_fd_target}
use compatra.Guest.Descriptors.{close_synthetic_fd, free_fd, duplicate_synthetic_fd}
use compatra.Guest.Streams.{
  open_directory_stream, close_directory_stream, close_all, terminate_synthetic_process, FdCall,
  after_duplicate, call, calls,
}
use compatra.Guest.Live.{NoDangling}
use compatra.Guest.Dangling.{close-NoDangling}
use compatra.Guest.Opening.{open-NoDangling}
use compatra.Guest.Duplicating.{duplicated-NoDangling}

duplicate-NoDangling :
    (fuel : ℕ) (os : Arm64SyntheticOsRuntime) (pid fd min_fd : ℕ)
    → NoDangling os
    → NoDangling (after_duplicate os (duplicate_synthetic_fd fuel os pid fd min_fd))
unfolding duplicate_synthetic_fd
duplicate-NoDangling fuel os pid fd min_fd live =
    elim (Option-cases (resolve_process_fd_target os pid fd)) [
      | inl e ↦ rw (duplicate_synthetic_fd, e) live
      | inr (target, e) ↦
          elim (Option-cases (free_fd fuel os pid (max (max os.next_fd min_fd) 3))) [
            | inl f ↦ rw (duplicate_synthetic_fd, e, f) live
            | inr (new_fd, f) ↦
                rw (duplicate_synthetic_fd, e, f)
                  (duplicated-NoDangling os pid fd live new_fd target e)
          ]
    ]

open_stream-NoDangling :
    (os : Arm64SyntheticOsRuntime) (pid fd : ℕ)
    → NoDangling os
    → NoDangling (open_directory_stream os pid fd).0
unfolding open_directory_stream
open_stream-NoDangling os pid fd live = elim (Option-cases (resolve_process_fd_target os pid fd)) [
  | inl e ↦ rw (open_directory_stream, e) live
  | inr (SyntheticFdTarget.file i, e) ↦ rw (open_directory_stream, e) live
  | inr (SyntheticFdTarget.pipe_read i, e) ↦ rw (open_directory_stream, e) live
  | inr (SyntheticFdTarget.pipe_write i, e) ↦ rw (open_directory_stream, e) live
  | inr (SyntheticFdTarget.directory i, e) ↦
      rw (open_directory_stream, e) (record { process = live.process; global = live.global })
]

close_stream-NoDangling :
    (os : Arm64SyntheticOsRuntime) (pid stream : ℕ)
    → NoDangling os
    → NoDangling (close_directory_stream os pid stream).0
unfolding close_directory_stream
close_stream-NoDangling os pid stream live =
    elim (Option-cases (lookup (pid, stream) os.process_dir_streams)) [
      | inl e ↦ rw (close_directory_stream, e) live
      | inr (fd, e) ↦
          rw (close_directory_stream, e)
            (close-NoDangling _ pid fd (record { process = live.process; global = live.global }))
    ]

close_all-NoDangling :
    (os : Arm64SyntheticOsRuntime) (pid : ℕ) (fds : List ℕ)
    → NoDangling os
    → NoDangling (close_all os pid fds)
unfolding close_all
close_all-NoDangling os pid [] live = live
close_all-NoDangling os pid (fd ∷ fds) live =
    close_all-NoDangling (close_synthetic_fd os pid fd).0 pid fds (close-NoDangling os pid fd live)

call-NoDangling :
    (fuel : ℕ) (host : HostFiles) (c : FdCall) (os : Arm64SyntheticOsRuntime)
    → NoDangling os
    → NoDangling (call fuel host c os)
unfolding call terminate_synthetic_process
call-NoDangling fuel host (FdCall.opens pid raw flags) os live =
    open-NoDangling os pid live host raw flags
call-NoDangling fuel host (FdCall.duplicates pid fd min_fd) os live =
    duplicate-NoDangling fuel os pid fd min_fd live
call-NoDangling fuel host (FdCall.closes pid fd) os live = close-NoDangling os pid fd live
call-NoDangling fuel host (FdCall.opens_stream pid fd) os live =
    open_stream-NoDangling os pid fd live
call-NoDangling fuel host (FdCall.closes_stream pid stream) os live =
    close_stream-NoDangling os pid stream live
call-NoDangling fuel host (FdCall.ends pid exit_status) os live =
    close_all-NoDangling _ pid (get_or (lookup pid os.process_fds) [])
      (record { process = live.process; global = live.global })

-- Whatever calls open, duplicate and close descriptors and directory streams and end processes: where no
-- descriptor dangled before, none does after, and each refers to a file or a directory that is in the
-- table, or to an end of a pipe that is open.
pub calls-NoDangling :
    (fuel : ℕ) (host : HostFiles) (cs : List FdCall) (os : Arm64SyntheticOsRuntime)
    → NoDangling os
    → NoDangling (calls fuel host cs os)
unfolding calls
calls-NoDangling fuel host [] os live = live
calls-NoDangling fuel host (c ∷ cs) os live =
    calls-NoDangling fuel host cs (call fuel host c os) (call-NoDangling fuel host c os live)
