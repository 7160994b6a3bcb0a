-- ===== src/Guest/Descriptors.antt =====
-- Duplicating and closing file descriptors, and the ends of streams and processes, in
-- crates/compatra-runtime/src/macos/arch_arm64/runtime.rs.
use compatra.Common.{
  ℕ, zero, suc, [], ◌∷◌, Option, none, some, get_or, Bool, true, false, not, ◌==◌, ◌&&◌, ◌||◌,
  if◌then◌else◌, max, saturating_add, nat_eq, pair_eq, pair_beq,
}
use compatra.Common.HashMap.{HashMap, lookup, insert, remove, contains_key}
use compatra.Common.Result.{Result, ok, err}
use compatra.Guest.Files.{GuestFileTable}
use compatra.Guest.Os.{
  SyntheticPipe, SyntheticFdTarget, Arm64SyntheticOsRuntime, target_beq, set_remove,
  bind_process_fd_target, resolve_process_fd_target,
}

-- Whether a number is bound for the process or for all of them.
unfoldable pub is_taken : Arm64SyntheticOsRuntime → ℕ → ℕ → Bool
unfolding contains_key
is_taken os pid fd = contains_key (pid, fd) os.process_fd_targets || contains_key fd os.fd_targets

-- The first number from `fd` on that is not bound, on fuel.
unfoldable pub free_fd : ℕ → Arm64SyntheticOsRuntime → ℕ → ℕ → Option ℕ
unfolding is_taken
free_fd zero os pid fd = none
free_fd (suc n) os pid fd = elim (is_taken os pid fd) [
  | false ↦ some fd
  | true ↦ free_fd n os pid (saturating_add fd 1)
]

abbrev pub copy_flags : HashMap ℕ ℕ → ℕ → ℕ → HashMap ℕ ℕ
copy_flags fd_flags fd new_fd = elim (lookup fd fd_flags) [
  | none ↦ fd_flags
  | some flags ↦ insert new_fd flags fd_flags
]

abbrev pub copy_offset : GuestFileTable → SyntheticFdTarget → ℕ → ℕ → ℕ → GuestFileTable
copy_offset t (SyntheticFdTarget.file file_id) pid fd new_fd = record t {
  file_offsets = insert (pid, new_fd) (get_or (lookup (pid, fd) t.file_offsets) 0) t.file_offsets;
}
copy_offset t (SyntheticFdTarget.directory dir_id) pid fd new_fd = record t {
  directory_offsets =
      insert (pid, new_fd) (get_or (lookup (pid, fd) t.directory_offsets) 0) t.directory_offsets;
}
copy_offset t (SyntheticFdTarget.pipe_read pipe_id) pid fd new_fd = t
copy_offset t (SyntheticFdTarget.pipe_write pipe_id) pid fd new_fd = t

-- The state once the new number is chosen.
unfoldable pub duplicated :
    Arm64SyntheticOsRuntime → ℕ → ℕ → ℕ → SyntheticFdTarget → Arm64SyntheticOsRuntime
unfolding bind_process_fd_target insert lookup
duplicated os pid fd new_fd target =
    let bound =
      bind_process_fd_target (record os { next_fd = saturating_add new_fd 1 }) pid new_fd target in
    record bound {
      fd_flags = copy_flags bound.fd_flags fd new_fd;
      guest_files = copy_offset bound.guest_files target pid fd new_fd;
    }

-- None where the fuel is not enough.
unfoldable pub duplicate_synthetic_fd :
    ℕ → Arm64SyntheticOsRuntime → ℕ → ℕ → ℕ → Option (Arm64SyntheticOsRuntime × Result ℕ ℕ)
unfolding resolve_process_fd_target free_fd duplicated
duplicate_synthetic_fd n os pid fd min_fd = elim (resolve_process_fd_target os pid fd) [
  | none ↦ some (os, err 9)
  | some target ↦ elim (free_fd n os pid (max (max os.next_fd min_fd) 3)) [
    | none ↦ none
    | some new_fd ↦ some (duplicated os pid fd new_fd target, ok new_fd)
  ]
]

unfoldable pub has_process_ref :
    HashMap (ℕ × ℕ) SyntheticFdTarget → ℕ → ℕ → SyntheticFdTarget → Bool
has_process_ref [] pid fd target = false
has_process_ref ((key, other) ∷ targets) pid fd target =
    (not (pair_beq key (pid, fd)) && target_beq other target)
    || has_process_ref targets pid fd target

unfoldable pub has_global_ref : HashMap ℕ SyntheticFdTarget → ℕ → SyntheticFdTarget → Bool
has_global_ref [] fd target = false
has_global_ref ((key, other) ∷ targets) fd target =
    (not (key == fd) && target_beq other target) || has_global_ref targets fd target

unfoldable pub has_pipe_endpoint_ref : Arm64SyntheticOsRuntime → ℕ → ℕ → SyntheticFdTarget → Bool
unfolding has_process_ref has_global_ref
has_pipe_endpoint_ref os pid fd target =
    has_process_ref os.process_fd_targets pid fd target || has_global_ref os.fd_targets fd target

-- Without the bindings of the number.
unfoldable pub unbound : Arm64SyntheticOsRuntime → ℕ → ℕ → Arm64SyntheticOsRuntime
unfolding remove insert lookup set_remove
unbound os pid fd = record os {
  fd_flags = remove fd os.fd_flags;
  process_fds = insert pid (set_remove fd (get_or (lookup pid os.process_fds) [])) os.process_fds;
  process_fd_targets = remove (pid, fd) os.process_fd_targets;
  fd_targets = remove fd os.fd_targets;
}

-- A pipe with no end open is dropped and returned.
unfoldable pub settle_pipe :
    Arm64SyntheticOsRuntime → ℕ → SyntheticPipe → Arm64SyntheticOsRuntime × Option SyntheticPipe
unfolding remove insert
settle_pipe os pipe_id p =
    if not p.read_open && not p.write_open
    then (record os { pipes = remove pipe_id os.pipes }, some p)
    else (record os { pipes = insert pipe_id p os.pipes }, none)

abbrev pub without_reader : Bool → ℕ → SyntheticPipe → SyntheticPipe
without_reader still_open fd p =
    if still_open then p else record p { read_open = false; read_fd = fd }

abbrev pub without_writer : Bool → ℕ → SyntheticPipe → SyntheticPipe
without_writer still_open fd p =
    if still_open then p else record p { write_open = false; write_fd = fd }

unfoldable pub close_target :
    Arm64SyntheticOsRuntime
    → ℕ
    → ℕ
    → SyntheticFdTarget
    → Arm64SyntheticOsRuntime × Option SyntheticPipe
unfolding has_pipe_endpoint_ref settle_pipe lookup remove
close_target os pid fd (SyntheticFdTarget.pipe_read pipe_id) = elim (lookup pipe_id os.pipes) [
  | none ↦ (os, none)
  | some p ↦
      settle_pipe os pipe_id (
        without_reader (has_pipe_endpoint_ref os pid fd (SyntheticFdTarget.pipe_read pipe_id)) fd p)
]
close_target os pid fd (SyntheticFdTarget.pipe_write pipe_id) = elim (lookup pipe_id os.pipes) [
  | none ↦ (os, none)
  | some p ↦
      settle_pipe os pipe_id (
        without_writer (has_pipe_endpoint_ref os pid fd (SyntheticFdTarget.pipe_write pipe_id)) fd
          p)
]
close_target os pid fd (SyntheticFdTarget.file file_id) =
    let t = os.guest_files in
    let offsets = remove (pid, fd) t.file_offsets in
    (
      record os {
        guest_files = record t {
          file_offsets = offsets;
          files =
              if has_pipe_endpoint_ref os pid fd (SyntheticFdTarget.file file_id)
              then t.files
              else remove file_id t.files;
        };
      },
      none,
    )
close_target os pid fd (SyntheticFdTarget.directory dir_id) =
    let t = os.guest_files in
    let offsets = remove (pid, fd) t.directory_offsets in
    (
      record os {
        guest_files = record t {
          directory_offsets = offsets;
          directories =
              if has_pipe_endpoint_ref os pid fd (SyntheticFdTarget.directory dir_id)
              then t.directories
              else remove dir_id t.directories;
        };
      },
      none,
    )

unfoldable pub close_synthetic_fd :
    Arm64SyntheticOsRuntime → ℕ → ℕ → Arm64SyntheticOsRuntime × Option SyntheticPipe
unfolding unbound close_target lookup
close_synthetic_fd os pid fd = elim (lookup (pid, fd) os.process_fd_targets) [
  | none ↦ (unbound os pid fd, none)
  | some target ↦ close_target (unbound os pid fd) pid fd target
]
