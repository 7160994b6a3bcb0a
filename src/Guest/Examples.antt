-- ===== src/Guest/Examples.antt =====
-- Runs of the files and descriptors of crates/compatra-runtime/src/macos/guest_model/files.rs and
-- crates/compatra-runtime/src/macos/arch_arm64/runtime.rs, and the theorems applied to them.
use compatra.Common.{
  ℕ, ◌≡◌, ◌≤◌, refl, List, [], ◌∷◌, none, some, false, if◌then◌else◌, take, pair_beq, true, arith,
}
use compatra.Common.HashMap.{lookup}
use compatra.Common.Result.{Result, ok, err}
use compatra.Guest.Files.{
  GuestOpenTarget, GuestDirectoryEntry, read_directory_entries, SyntheticGuestFileKind,
  GuestFileTable, HostFiles, default_policy, with_policy, file_of, resolve_guest_path,
  open_guest_path_with_flags,
}
use compatra.Guest.Access.{read_all}
use compatra.Guest.Reading.{sum, read_all-open_guest_path_with_flags}
use compatra.Guest.Os.{
  SyntheticFdTarget, Arm64SyntheticOsRuntime, fstat_guest_file, resolve_process_fd_target,
}
use compatra.Guest.Descriptors.{is_taken, close_synthetic_fd, duplicate_synthetic_fd}
use compatra.Guest.Streams.{FdCall, calls}
use compatra.Guest.Live.{NoDangling}
use compatra.Guest.Calls.{calls-NoDangling}
use compatra.Guest.Duplicates.{duplicate_synthetic_fd-some}

-- Every path is a file with these bytes.
abbrev contents : List ℕ
contents = 10 ∷ 20 ∷ 30 ∷ 40 ∷ 50 ∷ []

abbrev small_host : HostFiles
small_host = record {
  metadata = λ path. some (record { is_dir = false; len = 5 });
  read = λ path. some contents;
  read_dir = λ path. none;
}

-- "/g" and "/a".
abbrev base : List ℕ
base = 47 ∷ 103 ∷ []

abbrev path : List ℕ
path = 47 ∷ 97 ∷ []

abbrev new_table : GuestFileTable
unfolding with_policy
new_table = with_policy base default_policy

-- The descriptor 3 of process 1 is a file.
abbrev one_file : Arm64SyntheticOsRuntime
one_file = record {
  next_process_id = 2;
  next_fd = 3;
  next_dir_stream = 0;
  next_kqueue_fd = 0;
  guest_fs_base = base;
  processes = [];
  process_thread_ids = [];
  thread_processes = [];
  process_fds = (1, 3 ∷ []) ∷ [];
  fd_flags = [];
  process_fd_targets = ((1, 3), SyntheticFdTarget.file 1) ∷ [];
  process_dir_streams = [];
  fd_targets = [];
  pipes = [];
  guest_files = record {
    next_file_id = 2;
    next_dir_id = 1;
    guest_fs_base = base;
    policy = default_policy;
    files = (1, file_of path path (SyntheticGuestFileKind.host_bytes contents)) ∷ [];
    directories = [];
    file_offsets = ((1, 3), 0) ∷ [];
    directory_offsets = [];
  };
  last_pipe_reads = [];
  pipe_empty_eof_reads = [];
  kqueues = [];
  popen_streams = [];
}

one_file-NoDangling : NoDangling one_file
unfolding lookup
one_file-NoDangling = record { process = (refl, tt); global = tt }

read_all-open_guest_path_with_flags_example :
    (file_id : ℕ) × ((open_guest_path_with_flags small_host new_table 1 3 path 0).1
      ≡ ok (GuestOpenTarget.file file_id, resolve_guest_path base path))
    × ((read_all
          (open_guest_path_with_flags small_host new_table 1 3 path 0).0
          1
          3
          file_id
          (2 ∷ 0 ∷ 2 ∷ [])).1
        ≡ take 4 contents)
unfolding with_policy sum
read_all-open_guest_path_with_flags_example =
    read_all-open_guest_path_with_flags small_host new_table 1 3 0 5 path contents (2 ∷ 0 ∷ 2 ∷ [])
      refl refl refl (omega arith)

-- A duplicate, the end of the file behind it, and the end of the process.
abbrev some_calls : List FdCall
some_calls =
    FdCall.duplicates 1 3 0 ∷ FdCall.closes 1 3 ∷ FdCall.opens 2 path 0 ∷ FdCall.ends 1 0 ∷ []

calls-NoDangling_example : NoDangling (calls 4 small_host some_calls one_file)
calls-NoDangling_example = calls-NoDangling 4 small_host some_calls one_file one_file-NoDangling

duplicate_synthetic_fd-some_example :
    (new_fd : ℕ) × (os' : Arm64SyntheticOsRuntime) × (duplicate_synthetic_fd 4 one_file 1 3 0
      ≡ some (os', ok new_fd))
    × (3 ≤ new_fd)
    × (is_taken one_file 1 new_fd ≡ false)
    × (resolve_process_fd_target os' 1 3 ≡ (
        if pair_beq (1, new_fd) (1, 3)
        then some (SyntheticFdTarget.file 1)
        else resolve_process_fd_target one_file 1 3))
unfolding resolve_process_fd_target
duplicate_synthetic_fd-some_example =
    duplicate_synthetic_fd-some 4 one_file 1 3 0 1 3 (SyntheticFdTarget.file 1) refl (omega arith)
      (omega arith)

-- "/a" with a directory of one file, "b".
abbrev directory_host : HostFiles
directory_host = record {
  metadata = λ path. some (record { is_dir = true; len = 0 });
  read = λ path. none;
  read_dir = λ path. some (none ∷ some (98 ∷ [], record { is_dir = false; len = 7 }) ∷ []);
}

abbrev entry_names : List GuestDirectoryEntry → List (List ℕ)
entry_names [] = []
entry_names (e ∷ entries) = e.name ∷ entry_names entries

abbrev names_of : Result ℕ (List GuestDirectoryEntry) → List (List ℕ)
names_of (err e) = []
names_of (ok entries) = entry_names entries

-- ".", "..", "b"; the entry that the host cannot read is passed over.
directory_names :
    names_of (read_directory_entries directory_host path)
    ≡ (46 ∷ []) ∷ (46 ∷ 46 ∷ []) ∷ (98 ∷ []) ∷ []
unfolding read_directory_entries
directory_names = refl

-- The size of the file behind descriptor 3, and the error of a number that is not bound.
size_of_file : fstat_guest_file one_file 1 3 ≡ ok 5
unfolding fstat_guest_file
size_of_file = refl

size_of_unbound : fstat_guest_file one_file 1 4 ≡ err 9
unfolding fstat_guest_file
size_of_unbound = refl

-- The file leaves the table with its only descriptor.
closed_files : (close_synthetic_fd one_file 1 3).0.guest_files.files ≡ []
unfolding close_synthetic_fd
closed_files = refl
