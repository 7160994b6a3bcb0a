-- ===== src/Guest/Opening.antt =====
-- Opening descriptors in crates/compatra-runtime/src/macos/arch_arm64/runtime.rs leave
-- none that dangles.
use compatra.Common.{
  ℕ, ◌≡◌, refl, inl, inr, List, true, ◌&&◌, is_some, max, saturating_add, Bool-cases, Option-cases,
  bytes_beq, nat_eq, pair_eq, arith,
}
use compatra.Common.HashMap.{HashMap, lookup, insert, lookup-insert, lookup-insert_self}
use compatra.Common.Values.{AllValues-insert, AllValues-map}
use compatra.Common.Result.{Result, ok, err, Result-cases}
use compatra.Guest.Files.{
  GuestOpenTarget, HostFiles, SyntheticGuestFile, GuestFileTable, add_file, open_directory,
  open_host_path, open_guest_path_with_flags, read_directory_entries, dev_urandom,
  resolve_guest_path, is_creating,
}
use compatra.Guest.Os.{
  SyntheticFdTarget, Arm64SyntheticOsRuntime, bind_process_fd_target, open_guest_file_with_flags,
  opened, fd_target_of,
}
use compatra.Guest.Backing.{is_backed}
use compatra.Guest.Live.{NoDangling}

-- What is in the old table is in the new one.
record Grows (t t' : GuestFileTable) : Type 0 where
  files : (id : ℕ) → is_some (lookup id t.files) ≡ true → is_some (lookup id t'.files) ≡ true
  directories :
      (id : ℕ)
      → is_some (lookup id t.directories) ≡ true
      → is_some (lookup id t'.directories) ≡ true

abbrev TargetIn : GuestFileTable → Result ℕ (GuestOpenTarget × List ℕ) → Type 0
TargetIn t (err e) = Unit {0}
TargetIn t (ok (GuestOpenTarget.file id, path)) = is_some (lookup id t.files) ≡ true
TargetIn t (ok (GuestOpenTarget.directory id, path)) = is_some (lookup id t.directories) ≡ true

abbrev Opens : GuestFileTable → GuestFileTable × Result ℕ (GuestOpenTarget × List ℕ) → Type 0
Opens t r = Grows t r.0 × TargetIn r.0 r.1

insert-is_some {ℓ} :
    {V : Type ℓ} (i j : ℕ) (v : V) (m : HashMap ℕ V)
    → is_some (lookup i m) ≡ true
    → is_some (lookup i (insert j v m)) ≡ true
insert-is_some i j v m h = rw (lookup-insert i j v m) (ground arith)

add_file-Opens :
    (t : GuestFileTable) (pid fd : ℕ) (f : SyntheticGuestFile) → Opens t (add_file t pid fd f)
unfolding add_file
add_file-Opens t pid fd f = (
  record {
    files = λ id h. insert-is_some id (max t.next_file_id 1) f t.files h;
    directories = λ id h. h;
  },
  rw (lookup-insert_self (max t.next_file_id 1) f t.files) refl,
)

Opens-unchanged : (t : GuestFileTable) (e : ℕ) → Opens t (t, err e)
Opens-unchanged t e = (record { files = λ id h. h; directories = λ id h. h }, tt)

open_directory-Opens :
    (host : HostFiles) (t : GuestFileTable) (pid fd : ℕ) (raw resolved : List ℕ)
    → Opens t (open_directory host t pid fd raw resolved)
unfolding open_directory
open_directory-Opens host t pid fd raw resolved =
    elim (Result-cases (read_directory_entries host resolved)) [
      | inr (e, r) ↦
          rw (open_directory, r) (record { files = λ id h. h; directories = λ id h. h }, tt)
      | inl (entries, r) ↦
          rw (open_directory, r)
            (
              record {
                files = λ id h. h;
                directories = λ id h. insert-is_some id (max t.next_dir_id 1) _ t.directories h;
              },
              rw
                  (lookup-insert_self (max t.next_dir_id 1)
                    (record { raw_path = raw; resolved_path = resolved; entries = entries })
                    t.directories)
                  refl,
            )
    ]

open_host_path-Opens :
    (host : HostFiles) (t : GuestFileTable) (pid fd flags : ℕ) (raw resolved : List ℕ)
    → Opens t (open_host_path host t pid fd raw resolved flags)
unfolding open_host_path
open_host_path-Opens host t pid fd flags raw resolved =
    elim (Option-cases (host.metadata resolved)) [
      | inl m ↦ elim (Bool-cases (is_creating flags && t.policy.create_missing_files)) [
        | inl c ↦ rw (open_host_path, m, c) (add_file-Opens t pid fd _)
        | inr c ↦ rw (open_host_path, m, c) (Opens-unchanged t 2)
      ]
      | inr (meta, m) ↦ elim (Bool-cases meta.is_dir) [
        | inl d ↦ rw (open_host_path, m, d) (open_directory-Opens host t pid fd raw resolved)
        | inr d ↦ elim (Option-cases (host.read resolved)) [
          | inl r ↦ rw (open_host_path, m, d, r) (Opens-unchanged t 2)
          | inr (contents, r) ↦ rw (open_host_path, m, d, r) (add_file-Opens t pid fd _)
        ]
      ]
    ]

open_guest_path-Opens :
    (host : HostFiles) (t : GuestFileTable) (pid fd flags : ℕ) (raw : List ℕ)
    → Opens t (open_guest_path_with_flags host t pid fd raw flags)
unfolding open_guest_path_with_flags
open_guest_path-Opens host t pid fd flags raw = elim (Bool-cases (bytes_beq raw dev_urandom)) [
  | inl u ↦ rw (open_guest_path_with_flags, u) (add_file-Opens t pid fd _)
  | inr u ↦
      rw (open_guest_path_with_flags, u)
        (open_host_path-Opens host t pid fd flags raw (resolve_guest_path t.guest_fs_base raw))
]

module _ (os : Arm64SyntheticOsRuntime) (pid : ℕ) (live : NoDangling os) where
  backed_later :
      (t' : GuestFileTable) (n : ℕ) (target : SyntheticFdTarget)
      → Grows os.guest_files t'
      → is_backed os target ≡ true
      → is_backed (record os { next_fd = n; guest_files = t' }) target ≡ true
  backed_later t' n (SyntheticFdTarget.file i) g h = g.files i h
  backed_later t' n (SyntheticFdTarget.directory i) g h = g.directories i h
  backed_later t' n (SyntheticFdTarget.pipe_read i) g h = h
  backed_later t' n (SyntheticFdTarget.pipe_write i) g h = h

  backed_now :
      (t' : GuestFileTable) (n : ℕ) (target : GuestOpenTarget) (path : List ℕ)
      → TargetIn t' (ok (target, path))
      → is_backed (record os { next_fd = n; guest_files = t' }) (fd_target_of target) ≡ true
  backed_now t' n (GuestOpenTarget.file i) path b = b
  backed_now t' n (GuestOpenTarget.directory i) path b = b

  grown-NoDangling :
      (t' : GuestFileTable) (n : ℕ)
      → Grows os.guest_files t'
      → NoDangling (record os { next_fd = n; guest_files = t' })
  grown-NoDangling t' n g = record {
    process = AllValues-map _ _ os.process_fd_targets (λ t h. backed_later t' n t g h) live.process;
    global = AllValues-map _ _ os.fd_targets (λ t h. backed_later t' n t g h) live.global;
  }

  opened-NoDangling :
      (n fd : ℕ) (r : GuestFileTable × Result ℕ (GuestOpenTarget × List ℕ))
      → Opens os.guest_files r
      → NoDangling (opened (record os { next_fd = n }) pid fd r).0
  unfolding bind_process_fd_target
  opened-NoDangling n fd (t', err e) (g, b) = grown-NoDangling t' n g
  opened-NoDangling n fd (t', ok (target, path)) (g, b) =
      let state : Arm64SyntheticOsRuntime = record os { next_fd = n; guest_files = t' } in
      let grown = grown-NoDangling t' n g in
      record {
        process =
            AllValues-insert (λ t. is_backed state t ≡ true) (pid, fd) (fd_target_of target)
              os.process_fd_targets (backed_now t' n target path b) grown.process;
        global = grown.global;
      }

  pub open-NoDangling :
      (host : HostFiles) (raw : List ℕ) (flags : ℕ)
      → NoDangling (open_guest_file_with_flags host os pid raw flags).0
  unfolding open_guest_file_with_flags
  open-NoDangling host raw flags =
      opened-NoDangling (saturating_add (max os.next_fd 3) 1) (max os.next_fd 3)
        (open_guest_path_with_flags host os.guest_files pid (max os.next_fd 3) raw flags)
        (open_guest_path-Opens host os.guest_files pid (max os.next_fd 3) flags raw)
