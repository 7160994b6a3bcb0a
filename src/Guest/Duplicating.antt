-- ===== src/Guest/Duplicating.antt =====
-- A duplicated descriptor of crates/compatra-runtime/src/macos/arch_arm64/runtime.rs does not dangle.
use compatra.Common.{ℕ, ◌≡◌, refl, ◌∙◌, inl, inr, some, true, Option-cases, nat_eq, pair_eq}
use compatra.Common.HashMap.{lookup, insert}
use compatra.Common.Values.{AllValues-insert, AllValues-lookup, AllValues-map}
use compatra.Guest.Os.{SyntheticFdTarget, Arm64SyntheticOsRuntime, resolve_process_fd_target}
use compatra.Guest.Descriptors.{duplicated}
use compatra.Guest.Backing.{is_backed}
use compatra.Guest.Live.{NoDangling}

-- What a duplicated descriptor changes, of what descriptors refer to.
pub record Same (os os' : Arm64SyntheticOsRuntime) : Type 0 where
  pub files : os'.guest_files.files ≡ os.guest_files.files
  pub directories : os'.guest_files.directories ≡ os.guest_files.directories
  pub pipes : os'.pipes ≡ os.pipes
  pub globals : os'.fd_targets ≡ os.fd_targets

pub duplicated-Same :
    (os : Arm64SyntheticOsRuntime) (pid fd new_fd : ℕ) (target : SyntheticFdTarget)
    → Same os (duplicated os pid fd new_fd target)
      × ((duplicated os pid fd new_fd target).process_fd_targets
          ≡ insert (pid, new_fd) target os.process_fd_targets)
unfolding duplicated
duplicated-Same os pid fd new_fd (SyntheticFdTarget.file i) =
    (record { files = refl; directories = refl; pipes = refl; globals = refl }, refl)
duplicated-Same os pid fd new_fd (SyntheticFdTarget.directory i) =
    (record { files = refl; directories = refl; pipes = refl; globals = refl }, refl)
duplicated-Same os pid fd new_fd (SyntheticFdTarget.pipe_read i) =
    (record { files = refl; directories = refl; pipes = refl; globals = refl }, refl)
duplicated-Same os pid fd new_fd (SyntheticFdTarget.pipe_write i) =
    (record { files = refl; directories = refl; pipes = refl; globals = refl }, refl)

is_backed-Same :
    (os os' : Arm64SyntheticOsRuntime) (t : SyntheticFdTarget)
    → Same os os'
    → is_backed os t ≡ true
    → is_backed os' t ≡ true
is_backed-Same os os' (SyntheticFdTarget.file i) s h = rw s.files h
is_backed-Same os os' (SyntheticFdTarget.directory i) s h = rw s.directories h
is_backed-Same os os' (SyntheticFdTarget.pipe_read i) s h = rw s.pipes h
is_backed-Same os os' (SyntheticFdTarget.pipe_write i) s h = rw s.pipes h

module _ (os : Arm64SyntheticOsRuntime) (pid fd : ℕ) (live : NoDangling os) where
  resolved_backed :
      (t : SyntheticFdTarget) → resolve_process_fd_target os pid fd ≡ some t → is_backed os t ≡ true
  unfolding resolve_process_fd_target
  resolved_backed t h = elim (Option-cases (lookup (pid, fd) os.process_fd_targets)) [
    | inr (u, e) ↦
        AllValues-lookup (λ t. is_backed os t ≡ true) (pid, fd) t os.process_fd_targets
          (e ∙ (rw (resolve_process_fd_target, e) at h)) live.process
    | inl e ↦
        AllValues-lookup (λ t. is_backed os t ≡ true) fd t os.fd_targets
          (rw (resolve_process_fd_target, e) at h) live.global
  ]

  pub duplicated-NoDangling :
      (new_fd : ℕ) (target : SyntheticFdTarget)
      → resolve_process_fd_target os pid fd ≡ some target
      → NoDangling (duplicated os pid fd new_fd target)
  duplicated-NoDangling new_fd target h =
      let (same, bound) = duplicated-Same os pid fd new_fd target in
      let backed = λ (t : SyntheticFdTarget) (b : is_backed os t ≡ true).
        is_backed-Same os (duplicated os pid fd new_fd target) t same b in
      record {
        process = rw bound (
            AllValues-insert _ (pid, new_fd) target os.process_fd_targets
              (backed target (resolved_backed target h))
              (AllValues-map _ _ os.process_fd_targets backed live.process));
        global = rw same.globals (AllValues-map _ _ os.fd_targets backed live.global);
      }
