-- ===== src/Guest/Closing.antt =====
-- What closing a descriptor keeps, in crates/compatra-runtime/src/macos/arch_arm64/runtime.rs.
use compatra.Common.{ℕ, ◌≡◌, refl, inl, inr, true, Option-cases, nat_eq, pair_eq, arith}
use compatra.Common.HashMap.{lookup}
use compatra.Guest.Os.{SyntheticFdTarget, Arm64SyntheticOsRuntime}
use compatra.Guest.Descriptors.{has_pipe_endpoint_ref, settle_pipe, close_target}
use compatra.Guest.Backing.{
  is_backed, settled, kept_file, kept_directory, kept_reader_read, kept_writer_read,
  kept_writer_write, kept_reader_write,
}

module _ (os : Arm64SyntheticOsRuntime) (pid fd : ℕ) where
  reader_files :
      (i : ℕ)
      → (close_target os pid fd (SyntheticFdTarget.pipe_read i)).0.guest_files ≡ os.guest_files
  unfolding close_target
  reader_files i = elim (Option-cases (lookup i os.pipes)) [
    | inl e ↦ rw (close_target, e) refl
    | inr (p, e) ↦ rw (close_target, e) (settled os pid fd i i _).2
  ]

  writer_files :
      (i : ℕ)
      → (close_target os pid fd (SyntheticFdTarget.pipe_write i)).0.guest_files ≡ os.guest_files
  unfolding close_target
  writer_files i = elim (Option-cases (lookup i os.pipes)) [
    | inl e ↦ rw (close_target, e) refl
    | inr (p, e) ↦ rw (close_target, e) (settled os pid fd i i _).2
  ]

  pub close_target_keeps :
      (target t : SyntheticFdTarget)
      → is_backed os t ≡ true
      → has_pipe_endpoint_ref os pid fd t ≡ true
      → is_backed (close_target os pid fd target).0 t ≡ true
  unfolding close_target
  close_target_keeps (SyntheticFdTarget.file i) (SyntheticFdTarget.file j) b h =
      kept_file os pid fd i j b h
  close_target_keeps (SyntheticFdTarget.file i) (SyntheticFdTarget.directory j) b h = b
  close_target_keeps (SyntheticFdTarget.file i) (SyntheticFdTarget.pipe_read j) b h = b
  close_target_keeps (SyntheticFdTarget.file i) (SyntheticFdTarget.pipe_write j) b h = b
  close_target_keeps (SyntheticFdTarget.directory i) (SyntheticFdTarget.directory j) b h =
      kept_directory os pid fd i j b h
  close_target_keeps (SyntheticFdTarget.directory i) (SyntheticFdTarget.file j) b h = b
  close_target_keeps (SyntheticFdTarget.directory i) (SyntheticFdTarget.pipe_read j) b h = b
  close_target_keeps (SyntheticFdTarget.directory i) (SyntheticFdTarget.pipe_write j) b h = b
  close_target_keeps (SyntheticFdTarget.pipe_read i) (SyntheticFdTarget.file j) b h =
      rw (reader_files i) b
  close_target_keeps (SyntheticFdTarget.pipe_read i) (SyntheticFdTarget.directory j) b h =
      rw (reader_files i) b
  close_target_keeps (SyntheticFdTarget.pipe_read i) (SyntheticFdTarget.pipe_read j) b h =
      kept_reader_read os pid fd i j b h
  close_target_keeps (SyntheticFdTarget.pipe_read i) (SyntheticFdTarget.pipe_write j) b h =
      kept_writer_read os pid fd i j b
  close_target_keeps (SyntheticFdTarget.pipe_write i) (SyntheticFdTarget.file j) b h =
      rw (writer_files i) b
  close_target_keeps (SyntheticFdTarget.pipe_write i) (SyntheticFdTarget.directory j) b h =
      rw (writer_files i) b
  close_target_keeps (SyntheticFdTarget.pipe_write i) (SyntheticFdTarget.pipe_read j) b h =
      kept_reader_write os pid fd i j b
  close_target_keeps (SyntheticFdTarget.pipe_write i) (SyntheticFdTarget.pipe_write j) b h =
      kept_writer_write os pid fd i j b h

  pub close_target_targets :
      (target : SyntheticFdTarget)
      → (close_target os pid fd target).0.process_fd_targets ≡ os.process_fd_targets
  unfolding close_target settle_pipe
  close_target_targets (SyntheticFdTarget.file i) = refl
  close_target_targets (SyntheticFdTarget.directory i) = refl
  close_target_targets (SyntheticFdTarget.pipe_read i) = elim (Option-cases (lookup i os.pipes)) [
    | inl e ↦ rw (close_target, e) refl
    | inr (p, e) ↦ rw (close_target, e) (ground arith)
  ]
  close_target_targets (SyntheticFdTarget.pipe_write i) = elim (Option-cases (lookup i os.pipes)) [
    | inl e ↦ rw (close_target, e) refl
    | inr (p, e) ↦ rw (close_target, e) (ground arith)
  ]

  pub close_target_globals :
      (target : SyntheticFdTarget) → (close_target os pid fd target).0.fd_targets ≡ os.fd_targets
  unfolding close_target settle_pipe
  close_target_globals (SyntheticFdTarget.file i) = refl
  close_target_globals (SyntheticFdTarget.directory i) = refl
  close_target_globals (SyntheticFdTarget.pipe_read i) = elim (Option-cases (lookup i os.pipes)) [
    | inl e ↦ rw (close_target, e) refl
    | inr (p, e) ↦ rw (close_target, e) (ground arith)
  ]
  close_target_globals (SyntheticFdTarget.pipe_write i) = elim (Option-cases (lookup i os.pipes)) [
    | inl e ↦ rw (close_target, e) refl
    | inr (p, e) ↦ rw (close_target, e) (ground arith)
  ]
