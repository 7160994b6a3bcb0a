-- ===== src/Guest/Dangling.antt =====
-- Opening, duplicating and closing descriptors in
-- crates/compatra-runtime/src/macos/arch_arm64/runtime.rs leave none that dangles.
use compatra.Common.{ℕ, ◌≡◌, inl, inr, true, Option-cases, nat_eq, pair_eq, arith}
use compatra.Common.HashMap.{lookup, remove}
use compatra.Common.Values.{AllValues-remove, AllValues-both}
use compatra.Guest.Os.{SyntheticFdTarget, Arm64SyntheticOsRuntime}
use compatra.Guest.Descriptors.{
  has_process_ref, has_global_ref, has_pipe_endpoint_ref, unbound, close_target, close_synthetic_fd,
}
use compatra.Guest.Backing.{is_backed}
use compatra.Guest.Closing.{close_target_keeps, close_target_targets, close_target_globals}
use compatra.Guest.Live.{NoDangling, process_refs, global_refs}

module _ (os : Arm64SyntheticOsRuntime) (pid fd : ℕ) (live : NoDangling os) where
  unbound-NoDangling : NoDangling (unbound os pid fd)
  unfolding unbound
  unbound-NoDangling = record {
    process =
        AllValues-remove (λ t. is_backed os t ≡ true) (pid, fd) os.process_fd_targets live.process;
    global = AllValues-remove (λ t. is_backed os t ≡ true) fd os.fd_targets live.global;
  }

  process_kept :
      (t : SyntheticFdTarget)
      → has_process_ref (unbound os pid fd).process_fd_targets pid fd t ≡ true
      → has_pipe_endpoint_ref (unbound os pid fd) pid fd t ≡ true
  unfolding has_pipe_endpoint_ref
  process_kept t h = rw h (ground arith)

  global_kept :
      (t : SyntheticFdTarget)
      → has_global_ref (unbound os pid fd).fd_targets fd t ≡ true
      → has_pipe_endpoint_ref (unbound os pid fd) pid fd t ≡ true
  unfolding has_pipe_endpoint_ref
  global_kept t h = rw h (ground arith)

  close_bound :
      (target : SyntheticFdTarget) → NoDangling (close_target (unbound os pid fd) pid fd target).0
  unfolding unbound
  close_bound target = record {
    process = rw (close_target_targets (unbound os pid fd) pid fd target) (
        AllValues-both _ _ _ (remove (pid, fd) os.process_fd_targets)
          (λ t b h. close_target_keeps (unbound os pid fd) pid fd target t b (process_kept t h))
          unbound-NoDangling.process (process_refs os.process_fd_targets pid fd));
    global = rw (close_target_globals (unbound os pid fd) pid fd target) (
        AllValues-both _ _ _ (remove fd os.fd_targets)
          (λ t b h. close_target_keeps (unbound os pid fd) pid fd target t b (global_kept t h))
          unbound-NoDangling.global (global_refs os.fd_targets fd));
  }

  pub close-NoDangling : NoDangling (close_synthetic_fd os pid fd).0
  unfolding close_synthetic_fd
  close-NoDangling = elim (Option-cases (lookup (pid, fd) os.process_fd_targets)) [
    | inl e ↦ rw (close_synthetic_fd, e) unbound-NoDangling
    | inr (target, e) ↦ rw (close_synthetic_fd, e) (close_bound target)
  ]
