-- ===== src/Threading/Fairness.antt =====
-- `yield_active_to_next` of crates/compatra-threading/src/lib.rs is a round robin.
use compatra.Common.{
  ℕ, zero, suc, ◌≡◌, refl, List, [], ◌∷◌, ◌++◌, some, length, get_elem?, arith, List-cases, inl,
  inr,
}
use compatra.Threading.State.{PendingGuestThread, ActiveGuestThread, GuestThreadRuntime}
use compatra.Threading.Ops.{yield_active_to_next}

module _ {ℓ} {C : Type ℓ} where
  -- One yield after another, each with the record that resumes the thread that yields.
  unfoldable pub yield_all :
      GuestThreadRuntime C → List (PendingGuestThread C) → GuestThreadRuntime C
  yield_all r [] = r
  yield_all r (p ∷ ps) = yield_all (yield_active_to_next r p).0 ps

  abbrev after_yield :
      GuestThreadRuntime C
      → ActiveGuestThread C
      → PendingGuestThread C
      → List (PendingGuestThread C)
      → GuestThreadRuntime C
  after_yield r a next rest = record r {
    current_thread_id = next.thread_id;
    pending_threads = rest;
    active_thread = some (record a { thread_id = next.thread_id });
  }

  yield_next :
      (r : GuestThreadRuntime C) (resume : PendingGuestThread C) {a : ActiveGuestThread C}
      {next : PendingGuestThread C} {rest : List (PendingGuestThread C)}
      → r.active_thread ≡ some a
      → r.pending_threads ≡ next ∷ rest
      → (yield_active_to_next r resume).0 ≡ after_yield r a next (rest ++ (resume ∷ []))
  unfolding yield_active_to_next
  yield_next r resume h k = ground arith

  get_elem?-push_back :
      (ps : List (PendingGuestThread C)) (i : ℕ) (p q : PendingGuestThread C)
      → get_elem? ps i ≡ some p
      → get_elem? (ps ++ (q ∷ [])) i ≡ some p
  get_elem?-push_back [] i p q h = cc
  get_elem?-push_back (x ∷ ps) zero p q h = h
  get_elem?-push_back (x ∷ ps) (suc i) p q h = get_elem?-push_back ps i p q h

  -- Round robin: the pending thread at place `i` runs after exactly `i + 1` yields, whoever yields,
  -- and the parent and exit action of the active record go with the CPU.
  pub yield_all-active :
      (i : ℕ) (r : GuestThreadRuntime C) (resumes : List (PendingGuestThread C))
      (a : ActiveGuestThread C) (p : PendingGuestThread C)
      → r.active_thread ≡ some a
      → get_elem? r.pending_threads i ≡ some p
      → length resumes ≡ suc i
      → ((yield_all r resumes).active_thread ≡ some (record a { thread_id = p.thread_id }))
        × ((yield_all r resumes).current_thread_id ≡ p.thread_id)
  unfolding yield_all
  yield_all-active i r [] a p h k e = absurd (omega arith)
  yield_all-active zero r (x ∷ y ∷ xs) a p h k e = absurd (omega arith)
  yield_all-active (suc i) r (x ∷ []) a p h k e = absurd (omega arith)
  yield_all-active zero r (x ∷ []) a p h k e = elim (List-cases r.pending_threads) [
    | inl z ↦ absurd (ground arith)
    | inr (next, rest, z) ↦ ground (arith, yield_next r x h z)
  ]
  yield_all-active (suc i) r (x ∷ y ∷ xs) a p h k e = elim (List-cases r.pending_threads) [
    | inl z ↦ absurd (ground arith)
    | inr (next, rest, z) ↦
        rw (yield_next r x h z, yield_all)
          (yield_all-active i (after_yield r a next (rest ++ (x ∷ []))) (y ∷ xs)
            (record a { thread_id = next.thread_id }) p refl
            (get_elem?-push_back rest i p x (ground arith)) (omega arith))
  ]
