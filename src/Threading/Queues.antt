-- ===== src/Threading/Queues.antt =====
-- The wait queues of crates/compatra-threading/src/lib.rs: every operation on them keeps them valid,
-- and the roll-back of a wait restores them exactly.
use compatra.Common.{
  ℕ, ◌≡◌, ◌≢◌, refl, ◌∙◌, sym, ◌∙◌, List, [], ◌∷◌, ◌++◌, some, get_or, false, is_empty,
  pop_back-push_back, is_empty-push_back, if◌then◌else◌, Bool-cases, Option-cases, pop_back, inl,
  inr, arith, nat_eq,
}
use compatra.Common.HashMap.{
  IsMap, lookup, insert, remove, lookup-insert, lookup-remove, lookup-insert_self, insert-insert,
  remove-insert, insert_present, insert-IsMap, remove-IsMap,
}
use compatra.Threading.State.{WaitingGuestThread, WaitQueues}
use compatra.Threading.Ops.{push_waiter, pop_waiter}
use compatra.Threading.Waking.{store}

module _ {ℓ} {C : Type ℓ} where
  -- Each condition has one wait queue, and none is stored empty.
  pub record QueuesAreValid (m : WaitQueues C) : Type ℓ where
    pub keys : IsMap m
    pub waiting : (cond : ℕ) → lookup cond m ≢ some []

  pub insert-QueuesAreValid :
      (cond : ℕ) (q : List (WaitingGuestThread C)) (m : WaitQueues C)
      → is_empty q ≡ false
      → QueuesAreValid m
      → QueuesAreValid (insert cond q m)
  insert-QueuesAreValid cond q m full v = record {
    keys = insert-IsMap cond q m v.keys;
    waiting = λ j. rw (lookup-insert j cond q m) (ground (arith, v.waiting j));
  }

  pub remove-QueuesAreValid :
      (cond : ℕ) (q : List (WaitingGuestThread C)) (m : WaitQueues C)
      → QueuesAreValid m
      → QueuesAreValid (remove cond (insert cond q m))
  remove-QueuesAreValid cond q m v = record {
    keys = remove-IsMap cond _ (insert-IsMap cond q m v.keys);
    waiting = λ j. simp (lookup-remove, lookup-insert) (ground (arith, v.waiting j));
  }

  pub push_waiter-QueuesAreValid :
      (cond : ℕ) (w : WaitingGuestThread C) (m : WaitQueues C)
      → QueuesAreValid m
      → QueuesAreValid (push_waiter cond w m)
  unfolding push_waiter
  push_waiter-QueuesAreValid cond w m =
      insert-QueuesAreValid cond _ m (is_empty-push_back (get_or (lookup cond m) []) w)

  pub pop_waiter-QueuesAreValid :
      (cond : ℕ) (m : WaitQueues C) → QueuesAreValid m → QueuesAreValid (pop_waiter cond m)
  unfolding pop_waiter
  pop_waiter-QueuesAreValid cond m v = elim (Option-cases (lookup cond m)) [
    | inl e ↦ rw (e, pop_waiter) v
    | inr (q, e) ↦ elim (Bool-cases (is_empty (pop_back q))) [
      | inl t ↦ rw (e, pop_waiter, t) (remove-QueuesAreValid cond (pop_back q) m v)
      | inr f ↦ rw (e, pop_waiter, f) (insert-QueuesAreValid cond (pop_back q) m f v)
    ]
  ]

  pub store-QueuesAreValid :
      (cond : ℕ) (q : List (WaitingGuestThread C)) (m : WaitQueues C)
      → QueuesAreValid m
      → QueuesAreValid (store cond q m)
  store-QueuesAreValid cond [] m = remove-QueuesAreValid cond [] m
  store-QueuesAreValid cond (w ∷ q) m = insert-QueuesAreValid cond (w ∷ q) m refl

  pop_waiter_stored :
      (cond : ℕ) (w : WaitingGuestThread C) (q : List (WaitingGuestThread C)) (m : WaitQueues C)
      → (if is_empty q
          then remove cond (insert cond q (insert cond (q ++ (w ∷ [])) m))
          else insert cond q (insert cond (q ++ (w ∷ [])) m))
        ≡ pop_waiter cond (insert cond (q ++ (w ∷ [])) m)
  unfolding pop_waiter
  pop_waiter_stored cond w q m =
      ground (arith, lookup-insert_self cond (q ++ (w ∷ [])) m, pop_back-push_back q w)

  pop_waiter_present :
      (cond : ℕ) (w : WaitingGuestThread C) (q : List (WaitingGuestThread C)) (m : WaitQueues C)
      → QueuesAreValid m
      → lookup cond m ≡ some q
      → pop_waiter cond (insert cond (q ++ (w ∷ [])) m) ≡ m
  pop_waiter_present cond w [] m v e = absurd (v.waiting cond e)
  pop_waiter_present cond w (x ∷ q) m v e =
      sym (pop_waiter_stored cond w (x ∷ q) m)
      ∙ (insert-insert cond (x ∷ q) (x ∷ q ++ (w ∷ [])) m ∙ insert_present cond (x ∷ q) m e)

  -- A wait that is rolled back leaves the queues exactly as they were.
  pub pop_waiter-push_waiter :
      (cond : ℕ) (w : WaitingGuestThread C) (m : WaitQueues C)
      → QueuesAreValid m
      → pop_waiter cond (push_waiter cond w m) ≡ m
  unfolding push_waiter
  pop_waiter-push_waiter cond w m v = elim (Option-cases (lookup cond m)) [
    | inl e ↦ rw e (
        sym (pop_waiter_stored cond w [] m)
        ∙ rw (insert-insert cond [] (w ∷ []) m) (remove-insert cond [] m e))
    | inr (q, e) ↦ rw e (pop_waiter_present cond w q m v e)
  ]
