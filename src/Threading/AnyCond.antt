-- ===== src/Threading/AnyCond.antt =====
-- `wake_one_cond_waiter` and `wake_cond_waiters` of crates/compatra-threading/src/lib.rs search all
-- conditions in the order in which a HashMap is iterated, which the standard library leaves open.
use compatra.Common.{
  ℕ, zero, suc, ◌+◌, min, ◌≡◌, ◌⊎◌, inl, inr, refl, List, [], ◌∷◌, ◌++◌, none, some, length,
  length-append, Option-cases, arith, nat_eq,
}
use compatra.Common.HashMap.{
  IsMap, lookup, insert, beq_refl, total, total-insert, total-remove, insert-IsMap,
  lookup-insert_self,
}
use compatra.Threading.State.{WaitingGuestThread, WaitQueues, GuestThreadRuntime}
use compatra.Threading.Wake.{find_waiting, wake_one_cond_waiter, wake_loop, wake_cond_waiters}
use compatra.Threading.Queues.{QueuesAreValid, store-QueuesAreValid}
use compatra.Threading.Waking.{store, after_wake, wake_one_front}

module _ {ℓ} {C : Type ℓ} where
  abbrev pub Listed :
      ℕ → List (WaitingGuestThread C) → List (ℕ × List (WaitingGuestThread C)) → Type ℓ
  Listed k q [] = Unit {ℓ} → ⊥
  Listed k q ((j, p) ∷ l) = ((k ≡ j) × (q ≡ p)) ⊎ Listed k q l

  -- An iteration meets the entries of the map and nothing else.
  pub record Iterates (iter : WaitQueues C → List (ℕ × List (WaitingGuestThread C))) : Type ℓ where
    pub complete :
        (m : WaitQueues C) (k : ℕ) (q : List (WaitingGuestThread C))
        → IsMap m
        → lookup k m ≡ some q
        → Listed k q (iter m)
    pub sound :
        (m : WaitQueues C) (k : ℕ) (q : List (WaitingGuestThread C))
        → IsMap m
        → Listed k q (iter m)
        → lookup k m ≡ some q

  find_waiting-none :
      (l : List (ℕ × List (WaitingGuestThread C))) (k : ℕ) (q : List (WaitingGuestThread C))
      → find_waiting l ≡ none
      → Listed k q l
      → q ≡ []
  unfolding find_waiting
  find_waiting-none [] k q h i = absurd (i tt)
  find_waiting-none ((j, []) ∷ l) k q h (inl e) = e.1
  find_waiting-none ((j, []) ∷ l) k q h (inr i) = find_waiting-none l k q h i
  find_waiting-none ((j, w ∷ p) ∷ l) k q h i = cc

  find_waiting-some :
      (l : List (ℕ × List (WaitingGuestThread C))) (k : ℕ)
      → find_waiting l ≡ some k
      → (w : WaitingGuestThread C) × (q : List (WaitingGuestThread C)) × Listed k (w ∷ q) l
  unfolding find_waiting
  find_waiting-some [] k h = cc
  find_waiting-some ((j, []) ∷ l) k h = let (w, q, i) = find_waiting-some l k h in (w, q, inr i)
  find_waiting-some ((j, w ∷ p) ∷ l) k h = (w, p, inl (cc, refl))

  empty_map :
      (m : WaitQueues C)
      → ((k : ℕ) (q : List (WaitingGuestThread C)) → lookup k m ≡ some q → ⊥)
      → total length m ≡ 0
  unfolding total lookup
  empty_map [] h = refl
  empty_map ((k, q) ∷ m) h = absurd (h k q (rw (beq_refl k)))

  total-store :
      (cond : ℕ) (w : WaitingGuestThread C) (q : List (WaitingGuestThread C)) (m : WaitQueues C)
      → QueuesAreValid m
      → lookup cond m ≡ some (w ∷ q)
      → total length (store cond q m) + 1 ≡ total length m
  total-store cond w [] m v e = ground (
    arith,
    total-insert length cond [] m,
    total-remove length cond (insert cond [] m) (insert-IsMap cond [] m v.keys),
    lookup-insert_self cond [] m,
  )
  total-store cond w (x ∷ q) m v e = ground (arith, total-insert length cond (x ∷ q) m)

  -- One round: nobody waits, or the longest waiter of some condition wakes.
  wake_any_cases :
      (iter : WaitQueues C → List (ℕ × List (WaitingGuestThread C))) (r : GuestThreadRuntime C)
      → Iterates iter
      → QueuesAreValid r.cond_waiters
      → ((total length r.cond_waiters ≡ 0) × (wake_one_cond_waiter iter r ≡ (r, none)))
        ⊎ ((cond : ℕ) × (w : WaitingGuestThread C) × (q : List (WaitingGuestThread C)) × (lookup
                cond r.cond_waiters
              ≡ some (w ∷ q))
            × (wake_one_cond_waiter iter r ≡ (after_wake r cond w q, some (cond, w.thread_id))))
  unfolding wake_one_cond_waiter
  wake_any_cases iter r i v = elim (Option-cases (find_waiting (iter r.cond_waiters))) [
    | inl e ↦ inl (
      empty_map r.cond_waiters (λ k q h.
          v.waiting k
            (rw (← find_waiting-none _ k q e (i.complete r.cond_waiters k q v.keys h)) h)),
      ground arith,
    )
    | inr (cond, e) ↦
        let (w, q, l) = find_waiting-some _ cond e in
        let h = i.sound r.cond_waiters cond (w ∷ q) v.keys l in
        inr (cond, w, q, h, ground (arith, wake_one_front r cond w q h))
  ]

  wake_loop_stop :
      (iter : ℕ → WaitQueues C → List (ℕ × List (WaitingGuestThread C))) (n : ℕ)
      (r : GuestThreadRuntime C) (acc : List (ℕ × ℕ)) {r' : GuestThreadRuntime C}
      → wake_one_cond_waiter (iter n) r ≡ (r', none)
      → wake_loop iter (suc n) r acc ≡ (r', acc)
  unfolding wake_loop
  wake_loop_stop iter n r acc h = ground arith

  wake_loop_step :
      (iter : ℕ → WaitQueues C → List (ℕ × List (WaitingGuestThread C))) (n : ℕ)
      (r : GuestThreadRuntime C) (acc : List (ℕ × ℕ)) {r' : GuestThreadRuntime C} {w : ℕ × ℕ}
      → wake_one_cond_waiter (iter n) r ≡ (r', some w)
      → wake_loop iter (suc n) r acc ≡ wake_loop iter n r' (acc ++ (w ∷ []))
  unfolding wake_loop
  wake_loop_step iter n r acc h = ground arith

  wake_loop-length :
      (iter : ℕ → WaitQueues C → List (ℕ × List (WaitingGuestThread C))) (n : ℕ)
      (r : GuestThreadRuntime C) (acc : List (ℕ × ℕ))
      → ((i : ℕ) → Iterates (iter i))
      → QueuesAreValid r.cond_waiters
      → length (wake_loop iter n r acc).1 ≡ length acc + min n (total length r.cond_waiters)
  wake_loop-length iter zero r acc i v = unfold wake_loop in omega arith
  wake_loop-length iter (suc n) r acc i v = elim (wake_any_cases (iter n) r (i n) v) [
    | inl (z, e) ↦ rw (wake_loop_stop iter n r acc e) (omega arith)
    | inr (cond, w, q, h, e) ↦ rw (wake_loop_step iter n r acc e) (
        omega (
          arith,
          wake_loop-length iter n (after_wake r cond w q) (acc ++ ((cond, w.thread_id) ∷ [])) i
              (store-QueuesAreValid cond q r.cond_waiters v),
          length-append acc ((cond, w.thread_id) ∷ []),
          total-store cond w q r.cond_waiters v h,
        ))
  ]

  -- Where each condition has at most one wait queue and no wait queue is stored empty, waking up to
  -- `limit` threads wakes exactly the smaller of `limit` and the number of threads that wait for any
  -- condition, whatever the iteration order is in each round.
  pub wake_cond_waiters-length :
      (iter : ℕ → WaitQueues C → List (ℕ × List (WaitingGuestThread C))) (r : GuestThreadRuntime C)
      (limit : ℕ)
      → ((i : ℕ) → Iterates (iter i))
      → QueuesAreValid r.cond_waiters
      → length (wake_cond_waiters iter r limit).1 ≡ min limit (total length r.cond_waiters)
  unfolding wake_cond_waiters
  wake_cond_waiters-length iter r limit i v = omega (arith, wake_loop-length iter limit r [] i v)
