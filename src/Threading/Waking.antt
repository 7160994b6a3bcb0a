-- ===== src/Threading/Waking.antt =====
-- What the wake functions of crates/compatra-threading/src/lib.rs do to the queues, the pending
-- threads and the mutex owners.
use compatra.Common.{
  ℕ, zero, suc, ◌≤◌, ◌≡◌, ◌≢◌, ◌⊎◌, inl, inr, refl, ap, ◌∙◌, sym, List, [], ◌∷◌, ◌++◌, map, reverse,
  Option, none, some, if◌then◌else◌, ◌==◌, length, take, drop, take_of_length-le, drop_of_length-le,
  u64_max, arith, nat_eq,
}
use compatra.Common.HashMap.{
  HashMap, beq_refl, lookup, insert, remove, lookup-insert, lookup-remove, lookup-insert_self,
}
use compatra.Threading.State.{WaitingGuestThread, CondWake, WaitQueues, GuestThreadRuntime}
use compatra.Threading.Wake.{
  wake_one_cond_waiter_for, wake_for_loop, wake_cond_waiters_for, broadcast_cond,
}
use mathlib.Core.List.{foldl, reverse-cons, append_assoc, append-nil}

reverse-cons-append {ℓ} :
    {A : Type ℓ} (x : A) (xs ys : List A) → reverse (x ∷ xs) ++ ys ≡ reverse xs ++ x ∷ ys
reverse-cons-append x xs ys =
    ap (λ zs. zs ++ ys) (reverse-cons x xs) ∙ append_assoc (reverse xs) (x ∷ []) ys

module _ {ℓ} {C : Type ℓ} where
  -- How a wait queue is stored: an empty one has no entry.
  abbrev pub as_queue : List (WaitingGuestThread C) → Option (List (WaitingGuestThread C))
  as_queue [] = none
  as_queue (w ∷ q) = some (w ∷ q)

  -- The mutex of a woken thread is handed to it.
  abbrev pub hand_over : HashMap ℕ ℕ → WaitingGuestThread C → HashMap ℕ ℕ
  hand_over owners w = insert w.mutex w.thread_id owners

  abbrev pub wake_of : ℕ → WaitingGuestThread C → ℕ → CondWake
  wake_of cond w n = record { cond = cond; thread_id = w.thread_id; remaining_waiters = n }

  -- The threads `ws` left the queue of `cond` in this order, and `qs` still wait there.
  pub record Woken (r : GuestThreadRuntime C) (cond : ℕ) (ws qs : List (WaitingGuestThread C))
      (r' : GuestThreadRuntime C) : Type ℓ where
    pub queue : lookup cond r'.cond_waiters ≡ as_queue qs
    pub others : (j : ℕ) → j ≢ cond → lookup j r'.cond_waiters ≡ lookup j r.cond_waiters
    pub rest : r' ≡ record r {
      pending_threads = reverse (map (λ w. w.pending) ws) ++ r.pending_threads;
      mutex_owners = foldl hand_over r.mutex_owners ws;
      cond_waiters = r'.cond_waiters;
    }

  -- The queues after `q` remains of the queue of `cond`.
  abbrev pub store : ℕ → List (WaitingGuestThread C) → WaitQueues C → WaitQueues C
  store cond [] m = remove cond (insert cond [] m)
  store cond (w ∷ q) m = insert cond (w ∷ q) m

  pub lookup-store :
      (j cond : ℕ) (q : List (WaitingGuestThread C)) (m : WaitQueues C)
      → lookup j (store cond q m) ≡ (if cond == j then as_queue q else lookup j m)
  lookup-store j cond [] m = simp (lookup-remove, lookup-insert) (ground arith)
  lookup-store j cond (w ∷ q) m = lookup-insert j cond (w ∷ q) m

  pub lookup-store_self :
      (cond : ℕ) (q : List (WaitingGuestThread C)) (m : WaitQueues C)
      → lookup cond (store cond q m) ≡ as_queue q
  lookup-store_self cond q m = rw (lookup-store cond cond q m, beq_refl cond)

  abbrev pub after_wake :
      GuestThreadRuntime C
      → ℕ
      → WaitingGuestThread C
      → List (WaitingGuestThread C)
      → GuestThreadRuntime C
  after_wake r cond w q = record r {
    mutex_owners = hand_over r.mutex_owners w;
    pending_threads = w.pending ∷ r.pending_threads;
    cond_waiters = store cond q r.cond_waiters;
  }

  -- The front waiter leaves its queue, owns its mutex and goes to the front of the pending threads.
  pub wake_one_front :
      (r : GuestThreadRuntime C) (cond : ℕ) (w : WaitingGuestThread C)
      (q : List (WaitingGuestThread C))
      → lookup cond r.cond_waiters ≡ some (w ∷ q)
      → wake_one_cond_waiter_for r cond ≡ (after_wake r cond w q, some (wake_of cond w (length q)))
  unfolding wake_one_cond_waiter_for
  wake_one_front r cond w [] h = ground (arith, lookup-insert_self cond [] r.cond_waiters)
  wake_one_front r cond w (v ∷ q) h = ground (arith, lookup-insert_self cond (v ∷ q) r.cond_waiters)

  pub wake_one_none :
      (r : GuestThreadRuntime C) (cond : ℕ)
      → lookup cond r.cond_waiters ≡ none
      → wake_one_cond_waiter_for r cond ≡ (r, none)
  unfolding wake_one_cond_waiter_for
  wake_one_none r cond h = ground arith

  -- Under a stored empty queue, too, nothing happens.
  pub wake_one_cases :
      (r : GuestThreadRuntime C) (cond : ℕ)
      → (wake_one_cond_waiter_for r cond ≡ (r, none))
        ⊎ ((w : WaitingGuestThread C) × (q : List (WaitingGuestThread C)) × (lookup cond
                r.cond_waiters
              ≡ some (w ∷ q))
            × (wake_one_cond_waiter_for r cond
                ≡ (after_wake r cond w q, some (wake_of cond w (length q)))))
  wake_one_cases r cond = go (lookup cond r.cond_waiters) refl
    where
      go :
          (o : Option (List (WaitingGuestThread C)))
          → lookup cond r.cond_waiters ≡ o
          → (wake_one_cond_waiter_for r cond ≡ (r, none))
            ⊎ ((w : WaitingGuestThread C) × (q : List (WaitingGuestThread C)) × (lookup cond
                    r.cond_waiters
                  ≡ some (w ∷ q))
                × (wake_one_cond_waiter_for r cond
                    ≡ (after_wake r cond w q, some (wake_of cond w (length q)))))
      go none h = inl (wake_one_none r cond h)
      go (some []) h = inl (unfold wake_one_cond_waiter_for in ground (arith, h))
      go (some (w ∷ q)) h = inr (w, q, h, wake_one_front r cond w q h)

  Woken-none :
      (r : GuestThreadRuntime C) (cond : ℕ) (qs : List (WaitingGuestThread C))
      → lookup cond r.cond_waiters ≡ as_queue qs
      → Woken r cond [] qs r
  Woken-none r cond qs h = record { queue = h; others = λ j _. refl; rest = refl }

  Woken-cons :
      (r : GuestThreadRuntime C) (cond : ℕ) (w : WaitingGuestThread C)
      (q ws qs : List (WaitingGuestThread C)) (r' : GuestThreadRuntime C)
      → Woken (after_wake r cond w q) cond ws qs r'
      → Woken r cond (w ∷ ws) qs r'
  Woken-cons r cond w q ws qs r' h = record {
    queue = h.queue;
    others = λ j d. h.others j d ∙ rw (lookup-store j cond q r.cond_waiters) (ground arith);
    rest =
        h.rest
        ∙ ap
            (λ ps. record r {
              pending_threads = ps;
              mutex_owners = foldl hand_over r.mutex_owners (w ∷ ws);
              cond_waiters = r'.cond_waiters;
            })
            (sym (reverse-cons-append w.pending (map (λ v. v.pending) ws) r.pending_threads));
  }

  -- The wakes of the first threads of a queue, with the count that each leaves behind.
  abbrev pub wakes_of : ℕ → ℕ → List (WaitingGuestThread C) → List CondWake
  wakes_of cond zero q = []
  wakes_of cond (suc n) [] = []
  wakes_of cond (suc n) (w ∷ q) = wake_of cond w (length q) ∷ wakes_of cond n q

  pub wake_for_loop_stop :
      (n : ℕ) (r : GuestThreadRuntime C) (cond : ℕ) (acc : List CondWake)
      {r' : GuestThreadRuntime C}
      → wake_one_cond_waiter_for r cond ≡ (r', none)
      → wake_for_loop (suc n) r cond acc ≡ (r', acc)
  unfolding wake_for_loop
  wake_for_loop_stop n r cond acc h = ground arith

  pub wake_for_loop_step :
      (n : ℕ) (r : GuestThreadRuntime C) (cond : ℕ) (acc : List CondWake)
      {r' : GuestThreadRuntime C} {w : CondWake}
      → wake_one_cond_waiter_for r cond ≡ (r', some w)
      → wake_for_loop (suc n) r cond acc ≡ wake_for_loop n r' cond (acc ++ (w ∷ []))
  unfolding wake_for_loop
  wake_for_loop_step n r cond acc h = ground arith

  wake_for_loop-Woken :
      (n : ℕ) (r : GuestThreadRuntime C) (cond : ℕ) (q : List (WaitingGuestThread C))
      (acc : List CondWake)
      → lookup cond r.cond_waiters ≡ as_queue q
      → Woken r cond (take n q) (drop n q) (wake_for_loop n r cond acc).0
        × ((wake_for_loop n r cond acc).1 ≡ acc ++ wakes_of cond n q)
  wake_for_loop-Woken zero r cond q acc h =
      unfold wake_for_loop in (Woken-none r cond q h, sym (append-nil acc))
  wake_for_loop-Woken (suc n) r cond [] acc h =
      rw (wake_for_loop_stop n r cond acc (wake_one_none r cond h))
        (Woken-none r cond [] h, sym (append-nil acc))
  wake_for_loop-Woken (suc n) r cond (w ∷ q) acc h =
      let (woken, wakes) =
        wake_for_loop-Woken n (after_wake r cond w q) cond q
          (acc ++ (wake_of cond w (length q) ∷ [])) (lookup-store_self cond q r.cond_waiters) in
      rw (wake_for_loop_step n r cond acc (wake_one_front r cond w q h))
        (Woken-cons r cond w q (take n q) (drop n q) _ woken, wakes ∙ append_assoc acc _ _)

  -- Where no empty queue is stored for the condition, at most `limit` of its waiters wake, in the order
  -- in which they began to wait. They go in front of the pending threads, the last woken first; each is handed its mutex, so that of two
  -- waiters for one mutex the later owns it; the rest still wait in their order, other conditions
  -- and the rest of the runtime are as they were.
  pub wake_cond_waiters_for-Woken :
      (r : GuestThreadRuntime C) (cond limit : ℕ) (q : List (WaitingGuestThread C))
      → lookup cond r.cond_waiters ≡ as_queue q
      → Woken r cond (take limit q) (drop limit q) (wake_cond_waiters_for r cond limit).0
        × ((wake_cond_waiters_for r cond limit).1 ≡ wakes_of cond limit q)
  unfolding wake_cond_waiters_for
  wake_cond_waiters_for-Woken r cond limit q h = wake_for_loop-Woken limit r cond q [] h

  wakes_of_all :
      (n cond : ℕ) (q : List (WaitingGuestThread C))
      → length q ≤ n
      → wakes_of cond n q ≡ wakes_of cond (length q) q
  wakes_of_all zero cond [] h = refl
  wakes_of_all zero cond (w ∷ q) h = absurd (omega arith)
  wakes_of_all (suc n) cond [] h = refl
  wakes_of_all (suc n) cond (w ∷ q) h =
      ap (◌∷◌ (wake_of cond w (length q))) (wakes_of_all n cond q (omega arith))

  wake_all-Woken :
      (limit : ℕ) (r : GuestThreadRuntime C) (cond : ℕ) (q : List (WaitingGuestThread C))
      → lookup cond r.cond_waiters ≡ as_queue q
      → length q ≤ limit
      → Woken r cond q [] (wake_cond_waiters_for r cond limit).0
        × ((wake_cond_waiters_for r cond limit).1 ≡ wakes_of cond (length q) q)
  wake_all-Woken limit r cond q h fits =
      let (woken, wakes) = wake_cond_waiters_for-Woken r cond limit q h in
      (
        rw (take_of_length-le limit q fits, drop_of_length-le limit q fits) at woken,
        wakes ∙ wakes_of_all limit cond q fits,
      )

  -- Where no empty queue is stored for the condition, a broadcast wakes every thread that waits for it,
  -- at most 2 ^ 64 - 1, and leaves no queue behind for it.
  pub broadcast_cond-Woken :
      (r : GuestThreadRuntime C) (cond : ℕ) (q : List (WaitingGuestThread C))
      → lookup cond r.cond_waiters ≡ as_queue q
      → length q ≤ u64_max
      → Woken r cond q [] (broadcast_cond r cond).0
        × ((broadcast_cond r cond).1 ≡ wakes_of cond (length q) q)
  unfolding broadcast_cond
  broadcast_cond-Woken r cond q h fits = wake_all-Woken u64_max r cond q h fits
