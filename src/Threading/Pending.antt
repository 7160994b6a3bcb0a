-- ===== src/Threading/Pending.antt =====
-- `remove_pending_by_id` of crates/compatra-threading/src/lib.rs: the first thread with the id leaves the
-- queue of pending threads.
use compatra.Common.{
  ℕ, suc, ◌≡◌, ◌≢◌, ◌⊎◌, refl, ap, List, [], ◌∷◌, ◌++◌, none, some, ◌==◌, ==_iff, get_elem?,
  Bool-cases, inl, inr, arith,
}
use compatra.Threading.State.{PendingGuestThread, GuestThreadRuntime}
use compatra.Threading.Ops.{position, remove_at, remove_pending_by_id}

module _ {ℓ} {C : Type ℓ} where
  abbrev pub HasThread : ℕ → List (PendingGuestThread C) → Type 0
  HasThread t [] = ⊥
  HasThread t (p ∷ ps) = (p.thread_id ≡ t) ⊎ HasThread t ps

  -- `thread` is the first with the id, and stands at `index`.
  pub record IsFirst (t : ℕ) (ps : List (PendingGuestThread C)) : Type ℓ where
    pub before : List (PendingGuestThread C)
    pub thread : PendingGuestThread C
    pub after : List (PendingGuestThread C)
    pub index : ℕ
    pub split : ps ≡ before ++ (thread ∷ after)
    pub id : thread.thread_id ≡ t
    pub first : ¬ HasThread t before
    pub found : position t ps ≡ some index
    pub at : get_elem? ps index ≡ some thread
    pub rest : remove_at ps index ≡ before ++ after

  IsFirst-here :
      (t : ℕ) (p : PendingGuestThread C) (ps : List (PendingGuestThread C))
      → p.thread_id ≡ t
      → IsFirst t (p ∷ ps)
  unfolding position remove_at
  IsFirst-here t p ps e = record {
    before = [];
    thread = p;
    after = ps;
    index = 0;
    split = refl;
    id = e;
    first = λ h. h;
    found = ground arith;
    at = refl;
    rest = refl;
  }

  IsFirst-there :
      (t : ℕ) (p : PendingGuestThread C) (ps : List (PendingGuestThread C))
      → p.thread_id ≢ t
      → IsFirst t ps
      → IsFirst t (p ∷ ps)
  unfolding position remove_at
  IsFirst-there t p ps d f = record {
    before = p ∷ f.before;
    thread = f.thread;
    after = f.after;
    index = suc f.index;
    split = ap (◌∷◌ p) f.split;
    id = f.id;
    first = λ h. elim h [ inl e ↦ d e | inr k ↦ f.first k ];
    found = ground (arith, f.found);
    at = f.at;
    rest = ap (◌∷◌ p) f.rest;
  }

  pub position_cases :
      (t : ℕ) (ps : List (PendingGuestThread C))
      → ((¬ HasThread t ps) × (position t ps ≡ none)) ⊎ (HasThread t ps × IsFirst t ps)
  position_cases t [] = inl (λ h. h, unfold position in refl)
  position_cases t (p ∷ ps) = elim (Bool-cases (p.thread_id == t)) [
    | inl b ↦ let e = (==_iff p.thread_id t).0 b in inr (inl e, IsFirst-here t p ps e)
    | inr b ↦
        let d : p.thread_id ≢ t = (λ e. ground arith) in
        elim (position_cases t ps) [
          | inl (h, k) ↦
              inl (λ g. elim g [ inl e ↦ d e | inr i ↦ h i ], unfold position in ground arith)
          | inr (h, f) ↦ inr (inr h, IsFirst-there t p ps d f)
        ]
  ]

  pub remove_missing :
      (r : GuestThreadRuntime C) (t : ℕ)
      → position t r.pending_threads ≡ none
      → remove_pending_by_id r t ≡ (r, none)
  unfolding remove_pending_by_id
  remove_missing r t e = ground arith

  pub remove_first :
      (r : GuestThreadRuntime C) (t : ℕ) (f : IsFirst t r.pending_threads)
      → remove_pending_by_id r t
        ≡ (record r { pending_threads = f.before ++ f.after }, some f.thread)
  unfolding remove_pending_by_id
  remove_first r t f = ground (arith, f.found, f.at, f.rest)

  -- Removal by id takes the first pending thread with that id and keeps the order of the others; where
  -- there is none, nothing changes.
  pub remove_pending_by_id_lem :
      (r : GuestThreadRuntime C) (t : ℕ)
      → ((¬ HasThread t r.pending_threads) × (remove_pending_by_id r t ≡ (r, none)))
        ⊎ ((before : List (PendingGuestThread C)) × (p : PendingGuestThread C) × (after : List
              (PendingGuestThread C))
            × (r.pending_threads ≡ before ++ (p ∷ after))
            × (p.thread_id ≡ t)
            × (¬ HasThread t before)
            × (remove_pending_by_id r t ≡ (record r { pending_threads = before ++ after }, some p)))
  remove_pending_by_id_lem r t = elim (position_cases t r.pending_threads) [
    | inl (h, e) ↦ inl (h, remove_missing r t e)
    | inr (_, f) ↦ inr (f.before, f.thread, f.after, f.split, f.id, f.first, remove_first r t f)
  ]
