-- ===== src/Loader/Images/Addresses.antt =====
-- File addresses and runtime addresses of the images in
-- crates/compatra-runtime/src/macos/loader/guest_images.rs.
use compatra.Common.{
  ℕ, zero, suc, ◌+◌, ◌≤◌, ◌≡◌, refl, sym, subst, ◌∙◌, inl, inr, List, [], ◌∷◌, ◌++◌, none, some,
  true, length, get_elem?, Bool-cases, Option-cases, arith,
}
use compatra.Loader.Images.Slide.{IsSlid, to_runtime, to_file}
use compatra.Loader.Images.Registry.{
  GuestImageRecord, GuestImageAddress, GuestImageRegistry, wrapping_sub, contains_runtime_address,
  file_vmaddr_for_runtime_address, find_record, address_in, resolve_runtime_address,
  resolve_file_address,
}

-- A list of records whose indices count up from `k`.
abbrev pub AllFrom : ℕ → List GuestImageRecord → Type 0
AllFrom k [] = Unit {0}
AllFrom k (r ∷ records) = ((r.index ≡ k) × IsSlid r) × AllFrom (k + 1) records

pub AllFrom-snoc :
    (k : ℕ) (records : List GuestImageRecord) (r : GuestImageRecord)
    → AllFrom k records
    → r.index ≡ k + length records
    → IsSlid r
    → AllFrom k (records ++ (r ∷ []))
AllFrom-snoc k [] r h i s = ((omega arith, s), tt)
AllFrom-snoc k (x ∷ records) r h i s = (h.0, AllFrom-snoc (k + 1) records r h.1 (omega arith) s)

AllFrom-get :
    (k : ℕ) (records : List GuestImageRecord) (i : ℕ) (r : GuestImageRecord)
    → AllFrom k records
    → get_elem? records i ≡ some r
    → (r.index ≡ k + i) × IsSlid r
AllFrom-get k [] i r h e = cc
AllFrom-get k (x ∷ records) zero r h e =
    let same : x ≡ r = cc in
    subst (λ (y : GuestImageRecord). (y.index ≡ k + 0) × IsSlid y) same
      (omega (arith, h.0.0), h.0.1)
AllFrom-get k (x ∷ records) (suc i) r h e =
    let (index, slid) = AllFrom-get (k + 1) records i r h.1 e in (omega arith, slid)

pub find_record-get :
    (a : ℕ) (records : List GuestImageRecord) (r : GuestImageRecord)
    → find_record a records ≡ some r
    → (i : ℕ) × (get_elem? records i ≡ some r) × (contains_runtime_address r a ≡ true)
unfolding find_record
find_record-get a [] r h = cc
find_record-get a (x ∷ records) r h = elim (Bool-cases (contains_runtime_address x a)) [
  | inl e ↦
      let found : some x ≡ some r = rw (find_record, e) at h in
      let same : x ≡ r = cc in (0, found, subst (λ y. contains_runtime_address y a ≡ true) same e)
  | inr e ↦
      let (i, got, inside) = find_record-get a records r (rw (find_record, e) at h) in
      (suc i, got, inside)
]

find_record-some :
    (a : ℕ) (records : List GuestImageRecord) (i : ℕ) (r : GuestImageRecord)
    → get_elem? records i ≡ some r
    → contains_runtime_address r a ≡ true
    → (j : ℕ) × (s : GuestImageRecord) × (find_record a records ≡ some s)
      × (get_elem? records j ≡ some s)
      × (j ≤ i)
unfolding find_record
find_record-some a [] i r h c = cc
find_record-some a (x ∷ records) zero r h c =
    let same : x ≡ r = cc in
    let e : contains_runtime_address x a ≡ true = rw same c in
    (0, x, rw (find_record, e) refl, refl, omega arith)
find_record-some a (x ∷ records) (suc i) r h c = elim (Bool-cases (contains_runtime_address x a)) [
  | inl e ↦ (0, x, rw (find_record, e) refl, refl, omega arith)
  | inr e ↦
      let (j, s, found, got, le) = find_record-some a records i r h c in
      (suc j, s, rw (find_record, e) found, got, omega arith)
]

resolve_runtime_address-some :
    (g : GuestImageRegistry) (a : ℕ) (r : GuestImageRecord)
    → find_record a g.records ≡ some r
    → contains_runtime_address r a ≡ true
    → resolve_runtime_address g a ≡ some (address_in r a (wrapping_sub a r.slide))
unfolding resolve_runtime_address
resolve_runtime_address-some g a r found inside =
    rw (resolve_runtime_address, found, file_vmaddr_for_runtime_address, inside) refl

module _ (g : GuestImageRegistry) (records : AllFrom 0 g.records) where
  pub runtime_to_file :
      (a : ℕ) (x : GuestImageAddress)
      → resolve_runtime_address g a ≡ some x
      → resolve_file_address g x.image_index x.file_vmaddr ≡ some a
  unfolding resolve_runtime_address resolve_file_address
  runtime_to_file a x h = elim (Option-cases (find_record a g.records)) [
    | inl e ↦ let nothing : none ≡ some x = rw (resolve_runtime_address, e) at h in cc
    | inr (r, e) ↦
        let (i, got, inside) = find_record-get a g.records r e in
        let (index, slid) = AllFrom-get 0 g.records i r records got in
        let found : some (address_in r a (wrapping_sub a r.slide)) ≡ some x =
          sym (resolve_runtime_address-some g a r e inside) ∙ h in
        let same : address_in r a (wrapping_sub a r.slide) ≡ x = cc in
        subst
          (λ (y : GuestImageAddress). resolve_file_address g y.image_index y.file_vmaddr ≡ some a)
          same
          (let here : r.index ≡ i = omega (arith, index) in
            rw (resolve_file_address, here, got) (to_runtime r a slid inside))
  ]

  pub file_to_runtime :
      (i v a : ℕ)
      → resolve_file_address g i v ≡ some a
      → (x : GuestImageAddress) × (resolve_runtime_address g a ≡ some x) × (x.image_index ≤ i)
  unfolding resolve_file_address
  file_to_runtime i v a h = elim (Option-cases (get_elem? g.records i)) [
    | inl e ↦ let nothing : none ≡ some a = rw (resolve_file_address, e) at h in cc
    | inr (r, e) ↦
        let slid = (AllFrom-get 0 g.records i r records e).1 in
        let inside = to_file r v a slid (rw (resolve_file_address, e) at h) in
        let (j, s, found, got, le) = find_record-some a g.records i r e inside in
        let (k, got', within) = find_record-get a g.records s found in
        (
          address_in s a (wrapping_sub a s.slide),
          resolve_runtime_address-some g a s found within,
          omega (arith, (AllFrom-get 0 g.records j s records got).0),
        )
  ]
