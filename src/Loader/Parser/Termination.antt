-- ===== src/Loader/Parser/Termination.antt =====
-- When the recursion of `parse` and `parse_fat` in crates/compatra-runtime/src/macos/loader/parser.rs
-- ends.
use compatra.Common.{
  ℕ, zero, suc, ◌+◌, ◌≤◌, ◌<◌, ◌≡◌, refl, sym, ap, ◌∙◌, ◌⊎◌, inl, inr, List, none, some, true,
  false, Bool-cases, Option-cases, length, length-take, length-drop, take, drop, take_of_length-le,
  ltb, leb, arith,
}
use compatra.Loader.Cursor.{
  LoaderError, Outcome, ok, err, panic, file_too_short, failed_to_parse_fat,
}
use compatra.Loader.Header.{MachOMagic, from_u32, is_cigam, word_at, FatArch}
use compatra.Loader.Parser.Binary.{MachoBinary}
use compatra.Loader.Parser.Fat.{is_fat, fat_architectures, preferred_arch}
use compatra.Loader.Parser.Parse.{parse32, parse64, parse_unknown, fat_slice, parse}

-- `x` is the file, or is reached from it by taking FAT slices.
pub data Nested : List ℕ → List ℕ → Type 0 where
  here : (bs : List ℕ) → Nested bs bs
  inside :
      (bs inner x : List ℕ)
      → is_fat bs ≡ true
      → fat_slice bs ≡ ok inner
      → Nested inner x
      → Nested bs x

-- A FAT file whose preferred slice is the whole file.
abbrev pub IsOwnSlice : List ℕ → Type 0
IsOwnSlice bs = (is_fat bs ≡ true) × (fat_slice bs ≡ ok bs)

Outcome-cases {ℓ} :
    {A : Type ℓ} (o : Outcome A)
    → ((a : A) × (o ≡ ok a)) ⊎ (((e : LoaderError) × (o ≡ err e)) ⊎ (o ≡ panic))
Outcome-cases (ok a) = inl (a, refl)
Outcome-cases (err e) = inr (inl (e, refl))
Outcome-cases panic = inr (inr refl)

MachOMagic-cases :
    (m : MachOMagic)
    → (m ≡ MachOMagic.fat)
      ⊎ ((m ≡ MachOMagic.magic32) ⊎ ((m ≡ MachOMagic.magic64) ⊎ (m ≡ MachOMagic.unknown)))
MachOMagic-cases MachOMagic.fat = inl refl
MachOMagic-cases MachOMagic.magic32 = inr (inl refl)
MachOMagic-cases MachOMagic.magic64 = inr (inr (inl refl))
MachOMagic-cases MachOMagic.unknown = inr (inr (inr refl))

-- Enough fuel is one more than the length, and more changes nothing.
abbrev Settles : List ℕ → Type 0
Settles bs = (r : Outcome MachoBinary) × ((fuel : ℕ) → length bs < fuel → parse fuel bs ≡ some r)

Settles-once :
    (bs : List ℕ) (r : Outcome MachoBinary)
    → ((fuel : ℕ) → parse (suc fuel) bs ≡ some r)
    → Settles bs
Settles-once bs r h = (
  r,
  λ fuel enough.
      elim fuel as (λ n. length bs < n → parse n bs ≡ some r) [
        | zero ↦ λ below. absurd (omega arith)
        | suc n ↦ λ below. h n
      ]
        enough,
)

is_fat_long :
    (bs : List ℕ)
    → is_fat bs ≡ true
    → (ltb (length bs) 4 ≡ false) × (from_u32 (word_at false 0 bs) ≡ MachOMagic.fat)
unfolding is_fat
is_fat_long bs h = elim (MachOMagic-cases (from_u32 (word_at false 0 bs))) [
  | inl e ↦ (ground arith, e)
  | inr (inl e) ↦ ground arith
  | inr (inr (inl e)) ↦ ground arith
  | inr (inr (inr e)) ↦ ground arith
]

parse_leaf : (bs : List ℕ) → is_fat bs ≡ false → Settles bs
unfolding is_fat parse
parse_leaf bs h = elim (Bool-cases (ltb (length bs) 4)) [
  | inl e ↦ Settles-once bs (err file_too_short) (λ fuel. rw (parse, e))
  | inr e ↦ elim (MachOMagic-cases (from_u32 (word_at false 0 bs))) [
    | inl m ↦ ground arith
    | inr (inl m) ↦ Settles-once bs (parse32 bs) (λ fuel. rw (parse, e, m))
    | inr (inr (inl m)) ↦
        Settles-once bs (parse64 bs (is_cigam (word_at false 0 bs))) (λ fuel. rw (parse, e, m))
    | inr (inr (inr m)) ↦
        Settles-once bs (parse_unknown bs (word_at false 0 bs)) (λ fuel. rw (parse, e, m))
  ]
]

parse_descends :
    (bs inner : List ℕ) (fuel : ℕ)
    → is_fat bs ≡ true
    → fat_slice bs ≡ ok inner
    → parse (suc fuel) bs ≡ parse fuel inner
unfolding parse
parse_descends bs inner fuel h k = rw (parse, (is_fat_long bs h).0, (is_fat_long bs h).1, k)

parse_stops_err :
    (bs : List ℕ) (e : LoaderError) → is_fat bs ≡ true → fat_slice bs ≡ err e → Settles bs
unfolding parse
parse_stops_err bs e h k =
    Settles-once bs (err e) (λ fuel. rw (parse, (is_fat_long bs h).0, (is_fat_long bs h).1, k))

parse_stops_panic : (bs : List ℕ) → is_fat bs ≡ true → fat_slice bs ≡ panic → Settles bs
unfolding parse
parse_stops_panic bs h k =
    Settles-once bs panic (λ fuel. rw (parse, (is_fat_long bs h).0, (is_fat_long bs h).1, k))

whole :
    (offset size : ℕ) (bs : List ℕ)
    → offset + size ≤ length bs
    → length bs ≤ size
    → take size (drop offset bs) ≡ bs
whole zero size bs fits all = take_of_length-le size bs all
whole (suc offset) size bs fits all = absurd (omega arith)

-- A slice is shorter than the file, or is the file.
chosen_shorter :
    (a : FatArch) (bs inner : List ℕ)
    → ok inner ≡ (elim (leb (a.offset + a.size) (length bs)) [
      | true ↦ ok (take a.size (drop a.offset bs))
      | false ↦ err failed_to_parse_fat
    ])
    → (inner ≡ bs) ⊎ (length inner < length bs)
chosen_shorter a bs inner h = elim (Bool-cases (leb (a.offset + a.size) (length bs))) [
  | inr e ↦ ground arith
  | inl e ↦ elim (Bool-cases (ltb a.size (length bs))) [
    | inl shorter ↦
        inr (ground (arith, length-take a.size (drop a.offset bs), length-drop a.offset bs))
    | inr all ↦ inl (ground (arith, whole a.offset a.size bs (ground arith) (ground arith)))
  ]
]

fat_slice_shorter :
    (bs inner : List ℕ) → fat_slice bs ≡ ok inner → (inner ≡ bs) ⊎ (length inner < length bs)
unfolding fat_slice
fat_slice_shorter bs inner h = elim (Outcome-cases (fat_architectures bs)) [
  | inr (inl (e, k)) ↦ ground arith
  | inr (inr k) ↦ ground arith
  | inl (archs, k) ↦ elim (Option-cases (preferred_arch archs)) [
    | inl n ↦ ground arith
    | inr (a, m) ↦ chosen_shorter a bs inner (sym h ∙ rw (k, m, fat_slice) refl)
  ]
]

own_slice_forever : (bs : List ℕ) → IsOwnSlice bs → (fuel : ℕ) → parse fuel bs ≡ none
own_slice_forever bs h zero = unfold parse in refl
own_slice_forever bs h (suc fuel) = parse_descends bs bs fuel h.0 h.1 ∙ own_slice_forever bs h fuel

forever_inside :
    (bs inner : List ℕ)
    → is_fat bs ≡ true
    → fat_slice bs ≡ ok inner
    → ((fuel : ℕ) → parse fuel inner ≡ none)
    → (fuel : ℕ) → parse fuel bs ≡ none
forever_inside bs inner h k never zero = unfold parse in refl
forever_inside bs inner h k never (suc fuel) = parse_descends bs inner fuel h k ∙ never fuel

Settles-inside :
    (bs inner : List ℕ)
    → is_fat bs ≡ true
    → fat_slice bs ≡ ok inner
    → length inner < length bs
    → Settles inner
    → Settles bs
Settles-inside bs inner h k shorter (r, settled) = (
  r,
  λ fuel enough.
      elim fuel as (λ n. length bs < n → parse n bs ≡ some r) [
        | zero ↦ λ below. absurd (omega arith)
        | suc n ↦ λ below. parse_descends bs inner n h k ∙ settled n (omega arith)
      ]
        enough,
)

-- It holds a FAT file that is its own slice, and no fuel is enough.
abbrev pub NeverReturns : List ℕ → Type 0
NeverReturns bs = ((x : List ℕ) × Nested bs x × IsOwnSlice x) × ((fuel : ℕ) → parse fuel bs ≡ none)

abbrev Outcomes : List ℕ → Type 0
Outcomes bs = Settles bs ⊎ NeverReturns bs

Outcomes-inside :
    (bs inner : List ℕ)
    → is_fat bs ≡ true
    → fat_slice bs ≡ ok inner
    → length inner < length bs
    → Outcomes inner
    → Outcomes bs
Outcomes-inside bs inner h k shorter (inl settled) =
    inl (Settles-inside bs inner h k shorter settled)
Outcomes-inside bs inner h k shorter (inr ((x, nested, own), never)) =
    inr ((x, Nested.inside bs inner x h k nested, own), forever_inside bs inner h k never)

own_slice-Outcomes : (bs : List ℕ) → IsOwnSlice bs → Outcomes bs
own_slice-Outcomes bs own = inr ((bs, Nested.here bs, own), own_slice_forever bs own)

fat-Outcomes :
    (bs : List ℕ)
    → is_fat bs ≡ true
    → ((inner : List ℕ) → length inner < length bs → Outcomes inner)
    → Outcomes bs
fat-Outcomes bs h recur = elim (Outcome-cases (fat_slice bs)) [
  | inr (inl (e, k)) ↦ inl (parse_stops_err bs e h k)
  | inr (inr k) ↦ inl (parse_stops_panic bs h k)
  | inl (inner, k) ↦ elim (fat_slice_shorter bs inner k) [
    | inl same ↦ own_slice-Outcomes bs (h, k ∙ ap ok same)
    | inr shorter ↦ Outcomes-inside bs inner h k shorter (recur inner shorter)
  ]
]

parse_within : (n : ℕ) (bs : List ℕ) → length bs ≤ n → Outcomes bs
parse_within zero bs bound = elim (Bool-cases (is_fat bs)) [
  | inr h ↦ inl (parse_leaf bs h)
  | inl h ↦ fat-Outcomes bs h (λ inner shorter. absurd (omega arith))
]
parse_within (suc n) bs bound = elim (Bool-cases (is_fat bs)) [
  | inr h ↦ inl (parse_leaf bs h)
  | inl h ↦ fat-Outcomes bs h (λ inner shorter. parse_within n inner (omega arith))
]

-- The same result for every fuel above the length.
abbrev pub Returns : List ℕ → Type 0
Returns bs = (r : Outcome MachoBinary) × ((extra : ℕ) → parse (length bs + suc extra) bs ≡ some r)

-- A parse ends on every file but those that hold a FAT file which is its own preferred slice: for the
-- others one call more than the file has bytes is enough and further calls do not change the result;
-- for these no number of calls is enough.
pub parse-Returns : (bs : List ℕ) → Returns bs ⊎ NeverReturns bs
parse-Returns bs = elim (parse_within (length bs) bs (omega arith)) [
  | inl (r, settled) ↦ inl (r, λ extra. settled (length bs + suc extra) (omega arith))
  | inr never ↦ inr never
]
