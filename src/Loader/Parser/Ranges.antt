-- ===== src/Loader/Parser/Ranges.antt =====
-- The file ranges of segments, and when `build_binary` of
-- crates/compatra-runtime/src/macos/loader/parser.rs stores one.
use compatra.Common.{
  ℕ, ◌+◌, ◌%◌, ◌^◌, ◌<◌, ◌≡◌, refl, ◌⊎◌, inl, inr, List, Option, none, some, Bool, true, false,
  ◌&&◌, ltb, leb, length, take, drop, arith, Bool-cases, if◌then◌else◌, bytes_eq, bytes_beq,
}
use compatra.Common.HashMap.{lookup, insert, lookup-insert}
use compatra.Loader.Cursor.{ok, panic}
use compatra.Loader.Strings.{string_at}
use compatra.Loader.Command.Types.{LoadCommand}
use compatra.Loader.Parser.Binary.{Build, store_contents}

-- The file range of a command, with the width of its fields.
pub record Range : Type 0 where
  pub bits : ℕ
  pub name : List ℕ
  pub fileoff : ℕ
  pub filesize : ℕ

abbrev pub range : ℕ → List ℕ → ℕ → ℕ → Range
range bits name fileoff filesize = record {
  bits = bits;
  name = name;
  fileoff = fileoff;
  filesize = filesize;
}

-- The range of a segment, of 64 or 32 bits.
abbrev pub range_of : LoadCommand → Option Range
range_of (LoadCommand.segment64 s) = some (range 64 (string_at s.segname) s.fileoff s.filesize)
range_of (LoadCommand.segment s) = some (range 32 (string_at s.segname) s.fileoff s.filesize)
range_of _ = none

-- A range that starts in the file and whose end overflows its fields.
abbrev pub overflows : List ℕ → Range → Bool
overflows bs r =
    (ltb 0 r.filesize && ltb r.fileoff (length bs % 2 ^ r.bits))
    && leb (2 ^ r.bits) (r.fileoff + r.filesize)

-- A range with bytes, all of them in the file.
abbrev pub is_present : List ℕ → Range → Bool
is_present bs r =
    (ltb 0 r.filesize && ltb r.fileoff (length bs % 2 ^ r.bits))
    && leb (r.fileoff + r.filesize) (length bs)

-- Both fields have their width.
abbrev pub FitsFields : Range → Type 0
FitsFields r = (r.fileoff < 2 ^ r.bits) × (r.filesize < 2 ^ r.bits)

store_overflow64 :
    (bs name : List ℕ) (fileoff filesize : ℕ) (b : Build)
    → FitsFields (range 64 name fileoff filesize)
    → overflows bs (range 64 name fileoff filesize) ≡ true
    → store_contents 64 bs name fileoff filesize b ≡ panic
unfolding store_contents
store_overflow64 bs name fileoff filesize b h o = ground arith

store_absent64 :
    (bs name : List ℕ) (fileoff filesize : ℕ) (b : Build)
    → FitsFields (range 64 name fileoff filesize)
    → overflows bs (range 64 name fileoff filesize) ≡ false
    → is_present bs (range 64 name fileoff filesize) ≡ false
    → store_contents 64 bs name fileoff filesize b ≡ ok b
unfolding store_contents
store_absent64 bs name fileoff filesize b h o p = ground arith

store_present64 :
    (bs name : List ℕ) (fileoff filesize : ℕ) (b : Build)
    → FitsFields (range 64 name fileoff filesize)
    → overflows bs (range 64 name fileoff filesize) ≡ false
    → is_present bs (range 64 name fileoff filesize) ≡ true
    → store_contents 64 bs name fileoff filesize b
      ≡ ok (record b {
        segments_data = insert name (take filesize (drop fileoff bs)) b.segments_data;
      })
unfolding store_contents
store_present64 bs name fileoff filesize b h o p = ground arith

store_overflow32 :
    (bs name : List ℕ) (fileoff filesize : ℕ) (b : Build)
    → FitsFields (range 32 name fileoff filesize)
    → overflows bs (range 32 name fileoff filesize) ≡ true
    → store_contents 32 bs name fileoff filesize b ≡ panic
unfolding store_contents
store_overflow32 bs name fileoff filesize b h o = ground arith

store_absent32 :
    (bs name : List ℕ) (fileoff filesize : ℕ) (b : Build)
    → FitsFields (range 32 name fileoff filesize)
    → overflows bs (range 32 name fileoff filesize) ≡ false
    → is_present bs (range 32 name fileoff filesize) ≡ false
    → store_contents 32 bs name fileoff filesize b ≡ ok b
unfolding store_contents
store_absent32 bs name fileoff filesize b h o p = ground arith

store_present32 :
    (bs name : List ℕ) (fileoff filesize : ℕ) (b : Build)
    → FitsFields (range 32 name fileoff filesize)
    → overflows bs (range 32 name fileoff filesize) ≡ false
    → is_present bs (range 32 name fileoff filesize) ≡ true
    → store_contents 32 bs name fileoff filesize b
      ≡ ok (record b {
        segments_data = insert name (take filesize (drop fileoff bs)) b.segments_data;
      })
unfolding store_contents
store_present32 bs name fileoff filesize b h o p = ground arith

abbrev pub store : List ℕ → Option Range → Build → Build
store bs none b = b
store bs (some r) b =
    if is_present bs r
    then record b {
      segments_data = insert r.name (take r.filesize (drop r.fileoff bs)) b.segments_data;
    }
    else b

abbrev pub range_overflows : List ℕ → Option Range → Bool
range_overflows bs none = false
range_overflows bs (some r) = overflows bs r

abbrev pub RangeFits : Option Range → Type 0
RangeFits none = Unit
RangeFits (some r) = FitsFields r

-- The bytes kept under a name after a command: those of its range, when it has the name and lies in the
-- file.
abbrev pub contents_after : List ℕ → List ℕ → Option Range → Option (List ℕ) → Option (List ℕ)
contents_after bs name none old = old
contents_after bs name (some r) old =
    if is_present bs r && bytes_beq r.name name
    then some (take r.filesize (drop r.fileoff bs))
    else old

-- Storing a range panics where it overflows, and stores it where it lies in the file otherwise.
abbrev pub Stored : ℕ → List ℕ → List ℕ → ℕ → ℕ → Build → Type 0
Stored w bs name fileoff filesize b =
    ((overflows bs (range w name fileoff filesize) ≡ true)
      × (store_contents w bs name fileoff filesize b ≡ panic))
    ⊎ ((overflows bs (range w name fileoff filesize) ≡ false)
        × (store_contents w bs name fileoff filesize b
            ≡ ok (store bs (some (range w name fileoff filesize)) b)))

pub store64-Stored :
    (bs name : List ℕ) (fileoff filesize : ℕ) (b : Build)
    → FitsFields (range 64 name fileoff filesize)
    → Stored 64 bs name fileoff filesize b
store64-Stored bs name fileoff filesize b h =
    elim (Bool-cases (overflows bs (range 64 name fileoff filesize))) [
      | inl o ↦ inl (o, store_overflow64 bs name fileoff filesize b h o)
      | inr o ↦ elim (Bool-cases (is_present bs (range 64 name fileoff filesize))) [
        | inl p ↦ inr (o, rw p (store_present64 bs name fileoff filesize b h o p))
        | inr p ↦ inr (o, rw p (store_absent64 bs name fileoff filesize b h o p))
      ]
    ]

pub store32-Stored :
    (bs name : List ℕ) (fileoff filesize : ℕ) (b : Build)
    → FitsFields (range 32 name fileoff filesize)
    → Stored 32 bs name fileoff filesize b
store32-Stored bs name fileoff filesize b h =
    elim (Bool-cases (overflows bs (range 32 name fileoff filesize))) [
      | inl o ↦ inl (o, store_overflow32 bs name fileoff filesize b h o)
      | inr o ↦ elim (Bool-cases (is_present bs (range 32 name fileoff filesize))) [
        | inl p ↦ inr (o, rw p (store_present32 bs name fileoff filesize b h o p))
        | inr p ↦ inr (o, rw p (store_absent32 bs name fileoff filesize b h o p))
      ]
    ]

pub lookup-store :
    (bs name : List ℕ) (r : Option Range) (b : Build)
    → lookup name (store bs r b).segments_data
      ≡ contents_after bs name r (lookup name b.segments_data)
lookup-store bs name none b = refl
lookup-store bs name (some r) b = elim (Bool-cases (is_present bs r)) [
  | inl e ↦ rw e (lookup-insert name r.name (take r.filesize (drop r.fileoff bs)) b.segments_data)
  | inr e ↦ rw e refl
]
