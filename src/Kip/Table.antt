-- ===== src/Kip/Table.antt =====
-- A table that `cust_write_table` has written is found and read back, and nothing else of the file
-- changes.
use rcu.Base.{
  ℕ, zero, suc, ◌+◌, ◌≤◌, ◌<◌, ◌≡◌, ◌≢◌, refl, sym, Bool, true, false, Option, none, some, List, [],
  ◌∷◌, ◌++◌, inl, inr, arith, ltb, ltb-false, length, take, drop, if◌then◌else◌, Option-cases,
  length-append, length-drop, length-take, take-append_length, drop-append_take,
}
use rcu.Kip.{
  is_magic, here_or_later, scan, table_size, read_at, cust_read_table, overwrite, write_at,
  cust_write_table,
}
use rcu.Kip.Find.{cust_find_offset_lem}

here_or_later-some :
    (b : Bool) (o : Option ℕ) (i : ℕ)
    → here_or_later b o ≡ some (suc i)
    → (b ≡ false) × (o ≡ some i)
here_or_later-some true o i h = ground arith
here_or_later-some false none i h = cc
here_or_later-some false (some j) i h = (refl, ground arith)

scan-lt : (xs : List ℕ) (i : ℕ) → scan xs ≡ some i → i < length xs
unfolding scan
scan-lt [] i h = cc
scan-lt (x ∷ xs) zero h = omega arith
scan-lt (x ∷ xs) (suc i) h =
    omega (arith, scan-lt xs i (here_or_later-some (is_magic (x ∷ xs)) (scan xs) i h).1)

-- The magic cannot begin at one of the three bytes before the magic.
is_magic-before :
    (i x : ℕ) (xs t : List ℕ)
    → i ≤ length xs
    → is_magic t ≡ true
    → is_magic (x ∷ xs) ≡ false
    → is_magic (x ∷ (take i xs ++ t)) ≡ false
unfolding is_magic
is_magic-before zero x xs (p ∷ q ∷ r ∷ s ∷ t) le m h = ground arith
is_magic-before (suc zero) x (a ∷ xs) (p ∷ q ∷ r ∷ s ∷ t) le m h = ground arith
is_magic-before (suc (suc zero)) x (a ∷ b ∷ xs) (p ∷ q ∷ r ∷ s ∷ t) le m h = ground arith
is_magic-before (suc (suc (suc i))) x (a ∷ b ∷ c ∷ xs) t le m h = h
is_magic-before i x xs t le m h = ground arith

scan-here : (t : List ℕ) → is_magic t ≡ true → scan t ≡ some 0
unfolding scan is_magic
scan-here (p ∷ q ∷ r ∷ s ∷ t) m = rw m refl
scan-here t m = cc

scan-overwrite :
    (i : ℕ) (xs t : List ℕ) → scan xs ≡ some i → is_magic t ≡ true → scan (take i xs ++ t) ≡ some i
unfolding scan
scan-overwrite zero xs t h m = scan-here t m
scan-overwrite (suc i) [] t h m = cc
scan-overwrite (suc i) (x ∷ xs) t h m =
    let (here, later) = here_or_later-some (is_magic (x ∷ xs)) (scan xs) i h in
    let le : i ≤ length xs = omega (arith, scan-lt xs i later) in
    rw (is_magic-before i x xs t le m here, scan-overwrite i xs t later m) refl

-- The file after a write that `cust_write_table` reports as done.
module _ (table : List ℕ) (fits : length table ≡ table_size) (off : ℕ) (file : List ℕ) where
  length-overwrite :
      off + table_size ≤ length file → length (overwrite off table file) ≡ length file
  length-overwrite h = omega (
    arith,
    length-append (take off file) (table ++ drop (off + length table) file),
    length-append table (drop (off + length table) file),
    length-drop (off + length table) file,
    length-take off file (omega arith),
  )

  read-overwrite : off ≤ length file → take table_size (drop off (overwrite off table file)) ≡ table
  read-overwrite h =
      rw (drop-append_take off file (table ++ drop (off + length table) file) h, sym fits)
        (take-append_length table (drop (off + length table) file))

write_at-some :
    (table file new : List ℕ) (off : ℕ)
    → write_at table file (some off) ≡ some new
    → (off + table_size ≤ length file) × (new ≡ overwrite off table file)
unfolding write_at
write_at-some table file new off h = ground arith

write_at-none : (table file new : List ℕ) → write_at table file none ≢ some new
unfolding write_at
write_at-none table file new h = cc

is_magic-append : (t u : List ℕ) → is_magic t ≡ true → is_magic (t ++ u) ≡ true
unfolding is_magic
is_magic-append (a ∷ b ∷ c ∷ d ∷ t) u m = m
is_magic-append t u m = cc

not_short : (n k : ℕ) → k ≤ n → ltb n k ≡ false
not_short n k h = ground arith

read_at-overwrite :
    (table file : List ℕ) (off : ℕ)
    → length table ≡ table_size
    → is_magic table ≡ true
    → off + table_size ≤ length file
    → read_at (overwrite off table file) (some off) ≡ some table
unfolding read_at
read_at-overwrite table file off fits m h =
    rw
      (
        length-overwrite table fits off file h,
        not_short (length file) (off + table_size) h,
        read-overwrite table fits off file (omega arith),
        m,
      )
      refl

-- `cust_read_table` reads back the table that `cust_write_table` has written, if it begins with the
-- magic; the file keeps its length.
pub cust_read_table-write :
    (table file new : List ℕ)
    → length table ≡ table_size
    → is_magic table ≡ true
    → cust_write_table table (some file) ≡ some new
    → (cust_read_table (some new) ≡ some table) × (length new ≡ length file)
unfolding cust_write_table cust_read_table
cust_read_table-write table file new fits m h = elim (Option-cases (scan file)) [
  | inl e ↦ absurd (write_at-none table file new (rw (cust_find_offset_lem file, e) at h))
  | inr (off, e) ↦
      let (long, is_new) =
        write_at-some table file new off (rw (cust_find_offset_lem file, e) at h) in
      rw is_new (
        rw
            (
              cust_find_offset_lem (overwrite off table file),
              scan-overwrite off file (table ++ drop (off + length table) file) e
                  (is_magic-append table _ m),
            )
            (read_at-overwrite table file off fits m long),
        length-overwrite table fits off file long,
      )
]

unless-some :
    {A : Type 0} (b : Bool) (o : Option A) (a : A)
    → (if b then none else o) ≡ some a
    → (b ≡ false) × (o ≡ some a)
unless-some true o a h = cc
unless-some false o a h = (refl, h)

when-some :
    {A : Type 0} (b : Bool) (x a : A) → (if b then some x else none) ≡ some a → (b ≡ true) × (x ≡ a)
when-some true x a h = (refl, cc)
when-some false x a h = cc

read_at-none : (file table : List ℕ) → read_at file none ≢ some table
unfolding read_at
read_at-none file table h = cc

read_at-some :
    (file table : List ℕ) (off : ℕ)
    → read_at file (some off) ≡ some table
    → (off + table_size ≤ length file)
      × (table ≡ take table_size (drop off file))
      × (is_magic table ≡ true)
unfolding read_at
read_at-some file table off h =
    let (long, found) = unless-some (ltb (length file) (off + table_size)) _ table h in
    let (magic, same) = when-some (is_magic (take table_size (drop off file))) _ table found in
    (ltb-false _ _ long, sym same, rw (sym same) magic)

write_at-long :
    (other file : List ℕ) (off : ℕ)
    → off + table_size ≤ length file
    → write_at other file (some off) ≡ some (overwrite off other file)
unfolding write_at
write_at-long other file off h = rw (not_short (length file) (off + table_size) h) refl

-- What can be read is a whole table, and can be written over.
pub cust_read_table-some :
    (file table : List ℕ)
    → cust_read_table (some file) ≡ some table
    → (length table ≡ table_size)
      × (is_magic table ≡ true)
      × ((other : List ℕ) → (new : List ℕ) × (cust_write_table other (some file) ≡ some new))
unfolding cust_read_table cust_write_table
cust_read_table-some file table h = elim (Option-cases (scan file)) [
  | inl e ↦ absurd (read_at-none file table (rw (cust_find_offset_lem file, e) at h))
  | inr (off, e) ↦
      let (long, is_table, m) =
        read_at-some file table off (rw (cust_find_offset_lem file, e) at h) in
      (
        rw is_table
            (length-take table_size (drop off file) (omega (arith, length-drop off file, long))),
        m,
        λ other. (
          overwrite off other file,
          rw (cust_find_offset_lem file, e) (write_at-long other file off long),
        ),
      )
]
