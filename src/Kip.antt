-- ===== src/Kip.antt =====
-- The table of settings inside the file hoc.kip, as Source/ryazha-clk/sysmodule/src/file/kip.hpp finds,
-- reads and writes it. A file is the list of its bytes; `none` where it cannot be opened. Reading and
-- writing an open file does not fail.
pub mod Key
pub mod Field
pub mod Copied
pub mod Find
pub mod Table
pub mod Words
pub mod Data
use rcu.Base.{
  ℕ, zero, suc, ◌+◌, ◌-◌, ◌*◌, ◌/◌, ◌%◌, ◌^◌, Bool, true, false, ◌&&◌, Option, none, some, List, [],
  ◌∷◌, ◌++◌, ltb, leb, ◌==◌, if◌then◌else◌, length, take, drop, u32,
}

-- `memcmp(…, "CUST", 4) == 0`, where at least four bytes follow.
unfoldable pub is_magic : List ℕ → Bool
is_magic (a ∷ b ∷ c ∷ d ∷ rest) = a == b'C' && b == b'U' && c == b'S' && d == b'T'
is_magic rest = false

-- The loop of `cust_find_offset` over the bytes that one `fread` gives: this place if the magic is
-- here, otherwise what the places after it give.
abbrev pub here_or_later : Bool → Option ℕ → Option ℕ
here_or_later true later = some 0
here_or_later false none = none
here_or_later false (some i) = some (suc i)

unfoldable pub scan : List ℕ → Option ℕ
scan [] = none
scan (x ∷ xs) = here_or_later (is_magic (x ∷ xs)) (scan xs)

abbrev pub buffer_size : ℕ
buffer_size = 512

-- The outer loop from `pos` on, with fuel for its rounds; `none` means that the fuel ran out, and
-- `some none` is `false`.
unfoldable pub find_from : ℕ → ℕ → List ℕ → Option (Option ℕ)
find_from zero pos file = none
find_from (suc fuel) pos file =
    let buf = take buffer_size (drop pos file) in
    let next = find_from fuel (pos + (length buf - 3)) file in
    if ltb (length buf) 4
    then some none
    else elim (scan buf) [ none ↦ next | some i ↦ some (some (pos + i)) ]

-- `cust_find_offset`.
unfoldable pub cust_find_offset : List ℕ → Option ℕ
cust_find_offset file = elim (find_from (suc (length file)) 0 file) [
  | none ↦ none
  | some found ↦ found
]

-- `sizeof(CustomizeTable)`.
abbrev pub table_size : ℕ
table_size = 656

-- `cust_read_table`, from where the offset is known.
unfoldable pub read_at : List ℕ → Option ℕ → Option (List ℕ)
read_at file none = none
read_at file (some off) =
    if ltb (length file) (off + table_size)
    then none
    else let table = take table_size (drop off file) in if is_magic table then some table else none

-- `cust_read_table` and `cust_read_and_cache`.
unfoldable pub cust_read_table : Option (List ℕ) → Option (List ℕ)
cust_read_table none = none
cust_read_table (some file) = read_at file (cust_find_offset file)

-- The file with the table in place of as many bytes from an offset on.
abbrev pub overwrite : ℕ → List ℕ → List ℕ → List ℕ
overwrite off table file = take off file ++ (table ++ drop (off + length table) file)

unfoldable pub write_at : List ℕ → List ℕ → Option ℕ → Option (List ℕ)
write_at table file none = none
write_at table file (some off) =
    if ltb (length file) (off + table_size) then none else some (overwrite off table file)

-- `cust_write_table`: the new file, or `none` for `false`.
unfoldable pub cust_write_table : List ℕ → Option (List ℕ) → Option (List ℕ)
cust_write_table table none = none
cust_write_table table (some file) = write_at table file (cust_find_offset file)

-- A field of the table, and the table with another value in it: 32 bits, the low byte first.
abbrev pub bytes_of : ℕ → List ℕ → List ℕ
bytes_of v rest = v % 2 ^ 8 ∷ v / 2 ^ 8 % 2 ^ 8 ∷ v / 2 ^ 16 % 2 ^ 8 ∷ v / 2 ^ 24 % 2 ^ 8 ∷ rest

unfoldable pub word : ℕ → List ℕ → ℕ
word zero (a ∷ b ∷ c ∷ d ∷ rest) = a + b * 2 ^ 8 + c * 2 ^ 16 + d * 2 ^ 24
word (suc w) (a ∷ b ∷ c ∷ d ∷ rest) = word w rest
word w rest = 0

unfoldable pub put_word : ℕ → ℕ → List ℕ → List ℕ
put_word zero v (a ∷ b ∷ c ∷ d ∷ rest) = bytes_of v rest
put_word (suc w) v (a ∷ b ∷ c ∷ d ∷ rest) = a ∷ b ∷ c ∷ d ∷ put_word w v rest
put_word w v rest = rest
