-- ===== src/Kip/Find.antt =====
-- `cust_find_offset` reads the file in pieces that overlap by three bytes.
use rcu.Base.{
  ℕ, zero, suc, ◌+◌, ◌-◌, ◌≤◌, ◌<◌, ◌≡◌, refl, sym, ap, ◌∙◌, Bool, true, false, Option, none, some,
  List, [], ◌∷◌, inl, inr, arith, ltb, ltb-false, ltb→lt, length, take, drop, Bool-cases,
  Option-cases, length-drop,
}
use rcu.Kip.{is_magic, here_or_later, scan, buffer_size, find_from, cust_find_offset}

scan-short : (xs : List ℕ) → length xs < 4 → scan xs ≡ none
unfolding scan is_magic
scan-short [] h = refl
scan-short (a ∷ []) h = refl
scan-short (a ∷ b ∷ []) h = refl
scan-short (a ∷ b ∷ c ∷ []) h = refl
scan-short (a ∷ b ∷ c ∷ d ∷ r) h = absurd (omega arith)

-- Four bytes decide.
is_magic-take :
    (n x : ℕ) (xs : List ℕ) → is_magic (x ∷ take (suc (suc (suc n))) xs) ≡ is_magic (x ∷ xs)
unfolding is_magic
is_magic-take n x [] = refl
is_magic-take n x (a ∷ []) = refl
is_magic-take n x (a ∷ b ∷ []) = refl
is_magic-take n x (a ∷ b ∷ c ∷ r) = refl

-- A place counted from another one.
abbrev pub from : ℕ → Option ℕ → Option ℕ
from n none = none
from n (some i) = some (n + i)

from-from : (m n : ℕ) (o : Option ℕ) → from m (from n o) ≡ from (m + n) o
from-from m n none = refl
from-from m n (some i) = ap some (omega arith)

here_or_later-none : (b : Bool) (o : Option ℕ) → here_or_later b o ≡ none → (b ≡ false) × (o ≡ none)
here_or_later-none true o h = cc
here_or_later-none false none h = (refl, refl)
here_or_later-none false (some i) h = cc

here_or_later-from : (n : ℕ) (o : Option ℕ) → here_or_later false (from n o) ≡ from (suc n) o
here_or_later-from n none = refl
here_or_later-from n (some i) = ap some (omega arith)

from-zero : (o : Option ℕ) → o ≡ from 0 o
from-zero none = refl
from-zero (some i) = ap some (omega arith)

-- What a piece does not hold begins at its last three bytes or after it.
scan-split :
    (n : ℕ) (xs : List ℕ)
    → scan (take (suc (suc (suc n))) xs) ≡ none
    → scan xs ≡ from n (scan (drop n xs))
unfolding scan
scan-split zero xs h = from-zero (scan xs)
scan-split (suc n) [] h = refl
scan-split (suc n) (x ∷ xs) h =
    let (here, later) = here_or_later-none _ _ h in
    rw (sym (is_magic-take n x xs), here, scan-split n xs later) (here_or_later-from n _)

later_hit :
    (b : Bool) (o p : Option ℕ) (i : ℕ)
    → ((j : ℕ) → o ≡ some j → p ≡ some j)
    → here_or_later b o ≡ some i
    → here_or_later b p ≡ some i
later_hit true o p i f h = h
later_hit false none p i f h = cc
later_hit false (some j) p i f h = rw (f j refl) h

length-take_le : {A : Type 0} (n : ℕ) (xs : List A) → length (take n xs) ≤ n
length-take_le zero xs = omega arith
length-take_le (suc n) [] = omega arith
length-take_le (suc n) (x ∷ xs) = omega (arith, length-take_le n xs)

too_short : (n : ℕ) (xs : List ℕ) (i : ℕ) → n < 4 → scan (take n xs) ≡ some i → ⊥
too_short n xs i h e = cc (e, scan-short (take n xs) (omega (arith, h, length-take_le n xs)))

-- What a piece holds is the first in the whole.
scan-hit : (n i : ℕ) (xs : List ℕ) → scan (take n xs) ≡ some i → scan xs ≡ some i
unfolding scan
scan-hit zero i xs h = cc
scan-hit (suc n) i [] h = h
scan-hit (suc zero) i (x ∷ xs) h = cc (h, scan-short (x ∷ []) (omega arith))
scan-hit (suc (suc zero)) i (x ∷ xs) h = absurd (too_short 2 (x ∷ xs) i (omega arith) h)
scan-hit (suc (suc (suc zero))) i (x ∷ xs) h = absurd (too_short 3 (x ∷ xs) i (omega arith) h)
scan-hit (suc (suc (suc (suc n)))) i (x ∷ xs) h =
    later_hit (is_magic (x ∷ xs)) (scan (take (suc (suc (suc n))) xs)) (scan xs) i
      (λ j. scan-hit (suc (suc (suc n))) j xs) (rw (is_magic-take n x xs) at h)

length-take-le_length : {A : Type 0} (n : ℕ) (xs : List A) → length (take n xs) ≤ length xs
length-take-le_length zero xs = omega arith
length-take-le_length (suc n) [] = omega arith
length-take-le_length (suc n) (x ∷ xs) = omega (arith, length-take-le_length n xs)

take_whole : {A : Type 0} (n : ℕ) (xs : List A) → length (take n xs) < n → take n xs ≡ xs
take_whole zero xs h = absurd (omega arith)
take_whole (suc n) [] h = refl
take_whole (suc n) (x ∷ xs) h = ap (λ ys. x ∷ ys) (take_whole n xs (omega arith))

take-length : {A : Type 0} (n : ℕ) (xs : List A) → take (length (take n xs)) xs ≡ take n xs
take-length zero xs = refl
take-length (suc n) [] = refl
take-length (suc n) (x ∷ xs) = ap (λ ys. x ∷ ys) (take-length n xs)

step : (m n : ℕ) → suc m + n ≡ suc (m + n)
step m n = omega arith

drop-nil : {A : Type 0} (n : ℕ) → drop {A = A} n [] ≡ []
drop-nil zero = refl
drop-nil (suc n) = refl

zero_step : (n : ℕ) → n ≡ 0 + n
zero_step n = omega arith

drop-drop : {A : Type 0} (m n : ℕ) (xs : List A) → drop n (drop m xs) ≡ drop (m + n) xs
drop-drop zero n xs = ap (λ (k : ℕ). drop k xs) (zero_step n)
drop-drop (suc m) n [] = drop-nil n ∙ sym (drop-nil (suc m + n))
drop-drop (suc m) n (x ∷ xs) = rw (step m n) (drop-drop m n xs)

piece_within :
    (pos : ℕ) (file : List ℕ) → length (take buffer_size (drop pos file)) ≤ length file - pos
piece_within pos file =
    omega (arith, length-take-le_length buffer_size (drop pos file), length-drop pos file)

three : (n : ℕ) → 4 ≤ n → suc (suc (suc (n - 3))) ≡ n
three n le = omega arith

piece_none :
    (xs : List ℕ)
    → 4 ≤ length (take buffer_size xs)
    → scan (take buffer_size xs) ≡ none
    → scan xs
      ≡ from (length (take buffer_size xs) - 3) (scan (drop (length (take buffer_size xs) - 3) xs))
piece_none xs le h =
    scan-split (length (take buffer_size xs) - 3) xs
      (ap scan (ap (λ (k : ℕ). take k xs) (three _ le) ∙ take-length buffer_size xs) ∙ h)

-- What the loop finds from `pos` on, with fuel for a round for each byte.
find_from_lem :
    (fuel pos : ℕ) (file : List ℕ)
    → pos ≤ length file
    → length file < pos + fuel
    → find_from fuel pos file ≡ some (from pos (scan (drop pos file)))
unfolding find_from
find_from_lem zero pos file le h = absurd (omega arith)
find_from_lem (suc fuel) pos file le h = elim (Bool-cases (ltb (length buf) 4)) [
  | inl short ↦ rw (short, sym (whole short), scan-short buf (ltb→lt _ _ short)) refl
  | inr long ↦ elim (Option-cases (scan buf)) [
    | inl missing ↦
        rw
          (
            long,
            missing,
            piece_none (drop pos file) (ltb-false _ _ long) missing,
            from-from pos (length buf - 3) (scan (drop (length buf - 3) (drop pos file))),
            drop-drop pos (length buf - 3) file,
          )
          (find_from_lem fuel (pos + (length buf - 3)) file
            (omega (arith, ltb-false _ _ long, piece_within pos file))
            (omega (arith, ltb-false _ _ long)))
    | inr (i, found) ↦ rw (long, found, scan-hit buffer_size i (drop pos file) found) refl
  ]
]
  where
    buf : List ℕ
    buf = take buffer_size (drop pos file)

    whole : ltb (length buf) 4 ≡ true → buf ≡ drop pos file
    whole e = take_whole buffer_size (drop pos file) (omega (arith, ltb→lt _ _ e))

-- `cust_find_offset` finds the first place in the whole file where the magic stands, also where it
-- crosses the end of a piece that is read, and none if there is none.
pub cust_find_offset_lem : (file : List ℕ) → cust_find_offset file ≡ scan file
unfolding cust_find_offset
cust_find_offset_lem file =
    rw (cust_find_offset, find_from_lem (suc (length file)) 0 file (omega arith) (omega arith))
      (sym (from-zero (scan file)))
