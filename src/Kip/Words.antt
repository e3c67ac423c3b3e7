-- ===== src/Kip/Words.antt =====
-- The fields of the kip's table: what is written to one is read from it, and from no other.
use rcu.Base.{
  ℕ, zero, suc, ◌+◌, ◌*◌, ◌/◌, ◌%◌, ◌^◌, ◌≤◌, ◌≡◌, ◌≢◌, refl, ap, List, ◌∷◌, arith, length, u32,
}
use rcu.Kip.{is_magic, word, put_word}

four_bytes :
    (v : ℕ)
    → v % 2 ^ 8
        + v / 2 ^ 8 % 2 ^ 8 * 2 ^ 8
        + v / 2 ^ 16 % 2 ^ 8 * 2 ^ 16
        + v / 2 ^ 24 % 2 ^ 8 * 2 ^ 24
      ≡ u32 v
four_bytes v = omega arith

pub length-put_word : (w v : ℕ) (t : List ℕ) → length (put_word w v t) ≡ length t
unfolding put_word
length-put_word zero v (a ∷ b ∷ c ∷ d ∷ t) = refl
length-put_word (suc w) v (a ∷ b ∷ c ∷ d ∷ t) = omega (arith, length-put_word w v t)
length-put_word w v t = refl

pub word-put_word : (w v : ℕ) (t : List ℕ) → 4 * w + 4 ≤ length t → word w (put_word w v t) ≡ u32 v
unfolding word put_word
word-put_word zero v (a ∷ b ∷ c ∷ d ∷ t) h = four_bytes v
word-put_word (suc w) v (a ∷ b ∷ c ∷ d ∷ t) h = word-put_word w v t (omega arith)
word-put_word w v t h = absurd (omega arith)

pub word-put_word_other : (w u v : ℕ) (t : List ℕ) → w ≢ u → word w (put_word u v t) ≡ word w t
unfolding word put_word
word-put_word_other zero zero v (a ∷ b ∷ c ∷ d ∷ t) h = absurd (h refl)
word-put_word_other (suc w) (suc u) v (a ∷ b ∷ c ∷ d ∷ t) h =
    word-put_word_other w u v t (λ e. h (ap suc e))
word-put_word_other (suc w) zero v (a ∷ b ∷ c ∷ d ∷ t) h = refl
word-put_word_other zero (suc u) v (a ∷ b ∷ c ∷ d ∷ t) h = refl
word-put_word_other w u v t h = refl

pub is_magic-put_word : (w v : ℕ) (t : List ℕ) → is_magic (put_word (suc w) v t) ≡ is_magic t
unfolding is_magic put_word
is_magic-put_word w v (a ∷ b ∷ c ∷ d ∷ t) = refl
is_magic-put_word w v t = refl
