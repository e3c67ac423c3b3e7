-- ===== src/Kip/Data/Fields.antt =====
-- What `SetKipData` copies into the table, and what `GetKipData` copies out of it.
use rcu.Base.{
  ℕ, zero, suc, ◌*◌, ◌≤◌, ◌<◌, ◌≡◌, ◌≢◌, refl, ◌∙◌, Bool, true, false, not, List, [], ◌∷◌, inl, inr,
  ◌⊎◌, arith, ltb, ◌==◌, ◌&&◌, if◌then◌else◌, Bool-cases, length, u32,
}
use rcu.Config.Values.{Values, put_value}
use rcu.Kip.{is_magic, word, put_word}
use rcu.Kip.Words.{length-put_word, word-put_word, word-put_word_other, is_magic-put_word}
use rcu.Kip.Copied.{written, read}
use rcu.Kip.Data.{put_fields, get_fields}

-- The pair stands in the list.
abbrev pub Copies : ℕ → ℕ → List (ℕ × ℕ) → Type 0
Copies w k [] = ⊥
Copies w k ((u, j) ∷ fields) = ((w ≡ u) × (k ≡ j)) ⊎ Copies w k fields

abbrev pub has_word : ℕ → List (ℕ × ℕ) → Bool
has_word w [] = false
has_word w ((u, j) ∷ fields) = if w == u then true else has_word w fields

abbrev pub has_key : ℕ → List (ℕ × ℕ) → Bool
has_key k [] = false
has_key k ((u, j) ∷ fields) = if k == j then true else has_key k fields

-- No field comes twice, none is the magic, and all lie below a bound.
abbrev pub distinct_words : ℕ → List (ℕ × ℕ) → Bool
distinct_words bound [] = true
distinct_words bound ((u, j) ∷ fields) =
    not (has_word u fields) && ltb 0 u && ltb u bound && distinct_words bound fields

abbrev pub distinct_keys : List (ℕ × ℕ) → Bool
distinct_keys [] = true
distinct_keys ((u, j) ∷ fields) = not (has_key j fields) && distinct_keys fields

written_words : distinct_words 164 written ≡ true
written_words = refl

read_keys : distinct_keys read ≡ true
read_keys = refl

abbrev pub has_pair : ℕ → ℕ → List (ℕ × ℕ) → Bool
has_pair w k [] = false
has_pair w k ((u, j) ∷ fields) = if w == u && k == j then true else has_pair w k fields

abbrev pub all_in : List (ℕ × ℕ) → List (ℕ × ℕ) → Bool
all_in [] others = true
all_in ((u, j) ∷ fields) others = has_pair u j others && all_in fields others

has_pair-Copies : (w k : ℕ) (fields : List (ℕ × ℕ)) → has_pair w k fields ≡ true → Copies w k fields
has_pair-Copies w k [] h = cc
has_pair-Copies w k ((u, j) ∷ fields) h = elim (Bool-cases (w == u && k == j)) [
  | inl e ↦ inl (ground arith)
  | inr e ↦ inr (has_pair-Copies w k fields (rw e at h))
]

and_true : (b c : Bool) → b && c ≡ true → (b ≡ true) × (c ≡ true)
and_true true c h = (refl, h)
and_true false c h = cc

all_in-Copies :
    (w k : ℕ) (fields others : List (ℕ × ℕ))
    → all_in fields others ≡ true
    → Copies w k fields
    → Copies w k others
all_in-Copies w k [] others h m = absurd m
all_in-Copies w k ((u, j) ∷ fields) others h (inl (e, f)) =
    has_pair-Copies w k others (rw (e, f) ((and_true _ _ h).0))
all_in-Copies w k ((u, j) ∷ fields) others h (inr m) =
    all_in-Copies w k fields others (and_true _ _ h).1 m

written-read : all_in written read ≡ true
written-read = refl

pub length-put_fields :
    (fields : List (ℕ × ℕ)) (values : Values) (t : List ℕ)
    → length (put_fields fields values t) ≡ length t
unfolding put_fields
length-put_fields [] values t = refl
length-put_fields ((w, k) ∷ fields) values t =
    length-put_fields fields values (put_word w (u32 (values k)) t) ∙ length-put_word w _ t

word-put_fields_other :
    (w : ℕ) (fields : List (ℕ × ℕ)) (values : Values) (t : List ℕ)
    → has_word w fields ≡ false
    → word w (put_fields fields values t) ≡ word w t
unfolding put_fields
word-put_fields_other w [] values t h = refl
word-put_fields_other w ((u, k) ∷ fields) values t h =
    let ne : w ≢ u = λ e. ground (arith, e, h) in
    word-put_fields_other w fields values (put_word u (u32 (values k)) t) (ground arith)
    ∙ word-put_word_other w u _ t ne

first_word :
    (bound u j : ℕ) (fields : List (ℕ × ℕ))
    → distinct_words bound ((u, j) ∷ fields) ≡ true
    → (has_word u fields ≡ false) × (0 < u) × (u < bound)
first_word bound u j fields d = ground arith

first_key :
    (u j : ℕ) (fields : List (ℕ × ℕ))
    → distinct_keys ((u, j) ∷ fields) ≡ true
    → has_key j fields ≡ false
first_key u j fields d = ground arith

u32_twice : (n : ℕ) → u32 (u32 n) ≡ u32 n
u32_twice n = omega arith

word-put_fields :
    (w k bound : ℕ) (fields : List (ℕ × ℕ)) (values : Values) (t : List ℕ)
    → distinct_words bound fields ≡ true
    → 4 * bound ≤ length t
    → Copies w k fields
    → word w (put_fields fields values t) ≡ u32 (values k)
unfolding put_fields
word-put_fields w k bound [] values t d long m = absurd m
word-put_fields w k bound ((u, j) ∷ fields) values t d long (inl (e, f)) =
    let (alone, above, below) = first_word bound u j fields d in
    rw (e, f)
      (word-put_fields_other u fields values (put_word u (u32 (values j)) t) alone
        ∙ word-put_word u (u32 (values j)) t (omega (arith, below))
        ∙ u32_twice (values j))
word-put_fields w k bound ((u, j) ∷ fields) values t d long (inr m) =
    word-put_fields w k bound fields values (put_word u (u32 (values j)) t) (and_true _ _ d).1
      (omega (arith, length-put_word u (u32 (values j)) t)) m

is_magic-put_fields :
    (bound : ℕ) (fields : List (ℕ × ℕ)) (values : Values) (t : List ℕ)
    → distinct_words bound fields ≡ true
    → is_magic (put_fields fields values t) ≡ is_magic t
unfolding put_fields
is_magic-put_fields bound [] values t d = refl
is_magic-put_fields bound ((zero, j) ∷ fields) values t d =
    absurd (omega (arith, (first_word bound 0 j fields d).1))
is_magic-put_fields bound ((suc u, j) ∷ fields) values t d =
    is_magic-put_fields bound fields values (put_word (suc u) (u32 (values j)) t) (and_true _ _ d).1
    ∙ is_magic-put_word u _ t

get_fields-other :
    (k : ℕ) (fields : List (ℕ × ℕ)) (t : List ℕ) (values : Values)
    → has_key k fields ≡ false
    → get_fields fields t values k ≡ values k
unfolding get_fields
get_fields-other k [] t values h = refl
get_fields-other k ((w, j) ∷ fields) t values h =
    get_fields-other k fields t (put_value j (word w t) values) (ground arith) ∙ ground arith

get_fields-key :
    (w k : ℕ) (fields : List (ℕ × ℕ)) (t : List ℕ) (values : Values)
    → distinct_keys fields ≡ true
    → Copies w k fields
    → get_fields fields t values k ≡ word w t
unfolding get_fields
get_fields-key w k [] t values d m = absurd m
get_fields-key w k ((u, j) ∷ fields) t values d (inl (e, f)) =
    rw (e, f)
      (get_fields-other j fields t (put_value j (word u t) values) (first_key u j fields d)
        ∙ ground arith)
get_fields-key w k ((u, j) ∷ fields) t values d (inr m) =
    get_fields-key w k fields t (put_value j (word u t) values) (and_true _ _ d).1 m

-- Every setting that `SetKipData` copies into a table of the full length, `GetKipData` copies out of
-- it again, reduced to the 32 bits of its field, whatever the settings were before.
pub get_fields-put_fields :
    (w k : ℕ) (values before : Values) (table : List ℕ)
    → length table ≡ 656
    → Copies w k written
    → get_fields read (put_fields written values table) before k ≡ u32 (values k)
get_fields-put_fields w k values before table fits m =
    get_fields-key w k read _ before read_keys (all_in-Copies w k written read written-read m)
    ∙ word-put_fields w k 164 written values table written_words (omega arith) m

pub written_field :
    (w k : ℕ) (values : Values) (table : List ℕ)
    → length table ≡ 656
    → Copies w k written
    → word w (put_fields written values table) ≡ u32 (values k)
written_field w k values table fits m =
    word-put_fields w k 164 written values table written_words (omega arith) m

pub is_magic-written :
    (values : Values) (table : List ℕ) → is_magic (put_fields written values table) ≡ is_magic table
is_magic-written values table = is_magic-put_fields 164 written values table written_words
