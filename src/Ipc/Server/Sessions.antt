-- ===== src/Ipc/Server/Sessions.antt =====
-- The array of handles as a list: the port, and the sessions in the order in which they came.
use rcu.Base.{
  ℕ, zero, suc, ◌+◌, ◌-◌, ◌≤◌, ◌<◌, ◌≡◌, inl, inr, refl, sym, ap, ◌∙◌, Bool, true, false, ◌||◌,
  List, [], ◌∷◌, ◌++◌, arith, ltb, leb, ◌==◌, if◌then◌else◌, length, take, drop, Bool-cases, leb→le,
  leb-false,
}
use rcu.Ipc.Server.{Server, add_session, shift_down, delete_session}

abbrev pub listing : ℕ → (ℕ → ℕ) → List ℕ
listing zero f = []
listing (suc n) f = f 0 ∷ listing n (λ i. f (suc i))

-- The open handles: the abstract view of a server.
abbrev pub open_handles : Server → List ℕ
open_handles s = listing s.count s.handles

abbrev pub remove_at : ℕ → List ℕ → List ℕ
remove_at i [] = []
remove_at zero (x ∷ xs) = xs
remove_at (suc i) (x ∷ xs) = x ∷ remove_at i xs

-- What the loop of `_ipcServerDeleteSession` leaves at each place.
pub shift_down_lem :
    (n j : ℕ) (f : ℕ → ℕ) (i : ℕ)
    → shift_down n j f i ≡ (if ltb i j then f i else if ltb i (j + n) then f (i + 1) else f i)
shift_down_lem zero j f i = ground arith
shift_down_lem (suc n) j f i =
    shift_down_lem n (j + 1) (λ k. if k == j then f (j + 1) else f k) i ∙ ground arith

listing-ext : (n : ℕ) (f g : ℕ → ℕ) → ((i : ℕ) → i < n → f i ≡ g i) → listing n f ≡ listing n g
listing-ext zero f g h = refl
listing-ext (suc n) f g h = cc (
  h 0 (omega arith),
  listing-ext n (λ i. f (suc i)) (λ i. g (suc i)) (λ i lt. h (suc i) (omega arith)),
)

listing-snoc : (n : ℕ) (f : ℕ → ℕ) → listing (suc n) f ≡ listing n f ++ (f n ∷ [])
listing-snoc zero f = refl
listing-snoc (suc n) f = ap (λ xs. f 0 ∷ xs) (listing-snoc n (λ i. f (suc i)))

abbrev skip : ℕ → (ℕ → ℕ) → ℕ → ℕ
skip i f k = if ltb k i then f k else f (suc k)

abbrev skipped : ℕ → (ℕ → ℕ) → ℕ → ℕ
skipped i f zero = f 0
skipped i f (suc k) = skip i (λ j. f (suc j)) k

skip-suc : (i : ℕ) (f : ℕ → ℕ) (k : ℕ) → skip (suc i) f k ≡ skipped i f k
skip-suc i f zero = ground arith
skip-suc i f (suc k) = ground arith

listing-skip :
    (i n : ℕ) (f : ℕ → ℕ) → i ≤ n → listing n (skip i f) ≡ remove_at i (listing (suc n) f)
listing-skip zero n f h = listing-ext n (skip 0 f) (λ k. f (suc k)) (λ k lt. ground arith)
listing-skip (suc i) zero f h = absurd (omega arith)
listing-skip (suc i) (suc n) f h =
    listing-ext (suc n) (skip (suc i) f) (skipped i f) (λ k lt. skip-suc i f k)
    ∙ ap (λ xs. f 0 ∷ xs) (listing-skip i n (λ k. f (suc k)) (omega arith))

-- The two operations on the array.
listing-put :
    (n h : ℕ) (f : ℕ → ℕ)
    → listing (n + 1) (λ j. if j == n then h else f j) ≡ listing n f ++ (h ∷ [])
listing-put n h f =
    ap (λ (k : ℕ). listing k (λ j. if j == n then h else f j)) (one_more n)
    ∙ listing-snoc n (λ j. if j == n then h else f j)
    ∙ cc (listing-ext n (λ j. if j == n then h else f j) f (λ i lt. ground arith), here)
  where
    one_more : (n : ℕ) → n + 1 ≡ suc n
    one_more n = omega arith

    here : (if n == n then h else f n) ≡ h
    here = ground arith

listing-shift :
    (n i : ℕ) (f : ℕ → ℕ)
    → i < n
    → listing (n - 1) (shift_down (n - 1 - i) i f) ≡ remove_at i (listing n f)
listing-shift n i f h =
    listing-ext (n - 1) (shift_down (n - 1 - i) i f) (skip i f)
      (λ k lt. ground (arith, shift_down_lem (n - 1 - i) i f k))
    ∙ listing-skip i (n - 1) f (omega arith)
    ∙ ap (λ (k : ℕ). remove_at i (listing k f)) (again n i h)
  where
    again : (n i : ℕ) → i < n → suc (n - 1) ≡ n
    again n i h = omega arith

length-listing : (n : ℕ) (f : ℕ → ℕ) → length (listing n f) ≡ n
length-listing zero f = refl
length-listing (suc n) f = omega (arith, length-listing n (λ i. f (suc i)))

remove_at-end : (i n : ℕ) (f : ℕ → ℕ) → n ≤ i → remove_at i (listing n f) ≡ listing n f
remove_at-end i zero f h = refl
remove_at-end zero (suc n) f h = absurd (omega arith)
remove_at-end (suc i) (suc n) f h =
    ap (λ xs. f 0 ∷ xs) (remove_at-end i n (λ k. f (suc k)) (omega arith))

take-drop-listing : (i n : ℕ) (f : ℕ → ℕ) → i < n → take 1 (drop i (listing n f)) ≡ f i ∷ []
take-drop-listing i zero f h = absurd (omega arith)
take-drop-listing zero (suc n) f h = refl
take-drop-listing (suc i) (suc n) f h = take-drop-listing i n (λ k. f (suc k)) (omega arith)

drop-listing : (i n : ℕ) (f : ℕ → ℕ) → n ≤ i → drop i (listing n f) ≡ []
drop-listing zero zero f h = refl
drop-listing (suc i) zero f h = refl
drop-listing zero (suc n) f h = absurd (omega arith)
drop-listing (suc i) (suc n) f h = drop-listing i n (λ k. f (suc k)) (omega arith)

-- The operations on the list of open handles: a session is appended if there is room; the port is
-- never taken out.
abbrev pub accept : ℕ → ℕ → List ℕ → List ℕ
accept places session hs = if ltb (length hs) places then hs ++ (session ∷ []) else hs

abbrev pub leave : ℕ → List ℕ → List ℕ
leave zero hs = hs
leave (suc i) hs = remove_at (suc i) hs

abbrev pub leaving : ℕ → List ℕ → List ℕ
leaving zero hs = []
leaving (suc i) hs = take 1 (drop (suc i) hs)

add_session-open :
    (s : Server) (session : ℕ)
    → open_handles (add_session session s).1 ≡ accept s.max session (open_handles s)
unfolding add_session
add_session-open s session = elim (Bool-cases (leb s.max s.count)) [
  | inl e ↦ rw (e, shut e) refl
  | inr e ↦ rw (e, has_room e) (listing-put s.count session s.handles)
]
  where
    shut : leb s.max s.count ≡ true → ltb (length (open_handles s)) s.max ≡ false
    shut e = ground (arith, length-listing s.count s.handles, leb→le s.max s.count e)

    has_room : leb s.max s.count ≡ false → ltb (length (open_handles s)) s.max ≡ true
    has_room e = ground (arith, length-listing s.count s.handles, leb-false s.max s.count e)

delete_session-open :
    (s : Server) (index : ℕ)
    → (open_handles (delete_session index s).1 ≡ leave index (open_handles s))
      × ((delete_session index s).1.closed ≡ leaving index (open_handles s) ++ s.closed)
unfolding delete_session
delete_session-open s zero = (refl, refl)
delete_session-open s (suc i) = elim (Bool-cases (leb s.count (suc i))) [
  | inl e ↦ rw (same e) (
    sym (remove_at-end (suc i) s.count s.handles (leb→le s.count (suc i) e)),
    rw (drop-listing (suc i) s.count s.handles (leb→le s.count (suc i) e)) refl,
  )
  | inr e ↦ rw (same e) (
    listing-shift s.count (suc i) s.handles (leb-false s.count (suc i) e),
    rw (take-drop-listing (suc i) s.count s.handles (leb-false s.count (suc i) e)) refl,
  )
]
  where
    same : {b : Bool} → leb s.count (suc i) ≡ b → suc i == 0 || leb s.count (suc i) ≡ b
    same e = ground (arith, e)

-- `_ipcServerAddSession` and `_ipcServerDeleteSession` do to the open handles what `accept` and `leave`
-- say: a session is appended if there is room; the one at the index is taken out, and closed, with the
-- order of the others kept; the port at index 0 and an index that is not in use change nothing.
pub sessions_refine :
    (s : Server) (session index : ℕ)
    → (open_handles (add_session session s).1 ≡ accept s.max session (open_handles s))
      × (open_handles (delete_session index s).1 ≡ leave index (open_handles s))
      × ((delete_session index s).1.closed ≡ leaving index (open_handles s) ++ s.closed)
sessions_refine s session index =
    let (left, closed) = delete_session-open s index in (add_session-open s session, left, closed)
