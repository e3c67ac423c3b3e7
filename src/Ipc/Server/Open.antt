-- ===== src/Ipc/Server/Open.antt =====
-- What holds of the sessions at all times.
use rcu.Base.{
  ℕ, ◌+◌, ◌-◌, ◌≤◌, ◌<◌, ◌≡◌, ◌≢◌, inl, inr, refl, sym, ap, ◌∙◌, subst, Bool, true, false, ◌||◌,
  Option, none, some, [], arith, ltb, leb, ◌==◌, All, Bool-cases, pos, negsuc, ℤ, leb-false,
}
use rcu.Ipc.Request.{Result, success, not_found, succeeded, Data, parse_request}
use rcu.Ipc.Server.{
  Server, init, close_handle, add_session, shift_down, delete_session, process_new_session, Handler,
  Exchange, Wake, After, unserved, close_if, serve, process_session, process_at, process,
}
use rcu.Ipc.Server.Sessions.{shift_down_lem}

-- The port is open at index 0 and was never closed, no session is open twice, and there are at most
-- `n` sessions.
abbrev pub IsOpen : ℕ → ℕ → Server → Type 0
IsOpen n port s =
    (1 ≤ s.count)
    × (s.count ≤ s.max)
    × (s.max ≡ n + 1)
    × (s.handles 0 ≡ port)
    × ((i j : ℕ) → i < s.count → j < s.count → s.handles i ≡ s.handles j → i ≡ j)
    × All (λ h. h ≢ port) s.closed

-- The kernel gives no handle that is open.
abbrev pub IsFresh : ℕ → Server → Type 0
IsFresh session s = (i : ℕ) → i < s.count → s.handles i ≢ session

close_handle-IsOpen :
    (n port h : ℕ) (s : Server) → h ≢ port → IsOpen n port s → IsOpen n port (close_handle h s)
close_handle-IsOpen n port h s ne o = (o.0, o.1, o.2, o.3, o.4, (ne, o.5))

module _ (n port : ℕ) (s : Server) (o : IsOpen n port s) where
  add_session-IsOpen : (session : ℕ) → IsFresh session s → IsOpen n port (add_session session s).1
  unfolding add_session
  add_session-IsOpen session fresh = elim (Bool-cases (leb s.max s.count)) [
    | inl full ↦ rw full o
    | inr room ↦ rw room (
      omega arith,
      omega (arith, leb-false s.max s.count room, o),
      o.2,
      ground (arith, o),
      λ i j hi hj e. ground (arith, e, o.4 i j, fresh i, fresh j),
      o.5,
    )
  ]

  in_use : (index : ℕ) → index == 0 || leb s.count index ≡ false → (0 < index) × (index < s.count)
  in_use index h = ground arith

  shifted_once :
      (index i j : ℕ)
      → 0 < index
      → index < s.count
      → i < s.count - 1
      → j < s.count - 1
      → shift_down (s.count - 1 - index) index s.handles i
        ≡ shift_down (s.count - 1 - index) index s.handles j
      → i ≡ j
  shifted_once index i j above below hi hj e = ground (
    arith,
    e,
    shift_down_lem (s.count - 1 - index) index s.handles i,
    shift_down_lem (s.count - 1 - index) index s.handles j,
    o.4 i j,
    o.4 (i + 1) j,
    o.4 i (j + 1),
    o.4 (i + 1) (j + 1),
  )

  delete_session-IsOpen : (index : ℕ) → IsOpen n port (delete_session index s).1
  unfolding delete_session
  delete_session-IsOpen index = elim (Bool-cases (index == 0 || leb s.count index)) [
    | inl unused ↦ rw unused o
    | inr used ↦
        let (above, below) = in_use index used in
        rw used (
          omega (arith, above, below),
          omega (arith, o),
          o.2,
          ground (arith, o, shift_down_lem (s.count - 1 - index) index s.handles 0, above),
          λ i j hi hj e. shifted_once index i j above below hi hj e,
          (λ e. omega (arith, above, o.4 index 0 below o.0 (e ∙ sym o.3)), o.5),
        )
  ]

  close_if-IsOpen : (b : Bool) (index : ℕ) → IsOpen n port (close_if b index s)
  close_if-IsOpen true index = delete_session-IsOpen index
  close_if-IsOpen false index = o

  process_new_session-IsOpen :
      (accepted : Result) (session : ℕ)
      → IsFresh session s
      → IsOpen n port (process_new_session (accepted, session) s).1
  unfolding process_new_session
  process_new_session-IsOpen accepted session fresh = elim (Bool-cases (succeeded accepted)) [
    | inl got ↦ elim (Bool-cases (succeeded (add_session session s).0)) [
      | inl added ↦ rw (got, added) (add_session-IsOpen session fresh)
      | inr refused ↦
          rw (got, refused)
            (close_handle-IsOpen n port session (add_session session s).1
              (λ e. fresh 0 o.0 (o.3 ∙ sym e)) (add_session-IsOpen session fresh))
    ]
    | inr lost ↦ rw lost o
  ]

  module _ {S R : Type 0} (handler : Handler S R) (state : S) where
    serve-IsOpen :
        (index : ℕ) (x : Exchange) (d : Option Data)
        → IsOpen n port (serve handler index x d state s).server
    unfolding serve
    serve-IsOpen index x none = delete_session-IsOpen index
    serve-IsOpen index x (some d) = close_if-IsOpen _ index

    process_session-IsOpen :
        (index : ℕ) (x : Exchange) → IsOpen n port (process_session handler index x state s).server
    unfolding process_session
    process_session-IsOpen index x = elim (Bool-cases (succeeded x.received)) [
      | inl e ↦ rw e (serve-IsOpen index x (parse_request x.hipc))
      | inr e ↦ rw e (delete_session-IsOpen index)
    ]

    process_at-IsOpen :
        (w : Wake) (i : ℕ)
        → IsFresh w.accepted.1 s
        → IsOpen n port (process_at handler w i state s).server
    process_at-IsOpen w i fresh = elim (Bool-cases (leb s.count i)) [
      | inl e ↦ rw e o
      | inr e ↦ elim (Bool-cases (i == 0)) [
        | inl z ↦ rw (e, z) (process_new_session-IsOpen w.accepted.0 w.accepted.1 fresh)
        | inr z ↦ rw (e, z) (process_session-IsOpen i w.exchange)
      ]
    ]

    pub process-IsOpen :
        (w : Wake) → IsFresh w.accepted.1 s → IsOpen n port (process handler w state s).server
    unfolding process
    process-IsOpen w fresh = elim (Bool-cases (succeeded w.waited)) [
      | inl e ↦ rw e (at_index w.index)
      | inr e ↦ rw e o
    ]
      where
        at_index :
            (index : ℤ)
            → IsOpen n port
                (elim index as (λ k. After S R) [
                  | pos i ↦ process_at handler w i state s
                  | negsuc i ↦ unserved not_found state s
                ]).server
        at_index (negsuc i) = o
        at_index (pos i) = process_at-IsOpen w i fresh

-- The server after `ipcServerInit` has registered the service, and after calls of `ipcServerProcess`,
-- where a session that is accepted has a handle that is not open.
pub data Reached {S R : Type 0} (handler : Handler S R) (wait_objects n port : ℕ)
    : S → Server → Type 0 where
  registered :
      (state : S) (s t : Server)
      → s.closed ≡ []
      → init wait_objects n (success, port) s ≡ (success, t)
      → Reached handler wait_objects n port state t
  processed :
      (state : S) (s : Server) (w : Wake)
      → Reached handler wait_objects n port state s
      → IsFresh w.accepted.1 s
      → Reached handler wait_objects n port
          (process handler w state s).state
          (process handler w state s).server

init-IsOpen :
    (wait_objects n port : ℕ) (s t : Server)
    → s.closed ≡ []
    → init wait_objects n (success, port) s ≡ (success, t)
    → IsOpen n port t
unfolding init
init-IsOpen wait_objects n port s t none_closed h =
    elim (Bool-cases (ltb n 1 || ltb (wait_objects - 1) n)) [
      | inl bad ↦ absurd (cc (rw bad at h))
      | inr fine ↦
          subst (IsOpen n port) (ap (λ (p : Result × Server). p.1) (rw fine at h))
            (omega arith, omega arith, refl, refl, λ i j hi hj e. omega arith, rw none_closed tt)
    ]

-- However often `ipcServerProcess` is called after a successful `ipcServerInit`, the port stays open
-- at index 0 and is never closed, the open handles differ, and they are at most as many as the
-- sessions that were asked for and the port; the kernel is taken to give each session a handle that
-- is not open.
pub Reached-IsOpen :
    {S R : Type 0} (handler : Handler S R) (wait_objects n port : ℕ) (state : S) (s : Server)
    → Reached handler wait_objects n port state s
    → IsOpen n port s
Reached-IsOpen handler wait_objects n port state s (registered _ r t c h) =
    init-IsOpen wait_objects n port r t c h
Reached-IsOpen handler wait_objects n port state s (processed before r w reached fresh) =
    process-IsOpen n port r (Reached-IsOpen handler wait_objects n port before r reached) handler
      before w fresh
