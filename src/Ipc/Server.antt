-- ===== src/Ipc/Server.antt =====
-- The sessions of Source/ryazha-clk/sysmodule/src/ipc/ipc_server.c. What the kernel answers is part of
-- each call. The handler's result and its data are taken to be ready when the response is prepared.
pub mod Sessions
pub mod Open
use rcu.Base.{
  ℕ, zero, suc, ◌+◌, ◌-◌, Bool, true, false, not, ◌&&◌, ◌||◌, Option, none, some, List, [], ◌∷◌,
  ltb, leb, ◌==◌, if◌then◌else◌, for_below, ℤ, pos, negsuc,
}
use rcu.Ipc.Request.{
  Result, success, bad_input, out_of_memory, not_found, unknown_type, timed_out, succeeded, Kind,
  request, close, other_kind, Hipc, Data, parse_request,
}

-- `IpcServer`, with the handles that `svcCloseHandle` was called for, the newest first.
pub record Server : Type 0 where
  pub handles : ℕ → ℕ
  pub max : ℕ
  pub count : ℕ
  pub closed : List ℕ

abbrev pub put_handle : ℕ → ℕ → Server → Server
put_handle i h s = record s { handles = λ j. if j == i then h else s.handles j }

abbrev pub close_handle : ℕ → Server → Server
close_handle h s = record s { closed = h ∷ s.closed }

-- `ipcServerInit`, where `wait_objects` is libnx's `MAX_WAIT_OBJECTS` and `registered` what
-- `smRegisterService` returns, with the handle that it gives.
unfoldable pub init : ℕ → ℕ → Result × ℕ → Server → Result × Server
init wait_objects max_sessions (registered, port) s =
    if ltb max_sessions 1 || ltb (wait_objects - 1) max_sessions
    then (bad_input, s)
    else let opened = put_handle 0 port (record s { max = max_sessions + 1; count = 0 }) in
      if succeeded registered
      then (registered, record opened { count = 1 })
      else (registered, record s { max = max_sessions + 1; count = 0 })

-- `_ipcServerAddSession`.
unfoldable pub add_session : ℕ → Server → Result × Server
add_session session s =
    if leb s.max s.count
    then (out_of_memory, s)
    else (success, record (put_handle s.count session s) { count = s.count + 1 })

-- `for(u32 j = index; j < (server->count - 1); j++)`: the rounds that are left, from `j` on.
abbrev pub shift_down : ℕ → ℕ → (ℕ → ℕ) → ℕ → ℕ
shift_down zero j handles = handles
shift_down (suc n) j handles =
    shift_down n (j + 1) (λ i. if i == j then handles (j + 1) else handles i)

-- `_ipcServerDeleteSession`.
unfoldable pub delete_session : ℕ → Server → Result × Server
delete_session index s = if index == 0 || leb s.count index then (bad_input, s) else (
  success,
  record s {
    handles = shift_down (s.count - 1 - index) index s.handles;
    count = s.count - 1;
    closed = s.handles index ∷ s.closed;
  },
)

-- `_ipcServerProcessNewSession`, by what `svcAcceptSession` returns.
unfoldable pub process_new_session : Result × ℕ → Server → Result × Server
process_new_session (accepted, session) s =
    if succeeded accepted
    then (let (rc, t) = add_session session s in
        if succeeded rc then (rc, t) else (rc, close_handle session t))
    else (accepted, s)

-- What the kernel answers while a session is served: the two calls of `svcReplyAndReceive`.
pub record Exchange : Type 0 where
  pub received : Result
  pub hipc : Hipc
  pub replied : Result

-- The response that `_ipcServerPrepareResponse` writes: the result, and the data if it succeeded.
pub record Response (R : Type 0) : Type 0 where
  pub result : Result
  pub reply : Option R

abbrev pub prepare_response : {R : Type 0} → Result → Option R → Response R
prepare_response rc reply = record { result = rc; reply = if succeeded rc then reply else none }

-- The handler: from a request and its state to a result, data and the new state.
abbrev pub Handler : Type 0 → Type 0 → Type 0
Handler S R = Hipc → Data → S → Result × (Option R × S)

-- The `switch` of `_ipcServerProcessSession`: the response, the new state, and `close`.
abbrev pub respond : {S R : Type 0} → Handler S R → Hipc → Data → S → Response R × (S × Bool)
respond handler r d state = elim r.kind [
  | request ↦
      let (rc, (reply, after)) = handler r d state in (prepare_response rc reply, (after, false))
  | close ↦ (prepare_response success none, (state, true))
  | other_kind ↦ (prepare_response unknown_type none, (state, false))
]

abbrev pub or_success : Result → Result
or_success timed_out = success
or_success r = r

-- The end of `_ipcServerProcessSession`.
abbrev pub close_if : Bool → ℕ → Server → Server
close_if b index s = if b then (delete_session index s).1 else s

-- What a call leaves: the result, the response if one was sent, the state of the handler, the server.
pub record After (S : Type 0) (R : Type 0) : Type 0 where
  pub result : Result
  pub response : Option (Response R)
  pub state : S
  pub server : Server

-- `_ipcServerProcessSession` from where the request has been parsed.
unfoldable pub serve :
    {S R : Type 0} → Handler S R → ℕ → Exchange → Option Data → S → Server → After S R
serve handler index x none state s = record {
  result = bad_input;
  response = none;
  state = state;
  server = close_if true index s;
}
serve handler index x (some d) state s =
    let (response, (after, closes)) = respond handler x.hipc d state in
    let rc = or_success x.replied in
    record {
      result = rc;
      response = some response;
      state = after;
      server = close_if (not (succeeded rc) || closes) index s;
    }

-- `_ipcServerProcessSession`.
unfoldable pub process_session :
    {S R : Type 0} → Handler S R → ℕ → Exchange → S → Server → After S R
process_session handler index x state s =
    if succeeded x.received then serve handler index x (parse_request x.hipc) state s else record {
      result = x.received;
      response = none;
      state = state;
      server = close_if true index s;
    }

-- What the kernel answers in a call of `ipcServerProcess`.
pub record Wake : Type 0 where
  pub waited : Result
  pub index : ℤ
  pub accepted : Result × ℕ
  pub exchange : Exchange

abbrev pub unserved : {S R : Type 0} → Result → S → Server → After S R
unserved rc state s = record { result = rc; response = none; state = state; server = s }

abbrev pub process_at : {S R : Type 0} → Handler S R → Wake → ℕ → S → Server → After S R
process_at handler w i state s =
    if leb s.count i
    then unserved not_found state s
    else if i == 0
    then (let (rc, t) = process_new_session w.accepted s in unserved rc state t)
    else process_session handler i w.exchange state s

-- `ipcServerProcess`.
unfoldable pub process : {S R : Type 0} → Handler S R → Wake → S → Server → After S R
process handler w state s =
    if succeeded w.waited
    then elim w.index [
      | pos i ↦ process_at handler w i state s
      | negsuc i ↦ unserved not_found state s
    ]
    else unserved w.waited state s
