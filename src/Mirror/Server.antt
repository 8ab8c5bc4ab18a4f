-- ===== src/Mirror/Server.antt =====
-- server.c, `main`: the table of the clients and one round of the loop over them. What `select`,
-- `accept` and `recv` give is the environment's choice; printing is left out.
pub mod Answering
pub mod Connecting
pub mod Ending
pub mod Fuel
pub mod Lost
pub mod Reads
pub mod Table
pub mod Tests
pub mod Valid
use my_power_mirror.Base.{
  ℕ, zero, suc, ◌+◌, ◌-◌, ◌≡◌, Bool, true, false, ◌||◌, Option, none, some, List, [], ◌∷◌, ◌++◌,
  Bytes, codes, ltb, leb, ◌==◌, if◌then◌else◌, length, replicate, get_elem?, max, Outcome, ok, fail,
  undefined_behavior, out_of_fuel, ◌>>=◌,
}
use my_power_mirror.CString.{Pointer, unset, null, str, deref, before}
use my_power_mirror.CString.Numbers.{atoi}
pub use my_power_mirror.Descriptors.{fd_set_size, fd_isset, fd_set, fd_clr}
use my_power_mirror.Mirror.Http.{Request, parse_request}
use my_power_mirror.Mirror.Response.{HeapText, strcat, response}

-- BUFFER_SIZE and LISTEN_COUNT
abbrev pub buffer_size : ℕ
buffer_size = 250000

abbrev pub listen_count : ℕ
listen_count = 10

-- What the program does to its descriptors and its file.
pub data Effect : Type 0 where
  received closed : ℕ → Effect
  sent : ℕ → Bytes → Effect
  wrote : Bytes → Effect

-- The variables of `main`; `client_fd` has no value before the first `accept`. `incoming` is what
-- the next calls of `recv` give, nothing for a result of 0 or less; `effects` is what was done.
pub record Server : Type 0 where
  pub server_fd : ℕ
  pub client : List ℕ
  pub client_count : ℕ
  pub client_fd : Option ℕ
  pub readfd : List ℕ
  pub maxfd : ℕ
  pub incoming : List Bytes
  pub effects : List Effect

-- The state in front of the loop.
abbrev pub start : ℕ → List Bytes → Server
start server_fd incoming = record {
  server_fd = server_fd;
  client = replicate listen_count 0;
  client_count = 0;
  client_fd = none;
  readfd = server_fd ∷ [];
  maxfd = server_fd;
  incoming = incoming;
  effects = [];
}

-- client[i], read and written.
unfoldable pub slot : List ℕ → ℕ → Outcome ℕ
slot [] i = fail undefined_behavior
slot (x ∷ client) zero = ok x
slot (x ∷ client) (suc i) = slot client i

unfoldable pub set_slot : List ℕ → ℕ → ℕ → Outcome (List ℕ)
set_slot [] i fd = fail undefined_behavior
set_slot (x ∷ client) zero fd = ok (fd ∷ client)
set_slot (x ∷ client) (suc i) fd = do client' ← set_slot client i fd; ok (x ∷ client')

-- The buffer as a C string: a full one has a NUL only if the bytes have.
unfoldable pub buffer_text : Bytes → Outcome Bytes
buffer_text bytes =
    if ltb (length (before 0 bytes)) buffer_size
    then ok (before 0 bytes)
    else fail undefined_behavior

abbrev pub with_effect : Server → Effect → Server
with_effect s e = record s { effects = s.effects ++ e ∷ [] }

-- recv(clientFd, buffer, sizeof(buffer), 0)
unfoldable pub receive_from : Option ℕ → List Bytes → Server → Outcome (Bytes × Server)
receive_from none incoming s = fail undefined_behavior
receive_from (some fd) [] s = ok ([], with_effect s (received fd))
receive_from (some fd) (bytes ∷ rest) s =
    ok (bytes, record (with_effect s (received fd)) { incoming = rest })

abbrev pub receive : Server → Outcome (Bytes × Server)
receive s = receive_from s.client_fd s.incoming s

-- totalLen += len, of an `int`
abbrev pub add_int : ℕ → ℕ → Outcome ℕ
add_int a b = if ltb (a + b) 2147483648 then ok (a + b) else fail undefined_behavior

-- The inner loop, on what the calls of `recv` give: the content so far, its length, and what is
-- left to be received, with the effects.
unfoldable pub receive_content :
    ℕ → Pointer → HeapText → ℕ → List Bytes → List Effect → Outcome (List Bytes × List Effect)
receive_content fd content_length content total [] effects = ok ([], effects ++ received fd ∷ [])
receive_content fd content_length content total ([] ∷ rest) effects =
    ok (rest, effects ++ received fd ∷ [])
receive_content fd content_length content total ((x ∷ bytes) ∷ rest) effects =
    let effects' = effects ++ received fd ∷ wrote (x ∷ bytes) ∷ [] in
    buffer_text (x ∷ bytes) >>= λ text. strcat content text >>= λ content'.
    add_int total (length (x ∷ bytes)) >>= λ total'. deref content_length >>= λ digits.
    atoi digits >>= λ expected.
    let more = receive_content fd content_length content' total' rest effects' in
    if total' == expected then ok (rest, effects') else more

-- res.Expect != NULL
abbrev pub is_set : Pointer → Outcome Bool
is_set unset = fail undefined_behavior
is_set null = ok false
is_set (str s) = ok true

-- The variable clientFd, read.
abbrev pub known_fd : Option ℕ → Outcome ℕ
known_fd none = fail undefined_behavior
known_fd (some fd) = ok fd

-- The branch for a request with `Expect`; a file that is not opened is written and closed all the
-- same.
unfoldable pub expect_content : Bool → ℕ → Request → Server → Outcome Server
expect_content opens fd res s =
    let s' = with_effect s (sent fd (codes "HTTP/1.1 200 OK\r\n")) in
    let content : HeapText = record { size = buffer_size; text = [] } in
    if opens
    then (known_fd s.client_fd >>= λ from.
        receive_content from res.content_length content 0 s'.incoming s'.effects
        >>= λ (rest, effects). ok (record s' { incoming = rest; effects = effects }))
    else fail undefined_behavior

unfoldable pub close_client : ℕ → ℕ → Server → Outcome Server
close_client i fd s = set_slot s.client i 0 >>= λ client. ok (record (with_effect s (closed fd)) {
  readfd = fd_clr fd s.readfd;
  client = client;
  client_count = s.client_count - 1;
})

unfoldable pub answer : Bool → ℕ → Bytes → Server → Outcome Server
answer opens fd bytes s = do
  text ← buffer_text bytes
  res ← parse_request text
  expects ← is_set res.expect
  s' ← if expects then expect_content opens fd res s else ok s
  reply ← response res
  ok (with_effect s' (sent fd reply))

-- The body of the loop over the clients.
unfoldable pub serve_client : List ℕ → Bool → ℕ → Server → Outcome Server
serve_client ready opens i s = slot s.client i >>= λ fd.
    if fd_isset fd ready
    then (receive s >>= λ (bytes, s').
        if length bytes == 0 then close_client i fd s' else answer opens fd bytes s')
    else ok s

-- for (i ...; i < clientCount; i++), in at most this many rounds: what is left to be served when
-- they are used up is a failure of the model.
unfoldable pub serve : ℕ → List ℕ → Bool → ℕ → Server → Outcome Server
serve zero ready opens i s = if ltb i s.client_count then fail out_of_fuel else ok s
serve (suc left) ready opens i s =
    let rest = λ (s : Server). serve left ready opens (i + 1) s in
    if ltb i s.client_count then serve_client ready opens i s >>= rest else ok s

unfoldable pub add_client : ℕ → Server → Outcome Server
add_client fd s = do
  client ← set_slot s.client s.client_count fd
  readfd ← fd_set fd s.readfd
  ok (record s {
    client_fd = some fd;
    client = client;
    client_count = s.client_count + 1;
    readfd = readfd;
    maxfd = max s.maxfd fd;
  })

-- What `select` gives: an error, nothing, or the descriptors that are ready, with what `accept` and
-- `fopen` give in this round.
pub data Selected : Type 0 where
  failed timed_out : Selected
  ready : List ℕ → Option ℕ → Bool → Selected

-- `main` goes on with the next round, or returns.
pub data Next : Type 0 where
  running : Server → Next
  stopped : Next

abbrev pub accept_client : List ℕ → Option ℕ → Server → Outcome Next
accept_client fds connection s =
    if fd_isset s.server_fd fds
    then (elim connection [
      | none ↦ ok stopped
      | some fd ↦ add_client fd s >>= λ s'. ok (running s')
    ])
    else ok (running s)

-- One round of `while (1)`.
unfoldable pub round : Selected → Server → Outcome Next
round failed s = ok stopped
round timed_out s = ok (running s)
round (ready fds connection opens) s =
    serve s.client_count fds opens 0 s >>= λ s'. accept_client fds connection s'

-- The states that the loop comes to.
pub data Reach (s : Server) : Server → Type 0 where
  here : Reach s s
  next :
      {t u : Server} (selected : Selected)
      → Reach s t
      → round selected t ≡ ok (running u)
      → Reach s u
