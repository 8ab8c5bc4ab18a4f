-- ===== src/HttpServer/Loop.antt =====
-- src/HTTPServer.cpp, start, stop, getClient, acceptConnection, disconnectClient and the rounds of
-- process: the map of the clients and the descriptors of `select`. What the calls of the system
-- give is the environment's choice; printing is left out.
pub mod Served
pub mod Tests
pub mod Valid
pub mod Answered
pub mod Broken
pub mod Each
pub mod Kept
pub mod Rounds
pub mod RunTests
pub mod Silent
use my_power_mirror.Base.{
  ℕ, ◌≡◌, Bool, true, false, Option, none, some, List, [], ◌∷◌, map, ◌==◌, if◌then◌else◌, max,
  Outcome, ok, fail, undefined_behavior, ◌>>=◌,
}
use my_power_mirror.Client.{Client, new_client}
use my_power_mirror.Descriptors.{fd_isset, fd_set, fd_clr}
use my_power_mirror.HttpServer.Receiving.{
  Received, Read, disconnected, waiting, handled, read_client,
}

-- The server once it has a listening socket; the clients stand by their sockets, in the order in
-- which the map is gone through, which the source leaves open: a new one is put in front here.
pub record Host : Type 0 where
  pub can_run : Bool
  pub listen_socket : ℕ
  pub read_fd : List ℕ
  pub maxfd : ℕ
  pub client_map : List (ℕ × Client)

-- What `socket`, `bind` and `listen` give; nothing where start returns false.
abbrev pub start : Option ℕ → Bool → Bool → Outcome (Option Host)
start none bound listens = ok none
start (some listen_socket) bound listens =
    if bound
    then (if listens
        then (fd_set listen_socket [] >>= λ read_fd. ok (
            some (record {
              can_run = true;
              listen_socket = listen_socket;
              read_fd = read_fd;
              maxfd = listen_socket;
              client_map = [];
            })))
        else ok none)
    else ok none

abbrev pub stop : Host → Host
stop h = record h { can_run = false }

-- find, erase and insert of the map.
unfoldable pub get_client : ℕ → List (ℕ × Client) → Option Client
get_client clfd [] = none
get_client clfd ((fd, cl) ∷ clients) =
    let rest = get_client clfd clients in if fd == clfd then some cl else rest

unfoldable pub erase_client : ℕ → List (ℕ × Client) → List (ℕ × Client)
erase_client clfd [] = []
erase_client clfd ((fd, cl) ∷ clients) =
    let rest = erase_client clfd clients in if fd == clfd then rest else (fd, cl) ∷ rest

unfoldable pub insert_client : ℕ → Client → List (ℕ × Client) → List (ℕ × Client)
insert_client clfd cl clients = elim (get_client clfd clients) [
  | none ↦ (clfd, cl) ∷ clients
  | some old ↦ clients
]

-- The client at a socket, changed through its pointer.
unfoldable pub set_client : ℕ → Client → List (ℕ × Client) → List (ℕ × Client)
set_client clfd cl [] = []
set_client clfd cl ((fd, old) ∷ clients) =
    let rest = set_client clfd cl clients in
    if fd == clfd then (fd, cl) ∷ rest else (fd, old) ∷ rest

unfoldable pub accept_connection : Option ℕ → Host → Outcome Host
accept_connection none h = ok h
accept_connection (some clfd) h = fd_set clfd h.read_fd >>= λ read_fd. ok (record h {
  client_map = insert_client clfd new_client h.client_map;
  read_fd = read_fd;
  maxfd = max h.maxfd clfd;
})

abbrev pub disconnect_client : ℕ → Bool → Host → Host
disconnect_client clfd map_erase h = record h {
  read_fd = fd_clr clfd h.read_fd;
  client_map = if map_erase then erase_client clfd h.client_map else h.client_map;
}

-- readClient for the client at a socket; nothing where it still waits.
unfoldable pub apply_read : ℕ → Host → Read → Option Host
apply_read clfd h disconnected = some (disconnect_client clfd true h)
apply_read clfd h waiting = none
apply_read clfd h (handled cl) = some (record h { client_map = set_client clfd cl h.client_map })

unfoldable pub visit : List ℕ → (ℕ → List Received) → ℕ → Client → Host → Outcome (Option Host)
visit ready inputs clfd cl h =
    if fd_isset clfd ready
    then (read_client cl (inputs clfd) >>= λ r. ok (apply_read clfd h r))
    else ok (some h)

-- it++: the entry under the iterator has to be in the map still.
unfoldable pub step_on : ℕ → Host → Outcome Host
step_on clfd h = elim (get_client clfd h.client_map) [
  | none ↦ fail undefined_behavior
  | some cl ↦ ok h
]

-- A step of a loop that goes on unless it waits.
abbrev pub unless_waiting {ℓ κ} :
    {A : Type ℓ} {B : Type κ} → Outcome (Option A) → (A → Outcome (Option B)) → Outcome (Option B)
unless_waiting m f = m >>= λ o. elim o [ none ↦ ok none | some a ↦ f a ]

-- The loop over the map, from the sockets in it at the start: no pass adds one. `it->second` is
-- looked up, since an earlier pass may have changed a client.
unfoldable pub serve_clients : List ℕ → (ℕ → List Received) → List ℕ → Host → Outcome (Option Host)
serve_clients ready inputs [] h = ok (some h)
serve_clients ready inputs (clfd ∷ fds) h = elim (get_client clfd h.client_map) [
  | none ↦ fail undefined_behavior
  | some cl ↦
      unless_waiting (visit ready inputs clfd cl h)
        λ h'. step_on clfd h' >>= λ h'. serve_clients ready inputs fds h'
]

-- What `select` gives: an error, nothing, or the descriptors that are ready, with what `accept`
-- gives and what `recv` gives for each socket.
pub data Events : Type 0 where
  select_failed timeout : Events
  events : List ℕ → Option ℕ → (ℕ → List Received) → Events

-- process goes on with the next round, waits in a call of `recv`, or returns.
pub data Round : Type 0 where
  proceeds : Host → Round
  waits returns : Round

abbrev pub accept_ready : List ℕ → Option ℕ → Host → Outcome Host
accept_ready ready connection h =
    if fd_isset h.listen_socket ready then accept_connection connection h else ok h

unfoldable pub process_round : Events → Host → Outcome Round
process_round select_failed h = ok returns
process_round timeout h = ok (proceeds h)
process_round (events ready connection inputs) h =
    serve_clients ready inputs (map (λ e. e.0) h.client_map) h >>= λ o. elim o [
      | none ↦ ok waits
      | some h' ↦ accept_ready ready connection h' >>= λ h''. ok (proceeds h'')
    ]

-- The states that process comes to.
pub data Processed (h : Host) : Host → Type 0 where
  begin : Processed h h
  after :
      {t u : Host} (e : Events)
      → Processed h t
      → process_round e t ≡ ok (proceeds u)
      → Processed h u
