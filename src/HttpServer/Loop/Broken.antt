-- ===== src/HttpServer/Loop/Broken.antt =====
-- What becomes of the loop over the clients when one of them closes its connection.
use my_power_mirror.Base.{
  ℕ, ◌≡◌, ◌≢◌, ◌⊎◌, inl, inr, refl, true, false, Option, none, some, List, [], ◌∷◌, ◌==◌, All,
  Bool-cases, Option-cases, ==→eq, ==→ne, Ensures-bind, Outcome, ok, fail, undefined_behavior,
  Ensures, gives, fails, Ensures-any, ◌>>=◌,
}
use my_power_mirror.Client.{Client}
use my_power_mirror.Descriptors.{fd_isset}
use my_power_mirror.HttpServer.Receiving.{Received, hung_up, broken, read_client, disconnected}
use my_power_mirror.HttpServer.Loop.{
  Host, get_client, apply_read, visit, step_on, unless_waiting, serve_clients, events, waits,
  process_round,
}
use my_power_mirror.HttpServer.Loop.Kept.{sockets, step_on-disconnect_client}

-- The peer has closed its connection, or it has failed.
abbrev pub IsGone : List Received → Type 0
IsGone inputs = (rest : List Received) × ((inputs ≡ hung_up ∷ rest) ⊎ (inputs ≡ broken ∷ rest))

read_client-IsGone :
    (cl : Client) (inputs : List Received) → IsGone inputs → read_client cl inputs ≡ ok disconnected
unfolding read_client
read_client-IsGone cl inputs (rest, inl e) = rw e
read_client-IsGone cl inputs (rest, inr e) = rw e

-- The pass for a client that is ready and gone.
pass-IsGone :
    (ready : List ℕ) (inputs : ℕ → List Received) (clfd : ℕ) (cl : Client) (h : Host)
    (next : Host → Outcome (Option Host))
    → fd_isset clfd ready ≡ true
    → IsGone (inputs clfd)
    → unless_waiting (visit ready inputs clfd cl h) (λ h'. step_on clfd h' >>= next)
      ≡ fail undefined_behavior
unfolding visit apply_read
pass-IsGone ready inputs clfd cl h next is_ready gone =
    rw (is_ready, read_client-IsGone cl (inputs clfd) gone, step_on-disconnect_client clfd h)

first-IsGone :
    (ready : List ℕ) (inputs : ℕ → List Received) (clfd : ℕ) (fds : List ℕ) (h : Host)
    → fd_isset clfd ready ≡ true
    → IsGone (inputs clfd)
    → serve_clients ready inputs (clfd ∷ fds) h ≡ fail undefined_behavior
unfolding serve_clients
first-IsGone ready inputs clfd fds h is_ready gone =
    elim (Option-cases (get_client clfd h.client_map)) [
      | inl e ↦ rw (e, serve_clients)
      | inr (cl, e) ↦
          rw (e, serve_clients)
            (pass-IsGone ready inputs clfd cl h (serve_clients ready inputs fds) is_ready gone)
    ]

unless_waiting-none :
    (fd : ℕ) (next : Host → Outcome (Option Host))
    → ((h' : Host) → Ensures (λ o. o ≡ none) (next h'))
    → (o : Option Host)
    → Ensures (λ o. o ≡ none) (elim o [ none ↦ ok none | some h' ↦ step_on fd h' >>= next ])
unless_waiting-none fd next ends none = gives refl
unless_waiting-none fd next ends (some h') = Ensures-any (step_on fd h') λ h'' _. ends h''

serve_clients-IsGone :
    (ready : List ℕ) (inputs : ℕ → List Received) (clfd : ℕ) (fds : List ℕ) (h : Host)
    → fd_isset clfd fds ≡ true
    → fd_isset clfd ready ≡ true
    → IsGone (inputs clfd)
    → Ensures (λ o. o ≡ none) (serve_clients ready inputs fds h)
unfolding serve_clients
serve_clients-IsGone ready inputs clfd [] h m is_ready gone = absurd (cc m)
serve_clients-IsGone ready inputs clfd (fd ∷ fds) h m is_ready gone =
    elim (Bool-cases (fd == clfd)) [
      | inl e ↦ rw (==→eq fd clfd e, first-IsGone ready inputs clfd fds h is_ready gone) fails
      | inr e ↦ elim (Option-cases (get_client fd h.client_map)) [
        | inl f ↦ rw (f, serve_clients) fails
        | inr (cl, f) ↦
            rw (f, serve_clients)
              (Ensures-any (visit ready inputs fd cl h) λ o _.
                unless_waiting-none fd (serve_clients ready inputs fds)
                  (λ h'. serve_clients-IsGone ready inputs clfd fds h' (rw e at m) is_ready gone) o)
      ]
    ]

quiet-IsGone :
    (ready : List ℕ) (inputs : ℕ → List Received) (clfd : ℕ) (fds : List ℕ) (h : Host)
    → fd_isset clfd fds ≡ true
    → fd_isset clfd ready ≡ true
    → IsGone (inputs clfd)
    → All (λ fd. fd ≢ clfd → fd_isset fd ready ≡ false) fds
    → serve_clients ready inputs fds h ≡ fail undefined_behavior
unfolding serve_clients visit step_on
quiet-IsGone ready inputs clfd [] h m is_ready gone quiet = absurd (cc m)
quiet-IsGone ready inputs clfd (fd ∷ fds) h m is_ready gone quiet = elim (Bool-cases (fd == clfd)) [
  | inl e ↦ rw (==→eq fd clfd e) (first-IsGone ready inputs clfd fds h is_ready gone)
  | inr e ↦ elim (Option-cases (get_client fd h.client_map)) [
    | inl f ↦ rw (f, serve_clients)
    | inr (cl, f) ↦
        rw (f, serve_clients, quiet.0 (==→ne fd clfd e), f, step_on)
          (quiet-IsGone ready inputs clfd fds h (rw e at m) is_ready gone quiet.1)
  ]
]

fd_isset-sockets :
    (clfd : ℕ) (clients : List (ℕ × Client)) {cl : Client}
    → get_client clfd clients ≡ some cl
    → fd_isset clfd (sockets clients) ≡ true
unfolding get_client
fd_isset-sockets clfd [] h = absurd (cc h)
fd_isset-sockets clfd ((fd, old) ∷ clients) h = elim (Bool-cases (fd == clfd)) [
  | inl e ↦ rw e
  | inr e ↦ rw e (fd_isset-sockets clfd clients (rw (e, get_client) at h))
]

-- A round in which a client of the map is ready, and `recv` says that its peer has closed the
-- connection or fails, gives no next state, whatever else happens in it: it waits in a call of
-- `recv`, or it fails.
process_round-IsGone :
    (ready : List ℕ) (connection : Option ℕ) (inputs : ℕ → List Received) (clfd : ℕ) (h : Host)
    {cl : Client}
    → get_client clfd h.client_map ≡ some cl
    → fd_isset clfd ready ≡ true
    → IsGone (inputs clfd)
    → Ensures (λ r. r ≡ waits) (process_round (events ready connection inputs) h)
unfolding process_round
process_round-IsGone ready connection inputs clfd h there is_ready gone =
    Ensures-bind
      (serve_clients-IsGone ready inputs clfd (sockets h.client_map) h
        (fd_isset-sockets clfd h.client_map there) is_ready gone)
      λ o e. rw e (gives refl)

-- If the only client of the map that is ready has closed its connection, or `recv` fails, the
-- round is undefined behaviour: the iterator goes on from the entry that was erased.
pub process_round-undefined :
    (ready : List ℕ) (connection : Option ℕ) (inputs : ℕ → List Received) (clfd : ℕ) (h : Host)
    {cl : Client}
    → get_client clfd h.client_map ≡ some cl
    → fd_isset clfd ready ≡ true
    → IsGone (inputs clfd)
    → All (λ fd. fd ≢ clfd → fd_isset fd ready ≡ false) (sockets h.client_map)
    → process_round (events ready connection inputs) h ≡ fail undefined_behavior
unfolding process_round
process_round-undefined ready connection inputs clfd h there is_ready gone quiet = rw (
    quiet-IsGone ready inputs clfd (sockets h.client_map) h
      (fd_isset-sockets clfd h.client_map there) is_ready gone quiet)
