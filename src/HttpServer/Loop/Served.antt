-- ===== src/HttpServer/Loop/Served.antt =====
-- The loop over the clients of process as one function on the entries of the map.
use my_power_mirror.Base.{
  ℕ, ◌≡◌, ◌≢◌, refl, sym, ap, ◌∙◌, inl, inr, true, Option, some, List, [], ◌∷◌, ◌++◌, append_assoc,
  map, if◌then◌else◌, All, All-append, Bool-cases, ne→==, eq→==, Outcome, ok, ◌>>=◌,
}
use my_power_mirror.Client.{Client}
use my_power_mirror.Descriptors.{fd_isset}
use my_power_mirror.HttpServer.Receiving.{Received, handled, read_client}
use my_power_mirror.HttpServer.Loop.{
  Host, get_client, set_client, apply_read, visit, step_on, unless_waiting, serve_clients, events,
  proceeds, accept_ready, process_round,
}
use my_power_mirror.HttpServer.Loop.Kept.{sockets}
use my_power_mirror.HttpServer.Loop.Valid.{Distinct, IsValid}

-- The socket is none of these entries'.
abbrev Without : ℕ → List (ℕ × Client) → Type 0
Without fd = All (λ e. e.0 ≢ fd)

get_client-Without :
    (fd : ℕ) (cl : Client) (front rest : List (ℕ × Client))
    → Without fd front
    → get_client fd (front ++ (fd, cl) ∷ rest) ≡ some cl
unfolding get_client
get_client-Without fd cl [] rest w = rw (eq→== fd fd refl)
get_client-Without fd cl ((x, old) ∷ front) rest w =
    rw (ne→== x fd w.0) (get_client-Without fd cl front rest w.1)

set_client-missing :
    (fd : ℕ) (cl : Client) (clients : List (ℕ × Client))
    → Without fd clients
    → set_client fd cl clients ≡ clients
unfolding set_client
set_client-missing fd cl [] w = refl
set_client-missing fd cl ((x, old) ∷ clients) w =
    rw (ne→== x fd w.0, set_client-missing fd cl clients w.1)

set_client-Without :
    (fd : ℕ) (cl cl' : Client) (front rest : List (ℕ × Client))
    → Without fd front
    → Without fd rest
    → set_client fd cl' (front ++ (fd, cl) ∷ rest) ≡ front ++ (fd, cl') ∷ rest
unfolding set_client
set_client-Without fd cl cl' [] rest w v = rw (eq→== fd fd refl, set_client-missing fd cl' rest v)
set_client-Without fd cl cl' ((x, old) ∷ front) rest w v =
    rw (ne→== x fd w.0, set_client-Without fd cl cl' front rest w.1 v)

step_on-Without :
    (fd : ℕ) (cl : Client) (front rest : List (ℕ × Client)) (h : Host)
    → Without fd front
    → step_on fd (record h { client_map = front ++ (fd, cl) ∷ rest })
      ≡ ok (record h { client_map = front ++ (fd, cl) ∷ rest })
unfolding step_on
step_on-Without fd cl front rest h w = rw (get_client-Without fd cl front rest w, step_on)

-- What a round makes of an entry: a ready client becomes what its reply leaves of it.
abbrev pub served : List ℕ → (ℕ → Client → Client) → ℕ × Client → ℕ × Client
served ready reply (fd, cl) = (fd, if fd_isset fd ready then reply fd cl else cl)

-- Each ready client's request is handled, by `reply`.
abbrev pub Replies :
    List ℕ → (ℕ → List Received) → (ℕ → Client → Client) → List (ℕ × Client) → Type 0
Replies ready inputs reply =
    All λ e. fd_isset e.0 ready ≡ true → read_client e.1 (inputs e.0) ≡ ok (handled (reply e.0 e.1))

pass-served :
    (ready : List ℕ) (inputs : ℕ → List Received) (reply : ℕ → Client → Client) (fd : ℕ)
    (cl : Client) (front rest : List (ℕ × Client)) (h : Host) (next : Host → Outcome (Option Host))
    → Without fd front
    → Without fd rest
    → (fd_isset fd ready ≡ true → read_client cl (inputs fd) ≡ ok (handled (reply fd cl)))
    → unless_waiting
        (visit ready inputs fd cl (record h { client_map = front ++ (fd, cl) ∷ rest }))
        (λ h'. step_on fd h' >>= next)
      ≡ next (record h { client_map = front ++ served ready reply (fd, cl) ∷ rest })
unfolding visit apply_read
pass-served ready inputs reply fd cl front rest h next w v r =
    elim (Bool-cases (fd_isset fd ready)) [
      | inl e ↦
          rw (e, r e)
            (ap (λ m. m >>= next)
              (ap {A = List (ℕ × Client)} (λ m. step_on fd (record h { client_map = m }))
                  (set_client-Without fd cl (reply fd cl) front rest w v)
                ∙ step_on-Without fd (reply fd cl) front rest h w))
      | inr e ↦ rw (e, step_on-Without fd cl front rest h w)
    ]

serve_clients-Without :
    (ready : List ℕ) (inputs : ℕ → List Received) (fd : ℕ) (cl : Client)
    (front rest : List (ℕ × Client)) (h : Host)
    → Without fd front
    → serve_clients ready inputs
        (fd ∷ sockets rest)
        (record h { client_map = front ++ (fd, cl) ∷ rest })
      ≡ unless_waiting
          (visit ready inputs fd cl (record h { client_map = front ++ (fd, cl) ∷ rest }))
          (λ h'. step_on fd h' >>= serve_clients ready inputs (sockets rest))
unfolding serve_clients
serve_clients-Without ready inputs fd cl front rest h w =
    rw (get_client-Without fd cl front rest w, serve_clients)

Without-sockets :
    (fd : ℕ) (clients : List (ℕ × Client))
    → All (λ x. x ≢ fd) (sockets clients)
    → Without fd clients
Without-sockets fd [] h = tt
Without-sockets fd (e ∷ clients) h = (h.0, Without-sockets fd clients h.1)

no_front : (clients : List (ℕ × Client)) → All (λ e. Without e.0 []) clients
no_front [] = tt
no_front (e ∷ clients) = (tt, no_front clients)

apart-append :
    (front : List (ℕ × Client)) (one : ℕ × Client) (rest : List (ℕ × Client))
    → All (λ x. x ≢ one.0) (sockets rest)
    → All (λ e. Without e.0 front) rest
    → All (λ e. Without e.0 (front ++ one ∷ [])) rest
apart-append front one [] h w = tt
apart-append front one (e ∷ rest) h w = (
  All-append _ front (one ∷ []) w.0 ((λ same. h.0 (sym same)), tt),
  apart-append front one rest h.1 w.1,
)

-- The entries behind those that the loop has been at.
todo-served :
    (ready : List ℕ) (inputs : ℕ → List Received) (reply : ℕ → Client → Client)
    (front todo : List (ℕ × Client)) (h : Host)
    → All (λ e. Without e.0 front) todo
    → Distinct (sockets todo)
    → Replies ready inputs reply todo
    → serve_clients ready inputs (sockets todo) (record h { client_map = front ++ todo })
      ≡ ok (some (record h { client_map = front ++ map (served ready reply) todo }))
unfolding serve_clients
todo-served ready inputs reply front [] h w d r = refl
todo-served ready inputs reply front ((fd, cl) ∷ rest) h w d r =
    let one = served ready reply (fd, cl) in
    let apart : All (λ e. Without e.0 (front ++ one ∷ [])) rest =
      apart-append front one rest d.0 w.1 in
    serve_clients-Without ready inputs fd cl front rest h w.0
    ∙ pass-served ready inputs reply fd cl front rest h (serve_clients ready inputs (sockets rest))
        w.0 (Without-sockets fd rest d.0) r.0
    ∙ ap {A = List (ℕ × Client)}
        (λ m. serve_clients ready inputs (sockets rest) (record h { client_map = m }))
        (sym (append_assoc front (one ∷ []) rest))
    ∙ todo-served ready inputs reply (front ++ one ∷ []) rest h apart d.1 r.1
    ∙ ap {A = List (ℕ × Client)} (λ m. ok (some (record h { client_map = m })))
        (append_assoc front (one ∷ []) (map (served ready reply) rest))

-- A round in a valid state in which each ready client sends a request that is handled at once: it
-- changes the map entry by entry, so that each ready client is served once and no other client
-- changes, and then a connection is accepted if the listening socket is ready.
pub process_round-served :
    (ready : List ℕ) (connection : Option ℕ) (inputs : ℕ → List Received)
    (reply : ℕ → Client → Client) (h : Host)
    → IsValid h
    → Replies ready inputs reply h.client_map
    → process_round (events ready connection inputs) h ≡ (
        accept_ready ready connection
          (record h { client_map = map (served ready reply) h.client_map })
        >>= λ h'. ok (proceeds h'))
unfolding process_round
process_round-served ready connection inputs reply h v r =
    rw (todo-served ready inputs reply [] h.client_map h (no_front h.client_map) v.distinct r)
