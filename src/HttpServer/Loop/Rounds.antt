-- ===== src/HttpServer/Loop/Rounds.antt =====
-- The rounds of process and a property of the clients that each call of readClient keeps.
use my_power_mirror.Base.{
  ℕ, ◌≡◌, inl, inr, Bool, Option, none, some, List, [], ◌∷◌, map, Option-cases, ltb, Outcome, ok,
  fail, ◌>>=◌, Ends, undefined, returns, breaks, Ends-bind, Ends-if, Ends-Ensures, Ensures-ok,
}
use my_power_mirror.Client.{Client, new_client}
use my_power_mirror.Descriptors.{fd_isset, fd_set}
use my_power_mirror.HttpServer.Receiving.{
  Received, Read, disconnected, waiting, handled, read_client,
}
use my_power_mirror.HttpServer.Loop.{
  Host, start, get_client, accept_connection, apply_read, visit, step_on, unless_waiting,
  serve_clients, Events, select_failed, timeout, events, Round, proceeds, waits, returns,
  accept_ready, process_round, Processed, begin, after,
}
use my_power_mirror.HttpServer.Loop.Each.{
  Each, erase_client-Each, set_client-Each, insert_client-Each, get_client-Each,
}

-- The client that readClient leaves, where it leaves one, has the property.
abbrev pub OnClient : (Client → Type 0) → Read → Type 0
OnClient P disconnected = Unit
OnClient P waiting = Unit
OnClient P (handled cl) = P cl

-- What is received in a round has a property.
abbrev pub OnEvents : (List Received → Type 0) → Events → Type 0
OnEvents Q select_failed = Unit
OnEvents Q timeout = Unit
OnEvents Q (events ready connection inputs) = (fd : ℕ) → Q (inputs fd)

-- The same in each round of a run.
abbrev pub OnRun : (List Received → Type 0) → {h h' : Host} → Processed h h' → Type 0
OnRun Q begin = Unit
OnRun Q (after e run step) = OnRun Q run × OnEvents Q e

-- Each client of a host has the property; that of what a loop comes to, which may wait, and of a
-- round.
abbrev pub OnHost : (Client → Type 0) → Host → Type 0
OnHost P h = Each P h.client_map

abbrev pub OnOption : (Client → Type 0) → Option Host → Type 0
OnOption P none = Unit
OnOption P (some h) = OnHost P h

abbrev pub OnRound : (Client → Type 0) → Round → Type 0
OnRound P (proceeds h) = OnHost P h
OnRound P waits = Unit
OnRound P returns = Unit

module _ (P : Client → Type 0) (Q : List Received → Type 0) (fresh : P new_client)
    (keeps : (cl : Client) (rs : List Received)
      → P cl
      → Q rs
      → Ends (OnClient P) (read_client cl rs)) where
  apply_read-OnHost :
      (clfd : ℕ) (cl : Client) (h : Host) (r : Read)
      → P cl
      → OnHost P h
      → OnClient P r
      → OnOption P (apply_read clfd h r)
  unfolding apply_read
  apply_read-OnHost clfd cl h disconnected new kept same =
      erase_client-Each P clfd h.client_map kept
  apply_read-OnHost clfd cl h waiting new kept same = tt
  apply_read-OnHost clfd cl h (handled cl') new kept same =
      set_client-Each P clfd cl' h.client_map same kept

  visit-OnHost :
      (ready : List ℕ) (inputs : ℕ → List Received) (clfd : ℕ) (cl : Client) (h : Host)
      → ((fd : ℕ) → Q (inputs fd))
      → P cl
      → OnHost P h
      → Ends (OnOption P) (visit ready inputs clfd cl h)
  unfolding visit
  visit-OnHost ready inputs clfd cl h clean new kept =
      Ends-if (fd_isset clfd ready)
        (λ _.
          Ends-bind (keeps cl (inputs clfd) new (clean clfd))
            λ r same. returns (apply_read-OnHost clfd cl h r new kept same))
        (λ _. returns kept)

  step_on-OnHost : (clfd : ℕ) (h : Host) → OnHost P h → Ends (OnHost P) (step_on clfd h)
  unfolding step_on
  step_on-OnHost clfd h kept = elim (Option-cases (get_client clfd h.client_map)) [
    | inl e ↦ rw (e, step_on) undefined
    | inr (cl, e) ↦ rw (e, step_on) (returns kept)
  ]

  unless_waiting-OnHost :
      (m : Outcome (Option Host)) (f : Host → Outcome (Option Host))
      → Ends (OnOption P) m
      → ((h : Host) → OnHost P h → Ends (OnOption P) (f h))
      → Ends (OnOption P) (unless_waiting m f)
  unless_waiting-OnHost (ok none) f e k = returns tt
  unless_waiting-OnHost (ok (some h)) f (returns kept) k = k h kept
  unless_waiting-OnHost (fail d) f (breaks ne) k = breaks ne

  serve_clients-OnHost :
      (ready : List ℕ) (inputs : ℕ → List Received) (fds : List ℕ) (h : Host)
      → ((fd : ℕ) → Q (inputs fd))
      → OnHost P h
      → Ends (OnOption P) (serve_clients ready inputs fds h)
  unfolding serve_clients
  serve_clients-OnHost ready inputs [] h clean kept = returns kept
  serve_clients-OnHost ready inputs (clfd ∷ fds) h clean kept =
      elim (Option-cases (get_client clfd h.client_map)) [
        | inl e ↦ rw (e, serve_clients) undefined
        | inr (cl, e) ↦
            rw (e, serve_clients)
              (unless_waiting-OnHost (visit ready inputs clfd cl h)
                (λ h'. step_on clfd h' >>= λ h'. serve_clients ready inputs fds h')
                (visit-OnHost ready inputs clfd cl h clean
                  (get_client-Each P clfd cl h.client_map kept e) kept)
                (λ h' kept'.
                  Ends-bind (step_on-OnHost clfd h' kept')
                    λ h'' kept''. serve_clients-OnHost ready inputs fds h'' clean kept''))
      ]

  fd_set-Ends : (fd : ℕ) (set : List ℕ) → Ends (λ _. Unit {0}) (fd_set fd set)
  fd_set-Ends fd set = Ends-if (ltb fd 1024) (λ _. returns tt) (λ _. undefined)

  pub started-OnHost :
      (socket : Option ℕ) (bound listens : Bool) → Ends (OnOption P) (start socket bound listens)
  started-OnHost none bound listens = returns tt
  started-OnHost (some fd) bound listens =
      Ends-if bound
        (λ _.
          Ends-if listens (λ _. Ends-bind (fd_set-Ends fd []) λ read_fd _. returns tt)
            (λ _. returns tt))
        (λ _. returns tt)

  accept_ready-OnHost :
      (ready : List ℕ) (connection : Option ℕ) (h : Host)
      → OnHost P h
      → Ends (OnHost P) (accept_ready ready connection h)
  unfolding accept_connection
  accept_ready-OnHost ready none h kept =
      Ends-if (fd_isset h.listen_socket ready) (λ _. returns kept) (λ _. returns kept)
  accept_ready-OnHost ready (some clfd) h kept =
      Ends-if (fd_isset h.listen_socket ready)
        (λ _.
          Ends-bind (fd_set-Ends clfd h.read_fd)
            λ read_fd _. returns (insert_client-Each P clfd h.client_map fresh kept))
        (λ _. returns kept)

  accepted-OnHost :
      (ready : List ℕ) (connection : Option ℕ) (o : Option Host)
      → OnOption P o
      → Ends (OnRound P) (elim o [
        | none ↦ ok waits
        | some h' ↦ accept_ready ready connection h' >>= λ h''. ok (proceeds h'')
      ])
  accepted-OnHost ready connection none kept = returns tt
  accepted-OnHost ready connection (some h) kept =
      Ends-bind (accept_ready-OnHost ready connection h kept) λ h' kept'. returns kept'

  pub process_round-OnHost :
      (e : Events) (h : Host) → OnEvents Q e → OnHost P h → Ends (OnRound P) (process_round e h)
  unfolding process_round
  process_round-OnHost select_failed h clean kept = returns tt
  process_round-OnHost timeout h clean kept = returns kept
  process_round-OnHost (events ready connection inputs) h clean kept =
      Ends-bind (serve_clients-OnHost ready inputs (map (λ e. e.0) h.client_map) h clean kept)
        (accepted-OnHost ready connection)

  Processed-OnHost : {h h' : Host} (run : Processed h h') → OnRun Q run → OnHost P h → OnHost P h'
  Processed-OnHost begin on kept = kept
  Processed-OnHost (after {t} e run step) on kept =
      Ensures-ok (Ends-Ensures (process_round-OnHost e t on.1 (Processed-OnHost run on.0 kept)))
        step

  -- From the start on, each client has the property as long as what is received has the other.
  pub started-Each :
      (socket : Option ℕ) (bound listens : Bool) {h h' : Host} (run : Processed h h')
      → start socket bound listens ≡ ok (some h)
      → OnRun Q run
      → Each P h'.client_map
  started-Each socket bound listens run started on =
      Processed-OnHost run on
        (Ensures-ok (Ends-Ensures (started-OnHost socket bound listens)) started)
