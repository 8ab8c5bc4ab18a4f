-- ===== src/HttpServer/Main/Stopping.antt =====
-- What the loop of `process` does once stop was called.
use my_power_mirror.Base.{
  ℕ, ◌≡◌, refl, ap, Option, none, some, List, [], ◌∷◌, ok, Outcome-cases, Option-cases, Bool-cases,
  inl, inr, ◌>>=◌, map,
}
use my_power_mirror.Client.{Client}
use my_power_mirror.Descriptors.{fd_isset, fd_set}
use my_power_mirror.HttpServer.Receiving.{
  Received, Read, disconnected, waiting, handled, read_client,
}
use my_power_mirror.HttpServer.Loop.{
  Host, stop, Events, select_failed, timeout, events, Round, proceeds, waits, returns, get_client,
  apply_read, visit, step_on, serve_clients, accept_connection, accept_ready, process_round,
}
use my_power_mirror.HttpServer.Main.{Processing, serves, left, blocks, process}

-- The same outcome, with the server stopped in it.
abbrev stopped_host : Option Host → Option Host
stopped_host none = none
stopped_host (some h) = some (stop h)

abbrev stopped_round : Round → Round
stopped_round (proceeds h) = proceeds (stop h)
stopped_round waits = waits
stopped_round returns = returns

abbrev pub stopped_process : Processing → Processing
stopped_process (serves h) = serves (stop h)
stopped_process (left h) = left (stop h)
stopped_process blocks = blocks

apply_read-stop :
    (clfd : ℕ) (h : Host) (r : Read)
    → apply_read clfd (stop h) r ≡ stopped_host (apply_read clfd h r)
unfolding apply_read
apply_read-stop clfd h disconnected = refl
apply_read-stop clfd h waiting = refl
apply_read-stop clfd h (handled cl) = refl

visit-stop :
    (ready : List ℕ) (inputs : ℕ → List Received) (clfd : ℕ) (cl : Client) (h : Host)
    → visit ready inputs clfd cl (stop h)
      ≡ visit ready inputs clfd cl h >>= λ o. ok (stopped_host o)
unfolding visit
visit-stop ready inputs clfd cl h = elim (Bool-cases (fd_isset clfd ready)) [
  | inr e ↦ rw e refl
  | inl e ↦ elim (Outcome-cases (read_client cl (inputs clfd))) [
    | inr (d, f) ↦ rw (e, f) refl
    | inl (r, f) ↦ rw (e, f) (ap ok (apply_read-stop clfd h r))
  ]
]

serve_clients-stop :
    (ready : List ℕ) (inputs : ℕ → List Received) (fds : List ℕ) (h : Host)
    → serve_clients ready inputs fds (stop h)
      ≡ serve_clients ready inputs fds h >>= λ o. ok (stopped_host o)
unfolding serve_clients step_on
serve_clients-stop ready inputs [] h = refl
serve_clients-stop ready inputs (clfd ∷ fds) h =
    elim (Option-cases (get_client clfd h.client_map)) [
      | inl e ↦ rw (e, serve_clients) refl
      | inr (cl, e) ↦ elim (Outcome-cases (visit ready inputs clfd cl h)) [
        | inr (d, f) ↦ rw (e, serve_clients, visit-stop ready inputs clfd cl h, f) refl
        | inl (none, f) ↦ rw (e, serve_clients, visit-stop ready inputs clfd cl h, f) refl
        | inl (some h', f) ↦ elim (Option-cases (get_client clfd h'.client_map)) [
          | inl g ↦ rw (e, serve_clients, visit-stop ready inputs clfd cl h, f, g, step_on) refl
          | inr (cl', g) ↦
              rw (e, serve_clients, visit-stop ready inputs clfd cl h, f, g, step_on)
                (serve_clients-stop ready inputs fds h')
        ]
      ]
    ]

accept_ready-stop :
    (ready : List ℕ) (connection : Option ℕ) (h : Host)
    → accept_ready ready connection (stop h)
      ≡ accept_ready ready connection h >>= λ h'. ok (stop h')
unfolding accept_connection
accept_ready-stop ready none h = elim (Bool-cases (fd_isset h.listen_socket ready)) [
  | inl e ↦ rw e refl
  | inr e ↦ rw e refl
]
accept_ready-stop ready (some clfd) h = elim (Bool-cases (fd_isset h.listen_socket ready)) [
  | inr e ↦ rw e refl
  | inl e ↦ elim (Outcome-cases (fd_set clfd h.read_fd)) [
    | inr (d, f) ↦ rw (e, f) refl
    | inl (fds, f) ↦ rw (e, f) refl
  ]
]

process_round-stop :
    (e : Events) (h : Host)
    → process_round e (stop h) ≡ process_round e h >>= λ r. ok (stopped_round r)
unfolding process_round
process_round-stop select_failed h = refl
process_round-stop timeout h = refl
process_round-stop (events ready connection inputs) h =
    let fds = map (λ e. e.0) h.client_map in
    elim (Outcome-cases (serve_clients ready inputs fds h)) [
      | inr (d, f) ↦ rw (serve_clients-stop ready inputs fds h, f) refl
      | inl (none, f) ↦ rw (serve_clients-stop ready inputs fds h, f) refl
      | inl (some h', f) ↦ elim (Outcome-cases (accept_ready ready connection h')) [
        | inr (d, g) ↦
            rw (serve_clients-stop ready inputs fds h, f, accept_ready-stop ready connection h', g)
              refl
        | inl (h'', g) ↦
            rw (serve_clients-stop ready inputs fds h, f, accept_ready-stop ready connection h', g)
              refl
      ]
    ]

-- Once stop was called, process does what it does without, in any rounds: it goes on, waits,
-- returns or fails as it would, with the same clients and descriptors; the flag canRun, which stop
-- clears, is never read.
pub process-stop :
    (es : List Events) (h : Host)
    → process es (stop h) ≡ process es h >>= λ p. ok (stopped_process p)
unfolding process
process-stop [] h = refl
process-stop (e ∷ es) h = elim (Outcome-cases (process_round e h)) [
  | inr (d, f) ↦ rw (process_round-stop e h, f) refl
  | inl (proceeds h', f) ↦ rw (process_round-stop e h, f) (process-stop es h')
  | inl (waits, f) ↦ rw (process_round-stop e h, f) refl
  | inl (returns, f) ↦ rw (process_round-stop e h, f) refl
]
