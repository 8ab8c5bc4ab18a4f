-- ===== src/HttpServer/Loop/Kept.antt =====
-- What the loop over the clients leaves of the map: every client.
use my_power_mirror.Base.{
  ℕ, ◌≡◌, inl, inr, refl, ap, ◌∙◌, true, Option, none, some, List, [], ◌∷◌, map, ◌==◌, Bool-cases,
  Option-cases, Outcome, ok, fail, Ensures, gives, fails, Ensures-map, Outcome-cases,
  undefined_behavior, ◌>>=◌,
}
use my_power_mirror.Client.{Client}
use my_power_mirror.Descriptors.{fd_isset}
use my_power_mirror.HttpServer.Receiving.{
  Received, Read, disconnected, waiting, handled, read_client,
}
use my_power_mirror.HttpServer.Loop.{
  Host, get_client, erase_client, set_client, disconnect_client, apply_read, visit, step_on,
  unless_waiting, serve_clients,
}

-- The sockets in the map.
abbrev pub sockets : List (ℕ × Client) → List ℕ
sockets clients = map (λ e. e.0) clients

-- A host that differs from another in its clients only, and not in their sockets.
pub record Kept (h h' : Host) : Type 0 where
  pub clients : List (ℕ × Client)
  pub same : sockets clients ≡ sockets h.client_map
  pub host : h' ≡ record h { client_map = clients }

pub data OnSome {ℓ} {A : Type ℓ} (P : A → Type 0) : Option A → Type ℓ where
  nothing : OnSome P none
  just : {a : A} → P a → OnSome P (some a)

Kept-refl : (h : Host) → Kept h h
Kept-refl h = record { clients = h.client_map; same = refl; host = refl }

Kept-trans : {h h' h'' : Host} → Kept h h' → Kept h' h'' → Kept h h''
Kept-trans k l = record {
  clients = l.clients;
  same = l.same ∙ ap (λ h. sockets h.client_map) k.host ∙ k.same;
  host = l.host ∙ ap {A = Host} {B = Host} (λ h. record h { client_map = l.clients }) k.host;
}

OnSome-Kept : {h h' : Host} {o : Option Host} → Kept h h' → OnSome (Kept h') o → OnSome (Kept h) o
OnSome-Kept k nothing = nothing
OnSome-Kept k (just l) = just (Kept-trans k l)

sockets-set_client :
    (clfd : ℕ) (cl : Client) (clients : List (ℕ × Client))
    → sockets (set_client clfd cl clients) ≡ sockets clients
unfolding set_client
sockets-set_client clfd cl [] = refl
sockets-set_client clfd cl ((fd, old) ∷ clients) = elim (Bool-cases (fd == clfd)) [
  | inl e ↦ rw (e, sockets-set_client clfd cl clients)
  | inr e ↦ rw (e, sockets-set_client clfd cl clients)
]

get_client-erase_client :
    (clfd : ℕ) (clients : List (ℕ × Client)) → get_client clfd (erase_client clfd clients) ≡ none
unfolding get_client erase_client
get_client-erase_client clfd [] = refl
get_client-erase_client clfd ((fd, cl) ∷ clients) = elim (Bool-cases (fd == clfd)) [
  | inl e ↦ rw (e, get_client-erase_client clfd clients)
  | inr e ↦ rw (e, e, get_client-erase_client clfd clients)
]

-- The iterator cannot go on from a client that was disconnected.
pub step_on-disconnect_client :
    (clfd : ℕ) (h : Host) → step_on clfd (disconnect_client clfd true h) ≡ fail undefined_behavior
unfolding step_on
step_on-disconnect_client clfd h = rw (get_client-erase_client clfd h.client_map, step_on)

-- A pass of the loop, the step behind it, and what keeps the clients then.
module _ (h : Host) (next : Host → Outcome (Option Host))
    (keeps : (h' : Host) → Kept h h' → Ensures (OnSome (Kept h)) (next h')) where
  step_on-Kept :
      (clfd : ℕ) (h' : Host) → Kept h h' → Ensures (OnSome (Kept h)) (step_on clfd h' >>= next)
  unfolding step_on
  step_on-Kept clfd h' k = elim (Option-cases (get_client clfd h'.client_map)) [
    | inl e ↦ rw (e, step_on) fails
    | inr (cl, e) ↦ rw (e, step_on) (keeps h' k)
  ]

  apply_read-Kept :
      (clfd : ℕ) (r : Read)
      → Ensures
          (OnSome (Kept h))
          (unless_waiting (ok (apply_read clfd h r)) λ h'. step_on clfd h' >>= next)
  unfolding apply_read
  apply_read-Kept clfd disconnected = rw (step_on-disconnect_client clfd h) fails
  apply_read-Kept clfd waiting = gives nothing
  apply_read-Kept clfd (handled cl) =
      step_on-Kept clfd (record h { client_map = set_client clfd cl h.client_map })
        (record {
          clients = set_client clfd cl h.client_map;
          same = sockets-set_client clfd cl h.client_map;
          host = refl;
        })

  visit-Kept :
      (ready : List ℕ) (inputs : ℕ → List Received) (clfd : ℕ) (cl : Client)
      → Ensures
          (OnSome (Kept h))
          (unless_waiting (visit ready inputs clfd cl h) λ h'. step_on clfd h' >>= next)
  unfolding visit
  visit-Kept ready inputs clfd cl = elim (Bool-cases (fd_isset clfd ready)) [
    | inl e ↦ elim (Outcome-cases (read_client cl (inputs clfd))) [
      | inl (r, f) ↦ rw (e, f) (apply_read-Kept clfd r)
      | inr (d, f) ↦ rw (e, f) fails
    ]
    | inr e ↦ rw e (step_on-Kept clfd h (Kept-refl h))
  ]

pub serve_clients-Kept :
    (ready : List ℕ) (inputs : ℕ → List Received) (fds : List ℕ) (h : Host)
    → Ensures (OnSome (Kept h)) (serve_clients ready inputs fds h)
unfolding serve_clients
serve_clients-Kept ready inputs [] h = gives (just (Kept-refl h))
serve_clients-Kept ready inputs (clfd ∷ fds) h =
    elim (Option-cases (get_client clfd h.client_map)) [
      | inl e ↦ rw (e, serve_clients) fails
      | inr (cl, e) ↦
          rw (e, serve_clients)
            (visit-Kept h (λ h'. serve_clients ready inputs fds h')
              (λ h' k. Ensures-map (λ o. OnSome-Kept k) (serve_clients-Kept ready inputs fds h'))
              ready inputs clfd cl)
    ]
