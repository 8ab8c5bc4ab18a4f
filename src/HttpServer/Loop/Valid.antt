-- ===== src/HttpServer/Loop/Valid.antt =====
-- The invariant of the server's clients and descriptors, and the clients that stay.
use my_power_mirror.Base.{
  ℕ, ◌≤◌, ◌<◌, ◌≡◌, ◌≢◌, ◌⊎◌, inl, inr, refl, sym, ap, subst, ◌∙◌, Bool, true, false, Option, none,
  some, List, [], ◌∷◌, ◌++◌, append_assoc, ◌==◌, All, All-map, max, arith, Bool-cases, Option-cases,
  some_injective, ==→ne, eq→==, ok, Ensures, gives, Ensures-bind, Ensures-if, Ensures-ok, ◌>>=◌,
}
use my_power_mirror.Client.{Client, new_client}
use my_power_mirror.Descriptors.{fd_isset, fd_set-cons}
use my_power_mirror.HttpServer.Loop.{
  Host, start, get_client, insert_client, accept_connection, Events, select_failed, timeout, events,
  Round, proceeds, waits, returns, accept_ready, process_round, Processed, begin, after,
}
use my_power_mirror.HttpServer.Loop.Kept.{sockets, Kept, OnSome, nothing, just, serve_clients-Kept}

abbrev pub Distinct : List ℕ → Type 0
Distinct [] = Unit
Distinct (x ∷ xs) = All (λ y. y ≢ x) xs × Distinct xs

-- The listening socket and the clients' are in the set of `select`, no two clients have the same
-- socket, and each descriptor in the set is one that a set can hold, and at most maxfd.
pub record IsValid (h : Host) : Type 0 where
  pub listens : fd_isset h.listen_socket h.read_fd ≡ true
  pub registered : All (λ fd. fd_isset fd h.read_fd ≡ true) (sockets h.client_map)
  pub distinct : Distinct (sockets h.client_map)
  pub small : All (λ fd. fd < 1024) h.read_fd
  pub within : All (λ fd. fd ≤ h.maxfd) h.read_fd

-- What a round does to the sockets: at most one is new.
pub record Grown (h h' : Host) : Type 0 where
  pub fresh : List ℕ
  pub all : sockets h'.client_map ≡ fresh ++ sockets h.client_map

abbrev Good : Host → Host → Type 0
Good h h' = (IsValid h → IsValid h') × Grown h h'

Kept-Good : {h h' : Host} → Kept h h' → Good h h'
Kept-Good {h} k = (
  λ v. subst IsValid (sym k.host) (record {
    listens = v.listens;
    registered = rw k.same v.registered;
    distinct = rw k.same v.distinct;
    small = v.small;
    within = v.within;
  }),
  record { fresh = []; all = ap (λ h. sockets h.client_map) k.host ∙ k.same },
)

get_client-none :
    (clfd : ℕ) (clients : List (ℕ × Client))
    → get_client clfd clients ≡ none
    → All (λ fd. fd ≢ clfd) (sockets clients)
unfolding get_client
get_client-none clfd [] h = tt
get_client-none clfd ((fd, cl) ∷ clients) h = elim (Bool-cases (fd == clfd)) [
  | inl e ↦ absurd (cc (rw (e, get_client) at h))
  | inr e ↦ (==→ne fd clfd e, get_client-none clfd clients (rw (e, get_client) at h))
]

fd_isset-later : (y fd : ℕ) (set : List ℕ) → fd_isset fd set ≡ true → fd_isset fd (y ∷ set) ≡ true
fd_isset-later y fd set h = elim (Bool-cases (y == fd)) [ inl e ↦ rw e | inr e ↦ rw e h ]

-- The sockets behind an insertion: as before, or with one that was not there.
sockets-insert_client :
    (clfd : ℕ) (cl : Client) (clients : List (ℕ × Client))
    → (sockets (insert_client clfd cl clients) ≡ sockets clients)
      ⊎ ((sockets (insert_client clfd cl clients) ≡ clfd ∷ sockets clients)
          × All (λ fd. fd ≢ clfd) (sockets clients))
unfolding insert_client
sockets-insert_client clfd cl clients = elim (Option-cases (get_client clfd clients)) [
  | inl e ↦ inr (rw (e, insert_client), get_client-none clfd clients e)
  | inr (old, e) ↦ inl (rw (e, insert_client))
]

added-IsValid :
    (clfd : ℕ) (clients : List (ℕ × Client)) (h : Host)
    → clfd < 1024
    → (sockets clients ≡ sockets h.client_map)
      ⊎ ((sockets clients ≡ clfd ∷ sockets h.client_map)
          × All (λ fd. fd ≢ clfd) (sockets h.client_map))
    → IsValid h
    → IsValid
        (record h { client_map = clients; read_fd = clfd ∷ h.read_fd; maxfd = max h.maxfd clfd })
added-IsValid clfd clients h low which v =
    let kept =
      All-map _ (λ fd. fd_isset fd (clfd ∷ h.read_fd) ≡ true) (sockets h.client_map)
        (λ fd. fd_isset-later clfd fd h.read_fd) v.registered in
    record {
      listens = fd_isset-later clfd h.listen_socket h.read_fd v.listens;
      registered = elim which [
        | inl e ↦ rw e kept
        | inr (e, _) ↦ rw e (rw (eq→== clfd clfd refl), kept)
      ];
      distinct = elim which [
        | inl e ↦ rw e v.distinct
        | inr (e, others) ↦ rw e (others, v.distinct)
      ];
      small = (low, v.small);
      within = (
        omega arith,
        All-map _ (λ x. x ≤ max h.maxfd clfd) h.read_fd (λ x le. omega arith) v.within,
      );
    }

added-Grown :
    (clfd : ℕ) (clients : List (ℕ × Client)) (read_fd : List ℕ) (h : Host)
    → (sockets clients ≡ sockets h.client_map)
      ⊎ ((sockets clients ≡ clfd ∷ sockets h.client_map)
          × All (λ fd. fd ≢ clfd) (sockets h.client_map))
    → Grown h (record h { client_map = clients; read_fd = read_fd; maxfd = max h.maxfd clfd })
added-Grown clfd clients read_fd h (inl e) = record { fresh = []; all = e }
added-Grown clfd clients read_fd h (inr (e, _)) = record { fresh = clfd ∷ []; all = e }

accept_connection-Good :
    (connection : Option ℕ) (h : Host) → Ensures (Good h) (accept_connection connection h)
unfolding accept_connection
accept_connection-Good none h = gives (λ v. v, record { fresh = []; all = refl })
accept_connection-Good (some clfd) h =
    let which = sockets-insert_client clfd new_client h.client_map in
    Ensures-bind (fd_set-cons clfd h.read_fd) λ read_fd (e, low).
      gives (λ v. rw e (added-IsValid clfd _ h low which v), added-Grown clfd _ read_fd h which)

accept_ready-Good :
    (ready : List ℕ) (connection : Option ℕ) (h : Host)
    → Ensures (Good h) (accept_ready ready connection h)
accept_ready-Good ready connection h =
    Ensures-if (fd_isset h.listen_socket ready) (λ _. accept_connection-Good connection h)
      (λ _. gives (λ v. v, record { fresh = []; all = refl }))

Good-trans : {h h' h'' : Host} → Good h h' → Good h' h'' → Good h h''
Good-trans {h} g k = (
  λ v. k.0 (g.0 v),
  record {
    fresh = (k.1).fresh ++ (g.1).fresh;
    all =
        (k.1).all
        ∙ ap (λ l. (k.1).fresh ++ l) (g.1).all
        ∙ sym (append_assoc (k.1).fresh (g.1).fresh (sockets h.client_map));
  },
)

abbrev OnGoing : (Host → Type 0) → Round → Type 0
OnGoing P (proceeds h) = P h
OnGoing P waits = Unit
OnGoing P returns = Unit

accepted-Good :
    (ready : List ℕ) (connection : Option ℕ) (h : Host) (o : Option Host)
    → OnSome (Kept h) o
    → Ensures (OnGoing (Good h)) (elim o [
      | none ↦ ok waits
      | some h' ↦ accept_ready ready connection h' >>= λ h''. ok (proceeds h'')
    ])
accepted-Good ready connection h _ nothing = gives tt
accepted-Good ready connection h _ (just {a = h'} k) =
    Ensures-bind (accept_ready-Good ready connection h') λ h'' g. gives (Good-trans (Kept-Good k) g)

process_round-Good : (e : Events) (h : Host) → Ensures (OnGoing (Good h)) (process_round e h)
unfolding process_round
process_round-Good select_failed h = gives tt
process_round-Good timeout h = gives (λ v. v, record { fresh = []; all = refl })
process_round-Good (events ready connection inputs) h =
    Ensures-bind (serve_clients-Kept ready inputs (sockets h.client_map) h)
      λ o k. accepted-Good ready connection h o k

Processed-Good : {h u : Host} → Processed h u → Good h u
Processed-Good begin = (λ v. v, record { fresh = []; all = refl })
Processed-Good (after {t} e p r) =
    Good-trans (Processed-Good p) (Ensures-ok (process_round-Good e t) r)

OnSome-some : {P : Host → Type 0} {o : Option Host} {h : Host} → OnSome P o → o ≡ some h → P h
OnSome-some nothing e = absurd (cc e)
OnSome-some {P} (just p) e = subst P (some_injective e) p

start-IsValid :
    (fd : Option ℕ) (bound listens : Bool) → Ensures (OnSome IsValid) (start fd bound listens)
start-IsValid none bound listens = gives nothing
start-IsValid (some fd) false listens = gives nothing
start-IsValid (some fd) true false = gives nothing
start-IsValid (some fd) true true = Ensures-bind (fd_set-cons fd []) λ read_fd (e, low). gives (
    just (
      rw e (record {
        listens = rw (eq→== fd fd refl);
        registered = tt;
        distinct = tt;
        small = (low, tt);
        within = (omega arith, tt);
      })))

-- Whatever the environment does, in every state that process comes to after start returned true,
-- the listening socket and those of all clients are in the set of `select`, no two clients have
-- the same socket, and every descriptor in the set is below FD_SETSIZE and at most maxfd.
pub Processed-IsValid :
    (fd : Option ℕ) (bound listens : Bool) {h u : Host}
    → start fd bound listens ≡ ok (some h)
    → Processed h u
    → IsValid u
Processed-IsValid fd bound listens e p =
    (Processed-Good p).0 (OnSome-some (Ensures-ok (start-IsValid fd bound listens) e) refl)

fd_isset-append :
    (fd : ℕ) (fresh old : List ℕ) → fd_isset fd old ≡ true → fd_isset fd (fresh ++ old) ≡ true
fd_isset-append fd [] old h = h
fd_isset-append fd (x ∷ fresh) old h =
    fd_isset-later x fd (fresh ++ old) (fd_isset-append fd fresh old h)

-- In every run of process that goes on, no client leaves the map.
pub Processed-fd_isset :
    {h u : Host} (fd : ℕ)
    → Processed h u
    → fd_isset fd (sockets h.client_map) ≡ true
    → fd_isset fd (sockets u.client_map) ≡ true
Processed-fd_isset {h} fd p there =
    let grown = (Processed-Good p).1 in
    subst (λ l. fd_isset fd l ≡ true) (sym grown.all)
      (fd_isset-append fd grown.fresh (sockets h.client_map) there)
