-- ===== src/Mirror/Server/Valid.antt =====
-- The invariant of the server's variables, and the bound on its clients.
use my_power_mirror.Base.{
  ℕ, zero, suc, ◌+◌, ◌≤◌, ◌<◌, ◌≡◌, ◌⊎◌, inl, inr, refl, sym, subst, Bool, Option, none, some, List,
  [], ◌∷◌, Bytes, ltb, length, All, All-map, max, arith, ltb→lt, Ensures, gives, fails,
  Ensures-bind, Ensures-if, Ensures-ok,
}
use my_power_mirror.Descriptors.{fd_set-cons, fd_clr-All}
use my_power_mirror.Mirror.Server.{
  Server, Selected, failed, timed_out, ready, Next, running, stopped, Reach, here, next, start,
  set_slot, serve, add_client, accept_client, round, fd_isset,
}
use my_power_mirror.Mirror.Server.Table.{Served, idle, closes, answers, serve_client-Served}

-- The loop over the clients keeps what each of its rounds keeps.
pub serve-keeps :
    (P : Server → Type 0)
    → ((i : ℕ) (s s' : Server) → i < s.client_count → P s → Served i s s' → P s')
    → (left : ℕ) (fds : List ℕ) (opens : Bool) (i : ℕ) (s : Server) → P s
    → Ensures P (serve left fds opens i s)
unfolding serve
serve-keeps P keep zero fds opens i s p =
    Ensures-if (ltb i s.client_count) (λ _. fails) (λ _. gives p)
serve-keeps P keep (suc left) fds opens i s p =
    Ensures-if (ltb i s.client_count)
      (λ inside. Ensures-bind (serve_client-Served fds opens i s) λ s' served.
        serve-keeps P keep left fds opens (i + 1) s'
          (keep i s s' (ltb→lt i s.client_count inside) p served))
      (λ _. gives p)

-- The table has its ten slots and no more clients than these, with a client clientFd has a value,
-- and select's arguments fit: each descriptor in the set is one that a set can hold, and at most
-- maxfd.
pub record IsValid (s : Server) : Type 0 where
  pub slots : length s.client ≡ 10
  pub few : s.client_count ≤ 10
  pub named : (s.client_count ≡ 0) ⊎ ((fd : ℕ) × (s.client_fd ≡ some fd))
  pub small : All (λ fd. fd < 1024) s.readfd
  pub within : All (λ fd. fd ≤ s.maxfd) s.readfd

length-set_slot :
    (client : List ℕ) (i fd : ℕ)
    → Ensures
        (λ client'. (length client' ≡ length client) × (i < length client))
        (set_slot client i fd)
unfolding set_slot
length-set_slot [] i fd = fails
length-set_slot (x ∷ client) zero fd = gives (refl, omega arith)
length-set_slot (x ∷ client) (suc i) fd =
    Ensures-bind (length-set_slot client i fd) λ client' h. gives (omega arith, omega arith)

Served-IsValid :
    (i : ℕ) (s s' : Server) → i < s.client_count → IsValid s → Served i s s' → IsValid s'
Served-IsValid i s s' h v (idle e) = subst IsValid (sym e) v
Served-IsValid i s s' h v (closes fd from client incoming at e set f) =
    subst IsValid (sym f) (record {
      slots = omega (arith, v.slots, (Ensures-ok (length-set_slot s.client i 0) set).0);
      few = omega (arith, v.few);
      named = inr (from, e);
      small = fd_clr-All (λ fd. fd < 1024) fd s.readfd v.small;
      within = fd_clr-All (λ fd. fd ≤ s.maxfd) fd s.readfd v.within;
    })
Served-IsValid i s s' h v (answers fd from incoming new at e a f) =
    subst IsValid (sym f)
      (record { slots = v.slots; few = v.few; named = v.named; small = v.small; within = v.within })

add_client-IsValid : (fd : ℕ) (s : Server) → IsValid s → Ensures IsValid (add_client fd s)
unfolding add_client
add_client-IsValid fd s v = Ensures-bind (length-set_slot s.client s.client_count fd) λ client h.
    Ensures-bind (fd_set-cons fd s.readfd) λ readfd (e, small). gives (record {
      slots = omega (arith, v.slots);
      few = omega (arith, v.slots);
      named = inr (fd, refl);
      small = rw e (small, v.small);
      within = rw e (
        omega arith,
        All-map (λ x. x ≤ s.maxfd) (λ x. x ≤ max s.maxfd fd) s.readfd (λ x le. omega arith)
            v.within,
      );
    })

abbrev OnRunning : (Server → Type 0) → Next → Type 0
OnRunning P (running s) = P s
OnRunning P stopped = Unit

accept_client-IsValid :
    (fds : List ℕ) (connection : Option ℕ) (s : Server)
    → IsValid s
    → Ensures (OnRunning IsValid) (accept_client fds connection s)
accept_client-IsValid fds none s v =
    Ensures-if (fd_isset s.server_fd fds) (λ _. gives tt) (λ _. gives v)
accept_client-IsValid fds (some fd) s v =
    Ensures-if (fd_isset s.server_fd fds)
      (λ _. Ensures-bind (add_client-IsValid fd s v) λ s' v'. gives v') (λ _. gives v)

round-IsValid :
    (selected : Selected) (s : Server) → IsValid s → Ensures (OnRunning IsValid) (round selected s)
unfolding round
round-IsValid failed s v = gives tt
round-IsValid timed_out s v = gives v
round-IsValid (ready fds connection opens) s v =
    Ensures-bind (serve-keeps IsValid Served-IsValid s.client_count fds opens 0 s v)
      λ s' v'. accept_client-IsValid fds connection s' v'

start-IsValid :
    (server_fd : ℕ) (incoming : List Bytes) → server_fd < 1024 → IsValid (start server_fd incoming)
start-IsValid server_fd incoming h = record {
  slots = omega arith;
  few = omega arith;
  named = inl refl;
  small = (h, tt);
  within = (omega arith, tt);
}

-- Whatever the environment does, in every state that the loop of `main` comes to from its start
-- with a listening descriptor that a set can hold, the table has ten slots and at most ten
-- clients, clientFd has a value if there is a client, and every descriptor in the set of `select`
-- is below FD_SETSIZE and at most maxfd.
pub Reach-IsValid :
    (server_fd : ℕ) (incoming : List Bytes) {s : Server}
    → server_fd < 1024
    → Reach (start server_fd incoming) s
    → IsValid s
Reach-IsValid server_fd incoming h here = start-IsValid server_fd incoming h
Reach-IsValid server_fd incoming h (next {t} selected r e) =
    Ensures-ok (round-IsValid selected t (Reach-IsValid server_fd incoming h r)) e
