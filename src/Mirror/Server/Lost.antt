-- ===== src/Mirror/Server/Lost.antt =====
-- Which clients the loop serves once one of them has been closed.
use my_power_mirror.Base.{
  ℕ, zero, suc, ◌+◌, ◌-◌, ◌≤◌, ◌<◌, ◌≡◌, ◌≢◌, refl, sym, subst, ◌∙◌, Bool, true, Option, none, some,
  List, [], ◌∷◌, ◌++◌, Bytes, ◌==◌, if◌then◌else◌, length, take, All, All-append, arith, lt→ltb, ok,
  ok_injective, Ensures, gives, fails, Ensures-bind, Ensures-any, Ensures-if, Ensures-ok,
}
use my_power_mirror.Mirror.Server.{
  Effect, received, closed, sent, wrote, Server, timed_out, ready, Next, running, stopped,
  with_effect, receive_from, close_client, answer, slot, set_slot, serve, serve_client, round,
  fd_isset,
}
use my_power_mirror.Mirror.Server.Table.{Served, idle, closes, answers, By}
use my_power_mirror.Mirror.Server.Valid.{serve-keeps}

-- Rounds in which nobody connects.
pub data Quiet (s : Server) : Server → Type 0 where
  here : Quiet s s
  waits : {t u : Server} → Quiet s t → round timed_out t ≡ ok (running u) → Quiet s u
  serves :
      {t u : Server} (fds : List ℕ) (opens : Bool)
      → Quiet s t
      → round (ready fds none opens) t ≡ ok (running u)
      → Quiet s u

-- Nothing is sent to the descriptor, and it is not closed.
abbrev pub Spares : ℕ → Effect → Type 0
Spares lost (received f) = Unit
Spares lost (closed f) = f ≢ lost
Spares lost (sent f bytes) = f ≢ lost
Spares lost (wrote bytes) = Unit

-- The descriptor is not among those that the loop looks at, and was left alone so far.
pub record IsLost (lost : ℕ) (s : Server) : Type 0 where
  pub absent : All (λ fd. fd ≢ lost) (take s.client_count s.client)
  pub spared : All (Spares lost) s.effects

slot-take :
    (P : ℕ → Type 0) (client : List ℕ) (i n fd : ℕ)
    → All P (take n client)
    → i < n
    → slot client i ≡ ok fd
    → P fd
unfolding slot
slot-take P client i zero fd a h e = absurd (omega arith)
slot-take P [] i (suc n) fd a h e = absurd (cc e)
slot-take P (x ∷ client) zero (suc n) fd a h e = subst P (ok_injective e) a.0
slot-take P (x ∷ client) (suc i) (suc n) fd a h e = slot-take P client i n fd a.1 (omega arith) e

take-All :
    (P : ℕ → Type 0) (client : List ℕ) (n m : ℕ)
    → All P (take n client)
    → m ≤ n
    → All P (take m client)
take-All P client n zero a h = tt
take-All P [] n (suc m) a h = tt
take-All P (x ∷ client) zero (suc m) a h = absurd (omega arith)
take-All P (x ∷ client) (suc n) (suc m) a h = (a.0, take-All P client n m a.1 (omega arith))

take-set_slot :
    (P : ℕ → Type 0) (client : List ℕ) (i n m fd : ℕ)
    → All P (take n client)
    → m ≤ n
    → P fd
    → Ensures (λ client'. All P (take m client')) (set_slot client i fd)
unfolding set_slot
take-set_slot P [] i n m fd a h p = fails
take-set_slot P (x ∷ client) zero n zero fd a h p = gives tt
take-set_slot P (x ∷ client) zero zero (suc m) fd a h p = absurd (omega arith)
take-set_slot P (x ∷ client) zero (suc n) (suc m) fd a h p =
    gives (p, take-All P client n m a.1 (omega arith))
take-set_slot P (x ∷ client) (suc i) n zero fd a h p =
    Ensures-any (set_slot client i fd) λ c e. gives tt
take-set_slot P (x ∷ client) (suc i) zero (suc m) fd a h p = absurd (omega arith)
take-set_slot P (x ∷ client) (suc i) (suc n) (suc m) fd a h p =
    Ensures-bind (take-set_slot P client i n m fd a.1 (omega arith) p) λ c b. gives (a.0, b)

By-Spares :
    (lost from fd : ℕ) (new : List Effect)
    → fd ≢ lost
    → All (By from fd) new
    → All (Spares lost) new
By-Spares lost from fd [] h a = tt
By-Spares lost from fd (received f ∷ new) h a = (tt, By-Spares lost from fd new h a.1)
By-Spares lost from fd (closed f ∷ new) h a = absurd a.0
By-Spares lost from fd (sent f bytes ∷ new) h a =
    (λ e. h (sym a.0 ∙ e), By-Spares lost from fd new h a.1)
By-Spares lost from fd (wrote bytes ∷ new) h a = (tt, By-Spares lost from fd new h a.1)

Served-IsLost :
    (lost : ℕ)
    → lost ≢ 0
    → (i : ℕ) (s s' : Server) → i < s.client_count
    → IsLost lost s
    → Served i s s'
    → IsLost lost s'
Served-IsLost lost nz i s s' h l (idle e) = subst (IsLost lost) (sym e) l
Served-IsLost lost nz i s s' h l (closes fd from client incoming at e set f) =
    let other : fd ≢ lost =
      slot-take (λ fd. fd ≢ lost) s.client i s.client_count fd l.absent h at in
    let table =
      take-set_slot (λ fd. fd ≢ lost) s.client i s.client_count (s.client_count - 1) 0 l.absent
        (omega arith) (λ z. nz (sym z)) in
    subst (IsLost lost) (sym f) (record {
      absent = Ensures-ok table set;
      spared =
          All-append (Spares lost) s.effects (received from ∷ closed fd ∷ []) l.spared
            (tt, (other, tt));
    })
Served-IsLost lost nz i s s' h l (answers fd from incoming new at e a f) =
    let other : fd ≢ lost =
      slot-take (λ fd. fd ≢ lost) s.client i s.client_count fd l.absent h at in
    subst (IsLost lost) (sym f) (record {
      absent = l.absent;
      spared = All-append (Spares lost) s.effects new l.spared (By-Spares lost from fd new other a);
    })

round-IsLost :
    (lost : ℕ) (fds : List ℕ) (opens : Bool) (s : Server) {t : Server}
    → lost ≢ 0
    → IsLost lost s
    → round (ready fds none opens) s ≡ ok (running t)
    → IsLost lost t
unfolding round
round-IsLost lost fds opens s {t} nz l e = Ensures-ok {P = OnRunning} kept e
  where
    OnRunning : Next → Type 0
    OnRunning (running t) = IsLost lost t
    OnRunning stopped = Unit

    kept : Ensures OnRunning (round (ready fds none opens) s)
    kept =
        Ensures-bind
          (serve-keeps (IsLost lost) (Served-IsLost lost nz) s.client_count fds opens 0 s l)
          λ s' l'. Ensures-if (fd_isset s'.server_fd fds) (λ _. gives tt) (λ _. gives l')

Quiet-IsLost : (lost : ℕ) {s t : Server} → lost ≢ 0 → IsLost lost s → Quiet s t → IsLost lost t
Quiet-IsLost lost nz l here = l
Quiet-IsLost lost nz l (waits {t} q e) = subst (IsLost lost) (same t e) (Quiet-IsLost lost nz l q)
  where
    same : (t : Server) {u : Server} → round timed_out t ≡ ok (running u) → t ≡ u
    same t e = unfold round in cc e
Quiet-IsLost lost nz l (serves {t} fds opens q e) =
    round-IsLost lost fds opens t nz (Quiet-IsLost lost nz l q) e

-- `recv` gave 0 or less.
abbrev ReceivesNothing : List Bytes → Server → Bytes × Server → Type 0
ReceivesNothing rest s r =
    (from : ℕ) × (r ≡ ([], record (with_effect s (received from)) { incoming = rest }))

receive_from-closed :
    (o : Option ℕ) (rest : List Bytes) (s : Server)
    → Ensures (ReceivesNothing rest s) (receive_from o ([] ∷ rest) s)
unfolding receive_from
receive_from-closed none rest s = fails
receive_from-closed (some from) rest s = gives (from, refl)

-- The round of the loop in which a client in front of the last slot is closed.
closing-IsLost :
    (lost i fd : ℕ) (fds : List ℕ) (opens : Bool) (rest : List Bytes) (s : Server)
    → lost ≢ 0
    → i + 1 < s.client_count
    → All (λ fd. fd ≢ lost) (take (s.client_count - 1) s.client)
    → slot s.client i ≡ ok fd
    → fd_isset fd fds ≡ true
    → s.incoming ≡ [] ∷ rest
    → All (Spares lost) s.effects
    → Ensures (IsLost lost) (serve_client fds opens i s)
unfolding serve_client close_client
closing-IsLost lost i fd fds opens rest s nz h a at set closing spared =
    let got =
      subst (λ l. Ensures (ReceivesNothing rest s) (receive_from s.client_fd l s)) (sym closing)
        (receive_from-closed s.client_fd rest s) in
    let other : fd ≢ lost =
      slot-take (λ fd. fd ≢ lost) s.client i (s.client_count - 1) fd a (omega arith) at in
    rw (at, set)
      (Ensures-bind got λ r (from, e).
        subst
          (λ r.
            Ensures (IsLost lost)
              (if length r.0 == 0 then close_client i fd r.1 else answer opens fd r.0 r.1))
          (sym e)
          (Ensures-bind
            (take-set_slot (λ fd. fd ≢ lost) s.client i (s.client_count - 1) (s.client_count - 1) 0
              a (omega arith) (λ z. nz (sym z)))
            λ client table. gives (record {
              absent = table;
              spared =
                  All-append (Spares lost) (s.effects ++ received from ∷ []) (closed fd ∷ [])
                    (All-append (Spares lost) s.effects (received from ∷ []) spared (tt, tt))
                    (other, tt);
            })))

-- When the client in a slot in front of the last one is closed, a descriptor that is not 0, is in
-- no slot but the last and was left alone so far is lost: neither in what is left of this loop nor
-- in any later round without a new client is anything sent to it, and it is not closed.
pub serve-IsLost :
    (lost i fd left : ℕ) (fds : List ℕ) (opens : Bool) (rest : List Bytes) (s : Server)
    {t u : Server}
    → lost ≢ 0
    → i + 1 < s.client_count
    → All (λ fd. fd ≢ lost) (take (s.client_count - 1) s.client)
    → slot s.client i ≡ ok fd
    → fd_isset fd fds ≡ true
    → s.incoming ≡ [] ∷ rest
    → All (Spares lost) s.effects
    → serve (suc left) fds opens i s ≡ ok t
    → Quiet t u
    → All (Spares lost) u.effects
unfolding serve
serve-IsLost lost i fd left fds opens rest s {t} nz h a at set closing spared e q =
    (Quiet-IsLost lost nz (Ensures-ok kept e) q).spared
  where
    kept : Ensures (IsLost lost) (serve (suc left) fds opens i s)
    kept = rw (lt→ltb i s.client_count (omega arith)) (
        Ensures-bind (closing-IsLost lost i fd fds opens rest s nz h a at set closing spared)
          λ s' l. serve-keeps (IsLost lost) (Served-IsLost lost nz) left fds opens (i + 1) s' l)
