-- ===== src/Mirror/Server/Table.antt =====
-- What one round of the loop over the clients does to the table and to the descriptors.
use my_power_mirror.Base.{
  ℕ, ◌-◌, ◌≡◌, refl, sym, ap, subst, ◌∙◌, Bool, Option, none, some, List, [], ◌∷◌, ◌++◌,
  append_assoc, append-nil, Bytes, codes, ◌==◌, length, All, All-append, ok, Ensures, gives, fails,
  Ensures-bind, Ensures-any, Ensures-if, Ensures-map,
}
use my_power_mirror.CString.{Pointer, deref}
use my_power_mirror.CString.Numbers.{atoi}
use my_power_mirror.Mirror.Http.{Request, parse_request}
use my_power_mirror.Mirror.Response.{HeapText, strcat, response}
use my_power_mirror.Mirror.Server.{
  Effect, received, closed, sent, wrote, Server, with_effect, slot, set_slot, buffer_text, add_int,
  receive_from, known_fd, receive_content, is_set, expect_content, close_client, answer,
  serve_client, fd_clr, fd_isset, buffer_size,
}

-- An effect of answering the descriptor `fd`, where `from` is the one that is read.
abbrev pub By : ℕ → ℕ → Effect → Type 0
By from fd (received f) = f ≡ from
By from fd (closed f) = ⊥
By from fd (sent f bytes) = f ≡ fd
By from fd (wrote bytes) = Unit

-- What the body of the loop may have done at slot i.
pub data Served (i : ℕ) (s s' : Server) : Type 0 where
  idle : s' ≡ s → Served i s s'
  closes :
      (fd from : ℕ) (client : List ℕ) (incoming : List Bytes)
      → slot s.client i ≡ ok fd
      → s.client_fd ≡ some from
      → set_slot s.client i 0 ≡ ok client
      → s' ≡ record s {
        readfd = fd_clr fd s.readfd;
        client = client;
        client_count = s.client_count - 1;
        incoming = incoming;
        effects = s.effects ++ received from ∷ closed fd ∷ [];
      }
      → Served i s s'
  answers :
      (fd from : ℕ) (incoming : List Bytes) (new : List Effect)
      → slot s.client i ≡ ok fd
      → s.client_fd ≡ some from
      → All (By from fd) new
      → s' ≡ record s { incoming = incoming; effects = s.effects ++ new }
      → Served i s s'

-- The descriptor `from` is the one in clientFd, and it is the only effect.
abbrev Receives : Server → Bytes × Server → Type 0
Receives s r =
    (from : ℕ) × (incoming : List Bytes) × (s.client_fd ≡ some from)
    × (r.1 ≡ record (with_effect s (received from)) { incoming = incoming })

receive-Receives :
    (fd : Option ℕ) (incoming : List Bytes) (s : Server)
    → s.client_fd ≡ fd
    → s.incoming ≡ incoming
    → Ensures (Receives s) (receive_from fd incoming s)
unfolding receive_from
receive-Receives none incoming s e f = fails
receive-Receives (some fd) [] s e f =
    gives (fd, [], e, ap (λ l. record (with_effect s (received fd)) { incoming = l }) f)
receive-Receives (some fd) (bytes ∷ rest) s e f = gives (fd, rest, e, refl)

-- Effects that are added behind those there are.
abbrev Adds : ℕ → ℕ → List Effect → List Bytes × List Effect → Type 0
Adds from fd effects r = (new : List Effect) × (r.1 ≡ effects ++ new) × All (By from fd) new

Adds-append :
    (from fd : ℕ) (effects new : List Effect) (r : List Bytes × List Effect)
    → All (By from fd) new
    → Adds from fd (effects ++ new) r
    → Adds from fd effects r
Adds-append from fd effects new r a (more, e, b) =
    (new ++ more, e ∙ append_assoc effects new more, All-append (By from fd) new more a b)

receive_content-Adds :
    (from fd : ℕ) (p : Pointer) (content : HeapText) (total : ℕ) (incoming : List Bytes)
    (effects : List Effect)
    → Ensures (Adds from fd effects) (receive_content from p content total incoming effects)
unfolding receive_content
receive_content-Adds from fd p content total [] effects =
    gives (received from ∷ [], refl, (refl, tt))
receive_content-Adds from fd p content total ([] ∷ rest) effects =
    gives (received from ∷ [], refl, (refl, tt))
receive_content-Adds from fd p content total ((x ∷ bytes) ∷ rest) effects =
    let new = received from ∷ wrote (x ∷ bytes) ∷ [] in
    Ensures-any (buffer_text (x ∷ bytes)) λ text _. Ensures-any (strcat content text) λ content' _.
      Ensures-any (add_int total (length (x ∷ bytes))) λ total' _. Ensures-any (deref p) λ digits _.
        Ensures-any (atoi digits) λ expected _.
          Ensures-if (total' == expected) (λ _. gives (new, refl, (refl, (tt, tt))))
            (λ _.
              Ensures-map (λ r. Adds-append from fd effects new r (refl, (tt, tt)))
                (receive_content-Adds from fd p content' total' rest (effects ++ new)))

-- Bytes were received and replies sent, and nothing else has changed.
abbrev Answers : ℕ → Server → Server → Type 0
Answers fd s s' =
    (from : ℕ) × (incoming : List Bytes) × (new : List Effect) × (s.client_fd ≡ some from)
    × All (By from fd) new
    × (s' ≡ record s { incoming = incoming; effects = s.effects ++ new })

known_fd-some : (o : Option ℕ) → Ensures (λ fd. o ≡ some fd) (known_fd o)
known_fd-some none = fails
known_fd-some (some fd) = gives refl

expect_content-Answers :
    (opens : Bool) (fd : ℕ) (res : Request) (s : Server)
    → Ensures (Answers fd s) (expect_content opens fd res s)
unfolding expect_content
expect_content-Answers opens fd res s =
    let first = sent fd (codes "HTTP/1.1 200 OK\r\n") in
    Ensures-if opens
      (λ _. Ensures-bind (known_fd-some s.client_fd) λ from e.
        Ensures-bind
          (receive_content-Adds from fd res.content_length
            (record { size = buffer_size; text = [] }) 0 s.incoming (s.effects ++ first ∷ []))
          λ r added. gives (
            from,
            r.0,
            first ∷ added.0,
            e,
            (refl, added.2),
            ap (λ l. record s { incoming = r.0; effects = l })
                (added.1 ∙ append_assoc s.effects (first ∷ []) added.0),
          ))
      (λ _. fails)

Answers-snoc :
    (fd : ℕ) (s s' : Server) (reply : Bytes)
    → Answers fd s s'
    → Answers fd s (with_effect s' (sent fd reply))
Answers-snoc fd s s' reply (from, incoming, new, e, a, f) = (
  from,
  incoming,
  new ++ sent fd reply ∷ [],
  e,
  All-append (By from fd) new (sent fd reply ∷ []) a (refl, tt),
  ap (λ t. with_effect t (sent fd reply)) f
      ∙ ap (λ l. record s { incoming = incoming; effects = l })
          (append_assoc s.effects new (sent fd reply ∷ [])),
)

answer-Answers :
    (opens : Bool) (fd from : ℕ) (bytes : Bytes) (s : Server)
    → s.client_fd ≡ some from
    → Ensures (Answers fd s) (answer opens fd bytes s)
unfolding answer
answer-Answers opens fd from bytes s e =
    let untouched : Answers fd s s = (
      from,
      s.incoming,
      [],
      e,
      tt,
      ap (λ l. record s { effects = l }) (sym (append-nil s.effects)),
    ) in
    Ensures-any (buffer_text bytes) λ text _. Ensures-any (parse_request text) λ res _.
      Ensures-any (is_set res.expect) λ expects _.
        Ensures-bind
          (Ensures-if expects (λ _. expect_content-Answers opens fd res s) (λ _. gives untouched))
          λ s' a. Ensures-any (response res) λ reply _. gives (Answers-snoc fd s s' reply a)

close_client-Served :
    (i fd from : ℕ) (incoming : List Bytes) (s : Server)
    → slot s.client i ≡ ok fd
    → s.client_fd ≡ some from
    → Ensures
        (Served i s)
        (close_client i fd (record (with_effect s (received from)) { incoming = incoming }))
unfolding close_client
close_client-Served i fd from incoming s at e = Ensures-any (set_slot s.client i 0) λ client set.
    gives (
      closes fd from client incoming at e set (
        ap
          (λ l. record s {
            readfd = fd_clr fd s.readfd;
            client = client;
            client_count = s.client_count - 1;
            incoming = incoming;
            effects = l;
          })
          (append_assoc s.effects (received from ∷ []) (closed fd ∷ []))))

answer-Served :
    (opens : Bool) (i fd from : ℕ) (bytes : Bytes) (incoming : List Bytes) (s : Server)
    → slot s.client i ≡ ok fd
    → s.client_fd ≡ some from
    → Ensures
        (Served i s)
        (answer opens fd bytes (record (with_effect s (received from)) { incoming = incoming }))
answer-Served opens i fd from bytes incoming s at e =
    let s' : Server = record (with_effect s (received from)) { incoming = incoming } in
    Ensures-map {P = Answers fd s'}
      (λ t (from', incoming', new, e', a, f).
        answers fd from incoming' (received from ∷ new) at e
          (refl, subst (λ n. All (By n fd) new) (some_injective (sym e' ∙ e)) a)
          (f
            ∙ ap (λ l. record s { incoming = incoming'; effects = l })
                (append_assoc s.effects (received from ∷ []) new)))
      (answer-Answers opens fd from bytes s' e)
  where
    some_injective : {a b : ℕ} → some a ≡ some b → a ≡ b
    some_injective e = cc

-- The body of the loop leaves a descriptor that is not ready alone; else it reads clientFd, and
-- closes the client or answers it.
pub serve_client-Served :
    (fds : List ℕ) (opens : Bool) (i : ℕ) (s : Server)
    → Ensures (Served i s) (serve_client fds opens i s)
unfolding serve_client
serve_client-Served fds opens i s = Ensures-any (slot s.client i) λ fd at.
    Ensures-if (fd_isset fd fds)
      (λ _.
        Ensures-bind (receive-Receives s.client_fd s.incoming s refl refl)
          λ r (from, incoming, e, f).
            Ensures-if (length r.0 == 0)
              (λ _.
                subst (λ t. Ensures (Served i s) (close_client i fd t)) (sym f)
                  (close_client-Served i fd from incoming s at e))
              (λ _.
                subst (λ t. Ensures (Served i s) (answer opens fd r.0 t)) (sym f)
                  (answer-Served opens i fd from r.0 incoming s at e)))
      (λ _. gives (idle refl))
