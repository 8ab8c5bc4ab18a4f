-- ===== src/Mirror/Server/Connecting.antt =====
-- Clients that connect one after the other, and how many the table holds.
use my_power_mirror.Base.{
  ℕ, zero, suc, ◌+◌, ◌≤◌, ◌<◌, ◌≡◌, ◌≢◌, ◌⊎◌, inl, inr, refl, sym, ap, subst, ◌∙◌, Bool, true,
  false, some, List, [], ◌∷◌, ◌++◌, ◌-◌, Bytes, ltb, length, replicate, append-nil, append_assoc,
  length-append, length-replicate, le→ltb, Ensures, gives, fails, Ensures-bind, Ensures-ok, All,
  max, arith, Bool-cases, dec_lt, ltb→lt, lt→ltb, ne→==, eq→==, Outcome, ok, fail,
  undefined_behavior, ◌>>=◌,
}
use my_power_mirror.Mirror.Server.{
  Server, ready, Next, running, stopped, start, slot, set_slot, serve, serve_client, add_client,
  round, fd_isset,
}

-- The rounds in which nothing but the listening descriptor is ready, and `accept` gives these.
unfoldable pub connect_all : List ℕ → Server → Outcome Next
connect_all [] s = ok (running s)
connect_all (fd ∷ fds) s = round (ready (s.server_fd ∷ []) (some fd) true) s >>= λ n. elim n [
  | running s' ↦ connect_all fds s'
  | stopped ↦ ok stopped
]

slot-All :
    (P : ℕ → Type 0) (client : List ℕ) (i : ℕ)
    → i < length client
    → All P client
    → (fd : ℕ) × (slot client i ≡ ok fd) × P fd
unfolding slot
slot-All P [] i h a = absurd (omega arith)
slot-All P (x ∷ client) zero h a = (x, refl, a.0)
slot-All P (x ∷ client) (suc i) h a = slot-All P client i (omega arith) a.1

-- The table behind these clients: their descriptors in order, then the slots that are still 0.
abbrev table : List ℕ → List ℕ
table fds = fds ++ replicate (10 - length fds) 0

-- These clients have connected, and no slot has the listening descriptor.
record Open (fds : List ℕ) (s : Server) : Type 0 where
  slots : s.client ≡ table fds
  count : s.client_count ≡ length fds
  few : length fds ≤ 10
  others : All (λ fd. fd ≢ s.server_fd) s.client

length-table : (fds : List ℕ) → length fds ≤ 10 → length (table fds) ≡ 10
length-table fds few =
    rw
      (
        length-append fds (replicate (10 - length fds) 0),
        length-replicate {A = ℕ} (10 - length fds) 0,
      )
      (omega arith)

length-Open : {fds : List ℕ} (s : Server) → Open fds s → length s.client ≡ 10
length-Open {fds} s o = ap length o.slots ∙ length-table fds o.few

serve_client_none :
    (fds : List ℕ) (opens : Bool) (i fd : ℕ) (s : Server)
    → slot s.client i ≡ ok fd
    → fd_isset fd fds ≡ false
    → serve_client fds opens i s ≡ ok s
unfolding serve_client
serve_client_none fds opens i fd s at e = rw (at, e)

serve_none :
    {fds : List ℕ} (left i : ℕ) (s : Server)
    → Open fds s
    → s.client_count ≤ i + left
    → serve left (s.server_fd ∷ []) true i s ≡ ok s
unfolding serve
serve_none zero i s o h = rw (le→ltb i s.client_count (omega arith)) refl
serve_none (suc left) i s o h = elim (Bool-cases (ltb i s.client_count)) [
  | inr e ↦ rw e refl
  | inl e ↦
      let inside : i < length s.client =
        omega (arith, length-Open s o, o.few, o.count, ltb→lt i s.client_count e) in
      let (fd, at, other) = slot-All (λ fd. fd ≢ s.server_fd) s.client i inside o.others in
      let missing : fd_isset fd (s.server_fd ∷ []) ≡ false =
        rw (ne→== s.server_fd fd (λ same. other (sym same))) refl in
      rw (e, serve_client_none (s.server_fd ∷ []) true i fd s at missing)
        (serve_none left (i + 1) s o (omega (arith, h)))
]

set_slot-append :
    (fds rest : List ℕ) (fd : ℕ)
    → set_slot (fds ++ 0 ∷ rest) (length fds) fd ≡ ok (fds ++ fd ∷ rest)
unfolding set_slot
set_slot-append [] rest fd = refl
set_slot-append (x ∷ fds) rest fd = rw (set_slot-append fds rest fd)

-- The first slot that is 0 is the one at the count.
set_slot-table :
    (fds : List ℕ) (fd : ℕ)
    → length fds < 10
    → set_slot (table fds) (length fds) fd ≡ ok (table (fds ++ fd ∷ []))
set_slot-table fds fd room =
    let left : 10 - length fds ≡ suc (10 - (length fds + 1)) = omega arith in
    ap (λ n. set_slot (fds ++ replicate n 0) (length fds) fd) left
    ∙ set_slot-append fds (replicate (10 - (length fds + 1)) 0) fd
    ∙ ap ok (
        sym (append_assoc fds (fd ∷ []) (replicate (10 - (length fds + 1)) 0))
        ∙ ap (λ n. (fds ++ fd ∷ []) ++ replicate (10 - n) 0) (sym (length-append fds (fd ∷ []))))

set_slot-All :
    (P : ℕ → Type 0) (client : List ℕ) (i fd : ℕ)
    → All P client
    → P fd
    → Ensures (All P) (set_slot client i fd)
unfolding set_slot
set_slot-All P [] i fd a p = fails
set_slot-All P (x ∷ client) zero fd a p = gives (p, a.1)
set_slot-All P (x ∷ client) (suc i) fd a p =
    Ensures-bind (set_slot-All P client i fd a.1 p) λ client' a'. gives (a.0, a')

set_slot-outside :
    (client : List ℕ) (i fd : ℕ)
    → length client ≤ i
    → set_slot client i fd ≡ fail undefined_behavior
unfolding set_slot
set_slot-outside [] i fd h = refl
set_slot-outside (x ∷ client) zero fd h = absurd (omega arith)
set_slot-outside (x ∷ client) (suc i) fd h = rw (set_slot-outside client i fd (omega arith))

round-connects :
    {fds : List ℕ} (fd : ℕ) (s : Server)
    → Open fds s
    → fd < 1024
    → fd ≢ s.server_fd
    → length fds < 10
    → (s' : Server) × (round (ready (s.server_fd ∷ []) (some fd) true) s ≡ ok (running s'))
      × Open (fds ++ fd ∷ []) s'
      × (s'.server_fd ≡ s.server_fd)
unfolding round add_client
round-connects {fds} fd s o small other room =
    let e : set_slot s.client s.client_count fd ≡ ok (table (fds ++ fd ∷ [])) =
      rw (o.slots, o.count) (set_slot-table fds fd room) in
    let more : length (fds ++ fd ∷ []) ≡ length fds + 1 = length-append fds (fd ∷ []) in
    (
      record s {
        client_fd = some fd;
        client = table (fds ++ fd ∷ []);
        client_count = s.client_count + 1;
        readfd = fd ∷ s.readfd;
        maxfd = max s.maxfd fd;
      },
      rw (
        serve_none s.client_count 0 s o (omega arith),
        eq→== s.server_fd s.server_fd refl,
        e,
        lt→ltb fd 1024 small,
      ),
      record {
        slots = refl;
        count = omega (arith, more, o.count);
        few = omega (arith, more);
        others =
            Ensures-ok
              (set_slot-All (λ fd. fd ≢ s.server_fd) s.client s.client_count fd o.others other) e;
      },
      refl,
    )

round_full :
    {fds : List ℕ} (fd : ℕ) (s : Server)
    → Open fds s
    → length fds ≡ 10
    → round (ready (s.server_fd ∷ []) (some fd) true) s ≡ fail undefined_behavior
unfolding round add_client
round_full fd s o full = rw (
  serve_none s.client_count 0 s o (omega arith),
  eq→== s.server_fd s.server_fd refl,
  set_slot-outside s.client s.client_count fd (omega (arith, length-Open s o, o.count)),
)

connect_all-Open :
    (done fds : List ℕ) (s : Server)
    → Open done s
    → All (λ fd. (fd < 1024) × (fd ≢ s.server_fd)) fds
    → ((length done + length fds ≤ 10)
        × (s' : Server) × (connect_all fds s ≡ ok (running s'))
        × Open (done ++ fds) s')
      ⊎ ((10 < length done + length fds) × (connect_all fds s ≡ fail undefined_behavior))
unfolding connect_all
connect_all-Open done [] s o h =
    inl (omega (arith, o.few), s, refl, subst (λ l. Open l s) (sym (append-nil done)) o)
connect_all-Open done (fd ∷ fds) s o h = elim (dec_lt (length done) 10) [
  | no full ↦ inr (omega arith, rw (round_full fd s o (omega (arith, o.few))))
  | yes room ↦
      let (s', e, o', same) = round-connects fd s o h.0.0 h.0.1 room in
      let more : length (done ++ fd ∷ []) ≡ length done + 1 = length-append done (fd ∷ []) in
      elim (connect_all-Open (done ++ fd ∷ []) fds s' o'
        (subst (λ k. All (λ fd. (fd < 1024) × (fd ≢ k)) fds) (sym same) h.1)) [
          | inl (few, t, f, o'') ↦ inl (
            omega (arith, more, few),
            t,
            rw e f,
            subst (λ l. Open l t) (append_assoc done (fd ∷ []) fds) o'',
          )
          | inr (many, f) ↦ inr (omega (arith, more, many), rw e f)
        ]
]

-- From the start with a listening descriptor that is not 0, with clients that connect and send
-- nothing, on other descriptors that a set can hold: up to ten stand in the table in the order in
-- which they came, in front of slots that are still 0, and the count is theirs; with an eleventh
-- the table is written past its end.
pub connect_all-start :
    (server_fd : ℕ) (incoming : List Bytes) (fds : List ℕ)
    → 0 < server_fd
    → All (λ fd. (fd < 1024) × (fd ≢ server_fd)) fds
    → ((length fds ≤ 10)
        × (s : Server) × (connect_all fds (start server_fd incoming) ≡ ok (running s))
        × (s.client ≡ fds ++ replicate (10 - length fds) 0)
        × (s.client_count ≡ length fds))
      ⊎ ((10 < length fds) × (connect_all fds (start server_fd incoming) ≡ fail undefined_behavior))
connect_all-start server_fd incoming fds pos h =
    elim (connect_all-Open [] fds (start server_fd incoming)
      (record { slots = refl; count = refl; few = omega arith; others = omega arith }) h) [
        | inl (few, s, e, o) ↦ inl (omega arith, s, e, o.slots, o.count)
        | inr (many, e) ↦ inr (omega arith, e)
      ]
