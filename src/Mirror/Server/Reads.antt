-- ===== src/Mirror/Server/Reads.antt =====
-- Which descriptor the loop over the clients reads from.
use my_power_mirror.Base.{
  ℕ, ◌<◌, ◌≡◌, sym, ap, subst, ◌∙◌, Bool, some, List, [], ◌∷◌, ◌++◌, append_assoc, append-nil, All,
  All-append, All-map, ok, Ensures-ok,
}
use my_power_mirror.Mirror.Server.{Effect, received, closed, sent, wrote, Server, serve}
use my_power_mirror.Mirror.Server.Table.{By, Served, idle, closes, answers}
use my_power_mirror.Mirror.Server.Valid.{serve-keeps}

-- If it is a call of `recv`, then on this descriptor.
abbrev pub ReadsFrom : ℕ → Effect → Type 0
ReadsFrom from (received f) = f ≡ from
ReadsFrom from (closed f) = Unit
ReadsFrom from (sent f bytes) = Unit
ReadsFrom from (wrote bytes) = Unit

-- The effects since an earlier state.
record Since (from : ℕ) (effects : List Effect) (s : Server) : Type 0 where
  newest : s.client_fd ≡ some from
  new : List Effect
  all : s.effects ≡ effects ++ new
  reads : All (ReadsFrom from) new

some-fd : {a b : ℕ} → some a ≡ some b → a ≡ b
some-fd e = cc

By-ReadsFrom : (from fd : ℕ) (e : Effect) → By from fd e → ReadsFrom from e
By-ReadsFrom from fd (received f) h = h
By-ReadsFrom from fd (closed f) h = tt
By-ReadsFrom from fd (sent f bytes) h = tt
By-ReadsFrom from fd (wrote bytes) h = tt

more-Since :
    (from : ℕ) (effects : List Effect) (s s' : Server) (more : List Effect)
    → Since from effects s
    → s'.client_fd ≡ s.client_fd
    → s'.effects ≡ s.effects ++ more
    → All (ReadsFrom from) more
    → Since from effects s'
more-Since from effects s s' more l same e a = record {
  newest = same ∙ l.newest;
  new = l.new ++ more;
  all = e ∙ ap (λ x. x ++ more) l.all ∙ append_assoc effects l.new more;
  reads = All-append (ReadsFrom from) l.new more l.reads a;
}

Served-Since :
    (from : ℕ) (effects : List Effect) (i : ℕ) (s s' : Server)
    → i < s.client_count
    → Since from effects s
    → Served i s s'
    → Since from effects s'
Served-Since from effects i s s' h l (idle e) = subst (Since from effects) (sym e) l
Served-Since from effects i s s' h l (closes fd x client incoming at e set f) =
    let same : x ≡ from = some-fd (sym e ∙ l.newest) in
    more-Since from effects s s' (received x ∷ closed fd ∷ []) l (ap (λ s. s.client_fd) f)
      (ap (λ s. s.effects) f) (same, (tt, tt))
Served-Since from effects i s s' h l (answers fd x incoming new at e a f) =
    let same : x ≡ from = some-fd (sym e ∙ l.newest) in
    more-Since from effects s s' new l (ap (λ s. s.client_fd) f) (ap (λ s. s.effects) f) (
      All-map (By x fd) (ReadsFrom from) new
        (λ b p. subst (λ y. ReadsFrom y b) same (By-ReadsFrom x fd b p)) a)

-- Whichever clients are ready: every call of `recv` in the loop over the clients is on the
-- descriptor of the client that connected last.
pub serve-ReadsFrom :
    (from left : ℕ) (fds : List ℕ) (opens : Bool) (i : ℕ) (s : Server) {t : Server}
    → s.client_fd ≡ some from
    → serve left fds opens i s ≡ ok t
    → (new : List Effect) × (t.effects ≡ s.effects ++ new) × All (ReadsFrom from) new
serve-ReadsFrom from left fds opens i s newest e =
    let start : Since from s.effects s = record {
      newest = newest;
      new = [];
      all = sym (append-nil s.effects);
      reads = tt;
    } in
    let l =
      Ensures-ok
        (serve-keeps (Since from s.effects) (Served-Since from s.effects) left fds opens i s start)
        e in
    (l.new, l.all, l.reads)
