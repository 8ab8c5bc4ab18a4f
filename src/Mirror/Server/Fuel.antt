-- ===== src/Mirror/Server/Fuel.antt =====
-- The rounds that the loop over the clients has are enough.
use my_power_mirror.Base.{
  ℕ, zero, suc, ◌+◌, ◌≤◌, ◌≡◌, refl, Bool, List, ltb, le→ltb, arith, Bool-cases, inl, inr,
  Outcome-cases, Ensures-ok,
}
use my_power_mirror.Mirror.Server.{Server, serve, serve_client}
use my_power_mirror.Mirror.Server.Table.{Served, idle, closes, answers, serve_client-Served}

pub Served-count : (i : ℕ) (s s' : Server) → Served i s s' → s'.client_count ≤ s.client_count
Served-count i s s' (idle e) = rw e (omega arith)
Served-count i s s' (closes fd from client incoming at e set f) = rw f (omega arith)
Served-count i s s' (answers fd from incoming new at e a f) = rw f (omega arith)

-- With as many rounds left as there are slots from i on, more rounds change nothing.
serve_enough :
    (left n : ℕ) (ready : List ℕ) (opens : Bool) (i : ℕ) (s : Server)
    → left ≤ n
    → s.client_count ≤ i + left
    → serve n ready opens i s ≡ serve left ready opens i s
unfolding serve
serve_enough zero zero ready opens i s few h = refl
serve_enough zero (suc n) ready opens i s few h = rw (le→ltb i s.client_count (omega arith), serve)
serve_enough (suc left) zero ready opens i s few h = absurd (omega arith)
serve_enough (suc left) (suc n) ready opens i s few h = elim (Bool-cases (ltb i s.client_count)) [
  | inr e ↦ rw (e, serve)
  | inl e ↦ elim (Outcome-cases (serve_client ready opens i s)) [
    | inr (d, f) ↦ rw (e, f, serve)
    | inl (s', f) ↦
        let kept = Served-count i s s' (Ensures-ok (serve_client-Served ready opens i s) f) in
        rw (e, f, serve)
          (serve_enough left n ready opens (i + 1) s' (omega arith) (omega (arith, kept, h)))
  ]
]
