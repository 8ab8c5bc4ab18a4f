-- ===== src/Mirror/Main.antt =====
-- server.c, `main` from its set-up on, for the rounds that the environment makes.
pub mod Ending
use my_power_mirror.Base.{
  lt→ltb, Ensures-ok, sym, ℕ, ◌<◌, ◌≡◌, ◌↔◌, refl, ap, ◌∙◌, Bool, true, Option, none, some, List,
  [], ◌∷◌, ◌++◌, Bytes, if◌then◌else◌, Outcome, ok, Outcome-cases, inl, inr, ◌>>=◌, Ensures, gives,
  fails, Ensures-map,
}
use my_power_mirror.Mirror.Server.{
  Server, fd_set, start, Selected, running, stopped, round, Reach, here, next,
}

-- What `main` has come to: it serves on, or it has returned 0.
pub data Ran : Type 0 where
  serves : Server → Ran
  returned : Ran

unfoldable pub loop : List Selected → Server → Outcome Ran
loop [] s = ok (serves s)
loop (selected ∷ rest) s =
    round selected s >>= λ n. elim n [ running s' ↦ loop rest s' | stopped ↦ ok returned ]

-- The descriptor of `socket`, or nothing for -1, which `bind` refuses; what `bind` and `listen` give.
unfoldable pub main : Option ℕ → Bool → Bool → List Bytes → List Selected → Outcome Ran
main none binds listens incoming rounds = ok returned
main (some server_fd) binds listens incoming rounds =
    if binds
    then (if listens
        then (fd_set server_fd [] >>= λ readfd.
            loop rounds (record (start server_fd incoming) { readfd = readfd }))
        else ok returned)
    else ok returned
