-- ===== src/Mirror/Main/Ending.antt =====
-- The loops of the C server, whatever the environment does.
use my_power_mirror.Base.{
  Some, ℕ, Bool, Option, none, some, List, [], ◌∷◌, Bytes, Outcome, ok, Ends, returns, undefined,
  Ends-bind, Ends-if, ltb,
}
use my_power_mirror.Mirror.Server.{Server, start, Selected, Next, running, stopped}
use my_power_mirror.Mirror.Server.Ending.{round-Ends}
use my_power_mirror.Mirror.Main.{Ran, returned, loop, main}

next-Ends :
    (n : Next) (f : Server → Outcome Ran)
    → ((s : Server) → Ends Some (f s))
    → Ends Some (elim n [ running s ↦ f s | stopped ↦ ok returned ])
next-Ends (running s) f k = k s
next-Ends stopped f k = returns tt

loop-Ends : (rounds : List Selected) (s : Server) → Ends Some (loop rounds s)
unfolding loop
loop-Ends [] s = returns tt
loop-Ends (selected ∷ rest) s =
    Ends-bind (round-Ends selected s) λ n _. next-Ends n (loop rest) (loop-Ends rest)

-- Whatever the calls of the system give, in any number of rounds: no loop of the server uses up the
-- model's fuel, so that it returns, serves on, or fails by its own code.
pub main-Ends :
    (socket : Option ℕ) (binds listens : Bool) (incoming : List Bytes) (rounds : List Selected)
    → Ends (λ _. Unit {0}) (main socket binds listens incoming rounds)
unfolding main
main-Ends none binds listens incoming rounds = returns tt
main-Ends (some server_fd) binds listens incoming rounds =
    Ends-if binds
      (λ _.
        Ends-if listens
          (λ _.
            Ends-bind {P = Some} (Ends-if (ltb server_fd 1024) (λ _. returns tt) (λ _. undefined))
              λ readfd _. loop-Ends rounds (record (start server_fd incoming) { readfd = readfd }))
          (λ _. returns tt))
      (λ _. returns tt)
