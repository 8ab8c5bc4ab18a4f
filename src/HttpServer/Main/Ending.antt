-- ===== src/HttpServer/Main/Ending.antt =====
-- The loops of the program, whatever the environment does.
use my_power_mirror.Base.{
  Some, ℕ, ◌≢◌, Bool, Option, none, some, List, [], ◌∷◌, fail, ok, out_of_fuel, minus_one_32,
  Outcome, ◌>>=◌, Ends, Ends-ne, Ends-bind,
}
use my_power_mirror.CString.Numbers.{atoi-Ends}
use my_power_mirror.HttpServer.Replied.{Replied}
use my_power_mirror.HttpServer.Loop.{Host, Events, Round, proceeds, waits, returns}
use my_power_mirror.HttpServer.Loop.Each.{Each}
use my_power_mirror.HttpServer.Loop.Rounds.{OnRound, OnOption}
use my_power_mirror.HttpServer.Loop.Answered.{process_round-Ends, start-Ends}
use my_power_mirror.HttpServer.Main.{
  port, Processing, left, blocks, process, exits, behind_process, main,
}

next-Ends :
    (r : Round) (f : Host → Outcome Processing) (h : Host)
    → OnRound Replied r
    → ((t : Host) → Each Replied t.client_map → Ends Some (f t))
    → Ends Some (elim r [ proceeds t ↦ f t | waits ↦ ok blocks | returns ↦ ok (left h) ])
next-Ends (proceeds t) f h on k = k t on
next-Ends waits f h on k = Ends.returns tt
next-Ends returns f h on k = Ends.returns tt

process-Ends : (es : List Events) (h : Host) → Each Replied h.client_map → Ends Some (process es h)
unfolding process
process-Ends [] h replied = Ends.returns tt
process-Ends (e ∷ es) h replied =
    Ends-bind (process_round-Ends e h replied)
      λ r on. next-Ends r (process es) h on (process-Ends es)

served-Ends :
    (o : Option Host) (es : List Events)
    → OnOption Replied o
    → Ends Some (elim o [
      | none ↦ ok (exits minus_one_32 none)
      | some h ↦ process es h >>= λ p. ok (behind_process p)
    ])
served-Ends none es on = Ends.returns tt
served-Ends (some h) es on = Ends-bind (process-Ends es h on) λ p _. Ends.returns tt

-- Whatever the calls of the system give, in any number of rounds: no loop of the program uses up
-- the model's fuel, so that the program returns, waits in `recv`, serves on, or fails by its own
-- code.
pub main-ne-out_of_fuel :
    (socket : Option ℕ) (binds : ℕ → Bool) (listens : Bool) (es : List Events)
    → main socket binds listens es ≢ fail out_of_fuel
unfolding main
main-ne-out_of_fuel socket binds listens es = Ends-ne {P = Some} (
    Ends-bind (atoi-Ends port) λ listen_port _.
      Ends-bind (start-Ends socket (binds listen_port) listens) λ o on. served-Ends o es on)
