-- ===== src/HttpServer/Loop/Answered.antt =====
-- Runs of the server on whatever comes: their rounds, and what was sent to each client.
use my_power_mirror.Base.{
  ℕ, ◌≡◌, ◌≢◌, refl, Bool, Option, some, List, ok, fail, out_of_fuel, Ends, Ends-ne,
}
use my_power_mirror.Client.{new_client}
use my_power_mirror.HttpServer.Receiving.{Received}
use my_power_mirror.HttpServer.Replied.{Replied, sent_for}
use my_power_mirror.HttpServer.Answered.{read_client-Replied}
use my_power_mirror.HttpServer.Loop.{
  Host, start, Events, select_failed, timeout, events, process_round, Processed, begin, after,
}
use my_power_mirror.HttpServer.Loop.Each.{Each}
use my_power_mirror.HttpServer.Loop.Rounds.{
  OnEvents, OnRun, OnRound, OnOption, started-OnHost, started-Each, process_round-OnHost,
}

abbrev Anything : List Received → Type 0
Anything rs = Unit

any-OnEvents : (e : Events) → OnEvents Anything e
any-OnEvents select_failed = tt
any-OnEvents timeout = tt
any-OnEvents (events ready connection inputs) = λ fd. tt

any-OnRun : {h h' : Host} (run : Processed h h') → OnRun Anything run
any-OnRun begin = tt
any-OnRun (after e run step) = (any-OnRun run, any-OnEvents e)

new_client-Replied : Replied new_client
unfolding sent_for
new_client-Replied = record { sent_is = refl; short = tt }

-- In every state that process comes to after start returned true, whatever was received: what was
-- sent to each client is, for the items of its queue in their order, the text of each up to its
-- first NUL, of fewer than 1024 bytes; and no item is marked as sent in part.
pub Processed-Replied :
    (socket : Option ℕ) (bound listens : Bool) {h h' : Host}
    → start socket bound listens ≡ ok (some h)
    → Processed h h'
    → Each Replied h'.client_map
Processed-Replied socket bound listens started run =
    started-Each Replied Anything new_client-Replied
      (λ cl rs replied _. read_client-Replied cl rs replied) socket bound listens run started
      (any-OnRun run)

-- A round keeps what was sent to each client, or fails by the code.
pub process_round-Ends :
    (e : Events) (h : Host) → Each Replied h.client_map → Ends (OnRound Replied) (process_round e h)
process_round-Ends e h replied =
    process_round-OnHost Replied Anything new_client-Replied
      (λ cl rs replied _. read_client-Replied cl rs replied) e h (any-OnEvents e) replied

pub start-Ends :
    (socket : Option ℕ) (bound listens : Bool)
    → Ends (OnOption Replied) (start socket bound listens)
start-Ends socket bound listens =
    started-OnHost Replied Anything new_client-Replied
      (λ cl rs replied _. read_client-Replied cl rs replied) socket bound listens

-- In every state that process comes to after start returned true, the next round never uses up the
-- model's fuel, whatever is received in it: each of its loops ends, fails, or waits for `recv`.
process_round-ne-out_of_fuel :
    (socket : Option ℕ) (bound listens : Bool) {h h' : Host} (e : Events)
    → start socket bound listens ≡ ok (some h)
    → Processed h h'
    → process_round e h' ≢ fail out_of_fuel
process_round-ne-out_of_fuel socket bound listens {h' = h'} e started run =
    Ends-ne (process_round-Ends e h' (Processed-Replied socket bound listens started run))
