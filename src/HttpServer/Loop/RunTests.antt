-- ===== src/HttpServer/Loop/RunTests.antt =====
-- A run of process with a client that connects and sends a request, up to what `main` has come to.
use my_power_mirror.Base.{
  ℕ, ◌≡◌, ◌≢◌, refl, Bool, true, none, some, List, [], ◌∷◌, All, codes, ok, fail, out_of_fuel,
  arith, ◌>>=◌,
}
use my_power_mirror.Client.{new_client}
use my_power_mirror.HttpServer.Receiving.{arrived}
use my_power_mirror.HttpServer.Replied.{Replied}
use my_power_mirror.HttpServer.Texts.{IsClean}
use my_power_mirror.HttpServer.Loop.{
  stop, Events, events, timeout, proceeds, process_round, visit, step_on, apply_read, serve_clients,
  get_client, set_client, Processed, begin, after,
}
use my_power_mirror.HttpServer.Loop.Answered.{Processed-Replied}
use my_power_mirror.HttpServer.Loop.Each.{Each}
use my_power_mirror.HttpServer.Loop.Silent.{served-silent}
use my_power_mirror.HttpServer.Loop.Tests.{
  listening, started, connected, connecting, silent, get_input, get_handled,
}
use my_power_mirror.HttpServer.Main.Stopping.{stopped_process, process-stop}
use my_power_mirror.HttpServer.Main.{process, main}
use my_power_mirror.HttpServer.Main.Ending.{main-ne-out_of_fuel}

serving : process_round (events (4 ∷ []) none get_input) connected ≡ ok (proceeds connected)
unfolding process_round serve_clients visit step_on apply_read get_client set_client
serving = rw get_handled refl

abbrev run : Processed listening connected
run =
    after (events (4 ∷ []) none get_input)
      (after (events (3 ∷ []) (some 4) silent) begin connecting) serving

get-IsClean : All IsClean (arrived (codes "GET / HTTP/1.1\r\n\r\n") ∷ [])
get-IsClean = ((λ e. cc e, omega arith), tt)

served-silent_example : All (λ e. e.1 ≡ new_client) connected.client_map
served-silent_example =
    served-silent (some 3) true true run started ((tt, λ fd. tt), λ fd. get-IsClean)

Processed-Replied_example : Each Replied connected.client_map
Processed-Replied_example = Processed-Replied (some 3) true true started run

abbrev binds_any : ℕ → Bool
binds_any port = true

abbrev rounds : List Events
rounds = timeout ∷ events (3 ∷ []) (some 4) silent ∷ events (4 ∷ []) none get_input ∷ []

main-ne-out_of_fuel_example : main (some 3) binds_any true rounds ≢ fail out_of_fuel
main-ne-out_of_fuel_example = main-ne-out_of_fuel (some 3) binds_any true rounds

process-stop_example :
    process rounds (stop listening) ≡ process rounds listening >>= λ p. ok (stopped_process p)
process-stop_example = process-stop rounds listening
