-- ===== src/HttpServer/Loop/Silent.antt =====
-- Runs of the server in which no NUL comes.
use my_power_mirror.Base.{ℕ, ◌≡◌, refl, Bool, Option, some, All, ◌∙◌, ok, Ends-map}
use my_power_mirror.Client.{Client, new_client}
use my_power_mirror.HttpServer.Receiving.{Read, disconnected, waiting, handled}
use my_power_mirror.HttpServer.Texts.{IsClean}
use my_power_mirror.HttpServer.Silent.{Stays, read_client-Stays}
use my_power_mirror.HttpServer.Loop.{Host, start, Processed}
use my_power_mirror.HttpServer.Loop.Rounds.{OnClient, OnRun, started-Each}

Stays-OnClient :
    (cl : Client) (r : Read) → cl ≡ new_client → Stays cl r → OnClient (λ cl. cl ≡ new_client) r
Stays-OnClient cl disconnected new stays = tt
Stays-OnClient cl waiting new stays = tt
Stays-OnClient cl (handled cl') new stays = stays ∙ new

-- From its start on, whatever requests come: as long as no NUL byte comes from any client and no
-- call of `recv` fails, in every state that the process comes to nothing has been sent to a client
-- or queued for it.
pub served-silent :
    (socket : Option ℕ) (bound listens : Bool) {h h' : Host} (run : Processed h h')
    → start socket bound listens ≡ ok (some h)
    → OnRun (All IsClean) run
    → All (λ e. e.1 ≡ new_client) h'.client_map
served-silent socket bound listens run started clean =
    started-Each (λ cl. cl ≡ new_client) (All IsClean) refl
      (λ cl rs new clean. Ends-map (λ r. Stays-OnClient cl r new) (read_client-Stays cl rs clean))
      socket bound listens run started clean
