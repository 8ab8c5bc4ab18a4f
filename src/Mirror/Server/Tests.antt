-- ===== src/Mirror/Server/Tests.antt =====
-- Runs of the loop of server.c.
use my_power_mirror.Base.{
  Ends, codes, Bytes, ℕ, ◌≡◌, ◌-◌, ◌<◌, ◌≤◌, ◌⊎◌, refl, true, some, List, [], ◌∷◌, ◌++◌, length,
  replicate, arith, ok, fail, undefined_behavior, All,
}
use my_power_mirror.Mirror.Server.{
  Server, sent, Effect, received, closed, ready, running, start, round, serve, serve_client,
  add_client, slot, set_slot, close_client, receive_from, here, next,
}
use my_power_mirror.Mirror.Server.Connecting.{connect_all, connect_all-start}
use my_power_mirror.Mirror.Server.Lost.{Spares, Quiet, waits, serve-IsLost}
use my_power_mirror.Mirror.Server.Reads.{ReadsFrom, serve-ReadsFrom}
use my_power_mirror.Mirror.Main.{main}
use my_power_mirror.Mirror.Main.Ending.{main-Ends}
use my_power_mirror.CString.{null, str, strtok, strn_eq, skip, before, behind}
use my_power_mirror.Mirror.Http.Fields.{Field, host, content_type}
use my_power_mirror.Mirror.Util.{extension, first_type}
use my_power_mirror.Mirror.Server.Answering.{
  put_all, parsed, request_bytes, reply, serve_client-sends,
}
use my_power_mirror.Mirror.Server.Valid.{IsValid, Reach-IsValid}

-- One client has connected.
abbrev connected : Server
connected = record (start 3 []) {
  client_fd = some 4;
  client = 4 ∷ replicate 9 0;
  client_count = 1;
  readfd = 4 ∷ 3 ∷ [];
  maxfd = 4;
}

connecting : round (ready (3 ∷ []) (some 4) true) (start 3 []) ≡ ok (running connected)
unfolding round serve add_client set_slot
connecting = refl

Reach-IsValid_example : IsValid connected
Reach-IsValid_example =
    Reach-IsValid 3 [] (omega arith) (next (ready (3 ∷ []) (some 4) true) here connecting)

abbrev newcomers : List ℕ
newcomers = 4 ∷ 5 ∷ []

connect_all-start_example :
    ((length newcomers ≤ 10)
      × (s : Server) × (connect_all newcomers (start 3 []) ≡ ok (running s))
      × (s.client ≡ newcomers ++ replicate (10 - length newcomers) 0)
      × (s.client_count ≡ length newcomers))
    ⊎ ((10 < length newcomers) × (connect_all newcomers (start 3 []) ≡ fail undefined_behavior))
connect_all-start_example = connect_all-start 3 [] newcomers (omega arith) (omega arith)

-- Two clients, the first of which closes its connection.
abbrev two : Server
two = record (start 3 ([] ∷ [])) {
  client_fd = some 5;
  client = 4 ∷ 5 ∷ replicate 8 0;
  client_count = 2;
  readfd = 5 ∷ 4 ∷ 3 ∷ [];
  maxfd = 5;
}

abbrev one_left : Server
one_left = record two {
  client = 0 ∷ 5 ∷ replicate 8 0;
  client_count = 1;
  readfd = 5 ∷ 3 ∷ [];
  incoming = [];
  effects = received 5 ∷ closed 4 ∷ [];
}

one_leaves : serve 2 (4 ∷ []) true 0 two ≡ ok one_left
unfolding serve serve_client slot receive_from close_client set_slot
one_leaves = refl

first_slot : slot two.client 0 ≡ ok 4
unfolding slot
first_slot = refl

quiet : Quiet one_left one_left
unfolding round
quiet = waits Quiet.here refl

serve-IsLost_example : All (Spares 5) one_left.effects
serve-IsLost_example =
    serve-IsLost 5 0 4 1 (4 ∷ []) true [] two (omega arith) (omega arith) (omega arith) first_slot
      refl refl tt one_leaves quiet

serve-ReadsFrom_example :
    (new : List Effect) × (one_left.effects ≡ two.effects ++ new) × All (ReadsFrom 5) new
serve-ReadsFrom_example = serve-ReadsFrom 5 2 (4 ∷ []) true 0 two refl one_leaves

-- A request for a picture, from the one client.
abbrev picture : List (Field × Bytes)
picture = (host, codes "me\r") ∷ (content_type, codes "a.png\r") ∷ []

abbrev asking : Server
asking = record connected { incoming = request_bytes (codes "GET / HTTP/1.1\r") picture [] ∷ [] }

first_word : strtok b' ' (codes "GET / HTTP/1.1\r") ≡ some (codes "GET", codes "/ HTTP/1.1\r")
unfolding strtok skip before behind
first_word = refl

asked : (parsed (codes "GET") picture).expect ≡ null
unfolding put_all
asked = refl

asked_type : (parsed (codes "GET") picture).content_type ≡ str (codes "a.png\r")
unfolding put_all
asked_type = refl

at_first : slot asking.client 0 ≡ ok 4
unfolding slot
at_first = refl

serve_client-sends_example :
    serve_client (4 ∷ []) true 0 asking
    ≡ ok (record asking {
      incoming = [];
      effects = asking.effects ++ received 4 ∷ sent 4 (reply (codes "a.png\r")) ∷ [];
    })
serve_client-sends_example =
    serve_client-sends (4 ∷ []) true 0 4 4 asking [] (codes "GET / HTTP/1.1\r") (codes "GET")
      (codes "/ HTTP/1.1\r") picture [] (codes "a.png\r") at_first refl refl refl (omega arith)
      first_word (omega arith) (omega arith) asked asked_type (omega arith) (omega arith)

-- What it is sent.
picture_reply :
    reply (codes "a.png\r")
    ≡ codes
        "HTTP/1.1 200 OK\r\nConnection: close\r\nAccept-Ranges: bytes\r\nContent-Type: image/png\r\nContent-Length: 1\r\n\r\n"
      ++ 0 ∷ []
unfolding extension first_type strn_eq
picture_reply = refl

main-Ends_example :
    Ends (λ _. Unit {0}) (main (some 3) true true [] (ready (3 ∷ []) (some 4) true ∷ []))
main-Ends_example = main-Ends (some 3) true true [] (ready (3 ∷ []) (some 4) true ∷ [])
