-- ===== src/HttpServer/Tests.antt =====
-- Replies to a concrete client.
use my_power_mirror.HttpRequest.{method_int_to_str, from_bytes}
use my_power_mirror.HttpRequest.Create.{request_text}
use my_power_mirror.HttpRequest.Tests.{request, request-IsPlain}
use my_power_mirror.HttpServer.{handle_request}
use my_power_mirror.HttpServer.Trace.{traced, trace_head, handle_request-traced}
use my_power_mirror.Base.{
  ◌>>=◌, length, ◌≡◌, ◌≢◌, refl, none, some, [], ◌∷◌, ◌++◌, map, Ensures, Bytes, codes, arith, ok,
}
use my_power_mirror.Client.{Client}
use my_power_mirror.CString.{before}
use my_power_mirror.HttpServer.Receiving.{arrived, hung_up, broken, receive_rest}
use my_power_mirror.HttpServer.Waiting.{receive_rest-beyond, receive_rest-joined, joined}

abbrev idle : Client
idle = record { send_queue = []; sent = [] }

not_broken : arrived (codes "abc") ≢ broken
not_broken e = cc

not_hung_up : hung_up ≢ broken
not_hung_up e = cc

-- A request that announces two bytes, and gets three and more, or two.
receive_rest-beyond_example :
    Ensures (λ o. o ≡ none) (receive_rest 2 (codes "x") 3 (arrived (codes "abc") ∷ hung_up ∷ []))
receive_rest-beyond_example =
    receive_rest-beyond 2 (codes "x") 3 (arrived (codes "abc") ∷ hung_up ∷ []) (omega arith)
      (not_broken, (not_hung_up, tt)) (omega arith)

starts_x : before 0 (codes "x") ≡ codes "x"
unfolding before
starts_x = refl

receive_rest-joined_example :
    (memory' : Bytes) × (receive_rest 2 (codes "x") 0 (map arrived (codes "a" ∷ codes "b" ∷ []))
      ≡ ok (some (memory', 2)))
    × (before 0 memory' ≡ codes "x" ++ joined (codes "a" ∷ codes "b" ∷ []))
receive_rest-joined_example =
    receive_rest-joined 2 (codes "x") (codes "x") 0 (codes "a") (codes "b" ∷ []) starts_x
      (omega arith) (omega arith) refl (omega arith) (omega arith)

-- A TRACE request with a NUL behind the first byte of its body.
abbrev up_to_nul : Bytes
up_to_nul = codes "TRACE /a HTTP/1.1\r\nContent-Length: 2\r\nHost: me\r\n\r\nx"

nul_inside : request_text (request 5) (120 ∷ 0 ∷ 121 ∷ []) ≡ up_to_nul ++ 0 ∷ 121 ∷ []
unfolding method_int_to_str
nul_inside = refl

handle_request-traced_example :
    (from_bytes (request_text (request 5) (120 ∷ 0 ∷ 121 ∷ [])) >>= handle_request idle)
    ≡ traced idle
        (trace_head (length (up_to_nul ++ 0 ∷ 121 ∷ [])) ++ (up_to_nul ++ 0 ∷ 121 ∷ []))
        (trace_head (length (up_to_nul ++ 0 ∷ 121 ∷ [])) ++ up_to_nul)
handle_request-traced_example =
    handle_request-traced idle (request 5) (120 ∷ 0 ∷ 121 ∷ []) up_to_nul (121 ∷ [])
      (request-IsPlain 5 (omega arith)) refl nul_inside (omega arith) (omega arith)
