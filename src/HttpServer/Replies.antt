-- ===== src/HttpServer/Replies.antt =====
-- The replies with no body, and `sendResponse` on them.
use my_power_mirror.Base.{
  ◌<◌, ◌≡◌, refl, sym, ap, subst, inl, Bool, true, false, none, [], Bytes, codes, length, arith,
  fail, undefined_behavior,
}
use my_power_mirror.CString.{str_eq}
use my_power_mirror.CString.Laws.{Lacks}
use my_power_mirror.CString.Numbers.{decimal, digits}
use my_power_mirror.Client.{Client}
use my_power_mirror.HttpMessage.HeaderMap.{insert_header, str_lt}
use my_power_mirror.HttpRequest.{HttpRequest}
use my_power_mirror.HttpResponse.{HttpResponse, set_status, int_text}
use my_power_mirror.HttpResponse.Wire.{response_text, create_response-response_text}
use my_power_mirror.HttpServer.{
  new_response, add_header, send_response, handle_post, handle_options,
}
use my_power_mirror.HttpServer.Sending.{closing, send_response_no_nul}

-- A response with no body, whose text is known and has no NUL in it.
no_body-undefined :
    (cl : Client) (resp : HttpResponse) (disconnect : Bool) (text : Bytes)
    → (closing resp disconnect).message.body ≡ none
    → response_text (closing resp disconnect) [] ≡ text
    → length text < 4294967296
    → Lacks 0 text
    → send_response cl resp disconnect ≡ fail undefined_behavior
no_body-undefined cl resp disconnect text empty known fits lacks =
    let (resp', e, _) =
      create_response-response_text (closing resp disconnect) [] (inl (empty, refl))
        (omega (arith, ap length known)) in
    send_response_no_nul cl resp resp' disconnect (response_text (closing resp disconnect) []) e
      (subst (Lacks 0) (sym known) lacks)

abbrev post_response : HttpResponse
post_response =
    let resp = set_status new_response 200 in
    let resp = add_header resp (codes "Content-Type") (codes "text/html") in
    add_header resp (codes "Content-Length") (codes "0")

abbrev options_response : HttpResponse
options_response =
    let resp = set_status new_response 200 in
    let resp = add_header resp (codes "Allow") (codes "POST, HEAD, GET, OPTIONS, TRACE") in
    add_header resp (codes "Content-Length") (codes "0")

post-undefined :
    (cl : Client) (disconnect : Bool)
    → send_response cl post_response disconnect ≡ fail undefined_behavior
unfolding insert_header str_lt int_text decimal digits set_status
post-undefined cl true =
    no_body-undefined cl post_response true
      (codes
        "HTTP/1.1 200 OK\r\nConnection: close\r\nContent-Length: 0\r\nContent-Type: text/html\r\n\r\n")
      refl refl (omega arith) (omega arith)
post-undefined cl false =
    no_body-undefined cl post_response false
      (codes "HTTP/1.1 200 OK\r\nContent-Length: 0\r\nContent-Type: text/html\r\n\r\n") refl refl
      (omega arith) (omega arith)

options-undefined : (cl : Client) → send_response cl options_response true ≡ fail undefined_behavior
unfolding insert_header str_lt int_text decimal digits set_status
options-undefined cl =
    no_body-undefined cl options_response true
      (codes
        "HTTP/1.1 200 OK\r\nAllow: POST, HEAD, GET, OPTIONS, TRACE\r\nConnection: close\r\nContent-Length: 0\r\n\r\n")
      refl refl (omega arith) (omega arith)

-- Whatever the client and the request: the reply to a POST or an OPTIONS request has no NUL in its
-- text, and `strcpy` reads past the end of the array that `create` has made.
pub handle_post-handle_options :
    (cl : Client) (req : HttpRequest)
    → (handle_post cl req ≡ fail undefined_behavior)
      × (handle_options cl req ≡ fail undefined_behavior)
unfolding handle_post handle_options
handle_post-handle_options cl req =
    (post-undefined cl (str_eq req.message.version (codes "HTTP/1.1")), options-undefined cl)
