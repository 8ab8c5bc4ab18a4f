-- ===== src/HttpServer/Plain.antt =====
-- The replies that carry a text: `sendStatusResponse` and `handleTrace`, on texts with no NUL.
use my_power_mirror.Base.{
  ℕ, ◌+◌, ◌-◌, ◌≤◌, ◌<◌, ◌≡◌, refl, sym, ap, subst, ◌∙◌, inr, Bool, true, [], ◌++◌, append-nil,
  Bytes, codes, length, length-append, take_ge, All-append, arith, fail, undefined_behavior, lt→ltb,
}
use my_power_mirror.CString.{strncpy, before}
use my_power_mirror.CString.Laws.{Lacks, before-end}
use my_power_mirror.CString.Numbers.{decimal, digits}
use my_power_mirror.CString.Digits.{length-decimal}
use my_power_mirror.ByteBuffer.{ByteBuffer, size, set_read_pos}
use my_power_mirror.ByteBuffer.Reading.{get_bytes_inside}
use my_power_mirror.Client.{Client}
use my_power_mirror.HttpMessage.HeaderMap.{insert_header, str_lt}
use my_power_mirror.HttpRequest.{HttpRequest}
use my_power_mirror.HttpRequest.Create.{HasBody}
use my_power_mirror.HttpResponse.{HttpResponse, set_status, int_text}
use my_power_mirror.HttpResponse.Wire.{
  response_text, create_response-response_text, int_text-All, All-Lacks,
}
use my_power_mirror.HttpServer.{
  new_response, add_header, add_header_int, set_data, send_response, send_status_response,
  handle_trace,
}
use my_power_mirror.HttpServer.Sending.{closing, send_response_no_nul}

-- A response whose text is this, with no NUL in it.
text-undefined :
    (cl : Client) (resp : HttpResponse) (disconnect : Bool) (bytes text : Bytes)
    → HasBody (closing resp disconnect).message bytes
    → response_text (closing resp disconnect) bytes ≡ text
    → length text < 4294967296
    → Lacks 0 text
    → send_response cl resp disconnect ≡ fail undefined_behavior
text-undefined cl resp disconnect bytes text body known fits lacks =
    let (resp', e, _) =
      create_response-response_text (closing resp disconnect) bytes body
        (omega (arith, ap length known)) in
    send_response_no_nul cl resp resp' disconnect (response_text (closing resp disconnect) bytes) e
      (subst (Lacks 0) (sym known) lacks)

pub length-int_text : (n : ℕ) → n < 2147483648 → length (int_text n) ≤ n + 1
unfolding int_text
length-int_text n h = rw (lt→ltb n 2147483648 h) (length-decimal n)

-- A text around a number, with a body behind it.
parts-Lacks :
    (front back body : Bytes) (n : ℕ)
    → Lacks 0 front
    → Lacks 0 back
    → Lacks 0 body
    → Lacks 0 (front ++ (int_text n ++ (back ++ body)))
parts-Lacks front back body n f b h = All-append _ front (int_text n ++ (back ++ body)) f (
    All-append _ (int_text n) (back ++ body)
      (All-Lacks 0 (int_text n) (omega arith) (int_text-All n)) (All-append _ back body b h))

pub parts-length :
    (front back body : Bytes) (n : ℕ)
    → length front ≤ 1000
    → length back ≤ 1000
    → length body ≤ 2000000
    → n ≤ 2000000
    → length (front ++ (int_text n ++ (back ++ body))) < 4294967296
parts-length front back body n f b h k = omega (
  arith,
  length-append front (int_text n ++ (back ++ body)),
  length-append (int_text n) (back ++ body),
  length-append back body,
  length-int_text n (omega arith),
)

strncpy-whole : (s : Bytes) → strncpy (length s) s ≡ s
strncpy-whole s =
    let none_left : length s - length s ≡ 0 = omega arith in
    rw (take_ge (length s) s (omega arith), none_left, append-nil s)

-- A response to be closed, with a status, a type and a body of its own.
abbrev pub plain : ℕ → Bytes → ℕ → Bytes → HttpResponse
plain status kind slen body =
    let resp = set_status new_response status in
    let resp = add_header resp (codes "Content-Type") kind in
    set_data (add_header_int resp (codes "Content-Length") slen) body

plain-undefined :
    (cl : Client) (status slen : ℕ) (kind front back body : Bytes)
    → response_text (closing (plain status kind slen body) true) body
      ≡ front ++ (int_text slen ++ (back ++ body))
    → Lacks 0 front
    → Lacks 0 back
    → Lacks 0 body
    → length front ≤ 1000
    → length back ≤ 1000
    → length body ≤ 2000000
    → slen ≤ 2000000
    → send_response cl (plain status kind slen body) true ≡ fail undefined_behavior
plain-undefined cl status slen kind front back body known f b lacks lf lb ls n =
    text-undefined cl (plain status kind slen body) true body
      (front ++ (int_text slen ++ (back ++ body))) (inr (refl, refl)) known
      (parts-length front back body slen lf lb ls n) (parts-Lacks front back body slen f b lacks)

pub status_numbers :
    (int_text 200 ≡ codes "200") × (int_text 400 ≡ codes "400") × (int_text 501 ≡ codes "501")
unfolding int_text decimal digits
status_numbers = (refl, refl, refl)

bad_request :
    (cl : Client) (slen : ℕ) (body : Bytes)
    → Lacks 0 body
    → length body ≤ 2000000
    → slen ≤ 2000000
    → send_response cl (plain 400 (codes "text/plain") slen body) true ≡ fail undefined_behavior
unfolding insert_header str_lt set_status
bad_request cl slen body lacks fits n =
    plain-undefined cl 400 slen (codes "text/plain")
      (codes "HTTP/1.1 400 Bad Request\r\nConnection: close\r\nContent-Length: ")
      (codes "\r\nContent-Type: text/plain\r\n\r\n") body (rw status_numbers.1 refl) (omega arith)
      (omega arith) lacks (omega arith) (omega arith) fits n

not_implemented :
    (cl : Client) (slen : ℕ) (body : Bytes)
    → Lacks 0 body
    → length body ≤ 2000000
    → slen ≤ 2000000
    → send_response cl (plain 501 (codes "text/plain") slen body) true ≡ fail undefined_behavior
unfolding insert_header str_lt set_status
not_implemented cl slen body lacks fits n =
    plain-undefined cl 501 slen (codes "text/plain")
      (codes "HTTP/1.1 501 Not Implemented\r\nConnection: close\r\nContent-Length: ")
      (codes "\r\nContent-Type: text/plain\r\n\r\n") body (rw status_numbers.2 refl) (omega arith)
      (omega arith) lacks (omega arith) (omega arith) fits n

echoed :
    (cl : Client) (slen : ℕ) (body : Bytes)
    → Lacks 0 body
    → length body ≤ 2000000
    → slen ≤ 2000000
    → send_response cl (plain 200 (codes "message/http") slen body) true ≡ fail undefined_behavior
unfolding insert_header str_lt set_status
echoed cl slen body lacks fits n =
    plain-undefined cl 200 slen (codes "message/http")
      (codes "HTTP/1.1 200 OK\r\nConnection: close\r\nContent-Length: ")
      (codes "\r\nContent-Type: message/http\r\n\r\n") body (rw status_numbers.0 refl) (omega arith)
      (omega arith) lacks (omega arith) (omega arith) fits n

whole_text : (text : Bytes) → Lacks 0 text → strncpy (length text) (before 0 text) ≡ text
whole_text text lacks = rw (before-end 0 text lacks, strncpy-whole text) refl

reasons :
    ((set_status new_response 400).reason ≡ codes "Bad Request")
    × ((set_status new_response 501).reason ≡ codes "Not Implemented")
unfolding set_status
reasons = (refl, refl)

-- A text for a bad request that has no NUL in it: `strcpy` reads past the end of the array that
-- `create` has made.
pub status_400 :
    (cl : Client) (msg : Bytes)
    → Lacks 0 msg
    → length msg ≤ 1900000
    → send_status_response cl 400 msg ≡ fail undefined_behavior
unfolding send_status_response
status_400 cl msg l h =
    let reason = (set_status new_response 400).reason in
    let body = reason ++ (codes ": " ++ msg) in
    let lacks : Lacks 0 body =
      All-append _ reason (codes ": " ++ msg) (rw reasons.0 (omega arith))
        (All-append _ (codes ": ") msg (omega arith) l) in
    let short : length body ≤ 2000000 = omega (
      arith,
      ap length reasons.0,
      length-append reason (codes ": " ++ msg),
      length-append (codes ": ") msg,
    ) in
    ap (λ b. send_response cl (plain 400 (codes "text/plain") (length body) b) true)
      (whole_text body lacks)
    ∙ bad_request cl (length body) body lacks short short

-- The text for a method that is not implemented: the same.
pub status_501 : (cl : Client) → send_status_response cl 501 [] ≡ fail undefined_behavior
unfolding send_status_response
status_501 cl =
    let reason = (set_status new_response 501).reason in
    let body = reason ++ codes ": " in
    let lacks : Lacks 0 body =
      All-append _ reason (codes ": ") (rw reasons.1 (omega arith)) (omega arith) in
    let short : length body ≤ 2000000 =
      omega (arith, ap length reasons.1, length-append reason (codes ": ")) in
    ap (λ b. send_response cl (plain 501 (codes "text/plain") (length body) b) true)
      (whole_text body lacks)
    ∙ not_implemented cl (length body) body lacks short short

pub size-length : (b : ByteBuffer) → length b.buf < 4294967296 → size b ≡ length b.buf
unfolding size
size-length b h = omega arith

-- The reply to TRACE, when the bytes that the buffer holds have no NUL among them.
pub trace-undefined :
    (cl : Client) (req : HttpRequest)
    → Lacks 0 req.message.buffer.buf
    → length req.message.buffer.buf ≤ 2000000
    → handle_trace cl req ≡ fail undefined_behavior
unfolding handle_trace
trace-undefined cl req lacks short =
    let b = set_read_pos req.message.buffer 0 in
    let len : size req.message.buffer ≡ length req.message.buffer.buf =
      size-length req.message.buffer (omega arith) in
    rw
      (
        len,
        get_bytes_inside (length req.message.buffer.buf) b (omega arith) (omega arith),
        take_ge (length req.message.buffer.buf) req.message.buffer.buf (omega arith),
      )
      (echoed cl (length req.message.buffer.buf) req.message.buffer.buf lacks short short)
