-- ===== src/HttpServer/Trace.antt =====
-- `handleTrace` on a request with a NUL in it.
use my_power_mirror.Base.{
  Bool, bind_assoc, ◌>>=◌, ℕ, ◌≤◌, ◌<◌, ◌≡◌, refl, sym, ap, ◌∙◌, inr, true, [], ◌∷◌, ◌++◌,
  append_assoc, Bytes, codes, ltb, if◌then◌else◌, length, length-append, take, take_ge, ap₂,
  Outcome, All-append, arith, ok, fail, undefined_behavior,
}
use my_power_mirror.CString.Laws.{Lacks}
use my_power_mirror.ByteBuffer.{size, set_read_pos}
use my_power_mirror.ByteBuffer.Reading.{get_bytes_inside}
use my_power_mirror.Client.{Client, make_item}
use my_power_mirror.HttpMessage.HeaderMap.{insert_header, str_lt}
use my_power_mirror.HttpRequest.{HttpRequest, from_bytes, parse}
use my_power_mirror.HttpRequest.Create.{request_text}
use my_power_mirror.HttpRequest.RoundTrip.{IsPlain, read_head, parse-request_text}
use my_power_mirror.HttpResponse.{set_status, int_text}
use my_power_mirror.HttpResponse.Wire.{
  response_text, create_response-response_text, int_text-All, All-Lacks,
}
use my_power_mirror.HttpServer.{
  handle_trace, handle_method, handle_request, send_response, send_status_response,
}
use my_power_mirror.HttpServer.Plain.{plain, status_numbers, size-length, length-int_text}
use my_power_mirror.HttpServer.Sending.{closing, send_response_nul}

-- The head of the reply, for a request of n bytes.
unfoldable pub trace_head : ℕ → Bytes
trace_head n =
    codes "HTTP/1.1 200 OK\r\nConnection: close\r\nContent-Length: "
    ++ (int_text n ++ codes "\r\nContent-Type: message/http\r\n\r\n")

trace_text :
    (n : ℕ) (bytes : Bytes)
    → response_text (closing (plain 200 (codes "message/http") n bytes) true) bytes
      ≡ trace_head n ++ bytes
unfolding trace_head insert_header str_lt set_status
trace_text n bytes =
    rw
      (
        status_numbers.0,
        append_assoc (int_text n) (codes "\r\nContent-Type: message/http\r\n\r\n") bytes,
      )
      refl

trace_head-Lacks : (n : ℕ) → Lacks 0 (trace_head n)
unfolding trace_head
trace_head-Lacks n =
    let back = codes "\r\nContent-Type: message/http\r\n\r\n" in
    All-append _ (codes "HTTP/1.1 200 OK\r\nConnection: close\r\nContent-Length: ")
      (int_text n ++ back) (omega arith)
      (All-append _ (int_text n) back (All-Lacks 0 (int_text n) (omega arith) (int_text-All n))
        (omega arith))

length-trace_head : (n : ℕ) → n ≤ 2000000 → length (trace_head n) ≤ 2001000
unfolding trace_head
length-trace_head n h = omega (
  arith,
  length-append (int_text n) (codes "\r\nContent-Type: message/http\r\n\r\n"),
  length-int_text n (omega arith),
)

-- What becomes of the client when the text of the reply is queued, and its front is sent.
abbrev pub traced : Client → Bytes → Bytes → Outcome Client
traced cl text front =
    if ltb (length front) 1024
    then ok (record cl {
      send_queue = cl.send_queue ++ make_item text (length text) true ∷ [];
      sent = cl.sent ++ front;
    })
    else fail undefined_behavior

echoed_nul :
    (cl : Client) (n : ℕ) (front rest : Bytes)
    → Lacks 0 front
    → length (front ++ 0 ∷ rest) ≤ 2000000
    → n ≤ 2000000
    → send_response cl (plain 200 (codes "message/http") n (front ++ 0 ∷ rest)) true
      ≡ traced cl (trace_head n ++ (front ++ 0 ∷ rest)) (trace_head n ++ front)
echoed_nul cl n front rest lacks short few =
    let body = front ++ 0 ∷ rest in
    let head = trace_head n in
    let resp = plain 200 (codes "message/http") n body in
    let known = trace_text n body in
    let split : (head ++ front) ++ 0 ∷ rest ≡ head ++ body = append_assoc head front (0 ∷ rest) in
    let fits : length (response_text (closing resp true) body) < 4294967296 =
      omega (arith, ap length known, length-append head body, length-trace_head n few) in
    let (resp', e, kept) =
      create_response-response_text (closing resp true) body (inr (refl, refl)) fits in
    let len : size resp'.message.buffer ≡ length (head ++ body) =
      size-length resp'.message.buffer (omega (arith, ap length kept, fits))
      ∙ ap length (kept ∙ known) in
    send_response_nul cl resp resp' true (head ++ front) rest
      (e ∙ ap (λ t. ok (t, resp')) (known ∙ sym split))
      (All-append _ head front (trace_head-Lacks n) lacks)
    ∙ ap₂
        (λ t k.
          if ltb (length (head ++ front)) 1024
          then ok (record cl {
            send_queue = cl.send_queue ++ make_item t k true ∷ [];
            sent = cl.sent ++ (head ++ front);
          })
          else fail undefined_behavior)
        split len

-- The reply to a TRACE request whose bytes, at most 2000000 of them, have a NUL: a head and all of
-- these bytes are queued, and what stands in front of the first NUL is sent, if it has less than 1024
-- bytes with the head; else the code writes past its array.
pub handle_trace-traced :
    (cl : Client) (req : HttpRequest) (front rest : Bytes)
    → req.message.buffer.buf ≡ front ++ 0 ∷ rest
    → Lacks 0 front
    → length (front ++ 0 ∷ rest) ≤ 2000000
    → handle_trace cl req
      ≡ traced cl
          (trace_head (length (front ++ 0 ∷ rest)) ++ (front ++ 0 ∷ rest))
          (trace_head (length (front ++ 0 ∷ rest)) ++ front)
unfolding handle_trace
handle_trace-traced cl req front rest known lacks short =
    let buf = req.message.buffer.buf in
    let bytes = front ++ 0 ∷ rest in
    let same : length buf ≡ length bytes = ap length known in
    let b = set_read_pos req.message.buffer 0 in
    let len : size req.message.buffer ≡ length buf =
      size-length req.message.buffer (omega (arith, same)) in
    let all : take (length buf) buf ≡ bytes = take_ge (length buf) buf (omega arith) ∙ known in
    rw (len, get_bytes_inside (length buf) b (omega arith) (omega (arith, same)), all, same)
      (echoed_nul cl (length bytes) front rest lacks short short)

-- What is done with a request once it is parsed.
abbrev act : Client → Bool × HttpRequest → Outcome Client
act cl (done, req) =
    if done then handle_method cl req else send_status_response cl 400 req.message.parse_error

handle_request-act :
    (cl : Client) (bytes : Bytes)
    → (from_bytes bytes >>= handle_request cl) ≡ (from_bytes bytes >>= parse >>= act cl)
unfolding handle_request
handle_request-act cl bytes = bind_assoc (from_bytes bytes) parse (act cl)

handle_method-trace :
    (cl : Client) (req : HttpRequest) → req.method ≡ 5 → handle_method cl req ≡ handle_trace cl req
unfolding handle_method
handle_method-trace cl req trace = rw trace refl

-- From the bytes of a TRACE request to what its client gets: the text, of at most 2000000 bytes, of
-- a request with a URI, a version and sorted headers that a line can hold, and with a NUL in it, is
-- queued whole behind a head, and what stands in front of the first NUL is sent, if it has less than
-- 1024 bytes with the head; else the code writes past its array.
pub handle_request-traced :
    (cl : Client) (r : HttpRequest) (bytes front rest : Bytes)
    → IsPlain r
    → r.method ≡ 5
    → request_text r bytes ≡ front ++ 0 ∷ rest
    → Lacks 0 front
    → length (front ++ 0 ∷ rest) ≤ 2000000
    → (from_bytes (request_text r bytes) >>= handle_request cl)
      ≡ traced cl
          (trace_head (length (front ++ 0 ∷ rest)) ++ (front ++ 0 ∷ rest))
          (trace_head (length (front ++ 0 ∷ rest)) ++ front)
handle_request-traced cl r bytes front rest plain trace known lacks short =
    let fits : length (request_text r bytes) < 4294967296 = omega (arith, ap length known) in
    let (p, parsed) =
      parse-request_text r bytes plain (λ e. omega (arith, trace, e)) (λ e. omega (arith, trace, e))
        fits in
    handle_request-act cl (request_text r bytes)
    ∙ ap (λ m. m >>= act cl) parsed
    ∙ handle_method-trace cl (read_head r bytes p) trace
    ∙ handle_trace-traced cl (read_head r bytes p) front rest known lacks short
