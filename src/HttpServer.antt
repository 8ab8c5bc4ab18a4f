-- ===== src/HttpServer.antt =====
-- src/HTTPServer.cpp: from a request to what is queued and sent for its client. Printing is left
-- out; sockets are not modelled but for the bytes that `send` is given.
pub mod Answered
pub mod Loop
pub mod Main
pub mod Plain
pub mod Receiving
pub mod Replied
pub mod Replies
pub mod Resources
pub mod Sending
pub mod Silent
pub mod Tests
pub mod Texts
pub mod Trace
pub mod Waiting
use my_power_mirror.Base.{
  ℕ, ◌+◌, Bool, true, false, ◌&&◌, Option, none, some, List, [], ◌∷◌, ◌++◌, map, Bytes, codes, ltb,
  ◌==◌, if◌then◌else◌, length, Outcome, ok, fail, undefined_behavior, ◌>>=◌,
}
use my_power_mirror.CString.{str_eq, strncpy, before}
use my_power_mirror.ByteBuffer.{make, size, set_read_pos, get_bytes}
use my_power_mirror.Client.{Client, make_item, add_to_send_queue}
use my_power_mirror.HttpMessage.{Message, init, has_byte}
use my_power_mirror.HttpMessage.HeaderMap.{insert_header}
use my_power_mirror.HttpRequest.{HttpRequest, parse}
use my_power_mirror.HttpResponse.{HttpResponse, set_status, int_text, create_response}

-- HTTPResponse()
abbrev pub new_response : HttpResponse
new_response = record { message = init make; status = 0; reason = [] }

-- addHeader(key, value), with a text and with an int, and setData.
abbrev pub add_header : HttpResponse → Bytes → Bytes → HttpResponse
add_header r key value = record r {
  message = record r.message { headers = insert_header key value r.message.headers };
}

abbrev pub add_header_int : HttpResponse → Bytes → ℕ → HttpResponse
add_header_int r key value = add_header r key (int_text value)

abbrev pub set_data : HttpResponse → Bytes → HttpResponse
set_data r bytes = record r {
  message = record r.message { body = some (map some bytes); data_len = length bytes };
}

-- strcpy(tbuf, pData) into 1024 bytes, and the string that `strlen` finds there: an array without
-- a NUL is read past its end.
unfoldable pub copy_to_tbuf : Bytes → Outcome Bytes
copy_to_tbuf bytes =
    if has_byte 0 bytes && ltb (length (before 0 bytes)) 1024
    then ok (before 0 bytes)
    else fail undefined_behavior

unfoldable pub send_response : Client → HttpResponse → Bool → Outcome Client
send_response cl resp disconnect =
    let resp = if disconnect then add_header resp (codes "Connection") (codes "close") else resp in
    create_response resp >>= λ (bytes, resp). copy_to_tbuf bytes >>= λ tbuf.
    let queued = add_to_send_queue cl (make_item bytes (size resp.message.buffer) disconnect) in
    ok (record queued { sent = queued.sent ++ tbuf })

unfoldable pub send_status_response : Client → ℕ → Bytes → Outcome Client
send_status_response cl status msg =
    let resp = set_status new_response status in
    let body = resp.reason ++ (codes ": " ++ msg) in
    let slen = length body in
    let resp = add_header resp (codes "Content-Type") (codes "text/plain") in
    let resp = add_header_int resp (codes "Content-Length") slen in
    send_response cl (set_data resp (strncpy slen (before 0 body))) true

unfoldable pub handle_post : Client → HttpRequest → Outcome Client
handle_post cl req =
    let resp = set_status new_response 200 in
    let resp = add_header resp (codes "Content-Type") (codes "text/html") in
    let resp = add_header resp (codes "Content-Length") (codes "0") in
    send_response cl resp (str_eq req.message.version (codes "HTTP/1.1"))

unfoldable pub handle_options : Client → HttpRequest → Outcome Client
handle_options cl req =
    let resp = set_status new_response 200 in
    let resp = add_header resp (codes "Allow") (codes "POST, HEAD, GET, OPTIONS, TRACE") in
    let resp = add_header resp (codes "Content-Length") (codes "0") in send_response cl resp true

unfoldable pub handle_trace : Client → HttpRequest → Outcome Client
handle_trace cl req =
    let len = size req.message.buffer in
    let (buf, b) = get_bytes len (set_read_pos req.message.buffer 0) in
    let resp = set_status new_response 200 in
    let resp = add_header resp (codes "Content-Type") (codes "message/http") in
    let resp = add_header_int resp (codes "Content-Length") len in
    send_response cl (set_data resp buf) true

-- The `switch` on the method; GET and HEAD are not answered.
unfoldable pub handle_method : Client → HttpRequest → Outcome Client
handle_method cl req =
    if req.method == 2
    then handle_post cl req
    else if req.method == 0
    then ok cl
    else if req.method == 1
    then ok cl
    else if req.method == 6
    then handle_options cl req
    else if req.method == 5
    then handle_trace cl req
    else send_status_response cl 501 []

unfoldable pub handle_request : Client → HttpRequest → Outcome Client
handle_request cl req = parse req >>= λ (done, req').
    if done then handle_method cl req' else send_status_response cl 400 req'.message.parse_error
