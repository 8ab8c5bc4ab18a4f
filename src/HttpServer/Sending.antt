-- ===== src/HttpServer/Sending.antt =====
-- What `sendResponse` does with the text that `create` returns.
use my_power_mirror.Base.{
  ℕ, ◌≡◌, refl, Bool, false, [], ◌∷◌, ◌++◌, Bytes, codes, ltb, if◌then◌else◌, length, arith, ok,
  fail, undefined_behavior, ne→==,
}
use my_power_mirror.CString.Laws.{Lacks, before-Lacks}
use my_power_mirror.ByteBuffer.{size}
use my_power_mirror.Client.{Client, make_item}
use my_power_mirror.HttpMessage.{has_byte}
use my_power_mirror.HttpMessage.Wire.{has_byte-append}
use my_power_mirror.HttpResponse.{HttpResponse, create_response}
use my_power_mirror.HttpServer.{add_header, copy_to_tbuf, send_response}

-- The response with the header that `sendResponse` adds for a client to be disconnected.
abbrev pub closing : HttpResponse → Bool → HttpResponse
closing resp disconnect =
    if disconnect then add_header resp (codes "Connection") (codes "close") else resp

has_byte-Lacks : (c : ℕ) (s : Bytes) → Lacks c s → has_byte c s ≡ false
unfolding has_byte
has_byte-Lacks c [] h = refl
has_byte-Lacks c (x ∷ s) h = rw (ne→== x c h.0) (has_byte-Lacks c s h.1)

-- A response whose text has no NUL in it: `strcpy` reads past the end of the array.
pub send_response_no_nul :
    (cl : Client) (resp resp' : HttpResponse) (disconnect : Bool) (text : Bytes)
    → create_response (closing resp disconnect) ≡ ok (text, resp')
    → Lacks 0 text
    → send_response cl resp disconnect ≡ fail undefined_behavior
unfolding send_response copy_to_tbuf
send_response_no_nul cl resp resp' disconnect text e h = rw (e, has_byte-Lacks 0 text h)

-- A response with a NUL in its text, the first of them behind fewer than 1024 bytes: the whole text
-- is queued, and what stands before that NUL is sent; with more bytes `tbuf` is written past its
-- end.
pub send_response_nul :
    (cl : Client) (resp resp' : HttpResponse) (disconnect : Bool) (front rest : Bytes)
    → create_response (closing resp disconnect) ≡ ok (front ++ 0 ∷ rest, resp')
    → Lacks 0 front
    → send_response cl resp disconnect ≡ (
        if ltb (length front) 1024
        then ok (record cl {
          send_queue =
              cl.send_queue
              ++ make_item (front ++ 0 ∷ rest) (size resp'.message.buffer) disconnect ∷ [];
          sent = cl.sent ++ front;
        })
        else fail undefined_behavior)
unfolding send_response copy_to_tbuf
send_response_nul cl resp resp' disconnect front rest e h =
    rw (e, has_byte-append 0 front rest, before-Lacks 0 front rest h) (ground arith)
