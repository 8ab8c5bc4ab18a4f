-- ===== src/HttpServer/Replied.antt =====
-- What is sent to a client and what is queued for it, whatever comes.
use my_power_mirror.Base.{
  ap₂, ℕ, ◌<◌, ◌≡◌, refl, sym, ap, ◌∙◌, Bool, true, false, List, [], ◌∷◌, ◌++◌, append-nil,
  append_assoc, All, All-append, Bytes, ltb, ltb→lt, ◌==◌, ◌&&◌, length, ◌>>=◌, Ends, undefined,
  returns, Ends-bind, Ends-if, Ends-bind_two,
}
use my_power_mirror.CString.{before}
use my_power_mirror.ByteBuffer.{size}
use my_power_mirror.Client.{Client, SendQueueItem, make_item}
use my_power_mirror.HttpMessage.{has_byte}
use my_power_mirror.HttpRequest.{HttpRequest, from_bytes, parse}
use my_power_mirror.HttpRequest.Ending.{received-Ends, any-All}
use my_power_mirror.HttpResponse.{HttpResponse}
use my_power_mirror.HttpResponse.Ending.{create_response-Ends}
use my_power_mirror.HttpServer.{
  copy_to_tbuf, send_response, send_status_response, handle_post, handle_options, handle_trace,
  handle_method, handle_request,
}

-- What was sent for the items of a queue: each up to its first NUL.
unfoldable pub sent_for : List SendQueueItem → Bytes
sent_for [] = []
sent_for (item ∷ items) = before 0 item.send_data ++ sent_for items

-- An item whose text ends before 1024 bytes, of which nothing is marked as sent.
abbrev pub IsShortItem : SendQueueItem → Type 0
IsShortItem item = (length (before 0 item.send_data) < 1024) × (item.send_offset ≡ 0)

-- Exactly the texts of the queue were sent, and each of them is short.
pub record Replied (cl : Client) : Type 0 where
  pub sent_is : cl.sent ≡ sent_for cl.send_queue
  pub short : All IsShortItem cl.send_queue

sent_for-append :
    (items : List SendQueueItem) (item : SendQueueItem)
    → sent_for (items ++ item ∷ []) ≡ sent_for items ++ before 0 item.send_data
unfolding sent_for
sent_for-append [] item = append-nil (before 0 item.send_data)
sent_for-append (i ∷ items) item =
    ap (◌++◌ (before 0 i.send_data)) (sent_for-append items item)
    ∙ sym (append_assoc (before 0 i.send_data) (sent_for items) (before 0 item.send_data))

and-second : (a b : Bool) → (a && b) ≡ true → b ≡ true
and-second true b h = h
and-second false b h = absurd (cc h)

copy_to_tbuf-Ends :
    (bytes : Bytes)
    → Ends (λ tbuf. (tbuf ≡ before 0 bytes) × (length (before 0 bytes) < 1024)) (copy_to_tbuf bytes)
unfolding copy_to_tbuf
copy_to_tbuf-Ends bytes =
    Ends-if (has_byte 0 bytes && ltb (length (before 0 bytes)) 1024)
      (λ h. returns (
        refl,
        ltb→lt (length (before 0 bytes)) 1024
            (and-second (has_byte 0 bytes) (ltb (length (before 0 bytes)) 1024) h),
      ))
      (λ _. undefined)

send_response-Replied :
    (cl : Client) (resp : HttpResponse) (disconnect : Bool)
    → Replied cl
    → Ends Replied (send_response cl resp disconnect)
unfolding send_response
send_response-Replied cl resp disconnect replied =
    Ends-bind (create_response-Ends _) λ (bytes, resp') _.
      Ends-bind (copy_to_tbuf-Ends bytes) λ tbuf known. returns (record {
        sent_is =
            ap₂ ◌++◌ replied.sent_is known.0
            ∙ sym (
                sent_for-append cl.send_queue
                  (make_item bytes (size resp'.message.buffer) disconnect));
        short = All-append _ cl.send_queue _ replied.short ((known.1, refl), tt);
      })

handle_method-Replied :
    (cl : Client) (req : HttpRequest) → Replied cl → Ends Replied (handle_method cl req)
unfolding handle_method handle_post handle_options handle_trace send_status_response
handle_method-Replied cl req replied =
    Ends-if (req.method == 2) (λ _. send_response-Replied cl _ _ replied)
      (λ _.
        Ends-if (req.method == 0) (λ _. returns replied)
          (λ _.
            Ends-if (req.method == 1) (λ _. returns replied)
              (λ _.
                Ends-if (req.method == 6) (λ _. send_response-Replied cl _ _ replied)
                  (λ _.
                    Ends-if (req.method == 5) (λ _. send_response-Replied cl _ _ replied)
                      (λ _. send_response-Replied cl _ _ replied)))))

send_status_response-Replied :
    (cl : Client) (status : ℕ) (msg : Bytes)
    → Replied cl
    → Ends Replied (send_status_response cl status msg)
unfolding send_status_response
send_status_response-Replied cl status msg replied = send_response-Replied cl _ true replied

-- A request of less than 4 GiB is handled, or the code is undefined or throws: every loop ends.
pub handle_request-Replied :
    (cl : Client) (bytes : Bytes)
    → Replied cl
    → length bytes < 4294967296
    → Ends Replied (from_bytes bytes >>= handle_request cl)
unfolding handle_request
handle_request-Replied cl bytes replied fits =
    Ends-bind_two (from_bytes bytes) parse
      (received-Ends (λ _. Unit {0}) (λ x h. tt) bytes (any-All bytes) fits)
      λ (done, req) _.
        Ends-if done (λ _. handle_method-Replied cl req replied)
          (λ _. send_status_response-Replied cl 400 req.message.parse_error replied)
