-- ===== src/HttpResponse.antt =====
-- src/HTTPResponse.h and src/HTTPResponse.cpp: responses, made from their parts and parsed.
pub mod Status
pub mod Ending
pub mod RoundTrip
pub mod Wire
pub mod Tests
use my_power_mirror.Base.{
  ℕ, zero, suc, ◌+◌, ◌-◌, Bool, true, false, ◌||◌, Option, none, some, List, [], ◌∷◌, ◌++◌, Bytes,
  codes, ltb, ◌==◌, if◌then◌else◌, Outcome, ok, ◌>>=◌,
}
use my_power_mirror.CString.Numbers.{decimal}
use my_power_mirror.ByteBuffer.{ByteBuffer, clear, make_from}
use my_power_mirror.HttpMessage.{
  Message, init, message_from_string, put_line, put_headers, get_line, get_str_element,
  parse_headers, parse_body,
}
use my_power_mirror.HttpRequest.{put_body, take_all}

-- The status is an `int`, as its pattern of 32 bits.
pub record HttpResponse : Type 0 where
  pub message : Message
  pub status : ℕ
  pub reason : Bytes

-- HTTPResponse(pData, len)
unfoldable pub response_from_bytes : Bytes → Outcome HttpResponse
response_from_bytes bytes = do
  b ← make_from bytes
  ok (record { message = init b; status = 0; reason = [] })

-- HTTPResponse(sData)
unfoldable pub response_from_string : Bytes → Outcome HttpResponse
response_from_string s_data = do
  m ← message_from_string s_data
  ok (record { message = m; status = 0; reason = [] })

-- `find` of a text in a `std::string` is not `npos`.
abbrev pub starts_with : Bytes → Bytes → Bool
starts_with [] s = true
starts_with (c ∷ t) [] = false
starts_with (c ∷ t) (x ∷ s) = let rest = starts_with t s in if c == x then rest else false

abbrev pub contains : Bytes → Bytes → Bool
contains t [] = starts_with t []
contains t (x ∷ s) = starts_with t (x ∷ s) || contains t s

unfoldable pub determine_status_code : HttpResponse → HttpResponse
determine_status_code r =
    if contains (codes "Continue") r.reason
    then record r { status = 100 }
    else if contains (codes "OK") r.reason
    then record r { status = 200 }
    else if contains (codes "Bad Request") r.reason
    then record r { status = 400 }
    else if contains (codes "Not Found") r.reason
    then record r { status = 404 }
    else if contains (codes "Server Error") r.reason
    then record r { status = 500 }
    else if contains (codes "Not Implemented") r.reason
    then record r { status = 501 }
    else r

unfoldable pub determine_reason_str : HttpResponse → HttpResponse
determine_reason_str r =
    if r.status == 100
    then record r { reason = codes "Continue" }
    else if r.status == 200
    then record r { reason = codes "OK" }
    else if r.status == 400
    then record r { reason = codes "Bad Request" }
    else if r.status == 404
    then record r { reason = codes "Not Found" }
    else if r.status == 500
    then record r { reason = codes "Internal Server Error" }
    else if r.status == 501
    then record r { reason = codes "Not Implemented" }
    else r

unfoldable pub set_status : HttpResponse → ℕ → HttpResponse
unfolding determine_reason_str
set_status r scode = determine_reason_str (record r { status = scode })

-- `<<` of an `int` to a stream.
unfoldable pub int_text : ℕ → Bytes
int_text n = if ltb n 2147483648 then decimal n else b'-' ∷ decimal (4294967296 - n)

unfoldable pub create_response : HttpResponse → Outcome (Bytes × HttpResponse)
create_response r =
    let m = record r.message { buffer = clear r.message.buffer } in
    put_line m (m.version ++ (b' ' ∷ (int_text r.status ++ (b' ' ∷ r.reason)))) true >>= λ m.
    put_headers m >>= λ m.
    put_body m >>= λ m. let (bytes, m') = take_all m in ok (bytes, record r { message = m' })

-- `parse` behind the status line.
unfoldable pub parse_content : HttpResponse → Outcome (Bool × HttpResponse)
parse_content r = parse_headers r.message >>= λ m.
    parse_body m >>= λ (done, m'). ok (done, record r { message = m' })

-- The status is determined before the reason is read; the status word is not used.
unfoldable pub parse_response : HttpResponse → Outcome (Bool × HttpResponse)
parse_response r =
    let (version, b) = get_str_element r.message.buffer b' ' in
    let (statusstr, b') = get_str_element b b' ' in
    let r' = determine_status_code r in
    let (reason, b'') = get_line b' in
    parse_content (record r' {
      message = record r.message { buffer = b''; version = version };
      reason = reason;
    })
