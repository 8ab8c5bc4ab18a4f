-- ===== src/HttpRequest.antt =====
-- src/HTTPRequest.h and src/HTTPRequest.cpp: requests, made from their parts and parsed.
pub mod Create
pub mod Ending
pub mod Methods
pub mod RoundTrip
pub mod Tests
pub mod Throwing
use my_power_mirror.Base.{
  ℕ, zero, suc, ◌+◌, Bool, true, false, not, ◌&&◌, ◌||◌, Option, none, some, List, [], ◌∷◌, ◌++◌,
  Bytes, codes, ltb, leb, ◌==◌, if◌then◌else◌, length, get_elem?, minus_one_32, Outcome, ok, fail,
  undefined_behavior, ◌>>=◌,
}
use my_power_mirror.CString.{str_eq, before}
use my_power_mirror.ByteBuffer.{
  ByteBuffer, size, clear, get_bytes, put_bytes, set_read_pos, make, make_from,
}
use my_power_mirror.HttpMessage.{
  Message, Cells, init, message_from_string, put_line, put_headers, get_line, get_str_element,
  parse_headers, parse_body,
}

-- The method is an `int`, -1 its pattern.
pub record HttpRequest : Type 0 where
  pub message : Message
  pub method : ℕ
  pub request_uri : Bytes

-- requestMethodStr, whose indexes are the values of `enum Method`.
abbrev pub request_method_str : List Bytes
request_method_str =
    codes "HEAD"
    ∷ codes "GET"
    ∷ codes "POST"
    ∷ codes "PUT"
    ∷ codes "DELETE"
    ∷ codes "TRACE"
    ∷ codes "OPTIONS"
    ∷ codes "CONNECT"
    ∷ codes "PATCH"
    ∷ []

abbrev pub method_post : ℕ
method_post = 2

abbrev pub method_put : ℕ
method_put = 3

-- The loop over the table from index i on.
unfoldable pub method_index : List Bytes → ℕ → Bytes → ℕ
method_index [] i name = minus_one_32
method_index (m ∷ ms) i name =
    let rest = method_index ms (i + 1) name in if str_eq m name then i else rest

unfoldable pub method_str_to_int : Bytes → ℕ
unfolding method_index
method_str_to_int name =
    if length name == 0 || leb 10 (length name)
    then minus_one_32
    else method_index request_method_str 0 (before 0 name)

unfoldable pub method_int_to_str : ℕ → Bytes
method_int_to_str mid = elim (get_elem? request_method_str mid) [ none ↦ [] | some s ↦ s ]

-- HTTPRequest(), HTTPRequest(sData), setMethod and setRequestUri.
abbrev pub new_request : HttpRequest
new_request = record { message = init make; method = 0; request_uri = [] }

unfoldable pub request_from_string : Bytes → Outcome HttpRequest
request_from_string s_data = do
  m ← message_from_string s_data
  ok (record { message = m; method = 0; request_uri = [] })

abbrev pub set_method : HttpRequest → ℕ → HttpRequest
set_method r m = record r { method = m }

abbrev pub set_request_uri : HttpRequest → Bytes → HttpRequest
set_request_uri r u = record r { request_uri = u }

-- HTTPRequest(pData, len)
unfoldable pub from_bytes : Bytes → Outcome HttpRequest
from_bytes bytes = do
  b ← make_from bytes
  ok (record { message = init b; method = 0; request_uri = [] })

-- The bytes that `putBytes(data, dataLen)` reads; a cell with no value is undefined behaviour.
unfoldable pub known_bytes : Cells → ℕ → Outcome Bytes
known_bytes cells zero = ok []
known_bytes [] (suc n) = fail undefined_behavior
known_bytes (none ∷ cells) (suc n) = fail undefined_behavior
known_bytes (some x ∷ cells) (suc n) = do xs ← known_bytes cells n; ok (x ∷ xs)

-- The end of `create`, for requests and responses: the body, if there is one, and the whole buffer
-- read from its start.
unfoldable pub put_body : Message → Outcome Message
put_body m = elim m.body [
  | none ↦ ok m
  | some cells ↦
      if ltb 0 m.data_len
      then (do
        bytes ← known_bytes cells m.data_len
        b ← put_bytes m.buffer bytes
        ok (record m { buffer = b }))
      else ok m
]

unfoldable pub take_all : Message → Bytes × Message
take_all m =
    let (bytes, b) = get_bytes (size m.buffer) (set_read_pos m.buffer 0) in
    (bytes, record m { buffer = b })

-- `none` is the NULL of an unknown method.
unfoldable pub create : HttpRequest → Outcome (Option Bytes × HttpRequest)
create r =
    let m = record r.message { buffer = clear r.message.buffer } in
    let mstr = method_int_to_str r.method in
    if length mstr == 0
    then ok (none, record r { message = m })
    else (put_line m (mstr ++ (b' ' ∷ (r.request_uri ++ (b' ' ∷ m.version)))) true >>= λ m.
        put_headers m >>= λ m. put_body m >>= λ m.
        let (bytes, m') = take_all m in ok (some bytes, record r { message = m' }))

-- The end of `parse`, behind the request line.
unfoldable pub parse_rest : HttpRequest → Outcome (Bool × HttpRequest)
parse_rest r = parse_headers r.message >>= λ m.
    if not (r.method == method_post) && not (r.method == method_put)
    then ok (true, record r { message = m })
    else (parse_body m >>= λ (done, m'). ok (done, record r { message = m' }))

unfoldable pub parse : HttpRequest → Outcome (Bool × HttpRequest)
parse r =
    let (name, b) = get_str_element r.message.buffer b' ' in
    let (uri, b') = get_str_element b b' ' in
    let (version, b'') = get_line b' in
    let m = record r.message { buffer = b''; version = version } in
    let method = method_str_to_int name in
    if method == minus_one_32
    then ok (
      false,
      record {
        message = record m { parse_error = codes "Invalid Method: " ++ name };
        method = method;
        request_uri = uri;
      },
    )
    else parse_rest (record { message = m; method = method; request_uri = uri })
