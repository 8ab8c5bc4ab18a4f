-- ===== src/HttpServer/Receiving.antt =====
-- src/HTTPServer.cpp, readClient: what is received from a client until its request is handled. What
-- `recv` gives is the environment's choice.
use my_power_mirror.Base.{
  ℕ, ◌+◌, ◌-◌, ◌%◌, ◌^◌, Option, none, some, List, [], ◌∷◌, ◌++◌, Bytes, codes, ltb, ◌==◌,
  if◌then◌else◌, length, take, drop, replicate, Outcome, ok, fail, undefined_behavior, ◌>>=◌,
}
use my_power_mirror.CString.{before}
use my_power_mirror.CString.Numbers.{atoi}
use my_power_mirror.Client.{Client}
use my_power_mirror.HttpMessage.HeaderMap.{get_header_value}
use my_power_mirror.HttpRequest.{HttpRequest, from_bytes, parse}
use my_power_mirror.HttpResponse.{contains}
use my_power_mirror.HttpServer.{handle_request}

-- DATA_LEN
abbrev pub data_len : ℕ
data_len = 555555

-- A result of `recv`: bytes, 0 of a connection that was closed, or -1.
pub data Received : Type 0 where
  arrived : Bytes → Received
  hung_up broken : Received

-- The result, as the 64 bits of a `ssize_t`, and what it left in the zeroed array.
abbrev pub received_len : Received → ℕ
received_len (arrived bytes) = length bytes
received_len hung_up = 0
received_len broken = 2 ^ 64 - 1

abbrev pub received_bytes : Received → Bytes
received_bytes (arrived bytes) = bytes
received_bytes hung_up = []
received_bytes broken = []

-- The string at the start of an array of DATA_LEN bytes, of which those behind the given ones are
-- zeros.
unfoldable pub text_in : Bytes → Outcome Bytes
text_in memory =
    if ltb (length (before 0 memory)) data_len
    then ok (before 0 memory)
    else fail undefined_behavior

-- strcat(pData, buff)
unfoldable pub append_text : Bytes → Bytes → Outcome Bytes
append_text memory buff = do
  text ← text_in memory
  more ← text_in buff
  if ltb (length text + length more) data_len
      then ok (text ++ (more ++ 0 ∷ drop (length text + length more + 1) memory))
      else fail undefined_behavior

-- An `int` that is compared with a `ssize_t`: its sign is kept.
abbrev pub widen : ℕ → ℕ
widen n = if ltb n 2147483648 then n else n + (2 ^ 64 - 2 ^ 32)

-- The loop that waits for the content, `temp` by its 64 bits: nothing where it still waits for the
-- next `recv` to return, or the array with `temp`.
unfoldable pub receive_rest : ℕ → Bytes → ℕ → List Received → Outcome (Option (Bytes × ℕ))
receive_rest cont_len memory temp [] = ok none
receive_rest cont_len memory temp (r ∷ rs) =
    let temp = (temp + received_len r) % 2 ^ 64 in
    append_text memory (received_bytes r) >>= λ memory'.
    let more = receive_rest cont_len memory' temp rs in
    if temp == cont_len then ok (some (memory', temp)) else more

-- HTTPRequest(pData, n), that copies n bytes of the array.
unfoldable pub request_in : Bytes → ℕ → Outcome HttpRequest
request_in memory n =
    if ltb data_len n
    then fail undefined_behavior
    else from_bytes (take n memory ++ replicate (n - length memory) 0)

-- What the branch for a request with `Expect: 100-continue` leaves of pData and lenRecv.
unfoldable pub receive_expected : Bytes → ℕ → List Received → Outcome (Option (Bytes × ℕ))
receive_expected memory len_recv rs = request_in memory len_recv >>= λ req.
    parse req >>= λ (_, req').
    atoi (get_header_value req'.message.headers (codes "Content-Length")) >>= λ cont_len.
    receive_rest (widen cont_len) memory 0 rs >>= λ o. elim o [
      | none ↦ ok none
      | some (memory', temp) ↦ ok (some (memory', (len_recv + temp) % 2 ^ 64))
    ]

-- What readClient comes to: it disconnects the client, it still waits, or it has handled a request.
pub data Read : Type 0 where
  disconnected waiting : Read
  handled : Client → Read

unfoldable pub read_bytes : Client → Bytes → List Received → Outcome Read
read_bytes cl bytes rs = text_in bytes >>= λ text.
    (if contains (codes "Expect: 100-continue") text
      then receive_expected bytes (length bytes) rs
      else ok (some (bytes, length bytes)))
    >>= λ o. elim o [
      | none ↦ ok waiting
      | some (memory, len_recv) ↦
          request_in memory len_recv >>= λ req. handle_request cl req >>= λ cl'. ok (handled cl')
    ]

unfoldable pub read_client : Client → List Received → Outcome Read
read_client cl [] = ok waiting
read_client cl (arrived [] ∷ rs) = ok disconnected
read_client cl (arrived (x ∷ bytes) ∷ rs) = read_bytes cl (x ∷ bytes) rs
read_client cl (hung_up ∷ rs) = ok disconnected
read_client cl (broken ∷ rs) = ok disconnected
