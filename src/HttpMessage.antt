-- ===== src/HttpMessage.antt =====
-- src/HTTPMessage.h and src/HTTPMessage.cpp: a byte buffer with headers, a version and a body.
pub mod Body
pub mod Ending
pub mod Head
pub mod HeaderMap
pub mod Lines
pub mod Reads
pub mod Tests
pub mod Throwing
pub mod Wire
pub mod Within
pub mod Writing
use my_power_mirror.Base.{
  ℕ, zero, suc, ◌+◌, ◌-◌, Bool, true, false, not, ◌&&◌, ◌||◌, Option, none, some, List, [], ◌∷◌,
  ◌++◌, map, Bytes, codes, ltb, leb, ◌==◌, if◌then◌else◌, length, take, replicate, u32,
  minus_one_32, Outcome, ok, fail, undefined_behavior, out_of_range, out_of_fuel, ◌>>=◌,
}
use my_power_mirror.CString.{before, behind, skip}
use my_power_mirror.CString.Numbers.{atoi, decimal}
use my_power_mirror.ByteBuffer.{
  ByteBuffer, size, get, peek, get_at, get_bytes, put_bytes, find, set_read_pos, bytes_remaining,
  make,
}
use HeaderMap.{Headers, insert_header, get_header_value}

-- A cell of `data` is `none` until it is written.
abbrev pub Cells : Type 0
Cells = List (Option ℕ)

-- `body` is the array at `data`, or `none` for NULL; `data_len` is dataLen.
pub record Message : Type 0 where
  pub buffer : ByteBuffer
  pub headers : Headers
  pub parse_error : Bytes
  pub version : Bytes
  pub body : Option Cells
  pub data_len : ℕ

-- A message after `init`.
abbrev pub init : ByteBuffer → Message
init b = record {
  buffer = b;
  headers = [];
  parse_error = [];
  version = codes "HTTP/1.1";
  body = none;
  data_len = 0;
}

-- HTTPMessage(sData): the text with its NUL.
unfoldable pub message_from_string : Bytes → Outcome Message
message_from_string s_data = do b ← put_bytes make (s_data ++ 0 ∷ []); ok (init b)

-- setVersion and clearHeaders.
abbrev pub set_version : Message → Bytes → Message
set_version m v = record m { version = v }

abbrev pub clear_headers : Message → Message
clear_headers m = record m { headers = [] }

abbrev pub crlf : Bytes
crlf = codes "\r\n"

unfoldable pub put_line : Message → Bytes → Bool → Outcome Message
put_line m s crlf_end = do
  b ← put_bytes m.buffer (if crlf_end then s ++ crlf else s)
  ok (record m { buffer = b })

-- The loop of `putHeaders` over the map.
unfoldable pub put_header_lines : Message → Headers → Outcome Message
put_header_lines m [] = ok m
put_header_lines m ((k, v) ∷ hs) = do
  m' ← put_line m (k ++ (codes ": " ++ v)) true
  put_header_lines m' hs

unfoldable pub put_headers : Message → Outcome Message
put_headers m = do m' ← put_header_lines m m.headers; put_line m' [] true

abbrev pub is_newline : ℕ → Bool
is_newline c = c == 13 || c == 10

-- The first loop of `getLine`, `left` rounds: the characters, the buffer behind them, and whether a
-- newline was reached.
unfoldable pub take_line : ℕ → ByteBuffer → Bytes × ByteBuffer × Bool
take_line zero b = ([], b, false)
take_line (suc left) b =
    let (c, b') = get b in
    let (ret, b'', reached) = take_line left b' in
    if is_newline (peek b) then ([], b, true) else (c ∷ ret, b'', reached)

-- The second loop of `getLine`, `left` rounds with k newlines passed.
unfoldable pub skip_newlines : ℕ → ℕ → ByteBuffer → ByteBuffer
skip_newlines zero k b = b
skip_newlines (suc left) k b =
    let (c, b') = get b in
    let rest = skip_newlines left (k + 1) b' in
    if leb 2 k
    then b
    else if is_newline c
    then rest
    else set_read_pos b' (u32 (b'.rpos + 4294967296 - 1))

line_end : ByteBuffer → Bytes × ByteBuffer × Bool → Bytes × ByteBuffer
line_end b (ret, b', reached) =
    if reached then (ret, skip_newlines (size b' - b'.rpos) 0 b') else ([], set_read_pos b' b.rpos)

unfoldable pub get_line : ByteBuffer → Bytes × ByteBuffer
unfolding line_end
get_line b = line_end b (take_line (size b - b.rpos) b)

-- getStrElement: the bytes up to the delimiter, as the C string that they make once the delimiter
-- is overwritten by a NUL.
unfoldable pub get_str_element : ByteBuffer → ℕ → Bytes × ByteBuffer
get_str_element b delim =
    let end = find b delim b.rpos in
    let n = u32 (end + 1 + 4294967296 - b.rpos) in
    if end == minus_one_32 || n == 0
    then ([], b)
    else let (str, b') = get_bytes n b in
      (before 0 (take (n - 1) str ++ 0 ∷ []), set_read_pos b' (u32 (end + 1)))

-- app[app.size() - 1]
unfoldable pub last_char : Bytes → Outcome ℕ
last_char [] = fail undefined_behavior
last_char (x ∷ []) = ok x
last_char (x ∷ y ∷ s) = last_char (y ∷ s)

-- The inner loop of `parseHeaders`: a line whose last character is a comma goes on in the next.
unfoldable pub join_lines : ℕ → Bytes → Bytes → ByteBuffer → Outcome (Bytes × ByteBuffer)
join_lines zero hline app b = fail out_of_fuel
join_lines (suc fuel) hline app b =
    let (app', b') = get_line b in
    let more = join_lines fuel (hline ++ app') app' b' in
    last_char app >>= λ c. if c == b',' then more else ok (hline, b)

-- addHeader(line): the value starts at its first byte that is no space, which `at` must find.
unfoldable pub add_header_value : Headers → Bytes → Bytes → Outcome Headers
add_header_value headers key [] = fail out_of_range
add_header_value headers key (c ∷ value) = ok (insert_header key (c ∷ value) headers)

unfoldable pub has_byte : ℕ → Bytes → Bool
has_byte c [] = false
has_byte c (x ∷ s) = x == c || has_byte c s

unfoldable pub add_header_line : Headers → Bytes → Outcome Headers
unfolding add_header_value has_byte
add_header_line headers line =
    if has_byte b':' line
    then add_header_value headers (before b':' line) (skip b' ' (behind b':' line))
    else ok headers

-- The outer loop of `parseHeaders`; `join_fuel` is the fuel of the inner one.
unfoldable pub header_lines : ℕ → ℕ → Headers → Bytes → ByteBuffer → Outcome (Headers × ByteBuffer)
header_lines fuel join_fuel headers [] b = ok (headers, b)
header_lines zero join_fuel headers (c ∷ hline) b = fail out_of_fuel
header_lines (suc fuel) join_fuel headers (c ∷ hline) b =
    join_lines join_fuel (c ∷ hline) (c ∷ hline) b >>= λ (joined, b').
    add_header_line headers joined >>= λ headers'.
    let (next, b'') = get_line b' in header_lines fuel join_fuel headers' next b''

unfoldable pub parse_headers : Message → Outcome Message
parse_headers m =
    let fuel = length m.buffer.buf + 1 in
    let (hline, b) = get_line m.buffer in
    header_lines fuel fuel m.headers hline b >>= λ (headers, b').
    ok (record m { headers = headers; buffer = b' })

-- data[dIdx] = x
unfoldable pub store_cell : Cells → ℕ → ℕ → Outcome Cells
store_cell [] i x = fail undefined_behavior
store_cell (c ∷ cs) zero x = ok (some x ∷ cs)
store_cell (c ∷ cs) (suc i) x = do cs' ← store_cell cs i x; ok (c ∷ cs')

-- The copying loop of `parseBody`: `left` rounds, from the read index and the index into `data`.
unfoldable pub copy_body : ℕ → ℕ → ℕ → ByteBuffer → Cells → Outcome Cells
copy_body zero i d b cells = ok cells
copy_body (suc left) i d b cells = do
  cells' ← store_cell cells d (get_at b i)
  copy_body left (i + 1) (d + 1) b cells'

unfoldable pub too_long : Bytes → ℕ → Bytes
too_long hlenstr remaining =
    codes "Content-Length ("
    ++ (hlenstr
        ++ (codes ") is greater than remaining bytes (" ++ (decimal remaining ++ codes ")")))

unfoldable pub read_body : Message → Bytes → Outcome (Bool × Message)
unfolding too_long
read_body m hlenstr = atoi hlenstr >>= λ content_len.
    let b = m.buffer in
    if ltb (u32 (bytes_remaining b + 1)) content_len
    then ok (false, record m { parse_error = too_long hlenstr (bytes_remaining b) })
    else (copy_body (size b - b.rpos) b.rpos 0 b (replicate content_len none) >>= λ cells.
        ok (true, record m { body = some cells; data_len = content_len }))

-- parseBody; the text of the header is a C string for `atoi`.
unfoldable pub parse_body : Message → Outcome (Bool × Message)
parse_body m =
    let hlenstr = get_header_value m.headers (codes "Content-Length") in
    if length hlenstr == 0 then ok (true, m) else read_body m hlenstr
