-- ===== src/Mirror/Response.antt =====
-- server.c, `response`: the reply to every request, built by `strcat` in memory from `malloc`,
-- which is taken not to fail.
pub mod Sent
use my_power_mirror.Base.{
  ℕ, suc, ◌+◌, Bool, ◌&&◌, List, [], ◌∷◌, ◌++◌, Bytes, codes, ltb, leb, if◌then◌else◌, length, take,
  Outcome, ok, fail, undefined_behavior, ◌>>=◌,
}
use my_power_mirror.Mirror.Util.{get_file_type}
use my_power_mirror.Mirror.Http.{Request}

-- `buf`: the bytes allocated, and the string that it holds.
pub record HeapText : Type 0 where
  pub size : ℕ
  pub text : Bytes

-- A copy of the string and its NUL, as `malloc` and `strcpy` make it.
unfoldable pub strcpy_new : ℕ → Bytes → Outcome HeapText
strcpy_new size s =
    if leb (suc (length s)) size
    then ok (record { size = size; text = s })
    else fail undefined_behavior

abbrev pub realloc : HeapText → ℕ → HeapText
realloc b size = record b { size = size }

unfoldable pub strcat : HeapText → Bytes → Outcome HeapText
strcat b s =
    if leb (suc (length b.text + length s)) b.size
    then ok (record b { text = b.text ++ s })
    else fail undefined_behavior

-- memcpy(&buf[offset], s, length s), behind the NUL of the string; the string stays.
unfoldable pub memcpy_behind : HeapText → ℕ → Bytes → Outcome HeapText
memcpy_behind b offset s =
    if ltb (length b.text) offset && leb (offset + length s) b.size
    then ok b
    else fail undefined_behavior

-- The first n bytes, as `send` reads them: no more than the string and its NUL are known.
unfoldable pub read_prefix : HeapText → ℕ → Outcome Bytes
read_prefix b n =
    if leb n (suc (length b.text)) && leb n b.size
    then ok (take n (b.text ++ 0 ∷ []))
    else fail undefined_behavior

abbrev pub status_lines : Bytes
status_lines = codes "HTTP/1.1 200 OK\r\nConnection: close\r\nAccept-Ranges: bytes\r\n"

abbrev pub content_type_line : Bytes → Bytes
content_type_line type = codes "Content-Type: " ++ (type ++ codes "\r\n")

-- sprintf(temp, "Content-Length: %d\r\n\r\n", 1)
abbrev pub content_length_line : Bytes
content_length_line = codes "Content-Length: 1\r\n\r\n"

-- malloc and strcpy for the first text, realloc and strcat for each of the other two, the copy of
-- "\r\n" behind them, and `send` of `len` bytes.
unfoldable pub assemble : Bytes → Bytes → Bytes → Outcome Bytes
assemble first second third = do
  let len = length first + 1
  buf ← strcpy_new len first
  let len = len + length second
  buf ← strcat (realloc buf len) second
  let len = len + length third
  buf ← strcat (realloc buf len) third
  buf ← memcpy_behind (realloc buf (len + 4)) len (codes "\r\n")
  read_prefix buf len

-- The bytes that are sent to the client.
unfoldable pub response : Request → Outcome Bytes
response res = do
  type ← get_file_type res.content_type
  assemble status_lines (content_type_line type) content_length_line
