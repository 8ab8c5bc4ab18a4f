-- ===== src/HttpMessage/Throwing.antt =====
-- What `parseHeaders` does with a header whose value is empty.
use my_power_mirror.Base.{
  ℕ, zero, suc, ◌+◌, ◌<◌, ◌≡◌, refl, ◌∙◌, [], ◌∷◌, ◌++◌, Bytes, length, length-append, replicate,
  All, arith, ok, fail, out_of_range,
}
use my_power_mirror.CString.{skip}
use my_power_mirror.CString.Laws.{Lacks, before-Lacks, behind-Lacks}
use my_power_mirror.ByteBuffer.{ByteBuffer}
use my_power_mirror.HttpMessage.{
  Message, get_line, last_char, add_header_line, header_lines, parse_headers,
}
use my_power_mirror.HttpMessage.HeaderMap.{Headers, insert_header}
use my_power_mirror.HttpMessage.Lines.{
  Holds, NoNewline, at_pos, get_line-crlf, get_line-Holds, length-Holds,
}
use my_power_mirror.HttpMessage.Wire.{
  IsHeader, header_text, header_text-NoNewline, header_block, header_lines-round, has_byte-append,
  last_char-append, join_lines-last, length-header_block,
}

abbrev pub spaces : ℕ → Bytes
spaces n = replicate n b' '

skip-spaces : (n : ℕ) → skip b' ' (spaces n) ≡ []
unfolding skip
skip-spaces zero = refl
skip-spaces (suc n) = skip-spaces n

spaces-NoNewline : (n : ℕ) → NoNewline (spaces n)
spaces-NoNewline zero = tt
spaces-NoNewline (suc n) = (refl, spaces-NoNewline n)

last_char-spaces : (n : ℕ) → last_char (b' ' ∷ spaces n) ≡ ok b' '
unfolding last_char
last_char-spaces zero = refl
last_char-spaces (suc n) = last_char-spaces n

-- A header's line with spaces only behind its colon.
add_header_line-spaces :
    (headers : Headers) (k : Bytes) (n : ℕ)
    → Lacks b':' k
    → add_header_line headers (header_text k (spaces n)) ≡ fail out_of_range
unfolding add_header_line
add_header_line-spaces headers k n l =
    let v = b' ' ∷ spaces n in
    rw (
      has_byte-append b':' k v,
      before-Lacks b':' k v l,
      behind-Lacks b':' k v l,
      skip-spaces (suc n),
    )

header_text-last : (k : Bytes) (n : ℕ) → last_char (header_text k (spaces n)) ≡ ok b' '
header_text-last k n =
    last_char-append k (b' ' ∷ spaces n) b':'
    ∙ last_char-append (b':' ∷ []) (spaces n) b' '
    ∙ last_char-spaces n

header_lines-empty :
    (fuel join_fuel : ℕ) (headers : Headers) (k : Bytes) (n : ℕ) (b : ByteBuffer)
    → Lacks b':' k
    → 0 < join_fuel
    → header_lines (suc fuel) join_fuel headers (header_text k (spaces n)) b ≡ fail out_of_range
unfolding header_lines
header_lines-empty fuel join_fuel headers [] n b l j = rw (
  join_lines-last join_fuel (header_text [] (spaces n)) b b' ' (header_text-last [] n) (omega arith)
      j,
  add_header_line-spaces headers [] n l,
)
header_lines-empty fuel join_fuel headers (x ∷ k) n b l j = rw (
  join_lines-last join_fuel (header_text (x ∷ k) (spaces n)) b b' ' (header_text-last (x ∷ k) n)
      (omega arith) j,
  add_header_line-spaces headers (x ∷ k) n l,
)

header_lines-throws :
    (hs : Headers) (fuel join_fuel : ℕ) (m : Headers) (b : ByteBuffer) (k : Bytes) (n : ℕ)
    (hs' : Headers) (rest : Bytes)
    → Holds b (header_block (hs ++ (k, spaces n) ∷ hs') rest)
    → All IsHeader hs
    → Lacks b':' k
    → NoNewline k
    → length hs < fuel
    → 0 < join_fuel
    → header_lines fuel join_fuel m (get_line b).0 (get_line b).1 ≡ fail out_of_range
header_lines-throws hs zero join_fuel m b k n hs' rest h a l line f j = absurd (omega arith)
header_lines-throws [] (suc fuel) join_fuel m b k n hs' rest h a l line f j =
    let v = spaces n in
    let b' = at_pos b (b.rpos + length (header_text k v) + 2) in
    rw
      (get_line-crlf b (header_text k v) (header_block hs' rest)
        (header_text-NoNewline k v line (spaces-NoNewline n)) h)
      (header_lines-empty fuel join_fuel m k n b' l j)
header_lines-throws ((key, v) ∷ hs) (suc fuel) join_fuel m b k n hs' rest h a l line f j =
    let text = header_text key v in
    let b' = at_pos b (b.rpos + length text + 2) in
    let later = header_block (hs ++ (k, spaces n) ∷ hs') rest in
    rw
      (
        get_line-crlf b text later (header_text-NoNewline key v a.0.1 a.0.2) h,
        header_lines-round fuel join_fuel m key v b' a.0.0 a.0.3 j,
      )
      (header_lines-throws hs fuel join_fuel (insert_header key v m) b' k n hs' rest
        (get_line-Holds b text later h) a.1 l line (omega arith) j)

-- `parseHeaders` on headers that each fit on a line, then one with only spaces for its value, then
-- any others: `at` throws.
pub parse_headers-throws :
    (m : Message) (hs : Headers) (k : Bytes) (n : ℕ) (hs' : Headers) (rest : Bytes)
    → Holds m.buffer (header_block (hs ++ (k, spaces n) ∷ hs') rest)
    → All IsHeader hs
    → Lacks b':' k
    → NoNewline k
    → parse_headers m ≡ fail out_of_range
unfolding parse_headers
parse_headers-throws m hs k n hs' rest h a l line =
    let fuel = length m.buffer.buf + 1 in
    let all = hs ++ (k, spaces n) ∷ hs' in
    let enough : length hs < fuel = omega (
      arith,
      length-header_block all rest,
      length-Holds m.buffer (header_block all rest) h,
      length-append hs ((k, spaces n) ∷ hs'),
    ) in
    rw (
      header_lines-throws hs fuel fuel m.headers m.buffer k n hs' rest h a l line enough
        (omega arith))
