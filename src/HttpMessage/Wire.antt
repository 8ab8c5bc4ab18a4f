-- ===== src/HttpMessage/Wire.antt =====
-- Header lines as they stand in a message: written by `putHeaders`, read by `parseHeaders`.
use my_power_mirror.Base.{
  ℕ, zero, suc, ◌+◌, ◌<◌, ◌≡◌, ◌≢◌, refl, ap, ◌∙◌, true, false, [], ◌∷◌, ◌++◌, Bytes, length,
  All-append, length-append, All, arith, ne→==, ok,
}
use my_power_mirror.CString.{skip}
use my_power_mirror.CString.Laws.{Lacks, before-Lacks, behind-Lacks}
use my_power_mirror.ByteBuffer.{ByteBuffer}
use my_power_mirror.HttpMessage.{
  Message, is_newline, get_line, last_char, join_lines, has_byte, add_header_line, header_lines,
  parse_headers,
}
use my_power_mirror.HttpMessage.Lines.{
  Holds, NoNewline, at_pos, get_line-crlf, get_line-Holds, length-Holds,
}
use my_power_mirror.HttpMessage.HeaderMap.{Headers, insert_header}
use my_power_mirror.HttpMessage.HeaderMap.Laws.{insert_all}

abbrev pub header_text : Bytes → Bytes → Bytes
header_text k v = k ++ (b':' ∷ b' ' ∷ v)

-- The header lines, a blank line, and what follows.
abbrev pub header_block : Headers → Bytes → Bytes
header_block [] rest = 13 ∷ 10 ∷ rest
header_block ((k, v) ∷ hs) rest = header_text k v ++ 13 ∷ 10 ∷ header_block hs rest

-- A value starts with no space, and its last character is no comma.
abbrev pub IsValue : Bytes → Type 0
IsValue [] = ⊥
IsValue (c ∷ v) = (c ≢ b' ') × (last_char (c ∷ v) ≢ ok b',')

-- A header that one line holds.
abbrev pub IsHeader : Bytes × Bytes → Type 0
IsHeader (k, v) = Lacks b':' k × NoNewline k × NoNewline v × IsValue v

last_char-ok : (s : Bytes) (x : ℕ) → (c : ℕ) × (last_char (x ∷ s) ≡ ok c)
unfolding last_char
last_char-ok [] x = (x, refl)
last_char-ok (y ∷ s) x = last_char-ok s y

pub last_char-append : (front s : Bytes) (x : ℕ) → last_char (front ++ x ∷ s) ≡ last_char (x ∷ s)
unfolding last_char
last_char-append [] s x = refl
last_char-append (y ∷ []) s x = refl
last_char-append (y ∷ z ∷ front) s x = last_char-append (z ∷ front) s x

-- A line that ends in no comma is not joined with the next.
pub join_lines-last :
    (fuel : ℕ) (hline : Bytes) (b : ByteBuffer) (c : ℕ)
    → last_char hline ≡ ok c
    → c ≢ b','
    → 0 < fuel
    → join_lines fuel hline hline b ≡ ok (hline, b)
unfolding join_lines
join_lines-last zero hline b c e ne h = absurd (omega arith)
join_lines-last (suc fuel) hline b c e ne h = rw (e, ne→== c b',' ne)

pub has_byte-append : (c : ℕ) (front s : Bytes) → has_byte c (front ++ c ∷ s) ≡ true
unfolding has_byte
has_byte-append c [] s = ground arith
has_byte-append c (x ∷ front) s = ground (arith, has_byte-append c front s)

add_header_line-header :
    (headers : Headers) (k v : Bytes)
    → Lacks b':' k
    → IsValue v
    → add_header_line headers (header_text k v) ≡ ok (insert_header k v headers)
unfolding add_header_line skip
add_header_line-header headers k [] l h = absurd h
add_header_line-header headers k (c ∷ v) l h =
    rw
      (
        has_byte-append b':' k (b' ' ∷ c ∷ v),
        before-Lacks b':' k (b' ' ∷ c ∷ v) l,
        behind-Lacks b':' k (b' ' ∷ c ∷ v) l,
      )
      (ground arith)

pub header_text-NoNewline : (k v : Bytes) → NoNewline k → NoNewline v → NoNewline (header_text k v)
header_text-NoNewline k v h h' =
    All-append (λ x. is_newline x ≡ false) k (b':' ∷ b' ' ∷ v) h (refl, (refl, h'))

-- The last character of a header's line is that of its value.
header_text-last :
    (k v : Bytes) → IsValue v → (c : ℕ) × (last_char (header_text k v) ≡ ok c) × (c ≢ b',')
header_text-last k [] h = absurd h
header_text-last k (x ∷ v) h =
    let (c, e) = last_char-ok v x in
    let whole : last_char (header_text k (x ∷ v)) ≡ ok c =
      last_char-append k (b' ' ∷ x ∷ v) b':' ∙ last_char-append (b':' ∷ b' ' ∷ []) v x ∙ e in
    (c, whole, λ comma. h.1 (e ∙ ap ok comma))

-- A round of the loop of `parseHeaders`, from the line that it has read.
pub header_lines-round :
    (fuel join_fuel : ℕ) (headers : Headers) (k v : Bytes) (b : ByteBuffer)
    → Lacks b':' k
    → IsValue v
    → 0 < join_fuel
    → header_lines (suc fuel) join_fuel headers (header_text k v) b
      ≡ header_lines fuel join_fuel (insert_header k v headers) (get_line b).0 (get_line b).1
unfolding header_lines
header_lines-round fuel join_fuel headers [] v b l h j =
    let (c, e, ne) = header_text-last [] v h in
    rw (
      join_lines-last join_fuel (header_text [] v) b c e ne j,
      add_header_line-header headers [] v l h,
    )
header_lines-round fuel join_fuel headers (x ∷ k) v b l h j =
    let (c, e, ne) = header_text-last (x ∷ k) v h in
    rw (
      join_lines-last join_fuel (header_text (x ∷ k) v) b c e ne j,
      add_header_line-header headers (x ∷ k) v l h,
    )

header_lines-blank :
    (fuel join_fuel : ℕ) (headers : Headers) (b : ByteBuffer)
    → header_lines fuel join_fuel headers [] b ≡ ok (headers, b)
unfolding header_lines
header_lines-blank zero join_fuel headers b = refl
header_lines-blank (suc fuel) join_fuel headers b = refl

header_lines-block :
    (hs : Headers) (fuel join_fuel r : ℕ) (m : Headers) (b : ByteBuffer) (rest : Bytes)
    → Holds b (header_block hs rest)
    → All IsHeader hs
    → length hs < fuel
    → 0 < join_fuel
    → r + length rest ≡ length b.buf
    → header_lines fuel join_fuel m (get_line b).0 (get_line b).1 ≡ ok (insert_all hs m, at_pos b r)
header_lines-block [] fuel join_fuel r m b rest h a f j e =
    let here : b.rpos + 0 + 2 ≡ r = omega (arith, length-Holds b (header_block [] rest) h) in
    rw (
      get_line-crlf b [] rest tt h,
      header_lines-blank fuel join_fuel m (at_pos b (b.rpos + 0 + 2)),
      here,
    )
header_lines-block ((k, v) ∷ hs) zero join_fuel r m b rest h a f j e = absurd (omega arith)
header_lines-block ((k, v) ∷ hs) (suc fuel) join_fuel r m b rest h a f j e =
    let line = header_text k v in
    let b' = at_pos b (b.rpos + length line + 2) in
    let is_line = header_text-NoNewline k v a.0.1 a.0.2 in
    rw
      (
        get_line-crlf b line (header_block hs rest) is_line h,
        header_lines-round fuel join_fuel m k v b' a.0.0 a.0.3 j,
      )
      (header_lines-block hs fuel join_fuel r (insert_header k v m) b' rest
        (get_line-Holds b line (header_block hs rest) h) a.1 (omega arith) j e)

pub length-header_block :
    (hs : Headers) (rest : Bytes) → length hs + length rest < length (header_block hs rest)
length-header_block [] rest = omega arith
length-header_block ((k, v) ∷ hs) rest = omega (
  arith,
  length-append (header_text k v) (13 ∷ 10 ∷ header_block hs rest),
  length-header_block hs rest,
)

-- `parseHeaders` on the lines of headers that each fit on one, and a blank line: they are inserted
-- one by one, and the buffer stands behind the blank line.
pub parse_headers-block :
    (m : Message) (hs : Headers) (rest : Bytes) (r : ℕ)
    → Holds m.buffer (header_block hs rest)
    → All IsHeader hs
    → r + length rest ≡ length m.buffer.buf
    → parse_headers m
      ≡ ok (record m { headers = insert_all hs m.headers; buffer = at_pos m.buffer r })
unfolding parse_headers
parse_headers-block m hs rest r h a e =
    let enough : length hs < length m.buffer.buf + 1 =
      omega (arith, length-header_block hs rest, length-Holds m.buffer (header_block hs rest) h) in
    rw (
      header_lines-block hs (length m.buffer.buf + 1) (length m.buffer.buf + 1) r m.headers m.buffer
        rest h a enough (omega arith) e)
