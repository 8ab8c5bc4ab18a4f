-- ===== src/HttpMessage/Writing.antt =====
-- `putLine` and `putHeaders` on a buffer whose write position is its end.
use my_power_mirror.Base.{
  ℕ, ◌+◌, ◌<◌, ◌≡◌, refl, ap, ◌∙◌, true, [], ◌∷◌, ◌++◌, append_assoc, append-nil, Bytes, length,
  length-append, drop, drop_ge, arith, ok, ◌>>=◌,
}
use my_power_mirror.ByteBuffer.{ByteBuffer, put_bytes}
use my_power_mirror.ByteBuffer.Written.{written, put_bytes-written}
use my_power_mirror.HttpMessage.{Message, put_line, put_header_lines, put_headers, crlf}
use my_power_mirror.HttpMessage.HeaderMap.{Headers}
use my_power_mirror.HttpMessage.Wire.{header_text, header_block}

-- The buffer with these contents and the write position behind them.
abbrev pub filled : ByteBuffer → Bytes → ByteBuffer
filled b t = record b { buf = t; wpos = length t }

written-end : (t bs : Bytes) → written (length t) t bs ≡ t ++ bs
written-end [] bs =
    let nothing : drop (length bs) [] ≡ [] = drop_ge {A = ℕ} (length bs) [] (omega arith) in
    rw nothing (append-nil bs)
written-end (x ∷ t) bs = ap (◌∷◌ x) (written-end t bs)

pub put_bytes-filled :
    (b : ByteBuffer) (t bs : Bytes)
    → length t + length bs < 4294967296
    → put_bytes (filled b t) bs ≡ ok (filled b (t ++ bs))
put_bytes-filled b t [] h = rw append-nil (unfold put_bytes in refl)
put_bytes-filled b t (x ∷ xs) h = rw (
  put_bytes-written xs x (filled b t) h (omega arith),
  written-end t (x ∷ xs),
  length-append t (x ∷ xs),
)

abbrev pub with_text : Message → Bytes → Message
with_text m t = record m { buffer = filled m.buffer t }

pub put_line-filled :
    (m : Message) (t s : Bytes)
    → length t + length s + 2 < 4294967296
    → put_line (with_text m t) s true ≡ ok (with_text m (t ++ (s ++ crlf)))
unfolding put_line
put_line-filled m t s h =
    rw (put_bytes-filled m.buffer t (s ++ crlf) (omega (arith, length-append s crlf)))

regroup : (t line rest : Bytes) → (t ++ (line ++ crlf)) ++ rest ≡ t ++ (line ++ 13 ∷ 10 ∷ rest)
regroup t line rest = append_assoc t (line ++ crlf) rest ∙ ap (◌++◌ t) (append_assoc line crlf rest)

put_header_lines-block :
    (hs : Headers) (m : Message) (t : Bytes)
    → length t + length (header_block hs []) < 4294967296
    → (put_header_lines (with_text m t) hs >>= λ m'. put_line m' [] true)
      ≡ ok (with_text m (t ++ header_block hs []))
unfolding put_header_lines
put_header_lines-block [] m t h = put_line-filled m t [] (omega arith)
put_header_lines-block ((k, v) ∷ hs) m t h =
    let line = header_text k v in
    let tail = header_block hs [] in
    let len = length-append line (13 ∷ 10 ∷ tail) in
    let t' = t ++ (line ++ crlf) in
    let len' : length t' ≡ length t + length line + 2 =
      omega (arith, length-append t (line ++ crlf), length-append line crlf) in
    rw (put_line-filled m t line (omega (arith, len))) (
      put_header_lines-block hs m t' (omega (arith, len, len'))
      ∙ ap (λ u. ok (with_text m u)) (regroup t line tail))

-- `putHeaders` writes the lines of the map in its order, and a blank line.
pub put_headers-block :
    (m : Message) (t : Bytes)
    → length t + length (header_block m.headers []) < 4294967296
    → put_headers (with_text m t) ≡ ok (with_text m (t ++ header_block m.headers []))
unfolding put_headers
put_headers-block m t h = put_header_lines-block m.headers m t h
