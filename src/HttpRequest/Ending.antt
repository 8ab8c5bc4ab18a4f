-- ===== src/HttpRequest/Ending.antt =====
-- The loops of `parse` of a request, on whatever bytes were received.
use my_power_mirror.Base.{
  ℕ, zero, suc, ◌+◌, ◌-◌, ◌*◌, ◌≤◌, ◌<◌, ◌≡◌, ◌≢◌, refl, ap, ◌∙◌, not, ◌&&◌, none, [], ◌∷◌, ◌++◌,
  Bytes, codes, ltb, ◌==◌, length, length-append, All, All-append, All-map, replicate, arith, u32,
  minus_one_32, fail, out_of_fuel, ◌>>=◌, Ends, returns, undefined, Ends-bind, Ends-if, Ends-map,
  Ends-ne,
}
use my_power_mirror.CString.Numbers.{atoi-Ends, decimal}
use my_power_mirror.CString.Digits.{decimal-All, length-decimal}
use my_power_mirror.ByteBuffer.{ByteBuffer, get_at, size, bytes_remaining, make}
use my_power_mirror.HttpMessage.{
  Message, Cells, init, store_cell, copy_body, too_long, read_body, parse_body, get_line,
  get_str_element,
}
use my_power_mirror.HttpMessage.HeaderMap.{get_header_value}
use my_power_mirror.HttpMessage.Writing.{filled}
use my_power_mirror.HttpRequest.RoundTrip.{from_bytes-filled}
use my_power_mirror.HttpMessage.Reads.{
  Readable, Reads-Readable, get_line-Reads, get_str_element-Reads,
}
use my_power_mirror.HttpMessage.Ending.{parse_headers-Ends}
use my_power_mirror.HttpMessage.Within.{Within, get_header_value-Within}
use my_power_mirror.HttpRequest.{
  HttpRequest, from_bytes, parse, parse_rest, method_str_to_int, method_post, method_put,
}

store_cell-Ends : (cells : Cells) (d x : ℕ) → Ends (λ _. Unit {0}) (store_cell cells d x)
unfolding store_cell
store_cell-Ends [] d x = undefined
store_cell-Ends (c ∷ cells) zero x = returns tt
store_cell-Ends (c ∷ cells) (suc d) x = Ends-bind (store_cell-Ends cells d x) λ cells' _. returns tt

copy_body-Ends :
    (left i d : ℕ) (b : ByteBuffer) (cells : Cells)
    → Ends (λ _. Unit {0}) (copy_body left i d b cells)
unfolding copy_body
copy_body-Ends zero i d b cells = returns tt
copy_body-Ends (suc left) i d b cells =
    Ends-bind (store_cell-Ends cells d (get_at b i))
      λ cells' _. copy_body-Ends left (i + 1) (d + 1) b cells'

-- The texts that an error may have: bytes that satisfy P, not many more than the buffer has.
abbrev pub IsShort : (ℕ → Type 0) → ℕ → Bytes → Type 0
IsShort P n error = All P error × (length error ≤ 2 * n + 64)

-- What parsing leaves: the bytes of the buffer, and such an error.
pub record Parsed (P : ℕ → Type 0) (n : ℕ) (buf : Bytes) (m : Message) : Type 0 where
  pub buf_stays : m.buffer.buf ≡ buf
  pub error : IsShort P n m.parse_error

module _ (P : ℕ → Type 0) (positive : (x : ℕ) → 0 < x → P x) where
  literal-All : (s : Bytes) → All (λ c. 0 < c) s → All P s
  literal-All s h = All-map (λ c. 0 < c) P s positive h

  too_long-IsShort :
      (n remaining : ℕ) (hlenstr : Bytes)
      → All P hlenstr
      → length hlenstr ≤ n
      → remaining ≤ n
      → IsShort P n (too_long hlenstr remaining)
  unfolding too_long
  too_long-IsShort n remaining hlenstr p l r =
      let digits_P : All P (decimal remaining) =
        All-map (λ c. 32 < c) P (decimal remaining) (λ x h. positive x (omega arith))
          (decimal-All remaining) in
      let middle = codes ") is greater than remaining bytes (" in
      let tail = decimal remaining ++ codes ")" in
      let tail_P =
        All-append P (decimal remaining) (codes ")") digits_P
          (literal-All (codes ")") (omega arith)) in
      (
        All-append P (codes "Content-Length (") (hlenstr ++ (middle ++ tail))
            (literal-All (codes "Content-Length (") (omega arith))
            (All-append P hlenstr (middle ++ tail) p
              (All-append P middle tail (literal-All middle (omega arith)) tail_P)),
        omega (
          arith,
          length-append hlenstr (middle ++ tail),
          length-append (decimal remaining) (codes ")"),
          length-decimal remaining,
        ),
      )

  read_body-Ends :
      (n : ℕ) (m : Message) (hlenstr : Bytes)
      → Readable P m.buffer
      → length m.buffer.buf ≤ n
      → Within P n (hlenstr, hlenstr)
      → IsShort P n m.parse_error
      → Ends (λ r. Parsed P n m.buffer.buf r.1) (read_body m hlenstr)
  unfolding read_body bytes_remaining
  read_body-Ends n m hlenstr c le h e = Ends-bind (atoi-Ends hlenstr) λ content_len _.
      Ends-if (ltb (u32 (bytes_remaining m.buffer + 1)) content_len)
        (λ _. returns (record {
          buf_stays = refl;
          error =
              too_long-IsShort n (bytes_remaining m.buffer) hlenstr h.0 h.1
                (omega (arith, c.fits, c.within));
        }))
        (λ _.
          Ends-bind
            (copy_body-Ends (size m.buffer - m.buffer.rpos) m.buffer.rpos 0 m.buffer
              (replicate content_len none))
            λ cells _. returns (record { buf_stays = refl; error = e }))

  pub parse_body-Ends :
      (n : ℕ) (m : Message)
      → Readable P m.buffer
      → length m.buffer.buf ≤ n
      → All (Within P n) m.headers
      → IsShort P n m.parse_error
      → Ends (λ r. Parsed P n m.buffer.buf r.1) (parse_body m)
  unfolding parse_body
  parse_body-Ends n m c le h e =
      let hlenstr = get_header_value m.headers (codes "Content-Length") in
      Ends-if (length hlenstr == 0) (λ _. returns (record { buf_stays = refl; error = e }))
        (λ _.
          read_body-Ends n m hlenstr c le
            (get_header_value-Within P n m.headers (codes "Content-Length") h) e)

  parse_rest-Ends :
      (n : ℕ) (r : HttpRequest)
      → Readable P r.message.buffer
      → length r.message.buffer.buf ≤ n
      → All (Within P n) r.message.headers
      → IsShort P n r.message.parse_error
      → Ends (λ o. Parsed P n r.message.buffer.buf o.1.message) (parse_rest r)
  unfolding parse_rest
  parse_rest-Ends n r c le h e =
      Ends-bind (parse_headers-Ends P n r.message c le h) λ m (headers, pos, at_m, inside, within).
        let c' : Readable P m.buffer =
          rw at_m (record { fits = c.fits; within = inside; bytes = c.bytes }) in
        let same : m.buffer.buf ≡ r.message.buffer.buf = ap (λ (m : Message). m.buffer.buf) at_m in
        let error : IsShort P n m.parse_error = rw at_m e in
        Ends-if (not (r.method == method_post) && not (r.method == method_put))
          (λ _. returns (record { buf_stays = same; error = error }))
          (λ _.
            Ends-bind
              (parse_body-Ends n m c' (omega (arith, ap length same)) (rw at_m within) error)
              λ (done, m') parsed.
                returns (record { buf_stays = parsed.buf_stays ∙ same; error = parsed.error }))

  -- `parse` ends, leaves the bytes of the buffer, and has an error text of bytes that satisfy P.
  pub parse-Ends :
      (n : ℕ) (r : HttpRequest)
      → Readable P r.message.buffer
      → length r.message.buffer.buf ≤ n
      → All (Within P n) r.message.headers
      → IsShort P n r.message.parse_error
      → Ends (λ o. Parsed P n r.message.buffer.buf o.1.message) (parse r)
  unfolding parse
  parse-Ends n r c le h e =
      let b = r.message.buffer in
      let name = get_str_element b b' ' in
      let read = get_str_element-Reads P b b' ' c in
      let c₁ = Reads-Readable P b name c read in
      let uri = get_str_element name.1 b' ' in
      let read₁ = get_str_element-Reads P name.1 b' ' c₁ in
      let c₂ = Reads-Readable P name.1 uri c₁ read₁ in
      let line = get_line uri.1 in
      let read₂ = get_line-Reads P uri.1 c₂ in
      let c₃ = Reads-Readable P uri.1 line c₂ read₂ in
      let same : line.1.buf ≡ b.buf =
        ap (λ (x : ByteBuffer). x.buf) read₂.moved
        ∙ ap (λ (x : ByteBuffer). x.buf) read₁.moved
        ∙ ap (λ (x : ByteBuffer). x.buf) read.moved in
      let m = record r.message { buffer = line.1; version = line.0 } in
      let method = method_str_to_int name.0 in
      Ends-if (method == minus_one_32)
        (λ _. returns (record {
          buf_stays = same;
          error = (
            All-append P (codes "Invalid Method: ") name.0
                (literal-All (codes "Invalid Method: ") (omega arith)) read.all,
            omega
                (arith, length-append (codes "Invalid Method: ") name.0, read.behind, read.inside),
          );
        }))
        (λ _.
          Ends-map
            (λ o parsed. record { buf_stays = parsed.buf_stays ∙ same; error = parsed.error })
            (parse_rest-Ends n (record { message = m; method = method; request_uri = uri.0 }) c₃
              (omega (arith, ap length same)) h e))

  received-Readable :
      (bytes : Bytes) → All P bytes → length bytes < 4294967296 → Readable P (filled make bytes)
  received-Readable bytes h fits = record { fits = fits; within = omega arith; bytes = h }

  -- What was received, parsed.
  pub received-Ends :
      (bytes : Bytes)
      → All P bytes
      → length bytes < 4294967296
      → Ends (λ o. Parsed P (length bytes) bytes o.1.message) (from_bytes bytes >>= parse)
  received-Ends bytes h fits = rw (from_bytes-filled bytes fits) (
      parse-Ends (length bytes)
        (record { message = init (filled make bytes); method = 0; request_uri = [] })
        (received-Readable bytes h fits) (omega arith) tt (tt, omega arith))

pub any-All : (bytes : Bytes) → All (λ _. Unit {0}) bytes
any-All [] = tt
any-All (x ∷ bytes) = (tt, any-All bytes)

-- Whatever bytes are received, fewer than 4 GiB: the loops of `parse` end, so that the model's fuel
-- is never used up.
pub parse-ne-out_of_fuel :
    (bytes : Bytes) → length bytes < 4294967296 → (from_bytes bytes >>= parse) ≢ fail out_of_fuel
parse-ne-out_of_fuel bytes fits =
    Ends-ne (received-Ends (λ _. Unit {0}) (λ x h. tt) bytes (any-All bytes) fits)
