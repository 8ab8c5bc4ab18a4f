-- ===== src/HttpResponse/Wire.antt =====
-- What `create` writes for a response, and `parse` on it.
use my_power_mirror.Base.{
  ℕ, ◌+◌, ◌-◌, ◌≤◌, ◌<◌, ◌≡◌, ap, ◌∙◌, [], ◌∷◌, ◌++◌, append_assoc, Bytes, ltb, length,
  length-append, All, arith, Bool-cases, inl, inr, ok, ◌>>=◌,
}
use my_power_mirror.CString.Laws.{Lacks}
use my_power_mirror.CString.Digits.{decimal-All}
use my_power_mirror.ByteBuffer.{ByteBuffer, make, make_from, clear}
use my_power_mirror.HttpMessage.{init, crlf}
use my_power_mirror.HttpMessage.Head.{header_block-append}
use my_power_mirror.HttpMessage.HeaderMap.Laws.{IsSorted}
use my_power_mirror.HttpMessage.Lines.{
  Holds, NoNewline, at_pos, get_line-crlf, get_line-Holds, get_str_element-token, token-Holds,
}
use my_power_mirror.HttpMessage.Wire.{header_block, IsHeader}
use my_power_mirror.HttpMessage.Writing.{
  filled, put_bytes-filled, put_line-filled, put_headers-block,
}
use my_power_mirror.HttpRequest.Create.{HasBody, put_body-HasBody, take_all-filled}
use my_power_mirror.HttpResponse.{
  HttpResponse, response_from_bytes, int_text, create_response, parse_response, parse_content,
  determine_status_code,
}

abbrev pub status_line : HttpResponse → Bytes
status_line r = r.message.version ++ (b' ' ∷ (int_text r.status ++ (b' ' ∷ r.reason)))

-- A whole response, as it is sent.
abbrev pub response_text : HttpResponse → Bytes → Bytes
response_text r bytes = status_line r ++ 13 ∷ 10 ∷ header_block r.message.headers bytes

-- For a response of less than 4 GiB, `create` gives the status line, a line for each header in the
-- order of the map, a blank line and the body, and leaves that in the buffer.
pub create_response-response_text :
    (r : HttpResponse) (bytes : Bytes)
    → HasBody r.message bytes
    → length (response_text r bytes) < 4294967296
    → (r' : HttpResponse) × (create_response r ≡ ok (response_text r bytes, r'))
      × (r'.message.buffer.buf ≡ response_text r bytes)
unfolding create_response clear
create_response-response_text r bytes body fits =
    let m = record r.message { buffer = make } in
    let line = status_line r in
    let block = header_block m.headers [] in
    let first = line ++ crlf in
    let whole : (first ++ block) ++ bytes ≡ response_text r bytes =
      append_assoc first block bytes
      ∙ append_assoc line crlf (block ++ bytes)
      ∙ ap (λ t. line ++ 13 ∷ 10 ∷ t) (header_block-append m.headers bytes) in
    let len = ap length whole in
    let len₁ = length-append (first ++ block) bytes in
    let len₂ = length-append first block in
    let len₃ = length-append line crlf in
    let (m', taken, kept) = take_all-filled m ((first ++ block) ++ bytes) (omega (arith, len)) in
    (
      record r { message = m' },
      rw (
        put_line-filled m [] line (omega (arith, len, len₁, len₂, len₃)),
        put_headers-block m first (omega (arith, len, len₁, len₂)),
        put_body-HasBody m (first ++ block) bytes body (omega (arith, len, len₁)),
        taken,
        whole,
      ),
      kept ∙ whole,
    )

-- The digits of a number, and its sign, are above every space and NUL.
pub int_text-All : (n : ℕ) → All (λ c. 32 < c) (int_text n)
unfolding int_text
int_text-All n = elim (Bool-cases (ltb n 2147483648)) [
  | inl e ↦ rw e (decimal-All n)
  | inr e ↦ rw e (omega arith, decimal-All (4294967296 - n))
]

pub All-Lacks : (c : ℕ) (s : Bytes) → c ≤ 32 → All (λ x. 32 < x) s → Lacks c s
All-Lacks c [] h a = tt
All-Lacks c (x ∷ s) h a = (omega (arith, a.0), All-Lacks c s h a.1)

-- A response that its text determines: a version with no space and no NUL, a reason without
-- newlines, and sorted headers that each fit on a line.
pub record IsPlain (r : HttpResponse) : Type 0 where
  pub version_words : Lacks b' ' r.message.version
  pub version_text : Lacks 0 r.message.version
  pub reason_line : NoNewline r.reason
  pub sorted : IsSorted r.message.headers
  pub lines : All IsHeader r.message.headers

-- The buffer of the parsed response, at read position p.
abbrev pub read_buffer : HttpResponse → Bytes → ℕ → ByteBuffer
read_buffer r bytes = at_pos (filled make (response_text r bytes))

-- The response as `parse` has it before the headers.
abbrev pub read_line : HttpResponse → Bytes → ℕ → HttpResponse
read_line r bytes p = record {
  message = record (init (read_buffer r bytes p)) { version = r.message.version };
  status = 0;
  reason = r.reason;
}

response_from_bytes-filled :
    (t : Bytes)
    → length t < 4294967296
    → response_from_bytes t
      ≡ ok (record { message = init (filled make t); status = 0; reason = [] })
unfolding response_from_bytes make_from
response_from_bytes-filled t h = rw (put_bytes-filled make [] t (omega arith))

pub parse_response-line :
    (r : HttpResponse) (bytes : Bytes)
    → IsPlain r
    → length (response_text r bytes) < 4294967296
    → (p : ℕ) × Holds (read_buffer r bytes p) (header_block r.message.headers bytes)
      × ((response_from_bytes (response_text r bytes) >>= parse_response)
          ≡ parse_content (read_line r bytes p))
unfolding parse_response determine_status_code
parse_response-line r bytes plain fits =
    let block = header_block r.message.headers bytes in
    let after_status = r.reason ++ (13 ∷ 10 ∷ block) in
    let after_version = int_text r.status ++ (b' ' ∷ after_status) in
    let above = int_text-All r.status in
    let p = 0 + length r.message.version + 1 in
    let q = p + length (int_text r.status) + 1 in
    let at_start : Holds (read_buffer r bytes 0) (r.message.version ++ (b' ' ∷ after_version)) =
      record {
        fits = fits;
        inside = omega arith;
        rest_is =
            append_assoc r.message.version (b' ' ∷ (int_text r.status ++ (b' ' ∷ r.reason)))
              (13 ∷ 10 ∷ block)
            ∙ ap (λ t. r.message.version ++ (b' ' ∷ t))
                (append_assoc (int_text r.status) (b' ' ∷ r.reason) (13 ∷ 10 ∷ block));
      } in
    let at_status : Holds (read_buffer r bytes p) after_version =
      token-Holds (read_buffer r bytes 0) b' ' r.message.version after_version at_start in
    let at_reason : Holds (read_buffer r bytes q) after_status =
      token-Holds (read_buffer r bytes p) b' ' (int_text r.status) after_status at_status in
    (
      q + length r.reason + 2,
      get_line-Holds (read_buffer r bytes q) r.reason block at_reason,
      rw (
        response_from_bytes-filled (response_text r bytes) fits,
        get_str_element-token (read_buffer r bytes 0) b' ' r.message.version after_version
            plain.version_words plain.version_text at_start,
        get_str_element-token (read_buffer r bytes p) b' ' (int_text r.status) after_status
            (All-Lacks b' ' (int_text r.status) (omega arith) above)
            (All-Lacks 0 (int_text r.status) (omega arith) above) at_status,
        get_line-crlf (read_buffer r bytes q) r.reason block plain.reason_line at_reason,
      ),
    )
