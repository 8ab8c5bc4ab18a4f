-- ===== src/HttpResponse/RoundTrip.antt =====
-- A response that is created and parsed again.
use my_power_mirror.Base.{
  ℕ, ◌+◌, ◌<◌, ◌≡◌, ◌≢◌, refl, ◌∙◌, true, some, [], append-nil, map, Bytes, length, arith, ok,
  ◌>>=◌,
}
use my_power_mirror.CString.Numbers.{atoi}
use my_power_mirror.HttpMessage.{Message, init}
use my_power_mirror.HttpMessage.Body.{length_text, parse_body-fits}
use my_power_mirror.HttpMessage.Head.{parse_headers-IsSorted}
use my_power_mirror.HttpMessage.Lines.{length-Holds}
use my_power_mirror.HttpMessage.Wire.{header_block, length-header_block}
use my_power_mirror.HttpRequest.Create.{HasBody}
use my_power_mirror.HttpResponse.{
  HttpResponse, response_from_bytes, create_response, parse_response, parse_content,
}
use my_power_mirror.HttpResponse.Wire.{
  IsPlain, response_text, read_buffer, read_line, parse_response-line,
  create_response-response_text,
}

-- The message that is parsed from the text.
abbrev pub parsed_message : HttpResponse → Bytes → ℕ → Message
parsed_message r bytes q = record (init (read_buffer r bytes q)) {
  version = r.message.version;
  headers = r.message.headers;
  body = some (map some bytes);
  data_len = length bytes;
}

-- A response whose Content-Length is the length of its body, created and parsed again: `create`
-- returns a text, and `parse` gets the version, the reason, the headers and the body back from it,
-- where the version, the reason and the headers are ones that a line can hold. The status is lost.
pub parse_response-create_response :
    (r : HttpResponse) (bytes : Bytes)
    → IsPlain r
    → HasBody r.message bytes
    → length_text r.message ≢ []
    → atoi (length_text r.message) ≡ ok (length bytes)
    → length (response_text r bytes) < 4294967296
    → (text : Bytes) × (r' : HttpResponse) × (q : ℕ) × (create_response r ≡ ok (text, r'))
      × ((response_from_bytes text >>= parse_response)
          ≡ ok (true, record { message = parsed_message r bytes q; status = 0; reason = r.reason }))
unfolding parse_content
parse_response-create_response r bytes plain body announced read fits =
    let (r', created, _) = create_response-response_text r bytes body fits in
    let (p, held, line) = parse_response-line r bytes plain fits in
    let block = header_block r.message.headers bytes in
    let (q, at_body, headers) =
      parse_headers-IsSorted (read_line r bytes p).message r.message.headers bytes refl plain.sorted
        plain.lines held in
    let short : length bytes + 1 < 4294967296 = omega (
      arith,
      length-Holds (read_buffer r bytes p) block held,
      length-header_block r.message.headers bytes,
    ) in
    let head = record (init (read_buffer r bytes q)) {
      version = r.message.version;
      headers = r.message.headers;
    } in
    let fitting =
      parse_body-fits head bytes (length bytes) at_body short announced read 0 (omega arith)
        (omega arith) in
    (
      response_text r bytes,
      r',
      q,
      created,
      line ∙ rw (headers, fitting, append-nil (map some bytes)) refl,
    )
