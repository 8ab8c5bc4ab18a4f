-- ===== src/HttpRequest/RoundTrip.antt =====
-- `parse` on what `create` writes.
use my_power_mirror.Base.{
  ℕ, ◌+◌, ◌<◌, ◌≡◌, ◌≢◌, ◌⊎◌, inl, inr, refl, ap, ◌∙◌, true, false, not, ◌&&◌, some, [], ◌∷◌, ◌++◌,
  append_assoc, append-nil, map, Bytes, ◌==◌, length, All, arith, ne→==, ok, ◌>>=◌,
}
use my_power_mirror.CString.Laws.{Lacks}
use my_power_mirror.CString.Numbers.{atoi}
use my_power_mirror.ByteBuffer.{ByteBuffer, make, make_from}
use my_power_mirror.HttpMessage.{init, parse_headers}
use my_power_mirror.HttpMessage.Body.{length_text, parse_body-fits}
use my_power_mirror.HttpMessage.Head.{parse_headers-IsSorted}
use my_power_mirror.HttpMessage.HeaderMap.Laws.{IsSorted}
use my_power_mirror.HttpMessage.Lines.{
  Holds, NoNewline, at_pos, get_line-crlf, get_line-Holds, get_str_element-token, token-Holds,
  length-Holds,
}
use my_power_mirror.HttpMessage.Wire.{header_block, length-header_block, IsHeader}
use my_power_mirror.HttpMessage.Writing.{filled, put_bytes-filled}
use my_power_mirror.HttpRequest.{
  HttpRequest, create, method_int_to_str, from_bytes, parse, parse_rest, method_post, method_put,
}
use my_power_mirror.HttpRequest.Create.{HasBody, request_text, create-request_text}
use my_power_mirror.HttpRequest.Methods.{method_str_to_int-method_int_to_str}

-- A request whose first line its text determines: a known method, a URI with no space and no NUL,
-- and a version without newlines.
pub record HasLine (r : HttpRequest) : Type 0 where
  pub known : r.method < 9
  pub uri_words : Lacks b' ' r.request_uri
  pub uri_text : Lacks 0 r.request_uri
  pub version_line : NoNewline r.message.version

-- A request that its text determines: its first line, and sorted headers that each fit on a line.
pub record IsPlain (r : HttpRequest) : Type 0 where
  pub first : HasLine r
  pub sorted : IsSorted r.message.headers
  pub lines : All IsHeader r.message.headers

-- The text by the elements that `parse` reads.
abbrev elements : HttpRequest → Bytes → Bytes
elements r bytes =
    method_int_to_str r.method
    ++ (b' '
        ∷ (r.request_uri
            ++ (b' ' ∷ (r.message.version ++ (13 ∷ 10 ∷ header_block r.message.headers bytes)))))

request_text-elements : (r : HttpRequest) (bytes : Bytes) → request_text r bytes ≡ elements r bytes
request_text-elements r bytes =
    let name = method_int_to_str r.method in
    let end = 13 ∷ 10 ∷ header_block r.message.headers bytes in
    append_assoc name (b' ' ∷ (r.request_uri ++ (b' ' ∷ r.message.version))) end
    ∙ ap (λ t. name ++ (b' ' ∷ t)) (append_assoc r.request_uri (b' ' ∷ r.message.version) end)

-- The buffer of the parsed request, before its headers are read.
abbrev pub received : HttpRequest → Bytes → ℕ → ByteBuffer
received r bytes = at_pos (filled make (request_text r bytes))

pub from_bytes-filled :
    (t : Bytes)
    → length t < 4294967296
    → from_bytes t ≡ ok (record { message = init (filled make t); method = 0; request_uri = [] })
unfolding from_bytes make_from
from_bytes-filled t h = rw (put_bytes-filled make [] t (omega arith))

-- The request as `parse` has it before the headers, at read position p.
abbrev pub read_line : HttpRequest → Bytes → ℕ → HttpRequest
read_line r bytes p = record {
  message = record (init (received r bytes p)) { version = r.message.version };
  method = r.method;
  request_uri = r.request_uri;
}

pub parse-elements :
    (r : HttpRequest) (bytes : Bytes)
    → HasLine r
    → length (request_text r bytes) < 4294967296
    → (p : ℕ) × Holds (received r bytes p) (header_block r.message.headers bytes)
      × ((from_bytes (request_text r bytes) >>= parse) ≡ parse_rest (read_line r bytes p))
unfolding parse
parse-elements r bytes plain fits =
    let name = method_int_to_str r.method in
    let (found, some_name, no_space, no_nul) =
      method_str_to_int-method_int_to_str r.method plain.known in
    let block = header_block r.message.headers bytes in
    let after_uri = r.message.version ++ (13 ∷ 10 ∷ block) in
    let after_name = r.request_uri ++ (b' ' ∷ after_uri) in
    let p = 0 + length name + 1 in
    let q = p + length r.request_uri + 1 in
    let at_start : Holds (received r bytes 0) (elements r bytes) = record {
      fits = fits;
      inside = omega arith;
      rest_is = request_text-elements r bytes;
    } in
    let at_uri : Holds (received r bytes p) after_name =
      token-Holds (received r bytes 0) b' ' name after_name at_start in
    let at_version : Holds (received r bytes q) after_uri =
      token-Holds (received r bytes p) b' ' r.request_uri after_uri at_uri in
    let known : (r.method == 4294967295) ≡ false = ne→== _ _ (omega (arith, plain.known)) in
    (
      q + length r.message.version + 2,
      get_line-Holds (received r bytes q) r.message.version block at_version,
      rw (
        from_bytes-filled (request_text r bytes) fits,
        get_str_element-token (received r bytes 0) b' ' name after_name no_space no_nul at_start,
        get_str_element-token (received r bytes p) b' ' r.request_uri after_uri plain.uri_words
            plain.uri_text at_uri,
        get_line-crlf (received r bytes q) r.message.version block plain.version_line at_version,
        found,
        known,
      ),
    )

-- The request as `parse` has it behind the headers.
abbrev pub read_head : HttpRequest → Bytes → ℕ → HttpRequest
read_head r bytes p = record {
  message = record (init (received r bytes p)) {
    version = r.message.version;
    headers = r.message.headers;
  };
  method = r.method;
  request_uri = r.request_uri;
}

headers-elements :
    (r : HttpRequest) (bytes : Bytes) (p : ℕ)
    → IsPlain r
    → Holds (received r bytes p) (header_block r.message.headers bytes)
    → (q : ℕ) × Holds (received r bytes q) bytes
      × (parse_headers (read_line r bytes p).message ≡ ok (read_head r bytes q).message)
headers-elements r bytes p plain held =
    parse_headers-IsSorted (read_line r bytes p).message r.message.headers bytes refl plain.sorted
      plain.lines held

-- The text of a request of a method other than POST and PUT, with any bytes behind its headers, is
-- parsed without an error to its method, its URI, its version and its headers, and to no body.
pub parse-request_text :
    (r : HttpRequest) (bytes : Bytes)
    → IsPlain r
    → r.method ≢ 2
    → r.method ≢ 3
    → length (request_text r bytes) < 4294967296
    → (p : ℕ) × ((from_bytes (request_text r bytes) >>= parse) ≡ ok (true, read_head r bytes p))
unfolding parse_rest
parse-request_text r bytes plain not_post not_put fits =
    let (p, held, whole) = parse-elements r bytes plain.first fits in
    let (q, _, headers) = headers-elements r bytes p plain held in
    (q, whole ∙ rw (headers, ne→== _ _ not_post, ne→== _ _ not_put) refl)

has_body :
    (method : ℕ)
    → (method ≡ 2) ⊎ (method ≡ 3)
    → (not (method == method_post) && not (method == method_put)) ≡ false
has_body method (inl e) = rw e refl
has_body method (inr e) = rw e refl

-- The text of a POST or a PUT whose Content-Length is the length of its body is parsed without an
-- error to its method, its URI, its version, its headers and its body.
parse-request_text_body :
    (r : HttpRequest) (bytes : Bytes)
    → IsPlain r
    → (r.method ≡ 2) ⊎ (r.method ≡ 3)
    → length_text r.message ≢ []
    → atoi (length_text r.message) ≡ ok (length bytes)
    → length (request_text r bytes) < 4294967296
    → (p : ℕ) × ((from_bytes (request_text r bytes) >>= parse)
        ≡ ok (
          true,
          record (read_head r bytes p) {
            message = record (read_head r bytes p).message {
              body = some (map some bytes);
              data_len = length bytes;
            };
          },
        ))
unfolding parse_rest
parse-request_text_body r bytes plain with_body announced read fits =
    let (p, held, whole) = parse-elements r bytes plain.first fits in
    let (q, at_body, headers) = headers-elements r bytes p plain held in
    let short : length bytes + 1 < 4294967296 = omega (
      arith,
      length-Holds (received r bytes p) (header_block r.message.headers bytes) held,
      length-header_block r.message.headers bytes,
    ) in
    let body =
      parse_body-fits (read_head r bytes q).message bytes (length bytes) at_body short announced
        read 0 (omega arith) (omega arith) in
    (q, whole ∙ rw (headers, has_body r.method with_body, body, append-nil (map some bytes)) refl)

-- A POST or a PUT that is made from its parts and parsed again: `create` returns a text, and
-- `parse` gets the method, the URI, the version, the headers and the body back from it, where the
-- body is announced by its length and the URI, the version and the headers are ones that a line
-- can hold.
pub parse-create :
    (r : HttpRequest) (bytes : Bytes)
    → IsPlain r
    → (r.method ≡ 2) ⊎ (r.method ≡ 3)
    → HasBody r.message bytes
    → length_text r.message ≢ []
    → atoi (length_text r.message) ≡ ok (length bytes)
    → length (request_text r bytes) < 4294967296
    → (text : Bytes) × (r₁ : HttpRequest) × (r₂ : HttpRequest) × (create r ≡ ok (some text, r₁))
      × ((from_bytes text >>= parse) ≡ ok (true, r₂))
      × (r₂.method ≡ r.method)
      × (r₂.request_uri ≡ r.request_uri)
      × (r₂.message.version ≡ r.message.version)
      × (r₂.message.headers ≡ r.message.headers)
      × (r₂.message.body ≡ some (map some bytes))
parse-create r bytes plain with_body body announced read fits =
    let (r₁, created) = create-request_text r bytes plain.first.known body fits in
    let (p, parsed) = parse-request_text_body r bytes plain with_body announced read fits in
    (request_text r bytes, r₁, _, created, parsed, refl, refl, refl, refl, refl)
