-- ===== src/HttpRequest/Tests.antt =====
-- Concrete requests, created and parsed.
use my_power_mirror.Base.{
  fail, out_of_range, All, ℕ, ◌<◌, ◌≡◌, ◌≢◌, inl, inr, refl, ap, ◌∙◌, true, some, [], ◌∷◌, map,
  Bytes, codes, length, arith, ok, ◌>>=◌,
}
use my_power_mirror.CString.{str_eq}
use my_power_mirror.CString.Numbers.{atoi, digits_value}
use my_power_mirror.ByteBuffer.{make}
use my_power_mirror.HttpMessage.{init, last_char}
use my_power_mirror.HttpMessage.Body.{length_text}
use my_power_mirror.HttpMessage.HeaderMap.{find_header, get_header_value, str_lt}
use my_power_mirror.HttpRequest.{HttpRequest, create, from_bytes, parse, method_int_to_str}
use my_power_mirror.HttpRequest.Throwing.{parse-throws}
use my_power_mirror.HttpMessage.Wire.{IsHeader}
use my_power_mirror.HttpRequest.{parse_rest, method_str_to_int, method_index}
use my_power_mirror.CString.{before, behind, skip}
use my_power_mirror.HttpMessage.HeaderMap.{insert_header}
use my_power_mirror.HttpMessage.{
  get_str_element, parse_headers, header_lines, get_line, take_line, skip_newlines, join_lines,
  add_header_line, has_byte, add_header_value,
}
use my_power_mirror.ByteBuffer.{
  make_from, put_bytes, append, find, find_from, get_at, get_bytes, get, peek, read, read_at, size,
  bytes_remaining,
}
use my_power_mirror.HttpRequest.Create.{request_text}
use my_power_mirror.HttpRequest.RoundTrip.{
  HasLine, IsPlain, read_head, parse-request_text, parse-create,
}

-- A request with a body of two bytes, announced as such.
abbrev pub request : ℕ → HttpRequest
request method = record {
  message = record (init make) {
    headers = (codes "Content-Length", codes "2") ∷ (codes "Host", codes "me") ∷ [];
    body = some (map some (codes "ab"));
    data_len = 2;
  };
  method = method;
  request_uri = codes "/a";
}

pub request-IsPlain : (method : ℕ) → method < 9 → IsPlain (request method)
request-IsPlain method known = record {
  first = record {
    known = known;
    uri_words = omega arith;
    uri_text = omega arith;
    version_line = (refl, (refl, (refl, (refl, (refl, (refl, (refl, (refl, tt))))))));
  };
  sorted = unfold str_lt in ((refl, tt), (tt, tt));
  lines = unfold last_char in ground arith;
}

short_get : length (request_text (request 1) (codes "ab")) < 4294967296
unfolding method_int_to_str
short_get = omega arith

short_post : length (request_text (request 2) (codes "ab")) < 4294967296
unfolding method_int_to_str
short_post = omega arith

announced_text : (method : ℕ) → length_text (request method).message ≡ codes "2"
unfolding get_header_value find_header str_eq
announced_text method = refl

announced-ne : (method : ℕ) → length_text (request method).message ≢ []
announced-ne method e = cc (announced_text method, e)

announced-read : (method : ℕ) → atoi (length_text (request method).message) ≡ ok 2
unfolding atoi digits_value
announced-read method = ap atoi (announced_text method) ∙ refl

parse-request_text_example :
    (p : ℕ) × ((from_bytes (request_text (request 1) (codes "ab")) >>= parse)
      ≡ ok (true, read_head (request 1) (codes "ab") p))
parse-request_text_example =
    parse-request_text (request 1) (codes "ab") (request-IsPlain 1 (omega arith)) (omega arith)
      (omega arith) short_get

parse-create_example :
    (text : Bytes) × (r₁ : HttpRequest) × (r₂ : HttpRequest) × (create (request 2)
      ≡ ok (some text, r₁))
    × ((from_bytes text >>= parse) ≡ ok (true, r₂))
    × (r₂.method ≡ 2)
    × (r₂.request_uri ≡ codes "/a")
    × (r₂.message.version ≡ codes "HTTP/1.1")
    × (r₂.message.headers ≡ (request 2).message.headers)
    × (r₂.message.body ≡ some (map some (codes "ab")))
parse-create_example =
    parse-create (request 2) (codes "ab") (request-IsPlain 2 (omega arith)) (inl refl)
      (inr (refl, refl)) (announced-ne 2) (announced-read 2) short_post

-- A request with a header X whose value is one space.
abbrev blank : HttpRequest
blank = record (request 0) {
  message = record (init make) {
    headers = (codes "Host", codes "me") ∷ (codes "X", codes " ") ∷ [];
  };
}

blank-HasLine : HasLine blank
blank-HasLine = record {
  known = omega arith;
  uri_words = omega arith;
  uri_text = omega arith;
  version_line = (refl, (refl, (refl, (refl, (refl, (refl, (refl, (refl, tt))))))));
}

host-IsHeader : All IsHeader ((codes "Host", codes "me") ∷ [])
host-IsHeader = unfold last_char in ground arith

short_blank : length (request_text blank []) < 4294967296
unfolding method_int_to_str
short_blank = omega arith

parse-throws_example : (from_bytes (request_text blank []) >>= parse) ≡ fail out_of_range
parse-throws_example =
    parse-throws blank ((codes "Host", codes "me") ∷ []) (codes "X") 1 [] [] blank-HasLine refl
      host-IsHeader (omega arith) (refl, tt) short_blank

-- The same text, run.
blank_run :
    (from_bytes (codes "GET /a HTTP/1.1\r\nHost: me\r\nX: \r\n\r\n") >>= parse) ≡ fail out_of_range
unfolding from_bytes parse make_from put_bytes append get_str_element find find_from get_at
    get_bytes get method_str_to_int method_index str_eq parse_rest parse_headers header_lines
    get_line take_line skip_newlines peek read read_at size bytes_remaining last_char join_lines
    add_header_line has_byte before behind skip add_header_value insert_header str_lt
blank_run = refl
