-- ===== src/HttpResponse/Tests.antt =====
-- Concrete responses, created and parsed.
use my_power_mirror.Base.{
  ℕ, ◌<◌, ◌≡◌, inr, refl, ap, ◌∙◌, true, some, [], ◌∷◌, map, Bytes, codes, length, arith, ok, ◌>>=◌,
}
use my_power_mirror.CString.{str_eq, before}
use my_power_mirror.CString.Numbers.{atoi, digits_value, decimal, digits}
use my_power_mirror.ByteBuffer.{
  make, make_from, put_bytes, append, find, find_from, get_at, read_at, get_bytes, get, read, peek,
  size,
}
use my_power_mirror.HttpMessage.{
  init, last_char, get_str_element, get_line, take_line, skip_newlines, parse_headers, header_lines,
  parse_body,
}
use my_power_mirror.HttpMessage.Body.{length_text}
use my_power_mirror.HttpMessage.HeaderMap.{find_header, get_header_value, str_lt}
use my_power_mirror.HttpResponse.{
  HttpResponse, response_from_bytes, create_response, parse_response, parse_content,
  determine_status_code, int_text,
}
use my_power_mirror.HttpResponse.RoundTrip.{parsed_message, parse_response-create_response}
use my_power_mirror.HttpResponse.Status.{parse_response-status}
use my_power_mirror.HttpResponse.Wire.{IsPlain, response_text}

-- A response with a body of two bytes, announced as such.
abbrev found : HttpResponse
found = record {
  message = record (init make) {
    headers = (codes "Content-Length", codes "2") ∷ (codes "Server", codes "me") ∷ [];
    body = some (map some (codes "ab"));
    data_len = 2;
  };
  status = 200;
  reason = codes "OK";
}

found-IsPlain : IsPlain found
found-IsPlain = record {
  version_words = omega arith;
  version_text = omega arith;
  reason_line = (refl, (refl, tt));
  sorted = unfold str_lt in ((refl, tt), (tt, tt));
  lines = unfold last_char in ground arith;
}

found_text :
    response_text found (codes "ab")
    ≡ codes "HTTP/1.1 200 OK\r\nContent-Length: 2\r\nServer: me\r\n\r\nab"
unfolding int_text decimal digits
found_text = refl

short : length (response_text found (codes "ab")) < 4294967296
short = omega (arith, ap length found_text)

announced : length_text found.message ≡ codes "2"
unfolding get_header_value find_header str_eq
announced = refl

read_length : atoi (length_text found.message) ≡ ok 2
unfolding atoi digits_value
read_length = ap atoi announced ∙ refl

parse_response-create_response_example :
    (text : Bytes) × (r' : HttpResponse) × (q : ℕ) × (create_response found ≡ ok (text, r'))
    × ((response_from_bytes text >>= parse_response)
        ≡ ok (
          true,
          record { message = parsed_message found (codes "ab") q; status = 0; reason = codes "OK" },
        ))
parse_response-create_response_example =
    parse_response-create_response found (codes "ab") found-IsPlain (inr (refl, refl))
      (λ e. cc (announced, e)) read_length short

-- A response with neither headers nor a body, received and parsed.
abbrev missing : Bytes
missing = codes "HTTP/1.1 404 Not Found\r\n\r\n"

abbrev missing_parsed : HttpResponse
missing_parsed = record {
  message = init (record { rpos = 26; wpos = 26; buf = missing });
  status = 0;
  reason = codes "Not Found";
}

parse_response-missing :
    (response_from_bytes missing >>= parse_response) ≡ ok (true, missing_parsed)
unfolding response_from_bytes make_from put_bytes append parse_response get_str_element find
    find_from get_at read_at get_bytes get read determine_status_code get_line take_line peek
    skip_newlines parse_content parse_headers header_lines parse_body get_header_value find_header
    before size
parse_response-missing = refl

parse_response-status_example : missing_parsed.status ≡ 0
parse_response-status_example = parse_response-status missing parse_response-missing
