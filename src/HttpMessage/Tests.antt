-- ===== src/HttpMessage/Tests.antt =====
-- Lines, headers and bodies of concrete messages.
use my_power_mirror.Base.{
  ◌≡◌, ◌≢◌, refl, false, if◌then◌else◌, [], ◌∷◌, Bytes, codes, ap, ◌∙◌, length, arith, ok, fail,
  undefined_behavior,
}
use my_power_mirror.CString.{str_eq}
use my_power_mirror.CString.Numbers.{atoi, digits_value}
use my_power_mirror.ByteBuffer.{ByteBuffer}
use my_power_mirror.HttpMessage.{Message, init, parse_body, too_long}
use my_power_mirror.HttpMessage.Body.{parse_body-overflow, parse_body-refused, length_text}
use my_power_mirror.HttpMessage.HeaderMap.{
  Headers, insert_header, find_header, get_header_value, str_lt,
}
use my_power_mirror.HttpMessage.HeaderMap.Laws.{kept_or, IsSorted, find_header-insert_header}

-- A buffer with this text, to be read from its start.
abbrev text : Bytes → ByteBuffer
text t = record { rpos = 0; wpos = length t; buf = t }

abbrev hosts : Headers
hosts = (codes "Accept", codes "any") ∷ (codes "Host", codes "me") ∷ []

find_header-insert_header_example :
    (find_header (codes "Host") (insert_header (codes "Host") (codes "you") hosts) ≡ (
      if str_eq (codes "Host") (codes "Host")
      then kept_or (codes "you") (find_header (codes "Host") hosts)
      else find_header (codes "Host") hosts))
    × IsSorted (insert_header (codes "Host") (codes "you") hosts)
find_header-insert_header_example =
    find_header-insert_header (codes "Host") (codes "you") (codes "Host") hosts hosts-IsSorted
  where
    hosts-IsSorted : IsSorted hosts
    hosts-IsSorted = unfold str_lt in ((refl, tt), (tt, tt))

-- A message whose headers announce a body of three bytes, at the end of the text.
abbrev announcing : Bytes → Message
announcing t = record (init (record (text t) { rpos = 2 })) {
  headers = (codes "Content-Length", codes "3") ∷ [];
}

announced_text : (t : Bytes) → length_text (announcing t) ≡ codes "3"
unfolding get_header_value find_header str_eq
announced_text t = refl

announced-ne : (t : Bytes) → length_text (announcing t) ≢ []
announced-ne t e = cc (announced_text t, e)

announced-read : (t : Bytes) → atoi (length_text (announcing t)) ≡ ok 3
unfolding atoi digits_value
announced-read t = ap atoi (announced_text t) ∙ refl

parse_body-overflow_example : parse_body (announcing (codes "\r\nabcd")) ≡ fail undefined_behavior
parse_body-overflow_example =
    parse_body-overflow (announcing (codes "\r\nabcd")) (codes "abcd") 3
      (record { fits = omega arith; inside = omega arith; rest_is = refl }) (omega arith)
      (announced-ne []) (announced-read []) (omega arith)

parse_body-refused_example :
    parse_body (announcing (codes "\r\na"))
    ≡ ok (
      false,
      record (announcing (codes "\r\na")) {
        parse_error = too_long (length_text (announcing (codes "\r\na"))) 1;
      },
    )
parse_body-refused_example =
    parse_body-refused (announcing (codes "\r\na")) (codes "a") 3
      (record { fits = omega arith; inside = omega arith; rest_is = refl }) (omega arith)
      (announced-ne []) (announced-read []) (omega arith)
