-- ===== src/Mirror/Tests.antt =====
-- The server's parser and reply on concrete requests.
use my_power_mirror.Mirror.Main.{main, loop, returned}
use my_power_mirror.Mirror.Server.{timed_out, failed, round}
use my_power_mirror.Mirror.Util.{get_file_size}
use my_power_mirror.Base.{
  true, false, none, some, ◌≡◌, ◌≢◌, refl, [], ◌∷◌, codes, arith, ok, fail, undefined_behavior,
}
use my_power_mirror.CString.{null, str, strtok, strn_eq, str_eq, leading, skip, before, behind}
use my_power_mirror.Mirror.Http.{
  cleared, parse_header, parse_headers, parse_lines, parse_request, parse_field, copy_token,
}
use my_power_mirror.Mirror.Response.{response}
use my_power_mirror.Mirror.Http.Fields.{host, parse_header-value}
use my_power_mirror.Mirror.Http.Split.{parse_request-unlines}
use my_power_mirror.Mirror.Response.Sent.{cut_head, parse_lines-response}
use my_power_mirror.Mirror.Util.{get_file_type}

get_file_type_png : get_file_type (str (codes "a.png")) ≡ ok (codes "image/png")
unfolding get_file_type strn_eq
get_file_type_png = refl

parse_request-unlines_example :
    parse_request (codes "GET / HTTP/1.1\nHost: me\r\n\r\nbody")
    ≡ parse_lines (codes "GET / HTTP/1.1" ∷ codes "Host: me\r" ∷ [])
parse_request-unlines_example =
    parse_request-unlines (codes "GET / HTTP/1.1") (codes "Host: me\r" ∷ []) (codes "\nbody")
      ((omega arith, omega arith), ((omega arith, omega arith), tt))

parse_header-value_example :
    parse_header cleared (codes "Host: me and you")
    ≡ ok (record cleared { host = str (codes "me") })
parse_header-value_example =
    parse_header-value host cleared b'm' (codes "e") (codes " and you") (omega arith) refl

parsed :
    parse_lines (codes "GET /" ∷ codes "Host: me" ∷ [])
    ≡ ok (record cleared { method = str (codes "GET"); host = str (codes "me") })
unfolding parse_lines parse_headers parse_header parse_field copy_token str_eq strtok leading skip
    before behind
parsed = refl

no_type : cut_head (codes "Host: me") ≢ codes "Content-type:"
unfolding strtok leading skip before behind
no_type = cc

parse_lines-response_example :
    response (record cleared { method = str (codes "GET"); host = str (codes "me") })
    ≡ fail undefined_behavior
parse_lines-response_example =
    parse_lines-response (codes "GET /") (codes "Host: me" ∷ []) (no_type, tt) parsed

-- Nothing is served when `bind` fails, or when `select` does.
no_bind : main (some 3) false true [] (timed_out ∷ []) ≡ ok returned
unfolding main
no_bind = refl

no_select : main (some 3) true true [] (timed_out ∷ failed ∷ timed_out ∷ []) ≡ ok returned
unfolding main loop round
no_select = refl

-- The size of a file, of a file that cannot be opened, and without a name.
sizes :
    (get_file_size (str (codes "a")) (λ name. some 70) ≡ ok 70)
    × (get_file_size (str (codes "a")) (λ name. none) ≡ ok 0)
    × (get_file_size null (λ name. some 70) ≡ ok 0)
unfolding get_file_size
sizes = (refl, refl, refl)
