-- ===== src/HttpRequest/Throwing.antt =====
-- `parse` on a request that has a header with an empty value.
use my_power_mirror.Base.{
  ℕ, ◌<◌, ◌≡◌, subst, ◌∙◌, ◌∷◌, ◌++◌, Bytes, length, All, fail, out_of_range, ◌>>=◌,
}
use my_power_mirror.CString.Laws.{Lacks}
use my_power_mirror.HttpMessage.HeaderMap.{Headers}
use my_power_mirror.HttpMessage.Lines.{Holds, NoNewline}
use my_power_mirror.HttpMessage.Throwing.{spaces, parse_headers-throws}
use my_power_mirror.HttpMessage.Wire.{IsHeader, header_block}
use my_power_mirror.HttpRequest.{HttpRequest, from_bytes, parse, parse_rest}
use my_power_mirror.HttpRequest.Create.{request_text}
use my_power_mirror.HttpRequest.RoundTrip.{HasLine, received, read_line, parse-elements}

-- The text, of less than 4 GiB, of a request of a known method, whose URI and version fit in its
-- first line: when a header has a key that fits in a line, and no value or one of spaces only,
-- and each header in front of it fits on a line, `parse` throws.
pub parse-throws :
    (r : HttpRequest) (hs : Headers) (k : Bytes) (n : ℕ) (hs' : Headers) (bytes : Bytes)
    → HasLine r
    → r.message.headers ≡ hs ++ (k, spaces n) ∷ hs'
    → All IsHeader hs
    → Lacks b':' k
    → NoNewline k
    → length (request_text r bytes) < 4294967296
    → (from_bytes (request_text r bytes) >>= parse) ≡ fail out_of_range
unfolding parse_rest
parse-throws r hs k n hs' bytes first split lines key_text key_line fits =
    let (p, held, whole) = parse-elements r bytes first fits in
    whole
    ∙ rw (
        parse_headers-throws (read_line r bytes p).message hs k n hs' bytes
          (subst (λ h. Holds (received r bytes p) (header_block h bytes)) split held) lines key_text
          key_line)
