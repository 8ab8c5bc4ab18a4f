-- ===== src/Mirror/Http/Fields.antt =====
-- `parseHeader` on the nine headers that it knows, and on all others; the test of the method.
use my_power_mirror.Base.{
  subst, ℕ, ◌≡◌, ◌≢◌, refl, sym, ◌∙◌, true, some, List, ◌∷◌, ◌++◌, Bytes, codes, All, arith, ok,
  fail, undefined_behavior, ◌>>=◌,
}
use my_power_mirror.CString.{Pointer, str, str_eq, strtok}
use my_power_mirror.CString.Laws.{
  Lacks, strtok-append, leading-Lacks, str_eq_iff, str_eq_ne, strtok-All, EndsToken,
  strtok-EndsToken,
}
use my_power_mirror.Mirror.Http.{
  Request, cleared, copy_token, parse_field, parse_header, parse_headers, parse_lines, goes_on,
}

-- The headers that `parseHeader` knows.
pub data Field : Type 0 where
  host user_agent accept accept_language accept_encoding : Field
  content_length content_type connection expect : Field

abbrev pub name : Field → Bytes
name host = codes "Host:"
name user_agent = codes "User-Agent:"
name accept = codes "Accept:"
name accept_language = codes "Accept-Language:"
name accept_encoding = codes "Accept-Encoding:"
name content_length = codes "Content-Length:"
name content_type = codes "Content-type:"
name connection = codes "Connection:"
name expect = codes "Expect:"

-- The request with one field given anew.
abbrev pub put : Field → Request → Pointer → Request
put host req v = record req { host = v }
put user_agent req v = record req { user_agent = v }
put accept req v = record req { accept = v }
put accept_language req v = record req { accept_language = v }
put accept_encoding req v = record req { accept_encoding = v }
put content_length req v = record req { content_length = v }
put content_type req v = record req { content_type = v }
put connection req v = record req { connection = v }
put expect req v = record req { expect = v }

parse_field-name :
    (f : Field) (req : Request) (rest : Bytes)
    → parse_field req (name f) rest ≡ (copy_token rest >>= λ v. ok (put f req v))
unfolding parse_field str_eq
parse_field-name host req rest = refl
parse_field-name _ req rest = refl

parse_field_other :
    (req : Request) (head rest : Bytes)
    → ((f : Field) → head ≢ name f)
    → parse_field req head rest ≡ ok req
unfolding parse_field
parse_field_other req head rest h =
    let miss = λ (f : Field). str_eq_ne head (name f) (h f) in
    rw (
      miss host,
      miss user_agent,
      miss accept,
      miss accept_language,
      miss accept_encoding,
      miss content_length,
      miss content_type,
      miss connection,
      miss expect,
    )

-- The name of a header is a token.
name-token : (f : Field) → (x : ℕ) × (t : Bytes) × (name f ≡ x ∷ t) × Lacks b' ' (x ∷ t)
name-token host = (_, _, refl, omega arith)
name-token _ = (_, _, refl, omega arith)

-- `parseHeader` cuts the line behind its first token, and looks that up.
parse_header-token :
    (req : Request) (x : ℕ) (t rest : Bytes)
    → Lacks b' ' (x ∷ t)
    → parse_header req (x ∷ (t ++ b' ' ∷ rest)) ≡ parse_field req (x ∷ t) rest
unfolding parse_header
parse_header-token req x t rest h =
    rw (parse_header, strtok-append b' ' x t rest h, leading-Lacks b' ' x (t ++ b' ' ∷ rest) h.0)

parse_header-name :
    (f : Field) (req : Request) (rest : Bytes)
    → parse_header req (name f ++ b' ' ∷ rest) ≡ (copy_token rest >>= λ v. ok (put f req v))
parse_header-name f req rest =
    let (x, t, e, h) = name-token f in
    subst (λ n. parse_header req (n ++ b' ' ∷ rest) ≡ parse_field req n rest) (sym e)
      (parse_header-token req x t rest h)
    ∙ parse_field-name f req rest

copy_token-value :
    (x : ℕ) (v tail : Bytes)
    → Lacks b' ' (x ∷ v)
    → EndsToken b' ' tail
    → copy_token (x ∷ (v ++ tail)) ≡ ok (str (x ∷ v))
unfolding copy_token
copy_token-value x v tail h e =
    let (r, q) = strtok-EndsToken b' ' x v tail h e in rw (q, copy_token)

copy_token_missing :
    (spaces : Bytes) → All (λ c. c ≡ b' ') spaces → copy_token spaces ≡ fail undefined_behavior
unfolding copy_token
copy_token_missing spaces h = rw (strtok-All b' ' spaces h, copy_token)

-- A header that `parseHeader` knows, and a value of at least one byte with no space in it, which
-- the line's end or a space ends: exactly that header's field is set, to the value up to there.
-- What stands behind the first space of a value is dropped.
pub parse_header-value :
    (f : Field) (req : Request) (x : ℕ) (v tail : Bytes)
    → Lacks b' ' (x ∷ v)
    → EndsToken b' ' tail
    → parse_header req (name f ++ b' ' ∷ x ∷ (v ++ tail)) ≡ ok (put f req (str (x ∷ v)))
parse_header-value f req x v tail h e =
    parse_header-name f req (x ∷ (v ++ tail)) ∙ rw (copy_token-value x v tail h e)

-- A known header with nothing but spaces behind its name: `strlen` is called on NULL.
parse_header_no_value :
    (f : Field) (req : Request) (spaces : Bytes)
    → All (λ c. c ≡ b' ') spaces
    → parse_header req (name f ++ b' ' ∷ spaces) ≡ fail undefined_behavior
parse_header_no_value f req spaces h =
    parse_header-name f req spaces ∙ rw (copy_token_missing spaces h)

-- Any other first token leaves the request as it was, whatever follows.
parse_header_other :
    (req : Request) (x : ℕ) (t rest : Bytes)
    → Lacks b' ' (x ∷ t)
    → ((f : Field) → x ∷ t ≢ name f)
    → parse_header req (x ∷ (t ++ b' ' ∷ rest)) ≡ ok req
parse_header_other req x t rest h ne =
    parse_header-token req x t rest h ∙ parse_field_other req (x ∷ t) rest ne

post-ne-get : codes "POST" ≢ codes "GET"
post-ne-get e = cc

goes_on_always : (m : Bytes) → goes_on m ≡ true
goes_on_always m =
    ground (arith, str_eq_iff m (codes "POST"), str_eq_iff m (codes "GET"), post-ne-get)

-- No method is refused: whatever the first word of the request line is, the headers are parsed.
pub parse_lines_any_method :
    (first : Bytes) (rest : List Bytes) (method after : Bytes)
    → strtok b' ' first ≡ some (method, after)
    → parse_lines (first ∷ rest) ≡ parse_headers (record cleared { method = str method }) rest
unfolding parse_lines
parse_lines_any_method first rest method after e = rw (parse_lines, e, goes_on_always method)
