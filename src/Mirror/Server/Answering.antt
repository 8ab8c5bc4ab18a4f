-- ===== src/Mirror/Server/Answering.antt =====
-- From the bytes of a request to the bytes of its reply: `recv`, `parseRequest`, `response` and `send`.
use my_power_mirror.Base.{
  ℕ, suc, ◌<◌, ◌≡◌, ◌≢◌, refl, sym, subst, ap, ◌∙◌, Bool, true, false, some, List, [], ◌∷◌, ◌++◌,
  append-nil, append_assoc, map, Bytes, leb, lt→ltb, ◌==◌, length, length-append, ne→==, Option,
  All, All-append, arith, ok,
}
use my_power_mirror.CString.{null, str, strtok}
use my_power_mirror.CString.Laws.{Lacks, before-end}
use my_power_mirror.Mirror.Http.{Request, cleared, parse_header, parse_headers, parse_request}
use my_power_mirror.Mirror.Http.Fields.{
  Field, host, name, put, parse_header-value, parse_lines_any_method,
}
use my_power_mirror.Mirror.Http.Split.{IsLine, unlines, parse_request-unlines}
use my_power_mirror.Mirror.Response.{response, status_lines, content_type_line, content_length_line}
use my_power_mirror.Mirror.Response.Sent.{response-sends}
use my_power_mirror.Mirror.Server.{
  Server, received, sent, buffer_size, buffer_text, slot, fd_isset, receive_from, answer,
  serve_client, with_effect,
}
use my_power_mirror.Mirror.Util.{get_file_type, extension, first_type, file_types}

-- A header that `parseHeader` knows, with its value, as a line.
abbrev pub header_line : Field × Bytes → Bytes
header_line (f, v) = name f ++ b' ' ∷ v

-- A value of at least one byte, with no space and no newline in it.
abbrev pub IsWord : Bytes → Type 0
IsWord [] = ⊥
IsWord (x ∷ v) = Lacks b' ' (x ∷ v) × Lacks b'\n' (x ∷ v)

-- The request with each header's field set, the last of several that have the same name.
unfoldable pub put_all : List (Field × Bytes) → Request → Request
put_all [] req = req
put_all ((f, v) ∷ hs) req = put_all hs (put f req (str v))

parse_headers-put_all :
    (hs : List (Field × Bytes)) (req : Request)
    → All (λ h. IsWord h.1) hs
    → parse_headers req (map header_line hs) ≡ ok (put_all hs req)
unfolding parse_headers put_all
parse_headers-put_all [] req words = refl
parse_headers-put_all ((f, []) ∷ hs) req words = absurd words.0
parse_headers-put_all ((f, x ∷ v) ∷ hs) req words =
    let line : parse_header req (header_line (f, x ∷ v)) ≡ ok (put f req (str (x ∷ v))) =
      ap (λ t. parse_header req (name f ++ b' ' ∷ x ∷ t)) (sym (append-nil v))
      ∙ parse_header-value f req x v [] words.0.0 tt in
    rw line (parse_headers-put_all hs (put f req (str (x ∷ v))) words.1)

name-IsLine :
    (f : Field) → (x : ℕ) × (t : Bytes) × (name f ≡ x ∷ t) × (x ≢ b'\r') × Lacks b'\n' (x ∷ t)
name-IsLine host = (_, _, refl, omega arith, omega arith)
name-IsLine _ = (_, _, refl, omega arith, omega arith)

header_line-IsLine : (h : Field × Bytes) → IsWord h.1 → IsLine (header_line h)
header_line-IsLine (f, []) word = absurd word
header_line-IsLine (f, y ∷ v) word =
    let (x, t, e, ne, clean) = name-IsLine f in
    subst (λ n. IsLine (n ++ b' ' ∷ y ∷ v)) (sym e)
      (ne, All-append (λ c. c ≢ b'\n') (x ∷ t) (b' ' ∷ y ∷ v) clean (omega arith, word.1))

lines-IsLine :
    (hs : List (Field × Bytes)) → All (λ h. IsWord h.1) hs → All IsLine (map header_line hs)
lines-IsLine [] words = tt
lines-IsLine (h ∷ hs) words = (header_line-IsLine h words.0, lines-IsLine hs words.1)

length-lines : (hs : List (Field × Bytes)) → length (map header_line hs) ≡ length hs
length-lines [] = refl
length-lines (h ∷ hs) = ap suc (length-lines hs)

-- The bytes of a request: its first line, a line for each header, a blank line, and a body.
abbrev pub request_bytes : Bytes → List (Field × Bytes) → Bytes → Bytes
request_bytes first hs body = unlines (first ∷ map header_line hs) (b'\r' ∷ body)

-- What `parseRequest` makes of it.
abbrev pub parsed : Bytes → List (Field × Bytes) → Request
parsed method hs = put_all hs (record cleared { method = str method })

parse_request-parsed :
    (first method after : Bytes) (hs : List (Field × Bytes)) (body : Bytes)
    → IsLine first
    → strtok b' ' first ≡ some (method, after)
    → All (λ h. IsWord h.1) hs
    → length hs < 20
    → parse_request (request_bytes first hs body) ≡ ok (parsed method hs)
parse_request-parsed first method after hs body line word words few =
    let room : leb (suc (length (map header_line hs))) 20 ≡ true =
      rw (length-lines hs) (ground arith) in
    parse_request-unlines first (map header_line hs) body (line, lines-IsLine hs words)
    ∙ rw room (parse_lines_any_method first (map header_line hs) method after word)
    ∙ parse_headers-put_all hs (record cleared { method = str method }) words

-- The reply for a Content-type.
abbrev pub reply : Bytes → Bytes
reply v =
    status_lines
    ++ (content_type_line (first_type (extension v) file_types) ++ (content_length_line ++ 0 ∷ []))

reply-response :
    (res : Request) (v : Bytes) → res.content_type ≡ str v → response res ≡ ok (reply v)
unfolding get_file_type
reply-response res v e = response-sends res (first_type (extension v) file_types) (rw e refl)

buffer_text-Lacks :
    (bytes : Bytes) → Lacks 0 bytes → length bytes < buffer_size → buffer_text bytes ≡ ok bytes
unfolding buffer_text
buffer_text-Lacks bytes lacks fits =
    rw (before-end 0 bytes lacks, lt→ltb (length bytes) buffer_size fits)

answer-reply :
    (opens : Bool) (fd : ℕ) (bytes : Bytes) (res : Request) (v : Bytes) (s : Server)
    → Lacks 0 bytes
    → length bytes < buffer_size
    → parse_request bytes ≡ ok res
    → res.expect ≡ null
    → res.content_type ≡ str v
    → answer opens fd bytes s ≡ ok (with_effect s (sent fd (reply v)))
unfolding answer
answer-reply opens fd bytes res v s lacks fits request no_expect type =
    rw (buffer_text-Lacks bytes lacks fits, request, reply-response res v type, no_expect)

receive_from-some :
    (o : Option ℕ) (incoming : List Bytes) (from : ℕ) (bytes : Bytes) (rest : List Bytes)
    (s : Server)
    → o ≡ some from
    → incoming ≡ bytes ∷ rest
    → receive_from o incoming s
      ≡ ok (bytes, record (with_effect s (received from)) { incoming = rest })
unfolding receive_from
receive_from-some o incoming from bytes rest s known next = rw (known, next) refl

request_bytes-ne :
    (first : Bytes) (hs : List (Field × Bytes)) (body : Bytes)
    → (length (request_bytes first hs body) == 0) ≡ false
request_bytes-ne first hs body =
    let tail = unlines (map header_line hs) (b'\r' ∷ body) in
    ne→== (length (request_bytes first hs body)) 0
      (omega (arith, length-append first (b'\n' ∷ tail)))

-- The client in slot i, at descriptor fd, is ready, and `recv` on clientFd gives a request of fewer
-- than 250000 bytes with no NUL in it: a first line with a word, fewer than 20 headers that
-- `parseHeader` knows, each with a value of one word, no Expect among them and a Content-type, last
-- given as v, then a blank line and any body. Then one reply is sent to fd, for the type of a file
-- of the name v, and nothing else changes.
pub serve_client-sends :
    (fds : List ℕ) (opens : Bool) (i fd from : ℕ) (s : Server) (rest : List Bytes)
    (first method after : Bytes) (hs : List (Field × Bytes)) (body v : Bytes)
    → slot s.client i ≡ ok fd
    → fd_isset fd fds ≡ true
    → s.client_fd ≡ some from
    → s.incoming ≡ request_bytes first hs body ∷ rest
    → IsLine first
    → strtok b' ' first ≡ some (method, after)
    → All (λ h. IsWord h.1) hs
    → length hs < 20
    → (parsed method hs).expect ≡ null
    → (parsed method hs).content_type ≡ str v
    → Lacks 0 (request_bytes first hs body)
    → length (request_bytes first hs body) < 250000
    → serve_client fds opens i s
      ≡ ok (record s {
        incoming = rest;
        effects = s.effects ++ received from ∷ sent fd (reply v) ∷ [];
      })
unfolding serve_client
serve_client-sends fds opens i fd from s rest first method after hs body v at_slot is_ready known
      next line word words few no_expect type lacks fits =
    let bytes = request_bytes first hs body in
    let s' = record (with_effect s (received from)) { incoming = rest } in
    rw
      (
        at_slot,
        is_ready,
        receive_from-some s.client_fd s.incoming from bytes rest s known next,
        request_bytes-ne first hs body,
        answer-reply opens fd bytes (parsed method hs) v s' lacks fits
            (parse_request-parsed first method after hs body line word words few) no_expect type,
      )
      (ap (λ l. ok (record s { incoming = rest; effects = l }))
        (append_assoc s.effects (received from ∷ []) (sent fd (reply v) ∷ [])))
