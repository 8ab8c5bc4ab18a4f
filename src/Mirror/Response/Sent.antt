-- ===== src/Mirror/Response/Sent.antt =====
-- What `response` sends, and when it does not.
use my_power_mirror.Base.{
  ℕ, suc, ◌+◌, ◌≡◌, ◌≢◌, sym, ◌∙◌, inl, inr, none, some, List, [], ◌∷◌, ◌++◌, append_assoc, Bytes,
  codes, length, length-append, take, take_ge, ◌≤◌, ◌<◌, All, arith, Option-cases, ok, fail,
  undefined_behavior, >>=-eq-ok,
}
use my_power_mirror.CString.{unset, str, strtok, leading}
use my_power_mirror.CString.Laws.{str_eq_ne}
use my_power_mirror.Mirror.Util.{get_file_type}
use my_power_mirror.Mirror.Http.{
  Request, parse_header, parse_field, parse_headers, parse_lines, cleared,
}
use my_power_mirror.Mirror.Http.Fields.{parse_lines_any_method}
use my_power_mirror.Mirror.Response.{
  HeapText, strcpy_new, strcat, memcpy_behind, read_prefix, assemble, response, status_lines,
  content_type_line, content_length_line,
}

strcpy_new_lem :
    (n : ℕ) (s : Bytes) → suc (length s) ≤ n → strcpy_new n s ≡ ok (record { size = n; text = s })
unfolding strcpy_new
strcpy_new_lem n s h = ground arith

strcat_lem :
    (n : ℕ) (a s : Bytes)
    → suc (length a + length s) ≤ n
    → strcat (record { size = n; text = a }) s ≡ ok (record { size = n; text = a ++ s })
unfolding strcat
strcat_lem n a s h = ground arith

memcpy_behind_lem :
    (b : HeapText) (n : ℕ) (s : Bytes)
    → length b.text < n
    → n + length s ≤ b.size
    → memcpy_behind b n s ≡ ok b
unfolding memcpy_behind
memcpy_behind_lem b n s h k = ground arith

read_prefix_lem :
    (b : HeapText) (n : ℕ)
    → n ≡ suc (length b.text)
    → n ≤ b.size
    → read_prefix b n ≡ ok (b.text ++ 0 ∷ [])
unfolding read_prefix
read_prefix_lem b n h k =
    let all : take n (b.text ++ 0 ∷ []) ≡ b.text ++ 0 ∷ [] =
      take_ge n (b.text ++ 0 ∷ []) (omega (arith, length-append b.text (0 ∷ []))) in
    rw all (ground arith)

assemble_lem : (a b c : Bytes) → assemble a b c ≡ ok (a ++ (b ++ (c ++ 0 ∷ [])))
unfolding assemble
assemble_lem a b c =
    let n = length a + 1 + length b + length c in
    let whole = (a ++ b) ++ c in
    let sizes : length whole + 1 ≡ n = omega (arith, length-append (a ++ b) c, length-append a b) in
    rw (
      strcpy_new_lem (length a + 1) a (omega arith),
      strcat_lem (length a + 1 + length b) a b (omega arith),
      strcat_lem n (a ++ b) c (omega (arith, length-append a b)),
      memcpy_behind_lem (record { size = n + 4; text = whole }) n (codes "\r\n")
          (omega (arith, sizes)) (omega arith),
      read_prefix_lem (record { size = n + 4; text = whole }) n (omega (arith, sizes))
          (omega arith),
      append_assoc (a ++ b) c (0 ∷ []),
      append_assoc a b (c ++ 0 ∷ []),
    )

-- For a request with a Content-type: no copy runs over its memory, and what is sent is the status,
-- the type that `getFileType` gives for the header's value taken as a file name, a length of 1,
-- and one byte, the NUL of the string.
pub response-sends :
    (res : Request) (type : Bytes)
    → get_file_type res.content_type ≡ ok type
    → response res
      ≡ ok (status_lines ++ (content_type_line type ++ (content_length_line ++ 0 ∷ [])))
unfolding response
response-sends res type h = rw (h, response) (assemble_lem _ _ _)

parse_field-content_type :
    (req : Request) (head rest : Bytes) {q : Request}
    → head ≢ codes "Content-type:"
    → parse_field req head rest ≡ ok q
    → q.content_type ≡ req.content_type
unfolding parse_field
parse_field-content_type req head rest h e =
    ground (arith, str_eq_ne head (codes "Content-type:") h)

-- `head` behind the first `strtok` of `parseHeader`.
abbrev pub cut_head : Bytes → Bytes
cut_head l = elim (strtok b' ' l) [ none ↦ l | some (t, _) ↦ leading b' ' l ++ t ]

parse_header-content_type :
    (req : Request) (l : Bytes) {q : Request}
    → cut_head l ≢ codes "Content-type:"
    → parse_header req l ≡ ok q
    → q.content_type ≡ req.content_type
unfolding parse_header
parse_header-content_type req l h e = elim (Option-cases (strtok b' ' l)) [
  | inl n ↦ parse_field-content_type req l [] (rw (n, cut_head) at h) (rw (n, parse_header) at e)
  | inr ((t, r), n) ↦
      parse_field-content_type req (leading b' ' l ++ t) r (rw (n, cut_head) at h)
        (rw (n, parse_header) at e)
]

parse_headers-content_type :
    (ls : List Bytes) (req : Request) {q : Request}
    → All (λ l. cut_head l ≢ codes "Content-type:") ls
    → parse_headers req ls ≡ ok q
    → q.content_type ≡ req.content_type
unfolding parse_headers
parse_headers-content_type [] req h e = cc
parse_headers-content_type (l ∷ ls) req h e =
    let (r, now, later) = >>=-eq-ok (parse_header req l) (λ r. parse_headers r ls) e in
    parse_headers-content_type ls r h.1 later ∙ parse_header-content_type req l h.0 now

response-unset : (req : Request) → req.content_type ≡ unset → response req ≡ fail undefined_behavior
unfolding response get_file_type
response-unset req e = rw (e, response)

parse_lines_no_method :
    (first : Bytes) (ls : List Bytes) (req : Request)
    → strtok b' ' first ≡ none
    → parse_lines (first ∷ ls) ≢ ok req
unfolding parse_lines
parse_lines_no_method first ls req n = rw (n, parse_lines) (λ e. cc)

-- A request none of whose header lines starts with the word "Content-type:", in this spelling:
-- once it is parsed, `response` reads the field that `parseRequest` never set.
pub parse_lines-response :
    (first : Bytes) (ls : List Bytes) {req : Request}
    → All (λ l. cut_head l ≢ codes "Content-type:") ls
    → parse_lines (first ∷ ls) ≡ ok req
    → response req ≡ fail undefined_behavior
parse_lines-response first ls {req} h e = elim (Option-cases (strtok b' ' first)) [
  | inl n ↦ absurd (parse_lines_no_method first ls req n e)
  | inr ((m, r), n) ↦ response-unset req (
      parse_headers-content_type ls (record cleared { method = str m }) h
        (sym (parse_lines_any_method first ls m r n) ∙ e))
]
