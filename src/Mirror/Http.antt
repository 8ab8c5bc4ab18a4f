-- ===== src/Mirror/Http.antt =====
-- http.c and include/http.h: the request line and the headers, cut by `strtok`.
pub mod Fields
pub mod Lines
pub mod Split
use my_power_mirror.Base.{
  ℕ, zero, suc, ◌+◌, Bool, true, false, not, ◌||◌, Option, none, some, List, [], ◌∷◌, ◌++◌, Bytes,
  codes, ltb, if◌then◌else◌, length, Outcome, ok, fail, undefined_behavior, out_of_fuel, ◌>>=◌,
}
use my_power_mirror.CString.{Pointer, unset, null, str, str_eq, leading, strtok}
use my_power_mirror.Mirror.Util.{Index, at, index_of_str_first}

pub record Request : Type 0 where
  pub method : Pointer
  pub file : Pointer
  pub host : Pointer
  pub accept : Pointer
  pub accept_language : Pointer
  pub accept_encoding : Pointer
  pub connection : Pointer
  pub user_agent : Pointer
  pub content_length : Pointer
  pub content_type : Pointer
  pub expect : Pointer

-- `req` after the assignments of NULL, which leave out `content_Type`.
abbrev pub cleared : Request
cleared = record {
  method = null;
  file = null;
  host = null;
  accept = null;
  accept_language = null;
  accept_encoding = null;
  connection = null;
  user_agent = null;
  content_length = null;
  content_type = unset;
  expect = null;
}

-- LINE
abbrev pub line_max : ℕ
line_max = 20

abbrev pub line_pointer : Option (Bytes × Bytes) → Pointer
line_pointer none = null
line_pointer (some (l, rest)) = str l

abbrev pub is_start : Index → Bool
is_start (at zero) = true
is_start _ = false

-- The `while` loop over the lines: `lines` are lineHead[0 .. line - 1], `current` is requestLine
-- with the bytes where `strtok(NULL, "\n")` goes on.
unfoldable pub collect : ℕ → List Bytes → Option (Bytes × Bytes) → Outcome (List Bytes)
collect fuel lines none = ok lines
collect zero lines (some (l, rest)) = fail out_of_fuel
collect (suc fuel) lines (some (l, rest)) =
    let next = strtok b'\n' rest in
    let stored = lines ++ l ∷ [] in
    let later = collect fuel stored next in
    if ltb (length lines) line_max
    then (do
      i ← index_of_str_first (line_pointer next) b'\r'
      if is_start i then ok stored else later)
    else fail undefined_behavior

-- temp = strtok(NULL, " "); malloc(strlen(temp) + 1); strcpy
unfoldable pub copy_token : Bytes → Outcome Pointer
copy_token rest = elim (strtok b' ' rest) [
  | none ↦ fail undefined_behavior
  | some (value, _) ↦ ok (str value)
]

-- The tests on `head`, which is cut behind its first token; `rest` is where `strtok` goes on.
unfoldable pub parse_field : Request → Bytes → Bytes → Outcome Request
parse_field req head rest =
    if str_eq head (codes "Host:")
    then (do v ← copy_token rest; ok (record req { host = v }))
    else if str_eq head (codes "User-Agent:")
    then (do v ← copy_token rest; ok (record req { user_agent = v }))
    else if str_eq head (codes "Accept:")
    then (do v ← copy_token rest; ok (record req { accept = v }))
    else if str_eq head (codes "Accept-Language:")
    then (do v ← copy_token rest; ok (record req { accept_language = v }))
    else if str_eq head (codes "Accept-Encoding:")
    then (do v ← copy_token rest; ok (record req { accept_encoding = v }))
    else if str_eq head (codes "Content-Length:")
    then (do v ← copy_token rest; ok (record req { content_length = v }))
    else if str_eq head (codes "Content-type:")
    then (do v ← copy_token rest; ok (record req { content_type = v }))
    else if str_eq head (codes "Connection:")
    then (do v ← copy_token rest; ok (record req { connection = v }))
    else if str_eq head (codes "Expect:")
    then (do v ← copy_token rest; ok (record req { expect = v }))
    else ok req

-- `head` starts where the line does, so spaces in front of the first token stay in it.
unfoldable pub parse_header : Request → Bytes → Outcome Request
parse_header req head = elim (strtok b' ' head) [
  | none ↦ parse_field req head []
  | some (token, rest) ↦ parse_field req (leading b' ' head ++ token) rest
]

unfoldable pub parse_headers : Request → List Bytes → Outcome Request
parse_headers req [] = ok req
parse_headers req (l ∷ ls) = do req' ← parse_header req l; parse_headers req' ls

-- The `if` ladder on the method: `strcmp` is zero when the strings are the same.
abbrev pub goes_on : Bytes → Bool
goes_on method = not (str_eq method (codes "POST")) || not (str_eq method (codes "GET"))

-- From `req.method = strtok(lineHead[0], " ")` on.
unfoldable pub parse_lines : List Bytes → Outcome Request
parse_lines [] = fail undefined_behavior
parse_lines (first ∷ rest) = elim (strtok b' ' first) [
  | none ↦ fail undefined_behavior
  | some (method, _) ↦
      let req = record cleared { method = str method } in
      if goes_on method then parse_headers req rest else ok req
]

unfoldable pub parse_request : Bytes → Outcome Request
parse_request buffer = do
  lines ← collect (length buffer + 1) [] (strtok b'\n' buffer)
  parse_lines lines
