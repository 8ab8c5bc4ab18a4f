-- ===== src/Mirror/Sender.antt =====
-- client.c: the lines of source.txt, the one that is chosen, and what is handed to libcurl for it.
-- Printing is left out, but not what it reads. libcurl and the file system are the environment.
pub mod Fuel
pub mod Overflow
pub mod Rows
pub mod Tests
use my_power_mirror.Base.{
  ℕ, zero, suc, ◌+◌, ◌-◌, Bool, true, false, Option, none, some, List, [], ◌∷◌, ◌++◌, Bytes, codes,
  ltb, leb, ◌==◌, if◌then◌else◌, length, take, drop, get_elem?, Outcome, ok, fail,
  undefined_behavior, out_of_fuel, ◌>>=◌,
}
use my_power_mirror.CString.{Pointer, str, strn_eq, strtok, before, behind}
use my_power_mirror.CString.Numbers.{decimal}
use my_power_mirror.Mirror.Util.{get_file_type}

-- STRLINESIZE
abbrev pub str_line_size : ℕ
str_line_size = 1024

-- send_t: arrays of 32 bytes from `malloc`, each with no text yet or with one.
pub record SendInfo : Type 0 where
  pub path : Option Bytes
  pub author : Option Bytes
  pub age : Option Bytes

-- struct input: what is left of the file, and the count.
pub record Input : Type 0 where
  pub in_file : Bytes
  pub bytes_read : ℕ

-- A string written into an array of this size, with its NUL: strcpy and sprintf.
unfoldable pub write_text : ℕ → Bytes → Outcome (Option Bytes)
write_text size s = if ltb (length s) size then ok (some s) else fail undefined_behavior

-- A string read from an array.
abbrev pub read_text : Option Bytes → Outcome Bytes
read_text none = fail undefined_behavior
read_text (some s) = ok s

-- read_callback: fread(ptr, size, nmemb, in)
unfoldable pub read_callback : ℕ → Input → Bytes × Input
read_callback room i =
    let got = take room i.in_file in
    (got, record { in_file = drop room i.in_file; bytes_read = i.bytes_read + length got })

unfoldable pub get_author : SendInfo → Bytes → Outcome SendInfo
get_author s_info ex_info =
    if strn_eq 7 ex_info (codes "author:")
    then (do
      author ← write_text 32 (codes "author: " ++ behind b':' ex_info)
      ok (record s_info { author = author }))
    else ok s_info

unfoldable pub get_age : SendInfo → Bytes → Outcome SendInfo
get_age s_info ex_info =
    if strn_eq 4 ex_info (codes "age:")
    then (do
      age ← write_text 32 (codes "age: " ++ behind b':' ex_info)
      ok (record s_info { age = age }))
    else ok s_info

unfoldable pub get_send_info : SendInfo → Bytes → Outcome SendInfo
unfolding get_author get_age
get_send_info s_info ex_info = do s ← get_author s_info ex_info; get_age s ex_info

-- What postUrl hands to libcurl.
pub record Upload : Type 0 where
  pub url : Bytes
  pub headers : List Bytes
  pub upload_size : ℕ

-- The file system and libcurl: the size of a file that is there, whether it opens, and whether
-- curl_easy_init gives a handle.
pub record World : Type 0 where
  pub stat : Bytes → Option ℕ
  pub opens : Bytes → Bool
  pub curl : Bool

-- postUrl; with no handle nothing is sent. A file that does not open is closed all the same.
unfoldable pub post_url : World → SendInfo → Outcome (List Upload)
post_url w s_info = do
  s ← read_text s_info.path
  copied ← write_text 128 s
  path ← read_text copied
  file_type ← get_file_type (str path)
  written ← write_text 20 (codes "Content-type: " ++ file_type)
  type ← read_text written
  author ← read_text s_info.author
  age ← read_text s_info.age
  size ← elim (w.stat path) [ none ↦ fail undefined_behavior | some n ↦ ok n ]
  let headers = type ∷ codes "Expect: 100-continue" ∷ author ∷ age ∷ []
  let upload : Upload = record {
    url = codes "http://192.168.11.111:" ++ decimal 1239;
    headers = headers;
    upload_size = size;
  }
  if w.opens path then ok (if w.curl then upload ∷ [] else []) else fail undefined_behavior

-- A row of strLine: a cell is `none` until it is written.
abbrev pub Row : Type 0
Row = List (Option ℕ)

-- The first n cells overwritten: strncpy with a count of no more than the string's length.
unfoldable pub copy_cells : Bytes → Row → Outcome Row
copy_cells [] row = ok row
copy_cells (x ∷ s) [] = fail undefined_behavior
copy_cells (x ∷ s) (c ∷ row) = do row' ← copy_cells s row; ok (some x ∷ row')

-- The string in a row, as `%s` and strcpy read it.
unfoldable pub row_text : Row → Outcome Bytes
row_text [] = fail undefined_behavior
row_text (none ∷ row) = fail undefined_behavior
row_text (some x ∷ row) = if x == 0 then ok [] else (do s ← row_text row; ok (x ∷ s))

-- strLine[line], written by a function on the row.
unfoldable pub update_row : (Row → Outcome Row) → ℕ → List Row → Outcome (List Row)
update_row f i [] = fail undefined_behavior
update_row f zero (row ∷ rows) = do row' ← f row; ok (row' ∷ rows)
update_row f (suc i) (row ∷ rows) = do rows' ← update_row f i rows; ok (row ∷ rows')

-- strLine[i], read.
unfoldable pub row_at : ℕ → List Row → Outcome Row
row_at i [] = fail undefined_behavior
row_at zero (row ∷ rows) = ok row
row_at (suc i) (row ∷ rows) = row_at i rows

-- One pass of the loop over the file, for the string that `fgets` gave.
unfoldable pub load_line : Bytes → ℕ × List Row → Outcome (ℕ × List Row)
load_line s (line, rows) =
    if length s == 0
    then fail undefined_behavior
    else (update_row (copy_cells (take (length s - 1) s)) line rows >>= λ rows'.
        row_at line rows' >>= λ row.
        row_text row >>= λ shown. ok (if ltb line str_line_size then line + 1 else line, rows'))

unfoldable pub load_lines : List Bytes → ℕ × List Row → Outcome (ℕ × List Row)
load_lines [] r = ok r
load_lines (s ∷ more) r = do r' ← load_line s r; load_lines more r'

-- The inner loop: strtok(NULL, " ") until it gives NULL.
unfoldable pub get_infos : ℕ → Bytes → SendInfo → Outcome SendInfo
get_infos zero rest s_info = fail out_of_fuel
get_infos (suc fuel) rest s_info = elim (strtok b' ' rest) [
  | none ↦ ok s_info
  | some (token, rest') ↦ get_send_info s_info token >>= λ s. get_infos fuel rest' s
]

-- From the chosen row to the filled `send_t`.
unfoldable pub make_info : Row → Outcome SendInfo
make_info row = row_text row >>= λ temp. elim (strtok b' ' temp) [
  | none ↦ fail undefined_behavior
  | some (token, rest) ↦ write_text 32 token >>= λ path.
      get_infos (length rest + 1) rest (record { path = path; author = none; age = none })
]

-- The loop over the choices, each an `int` as its 32-bit pattern: the uploads, until a chosen file
-- is not there or no further choice is made.
unfoldable pub choose : World → ℕ → List Row → List ℕ → Outcome (List Upload)
choose w line rows [] = ok []
choose w line rows (n ∷ choices) =
    let later = choose w line rows choices in
    if ltb n line
    then (row_at n rows >>= λ row. make_info row >>= λ s_info. read_text s_info.path >>= λ path.
        elim (w.stat path) [
          | none ↦ ok []
          | some size ↦ post_url w s_info >>= λ uploads. later >>= λ more. ok (uploads ++ more)
        ])
    else later

-- main, on what `fgets` gives line by line, or on a file that does not open.
unfoldable pub send_main : World → List Row → Option (List Bytes) → List ℕ → Outcome (List Upload)
send_main w rows none choices = ok []
send_main w rows (some lines) choices =
    load_lines lines (0, rows) >>= λ (line, rows'). choose w line rows' choices
