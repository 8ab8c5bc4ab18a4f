-- ===== src/Mirror/Util.antt =====
-- util.c: counting and finding a byte, the content type of a file name, and the size of a file.
pub mod FileType
pub mod Search
use my_power_mirror.Base.{
  Option, none, some, ◌%◌, ◌^◌, fail, undefined_behavior, ℕ, ◌+◌, List, [], ◌∷◌, Bytes, codes, ◌==◌,
  if◌then◌else◌, replicate, Outcome, ok, ◌>>=◌,
}
use my_power_mirror.CString.{Pointer, unset, null, str, deref, strn_eq, strncpy}

-- An `int` result: an index, or -1.
pub data Index : Type 0 where
  at : ℕ → Index
  minus_one : Index

-- The loop of `countChar` from some position on.
unfoldable pub count_from : Bytes → ℕ → ℕ → ℕ
count_from [] c count = count
count_from (x ∷ s) c count = count_from s c (if x == c then count + 1 else count)

unfoldable pub count_char : Pointer → ℕ → Outcome ℕ
unfolding count_from
count_char p c = do s ← deref p; ok (count_from s c 0)

-- The loop of `indexOfStrFirst` from position i on.
unfoldable pub index_from : Bytes → ℕ → ℕ → Index
index_from [] c i = minus_one
index_from (x ∷ s) c i = let rest = index_from s c (i + 1) in if x == c then at i else rest

unfoldable pub index_of_str_first : Pointer → ℕ → Outcome Index
unfolding index_from
index_of_str_first p c = do s ← deref p; ok (index_from s c 0)

-- `sExt` after the `while` loop: what follows the first dot, or zeros.
unfoldable pub extension : Bytes → Bytes
extension [] = replicate 32 0
extension (x ∷ s) = let rest = extension s in if x == b'.' then strncpy 32 s else rest

-- The tests of `getFileType` in their order.
abbrev pub file_types : List (Bytes × Bytes)
file_types =
    (codes "bmp", codes "image/bmp")
    ∷ (codes "gif", codes "image/gif")
    ∷ (codes "ico", codes "image/x-icon")
    ∷ (codes "jpg", codes "image/jpeg")
    ∷ (codes "avi", codes "video/avi")
    ∷ (codes "css", codes "text/css")
    ∷ (codes "dll", codes "application/x-msdownload")
    ∷ (codes "exe", codes "application/x-msdownload")
    ∷ (codes "dtd", codes "text/xml")
    ∷ (codes "mp3", codes "audio/mp3")
    ∷ (codes "mpg", codes "video/mpg")
    ∷ (codes "png", codes "image/png")
    ∷ (codes "ppt", codes "application/vnd.ms-powerpoint")
    ∷ (codes "xls", codes "application/vnd.ms-excel")
    ∷ (codes "doc", codes "application/msword")
    ∷ (codes "mp4", codes "video/mpeg4")
    ∷ (codes "ppt", codes "application/x-ppt")
    ∷ (codes "wma", codes "audio/x-ms-wma")
    ∷ (codes "wmv", codes "video/x-ms-wmv")
    ∷ []

-- The first test that passes gives the type.
unfoldable pub first_type : Bytes → List (Bytes × Bytes) → Bytes
first_type ext [] = codes "text/html"
first_type ext ((k, v) ∷ rest) = if strn_eq 3 ext k then v else first_type ext rest

unfoldable pub get_file_type : Pointer → Outcome Bytes
unfolding extension first_type
get_file_type p = do filename ← deref p; ok (first_type (extension filename) file_types)

-- `getFileSize`: the file as `fopen` opens it, or nothing, and the `long` that `ftell` gives at its
-- end, as its 64 bits, of which the `int` has the low 32.
unfoldable pub get_file_size : Pointer → (Bytes → Option ℕ) → Outcome ℕ
get_file_size unset opened = fail undefined_behavior
get_file_size null opened = ok 0
get_file_size (str filename) opened = elim (opened filename) [
  | none ↦ ok 0
  | some end ↦ ok (end % 2 ^ 32)
]
