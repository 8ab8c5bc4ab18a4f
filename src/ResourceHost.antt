-- ===== src/ResourceHost.antt =====
-- src/Resource.h, src/Resource.cpp, src/ResourceHost.h and src/ResourceHost.cpp: from a URI to a
-- file or a directory listing. The file system is the environment's.
mod MimeTypes
pub mod Listing
pub mod Serving
pub mod Tests
use my_power_mirror.Base.{
  ℕ, zero, suc, ◌+◌, ◌-◌, ◌/◌, ◌%◌, Bool, true, false, not, ◌&&◌, ◌||◌, Option, none, some, List,
  [], ◌∷◌, ◌++◌, map, Bytes, codes, ltb, ◌==◌, if◌then◌else◌, length, take, drop, replicate, u32,
}
use my_power_mirror.CString.{str_eq, strncpy}
use my_power_mirror.HttpMessage.{Cells, has_byte}
use MimeTypes.{mime_types}

-- `struct stat`: st_mode and st_size.
pub record Stat : Type 0 where
  pub st_mode : ℕ
  pub st_size : ℕ

-- What stat, ifstream and opendir with readdir give for a path; `none` is their failure.
pub record FileSystem : Type 0 where
  pub stat : Bytes → Option Stat
  pub load : Bytes → Option Bytes
  pub entries : Bytes → Option (List Bytes)

pub record Resource : Type 0 where
  pub location : Bytes
  pub directory : Bool
  pub mime_type : Bytes
  pub contents : Cells
  pub contents_size : ℕ

-- find_last_of: the last position of a byte that is in the set, from position i on.
unfoldable pub last_of : Bytes → Bytes → ℕ → Option ℕ
last_of set [] i = none
last_of set (x ∷ s) i = elim (last_of set s (i + 1)) [
  | some j ↦ some j
  | none ↦ if has_byte x set then some i else none
]

unfoldable pub get_extension : Bytes → Bytes
unfolding last_of
get_extension location = elim (last_of (codes ".") location 0) [
  | none ↦ []
  | some ext_pos ↦ drop (ext_pos + 1) location
]

-- find in an unordered_map that was filled from a list: the first pair of a key stays.
unfoldable pub find_mime : Bytes → List (Bytes × Bytes) → Option Bytes
find_mime ext [] = none
find_mime ext ((k, v) ∷ types) =
    let rest = find_mime ext types in if str_eq k ext then some v else rest

unfoldable pub lookup_mime_type : Bytes → Bytes
lookup_mime_type ext = elim (find_mime ext mime_types) [ none ↦ codes "text/html" | some v ↦ v ]

-- sb.st_mode & S_IRWXU, S_IFDIR and S_IFREG, each a test of bits.
abbrev pub owner_access : Stat → Bool
owner_access sb = not (sb.st_mode / 64 % 8 == 0)

abbrev pub is_dir : Stat → Bool
is_dir sb = sb.st_mode / 16384 % 2 == 1

abbrev pub is_reg : Stat → Bool
is_reg sb = sb.st_mode / 32768 % 2 == 1

-- The bytes of the file that fit; what the file does not fill has no value.
abbrev pub file_data : ℕ → Bytes → Cells
file_data len content = map some (take len content) ++ replicate (len - length content) none

-- A step that is made unless the one before gave NULL.
abbrev pub on_some {ℓ κ} : {A : Type ℓ} {B : Type κ} → Option A → (A → Option B) → Option B
on_some none f = none
on_some (some a) f = f a

unfoldable pub read_file : FileSystem → Bytes → Stat → Option Resource
read_file fs path sb =
    if not (owner_access sb)
    then none
    else on_some (fs.load path) λ content.
      let len = u32 sb.st_size in
      some (record {
        location = path;
        directory = false;
        mime_type = lookup_mime_type (get_extension path);
        contents = file_data len content;
        contents_size = len;
      })

-- The lines for the entries that are not hidden.
unfoldable pub list_entries : Bytes → List Bytes → Bytes
list_entries uri [] = []
list_entries uri (d_name ∷ names) =
    let rest = list_entries uri names in
    let link =
      codes "<a href=\"" ++ (uri ++ (d_name ++ (codes "\">" ++ (d_name ++ codes "</a><br />")))) in
    if str_eq (take 1 d_name) (codes ".") then rest else link ++ rest

-- The text from its last byte that is one of the base path's, or "?".
unfoldable pub listing_uri : Bytes → Bytes → Bytes
unfolding last_of
listing_uri base path = elim (last_of base path 0) [
  | none ↦ codes "?"
  | some uri_pos ↦ drop uri_pos path
]

abbrev pub listing_page : Bytes → List Bytes → Bytes
listing_page uri names =
    codes "<html><head><title>"
    ++ (uri
        ++ (codes "</title></head><body>"
            ++ (codes "<h1>Index of "
                ++ (uri
                    ++ (codes "</h1><hr /><br />"
                        ++ (list_entries uri names ++ codes "</body></html>"))))))

unfoldable pub generate_dir_list : FileSystem → Bytes → Bytes → Bytes
generate_dir_list fs base path = elim (fs.entries path) [
  | none ↦ []
  | some names ↦ listing_page (listing_uri base path) names
]

-- A '/' is added at the end where there is none.
unfoldable pub with_slash : Bytes → Bytes
with_slash [] = codes "/"
with_slash (x ∷ []) = if x == b'/' then x ∷ [] else x ∷ b'/' ∷ []
with_slash (x ∷ y ∷ path) = x ∷ with_slash (y ∷ path)

-- The index files in their order: the first that is there is read.
unfoldable pub read_index : FileSystem → Bytes → List Bytes → Option (Option Resource)
read_index fs path [] = none
read_index fs path (name ∷ names) = elim (fs.stat (path ++ name)) [
  | none ↦ read_index fs path names
  | some sidx ↦ some (read_file fs (path ++ name) sidx)
]

abbrev pub valid_indexes : List Bytes
valid_indexes = codes "index.html" ∷ codes "index.htm" ∷ []

abbrev pub directory_resource : Bytes → Bytes → Resource
directory_resource path listing = record {
  location = path;
  directory = true;
  mime_type = codes "text/html";
  contents = map some (strncpy (length listing) listing);
  contents_size = u32 (length listing);
}

unfoldable pub read_directory : FileSystem → Bytes → Bytes → Stat → Option Resource
read_directory fs base path sb =
    let path = with_slash path in
    elim (read_index fs path valid_indexes) [
      | some found ↦ found
      | none ↦
          if not (owner_access sb)
          then none
          else some (directory_resource path (generate_dir_list fs base path))
    ]

unfoldable pub get_resource : FileSystem → Bytes → Bytes → Option Resource
get_resource fs base uri =
    if ltb 255 (length uri) || length uri == 0
    then none
    else on_some (fs.stat (base ++ uri)) λ sb.
      if is_dir sb
      then read_directory fs base (base ++ uri) sb
      else if is_reg sb
      then read_file fs (base ++ uri) sb
      else none
