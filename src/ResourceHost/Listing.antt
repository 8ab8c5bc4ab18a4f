-- ===== src/ResourceHost/Listing.antt =====
-- The last byte that is in a set: extensions, and the URI of a directory listing.
use my_power_mirror.Base.{
  ℕ, ◌+◌, ◌≡◌, refl, sym, ap, ◌∙◌, true, false, Option, none, some, List, [], ◌∷◌, ◌++◌,
  append_assoc, Bytes, codes, ◌==◌, length, All, drop, length-append, drop-append_length, arith,
  ne→==, ==→eq, inl, inr, Bool-cases,
}
use my_power_mirror.CString.Laws.{Lacks}
use my_power_mirror.HttpMessage.{has_byte}
use my_power_mirror.ResourceHost.{
  FileSystem, Stat, last_of, get_extension, listing_uri, with_slash, owner_access, read_index,
  read_directory, valid_indexes, generate_dir_list, listing_page, directory_resource,
}

-- No byte of the text is in the set.
abbrev HasNone : Bytes → Bytes → Type 0
HasNone set = All (λ c. has_byte c set ≡ false)

last_of-none : (set s : Bytes) (i : ℕ) → HasNone set s → last_of set s i ≡ none
unfolding last_of
last_of-none set [] i h = refl
last_of-none set (x ∷ s) i h = rw (last_of-none set s (i + 1) h.1, h.0)

last_of-append :
    (set front rest : Bytes) (c i : ℕ)
    → has_byte c set ≡ true
    → HasNone set rest
    → last_of set (front ++ c ∷ rest) i ≡ some (i + length front)
unfolding last_of
last_of-append set [] rest c i h n = rw (last_of-none set rest (i + 1) n, h) (ap some (omega arith))
last_of-append set (x ∷ front) rest c i h n =
    rw (last_of-append set front rest c (i + 1) h n) (ap some (omega arith))

dot-HasNone : (s : Bytes) → Lacks b'.' s → HasNone (codes ".") s
unfolding has_byte
dot-HasNone [] l = tt
dot-HasNone (x ∷ s) l = (rw (ne→== b'.' x (λ e. l.0 (sym e))) refl, dot-HasNone s l.1)

-- The extension of a location is what stands behind its last dot, also where that is the dot of a
-- folder, and there is none without a dot.
get_extension-append :
    (stem ext : Bytes)
    → Lacks b'.' ext
    → (get_extension (stem ++ b'.' ∷ ext) ≡ ext) × (get_extension ext ≡ [])
unfolding get_extension
get_extension-append stem ext l =
    let none_behind = dot-HasNone ext l in
    let found = last_of-append (codes ".") stem ext b'.' 0 (unfold has_byte in refl) none_behind in
    (
      rw (found, get_extension) (drop_dot stem ext (0 + length stem + 1) (omega arith)),
      rw (last_of-none (codes ".") ext 0 none_behind, get_extension) refl,
    )
  where
    drop_dot : (stem ext : Bytes) (n : ℕ) → n ≡ length stem + 1 → drop n (stem ++ b'.' ∷ ext) ≡ ext
    drop_dot stem ext n e =
        ap (drop n) (sym (append_assoc stem (b'.' ∷ []) ext))
        ∙ drop-append_length n (stem ++ b'.' ∷ []) ext
            (omega (arith, length-append stem (b'.' ∷ [])))

-- A path with a slash at its end has one there.
with_slash-append : (path : Bytes) → (front : Bytes) × (with_slash path ≡ front ++ b'/' ∷ [])
unfolding with_slash
with_slash-append [] = ([], refl)
with_slash-append (x ∷ []) = elim (Bool-cases (x == b'/')) [
  | inl e ↦ ([], rw e (ap (λ c. c ∷ []) (==→eq x b'/' e)))
  | inr e ↦ (x ∷ [], rw e refl)
]
with_slash-append (x ∷ y ∷ path) =
    let (front, e) = with_slash-append (y ∷ path) in (x ∷ front, ap (◌∷◌ x) e)

listing_uri-append :
    (base front : Bytes)
    → has_byte b'/' base ≡ true
    → listing_uri base (front ++ b'/' ∷ []) ≡ codes "/"
unfolding listing_uri
listing_uri-append base front h =
    rw (last_of-append base front [] b'/' 0 h tt, listing_uri)
      (drop-append_length (0 + length front) front (codes "/") (omega arith))

listing_uri-with_slash :
    (base path : Bytes) → has_byte b'/' base ≡ true → listing_uri base (with_slash path) ≡ codes "/"
listing_uri-with_slash base path h =
    let (front, e) = with_slash-append path in
    ap (listing_uri base) e ∙ listing_uri-append base front h

-- The page that is made for a directory: the one of the root, with its entries.
abbrev pub root_page : Option (List Bytes) → Bytes
root_page none = []
root_page (some names) = listing_page (codes "/") names

-- For a base path with a slash in it, a directory that the owner may access and that has no index
-- file gets a listing whose title, and the target of each of whose links, is that of the root
-- directory, whatever directory it is.
pub read_directory-root_page :
    (fs : FileSystem) (base path : Bytes) (sb : Stat)
    → has_byte b'/' base ≡ true
    → read_index fs (with_slash path) valid_indexes ≡ none
    → owner_access sb ≡ true
    → read_directory fs base path sb
      ≡ some (directory_resource (with_slash path) (root_page (fs.entries (with_slash path))))
unfolding read_directory generate_dir_list
read_directory-root_page fs base path sb h n o =
    rw (n, o, read_directory)
      (ap (λ page. some (directory_resource (with_slash path) page))
        (page-root_page (fs.entries (with_slash path)) refl))
  where
    page-root_page :
        (names : Option (List Bytes))
        → fs.entries (with_slash path) ≡ names
        → generate_dir_list fs base (with_slash path) ≡ root_page (fs.entries (with_slash path))
    page-root_page none e = rw (e, generate_dir_list) refl
    page-root_page (some names) e =
        rw (e, generate_dir_list)
          (ap (λ uri. listing_page uri names) (listing_uri-with_slash base path h))
