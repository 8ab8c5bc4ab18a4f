-- ===== src/Mirror/Util/FileType.antt =====
-- What `getFileType` reads of a file name.
use my_power_mirror.Base.{
  ◌≡◌, ◌≢◌, refl, sym, ap, ◌∙◌, Bool, ◌||◌, drop, true, false, List, [], ◌∷◌, ◌++◌, Bytes, codes,
  take, arith, ok, ok_injective,
}
use my_power_mirror.CString.{Pointer, str, str_eq, strn_eq, strncpy}
use my_power_mirror.CString.Laws.{str_eq_iff, Lacks, strn_eq-take, strn_eq-replicate}
use my_power_mirror.Mirror.Util.{extension, file_types, first_type, get_file_type}

extension-Lacks :
    (stem rest : Bytes) → Lacks b'.' stem → extension (stem ++ b'.' ∷ rest) ≡ strncpy 32 rest
unfolding extension
extension-Lacks [] rest h = refl
extension-Lacks (x ∷ s) rest h = ground (arith, extension-Lacks s rest h.1)

take-take : (s : Bytes) → take 3 (take 32 s) ≡ take 3 s
take-take [] = refl
take-take (a ∷ []) = refl
take-take (a ∷ b ∷ []) = refl
take-take (a ∷ b ∷ c ∷ s) = refl

strn_eq-strncpy : (s k : Bytes) → strn_eq 3 (strncpy 32 s) k ≡ strn_eq 3 (take 3 s) k
strn_eq-strncpy s k =
    strn_eq-replicate 3 _ (take 32 s) k
    ∙ sym (strn_eq-take 3 (take 32 s) k)
    ∙ ap (λ t. strn_eq 3 t k) (take-take s)

first_type-strncpy :
    (s : Bytes) (table : List (Bytes × Bytes))
    → first_type (strncpy 32 s) table ≡ first_type (take 3 s) table
unfolding first_type
first_type-strncpy s [] = refl
first_type-strncpy s ((k, v) ∷ table) = rw (strn_eq-strncpy s k, first_type-strncpy s table)

get_file_type-str : (s : Bytes) → get_file_type (str s) ≡ ok (first_type (extension s) file_types)
unfolding get_file_type
get_file_type-str s = refl

get_file_type-append :
    (stem rest : Bytes)
    → Lacks b'.' stem
    → get_file_type (str (stem ++ b'.' ∷ rest)) ≡ ok (first_type (take 3 rest) file_types)
get_file_type-append stem rest h =
    rw (get_file_type-str, extension-Lacks stem rest h) (ap ok (first_type-strncpy rest file_types))

-- The type of a name with a dot is decided by the three bytes behind its FIRST dot alone: not by
-- the stem, and not by anything later, a second dot included.
pub get_file_type-take :
    (stem stem' rest rest' : Bytes)
    → Lacks b'.' stem
    → Lacks b'.' stem'
    → take 3 rest ≡ take 3 rest'
    → get_file_type (str (stem ++ b'.' ∷ rest)) ≡ get_file_type (str (stem' ++ b'.' ∷ rest'))
get_file_type-take stem stem' rest rest' h h' e =
    rw (get_file_type-append stem rest h, get_file_type-append stem' rest' h', e)

has_key : Bytes → List (Bytes × Bytes) → Bool
has_key k [] = false
has_key k ((j, v) ∷ table) = str_eq j k || has_key k table

first_type_missed :
    (ext k v : Bytes) (table rest : List (Bytes × Bytes))
    → strn_eq 3 ext k ≡ false
    → first_type ext (table ++ (k, v) ∷ rest) ≡ first_type ext (table ++ rest)
unfolding first_type
first_type_missed ext k v [] rest h = rw h
first_type_missed ext k v ((j, w) ∷ table) rest h = rw (first_type_missed ext k v table rest h)

-- An entry is dead behind another one for its key.
first_type_shadowed :
    (ext k v : Bytes) (table rest : List (Bytes × Bytes))
    → has_key k table ≡ true
    → first_type ext (table ++ (k, v) ∷ rest) ≡ first_type ext (table ++ rest)
unfolding first_type has_key
first_type_shadowed ext k v [] rest h = cc
first_type_shadowed ext k v ((j, w) ∷ table) rest h = ground (
  arith,
  str_eq_iff j k,
  first_type_missed ext k v table rest,
  first_type_shadowed ext k v table rest,
)

gives : Bytes → List (Bytes × Bytes) → Bool
gives t [] = str_eq (codes "text/html") t
gives t ((k, v) ∷ table) = str_eq v t || gives t table

first_type-gives :
    (ext : Bytes) (table : List (Bytes × Bytes)) → gives (first_type ext table) table ≡ true
unfolding first_type gives
first_type-gives ext [] = (str_eq_iff _ _).1 refl
first_type-gives ext ((k, v) ∷ table) = ground (arith, str_eq_iff v v, first_type-gives ext table)

first_type-ne : (ext : Bytes) → first_type ext file_types ≢ codes "application/x-ppt"
unfolding has_key gives str_eq
first_type-ne ext e =
    let front = take 16 file_types in
    let rest = drop 17 file_types in
    let live = first_type_shadowed ext (codes "ppt") (codes "application/x-ppt") front rest refl in
    cc (rw (sym live ∙ e) at (first_type-gives ext (front ++ rest)))

-- The type "application/x-ppt" is never given: its test, the second for "ppt", is dead code.
get_file_type-ne : (p : Pointer) → get_file_type p ≢ ok (codes "application/x-ppt")
get_file_type-ne (str s) e =
    first_type-ne (extension s) (ok_injective (sym (get_file_type-str s) ∙ e))
get_file_type-ne _ e = (unfold get_file_type in cc)
