-- ===== src/Mirror/Sender/Overflow.antt =====
-- The arrays of client.c: which texts fit, and which never do.
use my_power_mirror.Base.{
  ℕ, ◌≤◌, ◌≡◌, ◌⊎◌, inl, inr, refl, sym, subst, ◌∙◌, Option, none, some, List, [], ◌∷◌, ◌++◌, Bytes,
  codes, ltb, if◌then◌else◌, length, All, arith, le→ltb, ok, fail, undefined_behavior, ok_injective,
  bind-undefined, Bool-cases,
}
use my_power_mirror.CString.{str, strn_eq, behind}
use my_power_mirror.Mirror.Util.{get_file_type, extension, first_type, file_types}
use my_power_mirror.Mirror.Sender.{SendInfo, World, write_text, read_text, get_send_info, post_url}

-- Every type has at least eight bytes.
first_type-length :
    (ext : Bytes) (types : List (Bytes × Bytes))
    → All (λ entry. 8 ≤ length entry.1) types
    → 8 ≤ length (first_type ext types)
unfolding first_type
first_type-length ext [] h = omega arith
first_type-length ext ((k, v) ∷ types) h = ground (arith, first_type-length ext types h.1)

get_file_type-length :
    (s : Bytes) → (type : Bytes) × (get_file_type (str s) ≡ ok type) × (8 ≤ length type)
unfolding get_file_type
get_file_type-length s = (
  first_type (extension s) file_types,
  refl,
  first_type-length (extension s) file_types (omega arith),
)

read_text-cases :
    (o : Option Bytes)
    → (read_text o ≡ fail undefined_behavior) ⊎ ((s : Bytes) × (read_text o ≡ ok s))
read_text-cases none = inl refl
read_text-cases (some s) = inr (s, refl)

write_text-cases :
    (size : ℕ) (s : Bytes)
    → (write_text size s ≡ fail undefined_behavior)
      ⊎ ((t : Option Bytes) × (write_text size s ≡ ok t))
unfolding write_text
write_text-cases size s = elim (Bool-cases (ltb (length s) size)) [
  | inl e ↦ inr (some s, rw e)
  | inr e ↦ inl (rw e)
]

-- Whatever the file, its information and the environment, `postUrl` never gets to libcurl: with
-- the shortest type too, the header is written past the end of the 20 bytes of `type`.
pub post_url-undefined :
    (w : World) (s_info : SendInfo) → post_url w s_info ≡ fail undefined_behavior
unfolding post_url
post_url-undefined w s_info = bind-undefined (read_text-cases s_info.path) λ s _.
    bind-undefined (write_text-cases 128 s) λ copied _.
      bind-undefined (read_text-cases copied) λ path _.
        let (type, e, long) = get_file_type-length path in
        bind-undefined (inr (type, e)) λ type' e'.
          bind-undefined
            (inl (type_too_long type' (subst (λ t. 8 ≤ length t) (ok_injective (sym e ∙ e')) long)))
            λ written e''. absurd (
              cc (
                e'',
                type_too_long type' (subst (λ t. 8 ≤ length t) (ok_injective (sym e ∙ e')) long),
              ))
  where
    type_too_long :
        (type : Bytes)
        → 8 ≤ length type
        → write_text 20 (codes "Content-type: " ++ type) ≡ fail undefined_behavior
    type_too_long type h =
        unfold write_text in rw (le→ltb (length (codes "Content-type: " ++ type)) 20 (omega arith))

-- A token "author:" with a value: up to 23 bytes of it are kept behind the label, the path and the
-- age stay, and a longer value is written past the end of its 32 bytes; with a token "age:" the
-- same holds of up to 26 bytes, of the path and of the author.
pub get_send_info-bounds :
    (s_info : SendInfo) (v : Bytes)
    → (get_send_info s_info (codes "author:" ++ v) ≡ (
        if ltb (length v) 24
        then ok (record s_info { author = some (codes "author: " ++ v) })
        else fail undefined_behavior))
      × (get_send_info s_info (codes "age:" ++ v) ≡ (
          if ltb (length v) 27
          then ok (record s_info { age = some (codes "age: " ++ v) })
          else fail undefined_behavior))
unfolding get_send_info strn_eq behind write_text
get_send_info-bounds s_info v = (ground arith, ground arith)
