-- ===== src/HttpMessage/Within.antt =====
-- Headers by the bytes of which they are made, and `addHeader` of a line on them.
use my_power_mirror.Base.{
  ℕ, ◌≤◌, inl, inr, [], ◌∷◌, Bytes, length, All, arith, Bool-cases, Ends, returns, thrown, Ends-if,
}
use my_power_mirror.CString.{before, behind, skip}
use my_power_mirror.CString.Laws.{All-skip, All-behind, length-skip, length-behind}
use my_power_mirror.HttpMessage.{add_header_value, add_header_line, has_byte}
use my_power_mirror.HttpMessage.HeaderMap.{
  Headers, insert_header, str_lt, get_header_value, find_header,
}
use my_power_mirror.CString.{str_eq}

-- A header whose bytes satisfy P and whose value has at most n of them.
abbrev pub Within : (ℕ → Type 0) → ℕ → Bytes × Bytes → Type 0
Within P n (k, v) = All P v × (length v ≤ n)

insert_header-All :
    (Q : Bytes × Bytes → Type 0) (k v : Bytes) (m : Headers)
    → Q (k, v)
    → All Q m
    → All Q (insert_header k v m)
unfolding insert_header
insert_header-All Q k v [] q h = (q, tt)
insert_header-All Q k v ((j, w) ∷ m) q h = elim (Bool-cases (str_lt k j)) [
  | inl e ↦ rw e (q, h)
  | inr e ↦ elim (Bool-cases (str_lt j k)) [
    | inl f ↦ rw (e, f) (h.0, insert_header-All Q k v m q h.1)
    | inr f ↦ rw (e, f) h
  ]
]

pub get_header_value-Within :
    (P : ℕ → Type 0) (n : ℕ) (m : Headers) (k : Bytes)
    → All (Within P n) m
    → Within P n (k, get_header_value m k)
unfolding get_header_value find_header
get_header_value-Within P n [] k h = (tt, omega arith)
get_header_value-Within P n ((j, w) ∷ m) k h = elim (Bool-cases (str_eq j k)) [
  | inl e ↦ rw (e, get_header_value) h.0
  | inr e ↦ rw (e, get_header_value) (get_header_value-Within P n m k h.1)
]

add_header_value-Ends :
    (P : ℕ → Type 0) (n : ℕ) (headers : Headers) (key value : Bytes)
    → All (Within P n) headers
    → Within P n (key, value)
    → Ends (All (Within P n)) (add_header_value headers key value)
unfolding add_header_value
add_header_value-Ends P n headers key [] h v = thrown
add_header_value-Ends P n headers key (c ∷ value) h v =
    returns (insert_header-All (Within P n) key (c ∷ value) headers v h)

pub add_header_line-Ends :
    (P : ℕ → Type 0) (n : ℕ) (headers : Headers) (line : Bytes)
    → All (Within P n) headers
    → All P line
    → length line ≤ n
    → Ends (All (Within P n)) (add_header_line headers line)
unfolding add_header_line
add_header_line-Ends P n headers line h p le =
    Ends-if (has_byte b':' line)
      (λ _. add_header_value-Ends P n headers (before b':' line) (skip b' ' (behind b':' line)) h (
        All-skip P b' ' (behind b':' line) (All-behind P b':' line p),
        omega (arith, length-skip b' ' (behind b':' line), length-behind b':' line),
      ))
      (λ _. returns h)
