-- ===== src/HttpMessage/HeaderMap.antt =====
-- The `std::map` of the headers: a list in the order of its keys, with no key twice.
pub mod Laws
use my_power_mirror.Base.{
  ℕ, zero, suc, ◌+◌, Bool, true, false, Option, none, some, List, [], ◌∷◌, ◌++◌, Bytes, codes, ltb,
  ◌==◌, if◌then◌else◌, length,
}
use my_power_mirror.CString.{str_eq}

abbrev pub Headers : Type 0
Headers = List (Bytes × Bytes)

-- `operator<` of `std::string`.
unfoldable pub str_lt : Bytes → Bytes → Bool
str_lt [] [] = false
str_lt [] (y ∷ b) = true
str_lt (x ∷ a) [] = false
str_lt (x ∷ a) (y ∷ b) =
    let rest = str_lt a b in if ltb x y then true else if x == y then rest else false

-- `insert`: a key that is there keeps its value.
unfoldable pub insert_header : Bytes → Bytes → Headers → Headers
insert_header k v [] = (k, v) ∷ []
insert_header k v ((j, w) ∷ m) =
    let rest = insert_header k v m in
    if str_lt k j then (k, v) ∷ (j, w) ∷ m else if str_lt j k then (j, w) ∷ rest else (j, w) ∷ m

-- `find`, and the value that it finds.
unfoldable pub find_header : Bytes → Headers → Option Bytes
find_header k [] = none
find_header k ((j, w) ∷ m) = let rest = find_header k m in if str_eq j k then some w else rest

-- getHeaderValue
unfoldable pub get_header_value : Headers → Bytes → Bytes
unfolding find_header
get_header_value m k = elim (find_header k m) [ none ↦ [] | some w ↦ w ]

-- getHeaderStr
unfoldable pub get_header_str : Headers → ℕ → Bytes
get_header_str [] index = []
get_header_str ((k, v) ∷ m) zero = k ++ (codes ": " ++ v)
get_header_str ((k, v) ∷ m) (suc index) = get_header_str m index

-- getNumHeaders
abbrev pub get_num_headers : Headers → ℕ
get_num_headers m = length m
