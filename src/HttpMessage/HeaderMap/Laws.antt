-- ===== src/HttpMessage/HeaderMap/Laws.antt =====
-- Laws of the header map: filling it in the order of its keys, and what a second insertion does.
use my_power_mirror.Base.{
  ◌≡◌, refl, sym, ◌∙◌, true, false, Option, none, some, [], ◌∷◌, ◌++◌, append_assoc, append-nil,
  Bytes, if◌then◌else◌, All, All-append, arith,
}
use my_power_mirror.CString.{str_eq}
use my_power_mirror.CString.Laws.{str_eq_iff}
use my_power_mirror.HttpMessage.HeaderMap.{Headers, str_lt, insert_header, find_header}

str_lt_asymm : (a b : Bytes) → str_lt a b ≡ true → str_lt b a ≡ false
unfolding str_lt
str_lt_asymm [] [] h = refl
str_lt_asymm [] (y ∷ b) h = refl
str_lt_asymm (x ∷ a) [] h = cc
str_lt_asymm (x ∷ a) (y ∷ b) h = ground (arith, str_lt_asymm a b)

str_lt_irrefl : (a : Bytes) → str_lt a a ≡ false
unfolding str_lt
str_lt_irrefl [] = refl
str_lt_irrefl (x ∷ a) = ground (arith, str_lt_irrefl a)

str_lt_total : (a b : Bytes) → str_lt a b ≡ false → str_lt b a ≡ false → a ≡ b
unfolding str_lt
str_lt_total [] [] h k = refl
str_lt_total [] (y ∷ b) h k = cc
str_lt_total (x ∷ a) [] h k = cc
str_lt_total (x ∷ a) (y ∷ b) h k = ground (arith, str_lt_total a b)

-- Every key of `m` stands in front of `k`.
abbrev pub AllBelow : Headers → Bytes → Type 0
AllBelow m k = All (λ entry. str_lt entry.0 k ≡ true) m

-- The keys rise along the list.
abbrev pub IsSorted : Headers → Type 0
IsSorted [] = Unit
IsSorted ((k, v) ∷ m) = All (λ entry. str_lt k entry.0 ≡ true) m × IsSorted m

insert_header_last :
    (k v : Bytes) (m : Headers) → AllBelow m k → insert_header k v m ≡ m ++ (k, v) ∷ []
unfolding insert_header
insert_header_last k v [] h = refl
insert_header_last k v ((j, w) ∷ m) h = rw (str_lt_asymm j k h.0, h.0, insert_header_last k v m h.1)

abbrev pub insert_all : Headers → Headers → Headers
insert_all [] m = m
insert_all ((k, v) ∷ hs) m = insert_all hs (insert_header k v m)

-- Every key of `m` stands in front of every key of `hs`.
abbrev Precedes : Headers → Headers → Type 0
Precedes m [] = Unit
Precedes m ((k, v) ∷ hs) = AllBelow m k × Precedes m hs

Precedes-snoc :
    (m hs : Headers) (k v : Bytes)
    → Precedes m hs
    → All (λ entry. str_lt k entry.0 ≡ true) hs
    → Precedes (m ++ (k, v) ∷ []) hs
Precedes-snoc m [] k v p h = tt
Precedes-snoc m ((j, w) ∷ hs) k v p h = (
  All-append (λ entry. str_lt entry.0 j ≡ true) m ((k, v) ∷ []) p.0 (h.0, tt),
  Precedes-snoc m hs k v p.1 h.1,
)

insert_all-append : (hs m : Headers) → Precedes m hs → IsSorted hs → insert_all hs m ≡ m ++ hs
insert_all-append [] m p s = sym (append-nil m)
insert_all-append ((k, v) ∷ hs) m p s = rw (insert_header_last k v m p.0) (
    insert_all-append hs (m ++ (k, v) ∷ []) (Precedes-snoc m hs k v p.1 s.0) s.1
    ∙ append_assoc m ((k, v) ∷ []) hs)

Precedes-nil : (hs : Headers) → Precedes [] hs
Precedes-nil [] = tt
Precedes-nil ((k, v) ∷ hs) = (tt, Precedes-nil hs)

-- Insertion one by one, in the order of the keys, gives the same map.
pub insert_all-IsSorted : (hs : Headers) → IsSorted hs → insert_all hs [] ≡ hs
insert_all-IsSorted hs s = insert_all-append hs [] (Precedes-nil hs) s

-- `addHeader` keeps the map in the order of its keys, with no key twice.
AllAbove-insert :
    (j k v : Bytes) (m : Headers)
    → str_lt j k ≡ true
    → All (λ entry. str_lt j entry.0 ≡ true) m
    → All (λ entry. str_lt j entry.0 ≡ true) (insert_header k v m)
unfolding insert_header
AllAbove-insert j k v [] h a = (h, tt)
AllAbove-insert j k v ((i, w) ∷ m) h a = ground (arith, AllAbove-insert j k v m h a.1)

str_lt_trans : (a b c : Bytes) → str_lt a b ≡ true → str_lt b c ≡ true → str_lt a c ≡ true
unfolding str_lt
str_lt_trans [] [] c h k = cc
str_lt_trans [] (y ∷ b) [] h k = cc
str_lt_trans [] (y ∷ b) (z ∷ c) h k = refl
str_lt_trans (x ∷ a) [] c h k = cc
str_lt_trans (x ∷ a) (y ∷ b) [] h k = cc
str_lt_trans (x ∷ a) (y ∷ b) (z ∷ c) h k = ground (arith, str_lt_trans a b c)

AllAbove_trans :
    (k j : Bytes) (m : Headers)
    → str_lt k j ≡ true
    → All (λ entry. str_lt j entry.0 ≡ true) m
    → All (λ entry. str_lt k entry.0 ≡ true) m
AllAbove_trans k j [] h a = tt
AllAbove_trans k j ((i, w) ∷ m) h a = (str_lt_trans k j i h a.0, AllAbove_trans k j m h a.1)

insert_header-IsSorted : (k v : Bytes) (m : Headers) → IsSorted m → IsSorted (insert_header k v m)
unfolding insert_header
insert_header-IsSorted k v [] s = (tt, tt)
insert_header-IsSorted k v ((j, w) ∷ m) s =
    ground (arith, AllAbove_trans k j m, AllAbove-insert j k v m, insert_header-IsSorted k v m s.1)

AllAbove-find :
    (k : Bytes) (m : Headers) → All (λ entry. str_lt k entry.0 ≡ true) m → find_header k m ≡ none
unfolding find_header
AllAbove-find k [] a = refl
AllAbove-find k ((j, w) ∷ m) a =
    ground (arith, str_eq_iff j k, str_lt_irrefl k, AllAbove-find k m a.1)

-- What `insert` leaves for a key, from what was there.
abbrev pub kept_or : Bytes → Option Bytes → Option Bytes
kept_or v none = some v
kept_or v (some w) = some w

find-insert :
    (k v j : Bytes) (m : Headers)
    → IsSorted m
    → find_header j (insert_header k v m)
      ≡ (if str_eq j k then kept_or v (find_header k m) else find_header j m)
unfolding find_header insert_header
find-insert k v j [] s = ground (arith, str_eq_iff j k, str_eq_iff k j)
find-insert k v j ((i, w) ∷ m) s = ground (
  arith,
  str_eq_iff j k,
  str_eq_iff k j,
  str_eq_iff i j,
  str_eq_iff i k,
  str_lt_irrefl k,
  str_lt_total k i,
  AllAbove-find k m,
  AllAbove_trans k i m,
  find-insert k v j m s.1,
)

-- A header that is in the map already keeps its value, a new one is found with the value given,
-- and every other key is found as before; the map stays in the order of its keys.
pub find_header-insert_header :
    (k v j : Bytes) (m : Headers)
    → IsSorted m
    → (find_header j (insert_header k v m)
        ≡ (if str_eq j k then kept_or v (find_header k m) else find_header j m))
      × IsSorted (insert_header k v m)
find_header-insert_header k v j m s = (find-insert k v j m s, insert_header-IsSorted k v m s)
