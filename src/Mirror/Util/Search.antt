-- ===== src/Mirror/Util/Search.antt =====
-- `countChar` and `indexOfStrFirst` against the places where the byte stands.
use my_power_mirror.Base.{
  ℕ, suc, ◌+◌, ◌≡◌, ◌⊎◌, inl, inr, refl, ap, ◌∙◌, [], ◌∷◌, ◌++◌, Bytes, ◌==◌, length, arith,
  Bool-cases, ==→eq, ==→ne, ok,
}
use my_power_mirror.CString.{str}
use my_power_mirror.CString.Laws.{Lacks}
use my_power_mirror.Mirror.Util.{
  at, minus_one, count_from, count_char, index_from, index_of_str_first,
}

-- The byte does not occur, or the string splits at its first occurrence.
pub data Occurs (c : ℕ) (s : Bytes) : Type 0 where
  never : Lacks c s → Occurs c s
  first : (pre post : Bytes) → s ≡ pre ++ c ∷ post → Lacks c pre → Occurs c s

occurs : (c : ℕ) (s : Bytes) → Occurs c s
occurs c [] = never tt
occurs c (x ∷ s) = elim (Bool-cases (x == c)) [
  | inl hit ↦ first [] s (ap (λ y. y ∷ s) (==→eq x c hit)) tt
  | inr miss ↦ elim (occurs c s) [
    | never h ↦ never (==→ne x c miss, h)
    | first pre post e h ↦ first (x ∷ pre) post (ap (◌∷◌ x) e) (==→ne x c miss, h)
  ]
]

pub index_from-never : (s : Bytes) (c i : ℕ) → Lacks c s → index_from s c i ≡ minus_one
unfolding index_from
index_from-never [] c i h = refl
index_from-never (x ∷ s) c i h = ground (arith, index_from-never s c (i + 1) h.1)

index_from-first :
    (pre post : Bytes) (c i : ℕ)
    → Lacks c pre
    → index_from (pre ++ c ∷ post) c i ≡ at (i + length pre)
unfolding index_from
index_from-first [] post c i h = ground arith
index_from-first (x ∷ pre) post c i h = ground (arith, index_from-first pre post c (i + 1) h.1)

count_from-Lacks :
    (pre s : Bytes) (c n : ℕ) → Lacks c pre → count_from (pre ++ s) c n ≡ count_from s c n
unfolding count_from
count_from-Lacks [] s c n h = refl
count_from-Lacks (x ∷ pre) s c n h = ground (arith, count_from-Lacks pre s c n h.1)

count_from-never : (s : Bytes) (c : ℕ) → Lacks c s → count_from s c 0 ≡ 0
unfolding count_from
count_from-never [] c h = refl
count_from-never (x ∷ s) c h = ground (arith, count_from-never s c h.1)

count_from-add : (s : Bytes) (c n k : ℕ) → count_from s c (n + k) ≡ n + count_from s c k
unfolding count_from
count_from-add [] c n k = refl
count_from-add (x ∷ s) c n k = ground (arith, count_from-add s c n k, count_from-add s c n (k + 1))

count_from_first :
    (pre post : Bytes) (c : ℕ)
    → Lacks c pre
    → count_from (pre ++ c ∷ post) c 0 ≡ suc (count_from post c 0)
unfolding count_from
count_from_first pre post c h =
    ground (arith, count_from-Lacks pre (c ∷ post) c 0 h, count_from-add post c 1 0)

-- For every string and byte: either the byte does not occur, `indexOfStrFirst` gives -1 and
-- `countChar` 0; or the string splits at its first occurrence, the index is the length of what
-- stands before that, and the count is one more than the count behind it.
index_of_str_first-count_char :
    (s : Bytes) (c : ℕ)
    → (Lacks c s × (index_of_str_first (str s) c ≡ ok minus_one) × (count_char (str s) c ≡ ok 0))
      ⊎ ((pre : Bytes) × (post : Bytes) × (n : ℕ) × (s ≡ pre ++ c ∷ post)
          × Lacks c pre
          × (index_of_str_first (str s) c ≡ ok (at (length pre)))
          × (count_char (str post) c ≡ ok n)
          × (count_char (str s) c ≡ ok (n + 1)))
index_of_str_first-count_char s c = elim (occurs c s) [
  | never h ↦ inl (
    h,
    unfold index_of_str_first in ap ok (index_from-never s c 0 h),
    unfold count_char in ap ok (count_from-never s c h),
  )
  | first pre post e h ↦ inr (
    pre,
    post,
    count_from post c 0,
    e,
    h,
    rw e (
        unfold index_of_str_first in ap ok (index_from-first pre post c 0 h ∙ ap at (omega arith))),
    unfold count_char in refl,
    rw e (unfold count_char in ap ok (count_from_first pre post c h ∙ omega arith)),
  )
]
