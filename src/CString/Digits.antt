-- ===== src/CString/Digits.antt =====
-- The digits that a stream prints: which bytes they are, and how many.
use my_power_mirror.Base.{
  ℕ, zero, suc, ◌+◌, ◌/◌, ◌%◌, ◌≤◌, ◌<◌, [], ◌∷◌, Bytes, ltb, length, All, arith, Bool-cases, inl,
  inr,
}
use my_power_mirror.CString.Numbers.{decimal, digits}

-- The digits of a number are above every space and NUL.
pub digits-All :
    (fuel n : ℕ) (rest : Bytes) → All (λ c. 32 < c) rest → All (λ c. 32 < c) (digits fuel n rest)
unfolding digits
digits-All zero n rest h = h
digits-All (suc fuel) n rest h = elim (Bool-cases (ltb n 10)) [
  | inl e ↦ rw e (omega arith, h)
  | inr e ↦ rw e (digits-All fuel (n / 10) ((b'0' + n % 10) ∷ rest) (omega arith, h))
]

length-digits : (fuel n : ℕ) (rest : Bytes) → length (digits fuel n rest) ≤ fuel + length rest
unfolding digits
length-digits zero n rest = omega arith
length-digits (suc fuel) n rest = elim (Bool-cases (ltb n 10)) [
  | inl e ↦ rw e (omega arith)
  | inr e ↦ rw e (omega (arith, length-digits fuel (n / 10) ((b'0' + n % 10) ∷ rest)))
]

pub decimal-All : (n : ℕ) → All (λ c. 32 < c) (decimal n)
unfolding decimal
decimal-All n = digits-All (n + 1) n [] tt

-- No more digits than the number's value and one.
pub length-decimal : (n : ℕ) → length (decimal n) ≤ n + 1
unfolding decimal
length-decimal n = omega (arith, length-digits (n + 1) n [])
