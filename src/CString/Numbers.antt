-- ===== src/CString/Numbers.antt =====
-- Numbers in text: `atoi`, and the decimal digits that a stream prints.
use my_power_mirror.Base.{
  ℕ, zero, suc, ◌+◌, ◌-◌, ◌*◌, ◌/◌, ◌%◌, Bool, ◌&&◌, ◌||◌, [], ◌∷◌, Bytes, ltb, leb, ◌==◌,
  if◌then◌else◌, Outcome, ok, fail, undefined_behavior, Ends, returns, undefined, Ends-if,
}

abbrev pub is_digit : ℕ → Bool
is_digit c = leb b'0' c && leb c b'9'

abbrev is_space : ℕ → Bool
is_space c = c == 32 || (leb 9 c && leb c 13)

skip_spaces : Bytes → Bytes
skip_spaces [] = []
skip_spaces (c ∷ s) = if is_space c then skip_spaces s else c ∷ s

-- The value of the digits at the front, behind those that made `acc`.
unfoldable pub digits_value : ℕ → Bytes → ℕ
digits_value acc [] = acc
digits_value acc (c ∷ s) =
    let more = digits_value (acc * 10 + (c - b'0')) s in if is_digit c then more else acc

-- An `int` as its 32-bit pattern; a value that it cannot hold is undefined behaviour.
positive : ℕ → Outcome ℕ
positive n = if ltb n 2147483648 then ok n else fail undefined_behavior

negative : ℕ → Outcome ℕ
negative n =
    if leb n 2147483648 then ok ((4294967296 - n) % 4294967296) else fail undefined_behavior

signed_value : Bytes → Outcome ℕ
unfolding positive negative
signed_value [] = ok 0
signed_value (c ∷ s) =
    if c == b'-'
    then negative (digits_value 0 s)
    else if c == b'+'
    then positive (digits_value 0 s)
    else positive (digits_value 0 (c ∷ s))

unfoldable pub atoi : Bytes → Outcome ℕ
unfolding signed_value skip_spaces
atoi s = signed_value (skip_spaces s)

positive-Ends : (n : ℕ) → Ends (λ _. Unit {0}) (positive n)
unfolding positive
positive-Ends n = Ends-if (ltb n 2147483648) (λ _. returns tt) (λ _. undefined)

negative-Ends : (n : ℕ) → Ends (λ _. Unit {0}) (negative n)
unfolding negative
negative-Ends n = Ends-if (leb n 2147483648) (λ _. returns tt) (λ _. undefined)

signed_value-Ends : (s : Bytes) → Ends (λ _. Unit {0}) (signed_value s)
unfolding signed_value
signed_value-Ends [] = returns tt
signed_value-Ends (c ∷ s) =
    Ends-if (c == b'-') (λ _. negative-Ends (digits_value 0 s))
      (λ _.
        Ends-if (c == b'+') (λ _. positive-Ends (digits_value 0 s))
          (λ _. positive-Ends (digits_value 0 (c ∷ s))))

pub atoi-Ends : (s : Bytes) → Ends (λ _. Unit {0}) (atoi s)
unfolding atoi
atoi-Ends s = signed_value-Ends (skip_spaces s)

-- The digits of n in front of `rest`; n + 1 rounds are enough.
unfoldable pub digits : ℕ → ℕ → Bytes → Bytes
digits zero n rest = rest
digits (suc fuel) n rest =
    let more = digits fuel (n / 10) ((b'0' + n % 10) ∷ rest) in
    if ltb n 10 then (b'0' + n) ∷ rest else more

unfoldable pub decimal : ℕ → Bytes
decimal n = digits (n + 1) n []
