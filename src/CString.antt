-- ===== src/CString.antt =====
-- The C library's string functions that util.c, http.c, server.c and client.c call. A C string is
-- the bytes before its NUL.
pub mod Digits
pub mod Laws
pub mod Numbers
use my_power_mirror.Base.{
  ℕ, zero, suc, ◌-◌, Bool, true, false, ◌&&◌, Option, none, some, List, [], ◌∷◌, ◌++◌, Bytes, ◌==◌,
  if◌then◌else◌, length, take, replicate, Outcome, ok, fail, undefined_behavior,
}

-- A `char *` variable: never assigned, NULL, or the address of a string.
pub data Pointer : Type 0 where
  unset null : Pointer
  str : Bytes → Pointer

-- Reading through a pointer.
abbrev pub deref : Pointer → Outcome Bytes
deref unset = fail undefined_behavior
deref null = fail undefined_behavior
deref (str s) = ok s

-- `strcmp(a, b) == 0`
unfoldable pub str_eq : Bytes → Bytes → Bool
str_eq [] [] = true
str_eq (x ∷ a) (y ∷ b) = x == y && str_eq a b
str_eq _ _ = false

-- `strncmp(a, b, n) == 0`; behind its last byte a string has a NUL.
unfoldable pub strn_eq : ℕ → Bytes → Bytes → Bool
strn_eq zero a b = true
strn_eq (suc n) [] [] = true
strn_eq (suc n) [] (y ∷ b) = y == 0
strn_eq (suc n) (x ∷ a) [] = x == 0
strn_eq (suc n) (x ∷ a) (y ∷ b) =
    let rest = strn_eq n a b in if x == y then (if x == 0 then true else rest) else false

-- The n bytes that `strncpy(dst, s, n)` writes.
abbrev pub strncpy : ℕ → Bytes → Bytes
strncpy n s = take n s ++ replicate (n - length s) 0

-- What `strtok` steps over first, and what is left then.
unfoldable pub leading : ℕ → Bytes → Bytes
leading d [] = []
leading d (x ∷ s) = if x == d then x ∷ leading d s else []

unfoldable pub skip : ℕ → Bytes → Bytes
skip d [] = []
skip d (x ∷ s) = if x == d then skip d s else x ∷ s

-- The bytes up to the delimiter, and those behind it.
unfoldable pub before : ℕ → Bytes → Bytes
before d [] = []
before d (x ∷ s) = if x == d then [] else x ∷ before d s

unfoldable pub behind : ℕ → Bytes → Bytes
behind d [] = []
behind d (x ∷ s) = if x == d then s else behind d s

abbrev token_at : ℕ → Bytes → Option (Bytes × Bytes)
token_at d [] = none
token_at d (x ∷ s) = some (before d (x ∷ s), behind d (x ∷ s))

-- One call of `strtok` with the delimiter d: the token, and the bytes where the next call goes on.
unfoldable pub strtok : ℕ → Bytes → Option (Bytes × Bytes)
unfolding skip before behind
strtok d s = token_at d (skip d s)
