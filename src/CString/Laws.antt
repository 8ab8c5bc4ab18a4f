-- ===== src/CString/Laws.antt =====
-- Laws of the string functions.
use my_power_mirror.Base.{
  ℕ, zero, suc, ◌≤◌, ◌<◌, ◌≡◌, ◌≢◌, refl, ◌↔◌, true, false, none, some, [], ◌∷◌, ◌++◌, Bytes,
  append-nil, length, take, replicate, All, arith,
}
use my_power_mirror.CString.{str_eq, strn_eq, skip, before, behind, leading, strtok, token_at}

pub str_eq_iff : (a b : Bytes) → (str_eq a b ≡ true) ↔ (a ≡ b)
unfolding str_eq
str_eq_iff (x ∷ a) (y ∷ b) = ground (arith, str_eq_iff a b)
str_eq_iff _ _ = ground arith

pub str_eq_ne : (a b : Bytes) → a ≢ b → str_eq a b ≡ false
str_eq_ne a b h = ground (arith, str_eq_iff a b)

-- A string without the byte.
abbrev pub Lacks : ℕ → Bytes → Type 0
Lacks d = All (λ x. x ≢ d)

pub length-skip : (d : ℕ) (s : Bytes) → length (skip d s) ≤ length s
unfolding skip
length-skip d [] = omega arith
length-skip d (x ∷ s) = ground (arith, length-skip d s)

pub length-behind : (d : ℕ) (s : Bytes) → length (behind d s) ≤ length s
unfolding behind
length-behind d [] = omega arith
length-behind d (x ∷ s) = ground (arith, length-behind d s)

token_at_shrinks :
    (d n : ℕ) (u : Bytes) {t r : Bytes} → length u ≤ n → token_at d u ≡ some (t, r) → length r < n
unfolding behind
token_at_shrinks d n [] h e = cc
token_at_shrinks d n (x ∷ u) h e = ground (arith, length-behind d u)

-- A token uses up at least one byte.
pub strtok_shrinks :
    (d : ℕ) (s : Bytes) {t r : Bytes} → strtok d s ≡ some (t, r) → length r < length s
unfolding strtok
strtok_shrinks d s e = token_at_shrinks d (length s) (skip d s) (length-skip d s) e

pub before-Lacks : (d : ℕ) (t r : Bytes) → Lacks d t → before d (t ++ d ∷ r) ≡ t
unfolding before
before-Lacks d [] r h = ground arith
before-Lacks d (x ∷ t) r h = ground (arith, before-Lacks d t r h.1)

pub behind-Lacks : (d : ℕ) (t r : Bytes) → Lacks d t → behind d (t ++ d ∷ r) ≡ r
unfolding behind
behind-Lacks d [] r h = ground arith
behind-Lacks d (x ∷ t) r h = ground (arith, behind-Lacks d t r h.1)

pub before-end : (d : ℕ) (t : Bytes) → Lacks d t → before d t ≡ t
unfolding before
before-end d [] h = refl
before-end d (x ∷ t) h = ground (arith, before-end d t h.1)

behind-end : (d : ℕ) (t : Bytes) → Lacks d t → behind d t ≡ []
unfolding behind
behind-end d [] h = refl
behind-end d (x ∷ t) h = ground (arith, behind-end d t h.1)

-- A token that a delimiter ends.
pub strtok-append :
    (d : ℕ) (x : ℕ) (t r : Bytes) → Lacks d (x ∷ t) → strtok d (x ∷ (t ++ d ∷ r)) ≡ some (x ∷ t, r)
unfolding strtok
strtok-append d x t r h = ground (arith, before-Lacks d (x ∷ t) r h, behind-Lacks d (x ∷ t) r h)

-- A token that the end of the string ends.
strtok_last : (d : ℕ) (x : ℕ) (t : Bytes) → Lacks d (x ∷ t) → strtok d (x ∷ t) ≡ some (x ∷ t, [])
unfolding strtok
strtok_last d x t h = ground (arith, before-end d (x ∷ t) h, behind-end d (x ∷ t) h)

pub leading-Lacks : (d : ℕ) (x : ℕ) (t : Bytes) → x ≢ d → leading d (x ∷ t) ≡ []
unfolding leading
leading-Lacks d x t h = ground arith

-- `strncmp` over n bytes reads n bytes.
pub strn_eq-take : (n : ℕ) (a b : Bytes) → strn_eq n (take n a) b ≡ strn_eq n a b
unfolding strn_eq
strn_eq-take zero a b = refl
strn_eq-take (suc n) [] b = refl
strn_eq-take (suc n) (x ∷ a) [] = refl
strn_eq-take (suc n) (x ∷ a) (y ∷ b) = ground (arith, strn_eq-take n a b)

-- NULs behind a string change no comparison.
strn_eq-replicate_nil : (n k : ℕ) (b : Bytes) → strn_eq n (replicate k 0) b ≡ strn_eq n [] b
unfolding strn_eq
strn_eq-replicate_nil zero k b = refl
strn_eq-replicate_nil (suc n) zero b = refl
strn_eq-replicate_nil (suc n) (suc k) [] = refl
strn_eq-replicate_nil (suc n) (suc k) (y ∷ b) = ground arith

pub strn_eq-replicate : (n k : ℕ) (a b : Bytes) → strn_eq n (a ++ replicate k 0) b ≡ strn_eq n a b
unfolding strn_eq
strn_eq-replicate n k [] b = strn_eq-replicate_nil n k b
strn_eq-replicate zero k (x ∷ a) b = refl
strn_eq-replicate (suc n) k (x ∷ a) [] = refl
strn_eq-replicate (suc n) k (x ∷ a) (y ∷ b) = ground (arith, strn_eq-replicate n k a b)

pub All-skip : (P : ℕ → Type 0) (d : ℕ) (s : Bytes) → All P s → All P (skip d s)
unfolding skip
All-skip P d [] h = tt
All-skip P d (x ∷ s) h = ground (arith, All-skip P d s h.1)

pub All-before : (P : ℕ → Type 0) (d : ℕ) (s : Bytes) → All P s → All P (before d s)
unfolding before
All-before P d [] h = tt
All-before P d (x ∷ s) h = ground (arith, All-before P d s h.1)

pub All-behind : (P : ℕ → Type 0) (d : ℕ) (s : Bytes) → All P s → All P (behind d s)
unfolding behind
All-behind P d [] h = tt
All-behind P d (x ∷ s) h = ground (arith, All-behind P d s h.1)

All-token_at :
    (P : ℕ → Type 0) (d : ℕ) (u : Bytes) {t r : Bytes}
    → All P u
    → token_at d u ≡ some (t, r)
    → All P t × All P r
All-token_at P d [] h e = cc
All-token_at P d (x ∷ u) {t} {r} h e =
    let t_eq : before d (x ∷ u) ≡ t = cc in
    let r_eq : behind d (x ∷ u) ≡ r = cc in
    (rw t_eq at (All-before P d (x ∷ u) h), rw r_eq at (All-behind P d (x ∷ u) h))

-- What holds of every byte of a string holds of those of the token and of the rest.
pub All-strtok :
    (P : ℕ → Type 0) (d : ℕ) (s : Bytes) {t r : Bytes}
    → All P s
    → strtok d s ≡ some (t, r)
    → All P t × All P r
unfolding strtok
All-strtok P d s h e = All-token_at P d (skip d s) (All-skip P d s h) e

-- The string ends here, or the delimiter stands here.
abbrev pub EndsToken : ℕ → Bytes → Type 0
EndsToken d [] = Unit
EndsToken d (x ∷ s) = x ≡ d

pub strtok-EndsToken :
    (d x : ℕ) (t tail : Bytes)
    → Lacks d (x ∷ t)
    → EndsToken d tail
    → (r : Bytes) × (strtok d (x ∷ (t ++ tail)) ≡ some (x ∷ t, r))
strtok-EndsToken d x t [] h e = ([], rw append-nil (strtok_last d x t h))
strtok-EndsToken d x t (y ∷ r) h e = (r, rw e (strtok-append d x t r h))

skip-All : (d : ℕ) (s : Bytes) → All (λ x. x ≡ d) s → skip d s ≡ []
unfolding skip
skip-All d [] h = refl
skip-All d (x ∷ s) h = ground (arith, skip-All d s h.1)

pub strtok-All : (d : ℕ) (s : Bytes) → All (λ x. x ≡ d) s → strtok d s ≡ none
unfolding strtok
strtok-All d s h = rw (skip-All d s h)
