-- ===== src/Descriptors.antt =====
-- The descriptor sets of `select`, by their members.
use my_power_mirror.Base.{
  ℕ, ◌<◌, ◌≡◌, refl, Bool, false, ◌||◌, List, [], ◌∷◌, ltb, ltb→lt, ◌==◌, if◌then◌else◌, All,
  Bool-cases, inl, inr, Outcome, ok, fail, undefined_behavior, Ensures, gives, fails, Ensures-if,
}

-- FD_SETSIZE
abbrev pub fd_set_size : ℕ
fd_set_size = 1024

-- FD_ISSET, FD_SET and FD_CLR.
abbrev pub fd_isset : ℕ → List ℕ → Bool
fd_isset fd [] = false
fd_isset fd (x ∷ set) = x == fd || fd_isset fd set

abbrev pub fd_set : ℕ → List ℕ → Outcome (List ℕ)
fd_set fd set = if ltb fd fd_set_size then ok (fd ∷ set) else fail undefined_behavior

abbrev pub fd_clr : ℕ → List ℕ → List ℕ
fd_clr fd [] = []
fd_clr fd (x ∷ set) = let rest = fd_clr fd set in if x == fd then rest else x ∷ rest

pub fd_set-cons :
    (fd : ℕ) (set : List ℕ) → Ensures (λ set'. (set' ≡ fd ∷ set) × (fd < 1024)) (fd_set fd set)
fd_set-cons fd set =
    Ensures-if (ltb fd fd_set_size) (λ small. gives (refl, ltb→lt fd fd_set_size small))
      (λ _. fails)

pub fd_clr-All : (P : ℕ → Type 0) (fd : ℕ) (set : List ℕ) → All P set → All P (fd_clr fd set)
fd_clr-All P fd [] h = tt
fd_clr-All P fd (x ∷ set) h = elim (Bool-cases (x == fd)) [
  | inl e ↦ rw e (fd_clr-All P fd set h.1)
  | inr e ↦ rw e (h.0, fd_clr-All P fd set h.1)
]
