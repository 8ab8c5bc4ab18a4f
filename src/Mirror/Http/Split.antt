-- ===== src/Mirror/Http/Split.antt =====
-- `parseRequest` on lines that a blank line ends: the lines are found, and there is room for 20.
use my_power_mirror.Base.{
  ℕ, zero, suc, ◌+◌, ◌≤◌, ◌<◌, ◌≡◌, ◌≢◌, refl, false, some, List, [], ◌∷◌, ◌++◌, append_assoc,
  Bytes, leb, if◌then◌else◌, length, length-append, All, arith, ok, fail, undefined_behavior,
}
use my_power_mirror.CString.{str, strtok, before, behind}
use my_power_mirror.CString.Laws.{Lacks, strtok-append}
use my_power_mirror.Mirror.Util.{at, index_from, index_of_str_first}
use my_power_mirror.Mirror.Http.{line_max, is_start, collect, parse_lines, parse_request}

-- A line as `strtok` gives it: no newline in it, and no carriage return at its start.
abbrev pub IsLine : Bytes → Type 0
IsLine [] = ⊥
IsLine (x ∷ l) = (x ≢ b'\r') × Lacks b'\n' (x ∷ l)

abbrev pub unlines : List Bytes → Bytes → Bytes
unlines [] rest = rest
unlines (l ∷ ls) rest = l ++ b'\n' ∷ unlines ls rest

strtok-line :
    (l : Bytes) (rest : Bytes) → IsLine l → strtok b'\n' (l ++ b'\n' ∷ rest) ≡ some (l, rest)
strtok-line [] rest h = absurd h
strtok-line (x ∷ l) rest h = strtok-append b'\n' x l rest h.1

is_start-later : (l : Bytes) (c i : ℕ) → is_start (index_from l c (suc i)) ≡ false
unfolding index_from
is_start-later [] c i = refl
is_start-later (x ∷ l) c i = ground (arith, is_start-later l c (suc i))

is_start-line : (l : Bytes) → IsLine l → is_start (index_from l b'\r' 0) ≡ false
unfolding index_from
is_start-line [] h = absurd h
is_start-line (x ∷ l) h = ground (arith, is_start-later l b'\r' 0)

index-eq : (s : Bytes) (c : ℕ) → index_of_str_first (str s) c ≡ ok (index_from s c 0)
unfolding index_of_str_first
index-eq s c = refl

strtok_blank :
    (body : Bytes) → (t : Bytes) × (r : Bytes) × (strtok b'\n' (b'\r' ∷ body) ≡ some (b'\r' ∷ t, r))
unfolding strtok
strtok_blank body = (before b'\n' body, behind b'\n' body, refl)

index_blank : (t : Bytes) → index_of_str_first (str (b'\r' ∷ t)) b'\r' ≡ ok (at 0)
unfolding index_of_str_first
index_blank t = refl

-- The loop over lines that a blank line ends.
collect-unlines :
    (fuel : ℕ) (lines : List Bytes) (l : Bytes) (ls : List Bytes) (body : Bytes)
    → length ls < fuel
    → All IsLine ls
    → collect fuel lines (some (l, unlines ls (b'\r' ∷ body))) ≡ (
        if leb (length lines + suc (length ls)) line_max
        then ok (lines ++ l ∷ ls)
        else fail undefined_behavior)
unfolding collect
collect-unlines zero lines l ls body h w = absurd (omega arith)
collect-unlines (suc fuel) lines l [] body h w =
    let (t, r, e) = strtok_blank body in rw (e, index_blank t) (ground arith)
collect-unlines (suc fuel) lines l (m ∷ ls) body h w =
    rw
      (
        strtok-line m (unlines ls (b'\r' ∷ body)) w.0,
        index-eq m b'\r',
        is_start-line m w.0,
        collect-unlines fuel (lines ++ l ∷ []) m ls body (omega arith) w.1,
        append_assoc lines (l ∷ []) (m ∷ ls),
        length-append lines (l ∷ []),
      )
      (ground arith)

length-unlines : (ls : List Bytes) (rest : Bytes) → length ls ≤ length (unlines ls rest)
length-unlines [] rest = omega arith
length-unlines (l ∷ ls) rest =
    omega (arith, length-append l (b'\n' ∷ unlines ls rest), length-unlines ls rest)

-- A request whose lines are ended by newlines, with a blank line behind the last: at most 20 lines
-- are parsed, each as it stands, and the body is not looked at; with more lines `lineHead` is
-- written past its end.
pub parse_request-unlines :
    (l : Bytes) (ls : List Bytes) (body : Bytes)
    → All IsLine (l ∷ ls)
    → parse_request (unlines (l ∷ ls) (b'\r' ∷ body))
      ≡ (if leb (length (l ∷ ls)) 20 then parse_lines (l ∷ ls) else fail undefined_behavior)
unfolding parse_request
parse_request-unlines l ls body w =
    let tail = unlines ls (b'\r' ∷ body) in
    rw
      (
        strtok-line l tail w.0,
        collect-unlines (length (l ++ b'\n' ∷ tail) + 1) [] l ls body
            (omega (arith, length-append l (b'\n' ∷ tail), length-unlines ls (b'\r' ∷ body))) w.1,
      )
      (ground arith)
