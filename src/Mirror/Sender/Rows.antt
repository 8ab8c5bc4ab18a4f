-- ===== src/Mirror/Sender/Rows.antt =====
-- The rows of strLine as `main` has them: on the stack, with no initial value.
use my_power_mirror.Base.{
  ℕ, zero, suc, ◌-◌, ◌≤◌, ◌<◌, ◌≡◌, refl, ap, none, some, List, [], ◌∷◌, ◌++◌, map, replicate,
  Bytes, length, take, length-take, arith, ne→==, Outcome, ok, fail, undefined_behavior, ◌>>=◌,
}
use my_power_mirror.CString.Laws.{Lacks}
use my_power_mirror.Mirror.Sender.{
  World, Row, str_line_size, copy_cells, row_text, update_row, row_at, load_line, load_lines,
  send_main,
}

-- char strLine[STRLINESIZE][STRLINESIZE], of which no cell was written yet.
abbrev pub unset_rows : List Row
unset_rows = replicate str_line_size (replicate str_line_size none)

-- A row of n cells of which the first were written with these bytes.
abbrev pub row_of : ℕ → Bytes → Row
row_of n s = map some s ++ replicate (n - length s) none

copy_cells-unset :
    (n : ℕ) (s : Bytes) → length s ≤ n → copy_cells s (replicate n none) ≡ ok (row_of n s)
unfolding copy_cells
copy_cells-unset n [] h = ap (λ m. ok (replicate m none)) (omega arith)
copy_cells-unset zero (x ∷ s) h = absurd (omega arith)
copy_cells-unset (suc n) (x ∷ s) h =
    rw (copy_cells-unset n s (omega arith))
      (ap (λ m. ok (some x ∷ map some s ++ replicate m none)) (omega arith))

-- Reading runs over what was written, to the first cell that was not.
row_text-unset :
    (s : Bytes) (m : ℕ)
    → Lacks 0 s
    → row_text (map some s ++ replicate m none) ≡ fail undefined_behavior
unfolding row_text
row_text-unset [] zero l = refl
row_text-unset [] (suc m) l = refl
row_text-unset (x ∷ s) m l = rw (ne→== x 0 l.0, row_text-unset s m l.1) refl

take-Lacks : (n : ℕ) (s : Bytes) → Lacks 0 s → Lacks 0 (take n s)
take-Lacks zero s l = tt
take-Lacks (suc n) [] l = tt
take-Lacks (suc n) (x ∷ s) l = (l.0, take-Lacks n s l.1)

update_row-first :
    (f : Row → Outcome Row) (row row' : Row) (rows : List Row)
    → f row ≡ ok row'
    → update_row f 0 (row ∷ rows) ≡ ok (row' ∷ rows)
unfolding update_row
update_row-first f row row' rows e = rw e

-- On the rows as `main` declares them, with a first line of 1 to 1023 bytes, which `fgets` gives,
-- and no NUL in it: the copy of the line without its last byte is inside its row, and makes no
-- other change; reading that row back is undefined behaviour, since the copy has no NUL behind it
-- and the next cell was never written; so that nothing is uploaded, whatever the environment, the
-- further lines and the choices.
pub send_main-unset :
    (w : World) (s : Bytes) (more : List Bytes) (choices : List ℕ)
    → 0 < length s
    → length s < 1024
    → Lacks 0 s
    → (rows : List Row) × (update_row (copy_cells (take (length s - 1) s)) 0 unset_rows ≡ ok rows)
      × (rows ≡ row_of 1024 (take (length s - 1) s) ∷ replicate 1023 (replicate 1024 none))
      × (row_at 0 rows >>= row_text ≡ fail undefined_behavior)
      × (send_main w unset_rows (some (s ∷ more)) choices ≡ fail undefined_behavior)
unfolding send_main load_lines load_line row_at
send_main-unset w s more choices some_byte fits l =
    let line = take (length s - 1) s in
    let short : length line ≤ 1024 = omega (arith, length-take (length s - 1) s) in
    let rest : List Row = replicate 1023 (replicate 1024 none) in
    let copied : update_row (copy_cells line) 0 unset_rows ≡ ok (row_of 1024 line ∷ rest) =
      update_row-first (copy_cells line) (replicate 1024 none) (row_of 1024 line) rest
        (copy_cells-unset 1024 line short) in
    let unread = row_text-unset line (1024 - length line) (take-Lacks (length s - 1) s l) in
    (
      row_of 1024 line ∷ rest,
      copied,
      refl,
      unread,
      rw (ne→== (length s) 0 (omega arith), copied, unread) refl,
    )
