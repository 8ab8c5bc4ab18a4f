-- ===== src/HttpMessage/Body.antt =====
-- `parseBody` by the announced length against what is left in the buffer.
use my_power_mirror.Base.{
  ℕ, zero, suc, ◌+◌, ◌≤◌, ◌<◌, ◌≡◌, ◌≢◌, refl, ap, subst, ◌∙◌, true, false, Option, none, some, [],
  ◌∷◌, ◌++◌, append_assoc, map, Bytes, codes, ◌==◌, length, length-append, length-replicate,
  replicate, drop, arith, ne→==, lt→ltb, le→ltb, u32, ok, fail, undefined_behavior,
}
use my_power_mirror.Base.{dec_lt}
use my_power_mirror.CString.Numbers.{atoi}
use my_power_mirror.ByteBuffer.{ByteBuffer, get_at, bytes_remaining}
use my_power_mirror.ByteBuffer.Compare.{get_at_inside}
use my_power_mirror.HttpMessage.{
  Message, Cells, store_cell, copy_body, read_body, parse_body, too_long,
}
use my_power_mirror.HttpMessage.HeaderMap.{get_header_value}
use my_power_mirror.HttpMessage.Lines.{Holds, length-Holds, size-Holds, drop_next}

store_cell-append :
    (front : Cells) (c : Option ℕ) (rest : Cells) (d x : ℕ)
    → length front ≡ d
    → store_cell (front ++ c ∷ rest) d x ≡ ok (front ++ some x ∷ rest)
unfolding store_cell
store_cell-append [] c rest zero x e = refl
store_cell-append [] c rest (suc d) x e = absurd (omega arith)
store_cell-append (y ∷ front) c rest zero x e = absurd (omega arith)
store_cell-append (y ∷ front) c rest (suc d) x e =
    rw (store_cell-append front c rest d x (omega arith))

length-snoc : (front : Cells) (c : Option ℕ) → length (front ++ c ∷ []) ≡ length front + 1
length-snoc front c = length-append front (c ∷ [])

-- The loop over the bytes left, with enough cells: each is stored, and the cells behind stay.
copy_body-fits :
    (bytes : Bytes) (i d : ℕ) (b : ByteBuffer) (front behind : Cells)
    → drop i b.buf ≡ bytes
    → i + length bytes ≡ length b.buf
    → length front ≡ d
    → copy_body (length bytes) i d b (front ++ (replicate (length bytes) none ++ behind))
      ≡ ok (front ++ (map some bytes ++ behind))
unfolding copy_body
copy_body-fits [] i d b front behind e h f = refl
copy_body-fits (x ∷ bytes) i d b front behind e h f =
    let next = drop_next i x b.buf bytes e in
    rw
      (
        get_at_inside b i x bytes e (omega arith),
        store_cell-append front none (replicate (length bytes) none ++ behind) d x f,
      )
      (subst
        (λ cells.
          copy_body (length bytes) (i + 1) (d + 1) b cells
          ≡ ok (front ++ some x ∷ (map some bytes ++ behind)))
        (append_assoc front (some x ∷ []) (replicate (length bytes) none ++ behind))
        (copy_body-fits bytes (i + 1) (d + 1) b (front ++ some x ∷ []) behind next (omega arith)
            (omega (arith, length-snoc front (some x)))
          ∙ ap ok (append_assoc front (some x ∷ []) (map some bytes ++ behind))))

store_cell-cases :
    (cells : Cells) (d x : ℕ)
    → d < length cells
    → (cells' : Cells) × (store_cell cells d x ≡ ok cells') × (length cells' ≡ length cells)
unfolding store_cell
store_cell-cases [] d x h = absurd (omega arith)
store_cell-cases (c ∷ cells) zero x h = (some x ∷ cells, refl, refl)
store_cell-cases (c ∷ cells) (suc d) x h =
    let (cells', e, f) = store_cell-cases cells d x (omega arith) in (c ∷ cells', rw e, ap suc f)

store_cell_outside :
    (cells : Cells) (d x : ℕ) → length cells ≤ d → store_cell cells d x ≡ fail undefined_behavior
unfolding store_cell
store_cell_outside [] d x h = refl
store_cell_outside (c ∷ cells) zero x h = absurd (omega arith)
store_cell_outside (c ∷ cells) (suc d) x h = rw (store_cell_outside cells d x (omega arith))

-- With fewer cells than rounds the loop writes past the last.
copy_body-overflow :
    (left i d : ℕ) (b : ByteBuffer) (cells : Cells)
    → d ≤ length cells
    → length cells < d + left
    → copy_body left i d b cells ≡ fail undefined_behavior
unfolding copy_body
copy_body-overflow zero i d b cells h k = absurd (omega arith)
copy_body-overflow (suc left) i d b cells h k = elim (dec_lt d (length cells)) [
  | yes inside ↦
      let (cells', e, f) = store_cell-cases cells d (get_at b i) inside in
      rw e (copy_body-overflow left (i + 1) (d + 1) b cells' (omega (arith, f)) (omega (arith, f)))
  | no outside ↦ rw (store_cell_outside cells d (get_at b i) (omega arith))
]

replicate-add :
    (a b n : ℕ) → n ≡ a + b → replicate {A = Option ℕ} n none ≡ replicate a none ++ replicate b none
replicate-add zero b n e = let e' : n ≡ b = omega arith in ap (λ k. replicate k none) e'
replicate-add (suc a) b zero e = absurd (omega arith)
replicate-add (suc a) b (suc n) e = ap (◌∷◌ none) (replicate-add a b n (omega arith))

bytes_remaining-Holds :
    (b : ByteBuffer) (rest : Bytes) → Holds b rest → bytes_remaining b ≡ length rest
unfolding bytes_remaining
bytes_remaining-Holds b rest h = omega (arith, length-Holds b rest h, h.fits)

-- The text of the Content-Length header.
abbrev pub length_text : Message → Bytes
length_text m = get_header_value m.headers (codes "Content-Length")

module _ (m : Message) (rest : Bytes) (n : ℕ) (held : Holds m.buffer rest)
    (short : length rest + 1 < 4294967296) (announced : length_text m ≢ [])
    (read : atoi (length_text m) ≡ ok n) where
  some_text : (length (length_text m) == 0) ≡ false
  some_text = ne→== _ _ (λ none_left. announced (empty (length_text m) none_left))
    where
      empty : (s : Bytes) → length s ≡ 0 → s ≡ []
      empty [] e = refl
      empty (x ∷ s) e = absurd (omega arith)

  allowed : u32 (bytes_remaining m.buffer + 1) ≡ length rest + 1
  allowed = omega (arith, bytes_remaining-Holds m.buffer rest held, short)

  parse_body-read : parse_body m ≡ read_body m (length_text m)
  unfolding parse_body
  parse_body-read = rw some_text

  -- With an announced length of exactly what is left, or of one more, the body is what is left, and
  -- in the second case its last cell is never written; the buffer is not advanced.
  pub parse_body-fits :
      (extra : ℕ)
      → extra ≤ 1
      → n ≡ length rest + extra
      → parse_body m
        ≡ ok (true, record m { body = some (map some rest ++ replicate extra none); data_len = n })
  unfolding read_body
  parse_body-fits extra h e =
      let copied =
        copy_body-fits rest m.buffer.rpos 0 m.buffer [] (replicate extra none) held.rest_is
          (length-Holds m.buffer rest held) refl in
      rw (
        parse_body-read,
        read,
        allowed,
        le→ltb (length rest + 1) n (omega arith),
        size-Holds m.buffer rest held,
        replicate-add (length rest) extra n e,
        copied,
      )

  -- With a smaller announced length the bytes that are left are written past the end of the array.
  pub parse_body-overflow : n < length rest → parse_body m ≡ fail undefined_behavior
  unfolding read_body
  parse_body-overflow h =
      let cells : length (replicate {A = Option ℕ} n none) ≡ n = length-replicate n none in
      rw (
        parse_body-read,
        read,
        allowed,
        le→ltb (length rest + 1) n (omega arith),
        size-Holds m.buffer rest held,
        copy_body-overflow (length rest) m.buffer.rpos 0 m.buffer (replicate n none) (omega arith)
            (omega (arith, cells)),
      )

  -- With a greater one the parse fails with an error text, and the body stays what it was.
  pub parse_body-refused :
      length rest + 1 < n
      → parse_body m ≡ ok (false, record m { parse_error = too_long (length_text m) (length rest) })
  unfolding read_body
  parse_body-refused h = rw (
    parse_body-read,
    read,
    allowed,
    lt→ltb (length rest + 1) n h,
    bytes_remaining-Holds m.buffer rest held,
  )
