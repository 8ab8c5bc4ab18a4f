-- ===== src/ByteBuffer/Written.antt =====
-- What `append` and `putBytes` leave in the vector, as one write of a block.
use my_power_mirror.Base.{
  ℕ, zero, suc, ◌+◌, ◌-◌, ◌≤◌, ◌<◌, ◌≡◌, refl, ap, ◌∙◌, ap₂, [], ◌∷◌, ◌++◌, Bytes, ltb, length,
  length-append, length-take, length-drop, Bool-cases, inl, inr, max, drop_ge, take_ge, ltb→lt,
  ltb→le, take, drop, replicate, length-replicate, arith, u32, ok, le→leb,
}
use my_power_mirror.ByteBuffer.{ByteBuffer, resized, overwrite, size, append, put_bytes}

-- The vector with a block written at a position, and zeros in between if that lies behind its end.
abbrev pub written : ℕ → Bytes → Bytes → Bytes
written zero buf bs = bs ++ drop (length bs) buf
written (suc w) [] bs = 0 ∷ written w [] bs
written (suc w) (x ∷ buf) bs = x ∷ written w buf bs

pub overwrite_inside :
    (w n : ℕ) (buf bs : Bytes)
    → n ≡ w + length bs
    → n ≤ length buf
    → take w buf ++ (bs ++ drop n buf) ≡ written w buf bs
overwrite_inside zero n buf bs e h =
    let e' : n ≡ length bs = omega arith in ap (λ k. bs ++ drop k buf) e'
overwrite_inside (suc w) n [] bs e h = absurd (omega arith)
overwrite_inside (suc w) zero (x ∷ buf) bs e h = absurd (omega arith)
overwrite_inside (suc w) (suc n) (x ∷ buf) bs e h =
    ap (◌∷◌ x) (overwrite_inside w n buf bs (omega arith) (omega arith))

written_zeros :
    (w k : ℕ) (buf bs : Bytes)
    → length buf + k ≤ w + length bs
    → written w (buf ++ replicate k 0) bs ≡ written w buf bs
written_zeros zero k buf bs h =
    let long = length-append buf (replicate k 0) in
    let some_zeros : length (replicate {A = ℕ} k 0) ≡ k = length-replicate k 0 in
    rw (
      drop_ge (length bs) (buf ++ replicate k 0) (omega (arith, long, some_zeros)),
      drop_ge (length bs) buf (omega arith),
    )
written_zeros (suc w) zero [] bs h = refl
written_zeros (suc w) (suc k) [] bs h = ap (◌∷◌ 0) (written_zeros w k [] bs (omega arith))
written_zeros (suc w) k (x ∷ buf) bs h = ap (◌∷◌ x) (written_zeros w k buf bs (omega arith))

overwrite-resized :
    (w n : ℕ) (buf bs : Bytes)
    → n ≡ w + length bs
    → length buf ≤ n
    → overwrite (resized n buf) w bs ≡ written w buf bs
overwrite-resized w n buf bs e h =
    let k = n - length buf in
    let long = length-append buf (replicate k 0) in
    let some_zeros : length (replicate {A = ℕ} k 0) ≡ k = length-replicate k 0 in
    rw (take_ge n buf h) (
      overwrite_inside w (w + length bs) (buf ++ replicate k 0) bs refl
        (omega (arith, long, some_zeros))
      ∙ written_zeros w k buf bs (omega arith))

length-resized : (n : ℕ) (buf : Bytes) → length buf ≤ n → length (resized n buf) ≡ n
length-resized n buf h =
    let long = length-append (take n buf) (replicate (n - length buf) 0) in
    let some_zeros : length (replicate {A = ℕ} (n - length buf) 0) ≡ n - length buf =
      length-replicate _ 0 in
    omega (arith, long, some_zeros, length-take n buf)

-- One `append`: the block is written at the write position, which moves behind it, unless the sum
-- does not fit in 32 bits.
pub append-written :
    (b : ByteBuffer) (bs : Bytes)
    → b.wpos + length bs < 4294967296
    → length b.buf < 4294967296
    → append b bs ≡ ok (record b { buf = written b.wpos b.buf bs; wpos = b.wpos + length bs })
unfolding append size
append-written b bs h k =
    let n = b.wpos + length bs in
    let fits : u32 n ≡ n = omega arith in
    let whole : u32 (length b.buf) ≡ length b.buf = omega arith in
    rw (fits, whole)
      (elim (Bool-cases (ltb (length b.buf) n)) [
        | inl grows ↦
            let long : length b.buf ≤ n = omega (arith, ltb→lt _ _ grows) in
            rw (
              grows,
              le→leb n (length (resized n b.buf)) (omega (arith, length-resized n b.buf long)),
              overwrite-resized b.wpos n b.buf bs refl long,
            )
        | inr room ↦
            let long : n ≤ length b.buf = ltb→le _ _ room in
            rw (room, le→leb n (length b.buf) long, overwrite_inside b.wpos n b.buf bs refl long)
      ])

written_snoc :
    (w : ℕ) (buf : Bytes) (x : ℕ) (xs : Bytes)
    → written (suc w) (written w buf (x ∷ [])) xs ≡ written w buf (x ∷ xs)
written_snoc zero [] x xs = ap (λ t. x ∷ (xs ++ t)) (drop_ge (length xs) [] (omega arith))
written_snoc zero (y ∷ buf) x xs = refl
written_snoc (suc w) [] x xs = ap (◌∷◌ 0) (written_snoc w [] x xs)
written_snoc (suc w) (y ∷ buf) x xs = ap (◌∷◌ y) (written_snoc w buf x xs)

pub length-written :
    (w : ℕ) (buf bs : Bytes) → length (written w buf bs) ≡ max (length buf) (w + length bs)
length-written zero buf bs =
    omega (arith, length-append bs (drop (length bs) buf), length-drop (length bs) buf)
length-written (suc w) [] bs = omega (arith, length-written w [] bs)
length-written (suc w) (x ∷ buf) bs = omega (arith, length-written w buf bs)

abbrev with_block : ByteBuffer → ℕ → Bytes → ByteBuffer
with_block b w buf = record b { buf = buf; wpos = w }

-- The loop of `putBytes` over single bytes writes a non-empty array as one block at the write
-- position, with zeros in front where that lies behind the end of the vector, and moves the
-- position behind it; it does not fail while the end of the block fits in 32 bits.
pub put_bytes-written :
    (xs : Bytes) (x : ℕ) (b : ByteBuffer)
    → b.wpos + length (x ∷ xs) < 4294967296
    → length b.buf < 4294967296
    → put_bytes b (x ∷ xs)
      ≡ ok (record b { buf = written b.wpos b.buf (x ∷ xs); wpos = b.wpos + length (x ∷ xs) })
unfolding put_bytes
put_bytes-written [] x b h k = rw (append-written b (x ∷ []) h k)
put_bytes-written (y ∷ ys) x b h k =
    let b' = with_block b (b.wpos + 1) (written b.wpos b.buf (x ∷ [])) in
    let later =
      put_bytes-written ys y b' (omega arith)
        (omega (arith, length-written b.wpos b.buf (x ∷ []))) in
    let next : b.wpos + 1 ≡ suc b.wpos = omega arith in
    let end : b.wpos + 1 + length (y ∷ ys) ≡ b.wpos + length (x ∷ y ∷ ys) = omega arith in
    let same : written (b.wpos + 1) (written b.wpos b.buf (x ∷ [])) (y ∷ ys)
        ≡ written b.wpos b.buf (x ∷ y ∷ ys) =
      ap (λ w. written w (written b.wpos b.buf (x ∷ [])) (y ∷ ys)) next
      ∙ written_snoc b.wpos b.buf x (y ∷ ys) in
    rw (append-written b (x ∷ []) (omega arith) k)
      (later ∙ ap₂ (λ w buf. ok (with_block b w buf)) end same)
