-- ===== src/ByteBuffer/Insert.antt =====
-- `insert<T>`, the write at an index: what it changes, and what it leaves alone.
use my_power_mirror.Base.{
  ℕ, zero, suc, ◌+◌, ◌^◌, ◌≤◌, ◌<◌, ◌≡◌, ◌⊎◌, inl, inr, refl, sym, ap, ◌∙◌, [], ◌∷◌, ◌++◌,
  append-nil, drop_ge, subst, Bytes, length, take, drop, arith, u32, le→leb, le→ltb, lt→ltb,
}
use my_power_mirror.ByteBuffer.{
  ByteBuffer, insert, read_at, put_word_at, get_word_at, le_bytes, le_value,
}
use my_power_mirror.ByteBuffer.Written.{written, length-written, overwrite_inside}
use my_power_mirror.ByteBuffer.Reading.{take-drop-written, le_value-le_bytes, length-le_bytes}

insert_inside :
    (b : ByteBuffer) (bytes : Bytes) (index : ℕ)
    → index + length bytes ≤ length b.buf
    → length b.buf < 4294967296
    → insert b bytes index
      ≡ record b { buf = written index b.buf bytes; wpos = index + length bytes }
unfolding insert
insert_inside b bytes index h k =
    let n = index + length bytes in
    let whole : u32 (length b.buf) ≡ length b.buf = omega arith in
    let fits : u32 n ≡ n = omega arith in
    rw (whole, fits, le→ltb (length b.buf) n h, overwrite_inside index n b.buf bytes refl h)

insert_outside :
    (b : ByteBuffer) (bytes : Bytes) (index : ℕ)
    → length b.buf < index + length bytes
    → length b.buf < 4294967296
    → insert b bytes index ≡ b
unfolding insert
insert_outside b bytes index h k =
    let whole : u32 (length b.buf) ≡ length b.buf = omega arith in
    rw (whole, lt→ltb (length b.buf) (index + length bytes) h)

front-written :
    (j m w : ℕ) (buf bs : Bytes)
    → j + m ≤ w
    → w ≤ length buf
    → take m (drop j (written w buf bs)) ≡ take m (drop j buf)
front-written j zero w buf bs h k = refl
front-written j (suc m) zero buf bs h k = absurd (omega arith)
front-written j (suc m) (suc w) [] bs h k = absurd (omega arith)
front-written zero (suc m) (suc w) (x ∷ buf) bs h k =
    ap (◌∷◌ x) (front-written zero m w buf bs (omega arith) (omega arith))
front-written (suc j) (suc m) (suc w) (x ∷ buf) bs h k =
    front-written j (suc m) w buf bs (omega arith) (omega arith)

drop-append_ge :
    (j : ℕ) (bs buf : Bytes) → length bs ≤ j → drop j (bs ++ drop (length bs) buf) ≡ drop j buf
drop-append_ge j [] buf h = refl
drop-append_ge zero (y ∷ bs) buf h = absurd (omega arith)
drop-append_ge (suc j) (y ∷ bs) [] h = rw append-nil (drop_ge j bs (omega arith))
drop-append_ge (suc j) (y ∷ bs) (x ∷ buf) h = drop-append_ge j bs buf (omega arith)

behind-written :
    (j w : ℕ) (buf bs : Bytes)
    → w + length bs ≤ j
    → w ≤ length buf
    → drop j (written w buf bs) ≡ drop j buf
behind-written j zero buf bs h k = drop-append_ge j bs buf (omega arith)
behind-written j (suc w) [] bs h k = absurd (omega arith)
behind-written zero (suc w) (x ∷ buf) bs h k = absurd (omega arith)
behind-written (suc j) (suc w) (x ∷ buf) bs h k =
    behind-written j w buf bs (omega arith) (omega arith)

-- A value of m bytes at j lies in front of the n bytes at i, or behind them.
abbrev pub Apart : ℕ → ℕ → ℕ → ℕ → Type 0
Apart j m i n = (j + m ≤ i) ⊎ (i + n ≤ j)

pub same_length :
    (w : ℕ) (buf bs : Bytes) → w + length bs ≤ length buf → length (written w buf bs) ≡ length buf
same_length w buf bs h = omega (arith, length-written w buf bs)

Apart-written :
    (j m w : ℕ) (buf bs : Bytes)
    → w + length bs ≤ length buf
    → Apart j m w (length bs)
    → take m (drop j (written w buf bs)) ≡ take m (drop j buf)
Apart-written j m w buf bs h (inl front) = front-written j m w buf bs front (omega arith)
Apart-written j m w buf bs h (inr back) = ap (take m) (behind-written j w buf bs back (omega arith))

read_at-written :
    (b b' : ByteBuffer) (j m w : ℕ) (bs : Bytes)
    → b'.buf ≡ written w b.buf bs
    → w + length bs ≤ length b.buf
    → Apart j m w (length bs)
    → read_at m b' j ≡ read_at m b j
unfolding read_at
read_at-written b b' j m w bs e h apart =
    rw (e, same_length w b.buf bs h, Apart-written j m w b.buf bs h apart)

read_at-written_self :
    (b' : ByteBuffer) (w : ℕ) (buf bs : Bytes)
    → b'.buf ≡ written w buf bs
    → w + length bs ≤ length buf
    → read_at (length bs) b' w ≡ bs
unfolding read_at
read_at-written_self b' w buf bs e h =
    rw (e, same_length w buf bs h, le→leb (w + length bs) (length buf) h)
      (take-drop-written w buf bs)

-- A short, int or long of n bytes that is put at an index inside the vector is read there again,
-- and a value of any width that lies apart from it is read as before; neither the length nor the
-- read position changes.
pub put_word_at-inside :
    (n : ℕ) (b : ByteBuffer) (v index j m : ℕ)
    → v < 256 ^ n
    → index + n ≤ length b.buf
    → length b.buf < 4294967296
    → Apart j m index n
    → (get_word_at n (put_word_at n b v index) index ≡ v)
      × (get_word_at m (put_word_at n b v index) j ≡ get_word_at m b j)
      × (length (put_word_at n b v index).buf ≡ length b.buf)
      × ((put_word_at n b v index).rpos ≡ b.rpos)
unfolding put_word_at get_word_at
put_word_at-inside n b v index j m fits h k apart =
    let bs = le_bytes n v in
    let len = length-le_bytes n v in
    let h' : index + length bs ≤ length b.buf = omega (arith, len) in
    let b' = insert b bs index in
    let e : b'.buf ≡ written index b.buf bs = rw (insert_inside b bs index h' k) in
    (
      ap le_value
            (ap (λ m. read_at m b' index) (sym len) ∙ read_at-written_self b' index b.buf bs e h')
          ∙ le_value-le_bytes n v fits,
      ap le_value
          (read_at-written b b' j m index bs e h' (subst (Apart j m index) (sym len) apart)),
      ap length e ∙ same_length index b.buf bs h',
      rw (insert_inside b bs index h' k),
    )

-- Outside the vector the same call does nothing.
put_word_at-outside :
    (n : ℕ) (b : ByteBuffer) (v index : ℕ)
    → length b.buf < index + n
    → length b.buf < 4294967296
    → put_word_at n b v index ≡ b
unfolding put_word_at
put_word_at-outside n b v index h k =
    insert_outside b (le_bytes n v) index (omega (arith, length-le_bytes n v)) k
