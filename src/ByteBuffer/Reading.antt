-- ===== src/ByteBuffer/Reading.antt =====
-- Reading: a block at once, and what a write puts there read back.
use native.Mathlib.Nat.{pow-suc}
use my_power_mirror.Base.{
  ℕ, zero, suc, ◌+◌, ◌/◌, ◌^◌, ◌≤◌, ◌<◌, ◌≡◌, refl, sym, ap, ap₂, subst, ◌∙◌, [], ◌∷◌, ◌++◌, Bytes,
  length, drop_ge, take, drop, take-append_length, arith, ok, le→leb,
}
use my_power_mirror.ByteBuffer.{
  ByteBuffer, append, put_bytes, read_at, get, get_bytes, set_read_pos, put_word, get_word_at,
  le_bytes, le_value,
}
use my_power_mirror.ByteBuffer.Written.{written, append-written, put_bytes-written, length-written}

drop-suc : (i : ℕ) (xs : Bytes) → i < length xs → (x : ℕ) × (drop i xs ≡ x ∷ drop (suc i) xs)
drop-suc i [] h = absurd (omega arith)
drop-suc zero (x ∷ xs) h = (x, refl)
drop-suc (suc i) (x ∷ xs) h = drop-suc i xs (omega arith)

pub drop-cons : (i : ℕ) (xs : Bytes) → i < length xs → (x : ℕ) × (drop i xs ≡ x ∷ drop (i + 1) xs)
drop-cons i xs h =
    let next : suc i ≡ i + 1 = omega arith in
    subst (λ j. (x : ℕ) × (drop i xs ≡ x ∷ drop j xs)) next (drop-suc i xs h)

pub get_inside :
    (b : ByteBuffer) (x : ℕ) (rest : Bytes)
    → drop b.rpos b.buf ≡ x ∷ rest
    → b.rpos < length b.buf
    → length b.buf < 4294967296
    → get b ≡ (x, record b { rpos = b.rpos + 1 })
unfolding get read_at
get_inside b x rest e h k = rw (le→leb (b.rpos + 1) (length b.buf) (omega arith), e) (ground arith)

-- Within the vector, the loop of `getBytes` reads the block at the read position, and moves the
-- position behind it.
pub get_bytes_inside :
    (n : ℕ) (b : ByteBuffer)
    → b.rpos + n ≤ length b.buf
    → length b.buf < 4294967296
    → get_bytes n b ≡ (take n (drop b.rpos b.buf), record b { rpos = b.rpos + n })
unfolding get_bytes
get_bytes_inside zero b h k = ground arith
get_bytes_inside (suc n) b h k =
    let (x, e) = drop-cons b.rpos b.buf (omega arith) in
    let b' = record b { rpos = b.rpos + 1 } in
    let later = get_bytes_inside n b' (omega arith) k in
    let end : b.rpos + 1 + n ≡ b.rpos + suc n = omega arith in
    rw (get_inside b x (drop (b.rpos + 1) b.buf) e (omega arith) k, later, e)
      (ap₂ (λ xs r. (x ∷ xs, record b { rpos = r })) refl end)

drop-written :
    (w n : ℕ) (buf bs : Bytes) → n ≡ w + length bs → drop w (written w buf bs) ≡ bs ++ drop n buf
drop-written zero n buf bs e = let e' : length bs ≡ n = omega arith in ap (λ k. bs ++ drop k buf) e'
drop-written (suc w) zero buf bs e = absurd (omega arith)
drop-written (suc w) (suc n) [] bs e =
    drop-written w n [] bs (omega arith) ∙ ap (◌++◌ bs) (drop_ge n [] (omega arith))
drop-written (suc w) (suc n) (x ∷ buf) bs e = drop-written w n buf bs (omega arith)

pub take-drop-written : (w : ℕ) (buf bs : Bytes) → take (length bs) (drop w (written w buf bs)) ≡ bs
take-drop-written w buf bs =
    rw (drop-written w (w + length bs) buf bs refl) (take-append_length (length bs) bs _ refl)

-- What `putBytes` has written at the write position is what `getBytes` reads there.
pub get_bytes-put_bytes :
    (b : ByteBuffer) (x : ℕ) (xs : Bytes)
    → b.wpos + length (x ∷ xs) < 4294967296
    → length b.buf < 4294967296
    → (b' : ByteBuffer) × (put_bytes b (x ∷ xs) ≡ ok b')
      × ((get_bytes (length (x ∷ xs)) (set_read_pos b' b.wpos)).0 ≡ x ∷ xs)
get_bytes-put_bytes b x xs h k =
    let bs = x ∷ xs in
    let b' = record b { buf = written b.wpos b.buf bs; wpos = b.wpos + length bs } in
    let long = length-written b.wpos b.buf bs in
    (
      b',
      put_bytes-written xs x b h k,
      rw
          (get_bytes_inside (length bs) (set_read_pos b' b.wpos) (omega (arith, long))
            (omega (arith, long)))
          (take-drop-written b.wpos b.buf bs),
    )

read_at-append :
    (b : ByteBuffer) (bs : Bytes)
    → b.wpos + length bs < 4294967296
    → length b.buf < 4294967296
    → (b' : ByteBuffer) × (append b bs ≡ ok b')
      × (read_at (length bs) b' b.wpos ≡ bs)
      × (b'.wpos ≡ b.wpos + length bs)
unfolding read_at
read_at-append b bs h k =
    let buf' = written b.wpos b.buf bs in
    let long = length-written b.wpos b.buf bs in
    (
      record b { buf = buf'; wpos = b.wpos + length bs },
      append-written b bs h k,
      rw (le→leb (b.wpos + length bs) (length buf') (omega (arith, long)))
          (take-drop-written b.wpos b.buf bs),
      refl,
    )

pub le_value-le_bytes : (n v : ℕ) → v < 256 ^ n → le_value (le_bytes n v) ≡ v
unfolding le_value le_bytes
le_value-le_bytes zero v h = omega arith
le_value-le_bytes (suc n) v h =
    let later = le_value-le_bytes n (v / 256) (omega (arith, pow-suc 256 n)) in omega (arith, later)

pub length-le_bytes : (n v : ℕ) → length (le_bytes n v) ≡ n
unfolding le_bytes
length-le_bytes zero v = refl
length-le_bytes (suc n) v = ap suc (length-le_bytes n (v / 256))

-- A short, int or long that is put at the write position is what is read there: for a width of n
-- bytes and a value that fits, `putX(v)` succeeds and `getX(position)` gives v.
pub get_word_at-put_word :
    (n : ℕ) (b : ByteBuffer) (v : ℕ)
    → v < 256 ^ n
    → b.wpos + n < 4294967296
    → length b.buf < 4294967296
    → (b' : ByteBuffer) × (put_word n b v ≡ ok b')
      × (get_word_at n b' b.wpos ≡ v)
      × (b'.wpos ≡ b.wpos + n)
unfolding put_word get_word_at
get_word_at-put_word n b v fits h k =
    let bs = le_bytes n v in
    let len = length-le_bytes n v in
    let (b', put, got, moved) = read_at-append b bs (omega (arith, len)) k in
    (
      b',
      put,
      ap le_value (ap (λ m. read_at m b' b.wpos) (sym len) ∙ got) ∙ le_value-le_bytes n v fits,
      moved ∙ ap (λ m. b.wpos + m) len,
    )
