-- ===== src/ByteBuffer/Compare.antt =====
-- `equals` and `clone`.
use my_power_mirror.Base.{
  ℕ, zero, suc, ◌+◌, ◌%◌, ◌<◌, ◌≡◌, ◌≢◌, ◌↔◌, inl, inr, refl, sym, ap, ap₂, true, false, [], ◌∷◌,
  Bytes, ◌==◌, length, drop_ge, Bool-cases, drop, arith, u32, le→leb, ==→eq, ==→ne,
}
use my_power_mirror.ByteBuffer.{
  ByteBuffer, insert, get_at, make, equals_from, equals, clone_from, clone,
}
use my_power_mirror.ByteBuffer.Reading.{drop-cons}

pub get_at_inside :
    (b : ByteBuffer) (i x : ℕ) (rest : Bytes)
    → drop i b.buf ≡ x ∷ rest
    → i < length b.buf
    → get_at b i ≡ x
unfolding get_at
get_at_inside b i x rest e h = rw (le→leb (i + 1) (length b.buf) (omega arith), e)

-- Two lists that start with the same element and go on alike.
cons_iff : (x y : ℕ) (xs ys : Bytes) → ((x ≡ y) × (xs ≡ ys)) ↔ (x ∷ xs ≡ y ∷ ys)
cons_iff x y xs ys = (λ (e, f). ap₂ ◌∷◌ e f, λ e. (cc, cc))

equals_from_iff :
    (left i : ℕ) (b other : ByteBuffer)
    → i + left ≡ length b.buf
    → i + left ≡ length other.buf
    → (equals_from left i b other ≡ true) ↔ (drop i b.buf ≡ drop i other.buf)
unfolding equals_from
equals_from_iff zero i b other h k =
    rw (drop_ge i b.buf (omega arith), drop_ge i other.buf (omega arith)) (λ e. refl, λ e. refl)
equals_from_iff (suc left) i b other h k =
    let (x, e) = drop-cons i b.buf (omega arith) in
    let (y, f) = drop-cons i other.buf (omega arith) in
    let ih = equals_from_iff left (i + 1) b other (omega arith) (omega arith) in
    rw (get_at_inside b i x _ e (omega arith), get_at_inside other i y _ f (omega arith), e, f)
      (ground (arith, ih, cons_iff x y (drop (i + 1) b.buf) (drop (i + 1) other.buf)))

-- `equals` is true of exactly the buffers with the same contents, whatever their positions.
pub equals_iff :
    (b other : ByteBuffer)
    → length b.buf < 4294967296
    → length other.buf < 4294967296
    → (equals b other ≡ true) ↔ (b.buf ≡ other.buf)
unfolding equals
equals_iff b other h k =
    let whole : u32 (length b.buf) ≡ length b.buf = omega arith in
    let whole' : u32 (length other.buf) ≡ length other.buf = omega arith in
    rw (whole, whole')
      (elim (Bool-cases (length b.buf == length other.buf)) [
        | inl same ↦
            rw same (
              equals_from_iff (length b.buf) 0 b other (omega arith)
                (omega (arith, ==→eq _ _ same)))
        | inr differ ↦ rw differ (λ e. cc, λ e. absurd (==→ne _ _ differ (ap length e)))
      ])

insert_empty : (bytes : Bytes) (x index : ℕ) → insert make (x ∷ bytes) index ≡ make
unfolding insert
insert_empty bytes x index = ground arith

clone_from-make : (left i : ℕ) (b : ByteBuffer) → clone_from left i b make ≡ make
unfolding clone_from
clone_from-make zero i b = refl
clone_from-make (suc left) i b =
    rw (insert_empty [] (i % 256) (get_at b i)) (clone_from-make left (i + 1) b)

-- `clone` gives an empty buffer, whatever it is called on: no write of its loop lies inside the
-- vector, which has no bytes.
clone-make : (b : ByteBuffer) → clone b ≡ make
unfolding clone
clone-make b = rw (clone_from-make (length b.buf) 0 b)

-- So `clone` and the buffer differ for `equals`, unless the buffer is empty.
clone_not_equal :
    (b : ByteBuffer) → length b.buf < 4294967296 → b.buf ≢ [] → equals (clone b) b ≡ false
clone_not_equal b h ne = elim (Bool-cases (equals (clone b) b)) [
  | inl same ↦ absurd (ne (sym ((equals_iff make b (omega arith) h).0 (rw (clone-make b) at same))))
  | inr differ ↦ differ
]
