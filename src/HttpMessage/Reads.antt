-- ===== src/HttpMessage/Reads.antt =====
-- What the readers of a message return, and where they leave the buffer, whatever it holds.
use my_power_mirror.Base.{
  ℕ, zero, suc, ◌+◌, ◌-◌, ◌≤◌, ◌<◌, ◌≡◌, refl, sym, ap, subst, ◌∙◌, inl, inr, Bool, true, false, [],
  ◌∷◌, ◌++◌, Bytes, leb, ◌==◌, length, length-append, length-drop, length-take, drop, take, All,
  arith, u32, Bool-cases, ne→==,
}
use my_power_mirror.CString.{before}
use my_power_mirror.ByteBuffer.{ByteBuffer, size, get, peek}
use my_power_mirror.ByteBuffer.Reading.{drop-cons, get_inside, get_bytes_inside}
use my_power_mirror.ByteBuffer.Search.{find-FoundAt}
use my_power_mirror.HttpMessage.{
  is_newline, take_line, skip_newlines, line_end, get_line, get_str_element,
}
use my_power_mirror.HttpMessage.Lines.{at_pos}

-- A buffer of bytes that all satisfy P, whose length fits in 32 bits, read up to some place in it.
pub record Readable (P : ℕ → Type 0) (b : ByteBuffer) : Type 0 where
  pub fits : length b.buf < 4294967296
  pub within : b.rpos ≤ length b.buf
  pub bytes : All P b.buf

-- A reader returned this text and buffer: it stands behind at least as many bytes as it returned.
pub record Reads (P : ℕ → Type 0) (b : ByteBuffer) (r : Bytes × ByteBuffer) : Type 0 where
  pub pos : ℕ
  pub moved : r.1 ≡ at_pos b pos
  pub behind : b.rpos + length r.0 ≤ pos
  pub inside : pos ≤ length b.buf
  pub all : All P r.0

pub Reads-Readable :
    (P : ℕ → Type 0) (b : ByteBuffer) (r : Bytes × ByteBuffer)
    → Readable P b
    → Reads P b r
    → Readable P r.1
Reads-Readable P b r c h =
    subst (Readable P) (sym h.moved) (record { fits = c.fits; within = h.inside; bytes = c.bytes })

pub All-drop : (P : ℕ → Type 0) (n : ℕ) (xs : Bytes) → All P xs → All P (drop n xs)
All-drop P zero xs h = h
All-drop P (suc n) [] h = h
All-drop P (suc n) (x ∷ xs) h = All-drop P n xs h.1

pub All-take : (P : ℕ → Type 0) (n : ℕ) (xs : Bytes) → All P xs → All P (take n xs)
All-take P zero xs h = tt
All-take P (suc n) [] h = h
All-take P (suc n) (x ∷ xs) h = (h.0, All-take P n xs h.1)

-- A byte that is left is read as it stands.
get-Readable :
    (P : ℕ → Type 0) (b : ByteBuffer)
    → Readable P b
    → b.rpos < length b.buf
    → (x : ℕ) × (get b ≡ (x, at_pos b (b.rpos + 1))) × P x
get-Readable P b c h =
    let (x, e) = drop-cons b.rpos b.buf h in
    (x, get_inside b x _ e h c.fits, (subst (All P) e (All-drop P b.rpos b.buf c.bytes)).0)

next-Readable :
    (P : ℕ → Type 0) (b : ByteBuffer)
    → Readable P b
    → b.rpos < length b.buf
    → Readable P (at_pos b (b.rpos + 1))
next-Readable P b c h = record { fits = c.fits; within = omega arith; bytes = c.bytes }

take_line-Reads :
    (P : ℕ → Type 0) (left : ℕ) (b : ByteBuffer)
    → Readable P b
    → b.rpos + left ≤ length b.buf
    → Reads P b ((take_line left b).0, (take_line left b).1)
unfolding take_line
take_line-Reads P zero b c h = record {
  pos = b.rpos;
  moved = refl;
  behind = omega arith;
  inside = c.within;
  all = tt;
}
take_line-Reads P (suc left) b c h =
    let (x, e, p) = get-Readable P b c (omega arith) in
    let later =
      take_line-Reads P left (at_pos b (b.rpos + 1)) (next-Readable P b c (omega arith))
        (omega arith) in
    elim (Bool-cases (is_newline (peek b))) [
      | inl stop ↦
          rw stop (record {
            pos = b.rpos;
            moved = refl;
            behind = omega arith;
            inside = c.within;
            all = tt;
          })
      | inr on ↦
          rw (on, e)
            (record {
              pos = later.pos;
              moved = later.moved;
              behind = omega (arith, later.behind);
              inside = later.inside;
              all = (p, later.all);
            })
    ]

-- The second loop of `getLine` never goes back.
skip_newlines-Reads :
    (P : ℕ → Type 0) (left k : ℕ) (b : ByteBuffer)
    → Readable P b
    → b.rpos + left ≤ length b.buf
    → Reads P b ([], skip_newlines left k b)
unfolding skip_newlines
skip_newlines-Reads P zero k b c h = record {
  pos = b.rpos;
  moved = refl;
  behind = omega arith;
  inside = c.within;
  all = tt;
}
skip_newlines-Reads P (suc left) k b c h =
    let (x, e, p) = get-Readable P b c (omega arith) in
    let later =
      skip_newlines-Reads P left (k + 1) (at_pos b (b.rpos + 1)) (next-Readable P b c (omega arith))
        (omega arith) in
    let back : u32 (b.rpos + 1 + 4294967296 - 1) ≡ b.rpos = omega (arith, c.fits, c.within) in
    let stays : Reads P b ([], b) = record {
      pos = b.rpos;
      moved = refl;
      behind = omega arith;
      inside = c.within;
      all = tt;
    } in
    elim (Bool-cases (leb 2 k)) [
      | inl stop ↦ rw stop stays
      | inr on ↦ elim (Bool-cases (is_newline x)) [
        | inl more ↦
            rw (on, e, more)
              (record {
                pos = later.pos;
                moved = later.moved;
                behind = omega (arith, later.behind);
                inside = later.inside;
                all = tt;
              })
        | inr done ↦ rw (on, e, done, back) stays
      ]
    ]

-- `getLine`, on every buffer.
pub get_line-Reads : (P : ℕ → Type 0) (b : ByteBuffer) → Readable P b → Reads P b (get_line b)
unfolding get_line size
get_line-Reads P b c =
    let whole : u32 (length b.buf) ≡ length b.buf = omega (arith, c.fits) in
    let left : b.rpos + (u32 (length b.buf) - b.rpos) ≤ length b.buf =
      omega (arith, c.fits, c.within) in
    line_end-Reads (take_line (u32 (length b.buf) - b.rpos) b)
      (take_line-Reads P (u32 (length b.buf) - b.rpos) b c left)
  where
    line_end-Reads :
        (r : Bytes × ByteBuffer × Bool) → Reads P b (r.0, r.1) → Reads P b (line_end b r)
    line_end-Reads (ret, b', false) h = record {
      pos = b.rpos;
      moved = ap {A = ByteBuffer} {B = ByteBuffer} (λ x. at_pos x b.rpos) h.moved;
      behind = omega arith;
      inside = c.within;
      all = tt;
    }
    line_end-Reads (ret, b', true) h =
        let c' : Readable P b' = Reads-Readable P b (ret, b') c h in
        let same : length b'.buf ≡ length b.buf = ap (λ (x : ByteBuffer). length x.buf) h.moved in
        let from : b'.rpos ≡ h.pos = ap (λ (x : ByteBuffer). x.rpos) h.moved in
        let left = size b' - b'.rpos in
        let later = skip_newlines-Reads P left 0 b' c' (omega (arith, c'.fits, c'.within)) in
        record {
          pos = later.pos;
          moved =
              later.moved ∙ ap {A = ByteBuffer} {B = ByteBuffer} (λ x. at_pos x later.pos) h.moved;
          behind = omega (arith, h.behind, later.behind, from);
          inside = omega (arith, later.inside, same);
          all = h.all;
        }

All-before_nul :
    (P : ℕ → Type 0) (xs : Bytes)
    → All P xs
    → All P (before 0 (xs ++ 0 ∷ [])) × (length (before 0 (xs ++ 0 ∷ [])) ≤ length xs)
unfolding before
All-before_nul P [] h = (tt, omega arith)
All-before_nul P (x ∷ xs) h = elim (Bool-cases (x == 0)) [
  | inl e ↦ rw e (tt, omega arith)
  | inr e ↦ rw e ((h.0, (All-before_nul P xs h.1).0), omega (arith, (All-before_nul P xs h.1).1))
]

-- `getStrElement`, on every buffer.
pub get_str_element-Reads :
    (P : ℕ → Type 0) (b : ByteBuffer) (delim : ℕ)
    → Readable P b
    → Reads P b (get_str_element b delim)
unfolding get_str_element
get_str_element-Reads P b delim c =
    let stays : Reads P b ([], b) = record {
      pos = b.rpos;
      moved = refl;
      behind = omega arith;
      inside = c.within;
      all = tt;
    } in
    elim (find-FoundAt b delim b.rpos c.within c.fits) [
      | inr (inl (pre, post, e, p, ne, at)) ↦ rw at stays
      | inr (inr (p, at)) ↦ rw at stays
      | inl (pre, post, e, p, at) ↦
          let len : b.rpos + (length pre + suc (length post)) ≡ length b.buf = omega (
            arith,
            ap length e,
            length-append pre (delim ∷ post),
            length-drop b.rpos b.buf,
            c.within,
          ) in
          let end = b.rpos + length pre in
          let n : u32 (end + 1 + 4294967296 - b.rpos) ≡ length pre + 1 =
            omega (arith, len, c.fits) in
          let wraps : u32 (end + 1) ≡ end + 1 = omega (arith, len, c.fits) in
          let got = get_bytes_inside (length pre + 1) b (omega (arith, len)) c.fits in
          let far : (end == 4294967295) ≡ false = ne→== _ _ (omega (arith, len, c.fits)) in
          let some_bytes : (length pre + 1 == 0) ≡ false = ne→== _ _ (omega arith) in
          let text = take (length pre + 1 - 1) (take (length pre + 1) (drop b.rpos b.buf)) in
          let clean = All-before_nul P text (
            All-take P (length pre + 1 - 1) _
              (All-take P (length pre + 1) _ (All-drop P b.rpos b.buf c.bytes))) in
          rw (at, n, wraps, got, far, some_bytes)
            (record {
              pos = end + 1;
              moved = refl;
              behind = omega (
                arith,
                clean.1,
                length-take (length pre + 1 - 1) (take (length pre + 1) (drop b.rpos b.buf)),
              );
              inside = omega (arith, len);
              all = clean.0;
            })
    ]
