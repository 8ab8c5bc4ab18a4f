-- ===== src/HttpMessage/Lines.antt =====
-- `getLine` and `getStrElement` on what stands from the read position on.
use my_power_mirror.Base.{
  ℕ, zero, suc, ◌+◌, ◌-◌, ◌≤◌, ◌<◌, ◌≡◌, refl, sym, ap, subst, ◌∙◌, true, false, [], ◌∷◌, ◌++◌,
  append_assoc, Bytes, ◌==◌, length, length-append, length-drop, drop, take, take-append_length,
  drop-append_length, drop_ge, All, arith, u32, ne→==,
}
use my_power_mirror.CString.{before}
use my_power_mirror.CString.Laws.{Lacks, before-Lacks}
use my_power_mirror.ByteBuffer.Search.{find_hit, Lacks-PassedBy}
use my_power_mirror.ByteBuffer.{ByteBuffer, size, get, peek}
use my_power_mirror.ByteBuffer.Reading.{get_inside, get_bytes_inside}
use my_power_mirror.ByteBuffer.Compare.{get_at_inside}
use my_power_mirror.HttpMessage.{is_newline, take_line, skip_newlines, get_line, get_str_element}

-- What is left to read, of a vector whose length fits in 32 bits.
pub record Holds (b : ByteBuffer) (rest : Bytes) : Type 0 where
  pub fits : length b.buf < 4294967296
  pub inside : b.rpos ≤ length b.buf
  pub rest_is : drop b.rpos b.buf ≡ rest

abbrev pub advance : ByteBuffer → ℕ → ByteBuffer
advance b n = record b { rpos = b.rpos + n }

drop-drop : (i j n : ℕ) (xs : Bytes) → j ≡ i + n → drop j xs ≡ drop n (drop i xs)
drop-drop zero j n xs e = let e' : j ≡ n = omega arith in ap (λ k. drop k xs) e'
drop-drop (suc i) zero n xs e = absurd (omega arith)
drop-drop (suc i) (suc j) n [] e = sym (drop_ge n [] (omega arith))
drop-drop (suc i) (suc j) n (x ∷ xs) e = drop-drop i j n xs (omega arith)

drop_front :
    (i n : ℕ) (xs front rest : Bytes)
    → drop i xs ≡ front ++ rest
    → length front ≡ n
    → drop (i + n) xs ≡ rest
drop_front i n xs front rest e h =
    drop-drop i (i + n) n xs refl ∙ ap (drop n) e ∙ drop-append_length n front rest h

pub drop_next : (i x : ℕ) (xs rest : Bytes) → drop i xs ≡ x ∷ rest → drop (i + 1) xs ≡ rest
drop_next i x xs rest e = drop_front i 1 xs (x ∷ []) rest e refl

pub length-Holds :
    (b : ByteBuffer) (rest : Bytes) → Holds b rest → b.rpos + length rest ≡ length b.buf
length-Holds b rest h = omega (arith, ap length h.rest_is, length-drop b.rpos b.buf, h.inside)

Holds-advance :
    (b : ByteBuffer) (front rest : Bytes)
    → Holds b (front ++ rest)
    → Holds (advance b (length front)) rest
Holds-advance b front rest h = record {
  fits = h.fits;
  inside = omega (arith, length-Holds b (front ++ rest) h, length-append front rest);
  rest_is = drop_front b.rpos (length front) b.buf front rest h.rest_is refl;
}

get-Holds : (b : ByteBuffer) (x : ℕ) (rest : Bytes) → Holds b (x ∷ rest) → get b ≡ (x, advance b 1)
get-Holds b x rest h =
    get_inside b x rest h.rest_is (omega (arith, length-Holds b (x ∷ rest) h)) h.fits

peek-Holds : (b : ByteBuffer) (x : ℕ) (rest : Bytes) → Holds b (x ∷ rest) → peek b ≡ x
unfolding peek
peek-Holds b x rest h =
    get_at_inside b b.rpos x rest h.rest_is (omega (arith, length-Holds b (x ∷ rest) h))

abbrev pub NoNewline : Bytes → Type 0
NoNewline = All (λ x. is_newline x ≡ false)

abbrev pub at_pos : ByteBuffer → ℕ → ByteBuffer
at_pos b r = record b { rpos = r }

take_line-Holds :
    (line : Bytes) (left r : ℕ) (b : ByteBuffer) (c : ℕ) (rest : Bytes)
    → Holds b (line ++ c ∷ rest)
    → NoNewline line
    → is_newline c ≡ true
    → length line < left
    → r ≡ b.rpos + length line
    → take_line left b ≡ (line, at_pos b r, true)
unfolding take_line
take_line-Holds line zero r b c rest h n e lt at = absurd (omega arith)
take_line-Holds [] (suc left) r b c rest h n e lt at =
    let same : b.rpos ≡ r = omega arith in
    rw (peek-Holds b c rest h, e) (ap (λ k. ([], at_pos b k, true)) same)
take_line-Holds (x ∷ line) (suc left) r b c rest h n e lt at =
    let b' = advance b 1 in
    let h' = Holds-advance b (x ∷ []) (line ++ c ∷ rest) h in
    rw (
      peek-Holds b x (line ++ c ∷ rest) h,
      n.0,
      get-Holds b x (line ++ c ∷ rest) h,
      take_line-Holds line left r b' c rest h' n.1 e (omega arith) (omega arith),
    )

skip_done : (left r : ℕ) (b : ByteBuffer) → r ≡ b.rpos → skip_newlines left 2 b ≡ at_pos b r
unfolding skip_newlines
skip_done zero r b at = ap (at_pos b) (sym at)
skip_done (suc left) r b at = ap (at_pos b) (sym at)

-- Behind CR LF the second loop stops, whatever follows.
skip_newlines-crlf :
    (left r : ℕ) (b : ByteBuffer) (rest : Bytes)
    → Holds b (13 ∷ 10 ∷ rest)
    → length rest + 2 ≡ left
    → r ≡ b.rpos + 2
    → skip_newlines left 0 b ≡ at_pos b r
unfolding skip_newlines
skip_newlines-crlf zero r b rest h e at = absurd (omega arith)
skip_newlines-crlf (suc zero) r b rest h e at = absurd (omega arith)
skip_newlines-crlf (suc (suc left)) r b rest h e at =
    let b' = advance b 1 in
    let h' = Holds-advance b (13 ∷ []) (10 ∷ rest) h in
    rw (get-Holds b 13 (10 ∷ rest) h, get-Holds b' 10 rest h')
      (skip_done left r (advance b' 1) (omega arith))

pub size-Holds : (b : ByteBuffer) (rest : Bytes) → Holds b rest → size b - b.rpos ≡ length rest
unfolding size
size-Holds b rest h = omega (arith, length-Holds b rest h, h.fits)

pub advance-Holds :
    (b : ByteBuffer) (r : ℕ) (front rest : Bytes)
    → Holds b (front ++ rest)
    → r ≡ b.rpos + length front
    → Holds (at_pos b r) rest
advance-Holds b r front rest h e =
    subst (λ k. Holds (at_pos b k) rest) (sym e) (Holds-advance b front rest h)

-- `getLine` on a line that CR LF ends: the line is returned, and the buffer stands behind the CR
-- LF, also where another one follows.
pub get_line-crlf :
    (b : ByteBuffer) (line rest : Bytes)
    → NoNewline line
    → Holds b (line ++ 13 ∷ 10 ∷ rest)
    → get_line b ≡ (line, at_pos b (b.rpos + length line + 2))
unfolding get_line
get_line-crlf b line rest n h =
    let tail = 13 ∷ 10 ∷ rest in
    let r = b.rpos + length line in
    let h' = advance-Holds b r line tail h refl in
    rw (
      size-Holds b (line ++ tail) h,
      take_line-Holds line (length (line ++ tail)) r b 13 (10 ∷ rest) h n refl
          (omega (arith, length-append line tail)) refl,
      size-Holds (at_pos b r) tail h',
      skip_newlines-crlf (length tail) (r + 2) (at_pos b r) rest h' (omega arith) refl,
    )

pub get_line-Holds :
    (b : ByteBuffer) (line rest : Bytes)
    → Holds b (line ++ 13 ∷ 10 ∷ rest)
    → Holds (at_pos b (b.rpos + length line + 2)) rest
get_line-Holds b line rest h =
    advance-Holds b _ (line ++ 13 ∷ 10 ∷ []) rest
      (subst (Holds b) (sym (append_assoc line (13 ∷ 10 ∷ []) rest)) h)
      (omega (arith, length-append line (13 ∷ 10 ∷ [])))

take_line_end :
    (rest : Bytes) (left r : ℕ) (b : ByteBuffer)
    → Holds b rest
    → NoNewline rest
    → length rest ≡ left
    → r ≡ b.rpos + length rest
    → take_line left b ≡ (rest, at_pos b r, false)
unfolding take_line
take_line_end [] zero r b h n e at =
    let same : b.rpos ≡ r = omega arith in ap (λ k. ([], at_pos b k, false)) same
take_line_end [] (suc left) r b h n e at = absurd (omega arith)
take_line_end (x ∷ rest) zero r b h n e at = absurd (omega arith)
take_line_end (x ∷ rest) (suc left) r b h n e at =
    let h' = Holds-advance b (x ∷ []) rest h in
    rw (
      peek-Holds b x rest h,
      n.0,
      get-Holds b x rest h,
      take_line_end rest left r (advance b 1) h' n.1 (omega arith) (omega arith),
    )

-- `getLine` where no newline follows: nothing is returned and the buffer stays as it was.
get_line_none :
    (b : ByteBuffer) (rest : Bytes) → NoNewline rest → Holds b rest → get_line b ≡ ([], b)
unfolding get_line
get_line_none b rest n h =
    rw
      (size-Holds b rest h, take_line_end rest (length rest) (b.rpos + length rest) b h n refl refl)

take-take : (k m : ℕ) (xs : Bytes) → k ≤ m → take k (take m xs) ≡ take k xs
take-take zero m xs h = refl
take-take (suc k) zero xs h = absurd (omega arith)
take-take (suc k) (suc m) [] h = refl
take-take (suc k) (suc m) (x ∷ xs) h = ap (◌∷◌ x) (take-take k m xs (omega arith))

token_back :
    (token : Bytes) (x : ℕ) (rest : Bytes) (n : ℕ)
    → n ≡ length token + 1
    → take (n - 1) (take n (token ++ x ∷ rest)) ≡ token
token_back token x rest n e =
    take-take (n - 1) n (token ++ x ∷ rest) (omega arith)
    ∙ take-append_length (n - 1) token (x ∷ rest) (omega arith)

before-nul : (s : Bytes) → Lacks 0 s → before 0 (s ++ 0 ∷ []) ≡ s
before-nul s h = before-Lacks 0 s [] h

-- `getStrElement` on a token that the delimiter ends, with no NUL in it: the token is returned, and
-- the buffer stands behind the delimiter.
pub get_str_element-token :
    (b : ByteBuffer) (delim : ℕ) (token rest : Bytes)
    → Lacks delim token
    → Lacks 0 token
    → Holds b (token ++ delim ∷ rest)
    → get_str_element b delim ≡ (token, at_pos b (b.rpos + length token + 1))
unfolding get_str_element
get_str_element-token b delim token rest l z h =
    let len = length-Holds b (token ++ delim ∷ rest) h in
    let parts = length-append token (delim ∷ rest) in
    let end = b.rpos + length token in
    let n : u32 (end + 1 + 4294967296 - b.rpos) ≡ length token + 1 =
      omega (arith, len, parts, h.fits) in
    let wraps : u32 (end + 1) ≡ end + 1 = omega (arith, len, parts, h.fits) in
    let found =
      find_hit token rest b delim b.rpos h.inside h.fits h.rest_is
        (Lacks-PassedBy delim token l z) in
    let got = get_bytes_inside (length token + 1) b (omega (arith, len, parts)) h.fits in
    let far : (end == 4294967295) ≡ false = ne→== _ _ (omega (arith, len, parts, h.fits)) in
    let some_bytes : (length token + 1 == 0) ≡ false = ne→== _ _ (omega arith) in
    rw (
      found,
      n,
      wraps,
      got,
      h.rest_is,
      far,
      some_bytes,
      token_back token delim rest (length token + 1) refl,
      before-nul token z,
    )

pub token-Holds :
    (b : ByteBuffer) (delim : ℕ) (token rest : Bytes)
    → Holds b (token ++ delim ∷ rest)
    → Holds (at_pos b (b.rpos + length token + 1)) rest
token-Holds b delim token rest h =
    advance-Holds b _ (token ++ delim ∷ []) rest
      (subst (Holds b) (sym (append_assoc token (delim ∷ []) rest)) h)
      (omega (arith, length-append token (delim ∷ [])))
