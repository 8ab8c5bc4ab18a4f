-- ===== src/ByteBuffer/Search.antt =====
-- `find` and `replace` against the contents from the start position on.
use my_power_mirror.Base.{
  ℕ, zero, suc, ◌+◌, ◌-◌, ◌≤◌, ◌<◌, ◌≡◌, ◌≢◌, ◌⊎◌, inl, inr, refl, sym, ap, ap₂, ◌∙◌, Bool, false,
  not, ◌&&◌, ◌||◌, All, [], ◌∷◌, ◌++◌, append-nil, take_ge, Bytes, ◌==◌, if◌then◌else◌, length,
  length-append, length-drop, drop_ge, Bool-cases, take, drop, take-append-drop, length-take,
  take-append_length, drop-append_length, arith, u32, minus_one_32, ==→eq,
}
use my_power_mirror.CString.Laws.{Lacks}
use my_power_mirror.ByteBuffer.{ByteBuffer, overwrite, find_from, find, replace_from, replace}
use my_power_mirror.ByteBuffer.Reading.{drop-cons}
use my_power_mirror.ByteBuffer.Compare.{get_at_inside}

tail_of : Bytes → Bytes
tail_of [] = []
tail_of (x ∷ xs) = xs

-- A search for `key` ends at a byte with this value: the key, or a NUL if the key is none.
pub ends_search : ℕ → ℕ → Bool
ends_search key x = (not (key == 0) && x == 0) || x == key

abbrev pub PassedBy : ℕ → Bytes → Type 0
PassedBy key = All (λ x. ends_search key x ≡ false)

-- The result of a search for `key` in `bytes`, which stand at position i.
abbrev pub FoundAt : ℕ → Bytes → ℕ → ℕ → Type 0
FoundAt key bytes i r =
    ((pre : Bytes) × (post : Bytes) × (bytes ≡ pre ++ key ∷ post)
      × PassedBy key pre
      × (r ≡ i + length pre))
    ⊎ ((pre : Bytes) × (post : Bytes) × (bytes ≡ pre ++ 0 ∷ post)
        × PassedBy key pre
        × (key ≢ 0)
        × (r ≡ minus_one_32))
    ⊎ (PassedBy key bytes × (r ≡ minus_one_32))

FoundAt-cons :
    (key x i r : ℕ) (bytes : Bytes)
    → ends_search key x ≡ false
    → FoundAt key bytes (i + 1) r
    → FoundAt key (x ∷ bytes) i r
FoundAt-cons key x i r bytes h (inl (pre, post, e, p, at)) =
    inl (x ∷ pre, post, ap (◌∷◌ x) e, (h, p), omega arith)
FoundAt-cons key x i r bytes h (inr (inl (pre, post, e, p, ne, at))) =
    inr (inl (x ∷ pre, post, ap (◌∷◌ x) e, (h, p), ne, at))
FoundAt-cons key x i r bytes h (inr (inr (p, at))) = inr (inr ((h, p), at))

-- One round, at the byte x with the later rounds' result.
FoundAt-round :
    (key x i later : ℕ) (bytes : Bytes)
    → FoundAt key bytes (i + 1) later
    → FoundAt key
        (x ∷ bytes)
        i
        (if not (key == 0) && x == 0 then minus_one_32 else if x == key then i else later)
FoundAt-round key x i later bytes f = elim (Bool-cases (not (key == 0) && x == 0)) [
  | inl stop ↦
      let x_zero : x ≡ 0 = ground arith in
      let key_ne : key ≢ 0 = ground arith in
      rw stop (inr (inl ([], bytes, ap (λ y. y ∷ bytes) x_zero, tt, key_ne, refl)))
  | inr on ↦ elim (Bool-cases (x == key)) [
    | inl hit ↦
        rw (on, hit) (inl ([], bytes, ap (λ y. y ∷ bytes) (==→eq x key hit), tt, omega arith))
    | inr miss ↦
        let passed : ends_search key x ≡ false = unfold ends_search in rw (on, miss) in
        rw (on, miss) (FoundAt-cons key x i later bytes passed f)
  ]
]

find_from-round :
    (left i x : ℕ) (b : ByteBuffer) (key : ℕ)
    → drop i b.buf ≡ x ∷ drop (i + 1) b.buf
    → i < length b.buf
    → FoundAt key (drop (i + 1) b.buf) (i + 1) (find_from left (i + 1) b key)
    → FoundAt key (drop i b.buf) i (find_from (suc left) i b key)
unfolding find_from
find_from-round left i x b key e h f =
    rw (e, get_at_inside b i x _ e h)
      (FoundAt-round key x i (find_from left (i + 1) b key) (drop (i + 1) b.buf) f)

find_from-FoundAt :
    (left i : ℕ) (b : ByteBuffer) (key : ℕ)
    → i + left ≡ length b.buf
    → FoundAt key (drop i b.buf) i (find_from left i b key)
find_from-FoundAt zero i b key h =
    rw (drop_ge i b.buf (omega arith)) (inr (inr (tt, unfold find_from in refl)))
find_from-FoundAt (suc left) i b key h =
    let (x, e) = drop-cons i b.buf (omega arith) in
    find_from-round left i x b key e (omega arith)
      (find_from-FoundAt left (i + 1) b key (omega arith))

-- `find` from a position on gives the first place of the key, if nothing in front of it ends the
-- search, or -1: where a NUL comes first and the key is none, or where neither is there.
pub find-FoundAt :
    (b : ByteBuffer) (key start : ℕ)
    → start ≤ length b.buf
    → length b.buf < 4294967296
    → FoundAt key (drop start b.buf) start (find b key start)
unfolding find
find-FoundAt b key start h k =
    let whole : u32 (length b.buf) ≡ length b.buf = omega arith in
    rw whole (find_from-FoundAt (length b.buf - start) start b key (omega arith))

find_from_hit :
    (pre post : Bytes) (left i : ℕ) (b : ByteBuffer) (key : ℕ)
    → i + left ≡ length b.buf
    → drop i b.buf ≡ pre ++ key ∷ post
    → PassedBy key pre
    → find_from left i b key ≡ i + length pre
unfolding find_from ends_search tail_of
find_from_hit pre post zero i b key h e p =
    absurd (omega (arith, ap length e, length-append pre (key ∷ post), length-drop i b.buf))
find_from_hit [] post (suc left) i b key h e p =
    rw (get_at_inside b i key post e (omega arith)) (ground arith)
find_from_hit (x ∷ pre) post (suc left) i b key h e p =
    let (y, f) = drop-cons i b.buf (omega arith) in
    let next : drop (i + 1) b.buf ≡ pre ++ key ∷ post = ap tail_of (sym f ∙ e) in
    let later = find_from_hit pre post left (i + 1) b key (omega arith) next p.1 in
    rw (get_at_inside b i x _ e (omega arith)) (ground (arith, p.0, later))

-- The first place of the key, where nothing in front of it ends the search.
pub find_hit :
    (pre post : Bytes) (b : ByteBuffer) (key start : ℕ)
    → start ≤ length b.buf
    → length b.buf < 4294967296
    → drop start b.buf ≡ pre ++ key ∷ post
    → PassedBy key pre
    → find b key start ≡ start + length pre
unfolding find
find_hit pre post b key start h k e p =
    let whole : u32 (length b.buf) ≡ length b.buf = omega arith in
    rw whole (find_from_hit pre post (length b.buf - start) start b key (omega arith) e p)

pub Lacks-PassedBy : (key : ℕ) (pre : Bytes) → Lacks key pre → Lacks 0 pre → PassedBy key pre
unfolding ends_search
Lacks-PassedBy key [] h k = tt
Lacks-PassedBy key (x ∷ pre) h k = (ground arith, Lacks-PassedBy key pre h.1 k.1)

-- What `replace` makes of the bytes from the start position on.
pub replaced : ℕ → ℕ → Bool → Bytes → Bytes
replaced key rep first [] = []
replaced key rep first (x ∷ xs) =
    let rest = replaced key rep first xs in
    if not (key == 0) && x == 0
    then x ∷ xs
    else if not (x == key)
    then x ∷ rest
    else if first
    then rep ∷ xs
    else rep ∷ rest

abbrev with_buf : ByteBuffer → Bytes → ByteBuffer
with_buf b buf = record b { buf = buf }

take-suc :
    (i x : ℕ) (buf rest tail : Bytes)
    → drop i buf ≡ x ∷ rest
    → take (suc i) buf ++ tail ≡ take i buf ++ x ∷ tail
take-suc zero x [] rest tail e = cc
take-suc zero x (y ∷ buf) rest tail e = cc
take-suc (suc i) x [] rest tail e = cc
take-suc (suc i) x (y ∷ buf) rest tail e = ap (◌∷◌ y) (take-suc i x buf rest tail e)

-- The bytes in front of the next position.
take_next :
    (i x : ℕ) (buf rest tail : Bytes)
    → drop i buf ≡ x ∷ rest
    → take (i + 1) buf ++ tail ≡ take i buf ++ x ∷ tail
take_next i x buf rest tail e =
    let next : i + 1 ≡ suc i = omega arith in rw next (take-suc i x buf rest tail e)

module _ (i y : ℕ) (buf : Bytes) (inside : i < length buf) where
  length-front : length (take i buf) ≡ i
  length-front = omega (arith, length-take i buf)

  take-overwrite : take i (overwrite buf i (y ∷ [])) ≡ take i buf
  take-overwrite = take-append_length i (take i buf) _ length-front

  drop-overwrite : drop i (overwrite buf i (y ∷ [])) ≡ y ∷ drop (i + 1) buf
  drop-overwrite = drop-append_length i (take i buf) _ length-front

  pub length-overwrite_one : length (overwrite buf i (y ∷ [])) ≡ length buf
  length-overwrite_one = omega (
    arith,
    length-front,
    length-append (take i buf) (y ∷ drop (i + 1) buf),
    length-drop (i + 1) buf,
  )

  take_next-overwrite :
      (tail : Bytes) → take (i + 1) (overwrite buf i (y ∷ [])) ++ tail ≡ take i buf ++ y ∷ tail
  take_next-overwrite tail =
      take_next i y (overwrite buf i (y ∷ [])) (drop (i + 1) buf) tail drop-overwrite
      ∙ ap (λ t. t ++ y ∷ tail) take-overwrite

  drop_next-overwrite : drop (i + 1) (overwrite buf i (y ∷ [])) ≡ drop (i + 1) buf
  unfolding tail_of
  drop_next-overwrite =
      let (z, e) = drop-cons i (overwrite buf i (y ∷ [])) (omega (arith, length-overwrite_one)) in
      ap tail_of (sym e ∙ drop-overwrite)

-- One round, by its three tests, with the later rounds' results.
replace_from-round :
    (left i x : ℕ) (b : ByteBuffer) (key rep : ℕ) (first : Bool)
    → drop i b.buf ≡ x ∷ drop (i + 1) b.buf
    → i < length b.buf
    → ((b' : ByteBuffer)
        → length b'.buf ≡ length b.buf
        → replace_from left (i + 1) b' key rep first
          ≡ with_buf b' (take (i + 1) b'.buf ++ replaced key rep first (drop (i + 1) b'.buf)))
    → replace_from (suc left) i b key rep first
      ≡ with_buf b (take i b.buf ++ replaced key rep first (x ∷ drop (i + 1) b.buf))
unfolding replace_from replaced
replace_from-round left i x b key rep first e h later =
    let rest = drop (i + 1) b.buf in
    let b' = with_buf b (overwrite b.buf i (rep ∷ [])) in
    let done = replaced key rep first rest in
    rw (get_at_inside b i x _ e h, later b refl, later b' (length-overwrite_one i rep b.buf h))
      (elim (Bool-cases (not (key == 0) && x == 0)) [
        | inl stop ↦
            rw stop (ap (with_buf b) (sym (take-append-drop i b.buf) ∙ ap (◌++◌ (take i b.buf)) e))
        | inr on ↦ elim (Bool-cases (x == key)) [
          | inr miss ↦ rw (on, miss) (ap (with_buf b) (take_next i x b.buf rest done e))
          | inl hit ↦ elim (Bool-cases first) [
            | inl once ↦ rw (on, hit, once)
            | inr all ↦
                rw (on, hit, all)
                  (ap (with_buf b) (
                    ap (◌++◌ (take (i + 1) b'.buf))
                      (ap₂ (replaced key rep) (sym all) (drop_next-overwrite i rep b.buf h))
                    ∙ take_next-overwrite i rep b.buf h done))
          ]
        ]
      ])

replace_from-replaced :
    (left i : ℕ) (b : ByteBuffer) (key rep : ℕ) (first : Bool)
    → i + left ≡ length b.buf
    → replace_from left i b key rep first
      ≡ with_buf b (take i b.buf ++ replaced key rep first (drop i b.buf))
replace_from-replaced zero i b key rep first h =
    rw (drop_ge i b.buf (omega arith), take_ge i b.buf (omega arith))
      (unfold replace_from replaced in ap (with_buf b) (sym (append-nil b.buf)))
replace_from-replaced (suc left) i b key rep first h =
    let (x, e) = drop-cons i b.buf (omega arith) in
    replace_from-round left i x b key rep first e (omega arith)
      (λ b' same. replace_from-replaced left (i + 1) b' key rep first (omega arith))
    ∙ ap (λ t. with_buf b (take i b.buf ++ replaced key rep first t)) (sym e)

-- `replace` leaves the bytes in front of the start position, the positions and the length alone;
-- from there on it puts `rep` for the first key, or for each, and stops at a NUL if the key is
-- none.
pub replace-replaced :
    (b : ByteBuffer) (key rep start : ℕ) (first : Bool)
    → start ≤ length b.buf
    → length b.buf < 4294967296
    → replace b key rep start first
      ≡ record b { buf = take start b.buf ++ replaced key rep first (drop start b.buf) }
unfolding replace
replace-replaced b key rep start first h k =
    let whole : u32 (length b.buf) ≡ length b.buf = omega arith in
    rw whole (replace_from-replaced (length b.buf - start) start b key rep first (omega arith))
