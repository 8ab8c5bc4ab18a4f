-- ===== src/HttpMessage/Ending.antt =====
-- The loops of `parseHeaders`, and the bytes of which the headers are made.
use my_power_mirror.Base.{
  ℕ, zero, suc, ◌+◌, ◌-◌, ◌≤◌, ◌≡◌, refl, sym, ap, subst, ◌∙◌, [], ◌∷◌, ◌++◌, Bytes, ◌==◌, length,
  length-append, All, All-append, arith, Ends, returns, undefined, Ends-bind, Ends-if, Ends-map,
}
use my_power_mirror.ByteBuffer.{ByteBuffer}
use my_power_mirror.HttpMessage.{
  Message, get_line, last_char, join_lines, header_lines, parse_headers,
}
use my_power_mirror.HttpMessage.HeaderMap.{Headers}
use my_power_mirror.HttpMessage.Lines.{at_pos}
use my_power_mirror.HttpMessage.Reads.{Readable, Reads, Reads-Readable, get_line-Reads}
use my_power_mirror.HttpMessage.Within.{Within, add_header_line-Ends}

last_char-Ends : (app : Bytes) → Ends (λ _. Unit {0}) (last_char app)
unfolding last_char
last_char-Ends [] = undefined
last_char-Ends (x ∷ []) = returns tt
last_char-Ends (x ∷ y ∷ s) = last_char-Ends (y ∷ s)

-- The line that the inner loop made, and where it left the buffer.
record Joined (P : ℕ → Type 0) (b : ByteBuffer) (r : Bytes × ByteBuffer) : Type 0 where
  pos : ℕ
  moved : r.1 ≡ at_pos b pos
  behind : b.rpos ≤ pos
  inside : pos ≤ length b.buf
  all : All P r.0
  short : length r.0 ≤ pos

-- The rounds that the inner loop needs: one more if the next line is there.
abbrev needed : Bytes → ByteBuffer → ℕ
needed [] b = 1
needed (x ∷ app) b = length b.buf + 2 - b.rpos

pub pos-Reads :
    (P : ℕ → Type 0) (b : ByteBuffer) (r : Bytes × ByteBuffer) (h : Reads P b r) → r.1.rpos ≡ h.pos
pos-Reads P b r h = ap (λ (x : ByteBuffer). x.rpos) h.moved

pub length-Reads :
    (P : ℕ → Type 0) (b : ByteBuffer) (r : Bytes × ByteBuffer)
    → Reads P b r
    → length r.1.buf ≡ length b.buf
length-Reads P b r h = ap (λ (x : ByteBuffer). length x.buf) h.moved

needed-Reads :
    (P : ℕ → Type 0) (b : ByteBuffer) (r : Bytes × ByteBuffer) (fuel : ℕ)
    → Readable P b
    → Reads P b r
    → length b.buf + 2 - b.rpos ≤ suc fuel
    → needed r.0 r.1 ≤ fuel
needed-Reads P b ([], b') fuel c h f = omega (arith, c.within)
needed-Reads P b (y ∷ app, b') fuel c h f =
    omega
      (arith, c.within, h.behind, pos-Reads P b (y ∷ app, b') h, length-Reads P b (y ∷ app, b') h)

Joined-back :
    (P : ℕ → Type 0) (b : ByteBuffer) (r : Bytes × ByteBuffer)
    → Reads P b r
    → (joined : Bytes × ByteBuffer) → Joined P r.1 joined
    → Joined P b joined
Joined-back P b r h joined j = record {
  pos = j.pos;
  moved = j.moved ∙ ap {A = ByteBuffer} {B = ByteBuffer} (λ x. at_pos x j.pos) h.moved;
  behind = omega (arith, h.behind, pos-Reads P b r h, j.behind);
  inside = omega (arith, j.inside, length-Reads P b r h);
  all = j.all;
  short = j.short;
}

join_lines-Ends :
    (P : ℕ → Type 0) (fuel : ℕ) (hline app : Bytes) (b : ByteBuffer)
    → Readable P b
    → needed app b ≤ fuel
    → All P hline
    → length hline ≤ b.rpos
    → Ends (Joined P b) (join_lines fuel hline app b)
unfolding join_lines
join_lines-Ends P zero hline [] b c f h l = absurd (omega arith)
join_lines-Ends P zero hline (x ∷ app) b c f h l = absurd (omega (arith, c.within))
join_lines-Ends P (suc fuel) hline [] b c f h l = unfold last_char in undefined
join_lines-Ends P (suc fuel) hline (x ∷ app) b c f h l =
    let next = get_line b in
    let read = get_line-Reads P b c in
    let from = pos-Reads P b next read in
    Ends-bind (last_char-Ends (x ∷ app)) λ ch _.
      Ends-if (ch == b',')
        (λ _. Ends-map (Joined-back P b next read) (
          join_lines-Ends P fuel (hline ++ next.0) next.0 next.1 (Reads-Readable P b next c read)
            (needed-Reads P b next fuel c read f) (All-append P hline next.0 h read.all)
            (omega (arith, from, read.behind, length-append hline next.0))))
        (λ _. returns (record {
          pos = b.rpos;
          moved = refl;
          behind = omega arith;
          inside = c.within;
          all = h;
          short = l;
        }))

-- The headers, and where the outer loop left the buffer.
pub record HeadersRead (P : ℕ → Type 0) (n : ℕ) (b : ByteBuffer) (r : Headers × ByteBuffer)
    : Type 0 where
  pub pos : ℕ
  pub moved : r.1 ≡ at_pos b pos
  pub inside : pos ≤ length b.buf
  pub all : All (Within P n) r.0

HeadersRead-back :
    (P : ℕ → Type 0) (n : ℕ) (b b' : ByteBuffer) (pos : ℕ)
    → b' ≡ at_pos b pos
    → (r : Headers × ByteBuffer) → HeadersRead P n b' r
    → HeadersRead P n b r
HeadersRead-back P n b b' pos e r h = record {
  pos = h.pos;
  moved = h.moved ∙ ap {A = ByteBuffer} {B = ByteBuffer} (λ x. at_pos x h.pos) e;
  inside = omega (arith, h.inside, ap (λ (x : ByteBuffer). length x.buf) e);
  all = h.all;
}

-- The rounds that the loops need for a line that was read.
abbrev Enough : Bytes → ℕ → ℕ → ByteBuffer → Type 0
Enough [] fuel join_fuel b = Unit
Enough (x ∷ line) fuel join_fuel b =
    (length b.buf + 1 ≤ fuel + b.rpos) × (length b.buf + 2 ≤ join_fuel + b.rpos)

Enough-Reads :
    (P : ℕ → Type 0) (b : ByteBuffer) (r : Bytes × ByteBuffer) (fuel join_fuel : ℕ)
    → Reads P b r
    → length b.buf + 1 ≤ suc fuel + b.rpos
    → length b.buf + 2 ≤ join_fuel + 1 + b.rpos
    → Enough r.0 fuel join_fuel r.1
Enough-Reads P b ([], b') fuel join_fuel h f g = tt
Enough-Reads P b (x ∷ line, b') fuel join_fuel h f g =
    let from = pos-Reads P b (x ∷ line, b') h in
    let same = length-Reads P b (x ∷ line, b') h in
    (omega (arith, h.behind, from, same), omega (arith, h.behind, from, same))

header_lines-Ends :
    (P : ℕ → Type 0) (n fuel join_fuel : ℕ) (headers : Headers) (line : Bytes) (b : ByteBuffer)
    → Readable P b
    → length b.buf ≤ n
    → Enough line fuel join_fuel b
    → All (Within P n) headers
    → All P line
    → length line ≤ b.rpos
    → Ends (HeadersRead P n b) (header_lines fuel join_fuel headers line b)
unfolding header_lines
header_lines-Ends P n zero join_fuel headers [] b c le f h p l =
    returns (record { pos = b.rpos; moved = refl; inside = c.within; all = h })
header_lines-Ends P n (suc fuel) join_fuel headers [] b c le f h p l =
    returns (record { pos = b.rpos; moved = refl; inside = c.within; all = h })
header_lines-Ends P n zero join_fuel headers (x ∷ line) b c le f h p l =
    absurd (omega (arith, c.within, f.0))
header_lines-Ends P n (suc fuel) join_fuel headers (x ∷ line) b c le f h p l =
    Ends-bind (join_lines-Ends P join_fuel (x ∷ line) (x ∷ line) b c (omega (arith, f.1)) p l)
      λ (joined, b') j.
        let at_b' : b' ≡ at_pos b j.pos = j.moved in
        let from : b'.rpos ≡ j.pos = ap (λ (x : ByteBuffer). x.rpos) at_b' in
        let same : length b'.buf ≡ length b.buf = ap (λ (x : ByteBuffer). length x.buf) at_b' in
        let c' : Readable P b' =
          subst (Readable P) (sym at_b')
            (record { fits = c.fits; within = j.inside; bytes = c.bytes }) in
        let next = get_line b' in
        let read = get_line-Reads P b' c' in
        Ends-bind
          (add_header_line-Ends P n headers joined h j.all (omega (arith, j.short, j.inside)))
          λ headers' h'.
            Ends-map
              (HeadersRead-back P n b next.1 read.pos
                (read.moved ∙ ap {A = ByteBuffer} {B = ByteBuffer} (λ x. at_pos x read.pos) at_b'))
              (header_lines-Ends P n fuel join_fuel headers' next.0 next.1
                (Reads-Readable P b' next c' read)
                (omega (arith, length-Reads P b' next read, same))
                (Enough-Reads P b' next fuel join_fuel read
                  (omega (arith, f.0, from, same, j.behind))
                  (omega (arith, f.1, from, same, j.behind)))
                h' read.all (omega (arith, read.behind, pos-Reads P b' next read)))

-- `parseHeaders` on any message whose buffer fits in 32 bits and is read up to a place in it: its
-- loops end, and it changes the headers and the read position only.
pub parse_headers-Ends :
    (P : ℕ → Type 0) (n : ℕ) (m : Message)
    → Readable P m.buffer
    → length m.buffer.buf ≤ n
    → All (Within P n) m.headers
    → Ends
        (λ m'.
          (headers : Headers) × (pos : ℕ) × (m'
            ≡ record m { headers = headers; buffer = at_pos m.buffer pos })
          × (pos ≤ length m.buffer.buf)
          × All (Within P n) headers)
        (parse_headers m)
unfolding parse_headers
parse_headers-Ends P n m c le h =
    let first = get_line m.buffer in
    let read = get_line-Reads P m.buffer c in
    let fuel = length m.buffer.buf + 1 in
    let same = length-Reads P m.buffer first read in
    Ends-bind
      (header_lines-Ends P n fuel fuel m.headers first.0 first.1
        (Reads-Readable P m.buffer first c read) (omega (arith, same))
        (Enough-Reads P m.buffer first fuel fuel read (omega arith) (omega arith)) h read.all
        (omega (arith, read.behind, pos-Reads P m.buffer first read)))
      λ (headers, b') r. returns (
        headers,
        r.pos,
        ap {A = ByteBuffer} {B = Message} (λ b. record m { headers = headers; buffer = b })
            (r.moved ∙ ap {A = ByteBuffer} {B = ByteBuffer} (λ x. at_pos x r.pos) read.moved),
        omega (arith, r.inside, same),
        r.all,
      )
