-- ===== src/HttpServer/Texts.antt =====
-- The text in the array of readClient as long as no NUL comes, and its length.
use my_power_mirror.Base.{
  ◌+◌, ◌≤◌, ◌<◌, ◌≡◌, ◌≢◌, refl, subst, Bytes, ◌==◌, length, All, arith, Ends, undefined, returns,
  Ends-if, Ends-bind, sym, ap, le→ltb, ltb, ltb→lt, Bool-cases, inl, inr, ==→ne, [], ◌∷◌, ◌++◌,
  drop, take, append_assoc, length-append, append-nil, All-append, ◌∙◌, ℕ, ◌-◌, ◌%◌, ◌^◌, List,
  Option, none, some,
}
use my_power_mirror.CString.{before}
use my_power_mirror.CString.Laws.{Lacks, before-end, before-Lacks}
use my_power_mirror.HttpRequest.{from_bytes}
use my_power_mirror.HttpServer.Receiving.{
  Received, arrived, hung_up, broken, received_len, received_bytes, data_len, text_in, append_text,
  receive_rest, request_in,
}

-- The text at the start of the array has this length, with room for its NUL.
pub record Texts (memory : Bytes) (n : ℕ) : Type 0 where
  pub len : length (before 0 memory) ≡ n
  pub fits : n < data_len

pub text_in-before :
    (memory : Bytes)
    → Ends (λ text. (text ≡ before 0 memory) × (length text < data_len)) (text_in memory)
unfolding text_in
text_in-before memory =
    Ends-if (ltb (length (before 0 memory)) data_len)
      (λ h. returns (refl, ltb→lt (length (before 0 memory)) data_len h)) (λ _. undefined)

pub before-is-Lacks : (memory : Bytes) → Lacks 0 (before 0 memory)
unfolding before
before-is-Lacks [] = tt
before-is-Lacks (x ∷ memory) = elim (Bool-cases (x == 0)) [
  | inl e ↦ rw e tt
  | inr e ↦ rw e (==→ne x 0 e, before-is-Lacks memory)
]

append_text-Texts :
    (memory buff : Bytes) (n : ℕ)
    → Texts memory n
    → Lacks 0 buff
    → Ends (λ memory'. Texts memory' (n + length buff)) (append_text memory buff)
unfolding append_text
append_text-Texts memory buff n texts lacks = Ends-bind (text_in-before memory) λ text known.
    Ends-bind (text_in-before buff) λ more other.
      Ends-if (ltb (length text + length more) data_len)
        (λ h.
          let small = ltb→lt (length text + length more) data_len h in
          let rest = drop (length text + length more + 1) memory in
          let whole : before 0 (text ++ (more ++ 0 ∷ rest)) ≡ text ++ more =
            ap (before 0) (sym (append_assoc text more (0 ∷ rest)))
            ∙ before-Lacks 0 (text ++ more) rest (
                All-append _ text more (subst (Lacks 0) (sym known.0) (before-is-Lacks memory))
                  (subst (Lacks 0) (sym other.0) (before-is-Lacks buff))) in
          let lens = length-append text more in
          let same : length more ≡ length buff = ap length (other.0 ∙ before-end 0 buff lacks) in
          let front : length text ≡ n = ap length known.0 ∙ texts.len in
          returns (record {
            len = ap length whole ∙ omega (arith, lens, same, front);
            fits = omega (arith, same, front);
          }))
        (λ _. undefined)

-- What is received is clean: no NUL, and no call fails.
abbrev pub IsClean : Received → Type 0
IsClean r = (r ≢ broken) × Lacks 0 (received_bytes r)

received_len-length : (r : Received) → r ≢ broken → received_len r ≡ length (received_bytes r)
received_len-length (arrived bytes) ne = refl
received_len-length hung_up ne = refl
received_len-length broken ne = absurd (ne refl)

-- Nothing yet, or the array with a text of the length that was counted.
abbrev pub ReceivedText : ℕ → Option (Bytes × ℕ) → Type 0
ReceivedText n none = Unit
ReceivedText n (some (memory, temp)) = Texts memory (n + temp)

pub receive_rest-Texts :
    (cont_len n : ℕ) (memory : Bytes) (temp : ℕ) (rs : List Received)
    → Texts memory (n + temp)
    → All IsClean rs
    → Ends (ReceivedText n) (receive_rest cont_len memory temp rs)
unfolding receive_rest
receive_rest-Texts cont_len n memory temp [] texts clean = returns tt
receive_rest-Texts cont_len n memory temp (r ∷ rs) texts clean =
    let len = received_len-length r (clean.0).0 in
    Ends-bind (append_text-Texts memory (received_bytes r) (n + temp) texts (clean.0).1)
      λ memory' texts'.
        let temp' = (temp + received_len r) % 2 ^ 64 in
        let next : Texts memory' (n + temp') =
          subst (Texts memory') (omega (arith, texts'.fits)) texts' in
        Ends-if (temp' == cont_len) (λ _. returns next)
          (λ _. receive_rest-Texts cont_len n memory' temp' rs next clean.1)

take-before : (d : ℕ) (s : Bytes) → take (length (before d s)) s ≡ before d s
unfolding before
take-before d [] = refl
take-before d (x ∷ s) = ground (arith, take-before d s)

length-before : (d : ℕ) (s : Bytes) → length (before d s) ≤ length s
unfolding before
length-before d [] = ground arith
length-before d (x ∷ s) = ground (arith, length-before d s)

-- The request that is made from the array has the bytes of the text.
pub request_in-Texts :
    (memory : Bytes) (n : ℕ) → Texts memory n → request_in memory n ≡ from_bytes (before 0 memory)
unfolding request_in
request_in-Texts memory n texts =
    let whole : take n memory ≡ before 0 memory =
      ap (λ k. take k memory) (sym texts.len) ∙ take-before 0 memory in
    let none_left : n - length memory ≡ 0 = omega (arith, texts.len, length-before 0 memory) in
    rw (
      le→ltb data_len n (omega (arith, texts.fits)),
      whole,
      none_left,
      append-nil (before 0 memory),
    )
