-- ===== src/HttpServer/Waiting.antt =====
-- When the loop of readClient that waits for the content of a request comes to its end.
use my_power_mirror.Base.{
  ℕ, zero, suc, ◌+◌, ◌%◌, ◌^◌, ◌<◌, ◌≡◌, ◌≢◌, refl, sym, ap, ◌∙◌, none, some, List, [], ◌∷◌, ◌++◌,
  map, append-nil, Bytes, ◌==◌, if◌then◌else◌, length, length-append, drop, replicate, All,
  All-append, append_assoc, arith, lt→ltb, ne→==, eq→==, ok, Ensures, gives, Ensures-any,
}
use my_power_mirror.CString.{before}
use my_power_mirror.CString.Laws.{Lacks, before-Lacks, before-end}
use my_power_mirror.HttpServer.Receiving.{
  Received, arrived, hung_up, broken, received_len, received_bytes, text_in, append_text,
  receive_rest, data_len,
}

-- The bytes that came, and whether no call failed.
abbrev pub total : List Received → ℕ
total [] = 0
total (r ∷ rs) = received_len r + total rs

abbrev pub AllWorked : List Received → Type 0
AllWorked = All (λ r. r ≢ broken)

-- Once more bytes than announced have come, the loop never ends, whatever comes then, as long as no
-- call of `recv` fails and fewer than 2^64 bytes come in all.
pub receive_rest-beyond :
    (cont_len : ℕ) (memory : Bytes) (temp : ℕ) (rs : List Received)
    → cont_len < temp
    → AllWorked rs
    → temp + total rs < 2 ^ 64
    → Ensures (λ o. o ≡ none) (receive_rest cont_len memory temp rs)
unfolding receive_rest
receive_rest-beyond cont_len memory temp [] beyond works few = gives refl
receive_rest-beyond cont_len memory temp (r ∷ rs) beyond works few =
    Ensures-any (append_text memory (received_bytes r)) λ memory' _.
      let fits : (temp + received_len r) % 2 ^ 64 ≡ temp + received_len r = omega arith in
      rw (fits, ne→== (temp + received_len r) cont_len (omega arith))
        (receive_rest-beyond cont_len memory' (temp + received_len r) rs (omega arith) works.1
          (omega arith))

-- After the peer has closed its connection with any other number of bytes than announced, the loop
-- never ends either.
receive_rest-hung_up :
    (cont_len : ℕ) (memory : Bytes) (temp n : ℕ)
    → temp ≢ cont_len
    → temp < 2 ^ 64
    → Ensures (λ o. o ≡ none) (receive_rest cont_len memory temp (replicate n hung_up))
unfolding receive_rest
receive_rest-hung_up cont_len memory temp zero other small = gives refl
receive_rest-hung_up cont_len memory temp (suc n) other small =
    Ensures-any (append_text memory []) λ memory' _.
      let fits : (temp + 0) % 2 ^ 64 ≡ temp = omega arith in
      rw (fits, ne→== temp cont_len other)
        (receive_rest-hung_up cont_len memory' temp n other small)

append_text-Lacks :
    (memory text buff : Bytes)
    → before 0 memory ≡ text
    → Lacks 0 text
    → Lacks 0 buff
    → length text + length buff < data_len
    → (memory' : Bytes) × (append_text memory buff ≡ ok memory') × (before 0 memory' ≡ text ++ buff)
unfolding append_text text_in
append_text-Lacks memory text buff starts clean_text clean fits =
    let rest = drop (length text + length buff + 1) memory in
    (
      text ++ (buff ++ 0 ∷ rest),
      rw (
        before-end 0 buff clean,
        starts,
        lt→ltb (length text) data_len (omega arith),
        lt→ltb (length buff) data_len (omega arith),
        lt→ltb (length text + length buff) data_len fits,
      ),
      ap (before 0) (sym (append_assoc text buff (0 ∷ rest)))
          ∙ before-Lacks 0 (text ++ buff) rest (All-append _ text buff clean_text clean),
    )

-- The chunks one behind the other.
abbrev pub joined : List Bytes → Bytes
joined [] = []
joined (c ∷ cs) = c ++ joined cs

receive_rest-arrived :
    (cont_len : ℕ) (memory memory' : Bytes) (temp : ℕ) (c : Bytes) (rs : List Received)
    → append_text memory c ≡ ok memory'
    → temp + length c < 2 ^ 64
    → receive_rest cont_len memory temp (arrived c ∷ rs) ≡ (
        if temp + length c == cont_len
        then ok (some (memory', temp + length c))
        else receive_rest cont_len memory' (temp + length c) rs)
unfolding receive_rest
receive_rest-arrived cont_len memory memory' temp c rs e few =
    let fits : (temp + length c) % 2 ^ 64 ≡ temp + length c = omega arith in rw (e, fits)

-- Chunks that are not empty and have no NUL, that make up the announced length with what has come
-- before, below 2^64, end the loop with the last of them, if they have room behind the text in the
-- array: then they stand behind it, and `temp` is the announced length.
pub receive_rest-joined :
    (cont_len : ℕ) (memory text : Bytes) (temp : ℕ) (c : Bytes) (cs : List Bytes)
    → before 0 memory ≡ text
    → Lacks 0 text
    → All (λ c. Lacks 0 c × (0 < length c)) (c ∷ cs)
    → temp + length (joined (c ∷ cs)) ≡ cont_len
    → cont_len < 2 ^ 64
    → length text + length (joined (c ∷ cs)) < data_len
    → (memory' : Bytes) × (receive_rest cont_len memory temp (map arrived (c ∷ cs))
        ≡ ok (some (memory', cont_len)))
      × (before 0 memory' ≡ text ++ joined (c ∷ cs))
receive_rest-joined cont_len memory text temp c [] starts clean_text clean whole fits room =
    let lens : length (c ++ []) ≡ length c + 0 = length-append c [] in
    let done : temp + length c ≡ cont_len = omega arith in
    let (memory', e, f) =
      append_text-Lacks memory text c starts clean_text (clean.0).0 (omega arith) in
    (
      memory',
      receive_rest-arrived cont_len memory memory' temp c [] e (omega arith)
          ∙ rw (done, eq→== cont_len cont_len refl),
      rw (append-nil c) f,
    )
receive_rest-joined cont_len memory text temp c (d ∷ cs) starts clean_text clean whole fits room =
    let lens : length (c ++ joined (d ∷ cs)) ≡ length c + length (joined (d ∷ cs)) =
      length-append c (joined (d ∷ cs)) in
    let lens' : length (d ++ joined cs) ≡ length d + length (joined cs) =
      length-append d (joined cs) in
    let lens'' : length (text ++ c) ≡ length text + length c = length-append text c in
    let (memory', e, f) =
      append_text-Lacks memory text c starts clean_text (clean.0).0 (omega arith) in
    let (last, g, k) =
      receive_rest-joined cont_len memory' (text ++ c) (temp + length c) d cs f
        (All-append _ text c clean_text (clean.0).0) clean.1 (omega arith) fits (omega arith) in
    (
      last,
      receive_rest-arrived cont_len memory memory' temp c (map arrived (d ∷ cs)) e (omega arith)
          ∙ rw (ne→== (temp + length c) cont_len (omega (arith, ((clean.1).0).1))) g,
      k ∙ append_assoc text c (joined (d ∷ cs)),
    )
