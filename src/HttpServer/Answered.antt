-- ===== src/HttpServer/Answered.antt =====
-- `readClient` on whatever comes: its loops, and what it leaves of the client.
use my_power_mirror.Base.{
  Some, ℕ, ◌+◌, ◌-◌, ◌%◌, ◌^◌, ◌≤◌, ◌<◌, none, some, Option, List, [], ◌∷◌, ◌++◌, Bytes, codes, ltb,
  ltb→le, Bool-cases, inl, inr, ◌==◌, length, length-append, length-take, length-replicate, take,
  replicate, arith, Outcome, ok, ◌>>=◌, Ends, undefined, returns, Ends-bind, Ends-bind_two, Ends-if,
}
use my_power_mirror.CString.{before}
use my_power_mirror.CString.Numbers.{atoi-Ends}
use my_power_mirror.Client.{Client}
use my_power_mirror.HttpMessage.HeaderMap.{get_header_value}
use my_power_mirror.HttpRequest.{HttpRequest, from_bytes, parse}
use my_power_mirror.HttpRequest.Ending.{received-Ends, any-All}
use my_power_mirror.HttpResponse.{contains}
use my_power_mirror.HttpServer.{handle_request}
use my_power_mirror.HttpServer.Receiving.{
  Received, arrived, hung_up, broken, received_len, received_bytes, waiting, handled, data_len,
  widen, text_in, append_text, receive_rest, request_in, receive_expected, read_bytes, read_client,
}
use my_power_mirror.HttpServer.Replied.{Replied, handle_request-Replied}
use my_power_mirror.HttpServer.Loop.Rounds.{OnClient}

text_in-Ends : (memory : Bytes) → Ends Some (text_in memory)
unfolding text_in
text_in-Ends memory =
    Ends-if (ltb (length (before 0 memory)) data_len) (λ _. returns tt) (λ _. undefined)

append_text-Ends : (memory buff : Bytes) → Ends Some (append_text memory buff)
unfolding append_text
append_text-Ends memory buff = Ends-bind (text_in-Ends memory) λ text _.
    Ends-bind (text_in-Ends buff) λ more _.
      Ends-if (ltb (length text + length more) data_len) (λ _. returns tt) (λ _. undefined)

receive_rest-Ends :
    (cont_len : ℕ) (memory : Bytes) (temp : ℕ) (rs : List Received)
    → Ends Some (receive_rest cont_len memory temp rs)
unfolding receive_rest
receive_rest-Ends cont_len memory temp [] = returns tt
receive_rest-Ends cont_len memory temp (r ∷ rs) =
    Ends-bind (append_text-Ends memory (received_bytes r)) λ memory' _.
      let temp' = (temp + received_len r) % 2 ^ 64 in
      Ends-if (temp' == cont_len) (λ _. returns tt)
        (λ _. receive_rest-Ends cont_len memory' temp' rs)

-- The bytes that a request is made from.
abbrev array : Bytes → ℕ → Bytes
array memory n = take n memory ++ replicate (n - length memory) 0

length-array : (memory : Bytes) (n : ℕ) → length (array memory n) ≤ n
length-array memory n = omega (
  arith,
  length-append (take n memory) (replicate (n - length memory) 0),
  length-take n memory,
  length-replicate {A = ℕ} (n - length memory) 0,
)

-- A request made from the array, and what is done with it.
module _ {A : Type 0} (P : A → Type 0) (k : HttpRequest → Outcome A)
    (made : (bytes : Bytes) → length bytes < 4294967296 → Ends P (from_bytes bytes >>= k)) where
  request_in-Ends : (memory : Bytes) (n : ℕ) → Ends P (request_in memory n >>= k)
  unfolding request_in
  request_in-Ends memory n = elim (Bool-cases (ltb data_len n)) [
    | inl e ↦ rw e undefined
    | inr e ↦
        rw e (made (array memory n) (omega (arith, length-array memory n, ltb→le data_len n e)))
  ]

counted :
    (n : ℕ) (o : Option (Bytes × ℕ))
    → Some o
    → Ends {A = Option (Bytes × ℕ)} Some (elim o [
      | none ↦ ok none
      | some (memory', temp) ↦ ok (some (memory', (n + temp) % 2 ^ 64))
    ])
counted n none h = returns tt
counted n (some (memory, temp)) h = returns tt

receive_expected-Ends :
    (bytes : Bytes) (n : ℕ) (rs : List Received) → Ends Some (receive_expected bytes n rs)
unfolding receive_expected
receive_expected-Ends bytes n rs =
    request_in-Ends Some _
      (λ text fits.
        Ends-bind_two (from_bytes text) parse
          (received-Ends (λ _. Unit {0}) (λ x h. tt) text (any-All text) fits)
          λ (done, req) _.
            Ends-bind (atoi-Ends (get_header_value req.message.headers (codes "Content-Length")))
              λ cont_len _. Ends-bind (receive_rest-Ends (widen cont_len) bytes 0 rs) (counted n))
      bytes n

read-Replied :
    (cl : Client) (o : Option (Bytes × ℕ))
    → Replied cl
    → Ends (OnClient Replied) (elim o [
      | none ↦ ok waiting
      | some (memory, len_recv) ↦
          request_in memory len_recv >>= λ req. handle_request cl req >>= λ cl'. ok (handled cl')
    ])
read-Replied cl none replied = returns tt
read-Replied cl (some (memory, n)) replied =
    request_in-Ends (OnClient Replied) _
      (λ text fits.
        Ends-bind_two (from_bytes text) (handle_request cl)
          (handle_request-Replied cl text replied fits) λ cl' replied'. returns replied')
      memory n

read_bytes-Replied :
    (cl : Client) (bytes : Bytes) (rs : List Received)
    → Replied cl
    → Ends (OnClient Replied) (read_bytes cl bytes rs)
unfolding read_bytes
read_bytes-Replied cl bytes rs replied = Ends-bind (text_in-Ends bytes) λ text _.
    Ends-bind {P = Some}
      (Ends-if (contains (codes "Expect: 100-continue") text)
        (λ _. receive_expected-Ends bytes (length bytes) rs) (λ _. returns tt))
      (λ o _. read-Replied cl o replied)

-- Whatever comes: `readClient` disconnects the client, waits, or leaves it with exactly the texts of
-- its queue sent; or the code is undefined or throws.
pub read_client-Replied :
    (cl : Client) (rs : List Received) → Replied cl → Ends (OnClient Replied) (read_client cl rs)
unfolding read_client
read_client-Replied cl [] replied = returns tt
read_client-Replied cl (arrived [] ∷ rs) replied = returns tt
read_client-Replied cl (arrived (x ∷ bytes) ∷ rs) replied =
    read_bytes-Replied cl (x ∷ bytes) rs replied
read_client-Replied cl (hung_up ∷ rs) replied = returns tt
read_client-Replied cl (broken ∷ rs) replied = returns tt
