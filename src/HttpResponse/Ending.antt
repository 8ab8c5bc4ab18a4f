-- ===== src/HttpResponse/Ending.antt =====
-- The loops of `create` of a response.
use my_power_mirror.Base.{
  Some, ℕ, zero, suc, ◌+◌, none, some, [], ◌∷◌, ◌++◌, Bytes, codes, u32, if◌then◌else◌, Bool, true,
  inl, inr, Option-cases, ltb, leb, length, Ends, undefined, returns, Ends-bind, Ends-if,
}
use my_power_mirror.ByteBuffer.{ByteBuffer, size, resized, append, put_bytes}
use my_power_mirror.HttpMessage.{Cells, Message, put_line, put_header_lines, put_headers}
use my_power_mirror.HttpMessage.HeaderMap.{Headers}
use my_power_mirror.HttpRequest.{known_bytes, put_body}
use my_power_mirror.HttpResponse.{HttpResponse, create_response}

append-Ends : (b : ByteBuffer) (bytes : Bytes) → Ends Some (append b bytes)
unfolding append
append-Ends b bytes =
    let end = u32 (b.wpos + length bytes) in
    let room = if ltb (size b) end then resized end b.buf else b.buf in
    Ends-if (leb (b.wpos + length bytes) (length room)) (λ _. returns tt) (λ _. undefined)

put_bytes-Ends : (b : ByteBuffer) (bytes : Bytes) → Ends Some (put_bytes b bytes)
unfolding put_bytes
put_bytes-Ends b [] = returns tt
put_bytes-Ends b (x ∷ xs) = Ends-bind (append-Ends b (x ∷ [])) λ b' _. put_bytes-Ends b' xs

put_line-Ends : (m : Message) (s : Bytes) (crlf_end : Bool) → Ends Some (put_line m s crlf_end)
unfolding put_line
put_line-Ends m s crlf_end = Ends-bind (put_bytes-Ends m.buffer _) λ b _. returns tt

put_header_lines-Ends : (m : Message) (hs : Headers) → Ends Some (put_header_lines m hs)
unfolding put_header_lines
put_header_lines-Ends m [] = returns tt
put_header_lines-Ends m ((k, v) ∷ hs) =
    Ends-bind (put_line-Ends m (k ++ (codes ": " ++ v)) true) λ m' _. put_header_lines-Ends m' hs

put_headers-Ends : (m : Message) → Ends Some (put_headers m)
unfolding put_headers
put_headers-Ends m = Ends-bind (put_header_lines-Ends m m.headers) λ m' _. put_line-Ends m' [] true

known_bytes-Ends : (cells : Cells) (n : ℕ) → Ends Some (known_bytes cells n)
unfolding known_bytes
known_bytes-Ends cells zero = returns tt
known_bytes-Ends [] (suc n) = undefined
known_bytes-Ends (none ∷ cells) (suc n) = undefined
known_bytes-Ends (some x ∷ cells) (suc n) = Ends-bind (known_bytes-Ends cells n) λ xs _. returns tt

put_body-Ends : (m : Message) → Ends Some (put_body m)
unfolding put_body
put_body-Ends m = elim (Option-cases m.body) [
  | inl e ↦ rw e (returns tt)
  | inr (cells, e) ↦ rw e (
      Ends-if (ltb 0 m.data_len)
        (λ _.
          Ends-bind (known_bytes-Ends cells m.data_len)
            λ bytes _. Ends-bind (put_bytes-Ends m.buffer bytes) λ b _. returns tt)
        (λ _. returns tt))
]

-- The loops of `create` end.
pub create_response-Ends : (r : HttpResponse) → Ends (λ _. Unit {0}) (create_response r)
unfolding create_response
create_response-Ends r =
    Ends-bind (put_line-Ends _ _ true)
      λ m _. Ends-bind (put_headers-Ends m) λ m' _. Ends-bind (put_body-Ends m') λ m'' _. returns tt
