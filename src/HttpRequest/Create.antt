-- ===== src/HttpRequest/Create.antt =====
-- What `create` writes: the request line, the headers and the body.
use my_power_mirror.Base.{
  ◌+◌, ◌<◌, ◌≡◌, ◌⊎◌, inl, inr, refl, ap, ◌∙◌, false, none, some, [], ◌∷◌, ◌++◌, append_assoc,
  append-nil, map, Bytes, ◌==◌, length, length-append, take_ge, arith, ne→==, lt→ltb, u32, ok,
}
use my_power_mirror.ByteBuffer.{make, size, set_read_pos, clear}
use my_power_mirror.ByteBuffer.Reading.{get_bytes_inside}
use my_power_mirror.HttpMessage.{Message, crlf}
use my_power_mirror.HttpMessage.Head.{header_block-append}
use my_power_mirror.HttpMessage.Wire.{header_block}
use my_power_mirror.HttpMessage.Writing.{
  with_text, filled, put_line-filled, put_headers-block, put_bytes-filled,
}
use my_power_mirror.HttpRequest.{
  HttpRequest, method_int_to_str, known_bytes, put_body, take_all, create,
}
use my_power_mirror.HttpRequest.Methods.{method_str_to_int-method_int_to_str}

-- The message has no body, or one whose array holds these bytes.
abbrev pub HasBody : Message → Bytes → Type 0
HasBody m bytes =
    ((m.body ≡ none) × (bytes ≡ []))
    ⊎ ((m.body ≡ some (map some bytes)) × (m.data_len ≡ length bytes))

abbrev pub request_line : Bytes → Bytes → Bytes → Bytes
request_line name uri version = name ++ (b' ' ∷ (uri ++ (b' ' ∷ version)))

-- A whole request, as it is sent.
abbrev pub request_text : HttpRequest → Bytes → Bytes
request_text r bytes =
    request_line (method_int_to_str r.method) r.request_uri r.message.version
    ++ 13 ∷ 10 ∷ header_block r.message.headers bytes

known_bytes-map : (bytes : Bytes) → known_bytes (map some bytes) (length bytes) ≡ ok bytes
unfolding known_bytes
known_bytes-map [] = refl
known_bytes-map (x ∷ bytes) = rw (known_bytes-map bytes)

pub put_body-HasBody :
    (m : Message) (t bytes : Bytes)
    → HasBody m bytes
    → length t + length bytes < 4294967296
    → put_body (with_text m t) ≡ ok (with_text m (t ++ bytes))
unfolding put_body
put_body-HasBody m t bytes (inl (e, f)) h = rw (e, f, append-nil t)
put_body-HasBody m t [] (inr (e, f)) h = rw (e, f, append-nil t)
put_body-HasBody m t (x ∷ xs) (inr (e, f)) h = rw (
  e,
  f,
  known_bytes-map (x ∷ xs),
  lt→ltb 0 (length (x ∷ xs)) (omega arith),
  put_bytes-filled m.buffer t (x ∷ xs) h,
)

pub take_all-filled :
    (m : Message) (t : Bytes)
    → length t < 4294967296
    → (m' : Message) × (take_all (with_text m t) ≡ (t, m')) × (m'.buffer.buf ≡ t)
unfolding take_all size
take_all-filled m t h =
    let b = set_read_pos (filled m.buffer t) 0 in
    let whole : u32 (length t) ≡ length t = omega arith in
    (
      record m { buffer = set_read_pos b (0 + length t) },
      rw (whole, get_bytes_inside (length t) b (omega arith) h, take_ge (length t) t (omega arith)),
      refl,
    )

-- For one of the nine methods and a request of less than 4 GiB, `create` gives the request line, a
-- line for each header in the order of the map, a blank line and the body.
pub create-request_text :
    (r : HttpRequest) (bytes : Bytes)
    → r.method < 9
    → HasBody r.message bytes
    → length (request_text r bytes) < 4294967296
    → (r' : HttpRequest) × (create r ≡ ok (some (request_text r bytes), r'))
unfolding create clear
create-request_text r bytes known body fits =
    let m = record r.message { buffer = make } in
    let name = method_int_to_str r.method in
    let facts = method_str_to_int-method_int_to_str r.method known in
    let line = request_line name r.request_uri m.version in
    let some_name : (length name == 0) ≡ false = ne→== _ _ (omega (arith, facts.1)) in
    let block = header_block m.headers [] in
    let first = line ++ crlf in
    let whole : (first ++ block) ++ bytes ≡ request_text r bytes =
      append_assoc first block bytes
      ∙ append_assoc line crlf (block ++ bytes)
      ∙ ap (λ t. line ++ 13 ∷ 10 ∷ t) (header_block-append m.headers bytes) in
    let len = ap length whole in
    let len₁ = length-append (first ++ block) bytes in
    let len₂ = length-append first block in
    let len₃ = length-append line crlf in
    let (m', taken, _) = take_all-filled m ((first ++ block) ++ bytes) (omega (arith, len)) in
    (
      record r { message = m' },
      rw (
        some_name,
        put_line-filled m [] line (omega (arith, len, len₁, len₂, len₃)),
        put_headers-block m first (omega (arith, len, len₁, len₂)),
        put_body-HasBody m (first ++ block) bytes body (omega (arith, len, len₁)),
        taken,
        whole,
      ),
    )
