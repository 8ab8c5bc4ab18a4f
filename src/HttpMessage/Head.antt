-- ===== src/HttpMessage/Head.antt =====
-- A sorted header map that is read from a message with no headers yet.
use my_power_mirror.Base.{
  ℕ, ◌+◌, ◌≡◌, refl, sym, ap, subst, ◌∙◌, [], ◌∷◌, ◌++◌, append_assoc, Bytes, length, All, ok,
}
use my_power_mirror.HttpMessage.{Message, parse_headers}
use my_power_mirror.HttpMessage.HeaderMap.{Headers}
use my_power_mirror.HttpMessage.HeaderMap.Laws.{IsSorted, insert_all, insert_all-IsSorted}
use my_power_mirror.HttpMessage.Lines.{Holds, at_pos, length-Holds, advance-Holds}
use my_power_mirror.HttpMessage.Wire.{header_text, header_block, IsHeader, parse_headers-block}

pub header_block-append :
    (hs : Headers) (bytes : Bytes) → header_block hs [] ++ bytes ≡ header_block hs bytes
header_block-append [] bytes = refl
header_block-append ((k, v) ∷ hs) bytes =
    append_assoc (header_text k v) (13 ∷ 10 ∷ header_block hs []) bytes
    ∙ ap (λ t. header_text k v ++ 13 ∷ 10 ∷ t) (header_block-append hs bytes)

-- `parseHeaders` gives the map that was written, and the buffer stands in front of the body.
pub parse_headers-IsSorted :
    (m : Message) (hs : Headers) (bytes : Bytes)
    → m.headers ≡ []
    → IsSorted hs
    → All IsHeader hs
    → Holds m.buffer (header_block hs bytes)
    → (q : ℕ) × Holds (at_pos m.buffer q) bytes
      × (parse_headers m ≡ ok (record m { headers = hs; buffer = at_pos m.buffer q }))
parse_headers-IsSorted m hs bytes fresh sorted lines held =
    let block = header_block hs [] in
    let q = m.buffer.rpos + length block in
    let at_body : Holds (at_pos m.buffer q) bytes =
      advance-Holds m.buffer q block bytes
        (subst (Holds m.buffer) (sym (header_block-append hs bytes)) held) refl in
    let same : insert_all hs m.headers ≡ hs =
      ap (insert_all hs) fresh ∙ insert_all-IsSorted hs sorted in
    (
      q,
      at_body,
      parse_headers-block m hs bytes q held lines (length-Holds (at_pos m.buffer q) bytes at_body)
          ∙ ap (λ headers. ok (record m { headers = headers; buffer = at_pos m.buffer q })) same,
    )
