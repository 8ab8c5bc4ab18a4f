-- ===== src/ByteBuffer/Tests.antt =====
-- The byte buffer on concrete contents.
use my_power_mirror.ByteBuffer.Printing.{print_hex}
use my_power_mirror.CString.{before}
use my_power_mirror.CString.Numbers.{decimal, digits}
use my_power_mirror.Base.{
  codes, ◌≡◌, ◌↔◌, length, inl, refl, true, false, [], ◌∷◌, arith, minus_one_32, ok,
}
use my_power_mirror.ByteBuffer.{
  ByteBuffer, make, append, put_bytes, get_bytes, set_read_pos, put_word, put_word_at, get_word_at,
  find, find_from, replace, equals, clone, clone_from, insert, get_at, read_at,
}
use my_power_mirror.ByteBuffer.Compare.{equals_iff}
use my_power_mirror.ByteBuffer.Insert.{put_word_at-inside}
use my_power_mirror.ByteBuffer.Reading.{get_bytes-put_bytes, get_word_at-put_word}
use my_power_mirror.ByteBuffer.Search.{FoundAt, find-FoundAt, replaced, replace-replaced}

-- Five bytes, the write position behind the second.
abbrev five : ByteBuffer
five = record { rpos = 0; wpos = 2; buf = 7 ∷ 1 ∷ 9 ∷ 1 ∷ 4 ∷ [] }

abbrev five_appended : ByteBuffer
five_appended = record { rpos = 0; wpos = 6; buf = 7 ∷ 1 ∷ 5 ∷ 6 ∷ 7 ∷ 8 ∷ [] }

append-five : append five (5 ∷ 6 ∷ 7 ∷ 8 ∷ []) ≡ ok five_appended
unfolding append
append-five = refl

put_bytes-five :
    put_bytes five (5 ∷ 6 ∷ []) ≡ ok (record five { wpos = 4; buf = 7 ∷ 1 ∷ 5 ∷ 6 ∷ 4 ∷ [] })
unfolding put_bytes append
put_bytes-five = refl

find-five : find five 1 2 ≡ 3
unfolding find find_from get_at read_at
find-five = refl

find-five_missing : find five 8 0 ≡ minus_one_32
unfolding find find_from get_at read_at
find-five_missing = refl

clone-five : clone five ≡ make
unfolding clone clone_from insert get_at
clone-five = refl

get_bytes-put_bytes_example :
    (b' : ByteBuffer) × (put_bytes five (5 ∷ 6 ∷ 7 ∷ []) ≡ ok b')
    × ((get_bytes 3 (set_read_pos b' 2)).0 ≡ 5 ∷ 6 ∷ 7 ∷ [])
get_bytes-put_bytes_example = get_bytes-put_bytes five 5 (6 ∷ 7 ∷ []) (omega arith) (omega arith)

put_word_at-inside_example :
    (get_word_at 2 (put_word_at 2 five 515 3) 3 ≡ 515)
    × (get_word_at 2 (put_word_at 2 five 515 3) 1 ≡ get_word_at 2 five 1)
    × (length (put_word_at 2 five 515 3).buf ≡ 5)
    × ((put_word_at 2 five 515 3).rpos ≡ 0)
put_word_at-inside_example =
    put_word_at-inside 2 five 515 3 1 2 (omega arith) (omega arith) (omega arith)
      (inl (omega arith))

get_word_at-put_word_example :
    (b' : ByteBuffer) × (put_word 4 five 305419896 ≡ ok b')
    × (get_word_at 4 b' 2 ≡ 305419896)
    × (b'.wpos ≡ 6)
get_word_at-put_word_example =
    get_word_at-put_word 4 five 305419896 (omega arith) (omega arith) (omega arith)

find-FoundAt_example : FoundAt 1 (9 ∷ 1 ∷ 4 ∷ []) 2 (find five 1 2)
find-FoundAt_example = find-FoundAt five 1 2 (omega arith) (omega arith)

replace-replaced_example :
    replace five 1 0 0 false ≡ record five { buf = replaced 1 0 false (7 ∷ 1 ∷ 9 ∷ 1 ∷ 4 ∷ []) }
replace-replaced_example = replace-replaced five 1 0 0 false (omega arith) (omega arith)

equals_iff_example : (equals five make ≡ true) ↔ (five.buf ≡ make.buf)
equals_iff_example = equals_iff five make (omega arith) (omega arith)

-- What is printed of two bytes named "b".
printed :
    print_hex
      (record { name = codes "b"; content = record { rpos = 0; wpos = 2; buf = 65 ∷ 255 ∷ [] } })
    ≡ codes "ByteBuffer b Length: 2. Hex Print\n0x41 0xff \n"
unfolding print_hex before decimal digits
printed = refl
