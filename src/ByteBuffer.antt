-- ===== src/ByteBuffer.antt =====
-- src/ByteBuffer.h and src/ByteBuffer.cpp: a byte vector with a read and a write position.
-- A value of a type T is the list of the bytes that it is stored in, `sizeof(T)` of them; the
-- machine stores the low byte first. What `reserve` sets aside is not visible and not modelled.
pub mod Compare
pub mod Insert
pub mod Printing
pub mod Reading
pub mod Search
pub mod Tests
pub mod Written
use my_power_mirror.Base.{
  ℕ, zero, suc, ◌+◌, ◌-◌, ◌*◌, ◌/◌, ◌%◌, Bool, true, false, not, ◌&&◌, List, [], ◌∷◌, ◌++◌, Bytes,
  ltb, leb, ◌==◌, if◌then◌else◌, length, take, drop, replicate, u32, minus_one_32, Outcome, ok,
  fail, undefined_behavior, ◌>>=◌,
}

pub record ByteBuffer : Type 0 where
  pub rpos : ℕ
  pub wpos : ℕ
  pub buf : Bytes

-- `std::vector::resize` and `memcpy` into a vector.
abbrev pub resized : ℕ → Bytes → Bytes
resized n xs = take n xs ++ replicate (n - length xs) 0

abbrev pub overwrite : Bytes → ℕ → Bytes → Bytes
overwrite buf i bytes = take i buf ++ (bytes ++ drop (i + length bytes) buf)

unfoldable pub size : ByteBuffer → ℕ
size b = u32 (length b.buf)

-- read<T>(index) for a T of n bytes: outside the vector it is the zero of T.
unfoldable pub read_at : ℕ → ByteBuffer → ℕ → Bytes
read_at n b index =
    if leb (index + n) (length b.buf) then take n (drop index b.buf) else replicate n 0

-- read<T>()
unfoldable pub read : ℕ → ByteBuffer → Bytes × ByteBuffer
read n b = (read_at n b b.rpos, record b { rpos = u32 (b.rpos + n) })

-- append<T>: the sum of the position and the size is a 32-bit one.
unfoldable pub append : ByteBuffer → Bytes → Outcome ByteBuffer
unfolding size
append b bytes =
    let end = u32 (b.wpos + length bytes) in
    let room = if ltb (size b) end then resized end b.buf else b.buf in
    if leb (b.wpos + length bytes) (length room)
    then ok (record b { buf = overwrite room b.wpos bytes; wpos = end })
    else fail undefined_behavior

-- insert<T>: the sum is one of 64 bits.
unfoldable pub insert : ByteBuffer → Bytes → ℕ → ByteBuffer
unfolding size
insert b bytes index =
    if ltb (size b) (index + length bytes)
    then b
    else record b { buf = overwrite b.buf index bytes; wpos = u32 (index + length bytes) }

unfoldable pub clear : ByteBuffer → ByteBuffer
clear b = record b { rpos = 0; wpos = 0; buf = [] }

-- ByteBuffer(size), for any size, and ByteBuffer(NULL, size).
abbrev pub make : ByteBuffer
make = record { rpos = 0; wpos = 0; buf = [] }

unfoldable pub bytes_remaining : ByteBuffer → ℕ
unfolding size
bytes_remaining b = u32 (size b + 4294967296 - b.rpos)

unfoldable pub resize : ByteBuffer → ℕ → ByteBuffer
resize b n = record b { buf = resized n b.buf; rpos = 0; wpos = 0 }

abbrev pub set_read_pos : ByteBuffer → ℕ → ByteBuffer
set_read_pos b r = record b { rpos = r }

abbrev pub set_write_pos : ByteBuffer → ℕ → ByteBuffer
set_write_pos b w = record b { wpos = w }

-- The byte or char that one byte stores.
abbrev pub byte_of : Bytes → ℕ
byte_of [] = 0
byte_of (x ∷ xs) = x

-- get(index) and getChar(index)
unfoldable pub get_at : ByteBuffer → ℕ → ℕ
unfolding read_at
get_at b index = byte_of (read_at 1 b index)

-- get() and getChar()
unfoldable pub get : ByteBuffer → ℕ × ByteBuffer
unfolding read
get b = let (bytes, b') = read 1 b in (byte_of bytes, b')

unfoldable pub peek : ByteBuffer → ℕ
peek b = get_at b b.rpos

-- getBytes: len calls of read<byte>().
unfoldable pub get_bytes : ℕ → ByteBuffer → Bytes × ByteBuffer
get_bytes zero b = ([], b)
get_bytes (suc len) b = let (x, b') = get b in let (xs, b'') = get_bytes len b' in (x ∷ xs, b'')

-- put(b) and putChar(value), and their indexed forms.
abbrev pub put_byte : ByteBuffer → ℕ → Outcome ByteBuffer
put_byte b x = append b (x ∷ [])

abbrev pub put_byte_at : ByteBuffer → ℕ → ℕ → ByteBuffer
put_byte_at b x index = insert b (x ∷ []) index

-- putBytes(b, len): len calls of append<byte>.
unfoldable pub put_bytes : ByteBuffer → Bytes → Outcome ByteBuffer
put_bytes b [] = ok b
put_bytes b (x ∷ xs) = do b' ← append b (x ∷ []); put_bytes b' xs

-- putBytes(b, len, index)
unfoldable pub put_bytes_at : ByteBuffer → Bytes → ℕ → Outcome ByteBuffer
put_bytes_at b xs index = put_bytes (set_write_pos b index) xs

-- ByteBuffer(arr, size) for an array
unfoldable pub make_from : Bytes → Outcome ByteBuffer
make_from arr = put_bytes make arr

-- put(src) for another buffer: `left` rounds from round i on.
unfoldable pub put_from : ℕ → ℕ → ByteBuffer → ByteBuffer → Outcome ByteBuffer
put_from zero i src b = ok b
put_from (suc left) i src b = do b' ← put_byte b (get_at src i); put_from left (i + 1) src b'

-- The length is an `int`: from 2^31 on it is negative and no round is made.
unfoldable pub put_buffer : ByteBuffer → ByteBuffer → Outcome ByteBuffer
unfolding size
put_buffer b src = put_from (if ltb (size src) 2147483648 then size src else 0) 0 src b

-- The loop of `equals` over `left` bytes from i on.
unfoldable pub equals_from : ℕ → ℕ → ByteBuffer → ByteBuffer → Bool
equals_from zero i b other = true
equals_from (suc left) i b other =
    let rest = equals_from left (i + 1) b other in
    if get_at b i == get_at other i then rest else false

unfoldable pub equals : ByteBuffer → ByteBuffer → Bool
unfolding size
equals b other = if size b == size other then equals_from (size b) 0 b other else false

-- The loop of `clone`: `put(i, (byte)get(i))` is put(byte b, unsigned int index), so that the
-- index is written as the byte and the byte is the index.
unfoldable pub clone_from : ℕ → ℕ → ByteBuffer → ByteBuffer → ByteBuffer
clone_from zero i b ret = ret
clone_from (suc left) i b ret = clone_from left (i + 1) b (put_byte_at ret (i % 256) (get_at b i))

unfoldable pub clone : ByteBuffer → ByteBuffer
clone b = set_write_pos (set_read_pos (clone_from (length b.buf) 0 b make) 0) 0

-- find<char>: `left` rounds from i on. The result is an `int`.
unfoldable pub find_from : ℕ → ℕ → ByteBuffer → ℕ → ℕ
find_from zero i b key = minus_one_32
find_from (suc left) i b key =
    let rest = find_from left (i + 1) b key in
    if not (key == 0) && get_at b i == 0
    then minus_one_32
    else if get_at b i == key
    then i
    else rest

unfoldable pub find : ByteBuffer → ℕ → ℕ → ℕ
unfolding size
find b key start = find_from (size b - start) start b key

-- replace: `left` rounds from i on.
unfoldable pub replace_from : ℕ → ℕ → ByteBuffer → ℕ → ℕ → Bool → ByteBuffer
replace_from zero i b key rep first = b
replace_from (suc left) i b key rep first =
    let rest = replace_from left (i + 1) b key rep first in
    let b' = record b { buf = overwrite b.buf i (rep ∷ []) } in
    let rest' = replace_from left (i + 1) b' key rep first in
    if not (key == 0) && get_at b i == 0
    then b
    else if not (get_at b i == key)
    then rest
    else if first
    then b'
    else rest'

unfoldable pub replace : ByteBuffer → ℕ → ℕ → ℕ → Bool → ByteBuffer
unfolding size
replace b key rep start first = replace_from (size b - start) start b key rep first

-- An unsigned integer as the n bytes that it is stored in, and back.
unfoldable pub le_bytes : ℕ → ℕ → Bytes
le_bytes zero v = []
le_bytes (suc n) v = v % 256 ∷ le_bytes n (v / 256)

unfoldable pub le_value : Bytes → ℕ
le_value [] = 0
le_value (x ∷ xs) = x + 256 * le_value xs

-- putShort, putInt and putLong for n = 2, 4 and 8, with their indexed forms; and putFloat and
-- putDouble, where the value is the number that their 4 or 8 bytes make.
unfoldable pub put_word : ℕ → ByteBuffer → ℕ → Outcome ByteBuffer
unfolding append le_bytes
put_word n b value = append b (le_bytes n value)

unfoldable pub put_word_at : ℕ → ByteBuffer → ℕ → ℕ → ByteBuffer
unfolding insert le_bytes
put_word_at n b value index = insert b (le_bytes n value) index

-- getShort, getInt and getLong for n = 2, 4 and 8, with their indexed forms; and getFloat and
-- getDouble, as the number that their 4 or 8 bytes make.
unfoldable pub get_word : ℕ → ByteBuffer → ℕ × ByteBuffer
unfolding read le_value
get_word n b = let (bytes, b') = read n b in (le_value bytes, b')

unfoldable pub get_word_at : ℕ → ByteBuffer → ℕ → ℕ
unfolding read_at le_value
get_word_at n b index = le_value (read_at n b index)
