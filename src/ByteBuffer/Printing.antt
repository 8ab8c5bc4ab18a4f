-- ===== src/ByteBuffer/Printing.antt =====
-- src/ByteBuffer.cpp, the functions that print a buffer: the text that each of them writes. `printf`
-- takes a byte as an `int` of 0 to 255; the name is the one that setName has set.
use my_power_mirror.Base.{
  ap₂, All, arith, ◌<◌, ◌≡◌, refl, ℕ, ◌+◌, ◌-◌, ◌/◌, ◌%◌, [], ◌∷◌, ◌++◌, Bytes, codes, ltb,
  if◌then◌else◌, u32, length,
}
use my_power_mirror.CString.{before}
use my_power_mirror.CString.Numbers.{decimal}
use my_power_mirror.ByteBuffer.{ByteBuffer}

-- A buffer with its name; setName and getName.
pub record Named : Type 0 where
  pub name : Bytes
  pub content : ByteBuffer

abbrev pub set_name : Named → Bytes → Named
set_name n s = record n { name = s }

abbrev pub get_name : Named → Bytes
get_name n = n.name

abbrev hex_digit : ℕ → ℕ
hex_digit d = if ltb d 10 then b'0' + d else b'a' + (d - 10)

-- "0x%02x " of a byte, and "%c " of one.
abbrev hex_item : ℕ → Bytes
hex_item x = b'0' ∷ b'x' ∷ hex_digit (x / 16) ∷ hex_digit (x % 16) ∷ b' ' ∷ []

abbrev ascii_item : ℕ → Bytes
ascii_item x = x ∷ b' ' ∷ []

abbrev pub hex_items : Bytes → Bytes
hex_items [] = []
hex_items (x ∷ xs) = hex_item x ++ hex_items xs

abbrev ascii_items : Bytes → Bytes
ascii_items [] = []
ascii_items (x ∷ xs) = ascii_item x ++ ascii_items xs

-- The name is printed by its C string, up to its first NUL.
abbrev heading : Named → Bytes → Bytes
heading n kind =
    codes "ByteBuffer "
    ++ (before 0 n.name
        ++ (codes " Length: " ++ (decimal (u32 (length n.content.buf)) ++ (kind ++ codes "\n"))))

unfoldable pub print_info : Named → Bytes
print_info n = heading n (codes ". Info Print")

unfoldable pub print_ah : Named → Bytes
print_ah n =
    heading n (codes ". ASCII & Hex Print")
    ++ (hex_items n.content.buf ++ (codes "\n" ++ (ascii_items n.content.buf ++ codes "\n")))

unfoldable pub print_ascii : Named → Bytes
print_ascii n = heading n (codes ". ASCII Print") ++ (ascii_items n.content.buf ++ codes "\n")

unfoldable pub print_hex : Named → Bytes
print_hex n = heading n (codes ". Hex Print") ++ (hex_items n.content.buf ++ codes "\n")

unfoldable pub print_position : Named → Bytes
print_position n =
    codes "ByteBuffer "
    ++ (before 0 n.name
        ++ (codes " Length: "
            ++ (decimal (u32 (length n.content.buf))
                ++ (codes " Read Pos: "
                    ++ (decimal n.content.rpos
                        ++ (codes ". Write Pos: " ++ (decimal n.content.wpos ++ codes "\n")))))))

hex_digit_injective : (a b : ℕ) → a < 16 → b < 16 → hex_digit a ≡ hex_digit b → a ≡ b
hex_digit_injective a b h k e = ground arith

hex_items_injective :
    (xs ys : Bytes)
    → All (λ x. x < 256) xs
    → All (λ x. x < 256) ys
    → hex_items xs ≡ hex_items ys
    → xs ≡ ys
hex_items_injective [] [] h k e = refl
hex_items_injective [] (y ∷ ys) h k e = absurd (cc e)
hex_items_injective (x ∷ xs) [] h k e = absurd (cc e)
hex_items_injective (x ∷ xs) (y ∷ ys) h k e =
    let high : hex_digit (x / 16) ≡ hex_digit (y / 16) = cc e in
    let low : hex_digit (x % 16) ≡ hex_digit (y % 16) = cc e in
    let rest : hex_items xs ≡ hex_items ys = cc e in
    let q = hex_digit_injective (x / 16) (y / 16) (omega (arith, h.0)) (omega (arith, k.0)) high in
    let r = hex_digit_injective (x % 16) (y % 16) (omega arith) (omega arith) low in
    let same : x ≡ y = omega (arith, q, r) in ap₂ ◌∷◌ same (hex_items_injective xs ys h.1 k.1 rest)
