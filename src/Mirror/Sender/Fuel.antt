-- ===== src/Mirror/Sender/Fuel.antt =====
-- The loop over the tokens of a line ends.
use my_power_mirror.Base.{
  ◌==◌, ℕ, zero, suc, ◌+◌, ◌<◌, ◌≢◌, inl, inr, none, some, ◌++◌, Bytes, codes, ltb, length, arith,
  Bool-cases, Option-cases, fail, out_of_fuel, >>=-ne-fail, [], ◌∷◌,
}
use my_power_mirror.CString.{strn_eq, strtok, behind}
use my_power_mirror.CString.Laws.{strtok_shrinks}
use my_power_mirror.Mirror.Sender.{
  SendInfo, Row, row_text, write_text, get_author, get_age, get_send_info, get_infos, make_info,
}

write_text-ne : (size : ℕ) (s : Bytes) → write_text size s ≢ fail out_of_fuel
unfolding write_text
write_text-ne size s = elim (Bool-cases (ltb (length s) size)) [
  | inl e ↦ rw e (λ p. cc p)
  | inr e ↦ rw e (λ p. cc p)
]

get_author-ne : (s_info : SendInfo) (t : Bytes) → get_author s_info t ≢ fail out_of_fuel
unfolding get_author
get_author-ne s_info t = elim (Bool-cases (strn_eq 7 t (codes "author:"))) [
  | inl e ↦
      rw (e, get_author)
        (>>=-ne-fail out_of_fuel (write_text 32 (codes "author: " ++ behind b':' t)) _
          (write_text-ne 32 (codes "author: " ++ behind b':' t)) (λ a p. cc p))
  | inr e ↦ rw (e, get_author) (λ p. cc p)
]

get_age-ne : (s_info : SendInfo) (t : Bytes) → get_age s_info t ≢ fail out_of_fuel
unfolding get_age
get_age-ne s_info t = elim (Bool-cases (strn_eq 4 t (codes "age:"))) [
  | inl e ↦
      rw (e, get_age)
        (>>=-ne-fail out_of_fuel (write_text 32 (codes "age: " ++ behind b':' t)) _
          (write_text-ne 32 (codes "age: " ++ behind b':' t)) (λ a p. cc p))
  | inr e ↦ rw (e, get_age) (λ p. cc p)
]

get_infos-ne :
    (fuel : ℕ) (rest : Bytes) (s_info : SendInfo)
    → length rest < fuel
    → get_infos fuel rest s_info ≢ fail out_of_fuel
unfolding get_infos get_send_info
get_infos-ne zero rest s_info h = absurd (omega arith)
get_infos-ne (suc fuel) rest s_info h = elim (Option-cases (strtok b' ' rest)) [
  | inl e ↦ rw (e, get_infos) (λ p. cc p)
  | inr ((token, rest'), e) ↦
      rw (e, get_infos)
        (>>=-ne-fail out_of_fuel (get_send_info s_info token) _
          (>>=-ne-fail out_of_fuel (get_author s_info token) _ (get_author-ne s_info token)
            (λ s. get_age-ne s token))
          (λ s. get_infos-ne fuel rest' s (omega (arith, strtok_shrinks b' ' rest e))))
]

row_text-ne : (row : Row) → row_text row ≢ fail out_of_fuel
unfolding row_text
row_text-ne [] = λ p. cc p
row_text-ne (none ∷ row) = λ p. cc p
row_text-ne (some x ∷ row) = elim (Bool-cases (x == 0)) [
  | inl e ↦ rw e (λ p. cc p)
  | inr e ↦ rw e (>>=-ne-fail out_of_fuel (row_text row) _ (row_text-ne row) (λ s p. cc p))
]

-- Whatever the row, the fuel of one more than the bytes behind its first token is enough for the
-- loop over the tokens.
make_info-ne : (row : Row) → make_info row ≢ fail out_of_fuel
unfolding make_info
make_info-ne row = >>=-ne-fail out_of_fuel (row_text row) _ (row_text-ne row) λ temp.
    elim (Option-cases (strtok b' ' temp)) [
      | inl e ↦ rw (e, make_info) (λ p. cc p)
      | inr ((token, rest), e) ↦
          rw (e, make_info)
            (>>=-ne-fail out_of_fuel (write_text 32 token) _ (write_text-ne 32 token) (λ path.
              get_infos-ne (length rest + 1) rest
                (record { path = path; author = none; age = none }) (omega arith)))
    ]
