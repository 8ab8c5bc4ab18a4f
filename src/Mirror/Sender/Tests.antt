-- ===== src/Mirror/Sender/Tests.antt =====
-- Runs of client.c.
use my_power_mirror.Base.{
  ◌≡◌, true, none, some, Bytes, take, replicate, ◌-◌, ◌>>=◌, List, [], ◌∷◌, ◌++◌, codes, ltb,
  if◌then◌else◌, length, arith, ok, fail, undefined_behavior,
}
use my_power_mirror.Mirror.Sender.{
  SendInfo, World, Row, get_send_info, post_url, send_main, update_row, copy_cells, row_at,
  row_text,
}
use my_power_mirror.Mirror.Sender.Overflow.{post_url-undefined, get_send_info-bounds}
use my_power_mirror.Mirror.Sender.Rows.{unset_rows, row_of, send_main-unset}

abbrev world : World
world = record { stat = λ path. some 9; opens = λ path. true; curl = true }

abbrev picture : SendInfo
picture = record {
  path = some (codes "a.png");
  author = some (codes "author: me");
  age = some (codes "age: 3");
}

post_url-undefined_example : post_url world picture ≡ fail undefined_behavior
post_url-undefined_example = post_url-undefined world picture

get_send_info-bounds_example :
    (get_send_info picture (codes "author:" ++ codes "you") ≡ (
      if ltb (length (codes "you")) 24
      then ok (record picture { author = some (codes "author: " ++ codes "you") })
      else fail undefined_behavior))
    × (get_send_info picture (codes "age:" ++ codes "you") ≡ (
        if ltb (length (codes "you")) 27
        then ok (record picture { age = some (codes "age: " ++ codes "you") })
        else fail undefined_behavior))
get_send_info-bounds_example = get_send_info-bounds picture (codes "you")

abbrev first_line : Bytes
first_line = codes "a.png\n"

send_main-unset_example :
    (rows : List Row) × (update_row
        (copy_cells (take (length first_line - 1) first_line))
        0
        unset_rows
      ≡ ok rows)
    × (rows
        ≡ row_of 1024 (take (length first_line - 1) first_line)
          ∷ replicate 1023 (replicate 1024 none))
    × (row_at 0 rows >>= row_text ≡ fail undefined_behavior)
    × (send_main world unset_rows (some (first_line ∷ [])) (0 ∷ []) ≡ fail undefined_behavior)
send_main-unset_example =
    send_main-unset world first_line [] (0 ∷ []) (omega arith) (omega arith) (omega arith)
