-- ===== src/HttpRequest/Methods.antt =====
-- The table of the methods, both ways.
use my_power_mirror.Base.{ℕ, suc, ◌<◌, ◌≡◌, refl, length, arith}
use my_power_mirror.CString.{before, str_eq}
use my_power_mirror.CString.Laws.{Lacks}
use my_power_mirror.HttpRequest.{method_str_to_int, method_int_to_str}

-- For each of the nine methods, its name is found again under its number, is not empty, and has
-- neither a space nor a NUL in it, so that it can stand in a request line.
pub method_str_to_int-method_int_to_str :
    (mid : ℕ)
    → mid < 9
    → (method_str_to_int (method_int_to_str mid) ≡ mid)
      × (0 < length (method_int_to_str mid))
      × Lacks b' ' (method_int_to_str mid)
      × Lacks 0 (method_int_to_str mid)
unfolding method_str_to_int method_int_to_str str_eq before
method_str_to_int-method_int_to_str (suc (suc (suc (suc (suc (suc (suc (suc (suc mid))))))))) h =
    absurd (omega arith)
method_str_to_int-method_int_to_str _ h = (refl, omega arith, omega arith, omega arith)
