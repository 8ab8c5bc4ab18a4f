-- ===== src/Mirror/Http/Lines.antt =====
-- The line loop of `parseRequest`.
use my_power_mirror.Base.{
  ℕ, zero, suc, ◌+◌, ◌<◌, ◌≡◌, ◌≢◌, inl, inr, refl, ap, some, List, [], ◌∷◌, ◌++◌, Bytes, length,
  arith, Option-cases, ok, fail, undefined_behavior, out_of_fuel, >>=-ne-fail,
}
use my_power_mirror.CString.{str, null, strtok}
use my_power_mirror.CString.Laws.{Lacks, strtok_shrinks, All-strtok}
use my_power_mirror.Mirror.Util.{Index, minus_one, index_from, index_of_str_first}
use my_power_mirror.Mirror.Util.Search.{index_from-never}
use my_power_mirror.Mirror.Http.{
  Request, cleared, collect, copy_token, parse_field, parse_header, parse_headers, parse_lines,
  parse_request,
}

index-null : (c : ℕ) → index_of_str_first null c ≡ fail undefined_behavior
unfolding index_of_str_first
index-null c = refl

index-never : (s : Bytes) (c : ℕ) → Lacks c s → index_of_str_first (str s) c ≡ ok minus_one
unfolding index_of_str_first
index-never s c h = ap ok (index_from-never s c 0 h)

index-str : (s : Bytes) (c : ℕ) → (i : Index) × (index_of_str_first (str s) c ≡ ok i)
unfolding index_of_str_first
index-str s c = (index_from s c 0, refl)

-- Without a carriage return the loop runs into the NULL behind the last line.
collect_no_cr :
    (fuel : ℕ) (lines : List Bytes) (l rest : Bytes)
    → length rest < fuel
    → Lacks b'\r' rest
    → collect fuel lines (some (l, rest)) ≡ fail undefined_behavior
unfolding collect
collect_no_cr zero lines l rest h c = absurd (omega arith)
collect_no_cr (suc fuel) lines l rest h c = elim (Option-cases (strtok b'\n' rest)) [
  | inl e ↦ rw (e, index-null b'\r') (ground arith)
  | inr ((t, r), e) ↦
      let (t_lacks, r_lacks) = All-strtok (λ x. x ≢ b'\r') b'\n' rest c e in
      rw (e, index-never t b'\r' t_lacks)
        (ground (
          arith,
          strtok_shrinks b'\n' rest e,
          collect_no_cr fuel (lines ++ l ∷ []) t r (omega (arith, strtok_shrinks b'\n' rest e))
              r_lacks,
        ))
]

-- A request in which no carriage return stands makes `parseRequest` read through NULL: either
-- there is no line at all, or the search for a carriage return is made in the NULL that `strtok`
-- gives behind the last line.
pub parse_request_no_cr :
    (buffer : Bytes) → Lacks b'\r' buffer → parse_request buffer ≡ fail undefined_behavior
unfolding parse_request
parse_request_no_cr buffer c = elim (Option-cases (strtok b'\n' buffer)) [
  | inl e ↦ rw e (unfold collect parse_lines in refl)
  | inr ((t, r), e) ↦
      let (_, r_lacks) = All-strtok (λ x. x ≢ b'\r') b'\n' buffer c e in
      rw (
        e,
        collect_no_cr (length buffer + 1) [] t r (omega (arith, strtok_shrinks b'\n' buffer e))
            r_lacks,
      )
]

-- The loop ends within the fuel, whatever the buffer.
collect-ne-out_of_fuel :
    (fuel : ℕ) (lines : List Bytes) (l rest : Bytes)
    → length rest < fuel
    → collect fuel lines (some (l, rest)) ≢ fail out_of_fuel
unfolding collect
collect-ne-out_of_fuel zero lines l rest h = absurd (omega arith)
collect-ne-out_of_fuel (suc fuel) lines l rest h = elim (Option-cases (strtok b'\n' rest)) [
  | inl e ↦ rw (e, index-null b'\r') (ground arith)
  | inr ((t, r), e) ↦
      let (i, found) = index-str t b'\r' in
      rw (e, found)
        (ground (
          arith,
          collect-ne-out_of_fuel fuel (lines ++ l ∷ []) t r
              (omega (arith, strtok_shrinks b'\n' rest e)),
        ))
]

copy_token-ne-out_of_fuel : (rest : Bytes) → copy_token rest ≢ fail out_of_fuel
unfolding copy_token
copy_token-ne-out_of_fuel rest = ground arith

parse_field-ne-out_of_fuel :
    (req : Request) (head rest : Bytes) → parse_field req head rest ≢ fail out_of_fuel
unfolding parse_field
parse_field-ne-out_of_fuel req head rest = ground (arith, copy_token-ne-out_of_fuel rest)

parse_header-ne-out_of_fuel : (req : Request) (l : Bytes) → parse_header req l ≢ fail out_of_fuel
unfolding parse_header
parse_header-ne-out_of_fuel req l = elim (Option-cases (strtok b' ' l)) [
  | inl e ↦ rw (e, parse_header) (parse_field-ne-out_of_fuel req l [])
  | inr ((t, r), e) ↦ rw (e, parse_header) (parse_field-ne-out_of_fuel req _ r)
]

parse_headers-ne-out_of_fuel :
    (req : Request) (ls : List Bytes) → parse_headers req ls ≢ fail out_of_fuel
unfolding parse_headers
parse_headers-ne-out_of_fuel req [] = ground arith
parse_headers-ne-out_of_fuel req (l ∷ ls) =
    >>=-ne-fail out_of_fuel (parse_header req l) _ (parse_header-ne-out_of_fuel req l)
      (λ q. parse_headers-ne-out_of_fuel q ls)

parse_lines-ne-out_of_fuel : (ls : List Bytes) → parse_lines ls ≢ fail out_of_fuel
unfolding parse_lines
parse_lines-ne-out_of_fuel [] = ground arith
parse_lines-ne-out_of_fuel (first ∷ rest) = elim (Option-cases (strtok b' ' first)) [
  | inl e ↦ rw (e, parse_lines) (ground arith)
  | inr ((m, r), e) ↦
      rw (e, parse_lines)
        (ground (arith, parse_headers-ne-out_of_fuel (record cleared { method = str m }) rest))
]

-- The line loop ends: whatever the bytes received, the model's fuel of one more than their number
-- is never used up.
pub parse_request-ne-out_of_fuel : (buffer : Bytes) → parse_request buffer ≢ fail out_of_fuel
unfolding parse_request
parse_request-ne-out_of_fuel buffer =
    >>=-ne-fail out_of_fuel (collect (length buffer + 1) [] (strtok b'\n' buffer)) parse_lines
      (elim (Option-cases (strtok b'\n' buffer)) [
        | inl e ↦ rw e (unfold collect in ground arith)
        | inr ((t, r), e) ↦ rw e (
            collect-ne-out_of_fuel (length buffer + 1) [] t r
              (omega (arith, strtok_shrinks b'\n' buffer e)))
      ])
      parse_lines-ne-out_of_fuel
