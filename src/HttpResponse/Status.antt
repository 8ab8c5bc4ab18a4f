-- ===== src/HttpResponse/Status.antt =====
-- The status code of a response against its reason.
use my_power_mirror.Base.{
  ℕ, ◌≡◌, refl, Bool, List, [], ◌∷◌, Bytes, All, ok, ◌>>=◌, >>=-eq-ok, ok_injective, ap, sym, ◌∙◌,
}
use my_power_mirror.ByteBuffer.{make_from}
use my_power_mirror.HttpMessage.{Message, init, parse_headers, parse_body}
use my_power_mirror.HttpResponse.{
  HttpResponse, response_from_bytes, set_status, determine_status_code, parse_response,
  parse_content,
}

-- The codes that have a reason.
abbrev pub known_statuses : List ℕ
known_statuses = 100 ∷ 200 ∷ 400 ∷ 404 ∷ 500 ∷ 501 ∷ []

-- For each code that has one, the reason that `setStatus` sets determines the code again.
determine_status_code-set_status :
    (r : HttpResponse)
    → All
        (λ s. (determine_status_code (record (set_status r s) { status = 0 })).status ≡ s)
        known_statuses
unfolding set_status determine_status_code
determine_status_code-set_status r = (refl, (refl, (refl, (refl, (refl, (refl, tt))))))

parse_content-status :
    (r : HttpResponse) {done : Bool} {r' : HttpResponse}
    → parse_content r ≡ ok (done, r')
    → r'.status ≡ r.status
unfolding parse_content
parse_content-status r e =
    let stored = λ (step : Bool × Message). ok (step.0, record r { message = step.1 }) in
    let (m, _, e') = >>=-eq-ok (parse_headers r.message) (λ m. parse_body m >>= stored) e in
    let (_, _, e'') = >>=-eq-ok (parse_body m) stored e' in
    ap (λ p. p.1.status) (sym (ok_injective e''))

-- A response just received has no reason yet, and none determines no code.
response_from_bytes-status :
    (bytes : Bytes) {r : HttpResponse}
    → response_from_bytes bytes ≡ ok r
    → (determine_status_code r).status ≡ 0
unfolding response_from_bytes determine_status_code
response_from_bytes-status bytes e =
    let (b, _, e') =
      >>=-eq-ok (make_from bytes) (λ b. ok (record { message = init b; status = 0; reason = [] }))
        e in
    ap (λ r. (determine_status_code r).status) (sym (ok_injective e'))

-- Whatever bytes a response is parsed from, its status stays 0: it is looked for in the reason
-- before that is read.
pub parse_response-status :
    (bytes : Bytes) {done : Bool} {r : HttpResponse}
    → (response_from_bytes bytes >>= parse_response) ≡ ok (done, r)
    → r.status ≡ 0
unfolding parse_response
parse_response-status bytes e =
    let (r, made, e') = >>=-eq-ok (response_from_bytes bytes) parse_response e in
    parse_content-status _ e' ∙ response_from_bytes-status bytes made
