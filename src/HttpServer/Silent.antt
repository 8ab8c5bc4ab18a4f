-- ===== src/HttpServer/Silent.antt =====
-- `handleRequest` and `readClient` on requests with no NUL in them.
use my_power_mirror.Base.{
  codes, ◌+◌, ◌≤◌, ◌≡◌, ◌≢◌, refl, subst, Bytes, ◌==◌, length, All, arith, ok, ◌>>=◌, Ends,
  undefined, returns, Ends-if, Ends-bind, Ends-bind_two, sym, ap, [], ◌∷◌, ◌∙◌, ℕ, ◌%◌, ◌^◌, List,
  Option, none, some,
}
use my_power_mirror.CString.{before}
use my_power_mirror.CString.Laws.{Lacks, before-end}
use my_power_mirror.Client.{Client}
use my_power_mirror.CString.Numbers.{atoi-Ends}
use my_power_mirror.HttpMessage.HeaderMap.{get_header_value}
use my_power_mirror.HttpResponse.{contains}
use my_power_mirror.HttpRequest.{HttpRequest, from_bytes, parse}
use my_power_mirror.HttpRequest.Ending.{received-Ends}
use my_power_mirror.HttpServer.{handle_method, handle_request}
use my_power_mirror.HttpServer.Receiving.{
  Received, arrived, hung_up, broken, Read, disconnected, waiting, handled, request_in,
  receive_expected, read_bytes, read_client,
}
use my_power_mirror.HttpServer.Receiving.{widen}
use my_power_mirror.HttpServer.Texts.{
  before-is-Lacks, Texts, IsClean, ReceivedText, text_in-before, receive_rest-Texts,
  request_in-Texts,
}
use my_power_mirror.HttpServer.Plain.{status_400, status_501, trace-undefined}
use my_power_mirror.HttpServer.Replies.{handle_post-handle_options}

-- The methods of a request whose bytes have no NUL among them leave the client as it is, or are
-- undefined.
handle_method-stays :
    (cl : Client) (req : HttpRequest)
    → Lacks 0 req.message.buffer.buf
    → length req.message.buffer.buf ≤ 2000000
    → Ends (λ cl'. cl' ≡ cl) (handle_method cl req)
unfolding handle_method
handle_method-stays cl req lacks short =
    let (post, options) = handle_post-handle_options cl req in
    rw (post, options, trace-undefined cl req lacks short, status_501 cl)
      (Ends-if (req.method == 2) (λ _. undefined)
        (λ _.
          Ends-if (req.method == 0) (λ _. returns refl)
            (λ _.
              Ends-if (req.method == 1) (λ _. returns refl)
                (λ _.
                  Ends-if (req.method == 6) (λ _. undefined)
                    (λ _. Ends-if (req.method == 5) (λ _. undefined) (λ _. undefined))))))

-- Whatever the request, of at most 555555 bytes, as long as no byte of it is NUL: it is handled
-- with the client left as it is, nothing sent or queued for it, or the code is undefined or throws.
pub handle_request-stays :
    (cl : Client) (bytes : Bytes)
    → Lacks 0 bytes
    → length bytes ≤ 555555
    → Ends (λ cl'. cl' ≡ cl) (from_bytes bytes >>= handle_request cl)
unfolding handle_request
handle_request-stays cl bytes lacks short =
    Ends-bind_two (from_bytes bytes) parse
      (received-Ends (λ x. x ≢ 0) (λ x h. omega arith) bytes lacks (omega arith))
      λ (done, req) parsed.
        Ends-if done
          (λ _.
            handle_method-stays cl req (subst (Lacks 0) (sym parsed.buf_stays) lacks)
              (omega (arith, ap length parsed.buf_stays)))
          (λ _.
            rw
              (status_400 cl req.message.parse_error parsed.error.0 (omega (arith, parsed.error.1)))
              undefined)

-- What readClient leaves of the client.
abbrev pub Stays : Client → Read → Type 0
Stays cl disconnected = Unit
Stays cl waiting = Unit
Stays cl (handled cl') = cl' ≡ cl

counted :
    (n : ℕ) (o : Option (Bytes × ℕ))
    → ReceivedText n o
    → Ends (ReceivedText 0) (elim o [
      | none ↦ ok none
      | some (memory', temp) ↦ ok (some (memory', (n + temp) % 2 ^ 64))
    ])
counted n none texts = returns tt
counted n (some (memory, temp)) texts =
    returns (subst (Texts memory) (omega (arith, texts.fits)) texts)

receive_expected-Texts :
    (bytes : Bytes) (n : ℕ) (rs : List Received)
    → Texts bytes n
    → All IsClean rs
    → Ends (ReceivedText 0) (receive_expected bytes n rs)
unfolding receive_expected
receive_expected-Texts bytes n rs texts clean = rw (request_in-Texts bytes n texts) (
    Ends-bind_two (from_bytes (before 0 bytes)) parse
      (received-Ends (λ x. x ≢ 0) (λ x h. omega arith) (before 0 bytes) (before-is-Lacks bytes)
        (omega (arith, texts.len, texts.fits)))
      λ (done, req) parsed.
        Ends-bind (atoi-Ends (get_header_value req.message.headers (codes "Content-Length")))
          λ cont_len _.
            Ends-bind
              (receive_rest-Texts (widen cont_len) n bytes 0 rs
                (subst (Texts bytes) (omega arith) texts) clean)
              (counted n))

handled-Stays :
    (cl : Client) (o : Option (Bytes × ℕ))
    → ReceivedText 0 o
    → Ends (Stays cl) (elim o [
      | none ↦ ok waiting
      | some (memory, len_recv) ↦
          request_in memory len_recv >>= λ req. handle_request cl req >>= λ cl'. ok (handled cl')
    ])
handled-Stays cl none texts = returns tt
handled-Stays cl (some (memory, n)) texts =
    let none_before : 0 + n ≡ n = omega arith in
    let whole : Texts memory n = subst (Texts memory) none_before texts in
    rw (request_in-Texts memory n whole) (
      Ends-bind_two (from_bytes (before 0 memory)) (handle_request cl)
        (handle_request-stays cl (before 0 memory) (before-is-Lacks memory)
          (omega (arith, whole.len, whole.fits)))
        λ cl' same. returns same)

read_bytes-Stays :
    (cl : Client) (bytes : Bytes) (rs : List Received)
    → Lacks 0 bytes
    → All IsClean rs
    → Ends (Stays cl) (read_bytes cl bytes rs)
unfolding read_bytes
read_bytes-Stays cl bytes rs lacks clean = Ends-bind (text_in-before bytes) λ text known.
    let whole = before-end 0 bytes lacks in
    let same : length text ≡ length bytes = ap length (known.0 ∙ whole) in
    let texts : Texts bytes (length bytes) = record {
      len = ap length whole;
      fits = omega (arith, same, known.1);
    } in
    Ends-bind
      (Ends-if (contains (codes "Expect: 100-continue") text)
        (λ _. receive_expected-Texts bytes (length bytes) rs texts clean)
        (λ _. returns (subst (Texts bytes) (omega arith) texts)))
      (handled-Stays cl)

-- Whatever comes, as long as no NUL does and no call fails: readClient leaves the client as it is.
pub read_client-Stays :
    (cl : Client) (rs : List Received) → All IsClean rs → Ends (Stays cl) (read_client cl rs)
unfolding read_client
read_client-Stays cl [] clean = returns tt
read_client-Stays cl (arrived [] ∷ rs) clean = returns tt
read_client-Stays cl (arrived (x ∷ bytes) ∷ rs) clean =
    read_bytes-Stays cl (x ∷ bytes) rs (clean.0).1 clean.1
read_client-Stays cl (hung_up ∷ rs) clean = returns tt
read_client-Stays cl (broken ∷ rs) clean = returns tt
