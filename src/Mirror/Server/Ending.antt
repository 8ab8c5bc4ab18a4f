-- ===== src/Mirror/Server/Ending.antt =====
-- The loops of a round of the C server, whatever it receives.
use my_power_mirror.Base.{
  Some, ℕ, zero, suc, ◌+◌, Bool, ◌&&◌, Option, none, some, List, [], ◌∷◌, ◌++◌, Bytes, ltb, leb,
  ◌==◌, length, ◌≤◌, le→ltb, arith, Ends-strong, Ends, ne-Ends, returns, undefined, Ends-bind,
  Ends-if,
}
use my_power_mirror.CString.{Pointer, unset, null, str, deref, before}
use my_power_mirror.CString.Numbers.{atoi-Ends}
use my_power_mirror.Mirror.Http.{Request, parse_request}
use my_power_mirror.Mirror.Http.Lines.{parse_request-ne-out_of_fuel}
use my_power_mirror.Mirror.Util.{get_file_type}
use my_power_mirror.Mirror.Response.{
  HeapText, strcpy_new, strcat, memcpy_behind, read_prefix, assemble, response,
}
use my_power_mirror.Mirror.Server.Fuel.{Served-count}
use my_power_mirror.Mirror.Server.Table.{serve_client-Served}
use my_power_mirror.Mirror.Server.{
  Effect, received, wrote, Server, buffer_size, slot, set_slot, buffer_text, receive_from,
  receive_content, is_set, known_fd, expect_content, close_client, answer, serve_client, serve,
  add_client, fd_isset, Selected, failed, timed_out, ready, accept_client, round,
}

strcat-Ends : (b : HeapText) (s : Bytes) → Ends Some (strcat b s)
unfolding strcat
strcat-Ends b s =
    Ends-if (leb (suc (length b.text + length s)) b.size) (λ _. returns tt) (λ _. undefined)

memcpy_behind-Ends : (b : HeapText) (n : ℕ) (s : Bytes) → Ends Some (memcpy_behind b n s)
unfolding memcpy_behind
memcpy_behind-Ends b n s =
    Ends-if (ltb (length b.text) n && leb (n + length s) b.size) (λ _. returns tt) (λ _. undefined)

read_prefix-Ends : (b : HeapText) (n : ℕ) → Ends Some (read_prefix b n)
unfolding read_prefix
read_prefix-Ends b n =
    Ends-if (leb n (suc (length b.text)) && leb n b.size) (λ _. returns tt) (λ _. undefined)

strcpy_new-Ends : (size : ℕ) (s : Bytes) → Ends Some (strcpy_new size s)
unfolding strcpy_new
strcpy_new-Ends size s = Ends-if (leb (suc (length s)) size) (λ _. returns tt) (λ _. undefined)

assemble-Ends : (first second third : Bytes) → Ends Some (assemble first second third)
unfolding assemble
assemble-Ends first second third = Ends-bind (strcpy_new-Ends _ first) λ a _.
    Ends-bind (strcat-Ends _ second) λ b _.
      Ends-bind (strcat-Ends _ third)
        λ c _. Ends-bind (memcpy_behind-Ends _ _ _) λ d _. read_prefix-Ends d _

deref-Ends : (p : Pointer) → Ends Some (deref p)
deref-Ends unset = undefined
deref-Ends null = undefined
deref-Ends (str s) = returns tt

response-Ends : (res : Request) → Ends Some (response res)
unfolding response get_file_type
response-Ends res =
    Ends-bind {P = Some} (Ends-bind (deref-Ends res.content_type) λ name _. returns tt)
      λ type _. assemble-Ends _ _ _

buffer_text-Ends : (bytes : Bytes) → Ends Some (buffer_text bytes)
unfolding buffer_text
buffer_text-Ends bytes =
    Ends-if (ltb (length (before 0 bytes)) buffer_size) (λ _. returns tt) (λ _. undefined)

receive_from-Ends :
    (o : Option ℕ) (incoming : List Bytes) (s : Server) → Ends Some (receive_from o incoming s)
unfolding receive_from
receive_from-Ends none incoming s = undefined
receive_from-Ends (some fd) [] s = returns tt
receive_from-Ends (some fd) (bytes ∷ rest) s = returns tt

receive_content-Ends :
    (fd : ℕ) (content_length : Pointer) (content : HeapText) (total : ℕ) (incoming : List Bytes)
    (effects : List Effect)
    → Ends Some (receive_content fd content_length content total incoming effects)
unfolding receive_content
receive_content-Ends fd content_length content total [] effects = returns tt
receive_content-Ends fd content_length content total ([] ∷ rest) effects = returns tt
receive_content-Ends fd content_length content total ((x ∷ bytes) ∷ rest) effects =
    let effects' = effects ++ received fd ∷ wrote (x ∷ bytes) ∷ [] in
    Ends-bind (buffer_text-Ends (x ∷ bytes)) λ text _.
      Ends-bind (strcat-Ends content text) λ content' _.
        Ends-bind {P = Some}
          (Ends-if (ltb (total + length (x ∷ bytes)) 2147483648) (λ _. returns tt) (λ _. undefined))
          λ total' _. Ends-bind (deref-Ends content_length) λ digits _.
            Ends-bind (atoi-Ends digits) λ expected _.
              Ends-if (total' == expected) (λ _. returns tt)
                (λ _. receive_content-Ends fd content_length content' total' rest effects')

is_set-Ends : (p : Pointer) → Ends Some (is_set p)
is_set-Ends unset = undefined
is_set-Ends null = returns tt
is_set-Ends (str s) = returns tt

known_fd-Ends : (o : Option ℕ) → Ends Some (known_fd o)
known_fd-Ends none = undefined
known_fd-Ends (some fd) = returns tt

expect_content-Ends :
    (opens : Bool) (fd : ℕ) (res : Request) (s : Server) → Ends Some (expect_content opens fd res s)
unfolding expect_content
expect_content-Ends opens fd res s =
    Ends-if opens
      (λ _. Ends-bind (known_fd-Ends s.client_fd) λ from _.
        Ends-bind (receive_content-Ends from res.content_length _ 0 _ _) λ r _. returns tt)
      (λ _. undefined)

answer-Ends :
    (opens : Bool) (fd : ℕ) (bytes : Bytes) (s : Server) → Ends Some (answer opens fd bytes s)
unfolding answer
answer-Ends opens fd bytes s = Ends-bind (buffer_text-Ends bytes) λ text _.
    Ends-bind (ne-Ends (parse_request text) (parse_request-ne-out_of_fuel text)) λ res _.
      Ends-bind (is_set-Ends res.expect) λ expects _.
        Ends-bind {P = Some}
          (Ends-if expects (λ _. expect_content-Ends opens fd res s) (λ _. returns tt))
          λ s' _. Ends-bind (response-Ends res) λ reply _. returns tt

slot-Ends : (client : List ℕ) (i : ℕ) → Ends Some (slot client i)
unfolding slot
slot-Ends [] i = undefined
slot-Ends (x ∷ client) zero = returns tt
slot-Ends (x ∷ client) (suc i) = slot-Ends client i

set_slot-Ends : (client : List ℕ) (i fd : ℕ) → Ends Some (set_slot client i fd)
unfolding set_slot
set_slot-Ends [] i fd = undefined
set_slot-Ends (x ∷ client) zero fd = returns tt
set_slot-Ends (x ∷ client) (suc i) fd =
    Ends-bind (set_slot-Ends client i fd) λ client' _. returns tt

close_client-Ends : (i fd : ℕ) (s : Server) → Ends Some (close_client i fd s)
unfolding close_client
close_client-Ends i fd s = Ends-bind (set_slot-Ends s.client i 0) λ client _. returns tt

serve_client-Ends :
    (fds : List ℕ) (opens : Bool) (i : ℕ) (s : Server) → Ends Some (serve_client fds opens i s)
unfolding serve_client
serve_client-Ends fds opens i s = Ends-bind (slot-Ends s.client i) λ fd _.
    Ends-if (fd_isset fd fds)
      (λ _. Ends-bind (receive_from-Ends s.client_fd s.incoming s) λ (bytes, s') _.
        Ends-if (length bytes == 0) (λ _. close_client-Ends i fd s')
          (λ _. answer-Ends opens fd bytes s'))
      (λ _. returns tt)

-- As many rounds as there are slots from i on are enough: the count never grows.
serve-Ends :
    (left : ℕ) (fds : List ℕ) (opens : Bool) (i : ℕ) (s : Server)
    → s.client_count ≤ i + left
    → Ends Some (serve left fds opens i s)
unfolding serve
serve-Ends zero fds opens i s h = rw (le→ltb i s.client_count (omega arith)) (returns tt)
serve-Ends (suc left) fds opens i s h =
    Ends-if (ltb i s.client_count)
      (λ _.
        Ends-bind
          (Ends-strong (serve_client-Ends fds opens i s) (serve_client-Served fds opens i s))
          λ s' served.
            serve-Ends left fds opens (i + 1) s' (omega (arith, h, Served-count i s s' served)))
      (λ _. returns tt)

add_client-Ends : (fd : ℕ) (s : Server) → Ends Some (add_client fd s)
unfolding add_client
add_client-Ends fd s = Ends-bind (set_slot-Ends s.client s.client_count fd) λ client _.
    Ends-bind {P = Some} (Ends-if (ltb fd 1024) (λ _. returns tt) (λ _. undefined))
      λ readfd _. returns tt

accept_client-Ends :
    (fds : List ℕ) (connection : Option ℕ) (s : Server) → Ends Some (accept_client fds connection s)
accept_client-Ends fds none s =
    Ends-if (fd_isset s.server_fd fds) (λ _. returns tt) (λ _. returns tt)
accept_client-Ends fds (some fd) s =
    Ends-if (fd_isset s.server_fd fds) (λ _. Ends-bind (add_client-Ends fd s) λ s' _. returns tt)
      (λ _. returns tt)

-- Every round ends, whatever `select` and the calls behind it give.
pub round-Ends : (selected : Selected) (s : Server) → Ends (λ _. Unit {0}) (round selected s)
unfolding round
round-Ends failed s = returns tt
round-Ends timed_out s = returns tt
round-Ends (ready fds connection opens) s =
    Ends-bind (serve-Ends s.client_count fds opens 0 s (omega arith))
      λ s' _. accept_client-Ends fds connection s'
