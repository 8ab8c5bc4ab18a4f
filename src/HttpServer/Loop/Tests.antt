-- ===== src/HttpServer/Loop/Tests.antt =====
-- Runs of process.
use my_power_mirror.Base.{
  ℕ, ◌≡◌, refl, true, none, some, List, [], ◌∷◌, codes, map, ◌>>=◌, ok, fail, undefined_behavior,
  inl, arith,
}
use my_power_mirror.Client.{new_client}
use my_power_mirror.HttpServer.Receiving.{Received, hung_up}
use my_power_mirror.HttpServer.Loop.{
  Host, start, events, proceeds, process_round, visit, step_on, accept_ready, serve_clients,
  accept_connection, insert_client, get_client, begin, after,
}
use my_power_mirror.Descriptors.{fd_isset}
use my_power_mirror.HttpServer.Loop.Kept.{sockets}
use my_power_mirror.HttpServer.Loop.Broken.{process_round-undefined}
use my_power_mirror.HttpServer.Loop.Served.{served, process_round-served}
use my_power_mirror.HttpServer.Receiving.{
  arrived, handled, read_client, read_bytes, text_in, request_in,
}
use my_power_mirror.HttpServer.{handle_request, handle_method}
use my_power_mirror.ByteBuffer.{
  make_from, put_bytes, append, find, find_from, get_at, get_bytes, get, peek, read, read_at, size,
  bytes_remaining,
}
use my_power_mirror.CString.{before, str_eq}
use my_power_mirror.HttpMessage.{
  get_str_element, parse_headers, header_lines, get_line, take_line, skip_newlines, last_char,
}
use my_power_mirror.HttpRequest.{from_bytes, parse, parse_rest, method_str_to_int, method_index}
use my_power_mirror.HttpServer.Loop.Valid.{IsValid, Processed-IsValid, Processed-fd_isset}

abbrev pub listening : Host
listening = record {
  can_run = true;
  listen_socket = 3;
  read_fd = 3 ∷ [];
  maxfd = 3;
  client_map = [];
}

pub started : start (some 3) true true ≡ ok (some listening)
started = refl

-- A client has connected.
abbrev pub connected : Host
connected = record listening { read_fd = 4 ∷ 3 ∷ []; maxfd = 4; client_map = (4, new_client) ∷ [] }

abbrev pub silent : ℕ → List Received
silent fd = []

pub connecting : process_round (events (3 ∷ []) (some 4) silent) listening ≡ ok (proceeds connected)
unfolding process_round serve_clients accept_connection insert_client get_client
connecting = refl

Processed-IsValid_example : IsValid connected
Processed-IsValid_example =
    Processed-IsValid (some 3) true true started
      (after (events (3 ∷ []) (some 4) silent) begin connecting)

-- A second one connects.
abbrev both : Host
both = record connected {
  read_fd = 5 ∷ 4 ∷ 3 ∷ [];
  maxfd = 5;
  client_map = (5, new_client) ∷ (4, new_client) ∷ [];
}

second : process_round (events (3 ∷ []) (some 5) silent) connected ≡ ok (proceeds both)
unfolding process_round serve_clients visit step_on accept_connection insert_client get_client
second = refl

Processed-fd_isset_example : fd_isset 4 (sockets both.client_map) ≡ true
Processed-fd_isset_example =
    Processed-fd_isset 4 (after (events (3 ∷ []) (some 5) silent) begin second) refl

abbrev closing : ℕ → List Received
closing fd = hung_up ∷ []

there : get_client 4 connected.client_map ≡ some new_client
unfolding get_client
there = refl

process_round-undefined_example :
    process_round (events (4 ∷ []) none closing) connected ≡ fail undefined_behavior
process_round-undefined_example =
    process_round-undefined (4 ∷ []) none closing 4 connected there refl ([], inl refl)
      (λ other. absurd (other refl), tt)

-- A client that sends a request that is not answered.
abbrev pub get_input : ℕ → List Received
get_input fd = arrived (codes "GET / HTTP/1.1\r\n\r\n") ∷ []

pub get_handled : read_client new_client (get_input 4) ≡ ok (handled new_client)
unfolding read_client read_bytes text_in request_in from_bytes handle_request handle_method parse
    before make_from put_bytes append get_str_element find find_from get_at get_bytes get
    method_str_to_int method_index str_eq parse_rest parse_headers header_lines get_line take_line
    skip_newlines peek read read_at size bytes_remaining last_char
get_handled = refl

connected-IsValid : IsValid connected
connected-IsValid = record {
  listens = refl;
  registered = (refl, tt);
  distinct = (tt, tt);
  small = omega arith;
  within = omega arith;
}

process_round-served_example : process_round (events (4 ∷ []) none get_input) connected ≡ (
    accept_ready
      (4 ∷ [])
      none
      (record connected { client_map = map (served (4 ∷ []) (λ fd cl. cl)) connected.client_map })
    >>= λ h'. ok (proceeds h'))
process_round-served_example =
    process_round-served (4 ∷ []) none get_input (λ fd cl. cl) connected connected-IsValid
      ((λ _. get_handled), tt)
