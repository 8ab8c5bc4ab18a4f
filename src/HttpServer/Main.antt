-- ===== src/HttpServer/Main.antt =====
-- src/main.cpp, and the loop of `process` on the rounds that the environment makes.
pub mod Ending
pub mod Stopping
use my_power_mirror.Base.{
  ℕ, Bool, Option, none, some, List, [], ◌∷◌, Bytes, codes, minus_one_32, Outcome, ok, ◌>>=◌,
}
use my_power_mirror.CString.Numbers.{atoi}
use my_power_mirror.HttpServer.Loop.{
  Host, start, stop, Events, Round, proceeds, waits, returns, process_round,
}

-- PORT
abbrev pub port : Bytes
port = codes "1239"

-- What `process` has come to: it goes on, it waits in a call of `recv`, or it has returned.
pub data Processing : Type 0 where
  serves left : Host → Processing
  blocks : Processing

unfoldable pub process : List Events → Host → Outcome Processing
process [] h = ok (serves h)
process (e ∷ es) h = process_round e h >>= λ r. elim r [
  | proceeds h' ↦ process es h'
  | waits ↦ ok blocks
  | returns ↦ ok (left h)
]

-- What the program has come to: the same, or the value that `main` returns, with the server as it
-- is then if it was started.
pub data Program : Type 0 where
  runs : Host → Program
  waits_for_data : Program
  exits : ℕ → Option Host → Program

abbrev pub behind_process : Processing → Program
behind_process (serves h) = runs h
behind_process blocks = waits_for_data
behind_process (left h) = exits 0 (some (stop h))

-- What `socket`, `bind` for a port and `listen` give, and then each call of `select`.
unfoldable pub main : Option ℕ → (ℕ → Bool) → Bool → List Events → Outcome Program
main socket binds listens es = atoi port >>= λ listen_port.
    start socket (binds listen_port) listens >>= λ o. elim o [
      | none ↦ ok (exits minus_one_32 none)
      | some h ↦ process es h >>= λ p. ok (behind_process p)
    ]
