-- ===== src/Client.antt =====
-- src/Client.h, src/Client.cpp and src/SendQueueItem.h: a client and its queue of data to be sent.
use my_power_mirror.Base.{ℕ, Option, none, some, List, [], ◌∷◌, ◌++◌, Bytes, Bool, length}

pub record SendQueueItem : Type 0 where
  pub send_data : Bytes
  pub send_size : ℕ
  pub send_offset : ℕ
  pub disconnect : Bool

-- The front of the queue is the head of the list; `sent` is what `send` was given for the socket.
pub record Client : Type 0 where
  pub send_queue : List SendQueueItem
  pub sent : Bytes

-- Client(fd, addr), with nothing queued and nothing sent.
abbrev pub new_client : Client
new_client = record { send_queue = []; sent = [] }

-- SendQueueItem(data, size, dc)
abbrev pub make_item : Bytes → ℕ → Bool → SendQueueItem
make_item bytes size dc = record {
  send_data = bytes;
  send_size = size;
  send_offset = 0;
  disconnect = dc;
}

abbrev pub add_to_send_queue : Client → SendQueueItem → Client
add_to_send_queue cl item = record cl { send_queue = cl.send_queue ++ item ∷ [] }

abbrev pub send_queue_size : Client → ℕ
send_queue_size cl = length cl.send_queue

abbrev pub next_in_send_queue : Client → Option SendQueueItem
next_in_send_queue cl = elim cl.send_queue [ [] ↦ none | item ∷ items ↦ some item ]

abbrev pub dequeue_from_send_queue : Client → Client
dequeue_from_send_queue cl = elim cl.send_queue [
  | [] ↦ cl
  | item ∷ items ↦ record cl { send_queue = items }
]

abbrev pub clear_send_queue : Client → Client
clear_send_queue cl = record cl { send_queue = [] }

abbrev pub set_offset : SendQueueItem → ℕ → SendQueueItem
set_offset item off = record item { send_offset = off }
