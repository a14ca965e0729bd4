-- ===== src/Client/Connection.antt =====
-- client/connection.go: handing a message to a connection's write queue.
use diam_gw.Prelude.{
  ℕ, List, [], ◌∷◌, ◌++◌, length, Bool, not, ◌&&◌, ltb, if◌then◌else◌, Option, none, some,
}
use diam_gw.Client.State.{ConnectionState, is_active}

abbrev pub Data : Type 0
Data = List ℕ

-- What a sender sees of a Connection: `queue` is the content of the channel `sendCh`, and `cancelled` tells
-- that the context is done.
pub record Connection : Type 0 where
  pub id : List ℕ
  pub state : ConnectionState
  pub queue : List Data
  pub capacity : ℕ
  pub cancelled : Bool

-- The errors of sending through a connection or a pool of them.
pub data SendError : Type 0 where
  connection_closed connection_not_found : List ℕ → SendError
  context_done send_buffer_full pool_closed no_active_connections : SendError

abbrev pub has_room : Connection → Bool
has_room c = ltb (length c.queue) c.capacity

-- `Send`: none is the nil error. Where the queue has room and the context is done too, `select` takes
-- either: `favours_queue` is its choice.
unfoldable pub send : Bool → Data → Connection → Option SendError × Connection
unfolding is_active
send favours_queue bytes c =
    let queued : Option SendError × Connection =
      (none, record c { queue = c.queue ++ bytes ∷ [] }) in
    let stopped : Option SendError × Connection = (some context_done, c) in
    if not (is_active c.state)
    then (some (connection_closed c.id), c)
    else if has_room c && c.cancelled
    then (if favours_queue then queued else stopped)
    else if has_room c
    then queued
    else if c.cancelled
    then stopped
    else (some send_buffer_full, c)
