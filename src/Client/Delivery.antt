-- ===== src/Client/Delivery.antt =====
-- Sending through the agents of the active priority comes to one that can take the message.
use diam_gw.Prelude.{
  ℕ, ◌+◌, ◌%◌, ◌^◌, ◌<◌, ◌≡◌, List, length, Bool, true, false, Option, some, get_elem?,
}
use diam_gw.Client.State.{is_active}
use diam_gw.Client.Connection.{Connection, Data, has_room}
use diam_gw.Client.ConnectionPool.{ConnectionPool, is_healthy, send_at}
use diam_gw.Client.ConnectionPool
use diam_gw.Client.DraPool.{DraPool, DraServer}

-- A pool that takes a message: it has an active connection, and each of those has room.
pub record IsReady (p : ConnectionPool) : Type 0 where
  pub is_open : p.closed ≡ false
  pub some_connection : 0 < length p.connections
  pub bounded : length p.connections < 2 ^ 31
  pub healthy : is_healthy p.connections ≡ true
  pub room :
      (k : ℕ) (c : Connection)
      → get_elem? p.connections k ≡ some c
      → is_active c.state ≡ true
      → (has_room c ≡ true) × (c.cancelled ≡ false)

module _ (favours_queue : Bool) (bytes : Data) (dras : List DraServer) (start : ℕ) where
  -- The agent of the `i`th round.
  abbrev pub turn_of : ℕ → Option DraServer
  turn_of i = get_elem? dras ((start + i) % 2 ^ 32 % length dras)
