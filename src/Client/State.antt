-- ===== src/Client/State.antt =====
-- client/state.go: the states of a connection.
use diam_gw.Prelude.{Bool, true, false}

pub data ConnectionState : Type 0 where
  disconnected connecting cer_sent open_state dwr_sent failed reconnecting closed_state :
      ConnectionState

unfoldable pub is_active : ConnectionState → Bool
is_active open_state = true
is_active dwr_sent = true
is_active _ = false

unfoldable pub can_reconnect : ConnectionState → Bool
can_reconnect failed = true
can_reconnect disconnected = true
can_reconnect _ = false
