-- ===== src/Client/Inbox.antt =====
-- client/connection.go: what a connection does with the messages that it reads.
use diam_gw.Prelude.{
  ℕ, List, [], ◌∷◌, ◌++◌, length, Bool, not, ◌&&◌, ◌==◌, ltb, if◌then◌else◌, Option, none, some, ok,
  err, put, lookup, delete,
}
use diam_gw.Wire.Header.{
  InvalidMessage, MessageInfo, parse_message_header, is_base_protocol, get_message_type,
}
use diam_gw.Wire.Reader.{Message}
use diam_gw.Dra.Node.{WatchdogCodec}

-- `diam_conn` numbers the connections.
pub record DiamConnectionInfo : Type 0 where
  pub message : Message
  pub diam_conn : ℕ

-- The channels that wait for responses are numbered; `channels` has what their buffers hold.
pub record Inbox : Type 0 where
  pub pending : List (ℕ × ℕ)
  pub channels : ℕ → List (List ℕ)
  pub receiving : List DiamConnectionInfo
  pub recv_buffer_size : ℕ
  pub sending : List (List ℕ)
  pub send_buffer_size : ℕ
  pub last_activity : ℕ
  pub origin_host : List ℕ
  pub origin_realm : List ℕ

-- The context of the connection: whether it is cancelled, and whether a select that could also
-- send takes that case. And the clock.
pub record Moment : Type 0 where
  pub is_cancelled : Bool
  pub prefers_done : Bool
  pub now : ℕ

pub data DispatchError : Type 0 where
  invalid_message : InvalidMessage → DispatchError
  not_unmarshalled not_marshalled context_cancelled : DispatchError

-- A call that waits for room in the send channel is `blocked`.
pub data Dispatched : Type 0 where
  done : Inbox → Dispatched
  gives_error : DispatchError → Inbox → Dispatched
  blocked : Dispatched

unfoldable pub register_pending : ℕ → ℕ → Inbox → Inbox
unfolding put
register_pending hop_by_hop_id ch c = record c { pending = put hop_by_hop_id ch c.pending }

unfoldable pub unregister_pending : ℕ → Inbox → Inbox
unfolding delete
unregister_pending hop_by_hop_id c = record c { pending = delete hop_by_hop_id c.pending }

-- The send to `respCh`, which is made with room for one response.
unfoldable pub offer_response : ℕ → List ℕ → Inbox → Inbox
offer_response ch response c =
    if ltb (length (c.channels ch)) 1
    then record c {
      channels = λ other. if other == ch then c.channels ch ++ response ∷ [] else c.channels other;
    }
    else c

unfoldable pub deliver_response : ℕ → Message → Inbox → Inbox
unfolding lookup offer_response
deliver_response hop_by_hop_id msg c = elim (lookup hop_by_hop_id c.pending) [
  | none ↦ c
  | some ch ↦ offer_response ch (msg.header ++ msg.body) c
]

-- The select that sends the DWA.
unfoldable pub send_dwa : Moment → List ℕ → Inbox → Dispatched
send_dwa x dwa_data c =
    if ltb (length c.sending) c.send_buffer_size && not (x.is_cancelled && x.prefers_done)
    then done (record c { sending = c.sending ++ dwa_data ∷ []; last_activity = x.now })
    else if x.is_cancelled
    then gives_error context_cancelled c
    else blocked

-- `handleDWR`
unfoldable pub answer_dwr : WatchdogCodec → Moment → Message → Inbox → Dispatched
unfolding send_dwa
answer_dwr codec x msg c = elim (codec.unmarshal_dwr (msg.header ++ msg.body)) [
  | none ↦ gives_error not_unmarshalled c
  | some ids ↦ elim (codec.marshal_dwa ids.0 ids.1 c.origin_host c.origin_realm) [
    | none ↦ gives_error not_marshalled c
    | some dwa_data ↦ send_dwa x dwa_data c
  ]
]

-- The select that forwards a message to the receive channel, or drops it.
unfoldable pub forward_message : Moment → DiamConnectionInfo → Inbox → Dispatched
forward_message x info c =
    if ltb (length c.receiving) c.recv_buffer_size && not (x.is_cancelled && x.prefers_done)
    then done (record c { receiving = c.receiving ++ info ∷ [] })
    else if x.is_cancelled
    then gives_error context_cancelled c
    else done c

unfoldable pub dispatch_parsed :
    WatchdogCodec → Moment → ℕ → Message → MessageInfo → Inbox → Dispatched
unfolding is_base_protocol get_message_type deliver_response answer_dwr forward_message
dispatch_parsed codec x conn msg info c =
    let response = done (deliver_response info.hop_by_hop_id msg c) in
    let forwarded = forward_message x (record { message = msg; diam_conn = conn }) c in
    let dwr = answer_dwr codec x msg c in
    if is_base_protocol info
    then if get_message_type info == 257
      then if not info.is_request then response else forwarded
      else if get_message_type info == 280
      then if info.is_request then dwr else response
      else forwarded
    else forwarded

unfoldable pub dispatch_message : WatchdogCodec → Moment → ℕ → Message → Inbox → Dispatched
unfolding parse_message_header dispatch_parsed
dispatch_message codec x conn msg c = elim (parse_message_header msg.header) [
  | err e ↦ gives_error (invalid_message e) c
  | ok info ↦ dispatch_parsed codec x conn msg info c
]

-- What the connection is like when a call is over; a call that is blocked is not.
unfoldable pub next_inbox : Dispatched → Option Inbox
next_inbox (done c) = some c
next_inbox (gives_error e c) = some c
next_inbox blocked = none

-- The read loop, over the messages that it reads, each with its moment; an error is logged only.
unfoldable pub dispatch_all : WatchdogCodec → ℕ → List (Moment × Message) → Inbox → Option Inbox
unfolding dispatch_message next_inbox
dispatch_all codec conn [] c = some c
dispatch_all codec conn (m ∷ ms) c = elim (next_inbox (dispatch_message codec m.0 conn m.1 c)) [
  | none ↦ none
  | some c' ↦ dispatch_all codec conn ms c'
]
