-- ===== src/Client/Dispatching.antt =====
-- Where the messages go that a connection reads.
use diam_gw.Prelude.{
  ℕ, zero, suc, ◌+◌, ◌-◌, ◌≤◌, ◌<◌, ◌≡◌, inl, inr, refl, sym, ap, ◌∙◌, List, [], ◌∷◌, ◌++◌, length,
  take, All, Bool, true, false, not, ◌&&◌, ◌||◌, ◌==◌, ltb, if◌then◌else◌, Bool-cases, Option-cases,
  Option, none, some, Result, ok, err, arith, lookup, lt→ltb, length-append, append_assoc,
  append-nil,
}
use diam_gw.Wire.Header.{
  InvalidMessage, MessageInfo, parse_message_header, is_base_protocol, get_message_type,
}
use diam_gw.Wire.Reader.{Message}
use diam_gw.Dra.Node.{WatchdogCodec}
use diam_gw.Client.Inbox.{
  DiamConnectionInfo, Inbox, Moment, Dispatched, done, gives_error, invalid_message, offer_response,
  deliver_response, send_dwa, answer_dwr, forward_message, dispatch_parsed, dispatch_message,
  next_inbox, dispatch_all,
}

-- The receive channel holds `received`, and the send channel at most one message more.
abbrev pub Follows : Inbox → List DiamConnectionInfo → Inbox → Type 0
Follows c received c' =
    (c'.receiving ≡ received)
    × (c'.recv_buffer_size ≡ c.recv_buffer_size)
    × (c'.send_buffer_size ≡ c.send_buffer_size)
    × (length c'.sending ≤ length c.sending + 1)

abbrev pub Goes : Inbox → List DiamConnectionInfo → Dispatched → Type 0
Goes c received d = (c' : Inbox) × (next_inbox d ≡ some c') × Follows c received c'

deliver_response-Follows :
    (h : ℕ) (msg : Message) (c : Inbox) → Follows c c.receiving (deliver_response h msg c)
unfolding deliver_response offer_response
deliver_response-Follows h msg c = elim (Option-cases (lookup h c.pending)) [
  | inl missing ↦ rw (deliver_response, missing) (refl, refl, refl, omega arith)
  | inr (ch, found) ↦
      rw (deliver_response, found, offer_response)
        (elim (ltb (length (c.channels ch)) 1)
          as (λ b. Follows c c.receiving (
            if b
            then record c {
              channels = λ other.
                  if other == ch
                  then c.channels ch ++ (msg.header ++ msg.body) ∷ []
                  else c.channels other;
            }
            else c)) [
              | true ↦ (refl, refl, refl, omega arith)
              | false ↦ (refl, refl, refl, omega arith)
            ])
]

send_dwa-Goes :
    (x : Moment) (dwa : List ℕ) (c : Inbox)
    → x.is_cancelled ≡ false
    → length c.sending < c.send_buffer_size
    → Goes c c.receiving (send_dwa x dwa c)
unfolding send_dwa next_inbox
send_dwa-Goes x dwa c live room =
    rw (lt→ltb (length c.sending) c.send_buffer_size room, live)
      (
        record c { sending = c.sending ++ dwa ∷ []; last_activity = x.now },
        refl,
        (refl, refl, refl, omega (arith, length-append c.sending (dwa ∷ []))),
      )

answer_dwr-Goes :
    (codec : WatchdogCodec) (x : Moment) (msg : Message) (c : Inbox)
    → x.is_cancelled ≡ false
    → length c.sending < c.send_buffer_size
    → Goes c c.receiving (answer_dwr codec x msg c)
unfolding answer_dwr next_inbox
answer_dwr-Goes codec x msg c live room =
    elim (Option-cases (codec.unmarshal_dwr (msg.header ++ msg.body))) [
      | inl missing ↦ rw (answer_dwr, missing) (c, refl, (refl, refl, refl, omega arith))
      | inr (ids, found) ↦
          rw (answer_dwr, found)
            (elim (Option-cases (codec.marshal_dwa ids.0 ids.1 c.origin_host c.origin_realm)) [
              | inl missing ↦ rw (missing) (c, refl, (refl, refl, refl, omega arith))
              | inr (dwa, made) ↦ rw (made) (send_dwa-Goes x dwa c live room)
            ])
    ]

-- A channel of the given size after a message, if there is one, was offered to it.
abbrev offered : ℕ → List DiamConnectionInfo → Option DiamConnectionInfo → List DiamConnectionInfo
offered size held none = held
offered size held (some info) = if ltb (length held) size then held ++ info ∷ [] else held

forward_message-Goes :
    (x : Moment) (info : DiamConnectionInfo) (c : Inbox)
    → x.is_cancelled ≡ false
    → Goes c (offered c.recv_buffer_size c.receiving (some info)) (forward_message x info c)
unfolding forward_message next_inbox
forward_message-Goes x info c live =
    elim (Bool-cases (ltb (length c.receiving) c.recv_buffer_size)) [
      | inl room ↦
          rw (room, live)
            (
              record c { receiving = c.receiving ++ info ∷ [] },
              refl,
              (refl, refl, refl, omega arith),
            )
      | inr full ↦ rw (full, live) (c, refl, (refl, refl, refl, omega arith))
    ]

-- Whether a message is for the application: all are but the answers of CER, and DWR and its answers.
abbrev pub is_application : MessageInfo → Bool
is_application info = not (
    info.application_id == 0
    && ((info.command_code == 257 && not info.is_request) || info.command_code == 280))

-- What the application gets from a message.
abbrev for_application : ℕ → Message → Result InvalidMessage MessageInfo → Option DiamConnectionInfo
for_application conn msg (err e) = none
for_application conn msg (ok info) =
    if is_application info then some (record { message = msg; diam_conn = conn }) else none

abbrev cons_some {ℓ} : {A : Type ℓ} → Option A → List A → List A
cons_some none more = more
cons_some (some a) more = a ∷ more

-- The application messages among those read, in order.
unfoldable pub applications : ℕ → List (Moment × Message) → List DiamConnectionInfo
applications conn [] = []
applications conn (m ∷ ms) =
    cons_some (for_application conn m.1 (parse_message_header m.1.header)) (applications conn ms)

not_both : (code : ℕ) → code == 257 ≡ true → code == 280 ≡ false
not_both code h = ground arith

dispatch_parsed-Goes :
    (codec : WatchdogCodec) (x : Moment) (conn : ℕ) (msg : Message) (info : MessageInfo) (c : Inbox)
    → x.is_cancelled ≡ false
    → length c.sending < c.send_buffer_size
    → Goes c
        (offered c.recv_buffer_size c.receiving (for_application conn msg (ok info)))
        (dispatch_parsed codec x conn msg info c)
unfolding dispatch_parsed is_base_protocol get_message_type next_inbox
dispatch_parsed-Goes codec x conn msg info c live room =
    let delivered : Goes c c.receiving (done (deliver_response info.hop_by_hop_id msg c)) = (
      deliver_response info.hop_by_hop_id msg c,
      refl,
      deliver_response-Follows info.hop_by_hop_id msg c,
    ) in
    let forwarded = forward_message-Goes x (record { message = msg; diam_conn = conn }) c live in
    let answered = answer_dwr-Goes codec x msg c live room in
    elim (Bool-cases (info.application_id == 0)) [
      | inr other ↦ rw (other) forwarded
      | inl base ↦ rw (base) (elim (Bool-cases (info.command_code == 257)) [
        | inl cea ↦ elim (Bool-cases info.is_request) [
          | inl request ↦ rw (cea, request, not_both info.command_code cea) forwarded
          | inr answer ↦ rw (cea, answer) delivered
        ]
        | inr not_cea ↦ elim (Bool-cases (info.command_code == 280)) [
          | inr not_dwr ↦ rw (not_cea, not_dwr) forwarded
          | inl dwr ↦ elim (Bool-cases info.is_request) [
            | inl request ↦ rw (not_cea, dwr, request) answered
            | inr answer ↦ rw (not_cea, dwr, answer) delivered
          ]
        ]
      ])
    ]

dispatch_message-Goes :
    (codec : WatchdogCodec) (x : Moment) (conn : ℕ) (msg : Message) (c : Inbox)
    → x.is_cancelled ≡ false
    → length c.sending < c.send_buffer_size
    → Goes c
        (offered c.recv_buffer_size c.receiving
          (for_application conn msg (parse_message_header msg.header)))
        (dispatch_message codec x conn msg c)
unfolding dispatch_message next_inbox
dispatch_message-Goes codec x conn msg c live room =
    elim (parse_message_header msg.header)
      as (λ r.
        Goes c (offered c.recv_buffer_size c.receiving (for_application conn msg r)) (elim r [
          | err e ↦ gives_error (invalid_message e) c
          | ok info ↦ dispatch_parsed codec x conn msg info c
        ])) [
          | err e ↦ (c, refl, (refl, refl, refl, omega arith))
          | ok info ↦ dispatch_parsed-Goes codec x conn msg info c live room
        ]

take_positive {ℓ} :
    {A : Type ℓ} (n : ℕ) (a : A) (more : List A) → 0 < n → take n (a ∷ more) ≡ a ∷ take (n - 1) more
take_positive zero a more h = absurd (omega arith)
take_positive (suc n) a more h = ap (λ k. a ∷ take k more) (omega arith)

take-nil {ℓ} : {A : Type ℓ} (n : ℕ) → take {ℓ} {A = A} n [] ≡ []
take-nil zero = refl
take-nil (suc n) = refl

-- A channel takes the same messages one by one or together.
offered-take :
    (size : ℕ) (held : List DiamConnectionInfo) (o : Option DiamConnectionInfo)
    → (more : List DiamConnectionInfo)
    → offered size held o ++ take (size - length (offered size held o)) more
      ≡ held ++ take (size - length held) (cons_some o more)
offered-take size held none more = refl
offered-take size held (some info) more = elim (Bool-cases (ltb (length held) size)) [
  | inl room ↦
      let left : size - length (held ++ info ∷ []) ≡ size - length held - 1 =
        omega (arith, length-append held (info ∷ [])) in
      rw
        (
          room,
          left,
          append_assoc held (info ∷ []) (take (size - length held - 1) more),
          take_positive (size - length held) info more (ground arith),
        )
        refl
  | inr full ↦ let none_left : size - length held ≡ 0 = ground arith in rw (full, none_left) refl
]

dispatch_all-step :
    (codec : WatchdogCodec) (conn : ℕ) (m : Moment × Message) (ms : List (Moment × Message))
    → (c c' : Inbox) → next_inbox (dispatch_message codec m.0 conn m.1 c) ≡ some c'
    → dispatch_all codec conn (m ∷ ms) c ≡ dispatch_all codec conn ms c'
unfolding dispatch_all
dispatch_all-step codec conn m ms c c' e = rw (dispatch_all, e) refl

-- While the context is not cancelled, and the send channel has room for an answer to each message
-- that is read, the read loop is never blocked, and the receive channel then holds what it held,
-- followed by the first application messages among those read, in order, as many as it has room for.
pub dispatch_all_lem :
    (codec : WatchdogCodec) (conn : ℕ) (ms : List (Moment × Message)) (c : Inbox)
    → All (λ m. m.0.is_cancelled ≡ false) ms
    → length c.sending + length ms ≤ c.send_buffer_size
    → (c' : Inbox) × (dispatch_all codec conn ms c ≡ some c')
      × (c'.receiving
          ≡ c.receiving ++ take (c.recv_buffer_size - length c.receiving) (applications conn ms))
unfolding dispatch_all applications next_inbox
dispatch_all_lem codec conn [] c live room = (
  c,
  refl,
  rw (take-nil (c.recv_buffer_size - length c.receiving)) (sym (append-nil c.receiving)),
)
dispatch_all_lem codec conn (m ∷ ms) c (alive, live) room =
    let (c', e, (received, size, send_size, sent)) =
      dispatch_message-Goes codec m.0 conn m.1 c alive (omega arith) in
    let (d, ends, holds) = dispatch_all_lem codec conn ms c' live (ground arith) in
    (
      d,
      dispatch_all-step codec conn m ms c c' e ∙ ends,
      holds
          ∙ ap (λ n. c'.receiving ++ take (n - length c'.receiving) (applications conn ms)) size
          ∙ ap (λ r. r ++ take (c.recv_buffer_size - length r) (applications conn ms)) received
          ∙ offered-take c.recv_buffer_size c.receiving
              (for_application conn m.1 (parse_message_header m.1.header)) (applications conn ms),
    )
