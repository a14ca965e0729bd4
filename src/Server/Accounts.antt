-- ===== src/Server/Accounts.antt =====
-- server/server.go: what `serve` does with a whole stream.
use diam_gw.Prelude.{
  ℕ, zero, suc, ◌+◌, ◌%◌, ◌^◌, ◌<◌, ◌≡◌, refl, ap, sym, ◌∙◌, List, [], ◌∷◌, ◌++◌, length,
  length-append, append_assoc, append-nil, if◌then◌else◌, ◌==◌, none, some, ok, err, arith,
  Option-cases, Bool-cases, inl, inr,
}
use diam_gw.Prelude.Totals.{total}
use diam_gw.Wire.Header.{Command, parse_command}
use diam_gw.Wire.Reader.{Reader, Message, ReadError}
use diam_gw.Wire.Framing.{expected_error, IsMessage, read_message_error, read_message-IsMessage}
use diam_gw.Wire.Streams.{Streams, ends, reads, streams}
use diam_gw.Server.Middleware.{Handler, Middleware, get_handler}
use diam_gw.Server.Stats.{
  ServerStats, add_uint64, note_received, get_command_stats, get_interface_stats,
}
use diam_gw.Server.Serving.{
  Goroutine, runs_handler, starts_handler, is_base_command, Serving, is_end, count_error,
  start_handler, receive, stop_reading, serve,
}
use diam_gw.Server.Counters.{
  counters_of, is_for, added, counters_of-note_received, note_received-totals, interface_of,
  stats_of, interface_of-note_received,
}

-- 1 for a message of the command, and its length.
unfoldable pub message_of : ℕ → ℕ → Message → ℕ
unfolding parse_command
message_of i c m = elim (parse_command m.header) [
  | err e ↦ 0
  | ok cmd ↦ if is_for i c cmd then 1 else 0
]

unfoldable pub bytes_of : ℕ → ℕ → Message → ℕ
unfolding parse_command
bytes_of i c m = elim (parse_command m.header) [
  | err e ↦ 0
  | ok cmd ↦ if is_for i c cmd then m.length else 0
]

-- The same for a message of the interface.
unfoldable pub message_in : ℕ → Message → ℕ
unfolding parse_command
message_in i m = elim (parse_command m.header) [
  | err e ↦ 0
  | ok cmd ↦ if i == cmd.interface then 1 else 0
]

unfoldable pub bytes_in : ℕ → Message → ℕ
unfolding parse_command
bytes_in i m = elim (parse_command m.header) [
  | err e ↦ 0
  | ok cmd ↦ if i == cmd.interface then m.length else 0
]

-- Two values of a counter of 64 bits.
abbrev SameUint64 : ℕ → ℕ → Type 0
SameUint64 a b = a % 2 ^ 64 ≡ b % 2 ^ 64

parse_command_20 : (b : List ℕ) → length b ≡ 20 → (cmd : Command) × (parse_command b ≡ ok cmd)
unfolding parse_command
parse_command_20 b h = rw (h, parse_command) (_, refl)

module _ {ℓ} {S : Type ℓ} (middlewares : List (Middleware S))
    (mux : List (Command × Handler S)) where
  unfoldable pub goroutine_for : Message → List (Goroutine S)
  unfolding parse_command get_handler is_base_command
  goroutine_for m = elim (parse_command m.header) [
    | err e ↦ []
    | ok cmd ↦ elim (get_handler middlewares cmd mux) [
      | none ↦ []
      | some h ↦ (if is_base_command cmd then runs_handler h m else starts_handler h m) ∷ []
    ]
  ]

  -- The goroutines of the messages that have a handler, in the order of the messages.
  unfoldable pub goroutines_for : List Message → List (Goroutine S)
  goroutines_for [] = []
  goroutines_for (m ∷ ms) = goroutine_for m ++ goroutines_for ms

  -- What the messages and a number of errors make of a state: every goroutine is started, and the counters add up.
  pub record Accounts (errors : ℕ) (ms : List Message) (s q : Serving S) : Type ℓ where
    pub started : q.started ≡ s.started ++ goroutines_for ms
    pub total_messages : SameUint64 q.stats.total_messages (s.stats.total_messages + length ms)
    pub messages_received :
        SameUint64 q.stats.messages_received (s.stats.messages_received + length ms)
    pub total_bytes_received :
        SameUint64 q.stats.total_bytes_received
          (s.stats.total_bytes_received + total (λ m. m.length) ms)
    pub counted_errors : SameUint64 q.stats.errors (s.stats.errors + errors)
    pub messages_of_interface :
        (i : ℕ)
        → SameUint64
            (interface_of i q.stats).messages_received
            ((interface_of i s.stats).messages_received + total (message_in i) ms)
    pub bytes_of_interface :
        (i : ℕ)
        → SameUint64
            (interface_of i q.stats).bytes_received
            ((interface_of i s.stats).bytes_received + total (bytes_in i) ms)
    pub messages_of_command :
        (i c : ℕ)
        → SameUint64
            (counters_of i c q.stats).messages_received
            ((counters_of i c s.stats).messages_received + total (message_of i c) ms)
    pub bytes_of_command :
        (i c : ℕ)
        → SameUint64
            (counters_of i c q.stats).bytes_received
            ((counters_of i c s.stats).bytes_received + total (bytes_of i c) ms)

  stop_reading-Accounts :
      (e : ReadError) (s : Serving S) → Accounts (if is_end e then 0 else 1) [] s (stop_reading e s)
  unfolding stop_reading count_error add_uint64 goroutines_for total get_command_stats interface_of
      stats_of get_interface_stats
  stop_reading-Accounts e s = elim (Bool-cases (is_end e)) [
    | inl ended ↦
        rw (ended, stop_reading)
          (record {
            started = sym (append-nil s.started);
            total_messages = omega arith;
            messages_received = omega arith;
            total_bytes_received = omega arith;
            counted_errors = omega arith;
            messages_of_interface = λ i. omega arith;
            bytes_of_interface = λ i. omega arith;
            messages_of_command = λ i c. omega arith;
            bytes_of_command = λ i c. omega arith;
          })
    | inr failed ↦
        rw (failed, stop_reading)
          (record {
            started = sym (append-nil s.started);
            total_messages = omega arith;
            messages_received = omega arith;
            total_bytes_received = omega arith;
            counted_errors = omega arith;
            messages_of_interface = λ i. omega arith;
            bytes_of_interface = λ i. omega arith;
            messages_of_command = λ i c. omega arith;
            bytes_of_command = λ i c. omega arith;
          })
  ]

  Accounts-next :
      (k : ℕ) (m : Message) (ms : List Message) (s q u : Serving S)
      → Accounts 0 (m ∷ []) s q
      → Accounts k ms q u
      → Accounts k (m ∷ ms) s u
  unfolding goroutines_for total
  Accounts-next k m ms s q u a b = record {
    started =
        b.started
        ∙ ap (λ l. l ++ goroutines_for ms) a.started
        ∙ rw (append-nil (goroutine_for m))
            (append_assoc s.started (goroutine_for m) (goroutines_for ms));
    total_messages = omega (arith, a.total_messages, b.total_messages);
    messages_received = omega (arith, a.messages_received, b.messages_received);
    total_bytes_received = omega (arith, a.total_bytes_received, b.total_bytes_received);
    counted_errors = omega (arith, a.counted_errors, b.counted_errors);
    messages_of_interface =
        λ i. omega (arith, a.messages_of_interface i, b.messages_of_interface i);
    bytes_of_interface = λ i. omega (arith, a.bytes_of_interface i, b.bytes_of_interface i);
    messages_of_command =
        λ i c. omega (arith, a.messages_of_command i c, b.messages_of_command i c);
    bytes_of_command = λ i c. omega (arith, a.bytes_of_command i c, b.bytes_of_command i c);
  }

  start_handler-stats :
      (cmd : Command) (m : Message) (s : Serving S)
      → (start_handler middlewares mux cmd m s).stats ≡ s.stats
  unfolding start_handler
  start_handler-stats cmd m s = elim (Option-cases (get_handler middlewares cmd mux)) [
    | inl e ↦ rw (e, start_handler) refl
    | inr (h, e) ↦ rw (e, start_handler) refl
  ]

  start_handler-started :
      (cmd : Command) (m : Message) (s : Serving S)
      → parse_command m.header ≡ ok cmd
      → (start_handler middlewares mux cmd m s).started ≡ s.started ++ goroutines_for (m ∷ [])
  unfolding start_handler goroutines_for goroutine_for
  start_handler-started cmd m s f = elim (Option-cases (get_handler middlewares cmd mux)) [
    | inl e ↦ rw (f, e, start_handler, goroutine_for) (sym (append-nil s.started))
    | inr (h, e) ↦ rw (f, e, start_handler, goroutine_for) refl
  ]

  -- The state behind the additions to the totals.
  counted : Message → Serving S → ServerStats
  unfolding add_uint64
  counted m s = record s.stats {
    total_messages = add_uint64 s.stats.total_messages 1;
    messages_received = add_uint64 s.stats.messages_received 1;
    total_bytes_received = add_uint64 s.stats.total_bytes_received m.length;
  }

  receive_parsed :
      (m : Message) (cmd : Command) (s : Serving S)
      → parse_command m.header ≡ ok cmd
      → receive middlewares mux m s
        ≡ start_handler middlewares mux cmd m
            (record s { stats = note_received cmd m.length (counted m s) })
  unfolding counted receive start_handler
  receive_parsed m cmd s f = rw (f, receive) refl

  note_received-Accounts :
      (m : Message) (cmd : Command) (s q : Serving S)
      → parse_command m.header ≡ ok cmd
      → q.started ≡ s.started ++ goroutines_for (m ∷ [])
      → q.stats ≡ note_received cmd m.length (counted m s)
      → Accounts 0 (m ∷ []) s q
  unfolding counted total added message_of bytes_of message_in bytes_in get_command_stats
      interface_of stats_of get_interface_stats
  note_received-Accounts m cmd s q f begun e =
      let kept = note_received-totals cmd m.length (counted m s) in
      record {
        started = begun;
        total_messages = rw (e, kept) (omega arith);
        messages_received = rw (e, kept) (omega arith);
        total_bytes_received = rw (e, kept) (omega arith);
        counted_errors = rw (e, kept) (omega arith);
        messages_of_interface =
            λ i. ground (arith, e, f, interface_of-note_received cmd m.length i (counted m s));
        bytes_of_interface =
            λ i. ground (arith, e, f, interface_of-note_received cmd m.length i (counted m s));
        messages_of_command =
            λ i c. ground (arith, e, f, counters_of-note_received cmd m.length i c (counted m s));
        bytes_of_command =
            λ i c. ground (arith, e, f, counters_of-note_received cmd m.length i c (counted m s));
      }

  receive-Accounts :
      (m : Message) (s : Serving S)
      → length m.header ≡ 20
      → Accounts 0 (m ∷ []) s (receive middlewares mux m s)
  receive-Accounts m s h =
      let (cmd, f) = parse_command_20 m.header h in
      let s' = record s { stats = note_received cmd m.length (counted m s) } in
      rw (receive_parsed m cmd s f) (
        note_received-Accounts m cmd s _ f (start_handler-started cmd m s' f)
          (start_handler-stats cmd m s'))

  serve_stops :
      (e : ReadError) (r : Reader) (s : Serving S) (n : ℕ)
      → expected_error r ≡ some e
      → serve middlewares mux (suc n) r s ≡ some (stop_reading e s)
  unfolding serve
  serve_stops e r s n f = rw (read_message_error r ∙ f, serve) refl

  serve_goes_on :
      (m : Message) (r rest : Reader) (s : Serving S) (n : ℕ)
      → IsMessage m
      → r.bytes ≡ m.header ++ (m.body ++ rest.bytes)
      → rest.fault ≡ r.fault
      → serve middlewares mux (suc n) r s
        ≡ serve middlewares mux n rest (receive middlewares mux m s)
  unfolding serve
  serve_goes_on m r rest s n v c g =
      let e = read_message-IsMessage m r rest v c g in
      rw (ap (λ q. q.error) e, ap (λ q. q.message) e, ap (λ q. q.reader) e, serve) refl

  -- On a stream of messages that ends with an error, `serve` does what Accounts says.
  serve_lem :
      (e : ReadError) (ms : List Message) (r : Reader) (s : Serving S) (n : ℕ)
      → Streams e ms r
      → length r.bytes < n
      → (q : Serving S) × (serve middlewares mux n r s ≡ some q)
        × Accounts (if is_end e then 0 else 1) ms s q
  serve_lem e ms r s zero x h = absurd (omega arith)
  serve_lem e ms r s (suc n) (ends r' f) h =
      (stop_reading e s, serve_stops e r' s n f, stop_reading-Accounts e s)
  serve_lem e ms r s (suc n) (reads m ms' r' rest v c g x) h =
      let (q, served, accounts) = serve_lem e ms' rest (receive middlewares mux m s) n x (
        omega (
          arith,
          h,
          ap length c,
          length-append m.header (m.body ++ rest.bytes),
          length-append m.body rest.bytes,
          v.header_20,
        )) in
      (
        q,
        serve_goes_on m r' rest s n v c g ∙ served,
        Accounts-next _ m ms' s _ q (receive-Accounts m s v.header_20) accounts,
      )

  -- On every stream `serve` ends. The stream is a sequence of messages, each with a header of 20 bytes that states
  -- its length, and a rest that no message can be read from. For each message that has a handler `serve` starts one
  -- goroutine, in the order of the messages; it runs the handler, or for a command outside the base protocol starts
  -- a further goroutine that does. The counts of the messages received and of their bytes, those of the server, of
  -- every interface and of every command of an interface, grow by what was read, modulo 2^64; the errors grow by 1,
  -- but by 0 where the stream ends in place of a header or inside one.
  pub serve-Accounts :
      (r : Reader) (s : Serving S)
      → (ms : List Message) × (e : ReadError) × Streams e ms r
        × (q : Serving S) × (serve middlewares mux (suc (length r.bytes)) r s ≡ some q)
        × Accounts (if is_end e then 0 else 1) ms s q
  serve-Accounts r s =
      let (ms, e, x) = streams r in
      let (q, served, accounts) = serve_lem e ms r s (suc (length r.bytes)) x (omega arith) in
      (ms, e, x, q, served, accounts)
