-- ===== src/Server/Serving.antt =====
-- server/server.go: the loop of `serve` over the messages of a connection.
use diam_gw.Prelude.{
  ℕ, zero, suc, List, [], ◌∷◌, ◌++◌, Bool, true, false, ◌&&◌, ◌||◌, ◌==◌, if◌then◌else◌, Option,
  none, some, ok, err,
}
use diam_gw.Wire.Header.{Command, parse_command}
use diam_gw.Wire.Reader.{
  Reader, Message, ReadError, header_error, eof, unexpected_eof, read_message,
}
use diam_gw.Server.Middleware.{Handler, Middleware, get_handler}
use diam_gw.Server.Stats.{ServerStats, add_uint64, note_received}

-- A goroutine of `serve`: it runs a handler on a message, or it starts a further goroutine that does.
pub data Goroutine {ℓ} (S : Type ℓ) : Type ℓ where
  runs_handler starts_handler : Handler S → Message → Goroutine S

-- The statistics, and the goroutines that `serve` has started, in this order. When they come to run is not
-- determined, nor is the order in which handlers begin.
pub record Serving {ℓ} (S : Type ℓ) : Type ℓ where
  pub stats : ServerStats
  pub started : List (Goroutine S)

-- A command of the base protocol, whose handler has a goroutine of its own at once.
unfoldable pub is_base_command : Command → Bool
is_base_command cmd = cmd.interface == 0 && (cmd.code == 257 || cmd.code == 280 || cmd.code == 282)

-- `err == io.EOF || err == io.ErrUnexpectedEOF`; an error of the body is another one.
unfoldable pub is_end : ReadError → Bool
is_end (header_error eof) = true
is_end (header_error unexpected_eof) = true
is_end e = false

unfoldable pub count_error : ServerStats → ServerStats
unfolding add_uint64
count_error s = record s { errors = add_uint64 s.errors 1 }

module _ {ℓ} {S : Type ℓ} where
  unfoldable pub start_handler :
      List (Middleware S) → List (Command × Handler S) → Command → Message → Serving S → Serving S
  unfolding get_handler is_base_command
  start_handler middlewares mux cmd m s = elim (get_handler middlewares cmd mux) [
    | none ↦ s
    | some h ↦
        let goroutine = if is_base_command cmd then runs_handler h m else starts_handler h m in
        record s { started = s.started ++ goroutine ∷ [] }
  ]

  -- The loop's body behind a message that was read.
  unfoldable pub receive :
      List (Middleware S) → List (Command × Handler S) → Message → Serving S → Serving S
  unfolding add_uint64 parse_command note_received count_error start_handler
  receive middlewares mux m s =
      let counted = record s.stats {
        total_messages = add_uint64 s.stats.total_messages 1;
        messages_received = add_uint64 s.stats.messages_received 1;
        total_bytes_received = add_uint64 s.stats.total_bytes_received m.length;
      } in
      elim (parse_command m.header) [
        | err e ↦ record s { stats = count_error counted }
        | ok cmd ↦
            start_handler middlewares mux cmd m
              (record s { stats = note_received cmd m.length counted })
      ]

  -- Behind an error of the read.
  unfoldable pub stop_reading : ReadError → Serving S → Serving S
  unfolding is_end count_error
  stop_reading e s = if is_end e then s else record s { stats = count_error s.stats }

  -- The loop, on fuel. A read gives an error or a message; neither would panic, which is recovered and counted.
  unfoldable pub serve :
      List (Middleware S) → List (Command × Handler S) → ℕ → Reader → Serving S → Option (Serving S)
  unfolding read_message receive stop_reading count_error
  serve middlewares mux zero r s = none
  serve middlewares mux (suc n) r s =
      let read = read_message r in
      elim read.error [
        | some e ↦ some (stop_reading e s)
        | none ↦ elim read.message [
          | none ↦ some (record s { stats = count_error s.stats })
          | some m ↦ serve middlewares mux n read.reader (receive middlewares mux m s)
        ]
      ]
