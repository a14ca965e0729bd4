-- ===== src/Server/Middleware.antt =====
-- server/middleware.go, and the handlers and their wrapping of server/server.go. A handler is what it makes of the
-- state of its surroundings, for a message and a connection.
use diam_gw.Prelude.{
  ℕ, zero, suc, List, [], ◌∷◌, length, get_elem?, Bool, false, not, ◌&&◌, ◌==◌, ltb, if◌then◌else◌,
  Option, none, some, ok, err,
}
use diam_gw.Wire.Reader.{Message}
use diam_gw.Wire.Header.{Command, parse_command}

module _ {ℓ} (S : Type ℓ) where
  abbrev pub Handler : Type ℓ
  Handler = Message → ℕ → S → S

  abbrev pub Middleware : Type ℓ
  Middleware = Handler → Handler

-- A condition on the command of a message; a header that has none does not meet it.
unfoldable pub command_is : (Command → Bool) → Message → ℕ → Bool
unfolding parse_command
command_is test msg conn = elim (parse_command msg.header) [ ok cmd ↦ test cmd | err e ↦ false ]

module _ {ℓ} {S : Type ℓ} where
  -- The loop of wrapHandler and of ChainMiddleware, down from the middleware before `i`.
  unfoldable pub wrap_loop : List (Middleware S) → ℕ → Handler S → Handler S
  wrap_loop middlewares zero wrapped = wrapped
  wrap_loop middlewares (suc i) wrapped = elim (get_elem? middlewares i) [
    | none ↦ wrapped
    | some m ↦ wrap_loop middlewares i (m wrapped)
  ]

  unfoldable pub wrap_handler : List (Middleware S) → Handler S → Handler S
  unfolding wrap_loop
  wrap_handler middlewares handler = wrap_loop middlewares (length middlewares) handler

  unfoldable pub chain_middleware : List (Middleware S) → Middleware S
  unfolding wrap_loop
  chain_middleware middlewares next = wrap_loop middlewares (length middlewares) next

  unfoldable pub conditional_middleware : (Message → ℕ → Bool) → Middleware S → Middleware S
  conditional_middleware condition middleware next msg conn s =
      if condition msg conn then middleware next msg conn s else next msg conn s

  unfoldable pub interface_specific_middleware : ℕ → Middleware S → Middleware S
  unfolding conditional_middleware command_is
  interface_specific_middleware id middleware =
      conditional_middleware (command_is (λ cmd. cmd.interface == id)) middleware

  unfoldable pub command_specific_middleware : ℕ → Middleware S → Middleware S
  unfolding conditional_middleware command_is
  command_specific_middleware code middleware =
      conditional_middleware (command_is (λ cmd. cmd.code == code)) middleware

  unfoldable pub request_only_middleware : Middleware S → Middleware S
  unfolding conditional_middleware command_is
  request_only_middleware middleware =
      conditional_middleware (command_is (λ cmd. cmd.request)) middleware

  unfoldable pub answer_only_middleware : Middleware S → Middleware S
  unfolding conditional_middleware command_is
  answer_only_middleware middleware =
      conditional_middleware (command_is (λ cmd. not cmd.request)) middleware

  -- `add_error` counts an error of the server.
  unfoldable pub validation_middleware : (S → S) → Middleware S
  unfolding parse_command
  validation_middleware add_error next msg conn s =
      if ltb msg.length 20
      then add_error s
      else if not (length msg.header == 20)
      then add_error s
      else elim (parse_command msg.header) [
        | err e ↦ add_error s
        | ok cmd ↦ if cmd.code == 0 then add_error s else next msg conn s
      ]

  unfoldable pub command_filter_middleware : (ℕ → Bool) → Middleware S
  unfolding parse_command
  command_filter_middleware allowed_commands next msg conn s = elim (parse_command msg.header) [
    | err e ↦ s
    | ok cmd ↦ if not (allowed_commands cmd.code) then s else next msg conn s
  ]

abbrev pub same_command : Command → Command → Bool
same_command a b =
    a.interface == b.interface
    && a.code == b.code
    && (if a.request then b.request else not b.request)

module _ {ℓ} {S : Type ℓ} where
  unfoldable pub find_handler : Command → List (Command × Handler S) → Option (Handler S)
  find_handler cmd [] = none
  find_handler cmd (e ∷ mux) =
      let rest = find_handler cmd mux in if same_command cmd e.0 then some e.1 else rest

  -- HandleFunc: the map's entry for the command is the latest.
  unfoldable pub handle_func :
      Command → Handler S → List (Command × Handler S) → List (Command × Handler S)
  handle_func cmd handler mux = (cmd, handler) ∷ mux

  unfoldable pub get_handler :
      List (Middleware S) → Command → List (Command × Handler S) → Option (Handler S)
  unfolding find_handler wrap_handler
  get_handler middlewares cmd mux = elim (find_handler cmd mux) [
    | none ↦ none
    | some handler ↦ some (wrap_handler middlewares handler)
  ]
