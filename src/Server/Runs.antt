-- ===== src/Server/Runs.antt =====
-- Runs of middlewares that write down what they see, and of a server with one place.
use diam_gw.Prelude.{
  or_uint24, ℕ, ◌≡◌, refl, List, [], ◌∷◌, ◌++◌, ◌==◌, if◌then◌else◌, arith, true, length, Option,
  none, some,
}
use diam_gw.Wire.Reader.{Message, Reader, ReadError, eof, read_header, read_body}
use diam_gw.Wire.Header.{Command}
use diam_gw.Wire.Streams.{Streams}
use diam_gw.Server.Stats.{new_server_stats}
use diam_gw.Server.Serving.{Serving, serve, is_end}
use diam_gw.Server.Accounts.{Accounts, serve-Accounts}
use diam_gw.Server.Middleware.{
  Handler, Middleware, wrap_loop, wrap_handler, chain_middleware, validation_middleware,
  command_filter_middleware,
}
use diam_gw.Server.Chaining.{
  is_valid, is_allowed, wrap_handler-chain_middleware, wrap_handler-validation_middleware,
}
use diam_gw.Server.Accepting.{
  Accepted, none_accepted, accept, Reachable, started, stepped, accepts, Limited, Reachable-Limited,
}

-- A watchdog request.
abbrev watchdog : Message
watchdog = record {
  length = 20;
  header = 1 ∷ 0 ∷ 0 ∷ 20 ∷ 128 ∷ 0 ∷ 1 ∷ 24 ∷ 0 ∷ 0 ∷ 0 ∷ 0 ∷ 0 ∷ 0 ∷ 0 ∷ 7 ∷ 0 ∷ 0 ∷ 0 ∷ 9 ∷ [];
  body = [];
}

-- The state is what was written down, the latest first.
abbrev writes : ℕ → Middleware (List ℕ)
writes n next msg conn s = next msg conn (n ∷ s)

abbrev answers : Handler (List ℕ)
answers msg conn s = 0 ∷ s

wrap_handler-chain_middleware_example :
    (wrap_handler (writes 1 ∷ writes 4 ∷ []) answers
      ≡ writes 1 (wrap_handler (writes 4 ∷ []) answers))
    × (wrap_handler
          ((writes 1 ∷ []) ++ chain_middleware (writes 2 ∷ writes 3 ∷ []) ∷ writes 4 ∷ [])
          answers
        ≡ wrap_handler ((writes 1 ∷ []) ++ ((writes 2 ∷ writes 3 ∷ []) ++ writes 4 ∷ [])) answers)
wrap_handler-chain_middleware_example =
    wrap_handler-chain_middleware (writes 1 ∷ []) (writes 2 ∷ writes 3 ∷ []) (writes 4 ∷ [])
      (writes 1) answers

-- The order in which they see the message.
written :
    wrap_handler (writes 1 ∷ chain_middleware (writes 2 ∷ writes 3 ∷ []) ∷ []) answers watchdog 5 []
    ≡ 0 ∷ 3 ∷ 2 ∷ 1 ∷ []
unfolding wrap_handler wrap_loop chain_middleware
written = refl

wrap_handler-validation_middleware_example :
    wrap_handler
      (validation_middleware (λ s. 9 ∷ s) ∷ command_filter_middleware (λ code. code == 280) ∷ [])
      answers
      watchdog
      5
      []
    ≡ (if is_valid watchdog
        then (if is_allowed (λ code. code == 280) watchdog then answers watchdog 5 [] else [])
        else 9 ∷ [])
wrap_handler-validation_middleware_example =
    wrap_handler-validation_middleware (λ s. 9 ∷ s) (λ code. code == 280) answers watchdog 5 []

abbrev one_served : Accepted
unfolding accept none_accepted
one_served = accept 1 7 none_accepted

abbrev one_refused : Accepted
unfolding accept
one_refused = accept 1 8 one_served

one_refused-Reachable : Reachable 1 one_refused
unfolding one_refused one_served accept
one_refused-Reachable =
    stepped one_served one_refused
      (stepped none_accepted one_served started (accepts 7 one_served refl))
      (accepts 8 one_refused refl)

Reachable-Limited_example : Limited 1 one_refused
Reachable-Limited_example = Reachable-Limited 1 one_refused (omega arith) one_refused-Reachable

-- A watchdog request and the first half of another one.
abbrev one_and_a_half : Reader
one_and_a_half = record { bytes = watchdog.header ++ (1 ∷ 0 ∷ 0 ∷ 20 ∷ 128 ∷ []); fault = eof }

abbrev watchdog_request : Command
watchdog_request = record { interface = 0; code = 280; request = true }

abbrev unserved : Serving (List ℕ)
unserved = record { stats = new_server_stats; started = [] }

serve-Accounts_example :
    (ms : List Message) × (e : ReadError) × Streams e ms one_and_a_half
    × (q : Serving (List ℕ)) × (serve []
          ((watchdog_request, answers) ∷ [])
          26
          one_and_a_half
          unserved
        ≡ some q)
    × Accounts [] ((watchdog_request, answers) ∷ []) (if is_end e then 0 else 1) ms unserved q
serve-Accounts_example =
    serve-Accounts [] ((watchdog_request, answers) ∷ []) one_and_a_half unserved

-- How many handlers were started, and how many errors were counted.
outcome : Reader → Option (ℕ × ℕ)
unfolding serve
outcome r = elim (serve [] ((watchdog_request, answers) ∷ []) 70 r unserved) [
  | none ↦ none
  | some q ↦ some (length q.started, q.stats.errors)
]

outcome-one_and_a_half : outcome one_and_a_half ≡ some (1, 0)
unfolding outcome serve read_header or_uint24 read_body
outcome-one_and_a_half = refl

-- A stream that ends inside a body is counted as an error.
outcome-cut_body :
    outcome (record {
      bytes =
          1 ∷ 0 ∷ 0 ∷ 24 ∷ 128 ∷ 0 ∷ 1 ∷ 24 ∷ 0 ∷ 0 ∷ 0 ∷ 0 ∷ 0 ∷ 0 ∷ 0 ∷ 7 ∷ 0 ∷ 0 ∷ 0 ∷ 9 ∷ 5
          ∷ [];
      fault = eof;
    })
    ≡ some (0, 1)
unfolding outcome serve read_header or_uint24 read_body
outcome-cut_body = refl
