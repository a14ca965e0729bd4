-- ===== src/Server/Chaining.antt =====
-- In which order the middlewares stand in front of a handler, and which messages they let pass.
use diam_gw.Prelude.{
  ℕ, zero, suc, ◌≤◌, ◌≡◌, refl, sym, ap, ◌∙◌, inl, inr, List, [], ◌∷◌, ◌++◌, length, Bool, false,
  not, ◌&&◌, ◌==◌, ltb, if◌then◌else◌, ok, err, arith, Bool-cases, Result-cases,
}
use diam_gw.Prelude.Rotations.{get_elem?-some}
use diam_gw.Wire.Reader.{Message}
use diam_gw.Wire.Header.{Command, InvalidHeader, parse_command}
use diam_gw.Server.Middleware.{
  Handler, Middleware, wrap_loop, wrap_handler, chain_middleware, validation_middleware,
  command_filter_middleware, command_is,
}

command_is_lem :
    (test : Command → Bool) (msg : Message) (cmd : Command)
    → parse_command msg.header ≡ ok cmd
    → command_is test msg 0 ≡ test cmd
unfolding command_is
command_is_lem test msg cmd e = rw (command_is, e) refl

command_is_err :
    (test : Command → Bool) (msg : Message) (f : InvalidHeader)
    → parse_command msg.header ≡ err f
    → command_is test msg 0 ≡ false
unfolding command_is
command_is_err test msg f e = rw (command_is, e) refl

-- What the two middlewares that check messages let pass.
abbrev pub is_valid : Message → Bool
is_valid msg =
    not (ltb msg.length 20)
    && length msg.header == 20
    && command_is (λ cmd. not (cmd.code == 0)) msg 0

abbrev pub is_allowed : (ℕ → Bool) → Message → Bool
is_allowed allowed msg = command_is (λ cmd. allowed cmd.code) msg 0

module _ {ℓ} {S : Type ℓ} where
  -- The loop over all but the first middleware, and then the first.
  wrap_loop-cons :
      (m : Middleware S) (ms : List (Middleware S)) (i : ℕ) (h : Handler S)
      → i ≤ length ms
      → wrap_loop (m ∷ ms) (suc i) h ≡ m (wrap_loop ms i h)
  unfolding wrap_loop
  wrap_loop-cons m ms zero h u = refl
  wrap_loop-cons m ms (suc i) h u =
      let (m', here) = get_elem?-some ms i (omega arith) in
      rw (wrap_loop, here) (wrap_loop-cons m ms i (m' h) (omega arith))

  wrap_handler-cons :
      (m : Middleware S) (ms : List (Middleware S)) (h : Handler S)
      → wrap_handler (m ∷ ms) h ≡ m (wrap_handler ms h)
  unfolding wrap_handler
  wrap_handler-cons m ms h = wrap_loop-cons m ms (length ms) h (omega arith)

  -- The middlewares that were registered first stand outermost: wrapping a handler with one list after another is
  -- wrapping it with the second list and then with the first.
  wrap_handler-append :
      (xs ys : List (Middleware S)) (h : Handler S)
      → wrap_handler (xs ++ ys) h ≡ wrap_handler xs (wrap_handler ys h)
  unfolding wrap_handler
  wrap_handler-append [] ys h = refl
  wrap_handler-append (x ∷ xs) ys h =
      wrap_handler-cons x (xs ++ ys) h
      ∙ ap x (wrap_handler-append xs ys h)
      ∙ sym (wrap_handler-cons x xs (wrap_handler ys h))

  -- The order of a server's middlewares is that in which they were registered, the first outermost, and a chain of
  -- middlewares registered as one stands for its parts in their order.
  pub wrap_handler-chain_middleware :
      (before chained after : List (Middleware S)) (m : Middleware S) (h : Handler S)
      → (wrap_handler (m ∷ after) h ≡ m (wrap_handler after h))
        × (wrap_handler (before ++ chain_middleware chained ∷ after) h
            ≡ wrap_handler (before ++ (chained ++ after)) h)
  unfolding chain_middleware wrap_handler
  wrap_handler-chain_middleware before chained after m h = (
    wrap_handler-cons m after h,
    wrap_handler-append before (chain_middleware chained ∷ after) h
        ∙ ap (wrap_handler before) (
            wrap_handler-cons (chain_middleware chained) after h
            ∙ sym (wrap_handler-append chained after h))
        ∙ sym (wrap_handler-append before (chained ++ after) h),
  )

  command_filter_lem :
      (allowed : ℕ → Bool) (h : Handler S) (msg : Message) (conn : ℕ) (s : S) (cmd : Command)
      → parse_command msg.header ≡ ok cmd
      → command_filter_middleware allowed h msg conn s
        ≡ (if allowed cmd.code then h msg conn s else s)
  unfolding command_filter_middleware
  command_filter_lem allowed h msg conn s cmd e = elim (Bool-cases (allowed cmd.code)) [
    | inl allows ↦ rw (command_filter_middleware, e, allows) refl
    | inr forbids ↦ rw (command_filter_middleware, e, forbids) refl
  ]

  -- Behind the validation and the command filter, in this order, a handler runs on a message just if it is valid and
  -- its command allowed; an invalid message counts as one error and does nothing else, a command that is not
  -- allowed does nothing.
  pub wrap_handler-validation_middleware :
      (add_error : S → S) (allowed : ℕ → Bool) (h : Handler S) (msg : Message) (conn : ℕ) (s : S)
      → wrap_handler
          (validation_middleware add_error ∷ command_filter_middleware allowed ∷ [])
          h
          msg
          conn
          s
        ≡ (if is_valid msg
            then (if is_allowed allowed msg then h msg conn s else s)
            else add_error s)
  unfolding wrap_handler wrap_loop validation_middleware
  wrap_handler-validation_middleware add_error allowed h msg conn s =
      elim (Result-cases (parse_command msg.header)) [
        | inl (cmd, e) ↦
            rw
              (
                command_is_lem (λ c. not (c.code == 0)) msg cmd e,
                command_is_lem (λ c. allowed c.code) msg cmd e,
              )
              (elim (Bool-cases (ltb msg.length 20)) [
                | inl short ↦ rw (e, short, validation_middleware) refl
                | inr long ↦ elim (Bool-cases (length msg.header == 20)) [
                  | inr other ↦ rw (e, long, other, validation_middleware) refl
                  | inl twenty ↦ elim (Bool-cases (cmd.code == 0)) [
                    | inl no_code ↦ rw (e, long, twenty, no_code, validation_middleware) refl
                    | inr code ↦
                        rw (e, long, twenty, code, validation_middleware)
                          (command_filter_lem allowed h msg conn s cmd e)
                  ]
                ]
              ])
        | inr (f, e) ↦ elim (Bool-cases (ltb msg.length 20)) [
          | inl short ↦ rw (e, short, validation_middleware) refl
          | inr long ↦ elim (Bool-cases (length msg.header == 20)) [
            | inr other ↦ rw (e, long, other, validation_middleware) refl
            | inl twenty ↦
                rw
                  (
                    command_is_err (λ c. not (c.code == 0)) msg f e,
                    e,
                    long,
                    twenty,
                    validation_middleware,
                  )
                  refl
          ]
        ]
      ]
