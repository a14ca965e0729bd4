-- ===== src/Client/InboxRuns.antt =====
-- Runs of a connection that reads messages.
use diam_gw.Prelude.{ℕ, ◌≡◌, refl, List, [], ◌∷◌, ◌++◌, take, true, false, some, arith, ◌-◌}
use diam_gw.Wire.Reader.{Message}
use diam_gw.Dra.Node.{WatchdogCodec}
use diam_gw.Client.Inbox.{Inbox, Moment, dispatch_all}
use diam_gw.Client.Dispatching.{applications, dispatch_all_lem}

abbrev header : ℕ → ℕ → ℕ → ℕ → List ℕ
header flags code app id =
    1 ∷ 0 ∷ 0 ∷ 20 ∷ flags ∷ 0 ∷ 1 ∷ code ∷ 0 ∷ 0 ∷ 0 ∷ app ∷ 0 ∷ 0 ∷ 0 ∷ id ∷ 0 ∷ 0 ∷ 0 ∷ 9 ∷ []

abbrev message : List ℕ → Message
message h = record { length = 20; header = h; body = [] }

abbrev codec : WatchdogCodec
codec = record { unmarshal_dwr = λ m. some (7, 9); marshal_dwa = λ h e o r. some (h ∷ e ∷ []) }

abbrev moment : Moment
moment = record { is_cancelled = false; prefers_done = true; now = 500 }

-- The watchdog answer with the id 3 is awaited on the channel 0.
abbrev inbox : Inbox
inbox = record {
  pending = (3, 0) ∷ [];
  channels = λ ch. [];
  receiving = [];
  recv_buffer_size = 1;
  sending = [];
  send_buffer_size = 5;
  last_activity = 400;
  origin_host = 103 ∷ [];
  origin_realm = 114 ∷ [];
}

-- A watchdog request and an answer, two application messages and bytes that are no header.
abbrev messages : List (Moment × Message)
messages =
    (moment, message (header 128 24 0 7))
    ∷ (moment, message (header 0 24 0 3))
    ∷ (moment, message (header 128 60 35 4))
    ∷ (moment, message (header 0 60 35 5))
    ∷ (moment, message [])
    ∷ []

dispatch_all_lem_example :
    (c' : Inbox) × (dispatch_all codec 2 messages inbox ≡ some c')
    × (c'.receiving ≡ [] ++ take (1 - 0) (applications 2 messages))
dispatch_all_lem_example =
    dispatch_all_lem codec 2 messages inbox (refl, (refl, (refl, (refl, (refl, tt))))) (omega arith)
