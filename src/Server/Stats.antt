-- ===== src/Server/Stats.antt =====
-- server/server.go: the statistics of messages, of the server, of an interface and of a command. The counters of
-- connections are in Accepting. A counter has 64 bits.
use diam_gw.Prelude.{
  ℕ, ◌+◌, ◌%◌, ◌^◌, List, [], ◌∷◌, length, take, Bool, true, false, ltb, if◌then◌else◌, Option,
  none, some, ok, err, put, lookup,
}
use diam_gw.Wire.Header.{Command, parse_command}

-- `Add` of an atomic.Uint64.
unfoldable pub add_uint64 : ℕ → ℕ → ℕ
add_uint64 n x = (n + x) % 2 ^ 64

pub record CommandStats : Type 0 where
  pub messages_received : ℕ
  pub messages_sent : ℕ
  pub bytes_received : ℕ
  pub bytes_sent : ℕ
  pub errors : ℕ

pub record InterfaceStats : Type 0 where
  pub messages_received : ℕ
  pub messages_sent : ℕ
  pub bytes_received : ℕ
  pub bytes_sent : ℕ
  pub errors : ℕ
  pub command_stats : List (ℕ × CommandStats)

pub record ServerStats : Type 0 where
  pub total_messages : ℕ
  pub messages_sent : ℕ
  pub messages_received : ℕ
  pub total_bytes_sent : ℕ
  pub total_bytes_received : ℕ
  pub errors : ℕ
  pub interface_stats : List (ℕ × InterfaceStats)

abbrev pub new_command_stats : CommandStats
new_command_stats = record {
  messages_received = 0;
  messages_sent = 0;
  bytes_received = 0;
  bytes_sent = 0;
  errors = 0;
}

abbrev pub new_interface_stats : InterfaceStats
new_interface_stats = record {
  messages_received = 0;
  messages_sent = 0;
  bytes_received = 0;
  bytes_sent = 0;
  errors = 0;
  command_stats = [];
}

abbrev pub new_server_stats : ServerStats
new_server_stats = record {
  total_messages = 0;
  messages_sent = 0;
  messages_received = 0;
  total_bytes_sent = 0;
  total_bytes_received = 0;
  errors = 0;
  interface_stats = [];
}

-- The statistics and the map that has them.
unfoldable pub get_or_create_interface_stats : ℕ → ServerStats → InterfaceStats × ServerStats
unfolding lookup put
get_or_create_interface_stats app_id s = elim (lookup app_id s.interface_stats) [
  | some stats ↦ (stats, s)
  | none ↦ (
    new_interface_stats,
    record s { interface_stats = put app_id new_interface_stats s.interface_stats },
  )
]

unfoldable pub get_or_create_command_stats : ℕ → InterfaceStats → CommandStats × InterfaceStats
unfolding lookup put
get_or_create_command_stats cmd_code s = elim (lookup cmd_code s.command_stats) [
  | some stats ↦ (stats, s)
  | none ↦ (
    new_command_stats,
    record s { command_stats = put cmd_code new_command_stats s.command_stats },
  )
]

-- The additions of `serve` to the statistics of an interface and a command, for a message of `n` bytes.
unfoldable pub note_received : Command → ℕ → ServerStats → ServerStats
unfolding get_or_create_interface_stats get_or_create_command_stats add_uint64 put
note_received cmd n s =
    let (found, s') = get_or_create_interface_stats cmd.interface s in
    let if_stats = record found {
      messages_received = add_uint64 found.messages_received 1;
      bytes_received = add_uint64 found.bytes_received n;
    } in
    let (c, if_stats') = get_or_create_command_stats cmd.code if_stats in
    let cmd_stats = record c {
      messages_received = add_uint64 c.messages_received 1;
      bytes_received = add_uint64 c.bytes_received n;
    } in
    record s' {
      interface_stats =
          put cmd.interface
            (record if_stats' { command_stats = put cmd.code cmd_stats if_stats'.command_stats })
            s'.interface_stats;
    }

-- The additions of `Write`.
unfoldable pub note_sent : Command → ℕ → ServerStats → ServerStats
unfolding get_or_create_interface_stats get_or_create_command_stats add_uint64 put
note_sent cmd n s =
    let (found, s') = get_or_create_interface_stats cmd.interface s in
    let if_stats = record found {
      messages_sent = add_uint64 found.messages_sent 1;
      bytes_sent = add_uint64 found.bytes_sent n;
    } in
    let (c, if_stats') = get_or_create_command_stats cmd.code if_stats in
    let cmd_stats = record c {
      messages_sent = add_uint64 c.messages_sent 1;
      bytes_sent = add_uint64 c.bytes_sent n;
    } in
    record s' {
      interface_stats =
          put cmd.interface
            (record if_stats' { command_stats = put cmd.code cmd_stats if_stats'.command_stats })
            s'.interface_stats;
    }

-- `Write` of a response, where the connection wrote `n` bytes, or none for an error.
unfoldable pub write_response : Option ℕ → List ℕ → ServerStats → ServerStats
unfolding add_uint64 parse_command note_sent
write_response none b s = record s { errors = add_uint64 s.errors 1 }
write_response (some n) b s =
    let counted = record s {
      messages_sent = add_uint64 s.messages_sent 1;
      total_bytes_sent = add_uint64 s.total_bytes_sent n;
    } in
    if ltb (length b) 20
    then counted
    else elim (parse_command (take 20 b)) [ err e ↦ counted | ok cmd ↦ note_sent cmd n counted ]

-- What the loop of Broadcast counts, over whether each write succeeds.
unfoldable pub broadcast : List Bool → ServerStats → ServerStats
unfolding add_uint64
broadcast [] s = s
broadcast (true ∷ writes) s =
    broadcast writes (record s { messages_sent = add_uint64 s.messages_sent 1 })
broadcast (false ∷ writes) s = broadcast writes (record s { errors = add_uint64 s.errors 1 })

-- GetInterfaceStats and GetCommandStats.
unfoldable pub get_interface_stats : ℕ → ServerStats → Option InterfaceStats
unfolding lookup
get_interface_stats app_id s = lookup app_id s.interface_stats

unfoldable pub get_command_stats : ℕ → ℕ → ServerStats → Option CommandStats
unfolding lookup
get_command_stats app_id cmd_code s = elim (lookup app_id s.interface_stats) [
  | none ↦ none
  | some if_stats ↦ lookup cmd_code if_stats.command_stats
]
