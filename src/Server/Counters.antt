-- ===== src/Server/Counters.antt =====
-- server/server.go: what the counters of a command hold, and what a message that is received adds to them.
use diam_gw.Prelude.{
  ℕ, ◌≡◌, refl, Bool, Option, none, some, ◌&&◌, ◌==◌, if◌then◌else◌, put, lookup, arith,
  Option-cases, inl, inr,
}
use diam_gw.Prelude.Counts.{lookup-put}
use diam_gw.Wire.Header.{Command}
use diam_gw.Server.Stats.{
  CommandStats, InterfaceStats, ServerStats, add_uint64, new_command_stats, new_interface_stats,
  get_or_create_interface_stats, get_or_create_command_stats, get_command_stats,
  get_interface_stats, note_received,
}

-- The counters of a command, 0 for a command that no message had yet.
abbrev pub counters : Option CommandStats → CommandStats
counters none = new_command_stats
counters (some c) = c

abbrev pub counters_of : ℕ → ℕ → ServerStats → CommandStats
counters_of app_id cmd_code s = counters (get_command_stats app_id cmd_code s)

abbrev pub is_for : ℕ → ℕ → Command → Bool
is_for app_id cmd_code cmd = app_id == cmd.interface && cmd_code == cmd.code

unfoldable pub stats_of : Option InterfaceStats → InterfaceStats
stats_of none = new_interface_stats
stats_of (some s) = s

-- The statistics of an interface, or those that it is given.
unfoldable pub interface_of : ℕ → ServerStats → InterfaceStats
unfolding stats_of get_interface_stats
interface_of app_id s = stats_of (get_interface_stats app_id s)

get_command_stats-interface_of :
    (i c : ℕ) (s : ServerStats)
    → get_command_stats i c s ≡ lookup c (interface_of i s).command_stats
unfolding interface_of stats_of get_command_stats lookup
get_command_stats-interface_of i c s = elim (Option-cases (lookup i s.interface_stats)) [
  | inl e ↦ ground (arith, e)
  | inr (x, e) ↦ ground (arith, e)
]

-- A command's statistics with a message of `n` bytes more.
unfoldable pub added : ℕ → CommandStats → CommandStats
unfolding add_uint64
added n c = record c {
  messages_received = add_uint64 c.messages_received 1;
  bytes_received = add_uint64 c.bytes_received n;
}

found_command :
    (k c : ℕ) (s : InterfaceStats) (x : CommandStats)
    → lookup c (put k x (get_or_create_command_stats k s).1.command_stats)
      ≡ (if c == k then some x else lookup c s.command_stats)
unfolding get_or_create_command_stats
found_command k c s x = elim (Option-cases (lookup k s.command_stats)) [
  | inl e ↦ ground (
    arith,
    e,
    lookup-put c k x s.command_stats,
    lookup-put c k x (put k new_command_stats s.command_stats),
    lookup-put c k new_command_stats s.command_stats,
  )
  | inr (y, e) ↦ ground (arith, e, lookup-put c k x s.command_stats)
]

gotten_command :
    (k : ℕ) (s : InterfaceStats)
    → (get_or_create_command_stats k s).0 ≡ counters (lookup k s.command_stats)
unfolding get_or_create_command_stats
gotten_command k s = elim (Option-cases (lookup k s.command_stats)) [
  | inl e ↦ ground (arith, e)
  | inr (y, e) ↦ ground (arith, e)
]

found_interface :
    (k i : ℕ) (s : ServerStats) (x : InterfaceStats)
    → lookup i (put k x (get_or_create_interface_stats k s).1.interface_stats)
      ≡ (if i == k then some x else lookup i s.interface_stats)
unfolding get_or_create_interface_stats
found_interface k i s x = elim (Option-cases (lookup k s.interface_stats)) [
  | inl e ↦ ground (
    arith,
    e,
    lookup-put i k x s.interface_stats,
    lookup-put i k x (put k new_interface_stats s.interface_stats),
    lookup-put i k new_interface_stats s.interface_stats,
  )
  | inr (y, e) ↦ ground (arith, e, lookup-put i k x s.interface_stats)
]

gotten_interface :
    (k : ℕ) (s : ServerStats) → (get_or_create_interface_stats k s).0 ≡ interface_of k s
unfolding get_or_create_interface_stats interface_of stats_of
gotten_interface k s = elim (Option-cases (lookup k s.interface_stats)) [
  | inl e ↦ ground (arith, e)
  | inr (y, e) ↦ ground (arith, e)
]

-- The statistics of an interface behind the additions to the one and the other.
with_message : Command → ℕ → InterfaceStats → InterfaceStats
unfolding added
with_message cmd n s =
    let counted = record s {
      messages_received = add_uint64 s.messages_received 1;
      bytes_received = add_uint64 s.bytes_received n;
    } in
    let (c, s') = get_or_create_command_stats cmd.code counted in
    record s' { command_stats = put cmd.code (added n c) s'.command_stats }

note_received-interface :
    (cmd : Command) (n i : ℕ) (s : ServerStats)
    → interface_of i (note_received cmd n s)
      ≡ (if i == cmd.interface then with_message cmd n (interface_of i s) else interface_of i s)
unfolding note_received with_message added interface_of stats_of
note_received-interface cmd n i s = ground (
  arith,
  gotten_interface cmd.interface s,
  found_interface cmd.interface i s (with_message cmd n (interface_of cmd.interface s)),
)

with_message-command :
    (cmd : Command) (n c : ℕ) (s : InterfaceStats)
    → lookup c (with_message cmd n s).command_stats ≡ (
        if c == cmd.code
        then some (added n (counters (lookup c s.command_stats)))
        else lookup c s.command_stats)
unfolding with_message
with_message-command cmd n c s =
    let counted = record s {
      messages_received = add_uint64 s.messages_received 1;
      bytes_received = add_uint64 s.bytes_received n;
    } in
    ground (
      arith,
      gotten_command cmd.code counted,
      found_command cmd.code c counted (added n (get_or_create_command_stats cmd.code counted).0),
    )

-- A message adds to the counters of its command, and to no other's.
pub counters_of-note_received :
    (cmd : Command) (n i c : ℕ) (s : ServerStats)
    → counters_of i c (note_received cmd n s)
      ≡ (if is_for i c cmd then added n (counters_of i c s) else counters_of i c s)
counters_of-note_received cmd n i c s = ground (
  arith,
  get_command_stats-interface_of i c s,
  get_command_stats-interface_of i c (note_received cmd n s),
  note_received-interface cmd n i s,
  with_message-command cmd n c (interface_of i s),
)

with_message-counters :
    (cmd : Command) (n : ℕ) (s : InterfaceStats)
    → ((with_message cmd n s).messages_received ≡ add_uint64 s.messages_received 1)
      × ((with_message cmd n s).bytes_received ≡ add_uint64 s.bytes_received n)
unfolding with_message get_or_create_command_stats
with_message-counters cmd n s = elim (Option-cases (lookup cmd.code s.command_stats)) [
  | inl e ↦ rw (with_message, e) (refl, refl)
  | inr (x, e) ↦ rw (with_message, e) (refl, refl)
]

-- A message adds to the counters of its interface, and to no other's.
pub interface_of-note_received :
    (cmd : Command) (n i : ℕ) (s : ServerStats)
    → ((interface_of i (note_received cmd n s)).messages_received ≡ (
        if i == cmd.interface
        then add_uint64 (interface_of i s).messages_received 1
        else (interface_of i s).messages_received))
      × ((interface_of i (note_received cmd n s)).bytes_received ≡ (
          if i == cmd.interface
          then add_uint64 (interface_of i s).bytes_received n
          else (interface_of i s).bytes_received))
interface_of-note_received cmd n i s =
    ground
      (arith, note_received-interface cmd n i s, with_message-counters cmd n (interface_of i s))

-- The totals stay.
pub note_received-totals :
    (cmd : Command) (n : ℕ) (s : ServerStats)
    → note_received cmd n s ≡ record s { interface_stats = (note_received cmd n s).interface_stats }
unfolding note_received get_or_create_interface_stats
note_received-totals cmd n s = elim (Option-cases (lookup cmd.interface s.interface_stats)) [
  | inl e ↦ rw (e, note_received, get_or_create_interface_stats) refl
  | inr (x, e) ↦ rw (e, note_received, get_or_create_interface_stats) refl
]
