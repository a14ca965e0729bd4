-- ===== src/Dra/Peers.antt =====
-- dra/peer.go: reading a framed message, and the registry of peers.
use diam_gw.Prelude.{
  ℕ, ◌-◌, ◌^◌, List, [], ◌∷◌, ◌++◌, Bool, not, ◌||◌, ◌==◌, ltb, if◌then◌else◌, Option, none, some,
  byte_at, or_uint24, str_eq, Result, ok, err,
}
use diam_gw.Wire.Reader.{Reader, IoError, read_full}
use diam_gw.Dra.Header.{header_len}

pub data ReadError : Type 0 where
  io_error : IoError → ReadError
  bad_version implausible_length : ReadError

-- From the four bytes of the prefix on.
unfoldable pub read_rest : List ℕ → Reader → Result ReadError (List ℕ) × Reader
read_rest prefix r =
    let total = or_uint24 (byte_at prefix 1) (byte_at prefix 2) (byte_at prefix 3) in
    let (rest, r') = read_full (total - 4) r in
    if not (byte_at prefix 0 == 1)
    then (err bad_version, r)
    else if ltb total header_len || ltb (2 ^ 20) total
    then (err implausible_length, r)
    else elim rest [ err e ↦ (err (io_error e.0), r') | ok body ↦ (ok (prefix ++ body), r') ]

unfoldable pub read_message : Reader → Result ReadError (List ℕ) × Reader
unfolding read_rest
read_message r =
    let (prefix, r') = read_full 4 r in
    elim prefix [ err e ↦ (err (io_error e.0), r') | ok b ↦ read_rest b r' ]

-- A `*Peer`, with the names that it was given before it was registered, which are not changed then: `id`
-- is the pointer, and `addr` the remote address of its connection.
pub record Peer : Type 0 where
  pub id : ℕ
  pub addr : List ℕ
  pub origin_host : List ℕ
  pub origin_realm : List ℕ

-- `p == q`, of pointers.
unfoldable pub same_peer : Peer → Peer → Bool
same_peer p q = p.id == q.id

-- The map of the peers that are up, as the list of its entries; a key has one entry at most.
abbrev pub Registry : Type 0
Registry = List (List ℕ × Peer)

-- The bar between the two is the byte 124.
unfoldable pub peer_registry_key : Peer → List ℕ
peer_registry_key p = p.origin_host ++ 124 ∷ p.addr

unfoldable pub find_key : List ℕ → Registry → Option Peer
find_key k [] = none
find_key k (e ∷ m) = let rest = find_key k m in if str_eq k e.0 then some e.1 else rest

unfoldable pub delete_key : List ℕ → Registry → Registry
delete_key k [] = []
delete_key k (e ∷ m) = let rest = delete_key k m in if str_eq k e.0 then rest else e ∷ rest

unfoldable pub register_peer : Peer → Registry → Registry
unfolding delete_key peer_registry_key
register_peer p peers = (peer_registry_key p, p) ∷ delete_key (peer_registry_key p) peers

unfoldable pub remove_peer : Peer → Registry → Registry
unfolding find_key delete_key peer_registry_key same_peer
remove_peer p peers =
    let key = peer_registry_key p in
    elim (find_key key peers) [
      | none ↦ peers
      | some cur ↦ if same_peer cur p then delete_key key peers else peers
    ]

-- The loops over the map, whose `range` visits the peers in the given order.
unfoldable pub peer_by_host : List ℕ → List Peer → Option Peer
peer_by_host host [] = none
peer_by_host host (p ∷ order) =
    let rest = peer_by_host host order in if str_eq p.origin_host host then some p else rest

unfoldable pub peers_by_realm : List ℕ → List Peer → List Peer
peers_by_realm realm [] = []
peers_by_realm realm (p ∷ order) =
    let rest = peers_by_realm realm order in if str_eq p.origin_realm realm then p ∷ rest else rest
