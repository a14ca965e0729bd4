-- ===== src/Client/Rotation.antt =====
-- A rotation over the connections of a pool visits each of them.
use native.Mathlib.Nat.{mod-lt, mod-eq_of_lt}
use diam_gw.Prelude.{
  ℕ, zero, suc, ◌+◌, ◌%◌, ◌^◌, ◌≤◌, ◌<◌, ◌≡◌, ◌≢◌, ◌⊎◌, refl, ap, ◌∙◌, inl, inr, List, [], ◌∷◌,
  ◌++◌, length, Bool, true, false, ltb, Option, none, some, arith, get_elem?, Bool-cases,
  Option-cases, ltb→lt,
}
use diam_gw.Prelude.Rotations.{rotation_reaches, get_elem?-lt}
use diam_gw.Client.State.{is_active}
use diam_gw.Client.Connection.{
  Connection, Data, SendError, no_active_connections, context_done, send_buffer_full,
}
use diam_gw.Client.Connection
use diam_gw.Client.ConnectionPool.{ConnectionPool, send_loop, send_at, set_elem, send, next_index}

-- The pool's loop has not found an active connection: each place that it came to has none.
module _ (favours_queue : Bool) (bytes : Data) (conns : List Connection) (start : ℕ) where
  -- The place of the `i`th round.
  abbrev pub place : ℕ → ℕ
  place i = (start + i) % 2 ^ 32 % length conns

  -- No active connection stands at a place.
  abbrev pub IsIdle : ℕ → Type 0
  IsIdle k = (c : Connection) → get_elem? conns k ≡ some c → is_active c.state ≡ false

  -- What a loop ends with: it came to an active connection, through which it sent; or each of its places had
  -- none, and it fails.
  abbrev pub Ends : ℕ → ℕ → Option SendError × List Connection → Type 0
  Ends i fuel result =
      ((k : ℕ) × (c : Connection) × (get_elem? conns k ≡ some c)
        × (is_active c.state ≡ true)
        × (result ≡ send_at favours_queue bytes conns k c))
      ⊎ ((result ≡ (some no_active_connections, conns))
          × ((j : ℕ) → i ≤ j → j < i + fuel → IsIdle (place j)))

  later-IsIdle :
      (i j : ℕ) → i ≤ j → IsIdle (place i) → (i + 1 ≤ j → IsIdle (place j)) → IsIdle (place j)
  later-IsIdle i j l h rest = elim (Bool-cases (ltb i j)) [
    | inl later ↦ rest (omega (arith, ltb→lt i j later))
    | inr same ↦ (let e : i ≡ j = ground arith in rw (← e) h)
  ]

  skips :
      (i fuel : ℕ) (result : Option SendError × List Connection)
      → IsIdle (place i)
      → Ends (i + 1) fuel result
      → Ends i (suc fuel) result
  skips i fuel result h (inl sent) = inl sent
  skips i fuel result h (inr (failed, rest)) =
      inr (failed, λ j l u. later-IsIdle i j l h (λ l'. rest j l' (omega arith)))

  send_loop-Ends : (i fuel : ℕ) → Ends i fuel (send_loop favours_queue bytes conns start i fuel)
  unfolding send_loop
  send_loop-Ends i zero = inr (refl, λ j l u. absurd (omega arith))
  send_loop-Ends i (suc fuel) =
      let rest = send_loop-Ends (i + 1) fuel in
      elim (Option-cases (get_elem? conns (place i))) [
        | inl absent ↦ rw (absent, send_loop) (skips i fuel _ (λ c e. absurd cc) rest)
        | inr (c, here) ↦ elim (Bool-cases (is_active c.state)) [
          | inl active ↦ rw (here, send_loop, active) (inl (place i, c, here, active, refl))
          | inr idle ↦
              rw (here, send_loop, idle)
                (skips i fuel _ (λ c' e. (let same : c ≡ c' = cc in rw (← same) idle)) rest)
        ]
      ]

reached :
    (favours_queue : Bool) (bytes : Data) (conns : List Connection) (index k : ℕ) (c : Connection)
    → length conns < 2 ^ 31
    → get_elem? conns k ≡ some c
    → ((j : ℕ)
        → 0 ≤ j
        → j < 0 + length conns
        → IsIdle favours_queue bytes conns
            (index % length conns)
            (place favours_queue bytes conns (index % length conns) j))
    → is_active c.state ≡ false
reached favours_queue bytes conns index k c u here idle =
    let inside = get_elem?-lt conns k c here in
    let start = index % length conns in
    let start_lt : start < length conns = mod-lt index (omega arith) in
    let (j, j_lt, at) = rotation_reaches start k (length conns) start_lt inside in
    let small : (start + j) % 2 ^ 32 ≡ start + j = mod-eq_of_lt (omega arith) in
    let place_k : (start + j) % 2 ^ 32 % length conns ≡ k = ap (λ x. x % length conns) small ∙ at in
    idle j (omega arith) (omega arith) c (ap (get_elem? conns) place_k ∙ here)

-- What a connection makes of a message: it stands last in the queue, where there is room; or nothing changes, and
-- the error says that the context is done, which it is, or that there is no room.
abbrev pub Takes : Data → Connection → Option SendError → Connection → Type 0
Takes bytes c e c' =
    ((e ≡ none) × (length c.queue < c.capacity) × (c' ≡ record c { queue = c.queue ++ bytes ∷ [] }))
    ⊎ ((e ≡ some context_done) × (c.cancelled ≡ true) × (c' ≡ c))
    ⊎ ((e ≡ some send_buffer_full) × (c.capacity ≤ length c.queue) × (c' ≡ c))

-- The message went to the `k`th connection: it took the message, and the others are as they were.
abbrev pub GoesTo :
    Data → List Connection → ℕ → Connection → Option SendError × List Connection → Type 0
GoesTo bytes conns k c result =
    (c' : Connection) × Takes bytes c result.0 c'
    × (get_elem? result.1 k ≡ some c')
    × ((j : ℕ) → j ≢ k → get_elem? result.1 j ≡ get_elem? conns j)

set_elem-same :
    (k : ℕ) (c c' : Connection) (conns : List Connection)
    → get_elem? conns k ≡ some c
    → get_elem? (set_elem k c' conns) k ≡ some c'
unfolding set_elem
set_elem-same k c c' [] h = absurd cc
set_elem-same zero c c' (x ∷ conns) h = refl
set_elem-same (suc k) c c' (x ∷ conns) h = set_elem-same k c c' conns h

set_elem-other :
    (k j : ℕ) (c' : Connection) (conns : List Connection)
    → j ≢ k
    → get_elem? (set_elem k c' conns) j ≡ get_elem? conns j
unfolding set_elem
set_elem-other k j c' [] h = refl
set_elem-other zero zero c' (x ∷ conns) h = absurd (h refl)
set_elem-other zero (suc j) c' (x ∷ conns) h = refl
set_elem-other (suc k) zero c' (x ∷ conns) h = refl
set_elem-other (suc k) (suc j) c' (x ∷ conns) h = set_elem-other k j c' conns (λ e. h (ap suc e))

send-Takes :
    (favours_queue : Bool) (bytes : Data) (c : Connection)
    → is_active c.state ≡ true
    → Takes bytes c
        (Connection.send favours_queue bytes c).0
        (Connection.send favours_queue bytes c).1
unfolding Connection.send
send-Takes favours_queue bytes c active = elim (Bool-cases (ltb (length c.queue) c.capacity)) [
  | inl room ↦
      let enough = ltb→lt (length c.queue) c.capacity room in
      elim (Bool-cases c.cancelled) [
        | inl done ↦ elim (Bool-cases favours_queue) [
          | inl queues ↦ rw (Connection.send, active, room, done, queues) (inl (refl, enough, refl))
          | inr stops ↦
              rw (Connection.send, active, room, done, stops) (inr (inl (refl, refl, refl)))
        ]
        | inr going ↦ rw (Connection.send, active, room, going) (inl (refl, enough, refl))
      ]
  | inr full ↦ elim (Bool-cases c.cancelled) [
    | inl done ↦ rw (Connection.send, active, full, done) (inr (inl (refl, refl, refl)))
    | inr going ↦
        let no_room : c.capacity ≤ length c.queue = ground arith in
        rw (Connection.send, active, full, going) (inr (inr (refl, no_room, refl)))
  ]
]

send_at-GoesTo :
    (favours_queue : Bool) (bytes : Data) (conns : List Connection) (k : ℕ) (c : Connection)
    → get_elem? conns k ≡ some c
    → is_active c.state ≡ true
    → GoesTo bytes conns k c (send_at favours_queue bytes conns k c)
unfolding send_at
send_at-GoesTo favours_queue bytes conns k c here active = (
  (Connection.send favours_queue bytes c).1,
  send-Takes favours_queue bytes c active,
  set_elem-same k c _ conns here,
  λ j other. set_elem-other k j _ conns other,
)

-- On a pool that is not closed, `Send` hands the message to one active connection, which queues it last if its
-- queue has room, and otherwise reports that it has none or that its context is done; the other connections stay
-- as they are. Or no connection is active, and it fails with that error and changes none of them. (The pool has
-- a connection, and fewer than 2^31.)
pub send_reaches :
    (favours_queue : Bool) (bytes : Data) (p : ConnectionPool)
    → p.closed ≡ false
    → 0 < length p.connections
    → length p.connections < 2 ^ 31
    → ((k : ℕ) × (c : Connection) × (get_elem? p.connections k ≡ some c)
        × (is_active c.state ≡ true)
        × GoesTo bytes p.connections k c
            ((send favours_queue bytes p).0, (send favours_queue bytes p).1.connections))
      ⊎ (((send favours_queue bytes p).0 ≡ some no_active_connections)
          × ((send favours_queue bytes p).1.connections ≡ p.connections)
          × ((k : ℕ) (c : Connection)
              → get_elem? p.connections k ≡ some c
              → is_active c.state ≡ false))
unfolding send
send_reaches favours_queue bytes p h n u =
    elim (send_loop-Ends favours_queue bytes p.connections (next_index p % length p.connections) 0
      (length p.connections)) [
        | inl (k, c, here, active, e) ↦
            let went = send_at-GoesTo favours_queue bytes p.connections k c here active in
            rw h (inl (k, c, here, active, rw e went))
        | inr (e, idle) ↦ rw h (
            inr (
              ap (λ r. r.0) e,
              ap (λ r. r.1) e,
              λ k c here. reached favours_queue bytes p.connections (next_index p) k c u here idle,
            ))
      ]
