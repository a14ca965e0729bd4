-- ===== src/Client/LocalBind.antt =====
-- client/connection.go: dialling from a source port of a configured range.
use mathlib.Core.Path.{subst}
use native.Mathlib.Nat.{mod-lt}
use diam_gw.Prelude.{
  ℕ, zero, suc, ◌+◌, ◌-◌, ◌%◌, ◌^◌, ◌<◌, ◌≤◌, ◌≡◌, refl, ◌⊎◌, inl, inr, arith, ltb, Bool-cases,
  ltb→lt,
}
use diam_gw.Prelude.Rotations.{rotation_reaches}

-- What a dial from a port comes to.
pub data DialAnswer : Type 0 where
  dial_connected dial_in_use dial_refused : DialAnswer

-- What the scan comes to: a connection from a port, another error at a port, or no port that is not in use.
pub data ScanResult : Type 0 where
  connected_from refused_at : ℕ → ScanResult
  no_local_port : ScanResult

-- `dial` is the dialer, of the source port, each of which is tried once. The loop runs from `i` on for
-- `fuel` rounds.
module _ (dial : ℕ → DialAnswer) (min count start_off : ℕ) where
  abbrev pub port_at : ℕ → ℕ
  port_at i = min + (start_off + i) % count

  unfoldable pub scan_loop : ℕ → ℕ → ScanResult
  scan_loop i zero = no_local_port
  scan_loop i (suc fuel) =
      let rest = scan_loop (i + 1) fuel in
      elim (dial (port_at i)) [
        | dial_connected ↦ connected_from (port_at i)
        | dial_in_use ↦ rest
        | dial_refused ↦ refused_at (port_at i)
      ]

-- The scan of dialWithLocalBind, with the cursor after it; the range is not empty.
unfoldable pub scan_ports : (ℕ → DialAnswer) → ℕ → ℕ → ℕ → ScanResult × ℕ
unfolding scan_loop
scan_ports dial min max port_scan_start =
    let next = (port_scan_start + 1) % 2 ^ 32 in
    let count = max + 1 - min in (scan_loop dial min count (next % count) 0 count, next)

-- What a result of the scan tells of the ports.
abbrev pub Tells : (ℕ → DialAnswer) → ℕ → ℕ → ScanResult → Type 0
Tells dial min max (connected_from p) = (min ≤ p) × (p ≤ max) × (dial p ≡ dial_connected)
Tells dial min max (refused_at p) = (min ≤ p) × (p ≤ max) × (dial p ≡ dial_refused)
Tells dial min max no_local_port = (p : ℕ) → min ≤ p → p ≤ max → dial p ≡ dial_in_use

-- The same of the places that a loop came to.
module _ (dial : ℕ → DialAnswer) (min count start_off : ℕ) where
  abbrev place : ℕ → ℕ
  place i = port_at dial min count start_off i

  abbrev TellsFrom : ℕ → ℕ → ScanResult → Type 0
  TellsFrom i fuel (connected_from p) = (j : ℕ) × (p ≡ place j) × (dial p ≡ dial_connected)
  TellsFrom i fuel (refused_at p) = (j : ℕ) × (p ≡ place j) × (dial p ≡ dial_refused)
  TellsFrom i fuel no_local_port = (j : ℕ) → i ≤ j → j < i + fuel → dial (place j) ≡ dial_in_use

  skips :
      (i fuel : ℕ) (r : ScanResult)
      → dial (place i) ≡ dial_in_use
      → TellsFrom (i + 1) fuel r
      → TellsFrom i (suc fuel) r
  skips i fuel (connected_from p) h t = t
  skips i fuel (refused_at p) h t = t
  skips i fuel no_local_port h t = λ j l u. elim (Bool-cases (ltb i j)) [
    | inl later ↦ t j (omega (arith, ltb→lt i j later)) (omega arith)
    | inr same ↦ (let e : i ≡ j = ground arith in rw (← e) h)
  ]

  answer_cases : (a : DialAnswer) → (a ≡ dial_connected) ⊎ ((a ≡ dial_in_use) ⊎ (a ≡ dial_refused))
  answer_cases dial_connected = inl refl
  answer_cases dial_in_use = inr (inl refl)
  answer_cases dial_refused = inr (inr refl)

  scan_loop-TellsFrom : (i fuel : ℕ) → TellsFrom i fuel (scan_loop dial min count start_off i fuel)
  unfolding scan_loop
  scan_loop-TellsFrom i zero = λ j l u. absurd (omega arith)
  scan_loop-TellsFrom i (suc fuel) = elim (answer_cases (dial (place i))) [
    | inl h ↦ rw (scan_loop, h) (i, refl, h)
    | inr (inl h) ↦ rw (scan_loop, h) (skips i fuel _ h (scan_loop-TellsFrom (i + 1) fuel))
    | inr (inr h) ↦ rw (scan_loop, h) (i, refl, h)
  ]

range-Tells :
    (dial : ℕ → DialAnswer) (min max off : ℕ) (r : ScanResult)
    → min ≤ max
    → off < max + 1 - min
    → TellsFrom dial min (max + 1 - min) off 0 (max + 1 - min) r
    → Tells dial min max r
range-Tells dial min max off (connected_from p) h o (j, e, a) =
    let inside = mod-lt (off + j) {m = max + 1 - min} (omega arith) in
    (omega (arith, e), omega (arith, e, inside), a)
range-Tells dial min max off (refused_at p) h o (j, e, a) =
    let inside = mod-lt (off + j) {m = max + 1 - min} (omega arith) in
    (omega (arith, e), omega (arith, e, inside), a)
range-Tells dial min max off no_local_port h o t = λ p lo hi.
    let (j, u, e) = rotation_reaches off (p - min) (max + 1 - min) o (omega arith) in
    let here : port_at dial min (max + 1 - min) off j ≡ p = omega (arith, e) in
    subst (λ q. dial q ≡ dial_in_use) here (t j (omega arith) (omega (arith, u)))

-- The scan of a range that is not empty gives a connection from a port of the range that the dial accepts, or stops at a
-- port of the range with another error; it gives up only where every port of the range is in use. So it is
-- wherever the cursor of the scans stands.
pub scan_ports-Tells :
    (dial : ℕ → DialAnswer) (min max port_scan_start : ℕ)
    → min ≤ max
    → Tells dial min max (scan_ports dial min max port_scan_start).0
unfolding scan_ports
scan_ports-Tells dial min max start h =
    let n = max + 1 - min in
    let off = (start + 1) % 2 ^ 32 % n in
    range-Tells dial min max off (scan_loop dial min n off 0 n) h
      (mod-lt ((start + 1) % 2 ^ 32) (omega arith)) (scan_loop-TellsFrom dial min n off 0 n)
