-- ===== src/Client/Stale.antt =====
-- A call of `Send` for an address whose entry in the pool is a connection that is no longer active.
use diam_gw.Prelude.{
  ℕ, suc, zero, ◌+◌, ◌≡◌, refl, ap, List, [], ◌∷◌, ◌++◌, true, false, ◌==◌, ◌||◌, Option, none,
  some, arith, lookup, delete, put,
}
use diam_gw.Client.AddressPool.{
  Setting, Outside, context_tick, Call, AddressPool, Task, sends, looks_up, checks, wants_lock,
  looks_again, checks_again, claims, establishes, adds, discards, forgets, transmits, sends_nil,
  closes_channel, lives, removes, connection_closed, run, ends, is_done, cancel, close_connection,
  claim, establish, add, forget, live, update,
}

-- The goroutines one after another, each until it ends; the ones that it starts come after it. A program that
-- crashes ends all of them.
unfoldable pub play : ℕ → Setting → Outside → List Task → AddressPool → Option AddressPool
play zero s o ts p = none
play (suc n) s o [] p = some p
play (suc n) s o (t ∷ ts) p = elim p.crashed [
  | true ↦ some p
  | false ↦ elim (run s o t p) [ none ↦ none | some r ↦ play n s o (r.1 ++ ts) r.0 ]
]

-- An entry whose connection is not active.
pub record IsStale (s : Setting) (c : Call) (old : ℕ) (p : AddressPool) : Type 0 where
  pub running : p.crashed ≡ false
  pub open_pool : p.closed ≡ false
  pub valid : s.valid_address c.remote ≡ true
  pub entry : lookup c.remote p.connections ≡ some old
  pub inactive : (p.managed old).is_active ≡ false
  pub earlier : (old == p.next_managed) ≡ false
  pub unlocked : p.establishing_mu ≡ false
  pub alone : lookup c.remote p.establishing ≡ none

same : (n : ℕ) → (n == n) ≡ true
same n = ground arith

-- What holds of the pool that a run ends in; a run that does not end meets nothing.
abbrev pub EndsIn : Option AddressPool → (AddressPool → Type 0) → Type 0
EndsIn none P = ⊥
EndsIn (some p) P = P p

-- The call failed, and the program crashed.
abbrev pub Crashes : Call → AddressPool → AddressPool → Type 0
Crashes c p p' =
    (p'.outcomes ≡ (c, connection_closed) ∷ p.outcomes)
    × (p'.crashed ≡ true)
    × (p'.connections ≡ p.connections)
    × (p'.total_connections ≡ p.total_connections)

play-run :
    (P : AddressPool → Type 0) (n : ℕ) (s : Setting) (o : Outside) (t : Task) (ts new : List Task)
    → (p p' : AddressPool) → p.crashed ≡ false
    → run s o t p ≡ some (p', new)
    → EndsIn (play n s o (new ++ ts) p') P
    → EndsIn (play (suc n) s o (t ∷ ts) p) P
unfolding play
play-run P n s o t ts new p p' u e h = rw (play, u, e) h

module _ (s : Setting) (o : Outside) (c : Call) (old : ℕ) (P : AddressPool → Type 0) where
  -- Up to the lock, and on to the goroutine that establishes.
  play-finds :
      (n : ℕ) (p : AddressPool)
      → IsStale s c old p
      → EndsIn
          (play n s o (establishes c p.next_channel ∷ []) (record p {
            establishing = put c.remote p.next_channel p.establishing;
            establishing_mu = false;
            next_channel = p.next_channel + 1;
          }))
          P
      → EndsIn (play (suc (suc (suc (suc (suc (suc (suc n))))))) s o (sends c ∷ []) p) P
  unfolding run ends claim
  play-finds n p h rest =
      let held = record p { establishing_mu = true } in
      play-run P _ s o (sends c) [] (looks_up c ∷ []) p p h.running (rw (h.open_pool, h.valid) refl)
        (play-run P _ s o (looks_up c) [] (checks c old ∷ []) p p h.running (rw (run, h.entry) refl)
          (play-run P _ s o (checks c old) [] (wants_lock c ∷ []) p p h.running (rw h.inactive refl)
            (play-run P _ s o (wants_lock c) [] (looks_again c ∷ []) p held h.running
              (rw h.unlocked refl)
              (play-run P _ s o (looks_again c) [] (checks_again c old ∷ []) held held h.running
                (rw (run, h.entry) refl)
                (play-run P _ s o (checks_again c old) [] (claims c ∷ []) held held h.running
                  (rw h.inactive refl)
                  (play-run P n s o (claims c) [] (establishes c p.next_channel ∷ []) held _
                    h.running (rw (claim, h.alone) refl) rest))))))

-- The pool with another connection, and when that one is closed.
abbrev opened : Call → AddressPool → AddressPool
opened c p = record p {
  managed =
      update p.next_managed
        (record { address = c.remote; is_active = true; cancelled = false; closed = false })
        p.managed;
  next_managed = p.next_managed + 1;
}

abbrev shut_down : ℕ → AddressPool → AddressPool
shut_down id p = record p {
  managed = update id (record (p.managed id) { is_active = false; closed = true }) p.managed;
}

abbrev pub discarded : Call → AddressPool → AddressPool
discarded c p = shut_down p.next_managed (cancel p.next_managed (opened c p))

discards_lem :
    (c : Call) (p : AddressPool)
    → close_connection p.next_managed (cancel p.next_managed (opened c p)) ≡ discarded c p
unfolding update cancel close_connection
discards_lem c p = rw (same p.next_managed) refl

discarded_lem :
    (c : Call) (p : AddressPool)
    → (((discarded c p).managed p.next_managed).cancelled ≡ true)
      × (((discarded c p).managed p.next_managed).closed ≡ true)
unfolding update cancel
discarded_lem c p = rw (same p.next_managed) (refl, refl)

discarded_other :
    (c : Call) (p : AddressPool) (old : ℕ)
    → (old == p.next_managed) ≡ false
    → (p.managed old).is_active ≡ false
    → ((discarded c p).managed old).is_active ≡ false
unfolding update cancel
discarded_other c p old e h = rw e h

module _ (s : Setting) (o : Outside) (c : Call) (old : ℕ) (P : AddressPool → Type 0) where
  -- From the goroutine that establishes, up to the end of the call.
  play-discards :
      (n ch : ℕ) (p : AddressPool)
      → p.crashed ≡ false
      → s.valid_address c.remote ≡ true
      → o.fine ≡ true
      → p.establishing_mu ≡ false
      → lookup c.remote p.connections ≡ some old
      → (old == p.next_managed) ≡ false
      → (p.managed old).is_active ≡ false
      → EndsIn
          (play n s o (sends_nil ch ∷ lives p.next_managed ∷ []) (record (discarded c p) {
            establishing = delete c.remote p.establishing;
            outcomes = (c, connection_closed) ∷ p.outcomes;
          }))
          P
      → EndsIn (play (suc (suc (suc (suc (suc n))))) s o (establishes c ch ∷ []) p) P
  unfolding run ends establish add forget cancel
  play-discards n ch p u valid fine unlocked entry other inactive rest =
      let id = p.next_managed in
      let forgotten = record (discarded c p) { establishing = delete c.remote p.establishing } in
      play-run P _ s o (establishes c ch) [] (adds c ch id ∷ lives id ∷ []) p (opened c p) u
        (rw (run, establish, valid, fine) refl)
        (play-run P _ s o (adds c ch id) (lives id ∷ []) (discards c ch id old ∷ []) (opened c p)
          (opened c p) u (rw (run, add, entry) refl)
          (play-run P _ s o (discards c ch id old) (lives id ∷ []) (forgets c ch (some old) ∷ [])
            (opened c p) (discarded c p) u
            (ap (λ q. some (q, forgets c ch (some old) ∷ [])) (discards_lem c p))
            (play-run P _ s o (forgets c ch (some old)) (lives id ∷ [])
              (transmits c old ∷ sends_nil ch ∷ []) (discarded c p) forgotten u
              (rw (run, forget, unlocked) refl)
              (play-run P n s o (transmits c old) (sends_nil ch ∷ lives id ∷ []) [] forgotten
                (record forgotten { outcomes = (c, connection_closed) ∷ p.outcomes }) u
                (rw (run, discarded_other c p old other inactive) refl) rest))))

-- The waiters are told, and the lifecycle manager of the discarded connection closes it once more.
play-closes_again :
    (P : AddressPool → Type 0) (s : Setting) (o : Outside) (p : AddressPool) (ch id n : ℕ)
    → p.crashed ≡ false
    → o.tick ≡ context_tick
    → (p.managed id).cancelled ≡ true
    → (p.managed id).closed ≡ true
    → P (record p {
      filled = λ x. x == ch || p.filled x;
      shut = λ x. x == ch || p.shut x;
      crashed = true;
    })
    → EndsIn (play (suc (suc (suc (suc n)))) s o (sends_nil ch ∷ lives id ∷ []) p) P
unfolding run live is_done close_connection play
play-closes_again P s o p ch id n u tick done closed ends_so =
    let half = record p { filled = λ x. x == ch || p.filled x } in
    let told = record half { shut = λ x. x == ch || p.shut x } in
    let dead = record told { crashed = true } in
    play-run P (suc (suc (suc n))) s o (sends_nil ch) (lives id ∷ []) (closes_channel ch ∷ []) p
      half u refl
      (play-run P (suc (suc n)) s o (closes_channel ch) (lives id ∷ []) [] half told u refl (
        play-run P (suc n) s o (lives id) [] (removes (p.managed id).address ∷ []) told dead u
          (ground (arith, tick, done, closed)) ends_so))

-- Where the entry of an address is a connection that is no longer active, a call of `Send` whose dial succeeds
-- opens another connection, closes it again and fails; then the lifecycle manager of the connection that was
-- thrown away closes it once more, and the program panics. The entry stays as it was until then. (The goroutines
-- run one after another, and the lifecycle manager takes the end of its context.)
pub play-stale :
    (s : Setting) (o : Outside) (c : Call) (old : ℕ) (p : AddressPool)
    → IsStale s c old p
    → o.fine ≡ true
    → o.tick ≡ context_tick
    → EndsIn (play 30 s o (sends c ∷ []) p) (Crashes c p)
unfolding cancel
play-stale s o c old p h fine tick =
    let claimed = record p {
      establishing = put c.remote p.next_channel p.establishing;
      establishing_mu = false;
      next_channel = p.next_channel + 1;
    } in
    play-finds s o c old (Crashes c p) 23 p h (
      play-discards s o c old (Crashes c p) 18 p.next_channel claimed h.running h.valid fine refl
        h.entry h.earlier h.inactive
        (play-closes_again (Crashes c p) s o
          (record (discarded c claimed) {
            establishing = delete c.remote claimed.establishing;
            outcomes = (c, connection_closed) ∷ p.outcomes;
          })
          p.next_channel p.next_managed 14 h.running tick (discarded_lem c claimed).0
          (discarded_lem c claimed).1 (refl, refl, refl, refl)))
