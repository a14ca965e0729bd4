-- ===== src/Dra/Origin.antt =====
-- What the next peer reads from the message that the agent forwards.
use diam_gw.Prelude.{
  ℕ, ◌+◌, ◌^◌, ◌<◌, ◌≡◌, ◌≢◌, refl, ap, ◌∙◌, List, [], ◌∷◌, ◌++◌, map, length, put_uint24, All,
  All-append, true, false, arith, Bool-cases, inl, inr, if◌then◌else◌, length-drop, append-nil,
}
use diam_gw.Dra.Outcome.{ok}
use diam_gw.Dra.Avp.{
  RoutingView, extract_routing, avp_origin_host, avp_origin_realm, avp_destination_host,
  avp_destination_realm,
}
use diam_gw.Dra.Rewrite.{rewrite_origin_host_realm}
use diam_gw.Dra.Layout.{WireAvp, IsWireAvp}
use diam_gw.Dra.Iterate.{print_avps}
use diam_gw.Dra.Routing.{is_base, payloads_of, last_or, has_any, extract_routing-print}
use diam_gw.Dra.Proxy.{
  agent_avp, agent_avp-IsWireAvp, replaced, appended, forwarded, set_length,
  rewrite_origin_host_realm-print,
}

payloads_of-append :
    (code : ℕ) (xs ys : List WireAvp)
    → payloads_of code (xs ++ ys) ≡ payloads_of code xs ++ payloads_of code ys
unfolding payloads_of
payloads_of-append code [] ys = refl
payloads_of-append code (x ∷ xs) ys = ground (arith, payloads_of-append code xs ys)

last_or-all :
    (d x : List ℕ) (l : List (List ℕ)) → last_or d (map (λ _. x) l) ≡ (if has_any l then x else d)
unfolding last_or has_any
last_or-all d x [] = refl
last_or-all d x (y ∷ l) = ground (arith, last_or-all x x l)

last_or-append :
    (d : List ℕ) (xs ys : List (List ℕ)) → last_or d (xs ++ ys) ≡ last_or (last_or d xs) ys
unfolding last_or
last_or-append d [] ys = refl
last_or-append d (x ∷ xs) ys = last_or-append x xs ys

pub length-set_length : (h : List ℕ) (n : ℕ) → length h ≡ 20 → length (set_length h n) ≡ 20
unfolding set_length put_uint24
length-set_length h n e = omega (arith, e, length-drop 4 h)

module _ (host realm : List ℕ) where
  -- Each payload of an origin becomes the agent's, and those of other codes stay.
  payloads_of-host :
      (avps : List WireAvp)
      → payloads_of avp_origin_host (map (replaced host realm) avps)
        ≡ map (λ _. host) (payloads_of avp_origin_host avps)
  unfolding payloads_of replaced agent_avp
  payloads_of-host [] = refl
  payloads_of-host (a ∷ avps) = ground (arith, payloads_of-host avps)

  payloads_of-realm :
      (avps : List WireAvp)
      → payloads_of avp_origin_realm (map (replaced host realm) avps)
        ≡ map (λ _. realm) (payloads_of avp_origin_realm avps)
  unfolding payloads_of replaced agent_avp
  payloads_of-realm [] = refl
  payloads_of-realm (a ∷ avps) = ground (arith, payloads_of-realm avps)

  payloads_of-other :
      (code : ℕ) (avps : List WireAvp)
      → code ≢ avp_origin_host
      → code ≢ avp_origin_realm
      → payloads_of code (map (replaced host realm) avps) ≡ payloads_of code avps
  unfolding payloads_of replaced agent_avp
  payloads_of-other code [] h r = refl
  payloads_of-other code (a ∷ avps) h r = ground (arith, payloads_of-other code avps h r)

  appended-host :
      (avps : List WireAvp)
      → payloads_of avp_origin_host (appended host realm avps)
        ≡ (if has_any (payloads_of avp_origin_host avps) then [] else host ∷ [])
  unfolding payloads_of appended agent_avp
  appended-host avps = ground arith

  appended-realm :
      (avps : List WireAvp)
      → payloads_of avp_origin_realm (appended host realm avps)
        ≡ (if has_any (payloads_of avp_origin_realm avps) then [] else realm ∷ [])
  unfolding payloads_of appended agent_avp
  appended-realm avps = ground arith

  appended-other :
      (code : ℕ) (avps : List WireAvp)
      → code ≢ avp_origin_host
      → code ≢ avp_origin_realm
      → payloads_of code (appended host realm avps) ≡ []
  unfolding payloads_of appended agent_avp
  appended-other code avps h r = ground arith

  last-host :
      (avps : List WireAvp)
      → last_or [] (payloads_of avp_origin_host (forwarded host realm avps)) ≡ host
  unfolding forwarded last_or
  last-host avps =
      let there = has_any (payloads_of avp_origin_host avps) in
      rw
        (
          payloads_of-append,
          payloads_of-host,
          appended-host,
          last_or-append,
          last_or-all [] host (payloads_of avp_origin_host avps),
        )
        (elim (Bool-cases there) [ inl y ↦ rw y | inr n ↦ rw n ])

  last-realm :
      (avps : List WireAvp)
      → last_or [] (payloads_of avp_origin_realm (forwarded host realm avps)) ≡ realm
  unfolding forwarded last_or
  last-realm avps =
      let there = has_any (payloads_of avp_origin_realm avps) in
      rw
        (
          payloads_of-append,
          payloads_of-realm,
          appended-realm,
          last_or-append,
          last_or-all [] realm (payloads_of avp_origin_realm avps),
        )
        (elim (Bool-cases there) [ inl y ↦ rw y | inr n ↦ rw n ])

  last-other :
      (code : ℕ) (avps : List WireAvp)
      → code ≢ avp_origin_host
      → code ≢ avp_origin_realm
      → payloads_of code (forwarded host realm avps) ≡ payloads_of code avps
  unfolding forwarded
  last-other code avps h r =
      payloads_of-append code (map (replaced host realm) avps) (appended host realm avps)
      ∙ rw (payloads_of-other code avps h r, appended-other code avps h r) (append-nil _)

  replaced-IsWireAvp :
      (avps : List WireAvp)
      → length host + 8 < 2 ^ 24
      → length realm + 8 < 2 ^ 24
      → All IsWireAvp avps
      → All IsWireAvp (map (replaced host realm) avps)
  unfolding replaced
  replaced-IsWireAvp [] h r v = tt
  replaced-IsWireAvp (a ∷ avps) h r v = (
    elim (Bool-cases (is_base avp_origin_host a)) [
      | inl y ↦ rw y (agent_avp-IsWireAvp avp_origin_host host (omega arith) h)
      | inr n ↦ elim (Bool-cases (is_base avp_origin_realm a)) [
        | inl z ↦ rw (n, z) (agent_avp-IsWireAvp avp_origin_realm realm (omega arith) r)
        | inr m ↦ rw (n, m) v.0
      ]
    ],
    replaced-IsWireAvp avps h r v.1,
  )

  appended-IsWireAvp :
      (avps : List WireAvp)
      → length host + 8 < 2 ^ 24
      → length realm + 8 < 2 ^ 24
      → All IsWireAvp (appended host realm avps)
  unfolding appended
  appended-IsWireAvp avps h r =
      All-append IsWireAvp _ _ (one avp_origin_host host (omega arith) h)
        (one avp_origin_realm realm (omega arith) r)
    where
      one :
          (code : ℕ) (value : List ℕ)
          → code < 2 ^ 32
          → length value + 8 < 2 ^ 24
          → All IsWireAvp
              (if has_any (payloads_of code avps) then [] else agent_avp code value ∷ [])
      one code value c w =
          elim (has_any (payloads_of code avps))
            as (λ b. All IsWireAvp (if b then [] else agent_avp code value ∷ [])) [
              | true ↦ tt
              | false ↦ (agent_avp-IsWireAvp code value c w, tt)
            ]

  pub forwarded-IsWireAvp :
      (avps : List WireAvp)
      → length host + 8 < 2 ^ 24
      → length realm + 8 < 2 ^ 24
      → All IsWireAvp avps
      → All IsWireAvp (forwarded host realm avps)
  unfolding forwarded
  forwarded-IsWireAvp avps h r v =
      All-append IsWireAvp (map (replaced host realm) avps) (appended host realm avps)
        (replaced-IsWireAvp avps h r v) (appended-IsWireAvp avps h r)

  -- The next peer reads, from the message that the agent forwards, the agent's own host and realm as
  -- the origin, and the destination of the original. (The agent's names are shorter than 2^24 - 8.)
  pub extract_routing-rewrite_origin_host_realm :
      (h : List ℕ) (avps : List WireAvp)
      → length h ≡ 20
      → All IsWireAvp avps
      → length host + 8 < 2 ^ 24
      → length realm + 8 < 2 ^ 24
      → (out : List ℕ) × (rv : RoutingView) × (rewrite_origin_host_realm
            (h ++ print_avps avps)
            host
            realm
          ≡ ok out)
        × (extract_routing out ≡ ok rv)
        × (rv.origin_host ≡ host)
        × (rv.origin_realm ≡ realm)
        × (rv.destination_host ≡ last_or [] (payloads_of avp_destination_host avps))
        × (rv.destination_realm ≡ last_or [] (payloads_of avp_destination_realm avps))
  extract_routing-rewrite_origin_host_realm h avps n v hl rl =
      let next = forwarded host realm avps in
      let h' = set_length h (20 + length (print_avps next)) in
      let (rv, reads, at_host, at_realm, dest_host, dest_realm, _, _) =
        extract_routing-print h' next (length-set_length h (20 + length (print_avps next)) n)
          (forwarded-IsWireAvp avps hl rl v) in
      (
        h' ++ print_avps next,
        rv,
        rewrite_origin_host_realm-print host realm h avps n v,
        reads,
        at_host ∙ last-host avps,
        at_realm ∙ last-realm avps,
        dest_host
            ∙ ap (last_or []) (last-other avp_destination_host avps (omega arith) (omega arith)),
        dest_realm
            ∙ ap (last_or []) (last-other avp_destination_realm avps (omega arith) (omega arith)),
      )
