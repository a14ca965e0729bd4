-- ===== src/Dra/Routing.antt =====
-- What the agent extracts from a message to route it.
use diam_gw.Prelude.{
  ℕ, ◌+◌, ◌≡◌, refl, ◌∙◌, List, [], ◌∷◌, ◌++◌, length, All, Bool, true, false, ◌&&◌, ◌||◌, arith,
  if◌then◌else◌, ◌==◌, ltb,
}
use diam_gw.Dra.Outcome.{ok}
use diam_gw.Dra.Avp.{
  RoutingView, no_routing, note_avp, extract_routing, avp_origin_host, avp_origin_realm,
  avp_destination_host, avp_destination_realm, pad_up,
}
use diam_gw.Dra.Layout.{WireAvp, IsWireAvp, total_of, entry}
use diam_gw.Dra.Iterate.{fold_avps, print_avps, iterate_avps-print}

-- An AVP of the base protocol with the given code: it carries no vendor, or the vendor 0.
abbrev pub is_base : ℕ → WireAvp → Bool
is_base code a = (ltb a.flags 128 || a.vendor == 0) && a.code == code

-- The payloads of those AVPs, in order.
unfoldable pub payloads_of : ℕ → List WireAvp → List (List ℕ)
payloads_of code [] = []
payloads_of code (a ∷ avps) =
    let rest = payloads_of code avps in if is_base code a then a.payload ∷ rest else rest

-- The last of a list, or what is given if there is none.
unfoldable pub last_or : List ℕ → List (List ℕ) → List ℕ
last_or d [] = d
last_or d (x ∷ xs) = last_or x xs

unfoldable pub has_any : List (List ℕ) → Bool
has_any [] = false
has_any (x ∷ xs) = true

note_all : RoutingView → ℕ → List WireAvp → RoutingView
note_all rv pos [] = rv
note_all rv pos (a ∷ avps) = note_all (note_avp rv (entry pos a)) (pos + pad_up (total_of a)) avps

fold-note_all :
    (rv : RoutingView) (pos : ℕ) (avps : List WireAvp)
    → fold_avps (λ r a. ok (note_avp r a)) rv pos avps ≡ ok (note_all rv pos avps)
unfolding fold_avps note_all
fold-note_all rv pos [] = refl
fold-note_all rv pos (a ∷ avps) =
    fold-note_all (note_avp rv (entry pos a)) (pos + pad_up (total_of a)) avps

-- What each field of the view ends as.
record Noted (rv rv' : RoutingView) (avps : List WireAvp) : Type 0 where
  host : rv'.origin_host ≡ last_or rv.origin_host (payloads_of avp_origin_host avps)
  realm : rv'.origin_realm ≡ last_or rv.origin_realm (payloads_of avp_origin_realm avps)
  dest_host :
      rv'.destination_host ≡ last_or rv.destination_host (payloads_of avp_destination_host avps)
  dest_realm :
      rv'.destination_realm ≡ last_or rv.destination_realm (payloads_of avp_destination_realm avps)
  has_host :
      rv'.has_origin_host ≡ (rv.has_origin_host || has_any (payloads_of avp_origin_host avps))
  has_realm :
      rv'.has_origin_realm ≡ (rv.has_origin_realm || has_any (payloads_of avp_origin_realm avps))

note_all-Noted :
    (rv : RoutingView) (pos : ℕ) (avps : List WireAvp) → Noted rv (note_all rv pos avps) avps
unfolding note_all payloads_of last_or has_any note_avp entry
note_all-Noted rv pos [] = ground arith
note_all-Noted rv pos (a ∷ avps) =
    ground (arith, note_all-Noted (note_avp rv (entry pos a)) (pos + pad_up (total_of a)) avps)

-- From a header and well-formed AVPs the agent extracts, for each of the four routing AVPs, the
-- payload of the last one that carries no vendor, and nothing where there is none.
pub extract_routing-print :
    (header : List ℕ) (avps : List WireAvp)
    → length header ≡ 20
    → All IsWireAvp avps
    → (rv : RoutingView) × (extract_routing (header ++ print_avps avps) ≡ ok rv)
      × (rv.origin_host ≡ last_or [] (payloads_of avp_origin_host avps))
      × (rv.origin_realm ≡ last_or [] (payloads_of avp_origin_realm avps))
      × (rv.destination_host ≡ last_or [] (payloads_of avp_destination_host avps))
      × (rv.destination_realm ≡ last_or [] (payloads_of avp_destination_realm avps))
      × (rv.has_origin_host ≡ has_any (payloads_of avp_origin_host avps))
      × (rv.has_origin_realm ≡ has_any (payloads_of avp_origin_realm avps))
unfolding extract_routing
extract_routing-print header avps n v =
    let noted = note_all-Noted no_routing 20 avps in
    (
      note_all no_routing 20 avps,
      iterate_avps-print _ header avps no_routing n v ∙ fold-note_all no_routing 20 avps,
      noted.host,
      noted.realm,
      noted.dest_host,
      noted.dest_realm,
      noted.has_host,
      noted.has_realm,
    )
