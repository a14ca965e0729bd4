-- ===== src/Client/Grouping.antt =====
-- The groups that the agents are put in by priority.
use diam_gw.Prelude.{
  ℕ, ◌≡◌, refl, sym, ap, ◌∙◌, List, [], ◌∷◌, ◌++◌, ◌==◌, if◌then◌else◌, arith, append-nil,
  append_assoc, Bool-cases, inl, inr,
}
use diam_gw.Client.DraPool.{DraServer, group_of, add_to_group, group_dras}

-- The agents of one priority, in order.
unfoldable pub with_priority : ℕ → List DraServer → List DraServer
with_priority q [] = []
with_priority q (dra ∷ dras) =
    let rest = with_priority q dras in if dra.priority == q then dra ∷ rest else rest

group_of-add_to_group :
    (q : ℕ) (dra : DraServer) (groups : List (ℕ × List DraServer))
    → group_of q (add_to_group dra groups)
      ≡ (if dra.priority == q then group_of q groups ++ dra ∷ [] else group_of q groups)
unfolding group_of add_to_group
group_of-add_to_group q dra [] = ground arith
group_of-add_to_group q dra (e ∷ groups) = ground (arith, group_of-add_to_group q dra groups)

group_of-group_dras_from :
    (q : ℕ) (groups : List (ℕ × List DraServer)) (dras : List DraServer)
    → group_of q (group_dras groups dras) ≡ group_of q groups ++ with_priority q dras
unfolding group_dras with_priority
group_of-group_dras_from q groups [] = sym (append-nil (group_of q groups))
group_of-group_dras_from q groups (dra ∷ dras) =
    let added = group_of-add_to_group q dra groups in
    let rest = group_of-group_dras_from q (add_to_group dra groups) dras in
    elim (Bool-cases (dra.priority == q)) [
      | inl same ↦ rw same (
          rest
          ∙ ap (λ g. g ++ with_priority q dras) (added ∙ (rw same refl))
          ∙ append_assoc (group_of q groups) (dra ∷ []) (with_priority q dras))
      | inr other ↦ rw other (rest ∙ ap (λ g. g ++ with_priority q dras) (added ∙ (rw other refl)))
    ]

-- The group of a priority holds the agents of that priority, each once for each time that it is configured, in
-- the order that they were sorted in.
pub group_of-group_dras :
    (q : ℕ) (dras : List DraServer) → group_of q (group_dras [] dras) ≡ with_priority q dras
unfolding group_of
group_of-group_dras q dras = group_of-group_dras_from q [] dras
