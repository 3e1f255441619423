-- ===== src/Accountable/Transitions.antt =====
-- The state of a filing under the commands of internal/accountable/server.go.
use dbos_conformance.Common.{
  String, true, some, ◌==◌, ◌≡◌, subst, arith, eq_iff, string_eq, int_eq, nat_eq, inl, inr, ◌⊎◌,
  lookup, ◌||◌,
}
use dbos_conformance.Domain.{
  state_ready, state_submitting, state_submitted, state_accepted, state_rejected,
  state_needs_review,
}
use dbos_conformance.Accountable.Command.{
  prepare, mark_submitted, mark_accepted, mark_rejected, mark_needs_review, command_transitions,
  command_allows_state,
}

-- The moves of a filing, with the names that the states have in internal/domain/types.go.
pub data Legal (s t : String) : Type 0 where
  intent : (s ≡ state_ready) ⊎ (s ≡ state_submitting) → t ≡ state_submitting → Legal s t
  submit : s ≡ state_submitting → t ≡ state_submitted → Legal s t
  resolve :
      (s ≡ state_submitting) ⊎ ((s ≡ state_submitted) ⊎ (s ≡ state_needs_review))
      → (t ≡ state_accepted) ⊎ ((t ≡ state_rejected) ⊎ (t ≡ state_needs_review))
      → Legal s t

-- A known command type is one of five.
pub known_command :
    (c t : String)
    → lookup c command_transitions ≡ some t
    → ((c ≡ prepare) × (t ≡ state_submitting))
      ⊎ ((c ≡ mark_submitted) × (t ≡ state_submitted))
      ⊎ ((c ≡ mark_accepted) × (t ≡ state_accepted))
      ⊎ ((c ≡ mark_rejected) × (t ≡ state_rejected))
      ⊎ ((c ≡ mark_needs_review) × (t ≡ state_needs_review))
unfolding lookup
known_command c t h = ground (
  arith,
  eq_iff prepare c,
  eq_iff mark_submitted c,
  eq_iff mark_accepted c,
  eq_iff mark_rejected c,
  eq_iff mark_needs_review c,
)

pub open_state :
    (s : String)
    → (s == state_submitting || s == state_submitted || s == state_needs_review) ≡ true
    → (s ≡ state_submitting) ⊎ ((s ≡ state_submitted) ⊎ (s ≡ state_needs_review))
open_state s h =
    ground (arith, eq_iff s state_submitting, eq_iff s state_submitted, eq_iff s state_needs_review)

-- Where the table of transitions leads a command to a state, and the command is permitted in the
-- filing's state, the move is a legal one.
pub allowed-Legal :
    (c s t : String)
    → lookup c command_transitions ≡ some t
    → command_allows_state c s ≡ true
    → Legal s t
unfolding command_allows_state
allowed-Legal c s t leads allowed = elim (known_command c t leads) [
  | inl (e, f) ↦
      let h = subst (λ c. command_allows_state c s ≡ true) e allowed in
      intent (ground (arith, eq_iff s state_ready, eq_iff s state_submitting)) f
  | inr (inl (e, f)) ↦
      let h = subst (λ c. command_allows_state c s ≡ true) e allowed in submit ((eq_iff _ _).0 h) f
  | inr (inr (inl (e, f))) ↦
      resolve (open_state s (subst (λ c. command_allows_state c s ≡ true) e allowed)) (inl f)
  | inr (inr (inr (inl (e, f)))) ↦
      resolve (open_state s (subst (λ c. command_allows_state c s ≡ true) e allowed)) (inr (inl f))
  | inr (inr (inr (inr (e, f)))) ↦
      resolve (open_state s (subst (λ c. command_allows_state c s ≡ true) e allowed)) (inr (inr f))
]
