-- ===== src/Legacy/Settle.antt =====
-- internal/provider/state.go: where a model's state stands after the loops over all states.
use mathlib.Core.Option
use llm_mux_fork.Prelude.{
  ◌≡◌, refl, sym, ap, ◌∙◌, Bool, true, false, if◌then◌else◌, some, [], ◌∷◌, Text, text_eq,
  text_eq_iff, Map, lookup, map_values, lookup-map_values, Bool-cases, inl, inr,
}
use llm_mux_fork.Clock.{Time}
use llm_mux_fork.Provider.Types.{Auth, ModelState}
use llm_mux_fork.Legacy.State.{settle_state, update_aggregated_availability, apply_tally}
use llm_mux_fork.Legacy.Groups.{change_states}

lookup_changed :
    (chosen : Text → ModelState → Bool) (f : ModelState → ModelState) (j k : Text) (s : ModelState)
    (m rest : Map ModelState) (b : Bool)
    → chosen j s ≡ b
    → lookup k rest ≡ Option.map (λ x. if chosen k x then f x else x) (lookup k m)
    → (if text_eq j k then some (if b then f s else s) else lookup k rest)
      ≡ Option.map (λ x. if chosen k x then f x else x) (if text_eq j k then some s else lookup k m)
lookup_changed chosen f j k s m rest b h same_rest = elim (Bool-cases (text_eq j k)) [
  | inl same ↦ rw (same, sym ((text_eq_iff j k).0 same), h) refl
  | inr another ↦ rw another same_rest
]

pub lookup-change_states :
    (chosen : Text → ModelState → Bool) (f : ModelState → ModelState) (k : Text)
    (m : Map ModelState)
    → lookup k (change_states chosen f m).0
      ≡ Option.map (λ s. if chosen k s then f s else s) (lookup k m)
unfolding change_states lookup
lookup-change_states chosen f k [] = refl
lookup-change_states chosen f k ((j, s) ∷ m) = elim (Bool-cases (chosen j s)) [
  | inl yes_j ↦
      rw yes_j (lookup_changed chosen f j k s m _ true yes_j (lookup-change_states chosen f k m))
  | inr no_j ↦
      rw no_j (lookup_changed chosen f j k s m _ false no_j (lookup-change_states chosen f k m))
]

pub update_states :
    (now : Time) (a : Auth) (m : Map ModelState)
    → a.model_states ≡ m
    → ((update_aggregated_availability now a).disabled ≡ a.disabled)
      × ((update_aggregated_availability now a).status ≡ a.status)
      × ((update_aggregated_availability now a).model_states ≡ map_values (settle_state now) m)
unfolding update_aggregated_availability apply_tally map_values
update_states now a [] h = rw h (refl, refl, refl)
update_states now a (e ∷ m) h = rw h (refl, refl, refl)

pub lookup-update_aggregated :
    (now : Time) (a : Auth) (k : Text)
    → lookup k (update_aggregated_availability now a).model_states
      ≡ Option.map (settle_state now) (lookup k a.model_states)
lookup-update_aggregated now a k =
    ap (lookup k) (update_states now a a.model_states refl).2
    ∙ lookup-map_values (settle_state now) k a.model_states
