-- ===== src/Models/Balance.antt =====
-- internal/registry: in every state that the registry comes to, the count of a registration is the
-- number of its uses by the clients, as long as no client changes its provider.
use llm_mux_fork.Prelude.{
  ℕ, ◌+◌, ◌≤◌, ◌≡◌, refl, sym, ◌∙◌, ap, subst, ltb, ◌⊎◌, false, Bool-cases, inl, inr, if◌then◌else◌,
  Option, none, some, Text, text_eq, text_eq_refl, to_lower, is_empty, List, [], ◌∷◌, Map, lookup,
  IsKeyed, lookup_or, insert, delete, lookup-insert, lookup-delete, length, arith,
}
use llm_mux_fork.Clock.{Time}
use llm_mux_fork.Models.Types.{ModelInfo, RegistryState, new_registry_state}
use llm_mux_fork.Models.Register.{unregister_client_internal}
use llm_mux_fork.Models.Reconcile.{register_client}
use llm_mux_fork.Models.Counts.{count_at, uses}
use llm_mux_fork.Models.Weights.{weight}
use llm_mux_fork.Models.Sums.{
  at, weight-delete, weight-insert, weight-delete_cong, IsKeyed-insert, IsKeyed-delete,
}
use llm_mux_fork.Models.Clients.{
  used, lookup_or-some, lookup_or_missing, count_at-unregister_client_internal,
  count_at-register_client,
}
use llm_mux_fork.Models.Untouched.{clients}
use llm_mux_fork.Models.Directory.{
  entered, left, unregister_client_internal-clients, register_client-clients,
}
use llm_mux_fork.Models.Batches.{valid_ids}
use llm_mux_fork.Models.Usage.{IsRange}

-- An entry's uses of a key, by the provider of the client.
abbrev uses_of : Text → Map Text → Text × List Text → ℕ
uses_of k providers x = uses (lookup_or [] x.0 providers) k x.1

-- How often the clients of a directory use a key together.
abbrev pub total : Text → Map (List Text) × Map Text → ℕ
total k (models, providers) = weight (uses_of k providers) models

used-at :
    (client k : Text) (st : RegistryState) (o : Option (List Text))
    → lookup client st.client_models ≡ o
    → used client k st ≡ at (uses_of k st.client_providers) client o
unfolding used
used-at client k st none e = rw (lookup_or_missing [] client st.client_models e)
used-at client k st (some ids) e = rw (lookup_or-some [] ids client st.client_models e)

-- The provider of every client, after one has been entered.
lookup_or-entered :
    (client j provider : Text) (providers : Map Text)
    → lookup_or [] j
        (if is_empty provider then delete client providers else insert client provider providers)
      ≡ (if text_eq client j then provider else lookup_or [] j providers)
unfolding lookup_or is_empty
lookup_or-entered client j [] providers = ground (arith, lookup-delete client j providers)
lookup_or-entered client j (c ∷ p) providers =
    ground (arith, lookup-insert client j (c ∷ p) providers)

lookup_or-delete :
    (client j : Text) (providers : Map Text)
    → text_eq client j ≡ false
    → lookup_or [] j (delete client providers) ≡ lookup_or [] j providers
unfolding lookup_or
lookup_or-delete client j providers h = ground (arith, lookup-delete client j providers)

total-left :
    (client k : Text) (st : RegistryState)
    → IsKeyed st.client_models
    → total k (left client (clients st)) + used client k st ≡ total k (clients st)
total-left client k st d = omega (
  arith,
  used-at client k st (lookup client st.client_models) refl,
  weight-delete (uses_of k st.client_providers) client st.client_models d,
  weight-delete_cong (uses_of k (delete client st.client_providers)) (uses_of k st.client_providers)
      client st.client_models
      (λ j v h. ap (λ p. uses p k v) (lookup_or-delete client j st.client_providers h)),
)

total-entered :
    (client provider k : Text) (ids : List Text) (st : RegistryState)
    → IsKeyed st.client_models
    → total k (entered client ids provider (clients st)) + used client k st
      ≡ total k (clients st) + uses provider k ids
total-entered client provider k ids st d =
    let providers' =
      if is_empty provider
      then delete client st.client_providers
      else insert client provider st.client_providers in
    let own : uses_of k providers' (client, ids) ≡ uses provider k ids =
      rw (lookup_or-entered client client provider st.client_providers, text_eq_refl) refl in
    omega (
      arith,
      own,
      used-at client k st (lookup client st.client_models) refl,
      weight-delete (uses_of k st.client_providers) client st.client_models d,
      weight-insert (uses_of k providers') client ids st.client_models d,
      weight-delete_cong (uses_of k providers') (uses_of k st.client_providers) client
          st.client_models
          (λ j v h. rw (lookup_or-entered client j provider st.client_providers, h) refl),
    )

-- Every client is there once, and the count of each registration is the number of its uses.
pub record IsBalanced (st : RegistryState) : Type 0 where
  pub keyed : IsKeyed st.client_models
  pub balanced : (k : Text) → count_at k st ≡ total k (clients st)

pub used-le :
    (client k : Text) (st : RegistryState) → IsBalanced st → used client k st ≤ count_at k st
used-le client k st h = omega (arith, total-left client k st h.keyed, h.balanced k)

of_clients :
    (st : RegistryState) (dir : Map (List Text) × Map Text)
    → clients st ≡ dir
    → IsKeyed dir.0
    → ((k : Text) → count_at k st ≡ total k dir)
    → IsBalanced st
of_clients st dir e d h = record {
  keyed = subst (λ c. IsKeyed c.0) (sym e) d;
  balanced = λ k. h k ∙ ap (total k) (sym e);
}

-- An operation that keeps every count and the directory keeps the balance.
pub IsBalanced-keep :
    (st st' : RegistryState)
    → clients st' ≡ clients st
    → ((k : Text) → count_at k st' ≡ count_at k st)
    → IsBalanced st
    → IsBalanced st'
IsBalanced-keep st st' e c h = of_clients st' (clients st) e h.keyed (λ k. c k ∙ h.balanced k)

pub new_registry_state-IsBalanced : IsBalanced new_registry_state
unfolding count_at lookup weight
new_registry_state-IsBalanced = record { keyed = tt; balanced = λ k. refl }

pub unregister_client_internal-IsBalanced :
    (now : Time) (client : Text) (st : RegistryState)
    → IsBalanced st
    → IsBalanced (unregister_client_internal now client st)
unregister_client_internal-IsBalanced now client st h =
    of_clients _ (left client (clients st)) (unregister_client_internal-clients now client st)
      (IsKeyed-delete client st.client_models h.keyed)
      (λ k. omega (
        arith,
        count_at-unregister_client_internal now client k st,
        total-left client k st h.keyed,
        h.balanced k,
      ))

-- The client has no models yet, or registers for the provider that it has.
abbrev pub KeepsProvider : Text → Text → RegistryState → Type 0
KeepsProvider client client_provider st =
    (lookup client st.client_models ≡ none)
    ⊎ (lookup_or [] client st.client_providers ≡ to_lower client_provider)

uses_empty :
    (provider k : Text) (ids : List Text) → ltb 0 (length ids) ≡ false → uses provider k ids ≡ 0
unfolding uses
uses_empty provider k [] h = refl
uses_empty provider k (id ∷ ids) h = absurd (ground arith)

pub register_client-IsBalanced :
    (visit : ℕ → Map ℕ → Map ℕ) (now : Time) (client client_provider : Text)
    (ms : List (Option ModelInfo)) (st : RegistryState)
    → IsRange visit
    → KeepsProvider client client_provider st
    → IsBalanced st
    → IsBalanced (register_client visit now client client_provider ms st)
register_client-IsBalanced visit now client client_provider ms st range same h =
    let e = register_client-clients visit now client client_provider ms st in
    let counted = λ (k : Text).
      count_at-register_client visit range now client client_provider k ms st same
        (used-le client k st h) in
    elim (Bool-cases (ltb 0 (length (valid_ids ms)))) [
      | inl some_id ↦
          of_clients _ (entered client (valid_ids ms) (to_lower client_provider) (clients st))
            (rw some_id at e) (IsKeyed-insert client (valid_ids ms) st.client_models h.keyed)
            (λ k. omega (
              arith,
              counted k,
              total-entered client (to_lower client_provider) k (valid_ids ms) st h.keyed,
              h.balanced k,
              used-le client k st h,
            ))
      | inr no_id ↦
          of_clients _ (left client (clients st)) (rw no_id at e)
            (IsKeyed-delete client st.client_models h.keyed)
            (λ k. omega (
              arith,
              counted k,
              uses_empty (to_lower client_provider) k (valid_ids ms) no_id,
              total-left client k st h.keyed,
              h.balanced k,
            ))
    ]
