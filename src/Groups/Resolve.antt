-- ===== src/Groups/Resolve.antt =====
-- internal/provider/quota_group.go: which providers group their models, and the group of a model.
-- The two global maps are the state of the registration.
use llm_mux_fork.Prelude.{
  ◌≡◌, Bool, true, false, ◌||◌, if◌then◌else◌, Option, none, some, [], Text, txt, text_eq, is_empty,
  to_lower, trim_space, Map, lookup, insert, lookup-insert, Bool-cases, inl, inr, is_empty-to_lower,
  to_lower_idem,
}
use llm_mux_fork.Groups.Family.{extract_model_family}

abbrev pub QuotaGroupResolver : Type 0
QuotaGroupResolver = Text → Text → Text

pub record Resolvers : Type 0 where
  pub by_provider : Map QuotaGroupResolver
  pub providers : Map (Unit {0})

unfoldable pub register_quota_group_resolver :
    Text → Option QuotaGroupResolver → Resolvers → Resolvers
register_quota_group_resolver provider none r = r
register_quota_group_resolver provider (some resolver) r =
    let key = to_lower (trim_space provider) in
    if is_empty key then r else record {
      by_provider = insert key resolver r.by_provider;
      providers = insert key tt r.providers;
    }

unfoldable pub is_some {ℓ} : {A : Type ℓ} → Option A → Bool
is_some none = false
is_some (some a) = true

unfoldable pub has_quota_grouping : Resolvers → Text → Bool
unfolding is_some
has_quota_grouping r provider = is_some (lookup (to_lower provider) r.providers)

unfoldable pub call_resolver : Option QuotaGroupResolver → Text → Text → Text
call_resolver none provider model = txt ""
call_resolver (some f) provider model = f provider model

unfoldable pub resolve_quota_group : Resolvers → Text → Text → Text
unfolding call_resolver
resolve_quota_group r provider model =
    if is_empty provider || is_empty model
    then txt ""
    else (let key = to_lower provider in call_resolver (lookup key r.by_provider) key model)

unfoldable pub antigravity_quota_group_resolver : QuotaGroupResolver
antigravity_quota_group_resolver provider model = extract_model_family model

-- After `init`.
unfoldable pub default_resolvers : Resolvers
unfolding register_quota_group_resolver antigravity_quota_group_resolver
default_resolvers =
    register_quota_group_resolver (txt "antigravity") (some antigravity_quota_group_resolver)
      (record { by_provider = []; providers = [] })

-- The two maps have the same keys.
abbrev pub InStep : Resolvers → Type 0
InStep r = (key : Text) → is_some (lookup key r.providers) ≡ is_some (lookup key r.by_provider)

-- However resolvers are registered, the quick test for grouping agrees with the map of resolvers.
pub register_quota_group_resolver-InStep :
    (provider : Text) (f : Option QuotaGroupResolver) (r : Resolvers)
    → InStep r
    → InStep (register_quota_group_resolver provider f r)
unfolding register_quota_group_resolver is_some
register_quota_group_resolver-InStep provider none r h key = h key
register_quota_group_resolver-InStep provider (some f) r h key =
    elim (Bool-cases (is_empty (to_lower (trim_space provider)))) [
      | inl blank ↦ rw blank (h key)
      | inr named ↦
          rw
            (
              named,
              lookup-insert (to_lower (trim_space provider)) key tt r.providers,
              lookup-insert (to_lower (trim_space provider)) key f r.by_provider,
            )
            (elim (Bool-cases (text_eq (to_lower (trim_space provider)) key)) [
              | inl same ↦ rw same
              | inr another ↦ rw another (h key)
            ])
    ]

-- The case of the letters of a provider's name does not matter to the group of a model.
pub resolve_quota_group-to_lower :
    (r : Resolvers) (provider model : Text)
    → (resolve_quota_group r (to_lower provider) model ≡ resolve_quota_group r provider model)
      × (has_quota_grouping r (to_lower provider) ≡ has_quota_grouping r provider)
unfolding resolve_quota_group has_quota_grouping
resolve_quota_group-to_lower r provider model =
    (rw (is_empty-to_lower provider, to_lower_idem provider), rw (to_lower_idem provider))
