-- ===== src/Models/Find.antt =====
-- internal/registry/state.go and model_indexing.go: what serves a model. A registration is found as
-- the key that it is stored under; the callers write through the pointer. `sort_by` stands for
-- sort.Slice of the standard library, with its test "less".
use llm_mux_fork.Prelude.{
  ℕ, ℤ, pos, zero, suc, ltb, ltb_ℤ, ◌==◌, Bool, false, if◌then◌else◌, Option, none, some, Text, txt,
  text_eq, List, [], ◌∷◌, ◌++◌, map, Map, lookup, lookup_or,
}
use llm_mux_fork.Models.Types.{ModelRegistration, ProviderModelMapping, RegistryState}
use llm_mux_fork.Models.Register.{or_one}

-- `reg, ok := s.models[key]; ok && reg.Count > 0`
unfoldable pub is_live : RegistryState → Text → Bool
is_live st key = elim (lookup key st.models) [ none ↦ false | some r ↦ ltb 0 r.count ]

unfoldable pub first_live : RegistryState → List Text → Option Text
unfolding is_live
first_live st [] = none
first_live st (key ∷ keys) =
    let rest = first_live st keys in if is_live st key then some key else rest

-- `m.Provider + ":" + m.ModelID`, also where the provider is empty.
unfoldable pub mapping_key : ProviderModelMapping → Text
mapping_key m = m.provider ++ (txt ":" ++ m.model_id)

-- The first place where findModelRegistration finds something.
unfoldable pub found_or : Option Text → Option ModelRegistration → Text → Option Text → Option Text
found_or (some key) own id rest = some key
found_or none (some _) id rest = some id
found_or none none id rest = rest

-- findModelRegistration
unfoldable pub find_key : RegistryState → Text → Option Text
unfolding first_live mapping_key found_or
find_key st id =
    found_or (first_live st (map mapping_key (lookup_or [] id st.canonical_index)))
      (lookup id st.models) id (first_live st (lookup_or [] id st.model_id_index))

unfoldable pub registration_at : RegistryState → Option Text → Option ModelRegistration
registration_at st none = none
registration_at st (some key) = lookup key st.models

unfoldable pub find_model_registration : RegistryState → Text → Option ModelRegistration
unfolding find_key registration_at
find_model_registration st id = registration_at st (find_key st id)

-- findColonIndex, `none` for -1.
unfoldable pub find_colon_index : Text → Option ℕ
find_colon_index [] = none
find_colon_index (c ∷ s) =
    if c == b':' then some 0 else elim (find_colon_index s) [ none ↦ none | some i ↦ some (suc i) ]

unfoldable pub take : ℕ → Text → Text
take zero s = []
take (suc n) [] = []
take (suc n) (c ∷ s) = c ∷ take n s

-- The provider of a key, where the colon is not the first letter.
unfoldable pub provider_of_key : Text → Option Text
unfolding find_colon_index take
provider_of_key key = elim (find_colon_index key) [
  | none ↦ none
  | some zero ↦ none
  | some (suc i) ↦ some (take (suc i) key)
]

unfoldable pub counted_providers : Map ℕ → List Text
counted_providers [] = []
counted_providers ((provider, count) ∷ providers) =
    let rest = counted_providers providers in if ltb 0 count then provider ∷ rest else rest

unfoldable pub live_providers : RegistryState → List Text → List Text
unfolding is_live provider_of_key
live_providers st [] = []
live_providers st (key ∷ keys) =
    let rest = live_providers st keys in
    if is_live st key
    then elim (provider_of_key key) [ none ↦ rest | some provider ↦ provider ∷ rest ]
    else rest

unfoldable pub get_model_providers_internal : RegistryState → Text → List Text
unfolding counted_providers live_providers
get_model_providers_internal st id =
    let own : List Text = elim (lookup id st.models) [
      | none ↦ []
      | some r ↦ if ltb 0 r.count then counted_providers r.providers else []
    ] in
    own ++ live_providers st (lookup_or [] id st.model_id_index)

-- The mappings of a canonical id that are live.
unfoldable pub live_mappings : RegistryState → List ProviderModelMapping → List ProviderModelMapping
unfolding is_live mapping_key
live_mappings st [] = []
live_mappings st (m ∷ ms) =
    let rest = live_mappings st ms in if is_live st (mapping_key m) then m ∷ rest else rest

unfoldable pub mapping_of : Text → Text → ProviderModelMapping
mapping_of id provider = record { provider = provider; model_id = id; priority = pos 0 }

unfoldable pub get_providers_with_model_id : RegistryState → Text → List ProviderModelMapping
unfolding live_mappings get_model_providers_internal mapping_of
get_providers_with_model_id st id = elim (live_mappings st (lookup_or [] id st.canonical_index)) [
  | m ∷ ms ↦ m ∷ ms
  | [] ↦ map (mapping_of id) (get_model_providers_internal st id)
]

unfoldable pub model_id_for : Text → Text → List ProviderModelMapping → Text
model_id_for id provider [] = id
model_id_for id provider (m ∷ ms) =
    if text_eq m.provider provider then m.model_id else model_id_for id provider ms

unfoldable pub get_model_id_for_provider : RegistryState → Text → Text → Text
unfolding model_id_for
get_model_id_for_provider st id provider =
    model_id_for id provider (lookup_or [] id st.canonical_index)

-- A provider with the priority that it is sorted by.
abbrev pub Ranked : Type 0
Ranked = Text × ℤ

unfoldable pub ranked : ProviderModelMapping → Ranked
ranked m = (m.provider, or_one m.priority)

unfoldable pub is_before : Ranked → Ranked → Bool
is_before (_, p) (_, q) = ltb_ℤ p q

module _ (sort_by : (Ranked → Ranked → Bool) → List Ranked → List Ranked) where
  unfoldable pub get_model_providers : RegistryState → Text → List Text
  unfolding live_mappings get_model_providers_internal ranked is_before
  get_model_providers st id = elim (live_mappings st (lookup_or [] id st.canonical_index)) [
    | m ∷ ms ↦ map (λ (provider, _). provider) (sort_by is_before (map ranked (m ∷ ms)))
    | [] ↦ get_model_providers_internal st id
  ]
