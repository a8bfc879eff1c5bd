-- ===== src/Models/Counts.antt =====
-- internal/registry/model_registration.go: how the count of each registration changes.
use llm_mux_fork.Prelude.{
  ℕ, ◌+◌, ◌-◌, ◌≡◌, refl, leb, false, Bool-cases, inl, inr, if◌then◌else◌, Option, none, some, Text,
  text_eq, text_eq_iff, is_empty, List, [], ◌∷◌, lookup, delete, lookup-insert, lookup-delete,
  arith,
}
use llm_mux_fork.Clock.{Time}
use llm_mux_fork.Models.Types.{ModelInfo, ModelRegistration, RegistryState, provider_key}
use llm_mux_fork.Models.Index.{
  add_to_model_id_index, add_to_canonical_index, remove_from_model_id_index,
  remove_from_canonical_index,
}
use llm_mux_fork.Models.Register.{
  index_new, register_again, new_registration, add_at, add_model_registration, drop_mapping,
  drop_registration, settle, count_down, remove_model_registration, release_model, release_models,
  release_at, held_provider,
}

-- How many clients the registration under a key counts, 0 where there is none.
abbrev pub count_of : Option ModelRegistration → ℕ
count_of none = 0
count_of (some r) = r.count

unfoldable pub count_at : Text → RegistryState → ℕ
count_at key st = count_of (lookup key st.models)

-- 1 for the same key.
abbrev pub hit : Text → Text → ℕ
hit k j = if text_eq k j then 1 else 0

index_new-models :
    (id provider : Text) (m : ModelInfo) (st : RegistryState)
    → (index_new id provider m st).models ≡ st.models
unfolding index_new add_to_model_id_index add_to_canonical_index
index_new-models id provider m st = ground arith

count_at-add_at :
    (id provider k : Text) (m : ModelInfo) (now : Time) (st : RegistryState)
    (o : Option ModelRegistration)
    → lookup (provider_key provider id) st.models ≡ o
    → count_at k (add_at id provider m now o st) ≡ count_at k st + hit (provider_key provider id) k
unfolding count_at add_at
count_at-add_at id provider k m now st none e =
    rw (index_new-models, lookup-insert)
      (unfold new_registration in ground (arith, text_eq_iff (provider_key provider id) k))
count_at-add_at id provider k m now st (some r) e =
    rw lookup-insert
      (unfold register_again in ground (arith, text_eq_iff (provider_key provider id) k))

pub count_at-add_model_registration :
    (id provider k : Text) (m : ModelInfo) (now : Time) (st : RegistryState)
    → is_empty id ≡ false
    → count_at k (add_model_registration id provider (some m) now st)
      ≡ count_at k st + hit (provider_key provider id) k
unfolding add_model_registration
count_at-add_model_registration id provider k m now st h =
    rw h (count_at-add_at id provider k m now st (lookup (provider_key provider id) st.models) refl)

drop_mapping-models :
    (info : Option ModelInfo) (id : ModelInfo → Text) (provider : Text) (st : RegistryState)
    → (drop_mapping info id provider st).models ≡ st.models
unfolding drop_mapping remove_from_canonical_index
drop_mapping-models none id provider st = refl
drop_mapping-models (some m) id provider st = ground arith

drop_registration-models :
    (info : Option ModelInfo) (id : ModelInfo → Text) (model_id provider : Text)
    (st : RegistryState)
    → (drop_registration info id model_id provider st).models
      ≡ delete (provider_key provider model_id) st.models
unfolding drop_registration remove_from_model_id_index
drop_registration-models info id model_id provider st =
    ground (arith, drop_mapping-models info id provider st)

pub count_at-settle :
    (id : ModelInfo → Text) (model_id provider k : Text) (r : ModelRegistration)
    (st : RegistryState)
    → count_at k (settle id model_id provider r st)
      ≡ (if text_eq (provider_key provider model_id) k then r.count else count_at k st)
unfolding count_at settle
count_at-settle id model_id provider k r st = elim (Bool-cases (leb r.count 0)) [
  | inl gone ↦ rw (gone, drop_registration-models, lookup-delete) (ground arith)
  | inr stays ↦ rw (stays, lookup-insert) (ground arith)
]

count_at-release_at :
    (id : ModelInfo → Text) (client model_id provider k : Text) (held : Option Text) (now : Time)
    (o : Option ModelRegistration) (st : RegistryState)
    → lookup (provider_key provider model_id) st.models ≡ o
    → count_at k (release_at id client model_id provider held now o st)
      ≡ count_at k st - hit (provider_key provider model_id) k
unfolding release_at
count_at-release_at id client model_id provider k held now none st e =
    unfold count_at in ground (arith, text_eq_iff (provider_key provider model_id) k)
count_at-release_at id client model_id provider k held now (some r) st e =
    rw count_at-settle
      (unfold count_at count_down in ground (arith, text_eq_iff (provider_key provider model_id) k))

pub count_at-remove_model_registration :
    (client id provider k : Text) (now : Time) (st : RegistryState)
    → count_at k (remove_model_registration client id provider now st)
      ≡ count_at k st - hit (provider_key provider id) k
unfolding remove_model_registration
count_at-remove_model_registration client id provider k now st =
    count_at-release_at (λ _. id) client id provider k
      (if is_empty provider then none else some provider) now
      (lookup (provider_key provider id) st.models) st refl

pub count_at-release_model :
    (client id k : Text) (held : Option Text) (now : Time) (st : RegistryState)
    → count_at k (release_model client held now id st)
      ≡ count_at k st - hit (provider_key (held_provider held) id) k
unfolding release_model
count_at-release_model client id k held now st =
    count_at-release_at (λ m. m.id) client id (held_provider held) k held now
      (lookup (provider_key (held_provider held) id) st.models) st refl

-- How often a registration's key comes among the models of a client.
unfoldable pub uses : Text → Text → List Text → ℕ
uses provider k [] = 0
uses provider k (id ∷ ids) = hit (provider_key provider id) k + uses provider k ids

pub count_at-release_models :
    (client k : Text) (held : Option Text) (now : Time) (ids : List Text) (st : RegistryState)
    → count_at k (release_models client held now ids st)
      ≡ count_at k st - uses (held_provider held) k ids
unfolding release_models uses
count_at-release_models client k held now [] st = omega arith
count_at-release_models client k held now (id ∷ ids) st = omega (
  arith,
  count_at-release_models client k held now ids (release_model client held now id st),
  count_at-release_model client id k held now st,
)
