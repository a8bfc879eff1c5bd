-- ===== src/Models/Untouched.antt =====
-- internal/registry/model_registration.go: the loops of RegisterClient and UnregisterClient do not touch
-- what the registry knows of its clients.
use llm_mux_fork.Prelude.{
  ℕ, zero, suc, ◌≡◌, refl, ◌∙◌, ltb, Bool, true, false, Bool-cases, inl, inr, if◌then◌else◌, Option,
  none, some, Text, is_empty, List, [], ◌∷◌, Map, lookup, lookup_or, adjust, ◌||◌, ◌==◌, ◌-◌, leb,
  arith,
}
use llm_mux_fork.Clock.{Time}
use llm_mux_fork.Models.Types.{ModelInfo, ModelRegistration, RegistryState, provider_key}
use llm_mux_fork.Models.Index.{
  add_to_model_id_index, remove_from_model_id_index, add_to_canonical_index,
  remove_from_canonical_index,
}
use llm_mux_fork.Models.Register.{
  index_new, add_at, add_model_registration, drop_mapping, drop_registration, settle, release_at,
  remove_model_registration, release_model, release_models, held_provider,
}
use llm_mux_fork.Models.Reconcile.{
  Batch, lower_provider, add_all, leave_provider, remove_times, add_times, remove_gone,
  remove_overage, add_missing, refresh_all,
}

-- What the state has of the clients.
abbrev pub clients : RegistryState → Map (List Text) × Map Text
clients st = (st.client_models, st.client_providers)

index_new-clients :
    (id provider : Text) (m : ModelInfo) (st : RegistryState)
    → clients (index_new id provider m st) ≡ clients st
unfolding index_new add_to_model_id_index add_to_canonical_index
index_new-clients id provider m st = ground arith

add_at-clients :
    (id provider : Text) (m : ModelInfo) (now : Time) (o : Option ModelRegistration)
    (st : RegistryState)
    → clients (add_at id provider m now o st) ≡ clients st
unfolding add_at
add_at-clients id provider m now none st = index_new-clients id provider m _
add_at-clients id provider m now (some r) st = refl

add_model_registration-clients :
    (id provider : Text) (m : Option ModelInfo) (now : Time) (st : RegistryState)
    → clients (add_model_registration id provider m now st) ≡ clients st
unfolding add_model_registration
add_model_registration-clients id provider none now st = refl
add_model_registration-clients id provider (some m) now st = elim (Bool-cases (is_empty id)) [
  | inl blank ↦ rw blank
  | inr named ↦
      rw named (add_at-clients id provider m now (lookup (provider_key provider id) st.models) st)
]

pub add_all-clients :
    (ids : List Text) (infos : Map ModelInfo) (provider : Text) (now : Time) (st : RegistryState)
    → clients (add_all ids infos provider now st) ≡ clients st
unfolding add_all
add_all-clients [] infos provider now st = refl
add_all-clients (id ∷ ids) infos provider now st =
    add_all-clients ids infos provider now _
    ∙ add_model_registration-clients id provider (lookup id infos) now st

add_times-clients :
    (n : ℕ) (id provider : Text) (m : Option ModelInfo) (now : Time) (st : RegistryState)
    → clients (add_times n id provider m now st) ≡ clients st
unfolding add_times
add_times-clients zero id provider m now st = refl
add_times-clients (suc n) id provider m now st =
    add_times-clients n id provider m now _ ∙ add_model_registration-clients id provider m now st

drop_mapping-clients :
    (info : Option ModelInfo) (id : ModelInfo → Text) (provider : Text) (st : RegistryState)
    → clients (drop_mapping info id provider st) ≡ clients st
unfolding drop_mapping remove_from_canonical_index
drop_mapping-clients none id provider st = refl
drop_mapping-clients (some m) id provider st = ground arith

drop_registration-clients :
    (info : Option ModelInfo) (id : ModelInfo → Text) (model_id provider : Text)
    (st : RegistryState)
    → clients (drop_registration info id model_id provider st) ≡ clients st
unfolding drop_registration remove_from_model_id_index
drop_registration-clients info id model_id provider st =
    ground (arith, drop_mapping-clients info id provider st)

settle-clients :
    (id : ModelInfo → Text) (model_id provider : Text) (r : ModelRegistration) (st : RegistryState)
    → clients (settle id model_id provider r st) ≡ clients st
unfolding settle
settle-clients id model_id provider r st =
    ground (arith, drop_registration-clients r.info id model_id provider st)

release_at-clients :
    (id : ModelInfo → Text) (client model_id provider : Text) (held : Option Text) (now : Time)
    (o : Option ModelRegistration) (st : RegistryState)
    → clients (release_at id client model_id provider held now o st) ≡ clients st
unfolding release_at
release_at-clients id client model_id provider held now none st = refl
release_at-clients id client model_id provider held now (some r) st =
    settle-clients id model_id provider _ st

release_model-clients :
    (client : Text) (held : Option Text) (now : Time) (id : Text) (st : RegistryState)
    → clients (release_model client held now id st) ≡ clients st
unfolding release_model
release_model-clients client held now id st =
    release_at-clients (λ m. m.id) client id (held_provider held) held now
      (lookup (provider_key (held_provider held) id) st.models) st

pub release_models-clients :
    (client : Text) (held : Option Text) (now : Time) (ids : List Text) (st : RegistryState)
    → clients (release_models client held now ids st) ≡ clients st
unfolding release_models
release_models-clients client held now [] st = refl
release_models-clients client held now (id ∷ ids) st =
    release_models-clients client held now ids (release_model client held now id st)
    ∙ release_model-clients client held now id st

remove_model_registration-clients :
    (client id provider : Text) (now : Time) (st : RegistryState)
    → clients (remove_model_registration client id provider now st) ≡ clients st
unfolding remove_model_registration
remove_model_registration-clients client id provider now st =
    release_at-clients (λ _. id) client id provider
      (if is_empty provider then none else some provider) now
      (lookup (provider_key provider id) st.models) st

remove_times-clients :
    (n : ℕ) (client id provider : Text) (now : Time) (st : RegistryState)
    → clients (remove_times n client id provider now st) ≡ clients st
unfolding remove_times
remove_times-clients zero client id provider now st = refl
remove_times-clients (suc n) client id provider now st =
    remove_times-clients n client id provider now
      (remove_model_registration client id provider now st)
    ∙ remove_model_registration-clients client id provider now st

pub remove_gone-clients :
    (ids : List Text) (old : Map ℕ) (client provider : Text) (now : Time) (st : RegistryState)
    → clients (remove_gone ids old client provider now st) ≡ clients st
unfolding remove_gone
remove_gone-clients [] old client provider now st = refl
remove_gone-clients (id ∷ ids) old client provider now st =
    let n = lookup_or 0 id old in
    remove_gone-clients ids old client provider now (remove_times n client id provider now st)
    ∙ remove_times-clients n client id provider now st

if_clients :
    (b : Bool) (st st' : RegistryState)
    → clients st' ≡ clients st
    → clients (if b then st else st') ≡ clients st
if_clients true st st' h = refl
if_clients false st st' h = h

pub remove_overage-clients :
    (l new : Map ℕ) (client provider : Text) (now : Time) (st : RegistryState)
    → clients (remove_overage l new client provider now st) ≡ clients st
unfolding remove_overage
remove_overage-clients [] new client provider now st = refl
remove_overage-clients ((id, m) ∷ l) new client provider now st =
    let n = lookup_or 0 id new in
    let next = remove_times (m - n) client id provider now st in
    remove_overage-clients l new client provider now (if n == 0 || leb m n then st else next)
    ∙ if_clients (n == 0 || leb m n) st next
        (remove_times-clients (m - n) client id provider now st)

pub add_missing-clients :
    (l old : Map ℕ) (infos : Map ModelInfo) (provider : Text) (now : Time) (st : RegistryState)
    → clients (add_missing l old infos provider now st) ≡ clients st
unfolding add_missing
add_missing-clients [] old infos provider now st = refl
add_missing-clients ((id, n) ∷ l) old infos provider now st =
    let m = lookup_or 0 id old in
    let next = add_times (n - m) id provider (lookup id infos) now st in
    add_missing-clients l old infos provider now (if leb n m then st else next)
    ∙ if_clients (leb n m) st next (add_times-clients (n - m) id provider (lookup id infos) now st)

pub refresh_all-clients :
    (ids : List Text) (b : Batch) (old : Map ℕ) (client provider : Text) (changed : Bool)
    (added : List Text) (now : Time) (st : RegistryState)
    → clients (refresh_all ids b old client provider changed added now st) ≡ clients st
unfolding refresh_all
refresh_all-clients [] b old client provider changed added now st = refl
refresh_all-clients (id ∷ ids) b old client provider changed added now st =
    refresh_all-clients ids b old client provider changed added now _

pub leave_provider-clients :
    (provider : Text) (old l : Map ℕ) (st : RegistryState)
    → clients (leave_provider provider old l st) ≡ clients st
unfolding leave_provider
leave_provider-clients provider old [] st = refl
leave_provider-clients provider old ((id, n) ∷ l) st =
    let m = lookup_or 0 id old in
    let next = record st {
      models = adjust (lower_provider provider (if ltb m n then m else n)) id st.models;
    } in
    leave_provider-clients provider old l (if n == 0 || m == 0 then st else next)
    ∙ if_clients (n == 0 || m == 0) st next refl
