-- ===== src/Models/Reconcile.antt =====
-- internal/registry/model_registration.go: RegisterClient. A range over one of its maps visits the
-- keys in an order that Go leaves open: `visit n` is the order of the n-th such range.
use llm_mux_fork.Prelude.{
  ℕ, zero, suc, ◌+◌, ◌-◌, leb, ltb, ◌==◌, Bool, not, ◌&&◌, ◌||◌, if◌then◌else◌, Option, none, some,
  Text, text_eq, is_empty, to_lower, List, [], ◌∷◌, ◌++◌, Map, lookup, insert, delete, lookup_or,
  adjust, any, length,
}
use llm_mux_fork.Clock.{Time}
use llm_mux_fork.Models.Types.{ModelInfo, ModelRegistration, RegistryState}
use llm_mux_fork.Models.Register.{
  add_model_registration, remove_model_registration, unregister_client_internal, forget_client,
}

-- The models of a call: their ids as they come and without repetition, the first model of each id,
-- and how often each id comes.
pub record Batch : Type 0 where
  pub raw_ids : List Text
  pub unique_ids : List Text
  pub infos : Map ModelInfo
  pub counts : Map ℕ

abbrev pub empty_batch : Batch
empty_batch = record { raw_ids = []; unique_ids = []; infos = []; counts = [] }

unfoldable pub increment : Text → Map ℕ → Map ℕ
increment id counts = insert id (lookup_or 0 id counts + 1) counts

-- `oldCounts`, and `newCounts` within the loop over the models.
unfoldable pub count_ids : List Text → Map ℕ → Map ℕ
unfolding increment
count_ids [] counts = counts
count_ids (id ∷ ids) counts = count_ids ids (increment id counts)

unfoldable pub collect_one : Batch → Option ModelInfo → Batch
unfolding increment
collect_one b none = b
collect_one b (some m) =
    let counted = record b {
      raw_ids = b.raw_ids ++ (m.id ∷ []);
      counts = increment m.id b.counts;
    } in
    let first = record counted {
      unique_ids = b.unique_ids ++ (m.id ∷ []);
      infos = insert m.id m b.infos;
    } in
    if is_empty m.id then b else elim (lookup m.id b.infos) [ none ↦ first | some _ ↦ counted ]

unfoldable pub collect : List (Option ModelInfo) → Batch → Batch
unfolding collect_one
collect [] b = b
collect (m ∷ ms) b = collect ms (collect_one b m)

-- The loop of a client that has no models yet.
unfoldable pub add_all : List Text → Map ModelInfo → Text → Time → RegistryState → RegistryState
unfolding add_model_registration
add_all [] infos provider now st = st
add_all (id ∷ ids) infos provider now st =
    add_all ids infos provider now (add_model_registration id provider (lookup id infos) now st)

unfoldable pub set_client : Text → List Text → Text → RegistryState → RegistryState
set_client client ids provider st = record st {
  client_models = insert client ids st.client_models;
  client_providers =
      if is_empty provider
      then delete client st.client_providers
      else insert client provider st.client_providers;
}

-- The first range over newCounts: the old provider's count in the registration under the bare id.
unfoldable pub lower_provider : Text → ℕ → ModelRegistration → ModelRegistration
lower_provider provider by r = elim (lookup provider r.providers) [
  | none ↦ r
  | some count ↦ record r {
    providers =
        if leb count by
        then delete provider r.providers
        else insert provider (count - by) r.providers;
  }
]

unfoldable pub leave_provider : Text → Map ℕ → Map ℕ → RegistryState → RegistryState
unfolding lower_provider
leave_provider old_provider old [] st = st
leave_provider old_provider old ((id, n) ∷ counts) st =
    let m = lookup_or 0 id old in
    leave_provider old_provider old counts (
      if n == 0 || m == 0 then st else record st {
        models = adjust (lower_provider old_provider (if ltb m n then m else n)) id st.models;
      })

unfoldable pub remove_times : ℕ → Text → Text → Text → Time → RegistryState → RegistryState
unfolding remove_model_registration
remove_times zero client id provider now st = st
remove_times (suc n) client id provider now st =
    remove_times n client id provider now (remove_model_registration client id provider now st)

unfoldable pub add_times : ℕ → Text → Text → Option ModelInfo → Time → RegistryState → RegistryState
unfolding add_model_registration
add_times zero id provider model now st = st
add_times (suc n) id provider model now st =
    add_times n id provider model now (add_model_registration id provider model now st)

-- The ids that pass the test `fresh[id] == 0`: `added` and `removed`.
unfoldable pub missing_in : Map ℕ → List Text → List Text
missing_in counts [] = []
missing_in counts (id ∷ ids) =
    let rest = missing_in counts ids in if lookup_or 0 id counts == 0 then id ∷ rest else rest

unfoldable pub ids_of : Map ℕ → List Text
ids_of [] = []
ids_of ((id, _) ∷ counts) = id ∷ ids_of counts

unfoldable pub remove_gone : List Text → Map ℕ → Text → Text → Time → RegistryState → RegistryState
unfolding remove_times
remove_gone [] old client provider now st = st
remove_gone (id ∷ ids) old client provider now st =
    remove_gone ids old client provider now
      (remove_times (lookup_or 0 id old) client id provider now st)

-- The range over oldCounts that removes what is too much.
unfoldable pub remove_overage : Map ℕ → Map ℕ → Text → Text → Time → RegistryState → RegistryState
unfolding remove_times
remove_overage [] new client provider now st = st
remove_overage ((id, m) ∷ old) new client provider now st =
    let n = lookup_or 0 id new in
    remove_overage old new client provider now
      (if n == 0 || leb m n then st else remove_times (m - n) client id provider now st)

-- The range over newCounts that adds what is missing.
unfoldable pub add_missing :
    Map ℕ → Map ℕ → Map ModelInfo → Text → Time → RegistryState → RegistryState
unfolding add_times
add_missing [] old infos provider now st = st
add_missing ((id, n) ∷ new) old infos provider now st =
    let m = lookup_or 0 id old in
    add_missing new old infos provider now
      (if leb n m then st else add_times (n - m) id provider (lookup id infos) now st)

-- The last loop, on the registration under the bare id: what is new of the model, the client's marks
-- cleared, and the overlap counted for a new provider.
unfoldable pub refresh :
    Text → Text → Bool → Option ModelInfo → ℕ → Time → ModelRegistration → ModelRegistration
refresh client provider moves model overlap now r = record r {
  info = model;
  last_updated = now;
  quota_exceeded_clients = delete client r.quota_exceeded_clients;
  suspended_clients = delete client r.suspended_clients;
  providers =
      if moves && ltb 0 overlap
      then insert provider (lookup_or 0 provider r.providers + overlap) r.providers
      else r.providers;
}

unfoldable pub refresh_all :
    List Text
    → Batch
    → Map ℕ
    → Text
    → Text
    → Bool
    → List Text
    → Time
    → RegistryState
    → RegistryState
unfolding refresh
refresh_all [] b old client provider changed added now st = st
refresh_all (id ∷ ids) b old client provider changed added now st =
    let n = lookup_or 0 id b.counts in
    let m = lookup_or 0 id old in
    refresh_all ids b old client provider changed added now (record st {
      models =
          adjust
            (refresh client provider
              (changed && not (is_empty provider) && not (any (λ a. text_eq a id) added))
              (lookup id b.infos) (if ltb m n then m else n) now)
            id st.models;
    })

-- A client that has models: what it had is turned into what it has now.
unfoldable pub reconcile :
    (ℕ → Map ℕ → Map ℕ)
    → Time
    → Text
    → Text
    → Text
    → List Text
    → Batch
    → RegistryState
    → RegistryState
unfolding count_ids leave_provider missing_in ids_of remove_gone remove_overage add_missing
    refresh_all set_client
reconcile visit now client old_provider provider old_ids b st =
    let old = count_ids old_ids [] in
    let changed = not (text_eq old_provider provider) in
    let st1 =
      if changed && not (is_empty old_provider)
      then leave_provider old_provider old (visit 1 b.counts) st
      else st in
    let st2 =
      remove_gone (missing_in b.counts (ids_of (visit 0 old))) old client old_provider now st1 in
    let st3 = remove_overage (visit 2 old) b.counts client old_provider now st2 in
    let st4 = add_missing (visit 3 b.counts) old b.infos provider now st3 in
    set_client client b.raw_ids provider
      (refresh_all b.unique_ids b old client provider changed (missing_in old b.unique_ids) now st4)

-- A batch with models, for a client without models and for one that has some.
unfoldable pub register_named :
    (ℕ → Map ℕ → Map ℕ)
    → Time
    → Text
    → Text
    → Batch
    → Option (List Text)
    → RegistryState
    → RegistryState
unfolding add_all set_client reconcile
register_named visit now client provider b none st =
    set_client client b.raw_ids provider (add_all b.raw_ids b.infos provider now st)
register_named visit now client provider b (some ids) st =
    reconcile visit now client (lookup_or [] client st.client_providers) provider ids b st

unfoldable pub register_batch :
    (ℕ → Map ℕ → Map ℕ) → Time → Text → Text → Batch → RegistryState → RegistryState
unfolding unregister_client_internal forget_client register_named
register_batch visit now client provider b st =
    if ltb 0 (length b.unique_ids)
    then register_named visit now client provider b (lookup client st.client_models) st
    else forget_client client (unregister_client_internal now client st)

unfoldable pub register_client :
    (ℕ → Map ℕ → Map ℕ)
    → Time
    → Text
    → Text
    → List (Option ModelInfo)
    → RegistryState
    → RegistryState
unfolding register_batch collect to_lower
register_client visit now client client_provider models st =
    register_batch visit now client (to_lower client_provider) (collect models empty_batch) st
