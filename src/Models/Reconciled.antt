-- ===== src/Models/Reconciled.antt =====
-- internal/registry/model_registration.go: RegisterClient turns the uses that a client had of each
-- registration into those that it has now.
use mathlib.Core.Option
use llm_mux_fork.Prelude.{
  ℕ, zero, suc, ◌+◌, ◌-◌, ◌≡◌, refl, ◌∙◌, ap, leb, ◌==◌, ◌||◌, not, Bool, true, false,
  if◌then◌else◌, Option, none, some, Text, text_eq, is_empty, List, [], ◌∷◌, Map, lookup, lookup_or,
  adjust, lookup-adjust, All, arith,
}
use llm_mux_fork.Clock.{Time}
use llm_mux_fork.Models.Types.{ModelInfo, ModelRegistration, RegistryState, provider_key}
use llm_mux_fork.Models.Register.{add_model_registration, remove_model_registration}
use llm_mux_fork.Models.Reconcile.{
  Batch, remove_times, add_times, remove_gone, missing_in, ids_of, remove_overage, add_missing,
  refresh, refresh_all,
}
use llm_mux_fork.Models.Counts.{
  count_of, count_at, count_at-add_model_registration, count_at-remove_model_registration,
}
use llm_mux_fork.Models.Batches.{IsListed}
use llm_mux_fork.Models.Weights.{weight, share, is_id, id_of_key, text_eq-provider_key}

count_at-remove_times :
    (n : ℕ) (client id provider k : Text) (now : Time) (st : RegistryState)
    → count_at k (remove_times n client id provider now st)
      ≡ count_at k st - (if text_eq (provider_key provider id) k then n else 0)
unfolding remove_times
count_at-remove_times zero client id provider k now st = ground arith
count_at-remove_times (suc n) client id provider k now st = ground (
  arith,
  count_at-remove_times n client id provider k now
      (remove_model_registration client id provider now st),
  count_at-remove_model_registration client id provider k now st,
)

count_at-add_times :
    (n : ℕ) (id provider k : Text) (m : ModelInfo) (now : Time) (st : RegistryState)
    → is_empty id ≡ false
    → count_at k (add_times n id provider (some m) now st)
      ≡ count_at k st + (if text_eq (provider_key provider id) k then n else 0)
unfolding add_times
count_at-add_times zero id provider k m now st h = ground arith
count_at-add_times (suc n) id provider k m now st h = ground (
  arith,
  count_at-add_times n id provider k m now (add_model_registration id provider (some m) now st) h,
  count_at-add_model_registration id provider k m now st h,
)

-- What each of the three loops takes away or adds, for the id j.
abbrev pub gone_by : Map ℕ → Map ℕ → Text → ℕ → ℕ
gone_by new old j n = if lookup_or 0 j new == 0 then lookup_or 0 j old else 0

abbrev pub over_by : Map ℕ → Text → ℕ → ℕ
over_by new j m =
    if lookup_or 0 j new == 0 || leb m (lookup_or 0 j new) then 0 else m - lookup_or 0 j new

abbrev pub short_by : Map ℕ → Text → ℕ → ℕ
short_by old j n = if leb n (lookup_or 0 j old) then 0 else n - lookup_or 0 j old

-- One round of a loop that removes, which a test may skip.
remove_round :
    (skip : Bool) (n : ℕ) (client id provider k : Text) (now : Time) (st : RegistryState)
    → count_at k (if skip then st else remove_times n client id provider now st)
      ≡ count_at k st - (if is_id (id_of_key provider k) id then (if skip then 0 else n) else 0)
remove_round true n client id provider k now st = ground arith
remove_round false n client id provider k now st =
    rw (← text_eq-provider_key provider k id) (count_at-remove_times n client id provider k now st)

remove_gone_step :
    (gone : Bool) (id : Text) (ids : List Text) (old : Map ℕ) (client provider : Text) (now : Time)
    (st : RegistryState)
    → remove_gone (if gone then id ∷ ids else ids) old client provider now st
      ≡ remove_gone ids old client provider now
          (if not gone then st else remove_times (lookup_or 0 id old) client id provider now st)
unfolding remove_gone
remove_gone_step true id ids old client provider now st = refl
remove_gone_step false id ids old client provider now st = refl

pub count_at-remove_gone :
    (new old l : Map ℕ) (client provider k : Text) (now : Time) (st : RegistryState)
    → count_at k (remove_gone (missing_in new (ids_of l)) old client provider now st)
      ≡ count_at k st - weight (share (id_of_key provider k) (gone_by new old)) l
unfolding weight missing_in ids_of
count_at-remove_gone new old [] client provider k now st = unfold remove_gone in omega arith
count_at-remove_gone new old ((id, n) ∷ l) client provider k now st =
    let gone = lookup_or 0 id new == 0 in
    let next =
      if not gone then st else remove_times (lookup_or 0 id old) client id provider now st in
    ap (count_at k)
      (remove_gone_step gone id (missing_in new (ids_of l)) old client provider now st)
    ∙ ground (
      arith,
      count_at-remove_gone new old l client provider k now next,
      remove_round (not gone) (lookup_or 0 id old) client id provider k now st,
    )

pub count_at-remove_overage :
    (new l : Map ℕ) (client provider k : Text) (now : Time) (st : RegistryState)
    → count_at k (remove_overage l new client provider now st)
      ≡ count_at k st - weight (share (id_of_key provider k) (over_by new)) l
unfolding weight remove_overage
count_at-remove_overage new [] client provider k now st = omega arith
count_at-remove_overage new ((id, m) ∷ l) client provider k now st =
    let n = lookup_or 0 id new in
    let skip = n == 0 || leb m n in
    let next = if skip then st else remove_times (m - n) client id provider now st in
    omega (
      arith,
      count_at-remove_overage new l client provider k now next,
      remove_round skip (m - n) client id provider k now st,
    )

add_round :
    (skip : Bool) (n : ℕ) (id provider k : Text) (infos : Map ModelInfo) (now : Time)
    (st : RegistryState)
    → IsListed infos id
    → count_at k (if skip then st else add_times n id provider (lookup id infos) now st)
      ≡ count_at k st + (if is_id (id_of_key provider k) id then (if skip then 0 else n) else 0)
add_round true n id provider k infos now st h = ground arith
add_round false n id provider k infos now st h =
    rw (h.found, ← text_eq-provider_key provider k id)
      (count_at-add_times n id provider k h.info now st h.named)

pub count_at-add_missing :
    (old l : Map ℕ) (infos : Map ModelInfo) (provider k : Text) (now : Time) (st : RegistryState)
    → All (λ x. IsListed infos x.0) l
    → count_at k (add_missing l old infos provider now st)
      ≡ count_at k st + weight (share (id_of_key provider k) (short_by old)) l
unfolding weight add_missing
count_at-add_missing old [] infos provider k now st h = omega arith
count_at-add_missing old ((id, n) ∷ l) infos provider k now st h =
    let m = lookup_or 0 id old in
    let skip = leb n m in
    let next = if skip then st else add_times (n - m) id provider (lookup id infos) now st in
    omega (
      arith,
      count_at-add_missing old l infos provider k now next h.1,
      add_round skip (n - m) id provider k infos now st h.0,
    )

pub count_of-map :
    (f : ModelRegistration → ModelRegistration) (o : Option ModelRegistration)
    → ((r : ModelRegistration) → (f r).count ≡ r.count)
    → count_of (Option.map f o) ≡ count_of o
count_of-map f none h = refl
count_of-map f (some r) h = h r

-- A write that keeps the count of a registration keeps all counts.
pub count_at-adjust :
    (f : ModelRegistration → ModelRegistration) (id k : Text) (st : RegistryState)
    → ((r : ModelRegistration) → (f r).count ≡ r.count)
    → count_at k (record st { models = adjust f id st.models }) ≡ count_at k st
unfolding count_at
count_at-adjust f id k st h =
    rw lookup-adjust (ground (arith, count_of-map f (lookup k st.models) h))

pub count_at-refresh_all :
    (ids : List Text) (b : Batch) (old : Map ℕ) (client provider k : Text) (changed : Bool)
    (added : List Text) (now : Time) (st : RegistryState)
    → count_at k (refresh_all ids b old client provider changed added now st) ≡ count_at k st
unfolding refresh_all
count_at-refresh_all [] b old client provider k changed added now st = refl
count_at-refresh_all (id ∷ ids) b old client provider k changed added now st =
    count_at-refresh_all ids b old client provider k changed added now _
    ∙ count_at-adjust _ id k st (λ r. unfold refresh in refl)
