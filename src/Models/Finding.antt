-- ===== src/Models/Finding.antt =====
-- internal/registry/state.go: findModelRegistration looks at the counts alone.
use mathlib.Core.Option
use mathlib.Core.Path.{ap₂}
use llm_mux_fork.Clock.{Time}
use llm_mux_fork.Prelude.{
  ℕ, ◌≡◌, refl, ◌∙◌, ap, Option, none, some, Text, text_eq_refl, List, [], ◌∷◌, map, Map, lookup,
  lookup_or, lookup-adjust, lookup-map_values, arith,
}
use llm_mux_fork.Models.Types.{ModelRegistration, ProviderModelMapping, RegistryState}
use llm_mux_fork.Models.Find.{
  is_live, first_live, mapping_key, found_or, find_key, registration_at, find_model_registration,
}
use llm_mux_fork.Models.Suspend.{change_found, cleanup_registration, cleanup_expired_quotas}

-- What matters of what stands under a key: nothing, or a count.
abbrev count_seen : Option ModelRegistration → Option ℕ
count_seen = Option.map (λ r. r.count)

is_live-count_seen :
    (st st' : RegistryState) (key : Text)
    → count_seen (lookup key st'.models) ≡ count_seen (lookup key st.models)
    → is_live st' key ≡ is_live st key
unfolding is_live
is_live-count_seen st st' key h = ground arith

-- The states have the same indices and the same counts under the same keys.
pub record AreAlike (st' st : RegistryState) : Type 0 where
  pub canonical : st'.canonical_index ≡ st.canonical_index
  pub by_id : st'.model_id_index ≡ st.model_id_index
  pub seen : (key : Text) → count_seen (lookup key st'.models) ≡ count_seen (lookup key st.models)

first_live-AreAlike :
    (st st' : RegistryState) (keys : List Text)
    → AreAlike st' st
    → first_live st' keys ≡ first_live st keys
unfolding first_live
first_live-AreAlike st st' [] h = refl
first_live-AreAlike st st' (key ∷ keys) h =
    rw (is_live-count_seen st st' key (h.seen key), first_live-AreAlike st st' keys h) refl

found_or-count_seen :
    (o rest : Option Text) (own own' : Option ModelRegistration) (id : Text)
    → count_seen own' ≡ count_seen own
    → found_or o own' id rest ≡ found_or o own id rest
unfolding found_or
found_or-count_seen (some key) rest own own' id h = refl
found_or-count_seen none rest none none id h = refl
found_or-count_seen none rest none (some r) id h = cc
found_or-count_seen none rest (some r) none id h = cc
found_or-count_seen none rest (some r) (some r') id h = refl

pub find_key-AreAlike :
    (st st' : RegistryState) (id : Text) → AreAlike st' st → find_key st' id ≡ find_key st id
unfolding find_key
find_key-AreAlike st st' id h =
    let keys = λ (idx : Map (List ProviderModelMapping)). map mapping_key (lookup_or [] id idx) in
    let e =
      first_live-AreAlike st st' (keys st'.canonical_index) h
      ∙ ap (λ idx. first_live st (keys idx)) h.canonical in
    let e' =
      first_live-AreAlike st st' (lookup_or [] id st'.model_id_index) h
      ∙ ap (λ idx. first_live st (lookup_or [] id idx)) h.by_id in
    ap₂ (λ o rest. found_or o (lookup id st'.models) id rest) e e'
    ∙ found_or-count_seen _ _ (lookup id st.models) (lookup id st'.models) id (h.seen id)

count_seen-map :
    (f : ModelRegistration → ModelRegistration) (o : Option ModelRegistration)
    → ((r : ModelRegistration) → (f r).count ≡ r.count)
    → count_seen (Option.map f o) ≡ count_seen o
count_seen-map f none h = refl
count_seen-map f (some r) h = ap some (h r)

change_found-AreAlike :
    (f : ModelRegistration → ModelRegistration) (o : Option Text) (st : RegistryState)
    → ((r : ModelRegistration) → (f r).count ≡ r.count)
    → AreAlike (change_found f o st) st
unfolding change_found
change_found-AreAlike f none st h = record { canonical = refl; by_id = refl; seen = λ k. refl }
change_found-AreAlike f (some key) st h = record {
  canonical = refl;
  by_id = refl;
  seen = λ k. rw lookup-adjust (ground (arith, count_seen-map f (lookup k st.models) h));
}

registration_at-change_found :
    (f : ModelRegistration → ModelRegistration) (o : Option Text) (st : RegistryState)
    → registration_at (change_found f o st) o ≡ Option.map f (registration_at st o)
unfolding change_found registration_at
registration_at-change_found f none st = refl
registration_at-change_found f (some key) st = rw (lookup-adjust, text_eq_refl) refl

-- A write that keeps the counts is found again under the same id, and nothing else changes there.
pub find_model_registration-change_found :
    (f : ModelRegistration → ModelRegistration) (id : Text) (st : RegistryState)
    → ((r : ModelRegistration) → (f r).count ≡ r.count)
    → find_model_registration (change_found f (find_key st id) st) id
      ≡ Option.map f (find_model_registration st id)
unfolding find_model_registration
find_model_registration-change_found f id st h =
    let st' = change_found f (find_key st id) st in
    ap (registration_at st')
      (find_key-AreAlike st st' id (change_found-AreAlike f (find_key st id) st h))
    ∙ registration_at-change_found f (find_key st id) st

cleanup_expired_quotas-AreAlike :
    (now : Time) (st : RegistryState) → AreAlike (cleanup_expired_quotas now st) st
unfolding cleanup_expired_quotas
cleanup_expired_quotas-AreAlike now st = record {
  canonical = refl;
  by_id = refl;
  seen = λ k. rw lookup-map_values (
      count_seen-map (cleanup_registration now) (lookup k st.models)
        (λ r. unfold cleanup_registration in refl));
}

registration_at-cleanup_expired_quotas :
    (now : Time) (st : RegistryState) (o : Option Text)
    → registration_at (cleanup_expired_quotas now st) o
      ≡ Option.map (cleanup_registration now) (registration_at st o)
unfolding registration_at cleanup_expired_quotas
registration_at-cleanup_expired_quotas now st none = refl
registration_at-cleanup_expired_quotas now st (some key) = rw lookup-map_values refl

pub find_model_registration-cleanup_expired_quotas :
    (now : Time) (id : Text) (st : RegistryState)
    → find_model_registration (cleanup_expired_quotas now st) id
      ≡ Option.map (cleanup_registration now) (find_model_registration st id)
unfolding find_model_registration
find_model_registration-cleanup_expired_quotas now id st =
    ap (registration_at (cleanup_expired_quotas now st)) (
      find_key-AreAlike st (cleanup_expired_quotas now st) id
        (cleanup_expired_quotas-AreAlike now st))
    ∙ registration_at-cleanup_expired_quotas now st (find_key st id)
