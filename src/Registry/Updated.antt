-- ===== src/Registry/Updated.antt =====
-- internal/provider/auth_registry.go: what Update changes of the registry and what it leaves.
use llm_mux_fork.Prelude.{
  ◌≡◌, refl, ◌∙◌, ap, false, if◌then◌else◌, inl, inr, Option, none, some, Option-cases, Text,
  text_eq, is_empty, [], ◌∷◌, length, ◌==◌, Map, lookup, lookup-map_values, insert, lookup-insert,
  arith,
}
use mathlib.Core.Option
use llm_mux_fork.Clock.{Time}
use llm_mux_fork.Failure.Error.{clone_error}
use llm_mux_fork.Provider.Types.{Auth, ModelState}
use llm_mux_fork.Registry.Entry.{ModelStatesSnapshot, snapshot_of, AuthEntry}
use llm_mux_fork.Registry.Ops.{metadata_of}
use llm_mux_fork.Registry.Results.{mark_dirty}
use llm_mux_fork.Registry.Register.{
  Schedule, scheduled_time, with_refresh_at, put_entry, set_dirty, update_metadata, update_states,
  update_entry, put_auth, update,
}

set_dirty-entries :
    (id : Text) (r : Schedule) → (set_dirty id r).registry.entries ≡ r.registry.entries
unfolding set_dirty mark_dirty
set_dirty-entries id r = ground arith

-- The entry as it is stored, with the time of its refresh.
unfoldable stored : Time → AuthEntry → AuthEntry
stored now e = elim (scheduled_time now e) [ none ↦ e | some at ↦ with_refresh_at at e ]

put_entry-entries :
    (now : Time) (id : Text) (e : AuthEntry) (r : Schedule)
    → (put_entry now id e r).registry.entries ≡ insert id (stored now e) r.registry.entries
unfolding put_entry stored
put_entry-entries now id e r = elim (Option-cases (scheduled_time now e)) [
  | inl never ↦ rw (put_entry, stored, never) refl
  | inr (at, due) ↦ rw (put_entry, stored, due) refl
]

lookup-update :
    (now : Time) (expires : Option Time) (a : Auth) (old : AuthEntry) (r : Schedule) (j : Text)
    → is_empty a.id ≡ false
    → lookup a.id r.registry.entries ≡ some old
    → lookup j (update now expires a r).0.registry.entries ≡ (
        if text_eq a.id j
        then some (stored now (update_entry now a old))
        else lookup j r.registry.entries)
unfolding update
lookup-update now expires a old r j named known =
    rw (update, named, known)
      (unfold put_auth in
        ap (lookup j) (
          set_dirty-entries a.id (put_entry now a.id (update_entry now a old) r)
          ∙ put_entry-entries now a.id (update_entry now a old) r)
        ∙ lookup-insert a.id j (stored now (update_entry now a old)) r.registry.entries)

-- What an update leaves of an entry, and what it takes from the credential.
pub record IsUpdated (now : Time) (a : Auth) (old e : AuthEntry) : Type 0 where
  pub quota_kept : e.quota ≡ old.quota
  pub index_kept : e.index ≡ old.index
  pub provider_kept : e.provider ≡ old.provider
  pub expiry_kept : e.token.expires_at ≡ old.token.expires_at
  pub metadata_taken : e.metadata ≡ record {
    label = a.label;
    status = a.status;
    status_message = a.status_message;
    proxy_url = a.proxy_url;
    attributes = a.attributes;
    metadata = a.metadata;
    last_error = clone_error a.last_error;
    created_at = old.metadata.created_at;
    updated_at = now;
    material_version = a.material_version;
    last_refreshed_at = a.last_refreshed_at;
    next_refresh_after = a.next_refresh_after;
    next_retry_after = a.next_retry_after;
    storage = a.storage;
    file_name = a.file_name;
    runtime = a.runtime;
  }
  pub states_taken :
      (model : Text)
      → lookup model e.model_states ≡ (
          if length a.model_states == 0
          then lookup model old.model_states
          else Option.map snapshot_of (lookup model a.model_states))
  pub flags_taken : (e.disabled ≡ a.disabled) × (e.unavailable ≡ a.unavailable)

lookup-update_states :
    (model : Text) (states : Map ModelState) (old : ModelStatesSnapshot)
    → lookup model (update_states states old) ≡ (
        if length states == 0
        then lookup model old
        else Option.map snapshot_of (lookup model states))
unfolding update_states
lookup-update_states model [] old = refl
lookup-update_states model (s ∷ states) old =
    ground (arith, lookup-map_values snapshot_of model (s ∷ states))

with_refresh_at-IsUpdated :
    (now at : Time) (a : Auth) (old e : AuthEntry)
    → IsUpdated now a old e
    → IsUpdated now a old (with_refresh_at at e)
unfolding with_refresh_at
with_refresh_at-IsUpdated now at a old e u = record {
  quota_kept = ground (arith, u.quota_kept);
  index_kept = ground (arith, u.index_kept);
  provider_kept = ground (arith, u.provider_kept);
  expiry_kept = ground (arith, u.expiry_kept);
  metadata_taken = ground (arith, u.metadata_taken);
  states_taken = λ model. ground (arith, u.states_taken model);
  flags_taken = ground (arith, u.flags_taken);
}

stored-IsUpdated :
    (now : Time) (a : Auth) (old : AuthEntry)
    → IsUpdated now a old (stored now (update_entry now a old))
unfolding stored
stored-IsUpdated now a old = by_time (scheduled_time now (update_entry now a old))
  where
    fresh : IsUpdated now a old (update_entry now a old)
    fresh =
        unfold update_entry update_metadata metadata_of in
        record {
          quota_kept = refl;
          index_kept = refl;
          provider_kept = refl;
          expiry_kept = refl;
          metadata_taken = refl;
          states_taken = λ model. lookup-update_states model a.model_states old.model_states;
          flags_taken = (refl, refl);
        }

    by_time :
        (o : Option Time)
        → IsUpdated now a old (elim o [
          | none ↦ update_entry now a old
          | some at ↦ with_refresh_at at (update_entry now a old)
        ])
    by_time none = fresh
    by_time (some at) = with_refresh_at-IsUpdated now at a old (update_entry now a old) fresh

-- Update of a registered credential changes no other entry; of its own it takes over the metadata,
-- the two flags and, where there are any, the states of models, of which it keeps the old ones where
-- there are none; it leaves the date of creation, the provider, the index, the request count, the
-- cooldown and the expiry of the token.
pub update-IsUpdated :
    (now : Time) (expires : Option Time) (a : Auth) (old : AuthEntry) (r : Schedule) (j : Text)
    → is_empty a.id ≡ false
    → lookup a.id r.registry.entries ≡ some old
    → (e : AuthEntry) × (lookup j (update now expires a r).0.registry.entries
        ≡ (if text_eq a.id j then some e else lookup j r.registry.entries))
      × IsUpdated now a old e
update-IsUpdated now expires a old r j named known = (
  stored now (update_entry now a old),
  lookup-update now expires a old r j named known,
  stored-IsUpdated now a old,
)
