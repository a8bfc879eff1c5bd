-- ===== src/Registry/Register.antt =====
-- internal/provider/auth_registry.go: GetEntry, Get, Register, Update, Delete, Load and the schedule of refreshes,
-- whose heap and map of heap entries are one map from ids to times. `new_id` is what uuid.NewString
-- returns, `expires` the expiry that expirationFromMap finds. The counter of indices stays below 2 ^ 64.
-- The hook's call comes with the result; what the store answers to Delete is left out.
use llm_mux_fork.Prelude.{
  List, ℕ, ◌+◌, Bool, true, false, ◌&&◌, if◌then◌else◌, Option, none, some, Text, txt, is_empty, [],
  ◌∷◌, Map, map_values, lookup, insert, delete,
}
use llm_mux_fork.Clock.{Time, to_time, to_ns, is_zero}
use llm_mux_fork.Provider.Types.{Auth, ModelState}
use llm_mux_fork.Registry.Entry.{
  AuthMetadata, ModelStatesSnapshot, snapshot_of, TokenFields, AuthEntry,
}
use llm_mux_fork.Registry.Ops.{metadata_of, refresh_time, new_auth_entry, to_auth}
use llm_mux_fork.Registry.Results.{AuthRegistry, mark_dirty}

-- The registry and the times at which credentials are to be refreshed.
pub record Schedule : Type 0 where
  pub registry : AuthRegistry
  pub refreshes : Map Time

-- The call of the hook; its credential is the result.
pub data Notice : Type 0 where
  on_auth_registered on_auth_updated : Auth → Notice

unfoldable pub get_entry : Text → Schedule → Option AuthEntry
get_entry id r = if is_empty id then none else lookup id r.registry.entries

unfoldable pub get : Text → Schedule → Option Auth
unfolding get_entry
get id r = elim (get_entry id r) [ none ↦ none | some e ↦ some (to_auth e) ]

unfoldable pub has_key : Text → Map ℕ → Bool
has_key key m = elim (lookup key m) [ none ↦ false | some v ↦ true ]

unfoldable pub due_time : Time → TokenFields → Option Time
unfolding to_time refresh_time
due_time now t =
    let refresh_at = to_time t.refresh_at in
    let expires_at = to_time t.expires_at in
    if is_zero refresh_at
    then (if is_zero expires_at then none else some (refresh_time now expires_at))
    else some refresh_at

unfoldable pub scheduled_time : Time → AuthEntry → Option Time
unfolding has_key due_time
scheduled_time now e =
    if has_key (txt "access_token") e.metadata.metadata
      && has_key (txt "refresh_token") e.metadata.metadata
    then due_time now e.token
    else none

-- SetRefreshAt, where there is no time yet.
unfoldable pub with_refresh_at : Time → AuthEntry → AuthEntry
unfolding to_time to_ns
with_refresh_at at e =
    if is_zero (to_time e.token.refresh_at)
    then record e { token = record e.token { refresh_at = to_ns at } }
    else e

-- The entry is stored, and scheduleRefreshIfNeeded.
unfoldable pub put_entry : Time → Text → AuthEntry → Schedule → Schedule
unfolding scheduled_time with_refresh_at
put_entry now id e r = elim (scheduled_time now e) [
  | none ↦ record r { registry = record r.registry { entries = insert id e r.registry.entries } }
  | some at ↦ record r {
    registry = record r.registry { entries = insert id (with_refresh_at at e) r.registry.entries };
    refreshes = insert id at r.refreshes;
  }
]

unfoldable pub set_dirty : Text → Schedule → Schedule
unfolding mark_dirty
set_dirty id r = record r { registry = mark_dirty id r.registry }

-- Register, where the id is not known.
unfoldable pub add_entry : Time → Option Time → Auth → Schedule → Schedule × Option Notice
unfolding put_entry set_dirty new_auth_entry to_auth
add_entry now expires a r =
    let i = r.registry.index_counter in
    let e = new_auth_entry now expires (record a { index = i }) in
    let counted = record r { registry = record r.registry { index_counter = i + 1 } } in
    (set_dirty a.id (put_entry now a.id e counted), some (on_auth_registered (to_auth e)))

unfoldable pub update_metadata : Time → Auth → AuthMetadata → AuthMetadata
unfolding metadata_of
update_metadata now a old = record (metadata_of a) { created_at = old.created_at; updated_at = now }

unfoldable pub update_states : Map ModelState → ModelStatesSnapshot → ModelStatesSnapshot
unfolding snapshot_of
update_states [] old = old
update_states (s ∷ states) old = map_values snapshot_of (s ∷ states)

unfoldable pub update_entry : Time → Auth → AuthEntry → AuthEntry
unfolding update_metadata update_states
update_entry now a e = record e {
  metadata = update_metadata now a e.metadata;
  disabled = a.disabled;
  unavailable = a.unavailable;
  model_states = update_states a.model_states e.model_states;
}

-- Register and Update of a credential with an id: each calls the other where it does not apply.
unfoldable pub put_auth :
    Time → Option Time → Auth → Option AuthEntry → Schedule → Schedule × Option Notice
unfolding add_entry update_entry
put_auth now expires a none r = add_entry now expires a r
put_auth now expires a (some old) r =
    let e = update_entry now a old in
    (set_dirty a.id (put_entry now a.id e r), some (on_auth_updated (to_auth e)))

unfoldable pub register : Text → Time → Option Time → Auth → Schedule → Schedule × Option Notice
unfolding put_auth
register new_id now expires a r =
    let named = if is_empty a.id then record a { id = new_id } else a in
    put_auth now expires named (lookup named.id r.registry.entries) r

unfoldable pub update : Time → Option Time → Auth → Schedule → Schedule × Option Notice
unfolding put_auth
update now expires a r =
    if is_empty a.id then (r, none) else put_auth now expires a (lookup a.id r.registry.entries) r

-- Delete, with unscheduleRefresh.
unfoldable pub delete_auth : Text → Schedule → Schedule
delete_auth id r = if is_empty id then r else record r {
  registry = record r.registry { entries = delete id r.registry.entries };
  refreshes = delete id r.refreshes;
}

-- Load: one credential of the store, which gets a new entry also where its id is known.
unfoldable pub load_one : Time → Option Time → Auth → Schedule → Schedule
unfolding put_entry new_auth_entry
load_one now expires a r =
    let i = r.registry.index_counter in
    if is_empty a.id
    then r
    else put_entry now a.id (new_auth_entry now expires (record a { index = i }))
        (record r { registry = record r.registry { index_counter = i + 1 } })

-- Each credential comes with its expiry.
unfoldable pub load_all : Time → List (Auth × Option Time) → Schedule → Schedule
unfolding load_one
load_all now [] r = r
load_all now ((a, expires) ∷ items) r = load_all now items (load_one now expires a r)

-- `items` is what the store lists, or nothing where it fails or there is no store.
unfoldable pub load : Time → Option (List (Auth × Option Time)) → Schedule → Schedule
unfolding load_all
load now none r = r
load now (some items) r = load_all now items r
