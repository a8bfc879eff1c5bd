-- ===== src/Registry/Marks.antt =====
-- internal/provider/auth_registry.go: what MarkResult does to the registry and to the counts of requests.
use llm_mux_fork.Prelude.{
  ◌-◌, ◌≡◌, refl, sym, Bool, true, false, not, ◌&&◌, if◌then◌else◌, Option, none, some, Text,
  text_eq, text_eq_iff, is_empty, List, [], ◌∷◌, ◌++◌, length, ltb, lookup, insert, lookup-insert,
  arith, Bool-cases, inl, inr,
}
use mathlib.Core.Option
use llm_mux_fork.Clock.{Time, Duration}
use llm_mux_fork.Failure.Category.{ErrorCategory}
use llm_mux_fork.Failure.Error.{Error}
use llm_mux_fork.Provider.Types.{Result}
use llm_mux_fork.Registry.Entry.{AuthEntry}
use llm_mux_fork.Registry.Ops.{decrement_active_requests, set_cooldown, clear_cooldown}
use llm_mux_fork.Registry.Results.{
  AuthRegistry, mark_dirty, update_model_state, after_category, failure_category, apply_category,
  fail_metadata, apply_auth_level_failure, handle_success_result, handle_failure_result, mark_entry,
  mark_found, mark_result, on_result,
}

after_category-active_requests :
    (off : Bool) (now : Time) (d : Option Duration) (c : ErrorCategory) (e : AuthEntry)
    → (after_category off now d c e).quota.active_requests ≡ e.quota.active_requests
unfolding after_category set_cooldown
after_category-active_requests off now d c e = ground arith

handle_failure-active_requests :
    (off : Bool) (now : Time) (model : Text) (d : Option Duration) (error : Option Error)
    (e : AuthEntry)
    → (handle_failure_result off now model d error e).quota.active_requests
      ≡ e.quota.active_requests
unfolding handle_failure_result update_model_state apply_auth_level_failure
handle_failure-active_requests off now model d error e = ground (
  arith,
  after_category-active_requests off now d (failure_category error) (record e {
    unavailable = true;
    metadata =
        apply_category off now d (failure_category error) (fail_metadata now error e.metadata);
  }),
)

handle_success-active_requests :
    (now : Time) (model : Text) (e : AuthEntry)
    → (handle_success_result now model e).0.quota.active_requests ≡ e.quota.active_requests
unfolding handle_success_result update_model_state clear_cooldown
handle_success-active_requests now model e = ground arith

-- A failure lowers the count of requests by one, and leaves a count of 0; a success leaves the count
-- as it is, whatever it is.
pub mark_entry-active_requests :
    (off : Bool) (now : Time) (r : Result) (e : AuthEntry)
    → (mark_entry off now r e).0.quota.active_requests
      ≡ (if r.success then e.quota.active_requests else e.quota.active_requests - 1)
unfolding mark_entry decrement_active_requests
mark_entry-active_requests off now r e = ground (
  arith,
  handle_success-active_requests now r.model e,
  handle_failure-active_requests off now r.model r.retry_after r.error
      (decrement_active_requests e),
)

entries-mark_dirty :
    (id : Text) (registry : AuthRegistry) → (mark_dirty id registry).entries ≡ registry.entries
unfolding mark_dirty
entries-mark_dirty id registry = ground arith

lookup-mark_found :
    (off : Bool) (now : Time) (r : Result) (registry : AuthRegistry) (id : Text)
    (o : Option AuthEntry)
    → lookup r.auth_id registry.entries ≡ o
    → lookup id (mark_found off now r registry o).0.entries ≡ (
        if text_eq r.auth_id id
        then Option.map (λ e. (mark_entry off now r e).0) (lookup id registry.entries)
        else lookup id registry.entries)
unfolding mark_found
lookup-mark_found off now r registry id none h = elim (Bool-cases (text_eq r.auth_id id)) [
  | inl same ↦ rw (same, sym ((text_eq_iff r.auth_id id).0 same), h) refl
  | inr apart ↦ rw apart refl
]
lookup-mark_found off now r registry id (some e) h =
    rw (entries-mark_dirty, lookup-insert)
      (elim (Bool-cases (text_eq r.auth_id id)) [
        | inl same ↦ rw (same, sym ((text_eq_iff r.auth_id id).0 same), h) refl
        | inr apart ↦ rw apart refl
      ])

and_false : (b : Bool) → (b && false) ≡ false
and_false b = ground arith

and_true : (b : Bool) → (b && true) ≡ b
and_true b = ground arith

-- The entry that a result names.
abbrev pub named_entry : Result → AuthRegistry → Option AuthEntry
named_entry r registry = if is_empty r.auth_id then none else lookup r.auth_id registry.entries

-- The queue of ids to persist, of at most 256, after a credential was changed.
abbrev pub queued : Text → List Text → List Text
queued id queue = if ltb (length queue) 256 then queue ++ id ∷ [] else queue

lookup-result :
    (off : Bool) (now : Time) (r : Result) (registry : AuthRegistry) (id : Text)
    → lookup id (mark_result off now r registry).0.entries ≡ (
        if text_eq r.auth_id id && not (is_empty r.auth_id)
        then Option.map (λ e. (mark_entry off now r e).0) (lookup id registry.entries)
        else lookup id registry.entries)
unfolding mark_result mark_found mark_dirty
lookup-result off now r registry id = elim (Bool-cases (is_empty r.auth_id)) [
  | inl h ↦ rw (h, and_false) refl
  | inr h ↦ rw (h, and_true) (lookup-mark_found off now r registry id _ refl)
]

mark_found_lem :
    (off : Bool) (now : Time) (r : Result) (registry : AuthRegistry) (o : Option AuthEntry)
    → mark_found off now r registry o ≡ elim o [
      | none ↦ (registry, [])
      | some e ↦ (
        record registry {
          entries = insert r.auth_id (mark_entry off now r e).0 registry.entries;
          persist_queue = queued r.auth_id registry.persist_queue;
        },
        (mark_entry off now r e).1 ++ on_result ∷ [],
      )
    ]
unfolding mark_found mark_dirty
mark_found_lem off now r registry none = refl
mark_found_lem off now r registry (some e) =
    elim (Bool-cases (ltb (length registry.persist_queue) 256)) [
      | inl room ↦ rw room refl
      | inr full ↦ rw full refl
    ]

-- A result changes the entry of its credential, by `mark_entry`, and no other; the credential is put in
-- the queue to be persisted, where there is room, and the hook is called last. A result that names no
-- credential, or one that is not registered, changes nothing and calls nothing.
pub lookup-mark_result :
    (off : Bool) (now : Time) (r : Result) (registry : AuthRegistry) (id : Text)
    → (lookup id (mark_result off now r registry).0.entries ≡ (
        if text_eq r.auth_id id && not (is_empty r.auth_id)
        then Option.map (λ e. (mark_entry off now r e).0) (lookup id registry.entries)
        else lookup id registry.entries))
      × (mark_result off now r registry ≡ elim (named_entry r registry) [
        | none ↦ (registry, [])
        | some e ↦ (
          record registry {
            entries = insert r.auth_id (mark_entry off now r e).0 registry.entries;
            persist_queue = queued r.auth_id registry.persist_queue;
          },
          (mark_entry off now r e).1 ++ on_result ∷ [],
        )
      ])
unfolding mark_result
lookup-mark_result off now r registry id = (
  lookup-result off now r registry id,
  elim (Bool-cases (is_empty r.auth_id)) [
    | inl unnamed ↦ rw unnamed refl
    | inr named ↦ rw named (mark_found_lem off now r registry (lookup r.auth_id registry.entries))
  ],
)
