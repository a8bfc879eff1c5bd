-- ===== src/Tests/Registration.antt =====
-- Concrete calls of Register, Update and Delete of internal/provider/auth_registry.go.
use llm_mux_fork.Prelude.{
  ◌+◌, ◌≡◌, refl, false, if◌then◌else◌, none, some, List, [], ◌∷◌, txt, text_eq, is_empty, lookup,
}
use llm_mux_fork.Clock.{hour, minute}
use llm_mux_fork.Tests.Samples.{now, sample_auth}
use llm_mux_fork.Provider.Types.{Auth}
use llm_mux_fork.Registry.Entry.{AuthEntry}
use llm_mux_fork.Registry.Ops.{new_auth_entry}
use llm_mux_fork.Registry.Register.{Schedule, update}
use llm_mux_fork.Registry.Registered.{IsRegistry}
use llm_mux_fork.Registry.Calls.{
  Op, register_op, update_op, delete_op, load_op, run, run-IsRegistry,
}
use llm_mux_fork.Registry.Updated.{IsUpdated, update-IsUpdated}

abbrev empty_registry : Schedule
empty_registry = record {
  registry = record { entries = []; persist_queue = []; index_counter = 0 };
  refreshes = [];
}

empty_registry-IsRegistry : IsRegistry empty_registry
unfolding lookup
empty_registry-IsRegistry = record {
  named = λ j e h. cc;
  below = λ j e h. cc;
  apart = λ i j e f h k same. cc;
  kept = λ j t h. cc;
}

abbrev token_auth : Auth
token_auth = record sample_auth {
  metadata = (txt "access_token", 1) ∷ (txt "refresh_token", 2) ∷ [];
}

abbrev renamed : Auth
renamed = record token_auth { label = txt "second" }

-- Two credentials, one of which gets its id here; the first is updated and loaded again, and the
-- other deleted.
abbrev calls : List Op
calls =
    register_op (txt "x") now (some (now + hour)) token_auth
    ∷ register_op (txt "x") now none (record token_auth { id = txt "" })
    ∷ update_op (now + minute) none renamed
    ∷ load_op now (some ((token_auth, none) ∷ []))
    ∷ delete_op (txt "x")
    ∷ []

run-IsRegistry_example : IsRegistry (run calls empty_registry)
run-IsRegistry_example = run-IsRegistry calls empty_registry empty_registry-IsRegistry

abbrev entry : AuthEntry
entry = new_auth_entry now (some (now + hour)) token_auth

abbrev one_entry : Schedule
one_entry = record {
  registry = record { entries = (txt "a", entry) ∷ []; persist_queue = []; index_counter = 2 };
  refreshes = [];
}

entry_known : lookup (txt "a") one_entry.registry.entries ≡ some entry
unfolding lookup text_eq
entry_known = refl

entry_named : is_empty (txt "a") ≡ false
unfolding is_empty
entry_named = refl

update-IsUpdated_example :
    (e : AuthEntry) × (lookup
        (txt "b")
        (update (now + minute) none renamed one_entry).0.registry.entries
      ≡ (if text_eq (txt "a") (txt "b")
          then some e
          else lookup (txt "b") one_entry.registry.entries))
    × IsUpdated (now + minute) renamed entry e
update-IsUpdated_example =
    update-IsUpdated (now + minute) none renamed entry one_entry (txt "b") entry_named entry_known
