-- ===== src/Models/Marks.antt =====
-- internal/registry/model_suspension.go and model_query.go: what suspending, resuming, a quota mark
-- and the clean-up of marks do to the number of clients that serve a model.
use mathlib.Core.Option
use llm_mux_fork.Prelude.{
  ◌+◌, ◌-◌, ◌≤◌, ◌≡◌, refl, ◌∙◌, ap, false, Option, none, some, Text, text_eq_iff, is_empty, [],
  ◌∷◌, Map, lookup, insert, delete, length, lookup-insert_self, arith,
}
use llm_mux_fork.Clock.{Time}
use llm_mux_fork.Models.Types.{ModelRegistration, RegistryState}
use llm_mux_fork.Models.Find.{find_model_registration}
use llm_mux_fork.Models.Suspend.{
  suspend_client, resume_client, suspend_client_model, resume_client_model, is_expired,
  drop_expired, cleanup_registration, cleanup_expired_quotas,
}
use llm_mux_fork.Models.Query.{is_recent, count_recent, model_count, get_model_count}
use llm_mux_fork.Models.Finding.{
  find_model_registration-change_found, find_model_registration-cleanup_expired_quotas,
}

length-insert_new :
    (k v : Text) (m : Map Text) → lookup k m ≡ none → length (insert k v m) ≡ length m + 1
unfolding lookup insert
length-insert_new k v [] h = omega arith
length-insert_new k v ((j, w) ∷ m) h = ground (arith, length-insert_new k v m)

delete-insert_new : (k v : Text) (m : Map Text) → lookup k m ≡ none → delete k (insert k v m) ≡ m
unfolding lookup insert delete
delete-insert_new k v [] h = ground (arith, text_eq_iff k k)
delete-insert_new k v ((j, w) ∷ m) h = ground (arith, text_eq_iff k k, delete-insert_new k v m)

count_recent-drop_expired :
    (now later : Time) (marks : Map (Option Time))
    → now ≤ later
    → count_recent later (drop_expired now marks) ≡ count_recent later marks
unfolding count_recent drop_expired is_expired is_recent
count_recent-drop_expired now later [] h = refl
count_recent-drop_expired now later ((c, none) ∷ marks) h =
    ground (arith, count_recent-drop_expired now later marks)
count_recent-drop_expired now later ((c, some t) ∷ marks) h =
    ground (arith, count_recent-drop_expired now later marks)

model_count-cleanup :
    (now later : Time) (o : Option ModelRegistration)
    → now ≤ later
    → model_count later (Option.map (cleanup_registration now) o) ≡ model_count later o
unfolding model_count cleanup_registration
model_count-cleanup now later none h = refl
model_count-cleanup now later (some r) h =
    rw (count_recent-drop_expired now later r.quota_exceeded_clients h) refl

-- The clean-up of quota marks is not seen: neither then nor later does the number of clients that
-- serve a model change.
pub get_model_count-cleanup_expired_quotas :
    (now later : Time) (id : Text) (st : RegistryState)
    → now ≤ later
    → get_model_count later id (cleanup_expired_quotas now st) ≡ get_model_count later id st
unfolding get_model_count
get_model_count-cleanup_expired_quotas now later id st h =
    rw (find_model_registration-cleanup_expired_quotas now id st)
      (model_count-cleanup now later (find_model_registration st id) h)

resume_client-count :
    (now : Time) (client : Text) (r : ModelRegistration)
    → (resume_client now client r).count ≡ r.count
unfolding resume_client
resume_client-count now client r = ground arith

suspend_client-count :
    (now : Time) (client reason : Text) (r : ModelRegistration)
    → (suspend_client now client reason r).count ≡ r.count
unfolding suspend_client
suspend_client-count now client reason r = ground arith

-- The client and the model are named, and the model's registration does not suspend the client.
pub record IsFresh (client id : Text) (st : RegistryState) (r : ModelRegistration) : Type 0 where
  pub client_named : is_empty client ≡ false
  pub id_named : is_empty id ≡ false
  pub found : find_model_registration st id ≡ some r
  pub served : lookup client r.suspended_clients ≡ none

find-suspend_client_model :
    (now : Time) (client id reason : Text) (st : RegistryState)
    → is_empty client ≡ false
    → is_empty id ≡ false
    → find_model_registration (suspend_client_model now client id reason st) id
      ≡ Option.map (suspend_client now client reason) (find_model_registration st id)
unfolding suspend_client_model
find-suspend_client_model now client id reason st h k =
    rw (h, k)
      (find_model_registration-change_found (suspend_client now client reason) id st
        (suspend_client-count now client reason))

find-resume_client_model :
    (now : Time) (client id : Text) (st : RegistryState)
    → is_empty client ≡ false
    → is_empty id ≡ false
    → find_model_registration (resume_client_model now client id st) id
      ≡ Option.map (resume_client now client) (find_model_registration st id)
unfolding resume_client_model
find-resume_client_model now client id st h k =
    rw (h, k)
      (find_model_registration-change_found (resume_client now client) id st
        (resume_client-count now client))

suspend_client_new :
    (now : Time) (client reason : Text) (r : ModelRegistration)
    → lookup client r.suspended_clients ≡ none
    → suspend_client now client reason r ≡ record r {
      suspended_clients = insert client reason r.suspended_clients;
      last_updated = now;
    }
unfolding suspend_client
suspend_client_new now client reason r h = ground arith

resume_client_found :
    (now : Time) (client reason : Text) (r : ModelRegistration)
    → lookup client r.suspended_clients ≡ some reason
    → resume_client now client r
      ≡ record r { suspended_clients = delete client r.suspended_clients; last_updated = now }
unfolding resume_client
resume_client_found now client reason r h = ground arith

model_count-suspend_client :
    (now later : Time) (client reason : Text) (r : ModelRegistration)
    → lookup client r.suspended_clients ≡ none
    → model_count later (some (suspend_client now client reason r)) ≡ model_count later (some r) - 1
unfolding model_count
model_count-suspend_client now later client reason r h =
    rw (suspend_client_new now client reason r h)
      (omega (arith, length-insert_new client reason r.suspended_clients h))

-- Suspending a client that was not suspended takes one from the number of clients that serve the model,
-- which stops at 0.
pub get_model_count-suspend_client_model :
    (now later : Time) (client id reason : Text) (st : RegistryState) (r : ModelRegistration)
    → IsFresh client id st r
    → get_model_count later id (suspend_client_model now client id reason st)
      ≡ get_model_count later id st - 1
unfolding get_model_count
get_model_count-suspend_client_model now later client id reason st r h =
    rw (find-suspend_client_model now client id reason st h.client_named h.id_named, h.found)
      (model_count-suspend_client now later client reason r h.served)

resume_client-suspend_client :
    (now later : Time) (client reason : Text) (r : ModelRegistration)
    → lookup client r.suspended_clients ≡ none
    → resume_client later client (suspend_client now client reason r)
      ≡ record r { last_updated = later }
resume_client-suspend_client now later client reason r h =
    rw (suspend_client_new now client reason r h) (
      resume_client_found later client reason
        (record r {
          suspended_clients = insert client reason r.suspended_clients;
          last_updated = now;
        })
        (lookup-insert_self client reason r.suspended_clients)
      ∙ rw (delete-insert_new client reason r.suspended_clients h) refl)

-- Resuming a client that was suspended gives back the registration that was, but for the time of its
-- last update.
pub resume_client_model-suspend_client_model :
    (now later : Time) (client id reason : Text) (st : RegistryState) (r : ModelRegistration)
    → IsFresh client id st r
    → find_model_registration
        (resume_client_model later client id (suspend_client_model now client id reason st))
        id
      ≡ some (record r { last_updated = later })
resume_client_model-suspend_client_model now later client id reason st r h =
    rw
      (
        find-resume_client_model later client id (suspend_client_model now client id reason st)
            h.client_named h.id_named,
        find-suspend_client_model now client id reason st h.client_named h.id_named,
        h.found,
      )
      (ap some (resume_client-suspend_client now later client reason r h.served))
