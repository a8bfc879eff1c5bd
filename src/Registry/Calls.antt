-- ===== src/Registry/Calls.antt =====
-- internal/provider/auth_registry.go: what Register, Update, Delete and Load keep true of the registry.
use llm_mux_fork.Prelude.{
  Bool-cases, inl, inr, if◌then◌else◌, Option, none, some, Text, is_empty, List, [], ◌∷◌,
}
use llm_mux_fork.Clock.{Time}
use llm_mux_fork.Provider.Types.{Auth}
use llm_mux_fork.Registry.Register.{Schedule, register, update, delete_auth, load}
use llm_mux_fork.Registry.Registered.{
  IsRegistry, put_auth-IsRegistry, delete-IsSound, load_all-IsRegistry,
}

-- The calls that change which credentials there are.
pub data Op : Type 0 where
  register_op : Text → Time → Option Time → Auth → Op
  update_op : Time → Option Time → Auth → Op
  delete_op : Text → Op
  load_op : Time → Option (List (Auth × Option Time)) → Op

unfoldable pub apply : Op → Schedule → Schedule
unfolding register update delete_auth load
apply (register_op new_id now expires a) r = (register new_id now expires a r).0
apply (update_op now expires a) r = (update now expires a r).0
apply (delete_op id) r = delete_auth id r
apply (load_op now items) r = load now items r

unfoldable pub run : List Op → Schedule → Schedule
unfolding apply
run [] r = r
run (o ∷ os) r = run os (apply o r)

apply-IsRegistry : (o : Op) (r : Schedule) → IsRegistry r → IsRegistry (apply o r)
unfolding apply register update delete_auth load
apply-IsRegistry (register_op new_id now expires a) r s =
    put_auth-IsRegistry now expires (if is_empty a.id then record a { id = new_id } else a) r s
apply-IsRegistry (update_op now expires a) r s = elim (Bool-cases (is_empty a.id)) [
  | inl unnamed ↦ rw (apply, update, unnamed) s
  | inr named ↦ rw (apply, update, named) (put_auth-IsRegistry now expires a r s)
]
apply-IsRegistry (delete_op id) r s = elim (Bool-cases (is_empty id)) [
  | inl unnamed ↦ rw (apply, delete_auth, unnamed) s
  | inr named ↦
      rw (apply, delete_auth, named)
        (delete-IsSound r.registry.index_counter r.registry.entries r.refreshes id s)
]
apply-IsRegistry (load_op now none) r s = s
apply-IsRegistry (load_op now (some items)) r s = load_all-IsRegistry now items r s

-- Whatever is registered, updated, deleted and loaded, in whatever order: each entry stands under its id, its
-- index is below the counter, no two entries have one index, and a refresh is scheduled for entries
-- alone, where that was so at the start.
pub run-IsRegistry : (os : List Op) (r : Schedule) → IsRegistry r → IsRegistry (run os r)
unfolding run
run-IsRegistry [] r s = s
run-IsRegistry (o ∷ os) r s = run-IsRegistry os (apply o r) (apply-IsRegistry o r s)
