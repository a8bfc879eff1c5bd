-- ===== src/Groups/Index.antt =====
-- internal/provider/quota_group.go: the index of the groups that are used up.
use llm_mux_fork.Prelude.{
  ◌≤◌, ◌≡◌, refl, Bool, true, false, not, ◌&&◌, ◌||◌, if◌then◌else◌, Option, none, some, [], Text,
  text_eq, text_eq_iff, is_empty, lookup, insert, delete, lookup-insert, lookup-delete, arith,
  Bool-cases, inl, inr,
}
use llm_mux_fork.Clock.{Time, zero_time, is_zero, after}
use llm_mux_fork.Provider.Types.{
  QuotaGroupState, QuotaGroupIndex, no_data, index_data, foreign_data, Runtime, no_runtime,
  bare_index, runtime_data, foreign,
}

-- `getOrCreateQuotaGroupIndex`: the index, and the runtime with the index in it.
unfoldable pub get_or_create_index : Runtime → Runtime × QuotaGroupIndex
get_or_create_index no_runtime = (runtime_data (some []) no_data, [])
get_or_create_index (runtime_data none d) = (runtime_data (some []) d, [])
get_or_create_index (runtime_data (some idx) d) = (runtime_data (some idx) d, idx)
get_or_create_index (bare_index idx) = (runtime_data (some []) (index_data idx), [])
get_or_create_index (foreign n) = (runtime_data (some []) (foreign_data n), [])

-- `getQuotaGroupIndex`
unfoldable pub get_index : Runtime → Option QuotaGroupIndex
get_index no_runtime = none
get_index (bare_index idx) = some idx
get_index (runtime_data o d) = o
get_index (foreign n) = none

-- The index is shared by a pointer: a change of it changes the runtime that holds it.
unfoldable pub put_index : QuotaGroupIndex → Runtime → Runtime
put_index idx no_runtime = no_runtime
put_index idx (bare_index old) = bare_index idx
put_index idx (runtime_data none d) = runtime_data none d
put_index idx (runtime_data (some old) d) = runtime_data (some idx) d
put_index idx (foreign n) = foreign n

unfoldable pub set_group_blocked : Text → Text → Time → Time → QuotaGroupIndex → QuotaGroupIndex
set_group_blocked group source_model next_retry next_recover idx =
    if is_empty group
    then idx
    else insert group
        (record {
          next_retry_after = next_retry;
          next_recover_at = next_recover;
          source_model = source_model;
        })
        idx

unfoldable pub clear_group : Text → QuotaGroupIndex → QuotaGroupIndex
clear_group group idx = delete group idx

-- When a group that is blocked may be tried again.
unfoldable pub group_next : Time → QuotaGroupState → Time
group_next now s =
    if not (is_zero s.next_recover_at)
      && after s.next_recover_at now
      && after s.next_recover_at s.next_retry_after
    then s.next_recover_at
    else s.next_retry_after

-- The entry that was found: the answer, and the index, where an entry that has run out is removed.
unfoldable pub group_state_blocked :
    Text → Time → QuotaGroupIndex → Option QuotaGroupState → Bool × Time × QuotaGroupIndex
unfolding group_next
group_state_blocked group now idx none = (false, zero_time, idx)
group_state_blocked group now idx (some s) =
    if after s.next_retry_after now
    then (true, group_next now s, idx)
    else if is_zero s.next_recover_at || after now s.next_recover_at
    then (false, zero_time, delete group idx)
    else (false, zero_time, idx)

unfoldable pub is_group_blocked : Text → Time → QuotaGroupIndex → Bool × Time × QuotaGroupIndex
unfolding group_state_blocked
is_group_blocked group now idx =
    if is_empty group
    then (false, zero_time, idx)
    else group_state_blocked group now idx (lookup group idx)

lookup-set_group_blocked :
    (group j model : Text) (next_retry next_recover : Time) (idx : QuotaGroupIndex)
    → is_empty group ≡ false
    → lookup j (set_group_blocked group model next_retry next_recover idx) ≡ (
        if text_eq group j
        then some (record {
          next_retry_after = next_retry;
          next_recover_at = next_recover;
          source_model = model;
        })
        else lookup j idx)
unfolding set_group_blocked
lookup-set_group_blocked group j model next_retry next_recover idx h =
    rw h (lookup-insert group j _ idx)

-- A group that was set blocked is blocked until its retry time, and no other group is touched.
pub is_group_blocked-set_group_blocked :
    (group j model : Text) (next_retry next_recover now : Time) (idx : QuotaGroupIndex)
    → is_empty group ≡ false
    → is_empty j ≡ false
    → (is_group_blocked j now (set_group_blocked group model next_retry next_recover idx)).0
      ≡ (if text_eq group j then after next_retry now else (is_group_blocked j now idx).0)
unfolding is_group_blocked
is_group_blocked-set_group_blocked group j model next_retry next_recover now idx h k =
    rw (k, lookup-set_group_blocked group j model next_retry next_recover idx h)
      (elim (Bool-cases (text_eq group j)) [
        | inl same ↦ rw same (unfold group_state_blocked in ground arith)
        | inr another ↦ rw another (answer_irrelevant (lookup j idx))
      ])
  where
    answer_irrelevant :
        (o : Option QuotaGroupState)
        → (group_state_blocked j now
            (set_group_blocked group model next_retry next_recover idx)
            o).0
          ≡ (group_state_blocked j now idx o).0
    answer_irrelevant none = unfold group_state_blocked in refl
    answer_irrelevant (some s) = unfold group_state_blocked in ground arith

-- What the index answers about a group: whether it is blocked, and until when.
abbrev pub answer : Text → Time → QuotaGroupIndex → Bool × Time
answer group now idx = let (b, t, _) = is_group_blocked group now idx in (b, t)

state_answer : Time → Option QuotaGroupState → Bool × Time
state_answer now none = (false, zero_time)
state_answer now (some s) =
    if after s.next_retry_after now then (true, group_next now s) else (false, zero_time)

answer-state_answer :
    (group : Text) (now : Time) (idx : QuotaGroupIndex)
    → answer group now idx
      ≡ (if is_empty group then (false, zero_time) else state_answer now (lookup group idx))
unfolding is_group_blocked
answer-state_answer group now idx = elim (Bool-cases (is_empty group)) [
  | inl blank ↦ rw blank
  | inr named ↦ rw named (by_state (lookup group idx))
]
  where
    by_state :
        (o : Option QuotaGroupState)
        → (let r = group_state_blocked group now idx o in
            ◌≡◌ {A = Bool × Time} (r.0, r.1) (state_answer now o))
    by_state none = unfold group_state_blocked state_answer in refl
    by_state (some s) = unfold group_state_blocked state_answer in ground arith

cleaned :
    (group j : Text) (now later : Time) (idx : QuotaGroupIndex) (o : Option QuotaGroupState)
    → now ≤ later
    → lookup group idx ≡ o
    → state_answer later (lookup j (group_state_blocked group now idx o).2)
      ≡ state_answer later (lookup j idx)
unfolding group_state_blocked
cleaned group j now later idx none h e = refl
cleaned group j now later idx (some s) h e = elim (Bool-cases (after s.next_retry_after now)) [
  | inl blocked ↦ rw blocked
  | inr open_now ↦ elim (Bool-cases (is_zero s.next_recover_at || after now s.next_recover_at)) [
    | inr kept ↦ rw (open_now, kept)
    | inl gone ↦
        rw (open_now, gone, lookup-delete)
          (unfold state_answer in ground (arith, text_eq_iff group j))
  ]
]

unseen :
    (group j : Text) (now later : Time) (idx : QuotaGroupIndex)
    → now ≤ later
    → state_answer later (lookup j (is_group_blocked group now idx).2)
      ≡ state_answer later (lookup j idx)
unfolding is_group_blocked
unseen group j now later idx h = elim (Bool-cases (is_empty group)) [
  | inl blank ↦ rw blank
  | inr named ↦ rw named (cleaned group j now later idx (lookup group idx) h refl)
]

-- The lazy removal of an entry that has run out is not seen: no group's answer changes, then or later.
pub answer-is_group_blocked :
    (group j : Text) (now later : Time) (idx : QuotaGroupIndex)
    → now ≤ later
    → answer j later (is_group_blocked group now idx).2 ≡ answer j later idx
answer-is_group_blocked group j now later idx h =
    rw
      (
        answer-state_answer j later (is_group_blocked group now idx).2,
        answer-state_answer j later idx,
      )
      (rw (unseen group j now later idx h))
