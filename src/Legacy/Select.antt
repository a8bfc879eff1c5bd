-- ===== src/Legacy/Select.antt =====
-- internal/provider/selector.go: RoundRobinSelector.Pick. `sort_by` stands for sort.Slice. `now` is the
-- time that the credentials are tested at, `clock` the one that the sticky store reads. A map or a store
-- that is nil is made empty by the code. The clean-up of the index of groups inside
-- isAuthBlockedForModel is left out: it changes no answer.
use llm_mux_fork.Prelude.{
  ℕ, ◌+◌, ◌%◌, ltb, leb, ltb_ℤ, pos, Bool, true, false, not, ◌&&◌, ◌||◌, if◌then◌else◌, Option,
  none, some, Text, txt, text_eq, text_less, List, [], ◌∷◌, ◌++◌, length, get_elem?, Map, lookup_or,
  insert,
}
use llm_mux_fork.Clock.{Time, Duration, zero_time, is_zero, before, sub}
use llm_mux_fork.Provider.Types.{Auth, BlockReason, Verdict}
use llm_mux_fork.Groups.Resolve.{Resolvers}
use llm_mux_fork.Legacy.Blocked.{is_auth_blocked_for_model}
use llm_mux_fork.Sticky.Store.{StickyStore, get_key, set_key}

pub record RoundRobinSelector : Type 0 where
  pub cursors : Map ℕ
  pub sticky : StickyStore

-- A credential, a wait (modelCooldownError), or an error with a code.
pub data Outcome : Type 0 where
  selected : Auth → Outcome
  cooling_down : Text → Text → Duration → Outcome
  refused : Text → Outcome

abbrev pub verdict_on : Resolvers → Text → Time → Auth → Verdict
verdict_on resolvers model now a = (is_auth_blocked_for_model resolvers a model now).0

unfoldable pub available_auths : Resolvers → Text → Time → List Auth → List Auth
available_auths resolvers model now [] = []
available_auths resolvers model now (a ∷ auths) =
    let rest = available_auths resolvers model now auths in
    if (verdict_on resolvers model now a).blocked then rest else a ∷ rest

unfoldable pub is_timed : BlockReason → Bool
is_timed BlockReason.cooldown = true
is_timed BlockReason.other = true
is_timed _ = false

-- The earliest time at which a credential that is blocked for a time may be used.
unfoldable pub earliest_next : Resolvers → Text → Time → List Auth → Time → Time
unfolding is_timed
earliest_next resolvers model now [] earliest = earliest
earliest_next resolvers model now (a ∷ auths) earliest =
    let v = verdict_on resolvers model now a in
    earliest_next resolvers model now auths (
      if v.blocked
        && is_timed v.reason
        && not (is_zero v.next)
        && (is_zero earliest || before v.next earliest)
      then v.next
      else earliest)

-- The error where no credential is available.
unfoldable pub no_auth : Text → Text → Time → Time → Outcome
no_auth provider model now earliest =
    let reset_in = sub earliest now in
    if is_zero earliest
    then refused (txt "auth_unavailable")
    else cooling_down model provider (if ltb_ℤ reset_in (pos 0) then pos 0 else reset_in)

unfoldable pub find_id : Text → List Auth → Option Auth
find_id id [] = none
find_id id (a ∷ auths) = if text_eq a.id id then some a else find_id id auths

-- The credential that the sticky store names, if it is available.
unfoldable pub sticky_auth : Option Text → List Auth → Option Auth
unfolding find_id
sticky_auth none auths = none
sticky_auth (some id) auths = find_id id auths

abbrev pub cursor_limit : ℕ
cursor_limit = 1_000_000_000

unfoldable pub cursor_of : Text → RoundRobinSelector → ℕ
unfolding lookup_or
cursor_of key s =
    let index = lookup_or 0 key s.cursors in if leb cursor_limit index then 0 else index

unfoldable pub remember :
    Time → Text → Option Auth → RoundRobinSelector → RoundRobinSelector × Outcome
unfolding set_key
remember clock key none s = (s, refused (txt "auth_unavailable"))
remember clock key (some a) s = (record s { sticky = set_key clock key a.id s.sticky }, selected a)

-- The turn of the cursor. The list is not empty.
unfoldable pub rotate : Time → Text → List Auth → RoundRobinSelector → RoundRobinSelector × Outcome
unfolding cursor_of remember
rotate clock key auths s =
    let index = cursor_of key s in
    remember clock key (get_elem? auths (index % length auths))
      (record s { cursors = insert key (index + 1) s.cursors })

unfoldable pub or_rotate :
    Time → Text → List Auth → RoundRobinSelector → Option Auth → RoundRobinSelector × Outcome
unfolding rotate
or_rotate clock key auths s none = rotate clock key auths s
or_rotate clock key auths s (some a) = (s, selected a)

unfoldable pub pick_among :
    Time → Text → Bool → List Auth → RoundRobinSelector → RoundRobinSelector × Outcome
unfolding or_rotate sticky_auth get_key
pick_among clock key force_rotate auths s =
    let found = get_key clock key s.sticky in
    if force_rotate
    then rotate clock key auths s
    else or_rotate clock key auths (record s { sticky = found.0 }) (sticky_auth found.1 auths)

abbrev pub pick_key : Text → Text → Text
pick_key provider model = provider ++ (txt ":" ++ model)

abbrev pub by_id : Auth → Auth → Bool
by_id a b = text_less a.id b.id

module _ (sort_by : (Auth → Auth → Bool) → List Auth → List Auth) where
  -- sort.Slice by the ids, where there is more than one.
  unfoldable pub in_id_order : List Auth → List Auth
  in_id_order auths = if ltb 1 (length auths) then sort_by by_id auths else auths

  unfoldable pub pick_ready :
      Time → Text → Bool → List Auth → Outcome → RoundRobinSelector → RoundRobinSelector × Outcome
  unfolding pick_among in_id_order
  pick_ready clock key force_rotate [] otherwise s = (s, otherwise)
  pick_ready clock key force_rotate (a ∷ auths) otherwise s =
      pick_among clock key force_rotate (in_id_order (a ∷ auths)) s

  unfoldable pub pick :
      Resolvers
      → Time
      → Time
      → Text
      → Text
      → Bool
      → List Auth
      → RoundRobinSelector
      → RoundRobinSelector × Outcome
  unfolding pick_ready available_auths earliest_next no_auth
  pick resolvers now clock provider model force_rotate [] s = (s, refused (txt "auth_not_found"))
  pick resolvers now clock provider model force_rotate (a ∷ auths) s =
      pick_ready clock (pick_key provider model) force_rotate
        (available_auths resolvers model now (a ∷ auths))
        (no_auth provider model now (earliest_next resolvers model now (a ∷ auths) zero_time)) s
