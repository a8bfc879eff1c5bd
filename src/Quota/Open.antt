-- ===== src/Quota/Open.antt =====
-- internal/provider/quota_manager.go: filterAvailable keeps the credentials that are open, and all of them.
use llm_mux_fork.Prelude.{
  ◌*◌, ◌≡◌, refl, sym, subst, leb, ltb_ℤ, pos, Bool, true, false, not, ◌&&◌, ◌||◌, Bool-cases, inl,
  inr, if◌then◌else◌, Option, none, some, Text, List, [], ◌∷◌, Map, lookup, In, here, there, uncons,
  arith,
}
use llm_mux_fork.Clock.{Time, sub, before, minute}
use llm_mux_fork.Provider.Types.{Auth}
use llm_mux_fork.Groups.Resolve.{Resolvers}
use llm_mux_fork.Legacy.Blocked.{is_auth_blocked_for_model}
use llm_mux_fork.Quota.State.{AuthQuotaState, RealQuotaSnapshot}
use llm_mux_fork.Quota.Manager.{
  get_cooldown_until, real_availability, state_availability, check_availability, is_available,
  filter_available,
}

-- A snapshot of less than five minutes ago says that at most 2% are left.
abbrev pub is_spent : Time → Option RealQuotaSnapshot → Bool
is_spent clock none = false
is_spent clock (some q) =
    ltb_ℤ (sub clock q.fetched_at) (pos (5 * minute)) && leb q.remaining_fraction 20_000

-- A state in cooldown, or one that is spent.
abbrev pub is_closed : Time → Time → Option AuthQuotaState → Bool
is_closed now clock none = false
is_closed now clock (some s) = before now (get_cooldown_until s) || is_spent clock s.real_quota

-- A credential that may be picked.
pub record IsOpen (resolvers : Resolvers) (states : Map AuthQuotaState) (model : Text)
    (now clock : Time) (a : Auth) : Type 0 where
  pub on : a.disabled ≡ false
  pub unblocked : (is_auth_blocked_for_model resolvers a model now).0.blocked ≡ false
  pub ready : is_closed now clock (lookup a.id states) ≡ false

real_availability_lem :
    (clock : Time) (o : Option RealQuotaSnapshot)
    → is_available (real_availability clock o) ≡ not (is_spent clock o)
unfolding real_availability is_available
real_availability_lem clock none = refl
real_availability_lem clock (some q) = ground arith

state_availability_lem :
    (now clock : Time) (o : Option AuthQuotaState)
    → is_available (state_availability now clock o) ≡ not (is_closed now clock o)
unfolding state_availability is_available
state_availability_lem now clock none = refl
state_availability_lem now clock (some s) = elim (Bool-cases (before now (get_cooldown_until s))) [
  | inl cold ↦ rw cold refl
  | inr warm ↦ rw warm (real_availability_lem clock s.real_quota)
]

check_availability_lem :
    (resolvers : Resolvers) (o : Option AuthQuotaState) (a : Auth) (model : Text) (now clock : Time)
    → is_available (check_availability resolvers o a model now clock) ≡ (
        not (is_auth_blocked_for_model resolvers a model now).0.blocked
        && not (is_closed now clock o))
unfolding check_availability
check_availability_lem resolvers o a model now clock =
    elim (Bool-cases (is_auth_blocked_for_model resolvers a model now).0.blocked) [
      | inl blocked ↦ rw blocked (unfold is_available in refl)
      | inr unblocked ↦ rw unblocked (state_availability_lem now clock o)
    ]

two_tests {ℓ} :
    {A : Type ℓ} (x y : A) (off ready : Bool)
    → (if off then y else if ready then x else y) ≡ (if not off && ready then x else y)
two_tests x y true ready = refl
two_tests x y false ready = refl

module _ (resolvers : Resolvers) (states : Map AuthQuotaState) (model : Text)
    (now clock : Time) where
  is_open : Auth → Bool
  is_open a =
      not a.disabled
      && (not (is_auth_blocked_for_model resolvers a model now).0.blocked
          && not (is_closed now clock (lookup a.id states)))

  is_open-IsOpen : (a : Auth) → is_open a ≡ true → IsOpen resolvers states model now clock a
  unfolding is_open
  is_open-IsOpen a h = record {
    on = ground (arith, h);
    unblocked = ground (arith, h);
    ready = ground (arith, h);
  }

  IsOpen-is_open : (a : Auth) → IsOpen resolvers states model now clock a → is_open a ≡ true
  unfolding is_open
  IsOpen-is_open a o = rw (o.ready, o.unblocked, o.on) refl

  filter_none : filter_available resolvers states model now clock [] ≡ []
  unfolding filter_available
  filter_none = refl

  filter_one :
      (a : Auth) (auths : List Auth)
      → filter_available resolvers states model now clock (a ∷ auths) ≡ (
          if is_open a
          then a ∷ filter_available resolvers states model now clock auths
          else filter_available resolvers states model now clock auths)
  unfolding filter_available is_open
  filter_one a auths =
      rw (filter_available, check_availability_lem resolvers (lookup a.id states) a model now clock)
        (two_tests _ _ a.disabled _)

  pub filter-IsOpen :
      (auths : List Auth) (a : Auth)
      → In a (filter_available resolvers states model now clock auths)
      → In a auths × IsOpen resolvers states model now clock a
  filter-IsOpen [] a i = elim (rw filter_none at i) [ ]
  filter-IsOpen (b ∷ auths) a i = elim (Bool-cases (is_open b)) [
    | inl free ↦ elim (uncons (rw (filter_one b auths, free) at i)) [
      | inl e ↦
          subst (λ c. In c (b ∷ auths) × IsOpen resolvers states model now clock c) (sym e)
            (here, is_open-IsOpen b free)
      | inr j ↦ let (k, o) = filter-IsOpen auths a j in (there k, o)
    ]
    | inr closed ↦
        let (k, o) = filter-IsOpen auths a (rw (filter_one b auths, closed) at i) in (there k, o)
  ]

  pub IsOpen-filter :
      (auths : List Auth) (a : Auth)
      → In a auths
      → IsOpen resolvers states model now clock a
      → In a (filter_available resolvers states model now clock auths)
  IsOpen-filter [] a i o = elim i [ ]
  IsOpen-filter (b ∷ auths) a here o = rw (filter_one b auths, IsOpen-is_open b o) here
  IsOpen-filter (b ∷ auths) a (there i) o = elim (Bool-cases (is_open b)) [
    | inl free ↦ rw (filter_one b auths, free) (there (IsOpen-filter auths a i o))
    | inr closed ↦ rw (filter_one b auths, closed) (IsOpen-filter auths a i o)
  ]
