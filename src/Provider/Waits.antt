-- ===== src/Provider/Waits.antt =====
-- internal/provider/retry.go: whether a failed request is tried again, and how long the manager waits
-- for a credential. `supports id model` is the model registry's ClientSupportsModel; `resolvers` are
-- the registered quota groups. The clean-up of a group's index inside isAuthBlockedForModel is left
-- out: it changes no answer.
use llm_mux_fork.Prelude.{
  ℕ, ◌+◌, ltb, leb, ◌==◌, pos, negsuc, Bool, true, false, not, ◌&&◌, ◌||◌, if◌then◌else◌, Option,
  none, some, List, [], ◌∷◌, Text, is_empty, to_lower, trim_space, any,
}
use llm_mux_fork.Clock.{Time, Duration, is_zero, sub}
use llm_mux_fork.Failure.Category.{ErrorCategory, should_fallback}
use llm_mux_fork.Provider.Types.{Auth, Verdict, BlockReason}
use llm_mux_fork.Provider.Names.{is_seen}
use llm_mux_fork.Groups.Resolve.{Resolvers}
use llm_mux_fork.Legacy.Blocked.{is_auth_blocked_for_model}

-- The keys of `providerSet`.
unfoldable pub provider_set : List Text → List Text
provider_set [] = []
provider_set (p ∷ providers) =
    let key = to_lower (trim_space p) in
    let rest = provider_set providers in if is_empty key then rest else key ∷ rest

unfoldable pub wait_of : Duration → Option ℕ
wait_of (pos n) = some n
wait_of (negsuc n) = none

unfoldable pub is_disabled_reason : BlockReason → Bool
is_disabled_reason BlockReason.is_disabled = true
is_disabled_reason _ = false

-- The wait of one credential, where it has one.
unfoldable pub verdict_wait : Time → Verdict → Option ℕ
unfolding wait_of is_disabled_reason
verdict_wait now v =
    if not v.blocked || is_zero v.next || is_disabled_reason v.reason
    then none
    else wait_of (sub v.next now)

-- `minWait` and `found` as one option.
unfoldable pub shorter : Option ℕ → Option ℕ → Option ℕ
shorter none w = w
shorter (some m) none = some m
shorter (some m) (some w) = if ltb w m then some w else some m

unfoldable pub is_found : Option ℕ → Bool
is_found none = false
is_found (some w) = true

module _ (supports : Text → Text → Bool) (resolvers : Resolvers) (now : Time) where
  -- The three tests that the loops begin with.
  unfoldable pub is_candidate : List Text → Text → Auth → Bool
  unfolding is_seen
  is_candidate keys model a =
      not a.disabled
      && is_seen (to_lower (trim_space a.provider)) keys
      && (is_empty (trim_space model) || supports a.id (trim_space model))

  unfoldable pub is_usable : List Text → Text → Auth → Bool
  unfolding is_candidate
  is_usable keys model a =
      is_candidate keys model a && not (is_auth_blocked_for_model resolvers a model now).0.blocked

  unfoldable pub has_available_auth : List Text → Text → List Auth → Bool
  unfolding is_usable provider_set
  has_available_auth providers model auths = any (is_usable (provider_set providers) model) auths

  unfoldable pub auth_wait : List Text → Text → Auth → Option ℕ
  unfolding is_candidate verdict_wait
  auth_wait keys model a =
      if is_candidate keys model a
      then verdict_wait now (is_auth_blocked_for_model resolvers a model now).0
      else none

  unfoldable pub min_wait : List Text → Text → Option ℕ → List Auth → Option ℕ
  unfolding auth_wait shorter
  min_wait keys model best [] = best
  min_wait keys model best (a ∷ auths) =
      min_wait keys model (shorter best (auth_wait keys model a)) auths

  unfoldable pub closest_cooldown_wait : List Text → Text → List Auth → Option ℕ
  unfolding min_wait provider_set
  closest_cooldown_wait providers model auths = min_wait (provider_set providers) model none auths

  -- `shouldRetryAfterError`, for an error by its category and status; no error is `none`.
  unfoldable pub should_retry_after_error :
      Option (ErrorCategory × ℕ) → ℕ → ℕ → List Text → Text → List Auth → Bool
  unfolding has_available_auth closest_cooldown_wait is_found
  should_retry_after_error none attempt max_attempts providers model auths = false
  should_retry_after_error (some (c, status)) attempt max_attempts providers model auths =
      if leb max_attempts (attempt + 1)
      then false
      else if not (should_fallback c)
      then false
      else if status == 200
      then false
      else if has_available_auth providers model auths
      then true
      else is_found (closest_cooldown_wait providers model auths)
