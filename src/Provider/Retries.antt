-- ===== src/Provider/Retries.antt =====
-- internal/provider/retry.go: what the waits and the decision to retry promise.
use llm_mux_fork.Prelude.{
  ℕ, ◌+◌, ◌≤◌, ◌<◌, ◌≡◌, ◌≢◌, refl, sym, ◌∙◌, ap, ltb, ltb→lt, Bool, true, Option, none, some, List,
  [], ◌∷◌, Text, arith, In, here, there, Bool-cases, inl, inr, ◌⊎◌, any, ◌↔◌, ◌||◌, Option-cases,
}
use llm_mux_fork.Clock.{Time}
use llm_mux_fork.Failure.Category.{ErrorCategory, should_fallback}
use llm_mux_fork.Provider.Types.{Auth}
use llm_mux_fork.Groups.Resolve.{Resolvers}
use llm_mux_fork.Provider.Chances.{
  CanServe, CanWait, is_usable-CanServe, CanServe-is_usable, auth_wait-CanWait, CanWait-auth_wait,
}
use llm_mux_fork.Provider.Waits.{
  provider_set, is_usable, has_available_auth, auth_wait, shorter, min_wait, closest_cooldown_wait,
  is_found, should_retry_after_error,
}

shorter_left : (m : ℕ) (w : Option ℕ) → (k : ℕ) × (shorter (some m) w ≡ some k) × (k ≤ m)
unfolding shorter
shorter_left m none = (m, refl, omega arith)
shorter_left m (some w) = elim (Bool-cases (ltb w m)) [
  | inl less ↦ (w, rw less refl, omega (arith, ltb→lt w m less))
  | inr more ↦ (m, rw more refl, omega arith)
]

shorter_right : (b : Option ℕ) (w : ℕ) → (k : ℕ) × (shorter b (some w) ≡ some k) × (k ≤ w)
unfolding shorter
shorter_right none w = (w, refl, omega arith)
shorter_right (some m) w = elim (Bool-cases (ltb w m)) [
  | inl less ↦ (w, rw less refl, omega arith)
  | inr more ↦ (m, rw more refl, ground (arith, more))
]

shorter_cases : (b w : Option ℕ) → (shorter b w ≡ b) ⊎ (shorter b w ≡ w)
unfolding shorter
shorter_cases none w = inr refl
shorter_cases (some m) none = inl refl
shorter_cases (some m) (some w) = elim (Bool-cases (ltb w m)) [
  | inl less ↦ inr (rw less refl)
  | inr more ↦ inl (rw more refl)
]

module _ (supports : Text → Text → Bool) (resolvers : Resolvers) (now : Time) where
  min_wait_best :
      (keys : List Text) (model : Text) (m : ℕ) (best : Option ℕ) (auths : List Auth)
      → best ≡ some m
      → (k : ℕ) × (min_wait supports resolvers now keys model best auths ≡ some k) × (k ≤ m)
  unfolding min_wait
  min_wait_best keys model m best [] h = (m, h, omega arith)
  min_wait_best keys model m best (a ∷ auths) h =
      let (k, e, le) = shorter_left m (auth_wait supports resolvers now keys model a) in
      let (j, f, below) =
        min_wait_best keys model k (shorter best (auth_wait supports resolvers now keys model a))
          auths (rw h e) in
      (j, f, omega (arith, le, below))

  min_wait-In :
      (keys : List Text) (model : Text) (w : ℕ) (best : Option ℕ) (auths : List Auth) {a : Auth}
      → In a auths
      → auth_wait supports resolvers now keys model a ≡ some w
      → (k : ℕ) × (min_wait supports resolvers now keys model best auths ≡ some k) × (k ≤ w)
  unfolding min_wait
  min_wait-In keys model w best [] i h = elim i [ ]
  min_wait-In keys model w best (a ∷ auths) here h =
      let (k, e, le) = shorter_right best w in
      let (j, f, below) =
        min_wait_best keys model k (shorter best (auth_wait supports resolvers now keys model a))
          auths (rw h e) in
      (j, f, omega (arith, le, below))
  min_wait-In keys model w best (b ∷ auths) (there i) h =
      min_wait-In keys model w (shorter best (auth_wait supports resolvers now keys model b)) auths
        i h

  min_wait_from :
      (keys : List Text) (model : Text) (k : ℕ) (best : Option ℕ) (auths : List Auth)
      → min_wait supports resolvers now keys model best auths ≡ some k
      → (best ≡ some k)
        ⊎ ((b : Auth) × In b auths × (auth_wait supports resolvers now keys model b ≡ some k))
  unfolding min_wait
  min_wait_from keys model k best [] h = inl h
  min_wait_from keys model k best (a ∷ auths) h =
      elim (min_wait_from keys model k
        (shorter best (auth_wait supports resolvers now keys model a)) auths h) [
          | inr (b, i, e) ↦ inr (b, there i, e)
          | inl e ↦ elim (shorter_cases best (auth_wait supports resolvers now keys model a)) [
            | inl old ↦ inl (sym old ∙ e)
            | inr new ↦ inr (a, here, sym new ∙ e)
          ]
        ]

  -- Where a credential of the list has a wait, the manager waits for a time: the wait of a credential of
  -- the list, and no longer than that of the given one.
  pub closest_cooldown_wait_lem :
      (providers : List Text) (model : Text) (auths : List Auth) (a : Auth) (w : ℕ)
      → In a auths
      → auth_wait supports resolvers now (provider_set providers) model a ≡ some w
      → (k : ℕ) × (b : Auth) × (closest_cooldown_wait supports resolvers now providers model auths
          ≡ some k)
        × (k ≤ w)
        × In b auths
        × (auth_wait supports resolvers now (provider_set providers) model b ≡ some k)
  unfolding closest_cooldown_wait
  closest_cooldown_wait_lem providers model auths a w i h =
      let (k, e, le) = min_wait-In (provider_set providers) model w none auths i h in
      elim (min_wait_from (provider_set providers) model k none auths e) [
        | inr (b, j, f) ↦ (k, b, e, le, j, f)
        | inl never ↦ absurd (cc never)
      ]

  any-In :
      (p : Auth → Bool) (auths : List Auth) {a : Auth}
      → In a auths
      → p a ≡ true
      → any p auths ≡ true
  any-In p [] i h = elim i [ ]
  any-In p (a ∷ auths) here h = rw h refl
  any-In p (b ∷ auths) (there i) h = ground (arith, any-In p auths i h)

  any-from :
      (p : Auth → Bool) (auths : List Auth)
      → any p auths ≡ true
      → (a : Auth) × In a auths × (p a ≡ true)
  any-from p [] h = absurd (cc h)
  any-from p (a ∷ auths) h = elim (Bool-cases (p a)) [
    | inl passes ↦ (a, here, passes)
    | inr fails ↦ let (b, i, e) = any-from p auths (ground arith) in (b, there i, e)
  ]

  -- A credential of the list can be used, or can be waited for.
  abbrev pub HasChance : List Text → Text → List Auth → Type 0
  HasChance providers model auths =
      (a : Auth) × In a auths
      × (CanServe supports resolvers now providers model a
          ⊎ CanWait supports resolvers now providers model a)

  abbrev found : List Text → Text → List Auth → Bool
  found providers model auths =
      has_available_auth supports resolvers now providers model auths
      || is_found (closest_cooldown_wait supports resolvers now providers model auths)

  found-HasChance :
      (providers : List Text) (model : Text) (auths : List Auth)
      → found providers model auths ≡ true
      → HasChance providers model auths
  unfolding has_available_auth closest_cooldown_wait
  found-HasChance providers model auths h =
      elim (Bool-cases
        (any (is_usable supports resolvers now (provider_set providers) model) auths)) [
          | inl usable ↦
              let (a, i, e) =
                any-from (is_usable supports resolvers now (provider_set providers) model) auths
                  usable in
              (a, i, inl (is_usable-CanServe supports resolvers now providers model a e))
          | inr busy ↦
              elim (Option-cases
                (min_wait supports resolvers now (provider_set providers) model none auths)) [
                  | inl never ↦ absurd (unfold is_found in (ground (arith, h, busy, never)))
                  | inr (k, waits) ↦
                      elim (min_wait_from (provider_set providers) model k none auths waits) [
                        | inl nothing ↦ absurd (cc nothing)
                        | inr (b, j, e) ↦ (
                          b,
                          j,
                          inr (auth_wait-CanWait supports resolvers now providers model b k e),
                        )
                      ]
                ]
        ]

  HasChance-found :
      (providers : List Text) (model : Text) (auths : List Auth)
      → HasChance providers model auths
      → found providers model auths ≡ true
  unfolding has_available_auth is_found
  HasChance-found providers model auths (a, i, inl serves) = ground (
    arith,
    any-In (is_usable supports resolvers now (provider_set providers) model) auths i
        (CanServe-is_usable supports resolvers now providers model a serves),
  )
  HasChance-found providers model auths (a, i, inr waits) =
      let (w, e) = CanWait-auth_wait supports resolvers now providers model a waits in
      ground (arith, ap is_found (closest_cooldown_wait_lem providers model auths a w i e).2)

  should_retry_found :
      (c : ErrorCategory) (status attempt max_attempts : ℕ) (providers : List Text) (model : Text)
      (auths : List Auth)
      → (should_retry_after_error supports resolvers now
            (some (c, status))
            attempt
            max_attempts
            providers
            model
            auths
          ≡ true)
        ↔ ((attempt + 1 < max_attempts)
            × (should_fallback c ≡ true)
            × (status ≢ 200)
            × (found providers model auths ≡ true))
  unfolding should_retry_after_error
  should_retry_found c status attempt max_attempts providers model auths = ground arith

  -- After an error shouldRetryAfterError says yes where attempts are left, the error is of a kind that
  -- falls back, its status is not 200, and a credential of the list, which is not disabled, is of a
  -- provider that is asked for and supports the model where one is named, is not blocked, or is blocked
  -- until a time that is known and not over, and not for being disabled. Elsewhere it says no.
  pub should_retry_after_error_lem :
      (c : ErrorCategory) (status attempt max_attempts : ℕ) (providers : List Text) (model : Text)
      (auths : List Auth)
      → (should_retry_after_error supports resolvers now
            (some (c, status))
            attempt
            max_attempts
            providers
            model
            auths
          ≡ true)
        ↔ ((attempt + 1 < max_attempts)
            × (should_fallback c ≡ true)
            × (status ≢ 200)
            × HasChance providers model auths)
  should_retry_after_error_lem c status attempt max_attempts providers model auths =
      let (to, from) = should_retry_found c status attempt max_attempts providers model auths in
      (
        (λ h.
            let (left, falls, failed, f) = to h in
            (left, falls, failed, found-HasChance providers model auths f)),
        (λ (left, falls, failed, chance).
            from (left, falls, failed, HasChance-found providers model auths chance)),
      )
