-- ===== src/Provider/Chances.antt =====
-- internal/provider/retry.go: which credentials hasAvailableAuth and closestCooldownWait count.
use llm_mux_fork.Prelude.{
  ℕ, leb, ◌-◌, ◌≤◌, ◌≡◌, ◌≢◌, refl, subst, Bool, true, false, not, ◌||◌, Bool-cases, inl, inr, some,
  List, [], ◌∷◌, Text, text_eq, text_eq_refl, text_eq_iff, is_empty, to_lower, trim_space, In, here,
  there, arith,
}
use llm_mux_fork.Clock.{Time, is_zero, sub}
use llm_mux_fork.Provider.Types.{Auth, Verdict, BlockReason}
use llm_mux_fork.Provider.Names.{is_seen}
use llm_mux_fork.Groups.Resolve.{Resolvers}
use llm_mux_fork.Legacy.Blocked.{is_auth_blocked_for_model}
use llm_mux_fork.Provider.Waits.{
  provider_set, wait_of, is_disabled_reason, verdict_wait, is_candidate, is_usable, auth_wait,
}

-- A name is asked for: it is not blank, and it is one of the list in lower case and trimmed.
abbrev pub IsAsked : List Text → Text → Type 0
IsAsked providers key =
    (is_empty key ≡ false) × (p : Text) × In p providers × (to_lower (trim_space p) ≡ key)

IsAsked-cons :
    (p key : Text) (providers : List Text) → IsAsked providers key → IsAsked (p ∷ providers) key
IsAsked-cons p key providers (named, q, i, e) = (named, q, there i, e)

is_seen-IsAsked :
    (providers : List Text) (key : Text)
    → is_seen key (provider_set providers) ≡ true
    → IsAsked providers key
unfolding provider_set is_seen
is_seen-IsAsked [] key h = absurd (cc h)
is_seen-IsAsked (p ∷ providers) key h = elim (Bool-cases (is_empty (to_lower (trim_space p)))) [
  | inl blank ↦ IsAsked-cons p key providers (is_seen-IsAsked providers key (rw blank at h))
  | inr named ↦ elim (Bool-cases (text_eq (to_lower (trim_space p)) key)) [
    | inl same ↦
        let e = (text_eq_iff (to_lower (trim_space p)) key).0 same in
        (subst (λ k. is_empty k ≡ false) e named, p, here, e)
    | inr another ↦
        IsAsked-cons p key providers (is_seen-IsAsked providers key (rw (named, another) at h))
  ]
]

IsAsked-is_seen :
    (providers : List Text) (key p : Text)
    → is_empty key ≡ false
    → In p providers
    → to_lower (trim_space p) ≡ key
    → is_seen key (provider_set providers) ≡ true
unfolding provider_set is_seen
IsAsked-is_seen [] key p named i e = elim i [ ]
IsAsked-is_seen (q ∷ providers) key p named here e = rw (e, named, text_eq_refl) refl
IsAsked-is_seen (q ∷ providers) key p named (there i) e =
    let ih = IsAsked-is_seen providers key p named i e in
    elim (Bool-cases (is_empty (to_lower (trim_space q)))) [
      | inl blank ↦ rw blank ih
      | inr kept ↦ rw kept (ground (arith, ih))
    ]

-- A credential that may be used again at a time that is known.
abbrev pub IsTimed : Time → Verdict → Type 0
IsTimed now v =
    (v.blocked ≡ true) × (v.next ≢ 0) × (v.reason ≢ BlockReason.is_disabled) × (now ≤ v.next)

reason_other : (r : BlockReason) → r ≢ BlockReason.is_disabled → is_disabled_reason r ≡ false
unfolding is_disabled_reason
reason_other BlockReason.none_given h = refl
reason_other BlockReason.cooldown h = refl
reason_other BlockReason.is_disabled h = absurd (h refl)
reason_other BlockReason.other h = refl

reason_not : (r : BlockReason) → is_disabled_reason r ≡ false → r ≢ BlockReason.is_disabled
unfolding is_disabled_reason
reason_not r h e = cc

wait_of-le : (t now w : ℕ) → wait_of (sub t now) ≡ some w → now ≤ t
unfolding wait_of
wait_of-le t now w h = elim (Bool-cases (leb now t)) [
  | inl late ↦ ground arith
  | inr early ↦ absurd (cc (rw early at h))
]

wait_of_late : (t now : ℕ) → now ≤ t → (w : ℕ) × (wait_of (sub t now) ≡ some w)
unfolding wait_of
wait_of_late t now h = let late : leb now t ≡ true = ground arith in (t - now, rw late refl)

verdict_wait-IsTimed : (now w : ℕ) (v : Verdict) → verdict_wait now v ≡ some w → IsTimed now v
unfolding verdict_wait
verdict_wait-IsTimed now w v h =
    elim (Bool-cases (not v.blocked || is_zero v.next || is_disabled_reason v.reason)) [
      | inl never ↦ absurd (cc (rw never at h))
      | inr timed ↦ (
        ground (arith, timed),
        ground (arith, timed),
        reason_not v.reason (ground (arith, timed)),
        wait_of-le v.next now w (rw timed at h),
      )
    ]

IsTimed-verdict_wait :
    (now : Time) (v : Verdict) → IsTimed now v → (w : ℕ) × (verdict_wait now v ≡ some w)
unfolding verdict_wait
IsTimed-verdict_wait now v (blocked, set, on, late) =
    let timed : (not v.blocked || is_zero v.next || is_disabled_reason v.reason) ≡ false =
      ground (arith, blocked, set, reason_other v.reason on) in
    rw timed (wait_of_late v.next now late)

module _ (supports : Text → Text → Bool) (resolvers : Resolvers) (now : Time) where
  -- A credential that a request for these providers and this model may be given at all.
  pub record IsCandidate (providers : List Text) (model : Text) (a : Auth) : Type 0 where
    pub on : a.disabled ≡ false
    pub asked : IsAsked providers (to_lower (trim_space a.provider))
    pub supported : (is_empty (trim_space model) || supports a.id (trim_space model)) ≡ true

  is_candidate-IsCandidate :
      (providers : List Text) (model : Text) (a : Auth)
      → is_candidate supports resolvers now (provider_set providers) model a ≡ true
      → IsCandidate providers model a
  unfolding is_candidate
  is_candidate-IsCandidate providers model a h = record {
    on = ground (arith, h);
    asked = is_seen-IsAsked providers (to_lower (trim_space a.provider)) (ground (arith, h));
    supported = ground (arith, h);
  }

  IsCandidate-is_candidate :
      (providers : List Text) (model : Text) (a : Auth)
      → IsCandidate providers model a
      → is_candidate supports resolvers now (provider_set providers) model a ≡ true
  unfolding is_candidate
  IsCandidate-is_candidate providers model a c =
      let (named, p, i, e) = c.asked in
      ground (arith, c.on, c.supported, IsAsked-is_seen providers _ p named i e)

  -- A credential that can be used now.
  abbrev pub CanServe : List Text → Text → Auth → Type 0
  CanServe providers model a =
      IsCandidate providers model a
      × ((is_auth_blocked_for_model resolvers a model now).0.blocked ≡ false)

  -- A credential that can be waited for.
  abbrev pub CanWait : List Text → Text → Auth → Type 0
  CanWait providers model a =
      IsCandidate providers model a
      × IsTimed now (is_auth_blocked_for_model resolvers a model now).0

  pub is_usable-CanServe :
      (providers : List Text) (model : Text) (a : Auth)
      → is_usable supports resolvers now (provider_set providers) model a ≡ true
      → CanServe providers model a
  unfolding is_usable
  is_usable-CanServe providers model a h =
      (is_candidate-IsCandidate providers model a (ground (arith, h)), ground (arith, h))

  pub CanServe-is_usable :
      (providers : List Text) (model : Text) (a : Auth)
      → CanServe providers model a
      → is_usable supports resolvers now (provider_set providers) model a ≡ true
  unfolding is_usable
  CanServe-is_usable providers model a (c, free) =
      ground (arith, IsCandidate-is_candidate providers model a c, free)

  pub auth_wait-CanWait :
      (providers : List Text) (model : Text) (a : Auth) (w : ℕ)
      → auth_wait supports resolvers now (provider_set providers) model a ≡ some w
      → CanWait providers model a
  unfolding auth_wait
  auth_wait-CanWait providers model a w h =
      elim (Bool-cases (is_candidate supports resolvers now (provider_set providers) model a)) [
        | inl fits ↦ (
          is_candidate-IsCandidate providers model a fits,
          verdict_wait-IsTimed now w _ (rw fits at h),
        )
        | inr unfit ↦ absurd (cc (rw unfit at h))
      ]

  pub CanWait-auth_wait :
      (providers : List Text) (model : Text) (a : Auth)
      → CanWait providers model a
      → (w : ℕ) × (auth_wait supports resolvers now (provider_set providers) model a ≡ some w)
  unfolding auth_wait
  CanWait-auth_wait providers model a (c, timed) =
      rw (IsCandidate-is_candidate providers model a c) (IsTimed-verdict_wait now _ timed)
