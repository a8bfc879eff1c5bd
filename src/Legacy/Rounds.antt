-- ===== src/Legacy/Rounds.antt =====
-- internal/provider/selector.go: RoundRobinSelector.Pick goes round.
use llm_mux_fork.Prelude.{
  ℕ, zero, suc, ◌+◌, ◌%◌, ◌<◌, ◌≡◌, ◌≢◌, refl, ◌∙◌, ap, Bool, true, false, not, Bool-cases, inl,
  inr, ◌↔◌, ltb, keep, In, IsAscending, IsSort, IsAt-lt, Option, none, some, Text, text_less, List,
  [], ◌∷◌, length, get_elem?, lookup_or, insert, lookup-insert_self, arith,
}
use llm_mux_fork.Clock.{Time, zero_time}
use llm_mux_fork.Provider.Types.{Auth}
use llm_mux_fork.Groups.Resolve.{Resolvers}
use llm_mux_fork.Legacy.Select.{
  RoundRobinSelector, selected, verdict_on, available_auths, earliest_next, no_auth, cursor_limit,
  cursor_of, remember, rotate, pick_among, pick_key, in_id_order, pick_ready, pick,
}
use llm_mux_fork.Legacy.Turns.{
  In-filled, available_auths-In, In-available_auths, in_id_order-In, length-in_id_order,
}

-- The order of the credentials by their ids.
abbrev pub id_before : Auth → Auth → Bool
id_before a b = text_less a.id b.id

In-length {ℓ} : {A : Type ℓ} {a : A} (xs : List A) → In a xs → 0 < length xs
In-length [] i = elim i [ ]
In-length (x ∷ xs) i = omega arith

available_auths-length :
    (resolvers : Resolvers) (model : Text) (now : Time) (auths : List Auth)
    → length (available_auths resolvers model now auths)
      ≡ length (keep (λ c. not (verdict_on resolvers model now c).blocked) auths)
unfolding available_auths
available_auths-length resolvers model now [] = refl
available_auths-length resolvers model now (a ∷ auths) =
    let ih = available_auths-length resolvers model now auths in
    elim (Bool-cases (verdict_on resolvers model now a).blocked) [
      | inl blocked ↦ rw blocked ih
      | inr free ↦ rw free (ap suc ih)
    ]

module _ (sort_by : (Auth → Auth → Bool) → List Auth → List Auth) where
  -- The selector after a number of forced picks.
  pub after_picks :
      Resolvers → Time → Text → Text → List Auth → ℕ → RoundRobinSelector → RoundRobinSelector
  after_picks resolvers now provider model auths zero s = s
  after_picks resolvers now provider model auths (suc n) s =
      after_picks resolvers now provider model auths n
        (pick sort_by resolvers now now provider model true auths s).0

  -- One forced pick: the place of the cursor is selected, and the cursor moves on.
  rotate_lem :
      (clock : Time) (key : Text) (auths : List Auth) (s : RoundRobinSelector) (a : Auth)
      → get_elem? auths (cursor_of key s % length auths) ≡ some a
      → (rotate clock key auths s).1 ≡ selected a
  unfolding rotate
  rotate_lem clock key auths s a e = rw e (unfold remember in refl)

  remember-cursor_of :
      (clock : Time) (key : Text) (o : Option Auth) (s : RoundRobinSelector)
      → cursor_of key (remember clock key o s).0 ≡ cursor_of key s
  unfolding remember cursor_of
  remember-cursor_of clock key none s = refl
  remember-cursor_of clock key (some a) s = refl

  cursor_of-insert :
      (key : Text) (n : ℕ) (s : RoundRobinSelector)
      → n < cursor_limit
      → cursor_of key (record s { cursors = insert key n s.cursors }) ≡ n
  unfolding cursor_of lookup_or
  cursor_of-insert key n s h = ground (arith, lookup-insert_self key n s.cursors)

  rotate-cursor_of :
      (clock : Time) (key : Text) (auths : List Auth) (s : RoundRobinSelector)
      → cursor_of key s + 1 < cursor_limit
      → cursor_of key (rotate clock key auths s).0 ≡ cursor_of key s + 1
  unfolding rotate
  rotate-cursor_of clock key auths s h =
      remember-cursor_of clock key (get_elem? auths (cursor_of key s % length auths)) _
      ∙ cursor_of-insert key (cursor_of key s + 1) s h

  -- A forced pick, where a credential is available, is a turn of the cursor.
  forced :
      (resolvers : Resolvers) (now : Time) (provider model : Text) (auths : List Auth)
      (s : RoundRobinSelector)
      → available_auths resolvers model now auths ≢ []
      → pick sort_by resolvers now now provider model true auths s
        ≡ rotate now
            (pick_key provider model)
            (in_id_order sort_by (available_auths resolvers model now auths))
            s
  unfolding pick
  forced resolvers now provider model [] s ne = absurd (ne (unfold available_auths in refl))
  forced resolvers now provider model (a ∷ auths) s ne =
      ready (available_auths resolvers model now (a ∷ auths)) ne
    where
      ready :
          (xs : List Auth)
          → xs ≢ []
          → pick_ready sort_by now
              (pick_key provider model)
              true
              xs
              (no_auth provider model now (earliest_next resolvers model now (a ∷ auths) zero_time))
              s
            ≡ rotate now (pick_key provider model) (in_id_order sort_by xs) s
      ready [] n = absurd (n refl)
      ready (x ∷ xs) n = unfold pick_ready pick_among in refl

  after_picks-cursor_of :
      (resolvers : Resolvers) (now : Time) (provider model : Text) (auths : List Auth) (n : ℕ)
      (s : RoundRobinSelector)
      → available_auths resolvers model now auths ≢ []
      → cursor_of (pick_key provider model) s + n < cursor_limit
      → cursor_of (pick_key provider model) (after_picks resolvers now provider model auths n s)
        ≡ cursor_of (pick_key provider model) s + n
  unfolding after_picks
  after_picks-cursor_of resolvers now provider model auths zero s ne h = omega arith
  after_picks-cursor_of resolvers now provider model auths (suc n) s ne h =
      let key = pick_key provider model in
      let next = (pick sort_by resolvers now now provider model true auths s).0 in
      let moved : cursor_of key next ≡ cursor_of key s + 1 =
        ap (λ r. cursor_of key r.0) (forced resolvers now provider model auths s ne)
        ∙ rotate-cursor_of now key _ s (omega arith) in
      after_picks-cursor_of resolvers now provider model auths n next ne (omega arith) ∙ omega arith

  -- The credentials that are not blocked, in the order of a round.
  abbrev pub turn_order : Resolvers → Text → Time → List Auth → List Auth
  turn_order resolvers model now auths =
      in_id_order sort_by (available_auths resolvers model now auths)

  turn :
      (resolvers : Resolvers) (now : Time) (provider model : Text) (auths : List Auth) (n : ℕ)
      (s : RoundRobinSelector) (a : Auth)
      → available_auths resolvers model now auths ≢ []
      → cursor_of (pick_key provider model) s + n < cursor_limit
      → get_elem? (turn_order resolvers model now auths) (
          (cursor_of (pick_key provider model) s + n)
          % length (turn_order resolvers model now auths))
        ≡ some a
      → (pick sort_by resolvers now now provider model true auths
          (after_picks resolvers now provider model auths n s)).1
        ≡ selected a
  turn resolvers now provider model auths n s a ne h e =
      let t = after_picks resolvers now provider model auths n s in
      ap (λ r. r.1) (forced resolvers now provider model auths t ne)
      ∙ rotate_lem now (pick_key provider model) (turn_order resolvers model now auths) t a
          (rw (after_picks-cursor_of resolvers now provider model auths n s ne h) e)

  short-IsAscending : (xs : List Auth) → ltb 1 (length xs) ≡ false → IsAscending id_before xs
  short-IsAscending [] h = tt
  short-IsAscending (x ∷ []) h = (tt, tt)
  short-IsAscending (x ∷ y ∷ xs) h = absurd (ground arith)

  module _ (sorts : IsSort id_before (sort_by id_before)) where
    in_id_order-IsAscending : (xs : List Auth) → IsAscending id_before (in_id_order sort_by xs)
    unfolding in_id_order
    in_id_order-IsAscending xs = elim (Bool-cases (ltb 1 (length xs))) [
      | inl several ↦ rw several (sorts.ascending xs)
      | inr one ↦ rw one (short-IsAscending xs one)
    ]

    In-in_id_order : (xs : List Auth) (x : Auth) → In x xs → In x (in_id_order sort_by xs)
    unfolding in_id_order
    In-in_id_order xs x i = elim (Bool-cases (ltb 1 (length xs))) [
      | inl several ↦ rw several (sorts.held x xs i)
      | inr one ↦ rw one i
    ]

    -- Forced picks go round: where a credential `b` is not blocked, and with the cursor below its limit,
    -- the pick after n of them selects the credential that stands n places after the cursor, and from the
    -- start again after the last, in a list that ascends by the ids and holds those credentials of the
    -- given ones that are not blocked, and as many. sort.Slice sorts by the ids.
    pub after_picks-selected :
        (resolvers : Resolvers) (now : Time) (provider model : Text) (auths : List Auth) (n : ℕ)
        (s : RoundRobinSelector) (b x : Auth)
        → In b auths
        → (verdict_on resolvers model now b).blocked ≡ false
        → cursor_of (pick_key provider model) s + n < cursor_limit
        → (a : Auth) × ((pick sort_by resolvers now now provider model true auths
              (after_picks resolvers now provider model auths n s)).1
            ≡ selected a)
          × (get_elem? (turn_order resolvers model now auths) (
                (cursor_of (pick_key provider model) s + n)
                % length (turn_order resolvers model now auths))
              ≡ some a)
          × IsAscending id_before (turn_order resolvers model now auths)
          × (length (turn_order resolvers model now auths)
              ≡ length (keep (λ c. not (verdict_on resolvers model now c).blocked) auths))
          × (In x (turn_order resolvers model now auths)
              ↔ (In x auths × ((verdict_on resolvers model now x).blocked ≡ false)))
    after_picks-selected resolvers now provider model auths n s b x i free h =
        let open_ones = available_auths resolvers model now auths in
        let order = turn_order resolvers model now auths in
        let j = In-available_auths resolvers model now auths b i free in
        let at =
          IsAt-lt order ((cursor_of (pick_key provider model) s + n) % length order)
            (omega (arith, In-length order (In-in_id_order open_ones b j))) in
        (
          at.value,
          turn resolvers now provider model auths n s at.value (In-filled open_ones j) h at.found,
          at.found,
          in_id_order-IsAscending open_ones,
          length-in_id_order sort_by sorts.reordering open_ones
              ∙ available_auths-length resolvers model now auths,
          (
            (λ k.
                available_auths-In resolvers model now auths x
                  (in_id_order-In sort_by sorts.reordering open_ones x k)),
            (λ (k, unblocked).
                In-in_id_order open_ones x
                  (In-available_auths resolvers model now auths x k unblocked)),
          ),
        )
