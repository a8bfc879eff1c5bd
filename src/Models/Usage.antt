-- ===== src/Models/Usage.antt =====
-- internal/registry/model_registration.go: what RegisterClient and UnregisterClient do to the count
-- of every registration.
use mathlib.Core.List.{Perm, Permᴰ}
use mathlib.Core.Logic.{∥∥₁_elim}
use native.Mathlib.Nat.{ℕ_set}
use llm_mux_fork.Prelude.{
  ℕ, ◌+◌, ◌-◌, ◌≤◌, ◌≡◌, refl, sym, ◌∙◌, ap, subst, false, Option, none, some, Text, text_eq_refl,
  List, [], Map, lookup, lookup_or, All, arith,
}
use llm_mux_fork.Clock.{Time}
use llm_mux_fork.Models.Types.{ModelInfo, RegistryState}
use llm_mux_fork.Models.Reconcile.{
  Batch, count_ids, remove_gone, missing_in, ids_of, remove_overage, add_missing, refresh_all,
  reconcile,
}
use llm_mux_fork.Models.Counts.{count_at, uses}
use llm_mux_fork.Models.Batches.{IsListed}
use llm_mux_fork.Models.Weights.{
  weight, weight-Perm, weight-share, share, share_of, id_of_key, lookup_or-none,
  lookup_or-count_ids, IsDistinct, IsDistinct-count_ids, occurrences, occurrences_of,
  uses-occurrences_of,
}
use llm_mux_fork.Models.Reconciled.{
  gone_by, over_by, short_by, count_at-remove_gone, count_at-remove_overage, count_at-add_missing,
  count_at-refresh_all,
}

-- A range visits every key once, with its value.
abbrev pub IsRange : (ℕ → Map ℕ → Map ℕ) → Type 0
IsRange visit = (n : ℕ) (m : Map ℕ) → Perm (visit n m) m

-- How often the one id comes, by the counts of the ids.
count_of_id : (j : Text) (ids : List Text) → lookup_or 0 j (count_ids ids []) ≡ occurrences j ids
count_of_id j ids =
    omega (arith, lookup_or-count_ids j ids [], lookup_or-none j [] (unfold lookup in refl))

abbrev Net : Option Text → Map ℕ → Map ℕ → ℕ → ℕ → ℕ → Type 0
Net o old new count before after =
    count
      - share_of o (gone_by new old) old
      - share_of o (over_by new) old
      + share_of o (short_by old) new
    ≡ count - before + after

-- What the three loops do together, to the one id that a key belongs to.
net :
    (o : Option Text) (old_ids ids : List Text) (count : ℕ)
    → occurrences_of o old_ids ≤ count
    → Net o
        (count_ids old_ids [])
        (count_ids ids [])
        count
        (occurrences_of o old_ids)
        (occurrences_of o ids)
net none old_ids ids count h = omega arith
net (some j) old_ids ids count h = ground (arith, count_of_id j old_ids, count_of_id j ids)

All-Permᴰ {ℓ} : {A : Type ℓ} (P : A → Type 0) {xs ys : List A} → Permᴰ xs ys → All P xs → All P ys
All-Permᴰ P Permᴰ.nil h = h
All-Permᴰ P (Permᴰ.cons e p) h = (subst P e h.0, All-Permᴰ P p h.1)
All-Permᴰ P (Permᴰ.swap e f) h = (subst P f h.1.0, (subst P e h.0, h.1.1))
All-Permᴰ P (Permᴰ.trans p q) h = All-Permᴰ P q (All-Permᴰ P p h)

Permᴰ-sym {ℓ} : {A : Type ℓ} {xs ys : List A} → Permᴰ xs ys → Permᴰ ys xs
Permᴰ-sym Permᴰ.nil = Permᴰ.nil
Permᴰ-sym (Permᴰ.cons e p) = Permᴰ.cons (sym e) (Permᴰ-sym p)
Permᴰ-sym (Permᴰ.swap e f) = Permᴰ.swap (sym f) (sym e)
Permᴰ-sym (Permᴰ.trans p q) = Permᴰ.trans (Permᴰ-sym q) (Permᴰ-sym p)

-- The loop that adds, in whatever order.
pub added_in_order :
    (old l new : Map ℕ) (infos : Map ModelInfo) (provider k : Text) (now : Time)
    (st : RegistryState)
    → Perm l new
    → All (λ x. IsListed infos x.0) new
    → count_at k (add_missing l old infos provider now st)
      ≡ count_at k st + weight (share (id_of_key provider k) (short_by old)) new
added_in_order old l new infos provider k now st p h = ∥∥₁_elim p (ℕ_set _ _) (λ d.
    count_at-add_missing old l infos provider k now st (All-Permᴰ _ (Permᴰ-sym d) h)
    ∙ ap (λ w. count_at k st + w) (weight-Perm (share (id_of_key provider k) (short_by old)) p))

pub weight_in_order :
    (o : Option Text) (g : Text → ℕ → ℕ) (l m : Map ℕ)
    → Perm l m
    → IsDistinct m
    → ((j : Text) → lookup j m ≡ none → g j 0 ≡ 0)
    → weight (share o g) l ≡ share_of o g m
weight_in_order o g l m p d z = weight-Perm (share o g) p ∙ weight-share o g m d z

pub gone_by_absent : (new old : Map ℕ) (j : Text) → lookup j old ≡ none → gone_by new old j 0 ≡ 0
gone_by_absent new old j h = ground (arith, lookup_or-none j old h)

pub count_at-models :
    (k : Text) (st st' : RegistryState) → st.models ≡ st'.models → count_at k st ≡ count_at k st'
unfolding count_at
count_at-models k st st' h = rw h

module _ (visit : ℕ → Map ℕ → Map ℕ) (range : IsRange visit) where
  pub count_at-reconcile :
      (now : Time) (client provider k : Text) (old_ids : List Text) (b : Batch) (st : RegistryState)
      → b.counts ≡ count_ids b.raw_ids []
      → All (λ x. IsListed b.infos x.0) b.counts
      → uses provider k old_ids ≤ count_at k st
      → count_at k (reconcile visit now client provider provider old_ids b st)
        ≡ count_at k st - uses provider k old_ids + uses provider k b.raw_ids
  unfolding reconcile
  count_at-reconcile now client provider k old_ids b st counted listed enough =
      let old = count_ids old_ids [] in
      let distinct : IsDistinct old = IsDistinct-count_ids old_ids [] tt in
      let o = id_of_key provider k in
      let st2 =
        remove_gone (missing_in b.counts (ids_of (visit 0 old))) old client provider now st in
      let st3 = remove_overage (visit 2 old) b.counts client provider now st2 in
      let st4 = add_missing (visit 3 b.counts) old b.infos provider now st3 in
      rw text_eq_refl (
        count_at-models k _
          (refresh_all b.unique_ids b old client provider false (missing_in old b.unique_ids) now
            st4)
          refl
        ∙ count_at-refresh_all b.unique_ids b old client provider k false
            (missing_in old b.unique_ids) now st4
        ∙ added_in_order old (visit 3 b.counts) b.counts b.infos provider k now st3
            (range 3 b.counts) listed
        ∙ rw (uses-occurrences_of provider k old_ids, uses-occurrences_of provider k b.raw_ids)
            (omega (
              arith,
              count_at-remove_gone b.counts old (visit 0 old) client provider k now st,
              count_at-remove_overage b.counts (visit 2 old) client provider k now st2,
              weight_in_order o (gone_by b.counts old) (visit 0 old) old (range 0 old) distinct
                  (gone_by_absent b.counts old),
              weight_in_order o (over_by b.counts) (visit 2 old) old (range 2 old) distinct
                  (λ j h. ground arith),
              weight-share o (short_by old) b.counts
                  (subst IsDistinct (sym counted) (IsDistinct-count_ids b.raw_ids [] tt))
                  (λ j h. ground arith),
              subst
                  (λ new.
                    Net o old new (count_at k st) (occurrences_of o old_ids)
                      (occurrences_of o b.raw_ids))
                  (sym counted)
                  (net o old_ids b.raw_ids (count_at k st) (
                    subst (λ n. n ≤ count_at k st) (uses-occurrences_of provider k old_ids)
                      enough)),
            )))
