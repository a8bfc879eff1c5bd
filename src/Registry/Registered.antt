-- ===== src/Registry/Registered.antt =====
-- internal/provider/auth_registry.go: what stays true of the registry when entries are put and deleted.
use llm_mux_fork.Prelude.{
  ◌+◌, ℕ, ◌≤◌, ◌<◌, ◌≡◌, refl, ◌∙◌, subst, Bool-cases, ◌⊎◌, inl, inr, Option, some, Option-cases,
  Text, text_eq, text_eq_iff, is_empty, List, [], ◌∷◌, Map, lookup, insert, delete, lookup-insert,
  lookup-insert_self, lookup-delete, arith, length, ltb,
}
use llm_mux_fork.Clock.{Time}
use llm_mux_fork.Provider.Types.{Auth}
use llm_mux_fork.Registry.Entry.{AuthEntry}
use llm_mux_fork.Registry.Ops.{new_auth_entry}
use llm_mux_fork.Registry.Results.{mark_dirty, persist_queue_size}
use llm_mux_fork.Registry.Register.{
  load_one, load_all, Schedule, scheduled_time, with_refresh_at, put_entry, set_dirty, add_entry,
  update_entry, put_auth,
}

-- The entries stand under their ids and have indices below the counter, no two have one index, and a
-- refresh is scheduled for entries alone.
pub record IsSound (c : ℕ) (m : Map AuthEntry) (q : Map Time) : Type 0 where
  pub named : (j : Text) (e : AuthEntry) → lookup j m ≡ some e → e.id ≡ j
  pub below : (j : Text) (e : AuthEntry) → lookup j m ≡ some e → e.index < c
  pub apart :
      (i j : Text) (e f : AuthEntry)
      → lookup i m ≡ some e
      → lookup j m ≡ some f
      → e.index ≡ f.index
      → i ≡ j
  pub kept : (j : Text) (t : Time) → lookup j q ≡ some t → (e : AuthEntry) × (lookup j m ≡ some e)

-- The two ways an entry is found after an insertion.
found :
    (id j : Text) (e f : AuthEntry) (m : Map AuthEntry)
    → lookup j (insert id e m) ≡ some f
    → ((id ≡ j) × (e ≡ f)) ⊎ (lookup j m ≡ some f)
found id j e f m h = elim (Bool-cases (text_eq id j)) [
  | inl same ↦ inl ((text_eq_iff id j).0 same, ground (arith, lookup-insert id j e m))
  | inr other ↦ inr (ground (arith, lookup-insert id j e m))
]

found_entry :
    (id j : Text) (e f : AuthEntry) (m : Map AuthEntry)
    → lookup j m ≡ some f
    → (g : AuthEntry) × (lookup j (insert id e m) ≡ some g)
found_entry id j e f m h = elim (Bool-cases (text_eq id j)) [
  | inl same ↦ (e, ground (arith, lookup-insert id j e m))
  | inr other ↦ (f, ground (arith, lookup-insert id j e m))
]

insert-IsSound :
    (c d : ℕ) (m : Map AuthEntry) (q : Map Time) (id : Text) (e : AuthEntry)
    → IsSound c m q
    → c ≤ d
    → e.id ≡ id
    → e.index < d
    → ((j : Text) (f : AuthEntry) → lookup j m ≡ some f → f.index ≡ e.index → j ≡ id)
    → IsSound d (insert id e m) q
insert-IsSound c d m q id e s le name n only = record {
  named = λ j f h. elim (found id j e f m h) [ inl (same, is) ↦ cc | inr old ↦ s.named j f old ];
  below = λ j f h. elim (found id j e f m h) [
    | inl (same, is) ↦ subst (λ (g : AuthEntry). g.index < d) is n
    | inr old ↦ omega (arith, s.below j f old)
  ];
  apart = λ i j f g hf hg eq. elim (found id i e f m hf) [
    | inl (same, is) ↦ elim (found id j e g m hg) [
      | inl (same2, is2) ↦ cc
      | inr old2 ↦ let b = only j g old2 cc in cc
    ]
    | inr old ↦ elim (found id j e g m hg) [
      | inl (same2, is2) ↦ let b = only i f old cc in cc
      | inr old2 ↦ s.apart i j f g old old2 eq
    ]
  ];
  kept = λ j t h. let (f, old) = s.kept j t h in found_entry id j e f m old;
}

schedule-IsSound :
    (c : ℕ) (m : Map AuthEntry) (q : Map Time) (id : Text) (e : AuthEntry) (at : Time)
    → IsSound c m q
    → lookup id m ≡ some e
    → IsSound c m (insert id at q)
schedule-IsSound c m q id e at s h = record {
  named = s.named;
  below = s.below;
  apart = s.apart;
  kept = λ j t k. elim (Bool-cases (text_eq id j)) [
    | inl same ↦ (e, subst (λ i. lookup i m ≡ some e) ((text_eq_iff id j).0 same) h)
    | inr other ↦ s.kept j t (ground (arith, lookup-insert id j at q))
  ];
}

pub delete-IsSound :
    (c : ℕ) (m : Map AuthEntry) (q : Map Time) (id : Text)
    → IsSound c m q
    → IsSound c (delete id m) (delete id q)
delete-IsSound c m q id s = record {
  named = λ j e h. s.named j e (there_before j e h);
  below = λ j e h. s.below j e (there_before j e h);
  apart = λ i j e f h k. s.apart i j e f (there_before i e h) (there_before j f k);
  kept = λ j t h. elim (Bool-cases (text_eq id j)) [
    | inl same ↦ absurd (ground (arith, lookup-delete id j q))
    | inr other ↦
        let (e, old) = s.kept j t (ground (arith, lookup-delete id j q)) in
        (e, ground (arith, lookup-delete id j m))
  ];
}
  where
    there_before :
        (j : Text) (e : AuthEntry) → lookup j (delete id m) ≡ some e → lookup j m ≡ some e
    there_before j e h = ground (arith, lookup-delete id j m)

abbrev pub IsRegistry : Schedule → Type 0
IsRegistry r = IsSound r.registry.index_counter r.registry.entries r.refreshes

set_dirty-IsRegistry : (id : Text) (r : Schedule) → IsRegistry r → IsRegistry (set_dirty id r)
unfolding set_dirty mark_dirty
set_dirty-IsRegistry id r s =
    elim (Bool-cases (ltb (length r.registry.persist_queue) persist_queue_size)) [
      | inl room ↦ rw room s
      | inr full ↦ rw full s
    ]

with_refresh_at_lem :
    (at : Time) (e : AuthEntry)
    → ((with_refresh_at at e).id ≡ e.id) × ((with_refresh_at at e).index ≡ e.index)
unfolding with_refresh_at
with_refresh_at_lem at e = ground arith

put_entry-IsRegistry :
    (now : Time) (id : Text) (e : AuthEntry) (c : ℕ) (r : Schedule)
    → IsSound c r.registry.entries r.refreshes
    → c ≤ r.registry.index_counter
    → e.id ≡ id
    → e.index < r.registry.index_counter
    → ((j : Text) (f : AuthEntry)
        → lookup j r.registry.entries ≡ some f
        → f.index ≡ e.index
        → j ≡ id)
    → IsRegistry (put_entry now id e r)
unfolding put_entry
put_entry-IsRegistry now id e c r s le name n only = elim (Option-cases (scheduled_time now e)) [
  | inl never ↦
      rw (put_entry, never)
        (insert-IsSound c r.registry.index_counter r.registry.entries r.refreshes id e s le name n
          only)
  | inr (at, due) ↦
      let g : AuthEntry = with_refresh_at at e in
      let (same, numbered) = with_refresh_at_lem at e in
      rw (put_entry, due)
        (schedule-IsSound r.registry.index_counter (insert id g r.registry.entries) r.refreshes id g
          at
          (insert-IsSound c r.registry.index_counter r.registry.entries r.refreshes id g s le
            (same ∙ name) (omega (arith, numbered)) (λ j f h k. only j f h (k ∙ numbered)))
          (lookup-insert_self id g r.registry.entries))
]

-- A new entry takes the next index.
put_new-IsRegistry :
    (now : Time) (expires : Option Time) (a : Auth) (r : Schedule)
    → IsRegistry r
    → IsRegistry (
        put_entry now a.id
          (new_auth_entry now expires (record a { index = r.registry.index_counter }))
          (record r {
            registry = record r.registry { index_counter = r.registry.index_counter + 1 };
          }))
put_new-IsRegistry now expires a r s =
    put_entry-IsRegistry now a.id
      (new_auth_entry now expires (record a { index = r.registry.index_counter }))
      r.registry.index_counter _ s (omega arith) (unfold new_auth_entry in refl)
      (unfold new_auth_entry in omega arith)
      (λ j f h k. absurd (unfold new_auth_entry in omega (arith, k, s.below j f h)))

pub put_auth-IsRegistry :
    (now : Time) (expires : Option Time) (a : Auth) (r : Schedule)
    → IsRegistry r
    → IsRegistry (put_auth now expires a (lookup a.id r.registry.entries) r).0
put_auth-IsRegistry now expires a r s = elim (Option-cases (lookup a.id r.registry.entries)) [
  | inl new ↦ rw new (
      unfold put_auth add_entry in
      set_dirty-IsRegistry a.id _ (put_new-IsRegistry now expires a r s))
  | inr (old, known) ↦ rw known (
      unfold put_auth in
      set_dirty-IsRegistry a.id _ (
        put_entry-IsRegistry now a.id (update_entry now a old) r.registry.index_counter r s
          (omega arith) (unfold update_entry in s.named a.id old known)
          (unfold update_entry in s.below a.id old known)
          (λ j f h k. s.apart j a.id f old h known (unfold update_entry in k))))
]

load_one-IsRegistry :
    (now : Time) (expires : Option Time) (a : Auth) (r : Schedule)
    → IsRegistry r
    → IsRegistry (load_one now expires a r)
unfolding load_one
load_one-IsRegistry now expires a r s = elim (Bool-cases (is_empty a.id)) [
  | inl unnamed ↦ rw (load_one, unnamed) s
  | inr named ↦ rw (load_one, named) (put_new-IsRegistry now expires a r s)
]

pub load_all-IsRegistry :
    (now : Time) (items : List (Auth × Option Time)) (r : Schedule)
    → IsRegistry r
    → IsRegistry (load_all now items r)
unfolding load_all
load_all-IsRegistry now [] r s = s
load_all-IsRegistry now ((a, expires) ∷ items) r s =
    load_all-IsRegistry now items (load_one now expires a r) (load_one-IsRegistry now expires a r s)
