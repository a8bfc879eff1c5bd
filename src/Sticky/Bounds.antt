-- ===== src/Sticky/Bounds.antt =====
-- internal/provider/sticky_store.go: no shard ever holds more than 256 entries, and the eviction
-- loop ends by its test.
use llm_mux_fork.Prelude.{
  subst, ℕ, zero, suc, ◌+◌, ◌<◌, ◌≤◌, ◌≡◌, refl, ◌⊎◌, inl, inr, leb, false, ◌||◌, Option, none,
  some, [], ◌∷◌, Text, txt, text_eq, text_eq_iff, text_eq_refl, is_empty, lookup, insert, delete,
  length, arith, Bool-cases,
}
use llm_mux_fork.Clock.{Time, zero_time, before}
use llm_mux_fork.Sticky.Shard.{
  StickyEntry, Shard, max_entries_per_shard, is_expired, drop_expired, find_oldest,
  evict_while_full, evict_oldest, get_entry, get, set_entry, set,
}

-- Every key is a non-empty text, as `provider + ":" + model` is.
abbrev pub Keyed : Shard → Type 0
Keyed [] = Unit
Keyed ((k, e) ∷ s) = (is_empty k ≡ false) × Keyed s

length-insert : (k : Text) (e : StickyEntry) (s : Shard) → length (insert k e s) ≤ length s + 1
unfolding insert
length-insert k e [] = omega arith
length-insert k e ((j, f) ∷ s) = ground (arith, length-insert k e s)

length-insert_old :
    (k : Text) (e f : StickyEntry) (s : Shard)
    → lookup k s ≡ some f
    → length (insert k e s) ≡ length s
unfolding insert lookup
length-insert_old k e f [] h = cc
length-insert_old k e f ((j, g) ∷ s) h = ground (arith, length-insert_old k e f s)

length-delete : (k : Text) (s : Shard) → length (delete k s) ≤ length s
unfolding delete
length-delete k [] = omega arith
length-delete k ((j, f) ∷ s) = ground (arith, length-delete k s)

length-delete_old :
    (k : Text) (f : StickyEntry) (s : Shard) → lookup k s ≡ some f → length (delete k s) < length s
unfolding delete lookup
length-delete_old k f [] h = cc
length-delete_old k f ((j, g) ∷ s) h = ground (arith, length-delete k s, length-delete_old k f s)

length-drop_expired : (now : Time) (s : Shard) → length (drop_expired now s) ≤ length s
unfolding drop_expired
length-drop_expired now [] = omega arith
length-drop_expired now ((k, e) ∷ s) = ground (arith, length-drop_expired now s)

drop_expired-Keyed : (now : Time) (s : Shard) → Keyed s → Keyed (drop_expired now s)
unfolding drop_expired
drop_expired-Keyed now [] h = tt
drop_expired-Keyed now ((k, e) ∷ s) h = ground (arith, drop_expired-Keyed now s h.1)

delete-Keyed : (k : Text) (s : Shard) → Keyed s → Keyed (delete k s)
unfolding delete
delete-Keyed k [] h = tt
delete-Keyed k ((j, e) ∷ s) h = ground (arith, delete-Keyed k s h.1)

abbrev Has : Text → Shard → Type 0
Has k s = (f : StickyEntry) × (lookup k s ≡ some f)

Has-cons : (k r : Text) (e : StickyEntry) (s : Shard) → Has r s → Has r ((k, e) ∷ s)
unfolding lookup
Has-cons k r e s (f, h) = elim (Bool-cases (text_eq k r)) [
  | inl same ↦ (e, rw same)
  | inr new ↦ (f, rw new h)
]

Has-head : (k r : Text) (e : StickyEntry) (s : Shard) → r ≡ k → Has r ((k, e) ∷ s)
unfolding lookup
Has-head k r e s h = (e, rw (h, text_eq_refl k))

-- The key that is found is the one so far, or a key of the shard.
find_oldest_among :
    (key : Text) (time : Time) (s : Shard)
    → (find_oldest key time s ≡ key) ⊎ Has (find_oldest key time s) s
unfolding find_oldest
find_oldest_among key time [] = inl refl
find_oldest_among key time ((k, e) ∷ s) =
    elim (Bool-cases (is_empty key || before e.last_used time)) [
      | inl take ↦ rw take (
          inr (elim (find_oldest_among k e.last_used s) [
            | inl same ↦ Has-head k _ e s same
            | inr there ↦ Has-cons k _ e s there
          ]))
      | inr leave ↦ rw leave (elim (find_oldest_among key time s) [
        | inl same ↦ inl same
        | inr there ↦ inr (Has-cons k _ e s there)
      ])
    ]

Has-nonempty : (r : Text) (s : Shard) → Keyed s → Has r s → is_empty r ≡ false
unfolding lookup
Has-nonempty r [] h (f, e) = cc
Has-nonempty r ((k, e) ∷ s) h (f, found) = elim (Bool-cases (text_eq k r)) [
  | inl same ↦ subst (λ t. is_empty t ≡ false) ((text_eq_iff k r).0 same) h.0
  | inr new ↦ Has-nonempty r s h.1 (f, rw new at found)
]

-- In a shard that is not empty, whose keys are not empty, an entry is found.
find_oldest-Has : (s : Shard) → 0 < length s → Keyed s → Has (find_oldest (txt "") zero_time s) s
unfolding find_oldest
find_oldest-Has [] n h = absurd (omega arith)
find_oldest-Has ((k, e) ∷ s) n h =
    unfold is_empty in
    (elim (find_oldest_among k e.last_used s) [
      | inl same ↦ Has-head k _ e s same
      | inr there ↦ Has-cons k _ e s there
    ])

-- With more rounds than entries, none of which has an empty key, the eviction loop ends with fewer
-- entries than the maximum, and still none with an empty key.
pub evict_while_full_lem :
    (fuel : ℕ) (s : Shard)
    → length s < fuel
    → Keyed s
    → Keyed (evict_while_full fuel s) × (length (evict_while_full fuel s) < max_entries_per_shard)
unfolding evict_while_full
evict_while_full_lem zero s n h = absurd (omega arith)
evict_while_full_lem (suc fuel) s n h = elim (Bool-cases (leb max_entries_per_shard (length s))) [
  | inr roomy ↦ rw roomy (h, ground arith)
  | inl full ↦
      let found = find_oldest-Has s (ground arith) h in
      rw (full, Has-nonempty _ s h found)
        (evict_while_full_lem fuel _ (omega (arith, length-delete_old _ found.0 s found.1))
          (delete-Keyed _ s h))
]

insert-Keyed :
    (k : Text) (e : StickyEntry) (s : Shard) → is_empty k ≡ false → Keyed s → Keyed (insert k e s)
unfolding insert
insert-Keyed k e [] n h = (n, tt)
insert-Keyed k e ((j, f) ∷ s) n h = ground (arith, insert-Keyed k e s n h.1)

-- What every operation keeps.
pub record IsValid (s : Shard) : Type 0 where
  pub bounded : length s ≤ max_entries_per_shard
  pub keyed : Keyed s

evict_oldest_lem :
    (now : Time) (s : Shard)
    → Keyed s
    → Keyed (evict_oldest now s) × (length (evict_oldest now s) < max_entries_per_shard)
unfolding evict_oldest
evict_oldest_lem now s h =
    evict_while_full_lem (suc (length (drop_expired now s))) (drop_expired now s) (omega arith)
      (drop_expired-Keyed now s h)

set_entry-IsValid :
    (now : Time) (key auth_id : Text) (s : Shard)
    → is_empty key ≡ false
    → IsValid s
    → (o : Option StickyEntry) → lookup key s ≡ o
    → IsValid (set_entry now key auth_id s o)
unfolding set_entry
set_entry-IsValid now key auth_id s n v none e =
    elim (Bool-cases (leb max_entries_per_shard (length s))) [
      | inl full ↦
          let (keyed, less) = evict_oldest_lem now s v.keyed in
          rw full (record {
            bounded = omega (
              arith,
              less,
              length-insert key (record { auth_id = auth_id; last_used = now })
                  (evict_oldest now s),
            );
            keyed = insert-Keyed key _ _ n keyed;
          })
      | inr roomy ↦ rw roomy (record {
        bounded =
            ground (arith, length-insert key (record { auth_id = auth_id; last_used = now }) s);
        keyed = insert-Keyed key _ s n v.keyed;
      })
    ]
set_entry-IsValid now key auth_id s n v (some f) e = record {
  bounded = omega (
    arith,
    v.bounded,
    length-insert_old key (record { auth_id = auth_id; last_used = now }) f s e,
  );
  keyed = insert-Keyed key _ s n v.keyed;
}

-- `Set` keeps a shard within 256 entries, however full it was: the eviction makes room.
pub set-IsValid :
    (now : Time) (key auth_id : Text) (s : Shard)
    → is_empty key ≡ false
    → IsValid s
    → IsValid (set now key auth_id s)
unfolding set
set-IsValid now key auth_id s n v = set_entry-IsValid now key auth_id s n v _ refl

get_entry-IsValid :
    (now : Time) (key : Text) (s : Shard)
    → is_empty key ≡ false
    → IsValid s
    → (o : Option StickyEntry) → lookup key s ≡ o
    → IsValid (get_entry now key s o).0
unfolding get_entry
get_entry-IsValid now key s n v none e = v
get_entry-IsValid now key s n v (some f) e = elim (Bool-cases (is_expired now f)) [
  | inl old ↦ rw old v
  | inr young ↦ rw young (record {
    bounded = omega (arith, v.bounded, length-insert_old key (record f { last_used = now }) f s e);
    keyed = insert-Keyed key _ s n v.keyed;
  })
]

pub get-IsValid :
    (now : Time) (key : Text) (s : Shard)
    → is_empty key ≡ false
    → IsValid s
    → IsValid (get now key s).0
unfolding get
get-IsValid now key s n v = get_entry-IsValid now key s n v (lookup key s) refl

pub drop_expired-IsValid : (now : Time) (s : Shard) → IsValid s → IsValid (drop_expired now s)
drop_expired-IsValid now s v = record {
  bounded = omega (arith, v.bounded, length-drop_expired now s);
  keyed = drop_expired-Keyed now s v.keyed;
}
