-- ===== src/Models/Bags.antt =====
-- internal/registry/state.go: an index entry as a bag. Removal moves the last element to the place of
-- the removed one, so that the order of an entry is an accident.
use llm_mux_fork.Prelude.{
  ◌+◌, ◌-◌, ◌<◌, ◌≡◌, refl, ◌&&◌, not, Bool, true, false, Bool-cases, inl, inr, if◌then◌else◌, Text,
  text_eq, text_eq_iff, List, [], ◌∷◌, ◌++◌, Map, any, lookup_or, insert, ltb, ◌≤◌, is_empty, ◌||◌,
  lookup-insert, lookup-delete, arith,
}
use llm_mux_fork.Models.Index.{
  last, init, move_last, swap_remove, store_rest, remove_from_index, add_to_index,
  add_to_model_id_index, remove_from_model_id_index,
}
use llm_mux_fork.Models.Types.{RegistryState}
use llm_mux_fork.Models.Weights.{occurrences}

occurrences-init_last :
    (k x : Text) (xs : List Text) → occurrences k (last x xs ∷ init x xs) ≡ occurrences k (x ∷ xs)
unfolding occurrences last init
occurrences-init_last k x [] = refl
occurrences-init_last k x (y ∷ ys) = omega (arith, occurrences-init_last k y ys)

occurrences-move_last :
    (k : Text) (xs : List Text) → occurrences k (move_last xs) ≡ occurrences k xs
unfolding move_last
occurrences-move_last k [] = refl
occurrences-move_last k (x ∷ xs) = occurrences-init_last k x xs

-- One occurrence of the key goes, if there is one, and no other.
pub occurrences-swap_remove :
    (k key : Text) (xs : List Text)
    → occurrences k (swap_remove (λ x. text_eq x key) xs)
      ≡ occurrences k xs - (if text_eq key k then 1 else 0)
unfolding occurrences swap_remove
occurrences-swap_remove k key [] = ground arith
occurrences-swap_remove k key (x ∷ xs) = ground (
  arith,
  text_eq_iff x key,
  text_eq_iff x k,
  text_eq_iff key k,
  occurrences-swap_remove k key xs,
  occurrences-move_last k xs,
)

-- What an index has under an id.
abbrev pub entries : Text → Map (List Text) → List Text
entries id idx = lookup_or [] id idx

entries-store_rest :
    (id j : Text) (xs : List Text) (idx : Map (List Text))
    → entries j (store_rest id xs idx) ≡ (if text_eq id j then xs else entries j idx)
unfolding store_rest lookup_or
entries-store_rest id j [] idx = ground (arith, lookup-delete id j idx)
entries-store_rest id j (x ∷ xs) idx = ground (arith, lookup-insert id j (x ∷ xs) idx)

occurrences_absent :
    (key : Text) (xs : List Text) → any (λ x. text_eq x key) xs ≡ false → occurrences key xs ≡ 0
unfolding occurrences
occurrences_absent key [] h = refl
occurrences_absent key (x ∷ xs) h = ground (arith, occurrences_absent key xs)

occurrences_present :
    (key : Text) (xs : List Text) → any (λ x. text_eq x key) xs ≡ true → 0 < occurrences key xs
unfolding occurrences
occurrences_present key [] h = cc
occurrences_present key (x ∷ xs) h = ground (arith, occurrences_present key xs)

occurrences-append :
    (k : Text) (xs ys : List Text) → occurrences k (xs ++ ys) ≡ occurrences k xs + occurrences k ys
unfolding occurrences
occurrences-append k [] ys = omega arith
occurrences-append k (x ∷ xs) ys = omega (arith, occurrences-append k xs ys)

occurrences_one : (k key : Text) → occurrences k (key ∷ []) ≡ (if text_eq key k then 1 else 0)
unfolding occurrences
occurrences_one k key = omega arith

lookup_or-insert_list :
    (id j : Text) (xs : List Text) (idx : Map (List Text))
    → entries j (insert id xs idx) ≡ (if text_eq id j then xs else entries j idx)
unfolding lookup_or
lookup_or-insert_list id j xs idx = ground (arith, lookup-insert id j xs idx)

-- Two ids and two keys are the same.
abbrev same : Text → Text → Text → Text → Bool
same id j key k = text_eq id j && text_eq key k

pub entries-remove_from_index :
    (id j key k : Text) (idx : Map (List Text))
    → occurrences k (entries j (remove_from_index (λ x. text_eq x key) id idx))
      ≡ occurrences k (entries j idx) - (if same id j key k then 1 else 0)
unfolding remove_from_index
entries-remove_from_index id j key k idx =
    elim (Bool-cases (any (λ x. text_eq x key) (entries id idx))) [
      | inl there_it_is ↦
          rw (there_it_is, entries-store_rest)
            (ground (arith, text_eq_iff id j, occurrences-swap_remove k key (entries id idx)))
      | inr absent ↦ rw absent (
          ground (
            arith,
            text_eq_iff id j,
            text_eq_iff key k,
            occurrences_absent key (entries id idx) absent,
          ))
    ]

pub entries-add_to_index :
    (id j key k : Text) (idx : Map (List Text))
    → occurrences k (entries j (add_to_index (λ x. text_eq x key) key id idx))
      ≡ occurrences k (entries j idx)
        + (if same id j key k && not (any (λ x. text_eq x key) (entries id idx)) then 1 else 0)
unfolding add_to_index
entries-add_to_index id j key k idx =
    elim (Bool-cases (any (λ x. text_eq x key) (entries id idx))) [
      | inl there_it_is ↦ rw there_it_is (ground arith)
      | inr absent ↦ rw absent (
          ground (
            arith,
            text_eq_iff id j,
            lookup_or-insert_list id j (entries id idx ++ (key ∷ [])) idx,
            occurrences-append k (entries id idx) (key ∷ []),
            occurrences_one k key,
          ))
    ]

-- The index as a set: whether a key stands under an id.
pub serves : Text → Text → Map (List Text) → Bool
serves id key idx = any (λ x. text_eq x key) (entries id idx)

serves-occurrences :
    (id key : Text) (idx : Map (List Text))
    → serves id key idx ≡ ltb 0 (occurrences key (entries id idx))
unfolding serves
serves-occurrences id key idx = elim (Bool-cases (any (λ x. text_eq x key) (entries id idx))) [
  | inl h ↦ rw h (ground (arith, occurrences_present key (entries id idx) h))
  | inr h ↦ rw (h, occurrences_absent key (entries id idx) h) refl
]

-- No key stands twice under an id.
pub record IsSingle (idx : Map (List Text)) : Type 0 where
  pub once : (id key : Text) → occurrences key (entries id idx) ≤ 1

serves_first :
    (id key : Text) (idx : Map (List Text))
    → any (λ x. text_eq x key) (entries id idx) ≡ ltb 0 (occurrences key (entries id idx))
serves_first id key idx = unfold serves in serves-occurrences id key idx

-- Both are given, and it is this entry.
abbrev pub touches : Text → Text → Text → Text → Bool
touches id key j k = not (is_empty id || is_empty key) && (text_eq id j && text_eq key k)

serves-remove_from_model_id_index :
    (id key j k : Text) (st : RegistryState)
    → IsSingle st.model_id_index
    → serves j k (remove_from_model_id_index id key st).model_id_index
      ≡ (serves j k st.model_id_index && not (touches id key j k))
unfolding remove_from_model_id_index
serves-remove_from_model_id_index id key j k st h =
    elim (Bool-cases (is_empty id || is_empty key)) [
      | inl blank ↦ rw blank (ground arith)
      | inr given ↦
          rw (given, serves-occurrences)
            (ground (
              arith,
              entries-remove_from_index id j key k st.model_id_index,
              h.once j k,
              serves-occurrences j k st.model_id_index,
            ))
    ]

serves-add_to_model_id_index :
    (id key j k : Text) (st : RegistryState)
    → serves j k (add_to_model_id_index id key st).model_id_index
      ≡ (serves j k st.model_id_index || touches id key j k)
unfolding add_to_model_id_index
serves-add_to_model_id_index id key j k st = elim (Bool-cases (is_empty id || is_empty key)) [
  | inl blank ↦ rw blank (ground arith)
  | inr given ↦
      rw (given, serves-occurrences)
        (ground (
          arith,
          entries-add_to_index id j key k st.model_id_index,
          text_eq_iff id j,
          text_eq_iff key k,
          serves_first id key st.model_id_index,
          serves-occurrences j k st.model_id_index,
        ))
]

remove_from_model_id_index-IsSingle :
    (id key : Text) (st : RegistryState)
    → IsSingle st.model_id_index
    → IsSingle (remove_from_model_id_index id key st).model_id_index
unfolding remove_from_model_id_index
remove_from_model_id_index-IsSingle id key st h = record {
  once = λ j k. elim (Bool-cases (is_empty id || is_empty key)) [
    | inl blank ↦ rw blank (h.once j k)
    | inr given ↦
        rw given (omega (arith, h.once j k, entries-remove_from_index id j key k st.model_id_index))
  ];
}

add_to_model_id_index-IsSingle :
    (id key : Text) (st : RegistryState)
    → IsSingle st.model_id_index
    → IsSingle (add_to_model_id_index id key st).model_id_index
unfolding add_to_model_id_index
add_to_model_id_index-IsSingle id key st h = record {
  once = λ j k. elim (Bool-cases (is_empty id || is_empty key)) [
    | inl blank ↦ rw blank (h.once j k)
    | inr given ↦ rw given (
        ground (
          arith,
          h.once j k,
          entries-add_to_index id j key k st.model_id_index,
          serves_first id key st.model_id_index,
          text_eq_iff id j,
          text_eq_iff key k,
        ))
  ];
}

-- The index from a model's id to its keys is a set of pairs: where no key stands twice under an id,
-- adding a pair and removing one by the last element put in its place are the union with that pair and
-- the difference, a pair with an empty part is ignored, and no key comes to stand twice.
pub model_id_index-refines :
    (id key j k : Text) (st : RegistryState)
    → IsSingle st.model_id_index
    → (serves j k (add_to_model_id_index id key st).model_id_index
        ≡ (serves j k st.model_id_index || touches id key j k))
      × (serves j k (remove_from_model_id_index id key st).model_id_index
          ≡ (serves j k st.model_id_index && not (touches id key j k)))
      × IsSingle (add_to_model_id_index id key st).model_id_index
      × IsSingle (remove_from_model_id_index id key st).model_id_index
model_id_index-refines id key j k st h = (
  serves-add_to_model_id_index id key j k st,
  serves-remove_from_model_id_index id key j k st h,
  add_to_model_id_index-IsSingle id key st h,
  remove_from_model_id_index-IsSingle id key st h,
)
