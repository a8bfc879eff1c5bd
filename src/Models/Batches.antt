-- ===== src/Models/Batches.antt =====
-- internal/registry/model_registration.go: what RegisterClient collects from the models it is given.
use llm_mux_fork.Prelude.{
  ℕ, ◌+◌, ◌≡◌, refl, sym, ap, true, false, Bool-cases, inl, inr, Option-cases, if◌then◌else◌,
  Option, none, some, Text, text_eq, is_empty, List, [], ◌∷◌, ◌++◌, Map, lookup, insert,
  lookup-insert, lookup-insert_self, All, arith, ltb, ◌⊎◌, length, length-append,
}
use llm_mux_fork.Clock.{Time}
use llm_mux_fork.Models.Types.{ModelInfo, RegistryState}
use llm_mux_fork.Models.Register.{add_model_registration}
use llm_mux_fork.Models.Reconcile.{
  Batch, empty_batch, collect, collect_one, add_all, count_ids, increment,
}
use llm_mux_fork.Models.Counts.{count_at, uses, count_at-add_model_registration}

-- The ids of the models that are neither nil nor without an id.
abbrev pub valid_ids : List (Option ModelInfo) → List Text
valid_ids [] = []
valid_ids (none ∷ ms) = valid_ids ms
valid_ids (some m ∷ ms) = let rest = valid_ids ms in if is_empty m.id then rest else m.id ∷ rest

append_assoc :
    (xs : List Text) (y : Text) (zs : List Text) → (xs ++ (y ∷ [])) ++ zs ≡ xs ++ (y ∷ zs)
append_assoc [] y zs = refl
append_assoc (x ∷ xs) y zs = ap (◌∷◌ x) (append_assoc xs y zs)

append_nil : (xs : List Text) → xs ++ [] ≡ xs
append_nil [] = refl
append_nil (x ∷ xs) = ap (◌∷◌ x) (append_nil xs)

collect_one-raw_ids :
    (b : Batch) (m : ModelInfo)
    → (collect_one b (some m)).raw_ids
      ≡ (if is_empty m.id then b.raw_ids else b.raw_ids ++ (m.id ∷ []))
unfolding collect_one
collect_one-raw_ids b m = ground arith

collect-raw_ids :
    (ms : List (Option ModelInfo)) (b : Batch) → (collect ms b).raw_ids ≡ b.raw_ids ++ valid_ids ms
unfolding collect
collect-raw_ids [] b = sym (append_nil b.raw_ids)
collect-raw_ids (none ∷ ms) b = unfold collect_one in collect-raw_ids ms b
collect-raw_ids (some m ∷ ms) b = elim (Bool-cases (is_empty m.id)) [
  | inl blank ↦ rw (collect-raw_ids ms (collect_one b (some m)), collect_one-raw_ids, blank)
  | inr named ↦
      rw (collect-raw_ids ms (collect_one b (some m)), collect_one-raw_ids, named)
        (append_assoc b.raw_ids m.id (valid_ids ms))
]

pub collect-valid_ids :
    (ms : List (Option ModelInfo)) → (collect ms empty_batch).raw_ids ≡ valid_ids ms
collect-valid_ids ms = collect-raw_ids ms empty_batch

-- The id has a model to be registered by.
pub record IsListed (infos : Map ModelInfo) (id : Text) : Type 0 where
  pub info : ModelInfo
  pub found : lookup id infos ≡ some info
  pub named : is_empty id ≡ false

IsListed-insert :
    (infos : Map ModelInfo) (id j : Text) (m : ModelInfo)
    → IsListed infos id
    → IsListed (insert j m infos) id
IsListed-insert infos id j m h = record {
  info = if text_eq j id then m else h.info;
  found =
      rw lookup-insert
        (elim (Bool-cases (text_eq j id)) [ inl same ↦ rw same | inr other ↦ rw (other, h.found) ]);
  named = h.named;
}

All-map {ℓ} :
    {A : Type ℓ} (P Q : A → Type 0) → ((x : A) → P x → Q x) → (xs : List A) → All P xs → All Q xs
All-map P Q f [] h = tt
All-map P Q f (x ∷ xs) h = (f x h.0, All-map P Q f xs h.1)

All-append_one {ℓ} :
    {A : Type ℓ} (P : A → Type 0) (xs : List A) (x : A) → All P xs → P x → All P (xs ++ (x ∷ []))
All-append_one P [] x h hx = (hx, tt)
All-append_one P (y ∷ ys) x h hx = (h.0, All-append_one P ys x h.1 hx)

All-insert :
    (P : Text → Type 0) (id : Text) (n : ℕ) (m : Map ℕ)
    → All (λ x. P x.0) m
    → P id
    → All (λ x. P x.0) (insert id n m)
unfolding insert
All-insert P id n [] h p = (p, tt)
All-insert P id n ((j, k) ∷ m) h p = elim (Bool-cases (text_eq j id)) [
  | inl same ↦ rw same (p, h.1)
  | inr other ↦ rw other (h.0, All-insert P id n m h.1 p)
]

-- Every id of the batch has its model.
pub record IsComplete (b : Batch) : Type 0 where
  pub raw : All (IsListed b.infos) b.raw_ids
  pub counted : All (λ x. IsListed b.infos x.0) b.counts

pub empty_batch-IsComplete : IsComplete empty_batch
empty_batch-IsComplete = record { raw = tt; counted = tt }

-- The batch after an id that its models have.
pub counted_once : Text → Batch → Batch
counted_once id b = record b { raw_ids = b.raw_ids ++ (id ∷ []); counts = increment id b.counts }

counted_once-IsComplete :
    (id : Text) (b : Batch) → IsListed b.infos id → IsComplete b → IsComplete (counted_once id b)
unfolding counted_once increment
counted_once-IsComplete id b listed h = record {
  raw = All-append_one (IsListed b.infos) b.raw_ids id h.raw listed;
  counted = All-insert (IsListed b.infos) id _ b.counts h.counted listed;
}

with_info-IsComplete :
    (j : Text) (m : ModelInfo) (ids : List Text) (b : Batch)
    → IsComplete b
    → IsComplete (record b { infos = insert j m b.infos; unique_ids = ids })
with_info-IsComplete j m ids b h = record {
  raw = All-map _ _ (λ id. IsListed-insert b.infos id j m) b.raw_ids h.raw;
  counted = All-map _ _ (λ x. IsListed-insert b.infos x.0 j m) b.counts h.counted;
}

collect_named :
    (b : Batch) (m : ModelInfo) (o : Option ModelInfo)
    → lookup m.id b.infos ≡ o
    → is_empty m.id ≡ false
    → IsComplete b
    → IsComplete (collect_one b (some m))
unfolding collect_one counted_once
collect_named b m none e named h =
    rw (named, e)
      (counted_once-IsComplete m.id _
        (record { info = m; found = lookup-insert_self m.id m b.infos; named = named })
        (with_info-IsComplete m.id m (b.unique_ids ++ (m.id ∷ [])) b h))
collect_named b m (some i) e named h =
    rw (named, e) (counted_once-IsComplete m.id b (record { info = i; found = e; named = named }) h)

collect_one-IsComplete :
    (b : Batch) (m : Option ModelInfo) → IsComplete b → IsComplete (collect_one b m)
unfolding collect_one
collect_one-IsComplete b none h = h
collect_one-IsComplete b (some m) h = elim (Bool-cases (is_empty m.id)) [
  | inl blank ↦ rw blank h
  | inr named ↦ collect_named b m (lookup m.id b.infos) refl named h
]

collect_one-counts :
    (b : Batch) (m : ModelInfo)
    → (collect_one b (some m)).counts
      ≡ (if is_empty m.id then b.counts else increment m.id b.counts)
unfolding collect_one
collect_one-counts b m = ground arith

-- The counts are those of the ids as they come.
pub collect-counts :
    (ms : List (Option ModelInfo)) (b : Batch)
    → (collect ms b).counts ≡ count_ids (valid_ids ms) b.counts
unfolding collect count_ids
collect-counts [] b = refl
collect-counts (none ∷ ms) b = unfold collect_one in collect-counts ms b
collect-counts (some m ∷ ms) b = elim (Bool-cases (is_empty m.id)) [
  | inl blank ↦ rw (collect-counts ms (collect_one b (some m)), collect_one-counts, blank)
  | inr named ↦ rw (collect-counts ms (collect_one b (some m)), collect_one-counts, named)
]

pub collect-IsComplete :
    (ms : List (Option ModelInfo)) (b : Batch) → IsComplete b → IsComplete (collect ms b)
unfolding collect
collect-IsComplete [] b h = h
collect-IsComplete (m ∷ ms) b h =
    collect-IsComplete ms (collect_one b m) (collect_one-IsComplete b m h)

pub count_at-add_all :
    (ids : List Text) (infos : Map ModelInfo) (provider k : Text) (now : Time) (st : RegistryState)
    → All (IsListed infos) ids
    → count_at k (add_all ids infos provider now st) ≡ count_at k st + uses provider k ids
unfolding add_all uses
count_at-add_all [] infos provider k now st h = omega arith
count_at-add_all (id ∷ ids) infos provider k now st h = rw h.0.found (
    omega (
      arith,
      count_at-add_all ids infos provider k now
          (add_model_registration id provider (some h.0.info) now st) h.1,
      count_at-add_model_registration id provider k h.0.info now st h.0.named,
    ))

-- Either there is an id, or nothing was collected.
abbrev pub IsSettled : Batch → Type 0
IsSettled b = (ltb 0 (length b.unique_ids) ≡ true) ⊎ ((b.raw_ids ≡ []) × (b.infos ≡ []))

collect_one-IsSettled :
    (b : Batch) (m : Option ModelInfo) → IsSettled b → IsSettled (collect_one b m)
unfolding collect_one
collect_one-IsSettled b none h = h
collect_one-IsSettled b (some m) h = elim (Bool-cases (is_empty m.id)) [
  | inl blank ↦ rw blank h
  | inr named ↦ elim (Option-cases (lookup m.id b.infos)) [
    | inl e ↦ inl (rw (named, e, length-append) (ground arith))
    | inr (i, e) ↦ elim h [
      | inl some_id ↦ inl (rw (named, e) some_id)
      | inr (_, nothing) ↦ absurd (unfold lookup in ground arith)
    ]
  ]
]

pub collect-IsSettled :
    (ms : List (Option ModelInfo)) (b : Batch) → IsSettled b → IsSettled (collect ms b)
unfolding collect
collect-IsSettled [] b h = h
collect-IsSettled (m ∷ ms) b h =
    collect-IsSettled ms (collect_one b m) (collect_one-IsSettled b m h)

pub nothing_raw : (b : Batch) → ltb 0 (length b.unique_ids) ≡ false → IsSettled b → b.raw_ids ≡ []
nothing_raw b no_id (inl some_id) = cc
nothing_raw b no_id (inr (h, _)) = h

-- Where an id was collected, there is one in the list too.
IsSettled-raw :
    (b : Batch) (m : Option ModelInfo)
    → (ltb 0 (length b.unique_ids) ≡ true → ltb 0 (length b.raw_ids) ≡ true)
    → ltb 0 (length (collect_one b m).unique_ids) ≡ true
    → ltb 0 (length (collect_one b m).raw_ids) ≡ true
unfolding collect_one
IsSettled-raw b none h k = h k
IsSettled-raw b (some m) h k = elim (Bool-cases (is_empty m.id)) [
  | inl blank ↦ rw blank (h (rw blank at k))
  | inr named ↦ elim (Option-cases (lookup m.id b.infos)) [
    | inl e ↦ rw (named, e, length-append) (ground arith)
    | inr (i, e) ↦ rw (named, e, length-append) (ground arith)
  ]
]

pub raw_of_unique :
    (ms : List (Option ModelInfo)) (b : Batch)
    → (ltb 0 (length b.unique_ids) ≡ true → ltb 0 (length b.raw_ids) ≡ true)
    → ltb 0 (length (collect ms b).unique_ids) ≡ true
    → ltb 0 (length (collect ms b).raw_ids) ≡ true
unfolding collect
raw_of_unique [] b h = h
raw_of_unique (m ∷ ms) b h = raw_of_unique ms (collect_one b m) (IsSettled-raw b m h)
