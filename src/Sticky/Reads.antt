-- ===== src/Sticky/Reads.antt =====
-- internal/provider/sticky_store.go: what a Get returns after a Set, and what the clean-up leaves.
use llm_mux_fork.Prelude.{
  sym, ◌∙◌, ◌+◌, ◌<◌, ◌≤◌, ◌≡◌, refl, inl, inr, leb, true, if◌then◌else◌, Option, none, some, [],
  ◌∷◌, Text, text_eq_iff, lookup, arith, Bool-cases, lookup-insert_self,
}
use llm_mux_fork.Clock.{Time}
use llm_mux_fork.Sticky.Shard.{
  StickyEntry, Shard, sticky_ttl, is_expired, drop_expired, get_entry, get, set_entry, set,
}

lookup-set_entry :
    (now : Time) (key auth_id : Text) (s : Shard) (o : Option StickyEntry)
    → lookup key (set_entry now key auth_id s o)
      ≡ some (record { auth_id = auth_id; last_used = now })
unfolding set_entry
lookup-set_entry now key auth_id s none = lookup-insert_self key _ _
lookup-set_entry now key auth_id s (some f) = lookup-insert_self key _ s

-- For a minute after a Set, the store returns what was set, even where the shard was full; from
-- then on it returns nothing.
pub get-set :
    (now later : Time) (key auth_id : Text) (s : Shard)
    → now ≤ later
    → (get later key (set now key auth_id s)).1
      ≡ (if leb (now + sticky_ttl) later then none else some auth_id)
unfolding get set get_entry is_expired
get-set now later key auth_id s h =
    rw (lookup-set_entry now key auth_id s (lookup key s)) (ground arith)

-- What get_entry answers, without the new shard.
abbrev unexpired : Time → Option StickyEntry → Option Text
unexpired now none = none
unexpired now (some e) = if is_expired now e then none else some e.auth_id

get-unexpired :
    (now : Time) (key : Text) (s : Shard) → (get now key s).1 ≡ unexpired now (lookup key s)
unfolding get
get-unexpired now key s = answer (lookup key s)
  where
    answer : (o : Option StickyEntry) → (get_entry now key s o).1 ≡ unexpired now o
    answer none = unfold get_entry in refl
    answer (some e) = unfold get_entry in ground arith

renewed :
    (now : Time) (key auth_id : Text) (s : Shard) (o : Option StickyEntry)
    → unexpired now o ≡ some auth_id
    → lookup key (get_entry now key s o).0 ≡ some (record { auth_id = auth_id; last_used = now })
renewed now key auth_id s none e = cc
renewed now key auth_id s (some f) e = elim (Bool-cases (is_expired now f)) [
  | inl old ↦ absurd (ground arith)
  | inr young ↦ unfold get_entry in (rw (young, lookup-insert_self key _ s) (ground arith))
]

-- A hit renews the minute: a second Get less than a minute after it finds the same credential.
pub get-get :
    (now later : Time) (key auth_id : Text) (s : Shard)
    → now ≤ later
    → later < now + sticky_ttl
    → (get now key s).1 ≡ some auth_id
    → (get later key (get now key s).0).1 ≡ some auth_id
unfolding is_expired
get-get now later key auth_id s h k found =
    get-unexpired later key _ ∙ (rw renewed_by_get (ground arith))
  where
    renewed_by_get :
        lookup key (get now key s).0 ≡ some (record { auth_id = auth_id; last_used = now })
    renewed_by_get =
        unfold get in
        renewed now key auth_id s (lookup key s) (sym (get-unexpired now key s) ∙ found)

-- Each key stands once, as in a Go map.
abbrev pub Distinct : Shard → Type 0
Distinct [] = Unit
Distinct ((k, e) ∷ s) = (lookup k s ≡ none) × Distinct s

lookup_absent :
    (now : Time) (key : Text) (s : Shard)
    → lookup key s ≡ none
    → lookup key (drop_expired now s) ≡ none
unfolding drop_expired lookup
lookup_absent now key [] h = refl
lookup_absent now key ((k, e) ∷ s) h = elim (Bool-cases (is_expired now e)) [
  | inl old ↦ rw old (lookup_absent now key s (ground arith))
  | inr young ↦ rw young (ground (arith, lookup_absent now key s))
]

is_expired_mono :
    (now later : Time) (e : StickyEntry)
    → now ≤ later
    → is_expired now e ≡ true
    → is_expired later e ≡ true
unfolding is_expired
is_expired_mono now later e h old = ground arith

unexpired-drop_expired :
    (now later : Time) (key : Text) (s : Shard)
    → now ≤ later
    → Distinct s
    → unexpired later (lookup key (drop_expired now s)) ≡ unexpired later (lookup key s)
unfolding drop_expired lookup
unexpired-drop_expired now later key [] h d = refl
unexpired-drop_expired now later key ((k, e) ∷ s) h d = elim (Bool-cases (is_expired now e)) [
  | inl old ↦ rw old (
      ground (
        arith,
        text_eq_iff k key,
        lookup_absent now k s d.0,
        is_expired_mono now later e h old,
        unexpired-drop_expired now later key s h d.1,
      ))
  | inr young ↦ rw young (ground (arith, unexpired-drop_expired now later key s h d.1))
]

-- The background clean-up is not seen: it changes no answer of a Get at its time or later.
pub get-drop_expired :
    (now later : Time) (key : Text) (s : Shard)
    → now ≤ later
    → Distinct s
    → (get later key (drop_expired now s)).1 ≡ (get later key s).1
get-drop_expired now later key s h d =
    get-unexpired later key (drop_expired now s)
    ∙ unexpired-drop_expired now later key s h d
    ∙ sym (get-unexpired later key s)
