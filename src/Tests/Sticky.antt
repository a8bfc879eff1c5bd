-- ===== src/Tests/Sticky.antt =====
-- Concrete calls for internal/provider/sticky_store.go.
use llm_mux_fork.Prelude.{
  ℕ, zero, suc, ◌+◌, ◌≤◌, ◌<◌, ◌≡◌, refl, false, some, [], ◌∷◌, Text, txt, is_empty, lookup, length,
  arith, text_eq,
}
use llm_mux_fork.Tests.Samples.{now}
use llm_mux_fork.Clock.{second}
use llm_mux_fork.Sticky.Shard.{Shard, get, evict_while_full, max_entries_per_shard, is_expired}
use llm_mux_fork.Sticky.Bounds.{Keyed, evict_while_full_lem}
use llm_mux_fork.Sticky.Reads.{Distinct}
use llm_mux_fork.Sticky.Store.{
  empty_store, get_key, set_key, len, gets, sets, cleans, run, len-run, get_key-set_key,
}

abbrev key : Text
key = txt "claude:claude-sonnet-4"

abbrev shard : Shard
shard = (key, record { auth_id = txt "a"; last_used = now }) ∷ []

-- `n` entries with the same key.
abbrev copies : ℕ → Shard
copies zero = []
copies (suc n) = (txt "k", record { auth_id = txt "a"; last_used = n }) ∷ copies n

key_named : is_empty key ≡ false
unfolding is_empty
key_named = refl

copies-Keyed : (n : ℕ) → Keyed (copies n)
unfolding is_empty
copies-Keyed zero = tt
copies-Keyed (suc n) = (refl, copies-Keyed n)

length-copies : (n : ℕ) → length (copies n) ≡ n
length-copies zero = refl
length-copies (suc n) = omega (arith, length-copies n)

len-run_example :
    ((i : ℕ)
      → length
          (run empty_store (sets now key (txt "a") ∷ gets (now + second) key ∷ cleans now ∷ []) i)
        ≤ max_entries_per_shard)
    × (len (run empty_store (sets now key (txt "a") ∷ gets (now + second) key ∷ cleans now ∷ []))
        ≤ 4096)
len-run_example =
    len-run (sets now key (txt "a") ∷ gets (now + second) key ∷ cleans now ∷ [])
      (key_named, (key_named, (tt, tt)))

get_key-set_key_example :
    (get_key (now + second) key (set_key now key (txt "a") empty_store)).1 ≡ some (txt "a")
get_key-set_key_example = get_key-set_key now (now + second) key (txt "a") empty_store (omega arith)

found : (get now key shard).1 ≡ some (txt "a")
unfolding get is_expired lookup text_eq
found = refl

shard-Distinct : Distinct shard
unfolding lookup
shard-Distinct = (refl, tt)

evict_while_full_lem_example :
    Keyed (evict_while_full 301 (copies 300))
    × (length (evict_while_full 301 (copies 300)) < max_entries_per_shard)
evict_while_full_lem_example =
    evict_while_full_lem 301 (copies 300) (omega (arith, length-copies 300)) (copies-Keyed 300)
