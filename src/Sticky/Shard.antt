-- ===== src/Sticky/Shard.antt =====
-- internal/provider/sticky_store.go: one shard of the sticky store, a map of at most 256 entries.
-- `lastUsed` is a time; `now.Sub(lastUsed) >= stickyTTL` is read as an order of times.
use llm_mux_fork.Prelude.{
  ℕ, zero, suc, ◌*◌, leb, leb_ℤ, pos, Bool, ◌||◌, if◌then◌else◌, Option, none, some, [], ◌∷◌, Text,
  txt, is_empty, Map, lookup, insert, delete, length,
}
use llm_mux_fork.Clock.{Time, zero_time, sub, before, second}

abbrev pub max_entries_per_shard : ℕ
max_entries_per_shard = 256

abbrev pub sticky_ttl : ℕ
sticky_ttl = 60 * second

pub record StickyEntry : Type 0 where
  pub auth_id : Text
  pub last_used : Time

abbrev pub Shard : Type 0
Shard = Map StickyEntry

-- `now.Sub(entry.lastUsed) >= stickyTTL`
unfoldable pub is_expired : Time → StickyEntry → Bool
is_expired now e = leb_ℤ (pos sticky_ttl) (sub now e.last_used)

-- The first pass of evictOldest, and the loop of cleanupExpired.
unfoldable pub drop_expired : Time → Shard → Shard
unfolding is_expired
drop_expired now [] = []
drop_expired now ((k, e) ∷ s) =
    let rest = drop_expired now s in if is_expired now e then rest else (k, e) ∷ rest

-- The inner loop of the second pass: `oldestKey` and `oldestTime` so far.
unfoldable pub find_oldest : Text → Time → Shard → Text
find_oldest key time [] = key
find_oldest key time ((k, e) ∷ s) =
    let take = is_empty key || before e.last_used time in
    find_oldest (if take then k else key) (if take then e.last_used else time) s

-- The second pass: at most `fuel` rounds, one more than the entries is enough.
unfoldable pub evict_while_full : ℕ → Shard → Shard
unfolding find_oldest
evict_while_full zero s = s
evict_while_full (suc fuel) s =
    let oldest = find_oldest (txt "") zero_time s in
    let rest = evict_while_full fuel (delete oldest s) in
    if leb max_entries_per_shard (length s) then (if is_empty oldest then s else rest) else s

unfoldable pub evict_oldest : Time → Shard → Shard
unfolding drop_expired evict_while_full
evict_oldest now s = let live = drop_expired now s in evict_while_full (suc (length live)) live

-- `Get`: what is found, and the entry's time set to now.
unfoldable pub get_entry : Time → Text → Shard → Option StickyEntry → Shard × Option Text
unfolding is_expired
get_entry now key s none = (s, none)
get_entry now key s (some e) =
    if is_expired now e
    then (s, none)
    else (insert key (record e { last_used = now }) s, some e.auth_id)

unfoldable pub get : Time → Text → Shard → Shard × Option Text
unfolding get_entry
get now key s = get_entry now key s (lookup key s)

-- `Set`
unfoldable pub set_entry : Time → Text → Text → Shard → Option StickyEntry → Shard
unfolding evict_oldest
set_entry now key auth_id s (some e) = insert key (record { auth_id = auth_id; last_used = now }) s
set_entry now key auth_id s none =
    let room = if leb max_entries_per_shard (length s) then evict_oldest now s else s in
    insert key (record { auth_id = auth_id; last_used = now }) room

unfoldable pub set : Time → Text → Text → Shard → Shard
unfolding set_entry
set now key auth_id s = set_entry now key auth_id s (lookup key s)
