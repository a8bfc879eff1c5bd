-- ===== src/Sticky/Store.antt =====
-- internal/provider/sticky_store.go: the 16 shards, and the FNV-1a hash (hash/fnv) that chooses one.
use Prim.Native.Nat.{bit_xor}
use llm_mux_fork.Prelude.{
  ℕ, zero, suc, ◌+◌, ◌*◌, ◌/◌, ◌%◌, ◌++◌, ltb, ◌^◌, ◌==◌, ◌≤◌, ◌≡◌, leb, false, if◌then◌else◌,
  Option, none, some, List, [], ◌∷◌, Text, is_empty, length, arith, Bool-cases, inl, inr,
}
use llm_mux_fork.Clock.{Time}
use llm_mux_fork.Sticky.Shard.{Shard, drop_expired, get, set, sticky_ttl, max_entries_per_shard}
use llm_mux_fork.Sticky.Bounds.{IsValid, set-IsValid, get-IsValid, drop_expired-IsValid}
use llm_mux_fork.Sticky.Reads.{get-set}

abbrev pub num_sticky_shards : ℕ
num_sticky_shards = 16

-- The bytes of a code point in UTF-8.
unfoldable utf8 : ℕ → List ℕ
utf8 c =
    if ltb c 0x80
    then c ∷ []
    else if ltb c 0x800
    then (0xC0 + c / 0x40) ∷ (0x80 + c % 0x40) ∷ []
    else if ltb c 0x10000
    then (0xE0 + c / 0x1000) ∷ (0x80 + c / 0x40 % 0x40) ∷ (0x80 + c % 0x40) ∷ []
    else (0xF0 + c / 0x40000)
      ∷ (0x80 + c / 0x1000 % 0x40)
      ∷ (0x80 + c / 0x40 % 0x40)
      ∷ (0x80 + c % 0x40)
      ∷ []

unfoldable utf8_all : Text → List ℕ
unfolding utf8
utf8_all [] = []
utf8_all (c ∷ s) = utf8 c ++ utf8_all s

fnv1a_from : ℕ → List ℕ → ℕ
fnv1a_from h [] = h
fnv1a_from h (b ∷ bs) = fnv1a_from (bit_xor h b * 1_099_511_628_211 % 2 ^ 64) bs

-- New64a, Write and Sum64, over the bytes of the key in UTF-8.
unfoldable pub hash_key : Text → ℕ
unfolding fnv1a_from utf8_all
hash_key key = fnv1a_from 14_695_981_039_346_656_037 (utf8_all key)

abbrev pub StickyStore : Type 0
StickyStore = ℕ → Shard

unfoldable pub empty_store : StickyStore
empty_store i = []

unfoldable pub shard_of : Text → ℕ
shard_of key = hash_key key % num_sticky_shards

unfoldable pub put_shard : ℕ → Shard → StickyStore → StickyStore
put_shard i s store j = if i == j then s else store j

unfoldable pub get_key : Time → Text → StickyStore → StickyStore × Option Text
get_key now key store =
    let (s, found) = get now key (store (shard_of key)) in (put_shard (shard_of key) s store, found)

unfoldable pub set_key : Time → Text → Text → StickyStore → StickyStore
set_key now key auth_id store =
    put_shard (shard_of key) (set now key auth_id (store (shard_of key))) store

unfoldable pub cleanup_expired : Time → StickyStore → StickyStore
cleanup_expired now store i = drop_expired now (store i)

len_below : ℕ → StickyStore → ℕ
len_below zero store = 0
len_below (suc n) store = len_below n store + length (store n)

-- `Len`
unfoldable pub len : StickyStore → ℕ
unfolding len_below
len = len_below num_sticky_shards

pub data Call : Type 0 where
  gets : Time → Text → Call
  sets : Time → Text → Text → Call
  cleans : Time → Call

unfoldable pub step : StickyStore → Call → StickyStore
unfolding get_key set_key cleanup_expired
step store (gets now key) = (get_key now key store).0
step store (sets now key auth_id) = set_key now key auth_id store
step store (cleans now) = cleanup_expired now store

-- Keys are `provider + ":" + model`, never empty.
abbrev pub HasKey : Call → Type 0
HasKey (gets now key) = is_empty key ≡ false
HasKey (sets now key auth_id) = is_empty key ≡ false
HasKey (cleans now) = Unit

abbrev pub AllHaveKey : List Call → Type 0
AllHaveKey [] = Unit
AllHaveKey (c ∷ cs) = HasKey c × AllHaveKey cs

unfoldable pub run : StickyStore → List Call → StickyStore
run store [] = store
run store (c ∷ cs) = run (step store c) cs

put_shard-IsValid :
    (i : ℕ) (s : Shard) (store : StickyStore)
    → IsValid s
    → ((j : ℕ) → IsValid (store j))
    → (j : ℕ) → IsValid (put_shard i s store j)
unfolding put_shard
put_shard-IsValid i s store v w j = elim (Bool-cases (i == j)) [
  | inl same ↦ rw same v
  | inr another ↦ rw another (w j)
]

put_shard_self : (i : ℕ) (s : Shard) (store : StickyStore) → put_shard i s store i ≡ s
unfolding put_shard
put_shard_self i s store = ground arith

step-IsValid :
    (store : StickyStore) (c : Call)
    → HasKey c
    → ((i : ℕ) → IsValid (store i))
    → (i : ℕ) → IsValid (step store c i)
unfolding step
step-IsValid store (gets now key) k v i =
    put_shard-IsValid _ _ store (get-IsValid now key _ k (v (shard_of key))) v i
step-IsValid store (sets now key auth_id) k v i =
    put_shard-IsValid _ _ store (set-IsValid now key auth_id _ k (v (shard_of key))) v i
step-IsValid store (cleans now) k v i = drop_expired-IsValid now (store i) (v i)

run-IsValid :
    (store : StickyStore) (cs : List Call)
    → AllHaveKey cs
    → ((i : ℕ) → IsValid (store i))
    → (i : ℕ) → IsValid (run store cs i)
unfolding run
run-IsValid store [] k v = v
run-IsValid store (c ∷ cs) k v = run-IsValid (step store c) cs k.1 (step-IsValid store c k.0 v)

len_below-le :
    (n : ℕ) (store : StickyStore)
    → ((i : ℕ) → IsValid (store i))
    → len_below n store ≤ n * max_entries_per_shard
unfolding len_below
len_below-le zero store v = omega arith
len_below-le (suc n) store v = omega (arith, len_below-le n store v, (v n).bounded)

-- After any history of Get, Set and clean-up in which no key is the empty text, from the empty store,
-- no shard holds more than 256 entries and the store no more than 4096.
pub len-run :
    (cs : List Call)
    → AllHaveKey cs
    → ((i : ℕ) → length (run empty_store cs i) ≤ max_entries_per_shard)
      × (len (run empty_store cs) ≤ 4096)
unfolding len
len-run cs k = (λ i. (valid i).bounded, len_below-le 16 (run empty_store cs) valid)
  where
    valid : (i : ℕ) → IsValid (run empty_store cs i)
    valid =
        run-IsValid empty_store cs k
          (λ i. unfold empty_store in (record { bounded = omega arith; keyed = tt }))

-- What a Set stores under a key is what a Get of that key finds for a minute, and no longer.
pub get_key-set_key :
    (now later : Time) (key auth_id : Text) (store : StickyStore)
    → now ≤ later
    → (get_key later key (set_key now key auth_id store)).1
      ≡ (if leb (now + sticky_ttl) later then none else some auth_id)
unfolding get_key set_key
get_key-set_key now later key auth_id store h =
    rw put_shard_self (get-set now later key auth_id (store (shard_of key)) h)
