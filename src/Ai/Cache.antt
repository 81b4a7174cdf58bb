-- ===== src/Ai/Cache.antt =====
-- ai/cache.py: an LRU in front of Redis. A client of Redis is third-party code: each of its calls has a
-- reply here, which may be a failure.
pub mod Lru
pub mod Kept
pub mod Evicted
use yadakchi.Prelude.{
  ℕ, ◌+◌, suc, String, Bool, true, false, not, ◌&&◌, ◌||◌, Option, none, some, List, [], ◌∷◌, ◌++◌,
  ltb, if◌then◌else◌, length,
}
use yadakchi.Prelude.Keyed.{lookup, remove}

-- What a call over the network comes back with.
pub data Reply {ℓ} (A : Type ℓ) : Type ℓ where
  failed : Reply A
  replied : A → Reply A

-- A text of the in-process layer.
pub record Entry : Type 0 where
  pub key : String
  pub raw : String

abbrev pub entry_key : Entry → String
entry_key e = e.key

-- `lru` has the oldest entry first; `redis` says whether there is a client.
pub record Cache : Type 0 where
  pub enabled : Bool
  pub max_entries : ℕ
  pub lru : List Entry
  pub redis : Bool
  pub redis_configured : Bool
  pub redis_ok : Bool
  pub warned : Bool

-- `_degrade`
abbrev pub degrade : Cache → Cache
degrade c = record c { redis_ok = false; warned = true }

abbrev pub answered : Cache → Cache
answered c = record c { redis_ok = true }

-- `_ping`
unfoldable pub ping : Reply (Unit {0}) → Cache → Bool × Cache
ping reply c = if c.redis then heard reply c else (false, c)
  where
    heard : Reply (Unit {0}) → Cache → Bool × Cache
    heard failed c = (false, degrade c)
    heard (replied _) c = (true, answered c)

-- `connect`; `url` says whether one is set.
unfoldable pub connect : Bool → Reply (Unit {0}) → Cache → Cache
unfolding ping
connect url reply c =
    if not c.enabled || c.redis
    then if c.redis then (ping reply c).1 else c
    else if not url
    then c
    else (ping reply (record c { redis = true })).1

-- `aclose`
unfoldable pub aclose : Cache → Cache
aclose c = if c.redis then record c { redis = false; redis_ok = false } else c

pub data RedisStatus : Type 0 where
  up : RedisStatus
  down : RedisStatus
  disabled : RedisStatus

pub redis_status : Cache → RedisStatus
redis_status c =
    if not c.enabled
    then disabled
    else if not c.redis_configured
    then disabled
    else if c.redis_ok
    then up
    else down

-- `while len(self._lru) > self._max_entries: self._lru.popitem(last=False)`
unfoldable pub evict : ℕ → List Entry → List Entry
evict n [] = []
evict n (e ∷ es) = let rest = evict n es in if ltb n (length (e ∷ es)) then rest else e ∷ es

-- An entry at the end, in place of one that has its key.
abbrev pub moved : Entry → List Entry → List Entry
moved e es = remove entry_key e.key es ++ e ∷ []

-- `_remember`
unfoldable pub remember : String → String → Cache → Cache
unfolding evict
remember key raw c = record c {
  lru = evict c.max_entries (moved (record { key = key; raw = raw }) c.lru);
}

module _ {A : Type 0} (decode : String → Option A) where
  abbrev pub fetched : Bool → Reply (Option String) → String → Cache → Option A × Cache
  fetched false reply key c = (none, c)
  fetched true failed key c = (none, degrade c)
  fetched true (replied none) key c = (none, answered c)
  fetched true (replied (some raw)) key c = (decode raw, remember key raw (answered c))

  abbrev pub looked_up : Option Entry → Reply (Option String) → String → Cache → Option A × Cache
  looked_up (some e) reply key c = (decode e.raw, record c { lru = moved e c.lru })
  looked_up none reply key c = fetched c.redis reply key c

  -- `get`
  unfoldable pub get : Reply (Option String) → String → Cache → Option A × Cache
  unfolding remember
  get reply key c =
      if c.enabled then looked_up (lookup entry_key key c.lru) reply key c else (none, c)

abbrev pub written : Bool → Reply (Unit {0}) → Cache → Cache
written false reply c = c
written true failed c = degrade c
written true (replied _) c = answered c

-- `set` of a text, the JSON of a value.
unfoldable pub set : Reply (Unit {0}) → String → String → Cache → Cache
unfolding remember
set reply key raw c = if c.enabled then written c.redis reply (remember key raw c) else c
