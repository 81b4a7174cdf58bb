-- ===== src/Ai/Cache/Kept.antt =====
-- What a cache of ai/cache.py keeps.
use yadakchi.Prelude.{
  ◌≡◌, refl, sym, ap, subst, ◌∙◌, inl, inr, ◌≤◌, ◌<◌, String, Bool, true, false, Option, none, some,
  arith, Bool-cases, if◌then◌else◌, length,
}
use yadakchi.Prelude.Keyed.{lookup, remove, lookup-remove_self, key-lookup}
use yadakchi.Ai.Cache.{
  Reply, failed, replied, Entry, entry_key, Cache, answered, remember, fetched, looked_up, get,
  written, set,
}
use yadakchi.Ai.Cache.Lru.{
  IsKeyed, length-append, length-remove_found, moved-IsKeyed, evict-IsKeyed, length-evict,
  lookup-evict_last,
}

pub record IsValid (c : Cache) : Type 0 where
  pub bounded : length c.lru ≤ c.max_entries
  pub keyed : IsKeyed c.lru
  pub linked : c.redis_ok ≡ true → c.redis ≡ true

remember-IsValid : (key raw : String) (c : Cache) → IsValid c → IsValid (remember key raw c)
unfolding remember
remember-IsValid key raw c v = record {
  bounded = length-evict c.max_entries _;
  keyed = evict-IsKeyed c.max_entries _ (moved-IsKeyed _ c.lru v.keyed);
  linked = v.linked;
}

written-lru : (b : Bool) (reply : Reply (Unit {0})) (c : Cache) → (written b reply c).lru ≡ c.lru
written-lru false reply c = refl
written-lru true failed c = refl
written-lru true (replied _) c = refl

written-enabled :
    (b : Bool) (reply : Reply (Unit {0})) (c : Cache) → (written b reply c).enabled ≡ c.enabled
written-enabled false reply c = refl
written-enabled true failed c = refl
written-enabled true (replied _) c = refl

remember-redis : (key raw : String) (c : Cache) → (remember key raw c).redis ≡ c.redis
unfolding remember
remember-redis key raw c = refl

-- What `set` does where the cache is on, or off.
set_on :
    (reply : Reply (Unit {0})) (key raw : String) (c : Cache)
    → c.enabled ≡ true
    → set reply key raw c ≡ written c.redis reply (remember key raw c)
unfolding set
set_on reply key raw c on = ap (λ b. if b then written c.redis reply (remember key raw c) else c) on

set_off :
    (reply : Reply (Unit {0})) (key raw : String) (c : Cache)
    → c.enabled ≡ false
    → set reply key raw c ≡ c
unfolding set
set_off reply key raw c off =
    ap (λ b. if b then written c.redis reply (remember key raw c) else c) off

pub set-lru :
    (reply : Reply (Unit {0})) (key raw : String) (c : Cache)
    → c.enabled ≡ true
    → (set reply key raw c).lru ≡ (remember key raw c).lru
set-lru reply key raw c on =
    ap (λ d. d.lru) (set_on reply key raw c on) ∙ written-lru c.redis reply (remember key raw c)

written-IsValid :
    (b : Bool) (reply : Reply (Unit {0})) (c : Cache)
    → c.redis ≡ b
    → IsValid c
    → IsValid (written b reply c)
written-IsValid false reply c e v = v
written-IsValid true failed c e v = record { bounded = v.bounded; keyed = v.keyed; linked = λ h. e }
written-IsValid true (replied _) c e v = record {
  bounded = v.bounded;
  keyed = v.keyed;
  linked = λ h. e;
}

-- A value that is stored leaves the layer valid.
set-IsValid :
    (reply : Reply (Unit {0})) (key raw : String) (c : Cache)
    → IsValid c
    → IsValid (set reply key raw c)
set-IsValid reply key raw c v = elim (Bool-cases c.enabled) [
  | inl on ↦ subst IsValid (sym (set_on reply key raw c on)) (
      written-IsValid c.redis reply (remember key raw c) (remember-redis key raw c)
        (remember-IsValid key raw c v))
  | inr off ↦ subst IsValid (sym (set_off reply key raw c off)) v
]

set-enabled :
    (reply : Reply (Unit {0})) (key raw : String) (c : Cache)
    → (set reply key raw c).enabled ≡ c.enabled
unfolding set
set-enabled reply key raw c = elim (Bool-cases c.enabled) [
  | inl on ↦
      ap (λ d. d.enabled) (set_on reply key raw c on)
      ∙ written-enabled c.redis reply (remember key raw c)
  | inr off ↦ ap (λ d. d.enabled) (set_off reply key raw c off)
]

-- The newest entry is found.
remembered :
    (key raw : String) (c : Cache)
    → 0 < c.max_entries
    → lookup entry_key key (remember key raw c).lru ≡ some (record { key = key; raw = raw })
unfolding remember
remembered key raw c pos =
    lookup-evict_last c.max_entries (remove entry_key key c.lru) _ pos
      (lookup-remove_self entry_key key c.lru)

module _ {A : Type 0} (decode : String → Option A) where
  get_on :
      (reply : Reply (Option String)) (key : String) (c : Cache)
      → c.enabled ≡ true
      → get decode reply key c ≡ looked_up decode (lookup entry_key key c.lru) reply key c
  unfolding get
  get_on reply key c on =
      ap (λ b. if b then looked_up decode (lookup entry_key key c.lru) reply key c else (none, c))
        on

  fetched-IsValid :
      (b : Bool) (reply : Reply (Option String)) (key : String) (c : Cache)
      → c.redis ≡ b
      → IsValid c
      → IsValid (fetched decode b reply key c).1
  fetched-IsValid false reply key c e v = v
  fetched-IsValid true failed key c e v = record {
    bounded = v.bounded;
    keyed = v.keyed;
    linked = λ h. e;
  }
  fetched-IsValid true (replied none) key c e v = record {
    bounded = v.bounded;
    keyed = v.keyed;
    linked = λ h. e;
  }
  fetched-IsValid true (replied (some raw)) key c e v =
      remember-IsValid key raw (answered c)
        (record { bounded = v.bounded; keyed = v.keyed; linked = λ h. e })

  looked_up-IsValid :
      (o : Option Entry) (reply : Reply (Option String)) (key : String) (c : Cache)
      → lookup entry_key key c.lru ≡ o
      → IsValid c
      → IsValid (looked_up decode o reply key c).1
  looked_up-IsValid none reply key c h v = fetched-IsValid c.redis reply key c refl v
  looked_up-IsValid (some e) reply key c h v =
      let k = key-lookup entry_key key c.lru e h in
      record {
        bounded = omega (
          arith,
          length-append (remove entry_key e.key c.lru) e,
          length-remove_found e.key c.lru (λ n. cc (rw (k, h) at n)),
          v.bounded,
        );
        keyed = moved-IsKeyed e c.lru v.keyed;
        linked = v.linked;
      }

  -- So does a value that is looked up.
  get-IsValid :
      (reply : Reply (Option String)) (key : String) (c : Cache)
      → IsValid c
      → IsValid (get decode reply key c).1
  unfolding get
  get-IsValid reply key c v = elim (Bool-cases c.enabled) [
    | inl on ↦
        subst (λ (r : Option A × Cache). IsValid (r.1)) (sym (get_on reply key c on))
          (looked_up-IsValid (lookup entry_key key c.lru) reply key c refl v)
    | inr off ↦
        subst
          (λ b.
            IsValid
              (if b
                then looked_up decode (lookup entry_key key c.lru) reply key c
                else (none, c)).1)
          (sym off) v
  ]

  -- Storing a value and looking one up leave the in-process layer within its size and without two
  -- entries of one key, and the Redis client is only marked as working if there is one, if all
  -- this was so before.
  pub set-get-IsValid :
      (written_reply : Reply (Unit {0})) (read_reply : Reply (Option String)) (key raw : String)
      (c : Cache)
      → IsValid c
      → IsValid (set written_reply key raw c) × IsValid (get decode read_reply key c).1
  set-get-IsValid written_reply read_reply key raw c v =
      (set-IsValid written_reply key raw c v, get-IsValid read_reply key c v)

  -- What was stored is found.
  pub get-set :
      (reply : Reply (Unit {0})) (reply' : Reply (Option String)) (key raw : String) (c : Cache)
      → c.enabled ≡ true
      → 0 < c.max_entries
      → (get decode reply' key (set reply key raw c)).0 ≡ decode raw
  get-set reply reply' key raw c on pos =
      let d = set reply key raw c in
      let e : Entry = record { key = key; raw = raw } in
      let there : lookup entry_key key d.lru ≡ some e =
        ap (lookup entry_key key) (set-lru reply key raw c on) ∙ remembered key raw c pos in
      ap (λ r. r.0) (get_on reply' key d (set-enabled reply key raw c ∙ on))
      ∙ ap (λ o. (looked_up decode o reply' key d).0) there
