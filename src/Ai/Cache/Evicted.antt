-- ===== src/Ai/Cache/Evicted.antt =====
-- What ai/cache.py evicts.
use yadakchi.Prelude.{
  ◌≡◌, sym, ap, ◌∙◌, inl, inr, ℕ, ◌≤◌, ◌<◌, String, Bool, true, false, not, ◌&&◌, none, List, [],
  ◌∷◌, ◌++◌, arith, str_eq, str_eq_iff, Bool-cases, Option-cases, ◌==◌, is_some, if◌then◌else◌,
  length,
}
use yadakchi.Prelude.Keyed.{lookup, remove, lookup-remove_ne}
use yadakchi.Ai.Cache.{Reply, Entry, entry_key, Cache, evict, moved, remember, set}
use yadakchi.Ai.Cache.Kept.{IsValid, set-lru}
use yadakchi.Ai.Cache.Lru.{
  IsKeyed, length-append, length-remove_found, remove_absent, lookup-snoc_ne, evict_fits,
  evict-cons,
}

-- The entries after a value was stored: the oldest makes place, if the layer is full.
abbrev is_oldest : String → List Entry → Bool
is_oldest j [] = false
is_oldest j (e ∷ es) = str_eq e.key j

evict-snoc :
    (n : ℕ) (es : List Entry) (e : Entry) (j : String)
    → length es ≤ n
    → 0 < n
    → IsKeyed es
    → str_eq e.key j ≡ false
    → lookup entry_key j (evict n (es ++ e ∷ []))
      ≡ (if length es == n && is_oldest j es then none else lookup entry_key j es)
evict-snoc n [] e j fit pos k ne =
    ap (lookup entry_key j) (evict_fits n (e ∷ []) (omega arith)) ∙ ground arith
evict-snoc n (x ∷ xs) e j fit pos k ne = elim (Bool-cases (length (x ∷ xs) == n)) [
  | inl full ↦
      ap (lookup entry_key j) (evict-cons n x (xs ++ e ∷ []) (ground (arith, length-append xs e)))
      ∙ ap (lookup entry_key j) (evict_fits n (xs ++ e ∷ []) (ground (arith, length-append xs e)))
      ∙ lookup-snoc_ne j xs e ne
      ∙ ground (arith, str_eq_iff x.key j, k.0)
  | inr free ↦
      ap (lookup entry_key j) (evict_fits n (x ∷ xs ++ e ∷ []) (ground (arith, length-append xs e)))
      ∙ lookup-snoc_ne j (x ∷ xs) e ne
      ∙ rw free
]

abbrev pub gives_way : String → String → Cache → Bool
gives_way j key c =
    not (is_some (lookup entry_key key c.lru))
    && (length c.lru == c.max_entries && is_oldest j c.lru)

-- In a valid cache that is on and has room for an entry, storing a value under one key leaves what
-- another key finds in the in-process layer as it was, unless that other key is the oldest one,
-- the layer is full and the first key is new; then it finds nothing.
pub lookup-set :
    (reply : Reply (Unit {0})) (key raw j : String) (c : Cache)
    → IsValid c
    → c.enabled ≡ true
    → 0 < c.max_entries
    → str_eq key j ≡ false
    → lookup entry_key j (set reply key raw c).lru
      ≡ (if gives_way j key c then none else lookup entry_key j c.lru)
unfolding remember
lookup-set reply key raw j c v on pos ne =
    let new : Entry = record { key = key; raw = raw } in
    ap (lookup entry_key j) (set-lru reply key raw c on)
    ∙ elim (Option-cases (lookup entry_key key c.lru)) [
      | inl absent ↦
          ap (λ es. lookup entry_key j (evict c.max_entries (es ++ new ∷ [])))
            (remove_absent key c.lru absent)
          ∙ evict-snoc c.max_entries c.lru new j v.bounded pos v.keyed ne
          ∙ ap
              (λ o.
                if not (is_some o) && (length c.lru == c.max_entries && is_oldest j c.lru)
                then none
                else lookup entry_key j c.lru)
              (sym absent)
      | inr (e, found) ↦
          ap (lookup entry_key j) (
            evict_fits c.max_entries (moved new c.lru) (
              omega (
                arith,
                length-append (remove entry_key key c.lru) new,
                length-remove_found key c.lru (λ n. cc (rw found at n)),
                v.bounded,
              )))
          ∙ lookup-snoc_ne j (remove entry_key key c.lru) new ne
          ∙ lookup-remove_ne entry_key j key c.lru ne
          ∙ ap
              (λ o.
                if not (is_some o) && (length c.lru == c.max_entries && is_oldest j c.lru)
                then none
                else lookup entry_key j c.lru)
              (sym found)
    ]
