-- ===== src/Ai/Cache/Lru.antt =====
-- The entries of the in-process layer of ai/cache.py.
use yadakchi.Prelude.{
  ◌≡◌, ◌≢◌, refl, ◌∙◌, inl, inr, ℕ, ◌+◌, ◌≤◌, ◌<◌, String, false, none, some, List, [], ◌∷◌, ◌++◌,
  arith, str_eq, str_eq_iff, str_eq_refl, Bool-cases, ltb, if◌then◌else◌, length,
}
use yadakchi.Prelude.Keyed.{lookup, remove, lookup-remove_self}
use yadakchi.Ai.Cache.{Entry, entry_key, evict, moved}

-- No two entries have one key.
abbrev pub IsKeyed : List Entry → Type 0
IsKeyed [] = Unit {0}
IsKeyed (e ∷ es) = (lookup entry_key e.key es ≡ none) × IsKeyed es

pub length-append : (xs : List Entry) (e : Entry) → length (xs ++ e ∷ []) ≡ length xs + 1
length-append [] e = omega arith
length-append (x ∷ xs) e = omega (arith, length-append xs e)

pub length-remove : (k : String) (es : List Entry) → length (remove entry_key k es) ≤ length es
unfolding remove
length-remove k [] = omega arith
length-remove k (e ∷ es) = ground (arith, length-remove k es)

-- An entry that is there is taken out.
pub length-remove_found :
    (k : String) (es : List Entry)
    → (lookup entry_key k es ≢ none)
    → length (remove entry_key k es) + 1 ≤ length es
unfolding remove
length-remove_found k [] h = absurd (h refl)
length-remove_found k (x ∷ es) h = elim (Bool-cases (str_eq x.key k)) [
  | inl same ↦ rw same (omega (arith, length-remove k es))
  | inr other ↦ rw other (omega (arith, length-remove_found k es (rw other at h)))
]

pub remove_absent :
    (k : String) (es : List Entry) → lookup entry_key k es ≡ none → remove entry_key k es ≡ es
unfolding remove
remove_absent k [] h = refl
remove_absent k (e ∷ es) h = ground (arith, remove_absent k es)

lookup-remove-none :
    (j k : String) (es : List Entry)
    → lookup entry_key j es ≡ none
    → lookup entry_key j (remove entry_key k es) ≡ none
unfolding remove
lookup-remove-none j k [] h = refl
lookup-remove-none j k (e ∷ es) h = ground (arith, lookup-remove-none j k es)

lookup-snoc :
    (j : String) (es : List Entry) (e : Entry)
    → lookup entry_key j es ≡ none
    → lookup entry_key j (es ++ e ∷ []) ≡ (if str_eq e.key j then some e else none)
lookup-snoc j [] e h = refl
lookup-snoc j (x ∷ es) e h = ground (arith, lookup-snoc j es e)

pub lookup-snoc_ne :
    (j : String) (es : List Entry) (e : Entry)
    → str_eq e.key j ≡ false
    → lookup entry_key j (es ++ e ∷ []) ≡ lookup entry_key j es
lookup-snoc_ne j [] e ne = rw ne refl
lookup-snoc_ne j (x ∷ es) e ne = ground (arith, lookup-snoc_ne j es e ne)

remove-IsKeyed : (k : String) (es : List Entry) → IsKeyed es → IsKeyed (remove entry_key k es)
unfolding remove
remove-IsKeyed k [] h = tt
remove-IsKeyed k (e ∷ es) (new, rest) = elim (Bool-cases (str_eq e.key k)) [
  | inl same ↦ rw same (remove-IsKeyed k es rest)
  | inr other ↦ rw other (lookup-remove-none e.key k es new, remove-IsKeyed k es rest)
]

snoc-IsKeyed :
    (es : List Entry) (e : Entry)
    → lookup entry_key e.key es ≡ none
    → IsKeyed es
    → IsKeyed (es ++ e ∷ [])
snoc-IsKeyed [] e h k = (refl, tt)
snoc-IsKeyed (x ∷ es) e h (new, rest) = elim (Bool-cases (str_eq x.key e.key)) [
  | inl same ↦ absurd (cc (rw same at h))
  | inr other ↦ (
    lookup-snoc_ne x.key es e (ground (arith, str_eq_iff x.key e.key, str_eq_iff e.key x.key))
        ∙ new,
    snoc-IsKeyed es e (rw other at h) rest,
  )
]

pub moved-IsKeyed : (e : Entry) (es : List Entry) → IsKeyed es → IsKeyed (moved e es)
moved-IsKeyed e es k =
    snoc-IsKeyed (remove entry_key e.key es) e (lookup-remove_self entry_key e.key es)
      (remove-IsKeyed e.key es k)

length-moved : (e : Entry) (es : List Entry) → length (moved e es) ≤ length es + 1
length-moved e es =
    omega (arith, length-append (remove entry_key e.key es) e, length-remove e.key es)

pub evict-IsKeyed : (n : ℕ) (es : List Entry) → IsKeyed es → IsKeyed (evict n es)
unfolding evict
evict-IsKeyed n [] k = tt
evict-IsKeyed n (e ∷ es) k = elim (Bool-cases (ltb n (length (e ∷ es)))) [
  | inl more ↦ rw (evict, more) (evict-IsKeyed n es (k.1))
  | inr enough ↦ rw (evict, enough) k
]

pub length-evict : (n : ℕ) (es : List Entry) → length (evict n es) ≤ n
unfolding evict
length-evict n [] = omega arith
length-evict n (e ∷ es) = ground (arith, length-evict n es)

pub evict_fits : (n : ℕ) (es : List Entry) → length es ≤ n → evict n es ≡ es
unfolding evict
evict_fits n [] h = refl
evict_fits n (e ∷ es) h = ground arith

pub evict-cons :
    (n : ℕ) (e : Entry) (es : List Entry) → n < length (e ∷ es) → evict n (e ∷ es) ≡ evict n es
unfolding evict
evict-cons n e es h = ground arith

-- The newest entry stays.
pub lookup-evict_last :
    (n : ℕ) (es : List Entry) (e : Entry)
    → 0 < n
    → lookup entry_key e.key es ≡ none
    → lookup entry_key e.key (evict n (es ++ e ∷ [])) ≡ some e
unfolding evict
lookup-evict_last n [] e pos new = ground (arith, str_eq_refl e.key)
lookup-evict_last n (x ∷ es) e pos new = elim (Bool-cases (ltb n (length (x ∷ es ++ e ∷ [])))) [
  | inl more ↦ rw (evict, more) (lookup-evict_last n es e pos (ground arith))
  | inr enough ↦ rw (evict, enough) (lookup-snoc e.key (x ∷ es) e new ∙ rw (str_eq_refl e.key) refl)
]
