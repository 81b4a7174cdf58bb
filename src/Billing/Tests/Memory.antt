-- ===== src/Billing/Tests/Memory.antt =====
-- A store in memory that keeps what billing/click_queue.py and billing/drain.py ask of Redis.
use yadakchi.Prelude.{
  ◌≡◌, refl, ◌≢◌, ◌∙◌, sym, inl, inr, ℕ, zero, suc, ◌+◌, String, Bool, true, false, ◌&&◌, Option,
  none, some, List, [], ◌∷◌, ◌++◌, arith, ltb, ◌==◌, if◌then◌else◌, Bool-cases, str_eq, str_eq_refl,
  str_eq_iff,
}
use yadakchi.Billing.Queue.{
  RedisKey, nonce_key, ip_key, repeat_key, velocity_key, review_key, Queue, pending, processing,
  Redis, IsKeyStore,
}
use yadakchi.Billing.Drain.{remove_first, IsQueueStore}

record Code : Type 0 where
  kind : ℕ
  first : String
  second : String
  number : ℕ

abbrev code_of : RedisKey → Code
code_of (nonce_key a) = record { kind = 0; first = a; second = ""; number = 0 }
code_of (ip_key a b) = record { kind = 1; first = a; second = b; number = 0 }
code_of (repeat_key a b) = record { kind = 2; first = a; second = b; number = 0 }
code_of (velocity_key a) = record { kind = 3; first = a; second = ""; number = 0 }
code_of (review_key a n) = record { kind = 4; first = a; second = ""; number = n }

abbrev key_at : ℕ → String → String → ℕ → RedisKey
key_at zero a b n = nonce_key a
key_at (suc zero) a b n = ip_key a b
key_at (suc (suc zero)) a b n = repeat_key a b
key_at (suc (suc (suc zero))) a b n = velocity_key a
key_at (suc (suc (suc (suc m)))) a b n = review_key a n

abbrev key_of : Code → RedisKey
key_of c = key_at c.kind c.first c.second c.number

key_of-code_of : (k : RedisKey) → key_of (code_of k) ≡ k
key_of-code_of (nonce_key a) = refl
key_of-code_of (ip_key a b) = refl
key_of-code_of (repeat_key a b) = refl
key_of-code_of (velocity_key a) = refl
key_of-code_of (review_key a n) = refl

abbrev code_eq : Code → Code → Bool
code_eq c d =
    c.kind == d.kind
    && (str_eq c.first d.first && (str_eq c.second d.second && c.number == d.number))

code_eq_refl : (c : Code) → code_eq c c ≡ true
code_eq_refl c = ground (arith, str_eq_refl c.first, str_eq_refl c.second)

code_eq_sound : (c d : Code) → code_eq c d ≡ true → key_of c ≡ key_of d
code_eq_sound c d h = ground (arith, str_eq_iff c.first d.first, str_eq_iff c.second d.second)

abbrev key_eq : RedisKey → RedisKey → Bool
key_eq j k = code_eq (code_of j) (code_of k)

key_eq_ne : (j k : RedisKey) → j ≢ k → key_eq j k ≡ false
key_eq_ne j k ne = elim (Bool-cases (key_eq j k)) [
  | inl same ↦
      absurd (
        ne (sym (key_of-code_of j) ∙ code_eq_sound (code_of j) (code_of k) same ∙ key_of-code_of k))
  | inr apart ↦ apart
]

pub record Memory : Type 0 where
  pub until : RedisKey → ℕ
  pub counts : RedisKey → ℕ
  pub pending_list : List String
  pub processing_list : List String

abbrev pub empty_memory : Memory
empty_memory = record { until = λ _. 0; counts = λ _. 0; pending_list = []; processing_list = [] }

abbrev is_live : RedisKey → ℕ → Memory → Bool
is_live k now m = ltb now (m.until k)

abbrev keep_until : RedisKey → ℕ → Memory → Memory
keep_until k t m = record m { until = λ j. if key_eq j k then t else m.until j }

-- Without an expiry a key stays for a long time.
abbrev count_up : RedisKey → ℕ → Memory → ℕ × Memory
count_up k now m =
    if is_live k now m
    then (
      m.counts k + 1,
      record m { counts = λ j. if key_eq j k then m.counts j + 1 else m.counts j },
    )
    else (
      1,
      record (keep_until k (now + 1000000) m) {
        counts = λ j. if key_eq j k then 1 else m.counts j;
      },
    )

abbrev list_of : Queue → Memory → List String
list_of pending m = m.pending_list
list_of processing m = m.processing_list

abbrev with_list : Queue → List String → Memory → Memory
with_list pending xs m = record m { pending_list = xs }
with_list processing xs m = record m { processing_list = xs }

abbrev split_last : List String → Option (List String × String)
split_last [] = none
split_last (x ∷ xs) = elim (split_last xs) [ none ↦ some ([], x) | some (ys, y) ↦ some (x ∷ ys, y) ]

split_last-snoc : (xs : List String) (x : String) → split_last (xs ++ x ∷ []) ≡ some (xs, x)
split_last-snoc [] x = refl
split_last-snoc (y ∷ xs) x = rw (split_last-snoc xs x) refl

abbrev move_to : Queue → Queue → Memory → Option (List String × String) → Option String × Memory
move_to src dst m none = (none, m)
move_to src dst m (some (ys, y)) =
    (some y, with_list dst (y ∷ list_of dst (with_list src ys m)) (with_list src ys m))

abbrev pub memory : Redis
memory = record {
  Store = Memory;
  has = is_live;
  queue = list_of;
  set_nx =
      λ k ttl now m. if is_live k now m then (false, m) else (true, keep_until k (now + ttl) m);
  incr = count_up;
  expire = λ k ttl now m. keep_until k (now + ttl) m;
  lpush = λ q x m. with_list q (x ∷ list_of q m) m;
  rpoplpush = λ src dst m. move_to src dst m (split_last (list_of src m));
  lrem = λ q x m. with_list q (remove_first x (list_of q m)) m;
}

is_live-with_list :
    (j : RedisKey) (t : ℕ) (q : Queue) (xs : List String) (m : Memory)
    → is_live j t (with_list q xs m) ≡ is_live j t m
is_live-with_list j t pending xs m = refl
is_live-with_list j t processing xs m = refl

pub memory-IsKeyStore : IsKeyStore memory
memory-IsKeyStore = record {
  set_nx-done =
      λ k ttl now s. elim (Bool-cases (is_live k now s)) [ inl e ↦ rw e refl | inr e ↦ rw e refl ];
  has-set_nx_self = λ k ttl now t s free le. rw (free, code_eq_refl (code_of k)) refl;
  set_nx_held = λ k ttl now s held. rw held refl;
  has-set_nx_ne = λ j k ttl now t s ne. elim (Bool-cases (is_live k now s)) [
    | inl e ↦ rw e refl
    | inr e ↦ rw (e, key_eq_ne j k ne) refl
  ];
  has-incr_ne = λ j k now t s ne. elim (Bool-cases (is_live k now s)) [
    | inl e ↦ rw e refl
    | inr e ↦ rw (e, key_eq_ne j k ne) refl
  ];
  has-expire_ne = λ j k ttl now t s ne. rw (key_eq_ne j k ne) refl;
  has-lpush = λ j t q raw s. is_live-with_list j t q (raw ∷ list_of q s) s;
}

list_of-with_list_self :
    (q : Queue) (xs : List String) (m : Memory) → list_of q (with_list q xs m) ≡ xs
list_of-with_list_self pending xs m = refl
list_of-with_list_self processing xs m = refl

list_of-with_list_ne :
    (p q : Queue) (xs : List String) (m : Memory)
    → p ≢ q
    → list_of p (with_list q xs m) ≡ list_of p m
list_of-with_list_ne pending pending xs m ne = absurd (ne refl)
list_of-with_list_ne pending processing xs m ne = refl
list_of-with_list_ne processing pending xs m ne = refl
list_of-with_list_ne processing processing xs m ne = absurd (ne refl)

moved-last :
    (src dst : Queue) (s : Memory) (xs : List String) (x : String)
    → src ≢ dst
    → ((move_to src dst s (some (xs, x))).0 ≡ some x)
      × (list_of src ((move_to src dst s (some (xs, x))).1) ≡ xs)
      × (list_of dst ((move_to src dst s (some (xs, x))).1) ≡ x ∷ list_of dst s)
moved-last pending pending s xs x ne = absurd (ne refl)
moved-last pending processing s xs x ne = (refl, refl, refl)
moved-last processing pending s xs x ne = (refl, refl, refl)
moved-last processing processing s xs x ne = absurd (ne refl)

pub memory-IsQueueStore : IsQueueStore memory
memory-IsQueueStore = record {
  rpoplpush_empty = λ src dst s e. rw e refl;
  rpoplpush_last =
      λ src dst s xs x ne e. rw (e, split_last-snoc xs x) (moved-last src dst s xs x ne);
  queue-lrem_self = λ q x s. list_of-with_list_self q (remove_first x (list_of q s)) s;
  queue-lrem_ne = λ q p x s ne. list_of-with_list_ne p q (remove_first x (list_of q s)) s ne;
  queue-lpush_self = λ q x s. list_of-with_list_self q (x ∷ list_of q s) s;
  queue-lpush_ne = λ q p x s ne. list_of-with_list_ne p q (x ∷ list_of q s) s ne;
}
