-- ===== src/Billing/Drain/Delivery.antt =====
-- Clicks between the queue of billing/click_queue.py and the database, under billing/drain.py.
use yadakchi.Prelude.{
  ◌≡◌, refl, sym, ◌∙◌, ap, ℕ, zero, suc, ◌+◌, ◌<◌, String, true, false, Option, some, List, [], ◌∷◌,
  ◌++◌, arith, str_eq, str_eq_iff, if◌then◌else◌, length, All, is_some, inl, inr, Option-cases, ◌⊎◌,
}
use yadakchi.Billing.Models.{QueuedClick, ClickEvent}
use yadakchi.Billing.Database.{Db, Result, ok, err, click_of}
use yadakchi.Billing.Database.Ensures.{Ensures}
use yadakchi.Billing.Rates.{resolve_cpc_rate}
use yadakchi.Billing.Events.{Env}
use yadakchi.Billing.Wallet.{Draws, ClickProcessingResult, process_queued_click, new_click}
use yadakchi.Billing.Wallet.Clicks.{IsRecorded, process_queued_click-IsRecorded}
use yadakchi.Billing.Wallet.Rules.{
  settle-keeps, write_click-Ensures, record_click-Ensures, process_queued_click-Ensures,
}
use yadakchi.Billing.Queue.{Redis, pending, processing}
use yadakchi.Billing.Drain.{
  remove_first, IsQueueStore, Drained, ending_of, process_raw, recover_loop, recover_processing,
  drain_loop,
}

-- A list is empty or has a last element.
last-cases :
    (xs : List String) → (xs ≡ []) ⊎ ((ys : List String) × (y : String) × (xs ≡ ys ++ y ∷ []))
last-cases [] = inl refl
last-cases (x ∷ xs) = elim (last-cases xs) [
  | inl e ↦ inr ([], x, rw e refl)
  | inr (ys, y, e) ↦ inr (x ∷ ys, y, ap (λ (t : List String). x ∷ t) e)
]

-- How often a text stands in a list.
abbrev pub count : String → List String → ℕ
count a [] = 0
count a (x ∷ xs) = (if str_eq x a then 1 else 0) + count a xs

length-snoc : (x : String) (xs : List String) → length (xs ++ x ∷ []) ≡ suc (length xs)
length-snoc x [] = refl
length-snoc x (y ∷ xs) = ap suc (length-snoc x xs)

count-snoc : (a x : String) (xs : List String) → count a (xs ++ x ∷ []) ≡ count a (x ∷ xs)
count-snoc a x [] = refl
count-snoc a x (y ∷ xs) = omega (arith, count-snoc a x xs)

nonempty-snoc :
    (x : String) (xs : List String)
    → count "" (xs ++ x ∷ []) ≡ 0
    → (str_eq x "" ≡ false) × (count "" xs ≡ 0)
nonempty-snoc x xs none_empty =
    let both : count "" (x ∷ xs) ≡ 0 = sym (count-snoc "" x xs) ∙ none_empty in ground arith

remove_first-head : (x : String) (xs : List String) → remove_first x (x ∷ xs) ≡ xs
remove_first-head x xs = ground (arith, str_eq_iff x x)

-- The click of a queued text is in the table.
abbrev pub IsStored : Env → (String → Option QueuedClick) → Db → String → Type 0
IsStored env parse db raw =
    (queued : QueuedClick) × (id : ℕ) × (parse raw ≡ some queued)
    × (env.parse_uuid queued.click_id ≡ some id)
    × (is_some (click_of id db.clicks) ≡ true)

-- A stored click stays stored.
abbrev pub KeepsClicks : Db → Db → Type 0
KeepsClicks db db' =
    (id : ℕ) → is_some (click_of id db.clicks) ≡ true → is_some (click_of id db'.clicks) ≡ true

grown-KeepsClicks : (c : ClickEvent) (db db' : Db) → db'.clicks ≡ c ∷ db.clicks → KeepsClicks db db'
grown-KeepsClicks c db db' e id h = rw e (ground arith)

process_queued_click-KeepsClicks :
    (env : Env) (draws : Draws) (queued : QueuedClick) (db : Db)
    → Ensures (λ _. KeepsClicks db) (process_queued_click env draws queued db)
process_queued_click-KeepsClicks env draws queued db =
    process_queued_click-Ensures (λ _. KeepsClicks db) env draws queued db (λ _ _ _ _ id h. h)
      λ click_id _ _.
        record_click-Ensures (λ _. KeepsClicks db) env draws queued click_id db
          λ s at product_uid _.
            let rate = resolve_cpc_rate queued.price_toman at db.rates in
            let click = new_click queued click_id product_uid at s rate in
            write_click-Ensures (λ d. d.clicks ≡ click ∷ db.clicks) (λ _ _ k. k) env
              (λ _. KeepsClicks db) draws queued s rate click db
              (settle-keeps (λ d. d.clicks ≡ click ∷ db.clicks) (λ _ _ k. k) env draws queued s rate
                click _ (λ _. refl) (λ _. refl) (λ _. refl) (λ _. refl))
              (λ db' e. grown-KeepsClicks click db db' e)

-- A text that was processed is stored.
process_raw-IsStored :
    (env : Env) (parse : String → Option QueuedClick) (draws : Draws) (raw : String) (db db' : Db)
    (r : ClickProcessingResult)
    → process_raw env draws (parse raw) db ≡ ok (r, db')
    → IsStored env parse db' raw × KeepsClicks db db'
process_raw-IsStored env parse draws raw db db' r e = elim (Option-cases (parse raw)) [
  | inl unread ↦ absurd (unfold process_raw in (cc (rw unread at e)))
  | inr (queued, read) ↦
      let done : process_queued_click env draws queued db ≡ ok (r, db') =
        unfold process_raw in (rw read at e) in
      let recorded : IsRecorded env queued r db' =
        rw done at (process_queued_click-IsRecorded env draws queued db) in
      let kept : KeepsClicks db db' =
        rw done at (process_queued_click-KeepsClicks env draws queued db) in
      elim (Option-cases (env.parse_uuid queued.click_id)) [
        | inl unparsed ↦ absurd (unfold process_queued_click in (cc (rw unparsed at done)))
        | inr (id, parsed) ↦ ((queued, id, read, parsed, rw (recorded id parsed) refl), kept)
      ]
]

module _ (redis : Redis) (law : IsQueueStore redis) (env : Env) (draws : ℕ → Draws)
    (parse : String → Option QueuedClick) where
  open redis use {Store, queue}

  -- What a run of the loop from `s` and `db` leaves: the queue lost the texts `acked`, which are
  -- stored, and nothing is in flight.
  pub record IsDelivered (done : ℕ) (s : Store) (db : Db) (d : Drained Store) : Type 0 where
    pub acked : List String
    pub counted : d.processed ≡ done + length acked
    pub in_flight : queue processing d.store ≡ []
    pub kept :
        (a : String) → count a (queue pending s) ≡ count a (queue pending d.store) + count a acked
    pub stored : All (IsStored env parse d.db) acked

  record IsProgress (done : ℕ) (s : Store) (db : Db) (d : Drained Store) : Type 0 where
    delivered : IsDelivered done s db d
    open delivered use *
    grown : KeepsClicks db d.db

  abbrev Delivers : ℕ → Type 0
  Delivers rounds =
      (done : ℕ) (s : Store) (db : Db)
      → queue processing s ≡ []
      → IsProgress done s db (drain_loop redis env draws parse rounds done s db)

  -- One round that claims `y`, and what follows it.
  round-Delivers :
      (rounds done : ℕ) (s s' : Store) (db : Db) (ys : List String) (y : String)
      (r : Result (ClickProcessingResult × Db))
      → Delivers rounds
      → process_raw env (draws rounds) (parse y) db ≡ r
      → queue pending s ≡ ys ++ y ∷ []
      → queue pending s' ≡ ys
      → queue processing s' ≡ y ∷ []
      → IsProgress done s db (elim r [
        | ok (a, db') ↦
            drain_loop redis env draws parse rounds (done + 1) (redis.lrem processing y s') db'
        | err f ↦ record {
          processed = done;
          store = redis.lpush pending y (redis.lrem processing y s');
          db = db;
          ending = ending_of f;
        }
      ])
  round-Delivers rounds done s s' db ys y (ok (a, db')) ih e q p w =
      let acknowledged = redis.lrem processing y s' in
      let (stored_now, grown_now) = process_raw-IsStored env parse (draws rounds) y db db' a e in
      let rest =
        ih (done + 1) acknowledged db' (rw (law.queue-lrem_self, w) (remove_first-head y [])) in
      record {
        delivered = record {
          acked = y ∷ rest.acked;
          counted = omega (arith, rest.counted);
          in_flight = rest.in_flight;
          kept = λ a. rw q (
              count-snoc a y ys
              ∙ omega (
                arith,
                rest.kept a,
                ap (count a) (law.queue-lrem_ne processing pending y s' (λ n. cc n) ∙ p),
              ));
          stored = (
            let (queued, id, read, parsed, here) = stored_now in
                (queued, id, read, parsed, rest.grown id here),
            rest.stored,
          );
        };
        grown = λ id h. rest.grown id (grown_now id h);
      }
  round-Delivers rounds done s s' db ys y (err f) ih e q p w = record {
    delivered = record {
      acked = [];
      counted = omega arith;
      in_flight =
          rw
            (
              law.queue-lpush_ne pending processing y (redis.lrem processing y s') (λ n. cc n),
              law.queue-lrem_self,
              w,
            )
            (remove_first-head y []);
      kept = λ a.
          rw (q, law.queue-lpush_self, law.queue-lrem_ne processing pending y s' (λ n. cc n), p)
            (count-snoc a y ys ∙ omega arith);
      stored = tt;
    };
    grown = λ id h. h;
  }

  drain_loop-IsProgress :
      (rounds done : ℕ) (s : Store) (db : Db)
      → queue processing s ≡ []
      → IsProgress done s db (drain_loop redis env draws parse rounds done s db)
  unfolding drain_loop
  drain_loop-IsProgress zero done s db w = record {
    delivered = record {
      acked = [];
      counted = omega arith;
      in_flight = w;
      kept = λ a. omega arith;
      stored = tt;
    };
    grown = λ id h. h;
  }
  drain_loop-IsProgress (suc rounds) done s db w = elim (last-cases (queue pending s)) [
    | inl none_left ↦
        rw
          (
            drain_loop,
            law.rpoplpush_empty pending processing s none_left,
            law.rpoplpush_empty pending processing s none_left,
          )
          (record {
            delivered = record {
              acked = [];
              counted = omega arith;
              in_flight = w;
              kept = λ a. omega arith;
              stored = tt;
            };
            grown = λ id h. h;
          })
    | inr (ys, y, q) ↦
        let (claimed, left, taken) = law.rpoplpush_last pending processing s ys y (λ n. cc n) q in
        rw (drain_loop, claimed)
          (round-Delivers rounds done s _ db ys y (process_raw env (draws rounds) (parse y) db)
            (drain_loop-IsProgress rounds) refl q left (rw w at taken))
  ]

  -- When no click is in flight, a run of the drain loop over a Redis whose lists behave as
  -- documented takes each text off the queue either for good, and then its click is stored in the
  -- database, or not at all; no text is lost or left in flight, and the count is the number of
  -- texts taken.
  pub drain_loop-IsDelivered :
      (rounds done : ℕ) (s : Store) (db : Db)
      → queue processing s ≡ []
      → IsDelivered done s db (drain_loop redis env draws parse rounds done s db)
  drain_loop-IsDelivered rounds done s db w = (drain_loop-IsProgress rounds done s db w).delivered

  -- Recovery empties a queue of texts that are not empty, and loses none of them.
  recover_loop-kept :
      (fuel : ℕ) (s : Store)
      → length (queue processing s) < fuel
      → count "" (queue processing s) ≡ 0
      → let (n, s') = recover_loop redis env draws parse fuel s in
        (n ≡ length (queue processing s))
        × (queue processing s' ≡ [])
        × ((a : String)
            → count a (queue pending s') ≡ count a (queue pending s) + count a (queue processing s))
  unfolding recover_loop
  recover_loop-kept zero s h full = absurd (omega arith)
  recover_loop-kept (suc fuel) s h full = elim (last-cases (queue processing s)) [
    | inl empty ↦
        rw
          (
            recover_loop,
            law.rpoplpush_empty processing pending s empty,
            law.rpoplpush_empty processing pending s empty,
            empty,
          )
          (refl, refl, λ a. omega arith)
    | inr (ys, y, q) ↦
        let (claimed, left, taken) = law.rpoplpush_last processing pending s ys y (λ n. cc n) q in
        let s' = (redis.rpoplpush processing pending s).1 in
        let shorter : length (queue processing s) ≡ suc (length ys) = rw q (length-snoc y ys) in
        let (text, rest) = nonempty-snoc y ys (ap (count "") (sym q) ∙ full) in
        let (n, empty, kept) = recover_loop-kept fuel s' (rw left (omega arith)) (rw left rest) in
        rw (recover_loop, claimed, text, q)
          (
            omega (arith, n, length-snoc y ys, ap length left),
            empty,
            λ a. omega (arith, kept a, count-snoc a y ys, ap (count a) taken, ap (count a) left),
          )
  ]

  -- Over a Redis whose lists behave as documented, if no text in flight is empty, the recovery
  -- loop ends with no click in flight: it returns how many there were, and each text is in the
  -- pending queue as often as it was in both queues before.
  pub recover_processing-kept :
      (s : Store)
      → count "" (queue processing s) ≡ 0
      → let (n, s') = recover_processing redis env draws parse s in
        (n ≡ length (queue processing s))
        × (queue processing s' ≡ [])
        × ((a : String)
            → count a (queue pending s') ≡ count a (queue pending s) + count a (queue processing s))
  unfolding recover_processing
  recover_processing-kept s full =
      recover_loop-kept (suc (length (queue processing s))) s (omega arith) full
