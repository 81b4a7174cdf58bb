-- ===== src/Billing/Producer/Laws.antt =====
-- The rows of the outbox under billing/producer.py.
use yadakchi.Prelude.{
  ◌≡◌, refl, ℕ, ◌+◌, ◌≤◌, String, Bool, true, ◌&&◌, Option, none, some, List, [], ◌∷◌, reverse,
  arith, ◌⊎◌, take, select, update_where, length, inl, inr, Bool-cases, ◌∙◌,
}
use yadakchi.Billing.Models.{OutboxEvent}
use yadakchi.Billing.Producer.{
  Publisher, is_unpublished, has_id, attempted, failed_with, delivered_at, mark_delivered,
  publish_one, publish_each, publish_pending,
}

abbrev pub unpublished : List OutboxEvent → ℕ
unpublished rows = length (select is_unpublished rows)

-- Rows that an update leaves as published or unpublished as they were.
unpublished-update_where :
    (p : OutboxEvent → Bool) (f : OutboxEvent → OutboxEvent) (rows : List OutboxEvent)
    → ((e : OutboxEvent) → is_unpublished (f e) ≡ is_unpublished e)
    → unpublished (update_where p f rows) ≡ unpublished rows
unpublished-update_where p f [] h = refl
unpublished-update_where p f (e ∷ rows) h = ground (arith, h e, unpublished-update_where p f rows h)

unpublished-mark_delivered :
    (id now : ℕ) (rows : List OutboxEvent)
    → let (n, rows') = mark_delivered id now rows in unpublished rows' + n ≡ unpublished rows
unfolding mark_delivered
unpublished-mark_delivered id now [] = refl
unpublished-mark_delivered id now (e ∷ rows) =
    ground (arith, unpublished-mark_delivered id now rows)

unpublished-publish_one :
    (now : ℕ) (e : OutboxEvent) (o : Option String) (rows : List OutboxEvent)
    → let (n, rows') = publish_one now e o rows in unpublished rows' + n ≡ unpublished rows
unfolding publish_one
unpublished-publish_one now e none rows = unpublished-mark_delivered e.event_id now rows
unpublished-publish_one now e (some text) rows =
    omega (arith, unpublished-update_where (has_id e.event_id) (failed_with text) rows (λ _. refl))

unpublished-publish_each :
    (publisher : Publisher) (wanted : OutboxEvent → Bool) (now : ℕ) (es rows : List OutboxEvent)
    → let (n, rows') = publish_each publisher wanted now es rows in
      unpublished rows' + n ≡ unpublished rows
unfolding publish_each
unpublished-publish_each publisher wanted now [] rows = omega arith
unpublished-publish_each publisher wanted now (e ∷ es) rows = elim (Bool-cases (wanted e)) [
  | inl yes' ↦
      let attempt = update_where (has_id e.event_id) attempted rows in
      rw yes' (
        omega (
          arith,
          unpublished-publish_each publisher wanted now es
              (publish_one now e (publisher e) attempt).1,
          unpublished-publish_one now e (publisher e) attempt,
          unpublished-update_where (has_id e.event_id) attempted rows (λ _. refl),
        ))
  | inr skip ↦ rw skip (omega (arith, unpublished-publish_each publisher wanted now es rows))
]

-- The number that a publication returns is the number of rows by which the unpublished rows of the
-- outbox became fewer.
pub publish_pending_counts :
    (publisher : Publisher) (wanted : OutboxEvent → Bool) (now limit : ℕ) (rows : List OutboxEvent)
    → let (n, rows') = publish_pending publisher wanted now limit rows in
      unpublished rows' + n ≡ unpublished rows
unfolding publish_pending
publish_pending_counts publisher wanted now limit rows =
    unpublished-publish_each publisher wanted now
      (take limit (select is_unpublished (reverse rows))) rows

-- What may become of a row: its contents stay, its attempts only grow, and once it is published its
-- time stays.
pub record Evolves (e e' : OutboxEvent) : Type 0 where
  pub same_id : e'.event_id ≡ e.event_id
  pub same_topic : e'.topic ≡ e.topic
  pub same_key : e'.natural_key ≡ e.natural_key
  pub same_body : e'.body ≡ e.body
  pub attempts : e.publish_attempts ≤ e'.publish_attempts
  pub once : (e'.published_at ≡ e.published_at) ⊎ (e.published_at ≡ none)

abbrev pub AllEvolve : List OutboxEvent → List OutboxEvent → Type 0
AllEvolve [] [] = Unit
AllEvolve [] (x ∷ xs) = ⊥
AllEvolve (x ∷ xs) [] = ⊥
AllEvolve (x ∷ xs) (y ∷ ys) = Evolves x y × AllEvolve xs ys

Evolves-refl : (e : OutboxEvent) → Evolves e e
Evolves-refl e = ground arith

once_more : {a b c : Option ℕ} → (b ≡ a) ⊎ (a ≡ none) → (c ≡ b) ⊎ (b ≡ none) → (c ≡ a) ⊎ (a ≡ none)
once_more h k = ground arith

Evolves-trans : (a b c : OutboxEvent) → Evolves a b → Evolves b c → Evolves a c
Evolves-trans a b c h k = record {
  same_id = k.same_id ∙ h.same_id;
  same_topic = k.same_topic ∙ h.same_topic;
  same_key = k.same_key ∙ h.same_key;
  same_body = k.same_body ∙ h.same_body;
  attempts = omega (arith, h.attempts, k.attempts);
  once = once_more h.once k.once;
}

AllEvolve-refl : (rows : List OutboxEvent) → AllEvolve rows rows
AllEvolve-refl [] = tt
AllEvolve-refl (e ∷ rows) = (Evolves-refl e, AllEvolve-refl rows)

AllEvolve-trans :
    (xs ys zs : List OutboxEvent) → AllEvolve xs ys → AllEvolve ys zs → AllEvolve xs zs
AllEvolve-trans [] [] [] h k = tt
AllEvolve-trans [] [] (z ∷ zs) h k = k
AllEvolve-trans [] (y ∷ ys) zs h k = absurd h
AllEvolve-trans (x ∷ xs) [] zs h k = absurd h
AllEvolve-trans (x ∷ xs) (y ∷ ys) [] h k = k
AllEvolve-trans (x ∷ xs) (y ∷ ys) (z ∷ zs) h k =
    (Evolves-trans x y z h.0 k.0, AllEvolve-trans xs ys zs h.1 k.1)

AllEvolve-update_where :
    (p : OutboxEvent → Bool) (f : OutboxEvent → OutboxEvent) (rows : List OutboxEvent)
    → ((e : OutboxEvent) → p e ≡ true → Evolves e (f e))
    → AllEvolve rows (update_where p f rows)
AllEvolve-update_where p f [] h = tt
AllEvolve-update_where p f (e ∷ rows) h = elim (Bool-cases (p e)) [
  | inl hit ↦ rw hit (h e hit, AllEvolve-update_where p f rows h)
  | inr miss ↦ rw miss (Evolves-refl e, AllEvolve-update_where p f rows h)
]

AllEvolve-publish_one :
    (now : ℕ) (e : OutboxEvent) (o : Option String) (rows : List OutboxEvent)
    → AllEvolve rows (publish_one now e o rows).1
unfolding publish_one
AllEvolve-publish_one now e none rows =
    AllEvolve-update_where (λ x. has_id e.event_id x && is_unpublished x) (delivered_at now) rows
      (λ x hit. ground arith)
AllEvolve-publish_one now e (some text) rows =
    AllEvolve-update_where (has_id e.event_id) (failed_with text) rows (λ x hit. ground arith)

AllEvolve-publish_each :
    (publisher : Publisher) (wanted : OutboxEvent → Bool) (now : ℕ) (es rows : List OutboxEvent)
    → AllEvolve rows (publish_each publisher wanted now es rows).1
unfolding publish_each
AllEvolve-publish_each publisher wanted now [] rows = AllEvolve-refl rows
AllEvolve-publish_each publisher wanted now (e ∷ es) rows = elim (Bool-cases (wanted e)) [
  | inl yes' ↦
      let attempt = update_where (has_id e.event_id) attempted rows in
      let sent = (publish_one now e (publisher e) attempt).1 in
      rw yes' (
        AllEvolve-trans rows attempt _
          (AllEvolve-update_where (has_id e.event_id) attempted rows (λ x _. ground arith))
          (AllEvolve-trans attempt sent _ (AllEvolve-publish_one now e (publisher e) attempt)
            (AllEvolve-publish_each publisher wanted now es sent)))
  | inr skip ↦ rw skip (AllEvolve-publish_each publisher wanted now es rows)
]

-- A publication of the outbox keeps every row in its place with its id, topic, natural key and
-- body; the attempts of a row do not decrease, and a row that was published keeps its time of
-- publication.
pub publish_pending-AllEvolve :
    (publisher : Publisher) (wanted : OutboxEvent → Bool) (now limit : ℕ) (rows : List OutboxEvent)
    → AllEvolve rows (publish_pending publisher wanted now limit rows).1
unfolding publish_pending
publish_pending-AllEvolve publisher wanted now limit rows =
    AllEvolve-publish_each publisher wanted now (take limit (select is_unpublished (reverse rows)))
      rows
