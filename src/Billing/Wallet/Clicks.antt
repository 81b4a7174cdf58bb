-- ===== src/Billing/Wallet/Clicks.antt =====
-- A processed click in billing/wallet.py: its row and its duplicates.
use yadakchi.Prelude.{◌≡◌, refl, ℕ, false, some, List, ◌∷◌, arith, inl, inr, Option-cases, ◌∙◌}
use yadakchi.Billing.Models.{ClickEvent, QueuedClick}
use yadakchi.Billing.Database.{Db, ok, click_of}
use yadakchi.Billing.Database.Ensures.{Ensures}
use yadakchi.Billing.Rates.{resolve_cpc_rate}
use yadakchi.Billing.Events.{Env}
use yadakchi.Billing.Wallet.{Draws, ClickProcessingResult, new_click, process_queued_click}
use yadakchi.Billing.Reporting.Reconciled.{id-new_click}
use yadakchi.Billing.Wallet.Rules.{
  settle-keeps, write_click-Ensures, record_click-Ensures, process_queued_click-Ensures,
}

click_of-cons :
    (id : ℕ) (c : ClickEvent) (cs : List ClickEvent)
    → c.click_id ≡ id
    → click_of id (c ∷ cs) ≡ some c
click_of-cons id c cs e = ground arith

-- The call answers with the row that the table holds under the id of the click.
abbrev pub IsRecorded : Env → QueuedClick → ClickProcessingResult → Db → Type 0
IsRecorded env queued r db =
    (id : ℕ) → env.parse_uuid queued.click_id ≡ some id → click_of id db.clicks ≡ some r.click

pub process_queued_click-IsRecorded :
    (env : Env) (draws : Draws) (queued : QueuedClick) (db : Db)
    → Ensures (IsRecorded env queued) (process_queued_click env draws queued db)
process_queued_click-IsRecorded env draws queued db =
    process_queued_click-Ensures (IsRecorded env queued) env draws queued db
      (λ click_id click parsed present id parsed'. let e : id ≡ click_id = cc in rw e present)
      λ click_id parsed absent.
        record_click-Ensures (IsRecorded env queued) env draws queued click_id db
          λ s at product_uid found.
            let rate = resolve_cpc_rate queued.price_toman at db.rates in
            let click = new_click queued click_id product_uid at s rate in
            write_click-Ensures (λ d. d.clicks ≡ click ∷ db.clicks) (λ _ _ k. k) env
              (IsRecorded env queued) draws queued s rate click db
              (settle-keeps (λ d. d.clicks ≡ click ∷ db.clicks) (λ _ _ k. k) env draws queued s rate
                click _ (λ _. refl) (λ _. refl) (λ _. refl) (λ _. refl))
              λ db' e id parsed'. rw e (
                click_of-cons id click db.clicks
                  (cc (id-new_click queued click_id product_uid at s rate)))

-- If a queued click was processed, then processing any queued click with the same click id on the
-- resulting tables returns the stored click as not created, and changes nothing.
pub process_queued_click_again :
    (env : Env) (draws draws' : Draws) (queued queued' : QueuedClick) (db db' : Db)
    (r : ClickProcessingResult)
    → process_queued_click env draws queued db ≡ ok (r, db')
    → env.parse_uuid queued'.click_id ≡ env.parse_uuid queued.click_id
    → process_queued_click env draws' queued' db'
      ≡ ok (record { click = r.click; created = false }, db')
unfolding process_queued_click
process_queued_click_again env draws draws' queued queued' db db' r done same =
    let stored : IsRecorded env queued r db' =
      rw done at (process_queued_click-IsRecorded env draws queued db) in
    elim (Option-cases (env.parse_uuid queued.click_id)) [
      | inl unparsed ↦ absurd (cc (rw (unparsed, process_queued_click) at done))
      | inr (id, parsed) ↦ rw (same ∙ parsed, stored id parsed)
    ]
