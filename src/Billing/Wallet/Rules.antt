-- ===== src/Billing/Wallet/Rules.antt =====
-- How a postcondition of billing/wallet.py follows from those of the steps.
use yadakchi.Prelude.{
  ◌≡◌, ℕ, String, true, false, not, ◌&&◌, Option, none, some, List, ◌∷◌, arith, inl, inr,
  Option-cases, str_eq_iff, is_some, ◌≢◌,
}
use yadakchi.Prelude.Int.{ℤ, pos, ◌+ℤ◌, ◌≤ℤ◌, ◌<ℤ◌, ltb_ℤ, leb_ℤ, eqb_ℤ, eqb_ℤ_iff}
use yadakchi.Billing.Models.{
  Seller, CpcRate, ClickEvent, WalletTransaction, topup, manual, OutboxEvent, QueuedClick, Topic,
  EventKey, Payload,
}
use yadakchi.Billing.Database.{
  Db, save_row, seller_of, transaction_of, does_not_exist, click_of, value_error,
  seller_unavailable,
}
use yadakchi.Billing.Database.Ensures.{
  Ensures, Ensures-bind, Ensures-if, Ensures-or_raise, Ensures-raise_if,
}
use yadakchi.Billing.Rates.{resolve_cpc_rate}
use yadakchi.Billing.Events.{Env, add_outbox_event, add_seller_billing_state_event}
use yadakchi.Billing.Wallet.{
  Draws, ClickProcessingResult, suspended, charged, charge_row, charge_seller, is_chargeable,
  rate_cost, deactivate_panel_offers, parse_occurred_at, settle, announce_click, announce_velocity,
  write_click, record_click, process_queued_click, new_click,
}
use yadakchi.Billing.Topup.{
  credited, adjusted, wallet_row, credit, adjust, record_topup, adjust_wallet, bool_ne, reason_of,
  is_same_topup,
}

-- The tables after the charge of a click, and after the suspension of a seller.
abbrev pub after_charge : Draws → Seller → ClickEvent → Db → Db
after_charge draws s click db = record db {
  sellers = save_row (charged s click.cost_toman) db.sellers;
  transactions = charge_row draws s click ∷ db.transactions;
}

abbrev pub after_suspension : Seller → Db → Db
after_suspension s db = record db { sellers = save_row (suspended s) db.sellers }

-- An invariant `I` that does not read the outbox.
module _ (I : Db → Type 0)
    (frame : (db : Db) (rows : List OutboxEvent) → I db → I (record db { outbox = rows }))
    (env : Env) where
  pub add_outbox_event-keeps :
      (topic : Topic) (message_key natural_key : EventKey) (event_type : String) (at : ℕ)
      (trace : String) (body : Payload) (id : ℕ) (db : Db)
      → I db
      → Ensures
          (λ _. I)
          (add_outbox_event env topic message_key natural_key event_type at trace body id db)
  unfolding add_outbox_event
  add_outbox_event-keeps topic message_key natural_key event_type at trace body id db h =
      grind (arith, frame)

  pub state_event-keeps :
      (s : Seller) (reason : Option String) (at : ℕ) (trace : String) (id : ℕ) (db : Db)
      → I db
      → Ensures (λ _. I) (add_seller_billing_state_event env s reason at trace id db)
  unfolding add_seller_billing_state_event
  state_event-keeps s reason at trace id db h = grind (arith, frame)

  pub deactivate-keeps :
      (s : Seller) (reason : String) (at : ℕ) (trace : String) (id : ℕ) (db : Db)
      → I db
      → I (record db { sellers = save_row (suspended s) db.sellers })
      → Ensures (λ _. I) (deactivate_panel_offers env s reason at trace id db)
  unfolding deactivate_panel_offers
  deactivate-keeps s reason at trace id db h h' =
      Ensures-if (λ _. I) (not s.panel_offers_active) _ _ db (λ _. h)
        (λ _. state_event-keeps (suspended s) (some reason) at trace id _ h')

  announce_click-keeps :
      (draws : Draws) (queued : QueuedClick) (click : ClickEvent) (db : Db)
      → I db
      → Ensures (λ _. I) (announce_click env draws queued click db)
  unfolding announce_click
  announce_click-keeps draws queued click db h = grind (arith, add_outbox_event-keeps)

  announce_velocity-keeps :
      (draws : Draws) (queued : QueuedClick) (at : ℕ) (db : Db)
      → I db
      → Ensures (λ _. I) (announce_velocity env draws queued at db)
  unfolding announce_velocity
  announce_velocity-keeps draws queued at db h = grind (arith, add_outbox_event-keeps)

  pub settle-keeps :
      (draws : Draws) (queued : QueuedClick) (s : Seller) (rate : Option CpcRate)
      (click : ClickEvent) (db : Db)
      → (click.cost_toman ≢ pos 0 → I (after_charge draws s click db))
      → (click.cost_toman ≢ pos 0
          → I (after_suspension (charged s click.cost_toman) (after_charge draws s click db)))
      → (click.cost_toman ≡ pos 0 → I db)
      → (click.cost_toman ≡ pos 0 → I (after_suspension s db))
      → Ensures (λ _. I) (settle env draws queued s rate click db)
  unfolding settle charge_seller
  settle-keeps draws queued s rate click db paid last free stopped =
      let s' = charged s click.cost_toman in
      Ensures-if (λ _. I) (not (eqb_ℤ click.cost_toman (pos 0))) _ _ db
        (λ e.
          let nonzero : click.cost_toman ≢ pos 0 = ground arith in
          Ensures-if (λ _. I) (eqb_ℤ s'.wallet_balance_toman (pos 0)) _ _ _
            (λ _.
              deactivate-keeps s' "zero_balance" click.occurred_at queued.trace_id draws.state_event
                _ (paid nonzero) (last nonzero))
            (λ _. paid nonzero))
        λ e.
          let zero_cost : click.cost_toman ≡ pos 0 =
            ground (arith, eqb_ℤ_iff click.cost_toman (pos 0)) in
          Ensures-if (λ _. I)
            (is_chargeable queued s rate && ltb_ℤ s.wallet_balance_toman (rate_cost rate)) _ _ db
            (λ _.
              deactivate-keeps s "insufficient_balance" click.occurred_at queued.trace_id
                draws.state_event db (free zero_cost) (stopped zero_cost))
            (λ _. free zero_cost)

  pub write_click-Ensures :
      (Q : ClickProcessingResult → Db → Type 0) (draws : Draws) (queued : QueuedClick) (s : Seller)
      (rate : Option CpcRate) (click : ClickEvent) (db : Db)
      → Ensures
          (λ _. I)
          (settle env draws queued s rate click (record db { clicks = click ∷ db.clicks }))
      → ((db' : Db) → I db' → Q (record { click = click; created = true }) db')
      → Ensures Q (write_click env draws queued s rate click db)
  unfolding write_click
  write_click-Ensures Q draws queued s rate click db h k =
      Ensures-bind (λ _. I) Q (settle env draws queued s rate click _) _ h
        λ _ db₁ h₁.
          Ensures-bind (λ _. I) Q (announce_click env draws queued click db₁) _
            (announce_click-keeps draws queued click db₁ h₁)
            λ _ db₂ h₂.
              Ensures-bind (λ _. I) Q (announce_velocity env draws queued click.occurred_at db₂) _
                (announce_velocity-keeps draws queued click.occurred_at db₂ h₂)
                (λ _ db₃ h₃. k db₃ h₃)

  pub write_click-keeps :
      (draws : Draws) (queued : QueuedClick) (s : Seller) (rate : Option CpcRate)
      (click : ClickEvent) (db : Db)
      → Ensures
          (λ _. I)
          (settle env draws queued s rate click (record db { clicks = click ∷ db.clicks }))
      → Ensures (λ _. I) (write_click env draws queued s rate click db)
  write_click-keeps draws queued s rate click db h =
      write_click-Ensures (λ _. I) draws queued s rate click db h (λ _ k. k)

  pub credit-Ensures :
      (Q : WalletTransaction → Db → Type 0) (draws : Draws) (s : Seller) (amount : ℤ)
      (reference : String) (now : ℕ) (db : Db)
      → I (record db {
        sellers = save_row (credited s amount) db.sellers;
        transactions = wallet_row draws s topup amount reference now ∷ db.transactions;
      })
      → ((db' : Db) → I db' → Q (wallet_row draws s topup amount reference now) db')
      → Ensures Q (credit env draws s amount reference now db)
  unfolding credit
  credit-Ensures Q draws s amount reference now db h k =
      Ensures-bind (λ _. I) Q _ _
        (Ensures-if (λ _. I) (not s.panel_offers_active) _ _ _
          (λ _.
            state_event-keeps (credited s amount) none now (env.show_uuid draws.transaction)
              draws.state_event _ h)
          (λ _. h))
        (λ _ db' h'. k db' h')

  pub credit-keeps :
      (draws : Draws) (s : Seller) (amount : ℤ) (reference : String) (now : ℕ) (db : Db)
      → I (record db {
        sellers = save_row (credited s amount) db.sellers;
        transactions = wallet_row draws s topup amount reference now ∷ db.transactions;
      })
      → Ensures (λ _. I) (credit env draws s amount reference now db)
  credit-keeps draws s amount reference now db h =
      credit-Ensures (λ _. I) draws s amount reference now db h (λ _ k. k)

  pub adjust-keeps :
      (draws : Draws) (s : Seller) (amount : ℤ) (reference : String) (now : ℕ) (db : Db)
      → (pos 0 ≤ℤ s.wallet_balance_toman +ℤ amount
          → I (record db {
            sellers = save_row (adjusted s amount) db.sellers;
            transactions = wallet_row draws s manual amount reference now ∷ db.transactions;
          }))
      → Ensures (λ _. I) (adjust env draws s amount reference now db)
  unfolding adjust
  adjust-keeps draws s amount reference now db h =
      let s' = adjusted s amount in
      Ensures-raise_if (λ _. I) (ltb_ℤ (s.wallet_balance_toman +ℤ amount) (pos 0)) value_error _ db
        λ enough.
          let saved = h (ground arith) in
          Ensures-bind (λ _. I) (λ _. I) _ _
            (Ensures-if (λ _. I) (bool_ne s.panel_offers_active s'.panel_offers_active) _ _ _
              (λ _.
                state_event-keeps s' (reason_of s'.panel_offers_active) now
                  (env.show_uuid draws.transaction) draws.state_event _ saved)
              (λ _. saved))
            (λ _ _ h'. h')

pub parse_occurred_at-Ensures :
    (env : Env) (value : String) (db : Db)
    → Ensures (λ _ db'. db' ≡ db) (parse_occurred_at env value db)
unfolding parse_occurred_at
parse_occurred_at-Ensures env value db = ground arith

-- A postcondition of a new click, from that of its writes for the seller that is found.
pub record_click-Ensures :
    (Q : ClickProcessingResult → Db → Type 0) (env : Env) (draws : Draws) (queued : QueuedClick)
    (click_id : ℕ) (db : Db)
    → ((s : Seller) (at product_uid : ℕ)
        → seller_of queued.seller_key db.sellers ≡ some s
        → let rate = resolve_cpc_rate queued.price_toman at db.rates in
          Ensures Q (
            write_click env draws queued s rate
              (new_click queued click_id product_uid at s rate)
              db))
    → Ensures Q (record_click env draws queued click_id db)
unfolding record_click
record_click-Ensures Q env draws queued click_id db h =
    Ensures-or_raise Q (seller_of queued.seller_key db.sellers)
      (seller_unavailable queued.seller_key) _ db
      λ s found.
        Ensures-bind (λ _ db'. db' ≡ db) Q (parse_occurred_at env queued.occurred_at db) _
          (parse_occurred_at-Ensures env queued.occurred_at db)
          λ at db' same. rw same (
            Ensures-or_raise Q (env.parse_uuid queued.product_uid) value_error _ db
              λ product_uid _. h s at product_uid found)

-- A postcondition of the whole call, from those of its two ways to end.
pub process_queued_click-Ensures :
    (Q : ClickProcessingResult → Db → Type 0) (env : Env) (draws : Draws) (queued : QueuedClick)
    (db : Db)
    → ((click_id : ℕ) (click : ClickEvent)
        → env.parse_uuid queued.click_id ≡ some click_id
        → click_of click_id db.clicks ≡ some click
        → Q (record { click = click; created = false }) db)
    → ((click_id : ℕ)
        → env.parse_uuid queued.click_id ≡ some click_id
        → click_of click_id db.clicks ≡ none
        → Ensures Q (record_click env draws queued click_id db))
    → Ensures Q (process_queued_click env draws queued db)
unfolding process_queued_click
process_queued_click-Ensures Q env draws queued db old new =
    Ensures-or_raise Q (env.parse_uuid queued.click_id) value_error _ db λ click_id parsed.
      elim (Option-cases (click_of click_id db.clicks)) [
        | inl absent ↦ rw absent (new click_id parsed absent)
        | inr (click, present) ↦ rw present (old click_id click parsed present)
      ]

-- A top-up returns a transaction of the same reference, or credits the seller that it finds.
pub record_topup-Ensures :
    (Q : WalletTransaction → Db → Type 0) (env : Env) (draws : Draws) (key : String) (amount : ℤ)
    (reference : String) (now : ℕ) (db : Db)
    → ((t : WalletTransaction)
        → transaction_of reference db.transactions ≡ some t
        → t.seller ≡ key
        → t.amount_toman ≡ amount
        → Q t db)
    → ((s : Seller)
        → pos 0 <ℤ amount
        → seller_of key db.sellers ≡ some s
        → transaction_of reference db.transactions ≡ none
        → Ensures Q (credit env draws s amount reference now db))
    → Ensures Q (record_topup env draws key amount reference now db)
unfolding record_topup
record_topup-Ensures Q env draws key amount reference now db old new =
    Ensures-raise_if Q (leb_ℤ amount (pos 0)) value_error _ db λ positive.
      Ensures-or_raise Q (seller_of key db.sellers) does_not_exist _ db λ s found.
        elim (Option-cases (transaction_of reference db.transactions)) [
          | inl absent ↦ rw absent (new s (ground arith) found absent)
          | inr (t, present) ↦ rw present (
              Ensures-if Q (is_same_topup key amount t) _ _ db
                (λ same.
                  old t present (ground (arith, str_eq_iff t.seller key))
                    (ground (arith, eqb_ℤ_iff t.amount_toman amount)))
                (λ _. tt))
        ]

pub adjust_wallet-Ensures :
    (Q : WalletTransaction → Db → Type 0) (env : Env) (draws : Draws) (key : String) (amount : ℤ)
    (reference : String) (now : ℕ) (db : Db)
    → ((s : Seller)
        → amount ≢ pos 0
        → seller_of key db.sellers ≡ some s
        → transaction_of reference db.transactions ≡ none
        → Ensures Q (adjust env draws s amount reference now db))
    → Ensures Q (adjust_wallet env draws key amount reference now db)
unfolding adjust_wallet
adjust_wallet-Ensures Q env draws key amount reference now db h =
    Ensures-raise_if Q (eqb_ℤ amount (pos 0)) value_error _ db λ nonzero.
      Ensures-or_raise Q (seller_of key db.sellers) does_not_exist _ db λ s found.
        Ensures-raise_if Q (is_some (transaction_of reference db.transactions)) value_error _ db
          λ absent. h s (ground arith) found (ground arith)
