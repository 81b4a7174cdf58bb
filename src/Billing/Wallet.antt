-- ===== src/Billing/Wallet.antt =====
-- billing/wallet.py: charging a click.
pub mod Rules
pub mod Ledger
pub mod Owned
pub mod Clicks
pub mod Charged
pub mod Topups
use yadakchi.Prelude.{
  ℕ, ◌+◌, String, Bool, true, false, not, ◌&&◌, Option, none, some, if◌then◌else◌, str_eq, is_some,
}
use yadakchi.Prelude.Int.{ℤ, pos, neg, ◌+ℤ◌, ◌-ℤ◌, ltb_ℤ, leb_ℤ, eqb_ℤ}
use yadakchi.Billing.Models.{
  Seller, CpcRate, ClickEvent, WalletTransaction, Kind, charge, topup, manual, plain, velocity_of,
  clicks_recorded, review_requested, QueuedClick, click_payload, review_payload,
}
use yadakchi.Billing.Database.{
  Tx, seller_unavailable, value_error, does_not_exist, pure, raise, or_raise, raise_if, ◌>>=◌, ◌>>◌,
  seller_of, save_seller, click_of, transaction_of, create_click, create_transaction,
}
use yadakchi.Billing.Rates.{resolve_cpc_rate}
use yadakchi.Billing.Events.{Datetime, Env, add_outbox_event, add_seller_billing_state_event}

-- The UUIDs that one call draws, each by its use.
pub record Draws : Type 0 where
  pub transaction : ℕ
  pub state_event : ℕ
  pub click_event : ℕ
  pub review_event : ℕ

pub record ClickProcessingResult : Type 0 where
  pub click : ClickEvent
  pub created : Bool

aware : Option Datetime → Tx ℕ
aware none = raise value_error
aware (some d) = if d.has_tzinfo then pure d.instant else raise value_error

-- `_occurred_at`
unfoldable pub parse_occurred_at : Env → String → Tx ℕ
unfolding aware
parse_occurred_at env value = aware (env.parse_datetime value)

-- The seller without its panel offers, one billing state on.
abbrev pub suspended : Seller → Seller
suspended seller = record seller {
  panel_offers_active = false;
  billing_state_version = seller.billing_state_version + 1;
}

-- `_deactivate_panel_offers`
unfoldable pub deactivate_panel_offers : Env → Seller → String → ℕ → String → ℕ → Tx Unit
deactivate_panel_offers env seller reason occurred_at trace_id event_id =
    if not seller.panel_offers_active then pure tt else do
      save_seller (suspended seller)
      add_seller_billing_state_event env (suspended seller) (some reason) occurred_at trace_id
          event_id

-- The seller after a charge.
abbrev pub charged : Seller → ℤ → Seller
charged seller cost = record seller { wallet_balance_toman = seller.wallet_balance_toman -ℤ cost }

abbrev pub charge_row : Draws → Seller → ClickEvent → WalletTransaction
charge_row draws seller click = record {
  transaction_id = draws.transaction;
  seller = seller.seller_key;
  kind = charge;
  amount_toman = neg click.cost_toman;
  balance_after_toman = seller.wallet_balance_toman -ℤ click.cost_toman;
  click = some click.click_id;
  reference = none;
  occurred_at = click.occurred_at;
}

-- The branch `if cost_toman:` of `process_queued_click`.
unfoldable pub charge_seller : Env → Draws → QueuedClick → Seller → ClickEvent → Tx Unit
charge_seller env draws queued seller click = do
  let seller' = charged seller click.cost_toman
  save_seller seller'
  create_transaction (charge_row draws seller click)
  if eqb_ℤ seller'.wallet_balance_toman (pos 0)
      then deactivate_panel_offers env seller' "zero_balance" click.occurred_at queued.trace_id
          draws.state_event
      else pure tt

-- What a click costs its seller: the rate of its price band, or nothing.
abbrev pub rate_cost : Option CpcRate → ℤ
rate_cost none = pos 0
rate_cost (some r) = r.cost_toman

abbrev pub rate_id_of : Option CpcRate → Option ℕ
rate_id_of none = none
rate_id_of (some r) = some r.rate_id

unfoldable pub is_chargeable : QueuedClick → Seller → Option CpcRate → Bool
is_chargeable queued seller rate =
    queued.is_panel_offer
    && (not queued.is_suspicious
        && (seller.panel_offers_active && (is_some rate && ltb_ℤ (pos 0) (rate_cost rate))))

unfoldable pub click_cost : QueuedClick → Seller → Option CpcRate → ℤ
unfolding is_chargeable
click_cost queued seller rate =
    if is_chargeable queued seller rate && leb_ℤ (rate_cost rate) seller.wallet_balance_toman
    then rate_cost rate
    else pos 0

-- The branches on `cost_toman` and `chargeable` after the click is stored.
unfoldable pub settle : Env → Draws → QueuedClick → Seller → Option CpcRate → ClickEvent → Tx Unit
settle env draws queued seller rate click =
    if not (eqb_ℤ click.cost_toman (pos 0))
    then charge_seller env draws queued seller click
    else if is_chargeable queued seller rate && ltb_ℤ seller.wallet_balance_toman (rate_cost rate)
    then deactivate_panel_offers env seller "insufficient_balance" click.occurred_at queued.trace_id
        draws.state_event
    else pure tt

-- The event `clicks.recorded`.
unfoldable pub announce_click : Env → Draws → QueuedClick → ClickEvent → Tx Unit
announce_click env draws queued click =
    add_outbox_event env clicks_recorded (plain queued.product_uid) (plain queued.click_id)
      "clicks.recorded" click.occurred_at queued.trace_id
      (click_payload (record {
        click_id = queued.click_id;
        product_uid = queued.product_uid;
        offer_uid = queued.offer_uid;
        seller_key = queued.seller_key;
        cost_toman = click.cost_toman;
        is_suspicious = queued.is_suspicious;
        occurred_at = env.utc_string click.occurred_at;
      }))
      draws.click_event

-- The branch `if queued.velocity_anomaly:`.
unfoldable pub announce_velocity : Env → Draws → QueuedClick → ℕ → Tx Unit
announce_velocity env draws queued occurred_at =
    let request_uid = velocity_of queued.seller_key queued.velocity_bucket in
    if queued.velocity_anomaly
    then add_outbox_event env review_requested request_uid request_uid "review.requested"
        occurred_at queued.trace_id
        (review_payload (record {
          request_uid = request_uid;
          kind = "seller_click_velocity";
          priority = queued.velocity_count;
          seller_key = queued.seller_key;
          click_count = queued.velocity_count;
          window_seconds = env.velocity_window;
          rule = "per_seller_click_velocity";
          requested_at = env.utc_string occurred_at;
        }))
        draws.review_event
    else pure tt

-- The row that `ClickEvent.objects.create` writes.
unfoldable pub new_click : QueuedClick → ℕ → ℕ → ℕ → Seller → Option CpcRate → ClickEvent
unfolding click_cost
new_click queued click_id product_uid occurred_at seller rate = record {
  click_id = click_id;
  product_uid = product_uid;
  offer_uid = queued.offer_uid;
  seller_key = queued.seller_key;
  price_toman = queued.price_toman;
  is_panel_offer = queued.is_panel_offer;
  cost_toman = click_cost queued seller rate;
  is_suspicious = queued.is_suspicious;
  fraud_reasons = queued.fraud_reasons;
  ip_hash = queued.ip_hash;
  user_agent_hash = queued.user_agent_hash;
  fingerprint_hash = queued.fingerprint_hash;
  rate = rate_id_of rate;
  occurred_at = occurred_at;
}

-- The writes of `process_queued_click`, from `ClickEvent.objects.create` on.
unfoldable pub write_click :
    Env → Draws → QueuedClick → Seller → Option CpcRate → ClickEvent → Tx ClickProcessingResult
write_click env draws queued seller rate click = do
  create_click click
  settle env draws queued seller rate click
  announce_click env draws queued click
  announce_velocity env draws queued click.occurred_at
  pure (record { click = click; created = true })

-- The part of `process_queued_click` after the duplicate check.
unfoldable pub record_click : Env → Draws → QueuedClick → ℕ → Tx ClickProcessingResult
record_click env draws queued click_id db =
    (do
      seller ←
          or_raise (seller_of queued.seller_key db.sellers) (seller_unavailable queued.seller_key)
      occurred_at ← parse_occurred_at env queued.occurred_at
      let rate = resolve_cpc_rate queued.price_toman occurred_at db.rates
      product_uid ← or_raise (env.parse_uuid queued.product_uid) value_error
      write_click env draws queued seller rate
          (new_click queued click_id product_uid occurred_at seller rate))
      db

abbrev pub existing_or : Option ClickEvent → Tx ClickProcessingResult → Tx ClickProcessingResult
existing_or (some click) rest = pure (record { click = click; created = false })
existing_or none rest = rest

unfoldable pub process_queued_click : Env → Draws → QueuedClick → Tx ClickProcessingResult
process_queued_click env draws queued db =
    (do
      click_id ← or_raise (env.parse_uuid queued.click_id) value_error
      existing_or (click_of click_id db.clicks) (record_click env draws queued click_id))
      db
