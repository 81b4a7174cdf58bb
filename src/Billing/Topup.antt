-- ===== src/Billing/Topup.antt =====
-- billing/wallet.py: topping a wallet up, and adjusting it by hand.
use yadakchi.Prelude.{
  ℕ, ◌+◌, String, Bool, true, false, not, ◌&&◌, Option, none, some, if◌then◌else◌, str_eq, is_some,
}
use yadakchi.Prelude.Int.{ℤ, pos, ◌+ℤ◌, ltb_ℤ, leb_ℤ, eqb_ℤ}
use yadakchi.Billing.Models.{Seller, WalletTransaction, Kind, topup, manual}
use yadakchi.Billing.Database.{
  Tx, value_error, does_not_exist, pure, raise, or_raise, raise_if, ◌>>=◌, ◌>>◌, seller_of,
  save_seller, transaction_of, create_transaction,
}
use yadakchi.Billing.Events.{Env, add_seller_billing_state_event}
use yadakchi.Billing.Wallet.{Draws}

-- The seller after a top-up.
abbrev pub credited : Seller → ℤ → Seller
credited seller amount = record seller {
  wallet_balance_toman = seller.wallet_balance_toman +ℤ amount;
  panel_offers_active = true;
  billing_state_version =
      if seller.panel_offers_active
      then seller.billing_state_version
      else seller.billing_state_version + 1;
}

abbrev pub wallet_row : Draws → Seller → Kind → ℤ → String → ℕ → WalletTransaction
wallet_row draws seller kind amount reference now = record {
  transaction_id = draws.transaction;
  seller = seller.seller_key;
  kind = kind;
  amount_toman = amount;
  balance_after_toman = seller.wallet_balance_toman +ℤ amount;
  click = none;
  reference = some reference;
  occurred_at = now;
}

-- `record_topup` after the row of the seller is locked and the reference is known to be new. `now`
-- stands for `occurred_at or timezone.now()`.
unfoldable pub credit : Env → Draws → Seller → ℤ → String → ℕ → Tx WalletTransaction
credit env draws seller amount reference now = do
  save_seller (credited seller amount)
  create_transaction (wallet_row draws seller topup amount reference now)
  if not seller.panel_offers_active
      then add_seller_billing_state_event env (credited seller amount) none now
          (env.show_uuid draws.transaction) draws.state_event
      else pure tt
  pure (wallet_row draws seller topup amount reference now)

abbrev pub is_same_topup : String → ℤ → WalletTransaction → Bool
is_same_topup seller_key amount t = str_eq t.seller seller_key && eqb_ℤ t.amount_toman amount

abbrev pub repeated_or :
    String → ℤ → Option WalletTransaction → Tx WalletTransaction → Tx WalletTransaction
repeated_or seller_key amount none rest = rest
repeated_or seller_key amount (some t) rest =
    if is_same_topup seller_key amount t then pure t else raise value_error

unfoldable pub record_topup : Env → Draws → String → ℤ → String → ℕ → Tx WalletTransaction
record_topup env draws seller_key amount reference now db =
    (do
      raise_if (leb_ℤ amount (pos 0)) value_error
      seller ← or_raise (seller_of seller_key db.sellers) does_not_exist
      repeated_or seller_key amount (transaction_of reference db.transactions)
          (credit env draws seller amount reference now))
      db

-- Whether the panel offers run after an adjustment to `new_balance`.
abbrev pub active_after : Seller → ℤ → ℤ → Bool
active_after seller amount new_balance =
    if eqb_ℤ new_balance (pos 0)
    then false
    else if ltb_ℤ (pos 0) amount && not seller.panel_offers_active
    then true
    else seller.panel_offers_active

abbrev pub bool_ne : Bool → Bool → Bool
bool_ne true b = not b
bool_ne false b = b

-- The seller after an adjustment.
abbrev pub adjusted : Seller → ℤ → Seller
adjusted seller amount =
    let active = active_after seller amount (seller.wallet_balance_toman +ℤ amount) in
    record seller {
      wallet_balance_toman = seller.wallet_balance_toman +ℤ amount;
      panel_offers_active = active;
      billing_state_version =
          if bool_ne seller.panel_offers_active active
          then seller.billing_state_version + 1
          else seller.billing_state_version;
    }

abbrev pub reason_of : Bool → Option String
reason_of true = none
reason_of false = some "zero_balance"

-- `adjust_wallet` after the seller is locked and the reference is known to be new.
unfoldable pub adjust : Env → Draws → Seller → ℤ → String → ℕ → Tx WalletTransaction
adjust env draws seller amount reference now = do
  raise_if (ltb_ℤ (seller.wallet_balance_toman +ℤ amount) (pos 0)) value_error
  let seller' = adjusted seller amount
  save_seller seller'
  create_transaction (wallet_row draws seller manual amount reference now)
  if bool_ne seller.panel_offers_active seller'.panel_offers_active
      then add_seller_billing_state_event env seller' (reason_of seller'.panel_offers_active) now
          (env.show_uuid draws.transaction) draws.state_event
      else pure tt
  pure (wallet_row draws seller manual amount reference now)

unfoldable pub adjust_wallet : Env → Draws → String → ℤ → String → ℕ → Tx WalletTransaction
adjust_wallet env draws seller_key amount reference now db =
    (do
      raise_if (eqb_ℤ amount (pos 0)) value_error
      seller ← or_raise (seller_of seller_key db.sellers) does_not_exist
      raise_if (is_some (transaction_of reference db.transactions)) value_error
      adjust env draws seller amount reference now)
      db
