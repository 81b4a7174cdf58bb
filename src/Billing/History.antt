-- ===== src/Billing/History.antt =====
-- The transactions of the service one after another: those of billing/wallet.py and of
-- billing/consumer.py, and the rates that an operator edits. A call that raises is rolled back.
use yadakchi.Prelude.{◌≡◌, refl, ℕ, String, Bool, List, [], ◌∷◌}
use yadakchi.Prelude.Int.{ℤ, neg}
use yadakchi.Billing.Models.{CpcRate, QueuedClick}
use yadakchi.Billing.Database.{Db, after}
use yadakchi.Billing.Database.Ensures.{Ensures-after}
use yadakchi.Billing.Events.{Env}
use yadakchi.Billing.Wallet.{Draws, process_queued_click}
use yadakchi.Billing.Topup.{record_topup, adjust_wallet}
use yadakchi.Billing.Wallet.Ledger.{
  IsLedger, process_queued_click-IsLedger, record_topup-IsLedger, adjust_wallet-IsLedger,
}
use yadakchi.Billing.Wallet.Owned.{
  IsOwned, process_queued_click-IsOwned, record_topup-IsOwned, adjust_wallet-IsOwned,
}
use yadakchi.Billing.Consumer.{SellerMessage, process_seller_event}
use yadakchi.Billing.Consumer.Invariants.{
  process_seller_event-IsBalanced, process_seller_event-keeps,
}
use yadakchi.Billing.Reporting.{sum_cost, sum_amount, reconcile_day}
use yadakchi.Billing.Reporting.Reconciled.{
  IsReconciled, same_books, process_queued_click-IsReconciled, record_topup-IsReconciled,
  adjust_wallet-IsReconciled, reconcile_day-IsReconciled,
}

pub data Call : Type 0 where
  click : Draws → QueuedClick → Call
  topup : Draws → String → ℤ → String → ℕ → Call
  adjustment : Draws → String → ℤ → String → ℕ → Call
  seller_message : ℕ → SellerMessage → String → Call
  new_rates : List CpcRate → Call

module _ (env : Env) (is_valid : SellerMessage → Bool) where
  pub perform : Call → Db → Db
  perform (click draws queued) db = after (process_queued_click env draws queued db) db
  perform (topup draws key amount reference now) db =
      after (record_topup env draws key amount reference now db) db
  perform (adjustment draws key amount reference now) db =
      after (adjust_wallet env draws key amount reference now db) db
  perform (seller_message draw message key) db =
      after (process_seller_event env is_valid draw message key db) db
  perform (new_rates rates) db = record db { rates = rates }

  unfoldable pub perform_all : List Call → Db → Db
  unfolding perform
  perform_all [] db = db
  perform_all (c ∷ cs) db = perform_all cs (perform c db)

abbrev pub empty_db : Db
empty_db = record {
  sellers = [];
  rates = [];
  clicks = [];
  transactions = [];
  processed = [];
  outbox = [];
}

pub record IsSound (db : Db) : Type 0 where
  pub ledger : IsLedger db
  pub owned : IsOwned db
  pub reconciled : IsReconciled db

module _ (env : Env) (is_valid : SellerMessage → Bool) where
  perform-IsSound : (c : Call) (db : Db) → IsSound db → IsSound (perform env is_valid c db)
  unfolding perform
  perform-IsSound (click draws queued) db h = record {
    ledger =
        Ensures-after IsLedger _ db h.ledger
          (process_queued_click-IsLedger env draws queued db h.ledger);
    owned =
        Ensures-after IsOwned _ db h.owned
          (process_queued_click-IsOwned env draws queued db h.owned);
    reconciled =
        Ensures-after IsReconciled _ db h.reconciled
          (process_queued_click-IsReconciled env draws queued db h.reconciled);
  }
  perform-IsSound (topup draws key amount reference now) db h = record {
    ledger =
        Ensures-after IsLedger _ db h.ledger
          (record_topup-IsLedger env draws key amount reference now db h.ledger);
    owned =
        Ensures-after IsOwned _ db h.owned
          (record_topup-IsOwned env draws key amount reference now db h.owned);
    reconciled =
        Ensures-after IsReconciled _ db h.reconciled
          (record_topup-IsReconciled env draws key amount reference now db h.reconciled);
  }
  perform-IsSound (adjustment draws key amount reference now) db h = record {
    ledger =
        Ensures-after IsLedger _ db h.ledger
          (adjust_wallet-IsLedger env draws key amount reference now db h.ledger);
    owned =
        Ensures-after IsOwned _ db h.owned
          (adjust_wallet-IsOwned env draws key amount reference now db h.owned);
    reconciled =
        Ensures-after IsReconciled _ db h.reconciled
          (adjust_wallet-IsReconciled env draws key amount reference now db h.reconciled);
  }
  perform-IsSound (seller_message draw message key) db h =
      let balanced =
        Ensures-after (λ d. IsLedger d × IsOwned d) _ db (h.ledger, h.owned)
          (process_seller_event-IsBalanced env is_valid draw message key db h.ledger h.owned) in
      record {
        ledger = balanced.0;
        owned = balanced.1;
        reconciled = Ensures-after IsReconciled _ db h.reconciled (
            process_seller_event-keeps IsReconciled (λ _ _ k. same_books k refl refl)
              (λ _ _ k. same_books k refl refl) env db h.reconciled
              (λ _ _ _ _. same_books h.reconciled refl refl)
              (λ _ _ _ _. same_books h.reconciled refl refl)
              (λ _ _ _. same_books h.reconciled refl refl) is_valid draw message key);
      }
  perform-IsSound (new_rates rates) db h = record {
    ledger = h.ledger;
    owned = h.owned;
    reconciled = same_books h.reconciled refl refl;
  }

  pub perform_all-IsSound :
      (cs : List Call) (db : Db) → IsSound db → IsSound (perform_all env is_valid cs db)
  unfolding perform_all
  perform_all-IsSound [] db h = h
  perform_all-IsSound (c ∷ cs) db h =
      perform_all-IsSound cs (perform env is_valid c db) (perform-IsSound c db h)

empty_db-IsSound : IsSound empty_db
unfolding sum_cost sum_amount neg
empty_db-IsSound = record {
  ledger = tt;
  owned = tt;
  reconciled = record { spend = λ _ _. refl; paired = tt; matched = tt };
}

-- Whatever calls of the wallet and of the seller consumer come, in whatever order, failed or not,
-- and however the rates are edited in between: starting from empty tables, the daily
-- reconciliation of no window has a discrepancy to report.
pub reconcile_day-perform_all :
    (env : Env) (is_valid : SellerMessage → Bool) (cs : List Call) (start end : ℕ)
    → reconcile_day start end (perform_all env is_valid cs empty_db) ≡ []
reconcile_day-perform_all env is_valid cs start end =
    reconcile_day-IsReconciled start end (perform_all env is_valid cs empty_db)
      (perform_all-IsSound env is_valid cs empty_db empty_db-IsSound).reconciled

-- After any sequence of calls on empty tables, every seller's balance is the sum of its wallet
-- transactions and is not negative.
pub perform_all-IsLedger :
    (env : Env) (is_valid : SellerMessage → Bool) (cs : List Call)
    → IsLedger (perform_all env is_valid cs empty_db)
perform_all-IsLedger env is_valid cs =
    (perform_all-IsSound env is_valid cs empty_db empty_db-IsSound).ledger
