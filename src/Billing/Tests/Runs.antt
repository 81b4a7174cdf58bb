-- ===== src/Billing/Tests/Runs.antt =====
-- The theorems about the wallet, the queue and the jobs at concrete inputs.
use yadakchi.Prelude.{◌≡◌, refl, ◌⊎◌, true, false, some, List, [], ◌∷◌, All}
use yadakchi.Prelude.Int.{pos, negsuc, ◌-ℤ◌}
use yadakchi.Billing.Models.{ClickEvent, Kind}
use yadakchi.Billing.Database.{Db, ok, after}
use yadakchi.Billing.Events.{add_outbox_event}
use yadakchi.Billing.Rates.{
  is_active_at, in_band, highest_first, lowest_first, resolve_cpc_rate, active_rates, first_by,
}
use yadakchi.Billing.Rates.Choice.{resolve_cpc_rate-best, resolve_cpc_rate-lowest}
use yadakchi.Billing.Wallet.{
  process_queued_click, record_click, write_click, new_click, settle, charge_seller,
  deactivate_panel_offers, announce_click, announce_velocity, is_chargeable, click_cost,
  parse_occurred_at,
}
use yadakchi.Billing.Topup.{record_topup, credit, wallet_row}
use yadakchi.Billing.Wallet.Clicks.{process_queued_click_again}
use yadakchi.Billing.Wallet.Topups.{record_topup_again}
use yadakchi.Billing.Wallet.Ledger.{IsLedger}
use yadakchi.Billing.Consumer.{process_seller_event, apply_payload, upsert_seller, is_processed}
use yadakchi.Billing.Consumer.Order.{process_seller_event_again}
use yadakchi.Billing.Reporting.{reconcile_day}
use yadakchi.Billing.History.{
  click, topup, adjustment, seller_message, new_rates, Call, empty_db, perform_all,
  reconcile_day-perform_all, perform_all-IsLedger,
}
use yadakchi.Billing.Tests.Sample.{
  sample_env, sample_draws, sample_db, sample_click, sample_message, band, ali,
}

abbrev calls : List Call
calls =
    seller_message 1 sample_message "ali"
    ∷ new_rates (band 0 30 ∷ [])
    ∷ topup (sample_draws 10) "ali" (pos 50) "ref" 450
    ∷ click (sample_draws 11) (sample_click "u1")
    ∷ click (sample_draws 12) (sample_click "u2")
    ∷ adjustment (sample_draws 13) "ali" (negsuc 4) "fix" 600
    ∷ []

reconcile_day-perform_all_example :
    reconcile_day 0 1000 (perform_all sample_env (λ _. true) calls empty_db) ≡ []
reconcile_day-perform_all_example = reconcile_day-perform_all sample_env (λ _. true) calls 0 1000

perform_all-IsLedger_example : IsLedger (perform_all sample_env (λ _. true) calls empty_db)
perform_all-IsLedger_example = perform_all-IsLedger sample_env (λ _. true) calls

resolve_cpc_rate-best_example :
    (is_active_at 500 (band 500 70) ≡ true)
    × (in_band (pos 900) (band 500 70) ≡ true)
    × All
        (λ s.
          (is_active_at 500 s ≡ false)
          ⊎ ((in_band (pos 900) s ≡ false) ⊎ (highest_first s (band 500 70) ≡ false)))
        (band 0 30 ∷ band 500 70 ∷ [])
unfolding resolve_cpc_rate active_rates is_active_at in_band first_by highest_first
resolve_cpc_rate-best_example =
    resolve_cpc_rate-best (pos 900) 500 (band 0 30 ∷ band 500 70 ∷ []) (band 500 70) refl

resolve_cpc_rate-lowest_example :
    (is_active_at 500 (band 0 30) ≡ true)
    × All
        (λ s. (is_active_at 500 s ≡ false) ⊎ (lowest_first s (band 0 30) ≡ false))
        (band 0 30 ∷ band 500 70 ∷ [])
unfolding resolve_cpc_rate active_rates is_active_at first_by lowest_first
resolve_cpc_rate-lowest_example =
    resolve_cpc_rate-lowest 500 (band 0 30 ∷ band 500 70 ∷ []) (band 0 30) refl

abbrev rich_db : Db
rich_db = record sample_db { sellers = record ali { wallet_balance_toman = pos 100 } ∷ [] }

abbrev clicked : ClickEvent
clicked =
    new_click (sample_click "u1") 1 3 500 (record ali { wallet_balance_toman = pos 100 })
      (some (band 500 70))

abbrev clicked_db : Db
clicked_db =
    after (process_queued_click sample_env (sample_draws 1) (sample_click "u1") rich_db) rich_db

process_queued_click_again_example :
    process_queued_click sample_env
      (sample_draws 2)
      (record (sample_click "u1") { offer_uid = "x" })
      clicked_db
    ≡ ok (record { click = clicked; created = false }, clicked_db)
unfolding process_queued_click record_click write_click new_click settle charge_seller
    announce_click announce_velocity is_chargeable click_cost parse_occurred_at resolve_cpc_rate
    active_rates first_by is_active_at in_band highest_first add_outbox_event
    deactivate_panel_offers ◌-ℤ◌
process_queued_click_again_example =
    process_queued_click_again sample_env (sample_draws 1) (sample_draws 2) (sample_click "u1")
      (record (sample_click "u1") { offer_uid = "x" }) rich_db clicked_db
      (record { click = clicked; created = true }) refl refl

abbrev credited_db : Db
credited_db =
    after (record_topup sample_env (sample_draws 1) "ali" (pos 50) "ref" 450 sample_db) sample_db

record_topup_again_example :
    record_topup sample_env (sample_draws 2) "ali" (pos 50) "ref" 460 credited_db
    ≡ ok (wallet_row (sample_draws 1) ali Kind.topup (pos 50) "ref" 450, credited_db)
unfolding record_topup credit
record_topup_again_example =
    record_topup_again sample_env (sample_draws 1) (sample_draws 2) "ali" (pos 50) "ref" 450 460
      sample_db credited_db (wallet_row (sample_draws 1) ali Kind.topup (pos 50) "ref" 450) refl

abbrev told_db : Db
told_db =
    after (process_seller_event sample_env (λ _. true) 1 sample_message "ali" sample_db) sample_db

process_seller_event_again_example :
    process_seller_event sample_env (λ _. true) 2 sample_message "ali" told_db ≡ ok (false, told_db)
unfolding process_seller_event apply_payload upsert_seller is_processed parse_occurred_at
process_seller_event_again_example =
    process_seller_event_again sample_env (λ _. true) 1 2 sample_message "ali" sample_db told_db
      refl
