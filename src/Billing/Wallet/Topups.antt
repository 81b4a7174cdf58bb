-- ===== src/Billing/Wallet/Topups.antt =====
-- Top-ups of billing/wallet.py and their gateway references.
use yadakchi.Prelude.{
  ◌≡◌, refl, ℕ, String, true, some, ◌∷◌, arith, str_eq_iff, str_eq_refl, is_some, inl, inr,
  Bool-cases, Option-cases,
}
use yadakchi.Prelude.Int.{ℤ, pos, leb_ℤ, eqb_ℤ_iff}
use yadakchi.Billing.Models.{WalletTransaction, topup}
use yadakchi.Billing.Database.{Db, ok, seller_of, transaction_of, save_row}
use yadakchi.Billing.Database.Ensures.{Ensures}
use yadakchi.Billing.Events.{Env}
use yadakchi.Billing.Wallet.{Draws}
use yadakchi.Billing.Topup.{credited, wallet_row, record_topup}
use yadakchi.Billing.Wallet.Rules.{credit-Ensures, record_topup-Ensures}
use yadakchi.Billing.Wallet.Ledger.{seller_of-key}
use yadakchi.Billing.Wallet.Owned.{seller_of-save_row}

-- What a later call with the same reference meets.
IsTaken : String → ℤ → String → WalletTransaction → Db → Type 0
IsTaken key amount reference t db =
    (is_some (seller_of key db.sellers) ≡ true)
    × (transaction_of reference db.transactions ≡ some t)
    × (t.seller ≡ key)
    × (t.amount_toman ≡ amount)

record_topup-IsTaken :
    (env : Env) (draws : Draws) (key : String) (amount : ℤ) (reference : String) (now : ℕ) (db : Db)
    → Ensures (IsTaken key amount reference) (record_topup env draws key amount reference now db)
unfolding IsTaken
record_topup-IsTaken env draws key amount reference now db =
    elim (Option-cases (seller_of key db.sellers)) [
      | inl missing ↦ unfold record_topup in (rw missing (ground arith))
      | inr (s₀, found₀) ↦
          record_topup-Ensures (IsTaken key amount reference) env draws key amount reference now db
            (λ t present same equal. (rw found₀ refl, present, same, equal))
            λ s positive found absent.
              let row = wallet_row draws s topup amount reference now in
              let saved = save_row (credited s amount) db.sellers in
              credit-Ensures (λ d. (d.sellers ≡ saved) × (d.transactions ≡ row ∷ db.transactions))
                (λ _ _ k. k) env (IsTaken key amount reference) draws s amount reference now db
                (refl, refl)
                λ db' (sold, kept). (
                  rw (sold, seller_of-save_row key (credited s amount) db.sellers, found) refl,
                  rw (kept, str_eq_refl reference) refl,
                  seller_of-key key db.sellers found,
                  refl,
                )
    ]

-- If a top-up was recorded, then the same top-up under the same reference returns the same
-- transaction and changes nothing.
pub record_topup_again :
    (env : Env) (draws draws' : Draws) (key : String) (amount : ℤ) (reference : String)
    (now now' : ℕ) (db db' : Db) (t : WalletTransaction)
    → record_topup env draws key amount reference now db ≡ ok (t, db')
    → record_topup env draws' key amount reference now' db' ≡ ok (t, db')
unfolding record_topup IsTaken
record_topup_again env draws draws' key amount reference now now' db db' t done =
    let (known, present, same, equal) =
      (let taken : IsTaken key amount reference t db' =
          rw done at (record_topup-IsTaken env draws key amount reference now db) in
        taken) in
    elim (Option-cases (seller_of key db'.sellers)) [
      | inl missing ↦ absurd (cc (rw missing at known))
      | inr (s, found) ↦ elim (Bool-cases (leb_ℤ amount (pos 0))) [
        | inl refused ↦ absurd (cc (rw (record_topup, refused) at done))
        | inr positive ↦
            rw
              (
                record_topup,
                positive,
                found,
                present,
                (str_eq_iff t.seller key).1 same,
                (eqb_ℤ_iff t.amount_toman amount).1 equal,
              )
              refl
      ]
    ]
