-- ===== src/Billing/Wallet/Charged.antt =====
-- The wallet that a click of billing/wallet.py is charged to.
use yadakchi.Prelude.{
  ◌≡◌, String, true, false, Option, some, none, List, ◌⊎◌, str_eq, if◌then◌else◌,
}
use yadakchi.Prelude.Int.{ℤ, pos, ◌≤ℤ◌, ◌<ℤ◌, ◌-ℤ◌}
use yadakchi.Billing.Models.{Seller, QueuedClick}
use yadakchi.Billing.Database.{Db, seller_of}
use yadakchi.Billing.Database.Ensures.{Ensures}
use yadakchi.Billing.Wallet.{ClickProcessingResult}

abbrev balance_of : Option Seller → Option ℤ
balance_of none = none
balance_of (some s) = some s.wallet_balance_toman

-- What the wallet of a seller holds, if there is one.
abbrev pub wallet_of : String → List Seller → Option ℤ
wallet_of key rows = balance_of (seller_of key rows)

abbrev minus : ℤ → Option ℤ → Option ℤ
minus cost none = none
minus cost (some b) = some (b -ℤ cost)

abbrev filled_with : ℤ → Option ℤ → Option ℤ
filled_with b none = none
filled_with b (some a) = some b

-- A wallet after a cost was taken from the wallet of `payer`.
abbrev pub less : String → ℤ → String → Option ℤ → Option ℤ
less payer cost key balance = if str_eq payer key then minus cost balance else balance

-- The wallets after the cost of a click, and nothing else, was taken from that of its seller.
abbrev pub ArePaid : String → ℤ → List Seller → Db → Type 0
ArePaid payer cost before db =
    (key : String) → wallet_of key db.sellers ≡ less payer cost key (wallet_of key before)

-- Why a click costs what it costs.
abbrev pub IsDue : QueuedClick → List Seller → ℤ → Type 0
IsDue queued before cost =
    (cost ≡ pos 0)
    ⊎ ((s : Seller) × (seller_of queued.seller_key before ≡ some s)
        × (pos 0 <ℤ cost)
        × (cost ≤ℤ s.wallet_balance_toman)
        × (s.panel_offers_active ≡ true)
        × (queued.is_panel_offer ≡ true)
        × (queued.is_suspicious ≡ false))

-- What a call does to the wallets.
abbrev pub IsSettled : QueuedClick → Db → ClickProcessingResult → Db → Type 0
IsSettled queued db r db' =
    ((r.created ≡ false) × (db' ≡ db))
    ⊎ ((r.created ≡ true)
        × ArePaid queued.seller_key r.click.cost_toman db.sellers db'
        × IsDue queued db.sellers r.click.cost_toman)
