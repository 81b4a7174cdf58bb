-- ===== src/Billing/Tests/Coding.antt =====
-- A codec for billing/tokens.py: each number in unary.
use yadakchi.Prelude.{
  ◌≡◌, refl, ℕ, zero, suc, ◌+◌, Option, none, some, [], ◌∷◌, true, false, arith, ◌==◌, length,
}
use yadakchi.Prelude.Int.{pos}
use yadakchi.Billing.Tokens.{Text, ClickIntent, Codec}
use yadakchi.Billing.Tokens.Laws.{IsTokenText, IsFaithful}

abbrev unary : ℕ → Text → Text
unary zero rest = b'b' ∷ rest
unary (suc n) rest = b'a' ∷ unary n rest

abbrev pub to_unary : Text → Text
to_unary [] = []
to_unary (n ∷ ns) = unary n (to_unary ns)

abbrev prepend : ℕ → Option Text → Option Text
prepend n none = none
prepend n (some t) = some (n ∷ t)

abbrev read_from : ℕ → Text → Option Text
read_from n [] = some []
read_from n (c ∷ cs) = elim (c == b'a') [
  | true ↦ read_from (n + 1) cs
  | false ↦ prepend n (read_from 0 cs)
]

read_from-unary :
    (n k m : ℕ) (rest : Text)
    → m ≡ n + k
    → read_from n (unary k rest) ≡ prepend m (read_from 0 rest)
read_from-unary n zero m rest e = let same : m ≡ n = omega arith in rw same refl
read_from-unary n (suc k) m rest e = read_from-unary (n + 1) k m rest (omega arith)

read_from-to_unary : (t : Text) → read_from 0 (to_unary t) ≡ some t
read_from-to_unary [] = refl
read_from-to_unary (n ∷ ns) =
    rw (read_from-unary 0 n n (to_unary ns) (omega arith), read_from-to_unary ns) refl

unary-IsTokenText : (n : ℕ) (rest : Text) → IsTokenText rest → IsTokenText (unary n rest)
unary-IsTokenText zero rest h = ((omega arith, λ e. omega arith), h)
unary-IsTokenText (suc n) rest h = ((omega arith, λ e. omega arith), unary-IsTokenText n rest h)

to_unary-IsTokenText : (t : Text) → IsTokenText (to_unary t)
to_unary-IsTokenText [] = tt
to_unary-IsTokenText (n ∷ ns) = unary-IsTokenText n (to_unary ns) (to_unary-IsTokenText ns)

-- An intent that was issued at a time.
abbrev pub intent_at : ℕ → ClickIntent
intent_at t = record {
  product_uid = "7";
  offer_uid = "offer";
  seller_key = "ali";
  destination_url = "https://example.com";
  price_toman = some (pos 900);
  is_panel_offer = true;
  issued_at = t;
  nonce = "n";
}

abbrev read_intent : Text → Option ClickIntent
read_intent [] = none
read_intent (t ∷ ts) = some (intent_at t)

abbrev pub unary_codec : Codec
unary_codec = record {
  json_of = λ i. i.issued_at ∷ [];
  intent_of = read_intent;
  encode = to_unary;
  decode = read_from 0;
  hmac = λ key text. to_unary ((length key + length text) ∷ []);
}

pub unary_codec-IsFaithful : IsFaithful unary_codec
unary_codec-IsFaithful = record {
  decode-encode = read_from-to_unary;
  encode-IsTokenText = to_unary-IsTokenText;
  hmac-IsTokenText = λ key text. to_unary-IsTokenText ((length key + length text) ∷ []);
}
