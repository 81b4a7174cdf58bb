-- ===== src/Billing/Tokens.antt =====
-- billing/tokens.py: the signed token that a redirect link carries. Text is a list of code points.
pub mod Laws
use yadakchi.Prelude.{
  ℕ, ◌+◌, ◌&&◌, Bool, true, false, Option, none, some, List, [], ◌∷◌, ◌++◌, ltb, ◌==◌,
  if◌then◌else◌, String,
}
use yadakchi.Prelude.Int.{ℤ}

abbrev pub Text : Type 0
Text = List ℕ

pub record ClickIntent : Type 0 where
  pub product_uid : String
  pub offer_uid : String
  pub seller_key : String
  pub destination_url : String
  pub price_toman : Option ℤ
  pub is_panel_offer : Bool
  pub issued_at : ℕ
  pub nonce : String

-- What the standard library and pydantic do: the JSON of an intent, base64 without its padding, and
-- the HMAC of a text under a key, in base64. `intent_of` and `decode` fail on what does not parse.
pub record Codec : Type 0 where
  pub json_of : ClickIntent → Text
  pub intent_of : Text → Option ClickIntent
  pub encode : Text → Text
  pub decode : Text → Option Text
  pub hmac : Text → Text → Text

pub data TokenFault : Type 0 where
  invalid_token invalid_encoding invalid_payload from_the_future expired : TokenFault
  missing_key not_ascii : TokenFault

pub data Verdict (A : Type 0) : Type 0 where
  good : A → Verdict A
  bad : TokenFault → Verdict A

infixl 5 ◌>>=◌
abbrev pub ◌>>=◌ : {A B : Type 0} → Verdict A → (A → Verdict B) → Verdict B
good a >>= f = f a
bad e >>= f = bad e

abbrev pub or_bad : {A : Type 0} → Option A → TokenFault → Verdict A
or_bad none e = bad e
or_bad (some a) e = good a

abbrev pub text_eq : Text → Text → Bool
text_eq [] [] = true
text_eq [] (y ∷ ys) = false
text_eq (x ∷ xs) [] = false
text_eq (x ∷ xs) (y ∷ ys) = if x == y then text_eq xs ys else false

-- `token.split(".", maxsplit=1)` into two parts: what stands before and after the first dot.
unfoldable pub split_dot : Text → Option (Text × Text)
split_dot [] = none
split_dot (c ∷ cs) =
    let rest = split_dot cs in
    if c == b'.' then some ([], cs) else elim rest [ none ↦ none | some (a, b) ↦ some (c ∷ a, b) ]

abbrev pub is_ascii : Text → Bool
is_ascii [] = true
is_ascii (c ∷ cs) = if ltb c 128 then is_ascii cs else false

-- `_sign`: an empty key is a RuntimeError, and `encode("ascii")` a UnicodeEncodeError.
unfoldable pub sign : Codec → Text → Text → Verdict Text
sign codec encoded_payload [] = bad missing_key
sign codec encoded_payload (k ∷ key) =
    if is_ascii encoded_payload then good (codec.hmac (k ∷ key) encoded_payload) else bad not_ascii

-- `hmac.compare_digest` of two texts, which is a TypeError if one is not ASCII.
unfoldable pub compare_digest : Text → Text → Verdict Bool
compare_digest a b = if is_ascii a && is_ascii b then good (text_eq a b) else bad not_ascii

-- `sign_click_intent`
unfoldable pub sign_click_intent : Codec → Text → ClickIntent → Verdict Text
sign_click_intent codec key intent =
    let encoded_payload = codec.encode (codec.json_of intent) in
    do signature ← sign codec encoded_payload key; good (encoded_payload ++ b'.' ∷ signature)

-- The checks of the clock: `ttl` and `skew` are the settings of the same names.
unfoldable pub check_clock : ℕ → ℕ → ℕ → ClickIntent → Verdict ClickIntent
check_clock ttl skew now intent =
    if ltb (now + skew) intent.issued_at
    then bad from_the_future
    else if ltb (intent.issued_at + ttl) now
    then bad expired
    else good intent

-- From the comparison of the digests on.
unfoldable pub verify_digest : Codec → ℕ → ℕ → ℕ → Text → Bool → Verdict ClickIntent
verify_digest codec ttl skew now encoded_payload false = bad invalid_token
verify_digest codec ttl skew now encoded_payload true = do
  raw ← or_bad (codec.decode encoded_payload) invalid_encoding
  intent ← or_bad (codec.intent_of raw) invalid_payload
  check_clock ttl skew now intent

-- The checks of the two parts of a token.
unfoldable pub verify_parts : Codec → Text → ℕ → ℕ → ℕ → Option (Text × Text) → Verdict ClickIntent
verify_parts codec key ttl skew now none = bad invalid_token
verify_parts codec key ttl skew now (some (encoded_payload, supplied)) = do
  expected ← sign codec encoded_payload key
  same ← compare_digest supplied expected
  verify_digest codec ttl skew now encoded_payload same

unfoldable pub verify_click_token : Codec → Text → ℕ → ℕ → ℕ → Text → Verdict ClickIntent
verify_click_token codec key ttl skew now token =
    verify_parts codec key ttl skew now (split_dot token)
