-- ===== src/Billing/Tokens/Laws.antt =====
-- Signing and verification in billing/tokens.py.
use yadakchi.Prelude.{
  ℕ, ◌+◌, ◌≤◌, ◌<◌, ◌≡◌, ◌≢◌, refl, Bool, true, false, Option, none, some, [], ◌∷◌, ◌++◌, arith,
  All, ◌∙◌, ap,
}
use yadakchi.Billing.Tokens.{
  Text, ClickIntent, Codec, good, is_ascii, compare_digest, text_eq, split_dot, sign,
  sign_click_intent, verify_digest, or_bad, invalid_payload, invalid_encoding, check_clock,
  verify_parts, verify_click_token, ◌>>=◌,
}

text_eq_refl : (s : Text) → text_eq s s ≡ true
text_eq_refl [] = refl
text_eq_refl (x ∷ s) = ground (arith, text_eq_refl s)

text_eq_sound : (s t : Text) → text_eq s t ≡ true → s ≡ t
text_eq_sound [] [] e = refl
text_eq_sound [] (y ∷ t) e = absurd (cc)
text_eq_sound (x ∷ s) [] e = absurd (cc)
text_eq_sound (x ∷ s) (y ∷ t) e = ground (arith, text_eq_sound s t)

-- What base64 writes: ASCII without a dot.
abbrev pub IsTokenText : Text → Type 0
IsTokenText = All (λ c. (c < 128) × (c ≢ b'.'))

split_dot-append : (a b : Text) → IsTokenText a → split_dot (a ++ b'.' ∷ b) ≡ some (a, b)
unfolding split_dot
split_dot-append [] b h = refl
split_dot-append (c ∷ a) b h = ground (arith, split_dot-append a b h.1)

is_ascii-IsTokenText : (a : Text) → IsTokenText a → is_ascii a ≡ true
is_ascii-IsTokenText [] h = refl
is_ascii-IsTokenText (c ∷ a) h = ground (arith, is_ascii-IsTokenText a h.1)

-- Documented behaviour of base64 and of HMAC in base64.
pub record IsFaithful (codec : Codec) : Type 0 where
  pub decode-encode : (raw : Text) → codec.decode (codec.encode raw) ≡ some raw
  pub encode-IsTokenText : (raw : Text) → IsTokenText (codec.encode raw)
  pub hmac-IsTokenText : (key text : Text) → IsTokenText (codec.hmac key text)

check_clock-inside :
    (ttl skew now : ℕ) (intent : ClickIntent)
    → intent.issued_at ≤ now + skew
    → now ≤ intent.issued_at + ttl
    → check_clock ttl skew now intent ≡ good intent
unfolding check_clock
check_clock-inside ttl skew now intent early late = ground arith

-- Under a key that is not empty, and base64 and HMAC that write ASCII without a dot: the token of
-- an intent that its JSON gives back verifies to that intent, at any time from `skew` before its
-- issue to `ttl` after it.
pub verify-sign :
    (codec : Codec) (key : Text) (ttl skew now : ℕ) (intent : ClickIntent)
    → IsFaithful codec
    → codec.intent_of (codec.json_of intent) ≡ some intent
    → key ≢ []
    → intent.issued_at ≤ now + skew
    → now ≤ intent.issued_at + ttl
    → (token : Text) × (sign_click_intent codec key intent ≡ good token)
      × (verify_click_token codec key ttl skew now token ≡ good intent)
unfolding sign_click_intent sign verify_click_token verify_parts compare_digest verify_digest
verify-sign codec [] ttl skew now intent f parsed keyed early late = absurd (keyed refl)
verify-sign codec (k ∷ key) ttl skew now intent f parsed keyed early late =
    let p = codec.encode (codec.json_of intent) in
    let signature = codec.hmac (k ∷ key) p in
    let plain = is_ascii-IsTokenText p (f.encode-IsTokenText (codec.json_of intent)) in
    let digest = is_ascii-IsTokenText signature (f.hmac-IsTokenText (k ∷ key) p) in
    (
      p ++ b'.' ∷ signature,
      rw plain,
      rw
          (
            verify_click_token,
            split_dot-append p signature (f.encode-IsTokenText (codec.json_of intent)),
            plain,
            digest,
            text_eq_refl signature,
            f.decode-encode (codec.json_of intent),
            parsed,
            check_clock-inside ttl skew now intent early late,
          )
          refl,
    )

check_clock_sound :
    (ttl skew now : ℕ) (i intent : ClickIntent)
    → check_clock ttl skew now i ≡ good intent
    → (i ≡ intent) × (intent.issued_at ≤ now + skew) × (now ≤ intent.issued_at + ttl)
unfolding check_clock
check_clock_sound ttl skew now i intent e = ground arith

verify_digest_sound :
    (codec : Codec) (ttl skew now : ℕ) (payload : Text) (same : Bool) (intent : ClickIntent)
    → verify_digest codec ttl skew now payload same ≡ good intent
    → (same ≡ true)
      × (raw : Text) × (codec.decode payload ≡ some raw)
      × (codec.intent_of raw ≡ some intent)
      × (intent.issued_at ≤ now + skew)
      × (now ≤ intent.issued_at + ttl)
unfolding verify_digest
verify_digest_sound codec ttl skew now payload false intent e = absurd (cc)
verify_digest_sound codec ttl skew now payload true intent e = opened (codec.decode payload) refl e
  where
    timed :
        (raw : Text) (o : Option ClickIntent)
        → codec.decode payload ≡ some raw
        → codec.intent_of raw ≡ o
        → (or_bad o invalid_payload >>= check_clock ttl skew now) ≡ good intent
        → (◌≡◌ {A = Bool} true true)
          × (raw' : Text) × (codec.decode payload ≡ some raw')
          × (codec.intent_of raw' ≡ some intent)
          × (intent.issued_at ≤ now + skew)
          × (now ≤ intent.issued_at + ttl)
    timed raw none d i c = absurd (cc)
    timed raw (some found) d i c =
        let (same, early, late) = check_clock_sound ttl skew now found intent c in
        (refl, raw, d, cc, early, late)

    opened :
        (o : Option Text)
        → codec.decode payload ≡ o
        → (or_bad o invalid_encoding >>= λ raw.
            or_bad (codec.intent_of raw) invalid_payload >>= check_clock ttl skew now)
          ≡ good intent
        → (◌≡◌ {A = Bool} true true)
          × (raw : Text) × (codec.decode payload ≡ some raw)
          × (codec.intent_of raw ≡ some intent)
          × (intent.issued_at ≤ now + skew)
          × (now ≤ intent.issued_at + ttl)
    opened none d c = absurd (cc)
    opened (some raw) d c = timed raw (codec.intent_of raw) d refl c

-- The digest that was supplied is the one that the key gives.
verify_parts-digest :
    (codec : Codec) (key : Text) (ttl skew now : ℕ) (payload supplied : Text) (intent : ClickIntent)
    → verify_parts codec key ttl skew now (some (payload, supplied)) ≡ good intent
    → (supplied ≡ codec.hmac key payload)
      × (verify_digest codec ttl skew now payload true ≡ good intent)
unfolding verify_parts sign compare_digest verify_digest
verify_parts-digest codec [] ttl skew now payload supplied intent e = absurd (ground arith)
verify_parts-digest codec (k ∷ key) ttl skew now payload supplied intent e =
    ground (arith, text_eq_sound supplied (codec.hmac (k ∷ key) payload))

-- A token that verifies consists of a payload and, after the first dot, the HMAC of that payload
-- under the key; the payload decodes to the intent that is returned, whose issue time is at most
-- `skew` after now and at most `ttl` before it.
pub verify_sound :
    (codec : Codec) (key : Text) (ttl skew now : ℕ) (token : Text) (intent : ClickIntent)
    → verify_click_token codec key ttl skew now token ≡ good intent
    → (payload : Text) × (raw : Text) × (split_dot token ≡ some (payload, codec.hmac key payload))
      × (codec.decode payload ≡ some raw)
      × (codec.intent_of raw ≡ some intent)
      × (intent.issued_at ≤ now + skew)
      × (now ≤ intent.issued_at + ttl)
unfolding verify_click_token
verify_sound codec key ttl skew now token intent e = parted (split_dot token) refl e
  where
    parted :
        (o : Option (Text × Text))
        → split_dot token ≡ o
        → verify_parts codec key ttl skew now o ≡ good intent
        → (payload : Text) × (raw : Text) × (split_dot token
            ≡ some (payload, codec.hmac key payload))
          × (codec.decode payload ≡ some raw)
          × (codec.intent_of raw ≡ some intent)
          × (intent.issued_at ≤ now + skew)
          × (now ≤ intent.issued_at + ttl)
    parted none d v = absurd (unfold verify_parts in (cc v))
    parted (some (payload, supplied)) d v =
        let (same, verified) =
          verify_parts-digest codec key ttl skew now payload supplied intent v in
        let (_, raw, decoded, read, early, late) =
          verify_digest_sound codec ttl skew now payload true intent verified in
        (payload, raw, (d ∙ ap (λ (t : Text). some (payload, t)) same), decoded, read, early, late)
