-- ===== src/Fitment/Inference/Verdicts.antt =====
-- What a verdict from the claims of sellers rests on.
use yadakchi.Prelude.{◌≡◌, refl, ◌⊎◌, inl, inr, ◌≤◌, String, Option, List, [], ◌∷◌, arith}
use yadakchi.Fitment.Models.{compatible, unknown, human, consensus, Claim, Verdict, FitmentDb, Env}
use yadakchi.Fitment.Inference.{seller_count, agreed_verdict, computed_verdict}

-- A verdict is a person's, or says nothing, or is a consensus: at least two sellers claim that the
-- part fits, and none that it does not. No seller's claim makes a part incompatible.
abbrev pub IsJustified : Verdict → Type 0
IsJustified v =
    (v.provenance ≡ human)
    ⊎ ((v.status ≡ unknown)
        ⊎ ((v.status ≡ compatible)
            × (v.provenance ≡ consensus)
            × (2 ≤ seller_count v.evidence.positive_offers)
            × (v.evidence.negative_offers ≡ [])))

agreed_verdict-IsJustified :
    (positives negatives : List Claim) (part : Option String)
    → (2 ≤ seller_count positives → negatives ≡ [])
    → IsJustified (agreed_verdict positives negatives part)
unfolding agreed_verdict
agreed_verdict-IsJustified positives negatives part h = ground arith

pub computed_verdict-IsJustified :
    (env : Env) (slug : String) (positives negatives : List Claim) (part : Option String)
    (trace_id : String) (db : FitmentDb)
    → IsJustified (computed_verdict env slug positives negatives part trace_id db).0
unfolding computed_verdict seller_count
computed_verdict-IsJustified env slug [] ns part trace_id db =
    agreed_verdict-IsJustified [] ns part (λ h. absurd (omega arith))
computed_verdict-IsJustified env slug (p ∷ ps) [] part trace_id db =
    agreed_verdict-IsJustified (p ∷ ps) [] part (λ h. refl)
computed_verdict-IsJustified env slug (p ∷ ps) (n ∷ ns) part trace_id db = inr (inl refl)
