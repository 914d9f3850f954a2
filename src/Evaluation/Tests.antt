-- ===== src/Evaluation/Tests.antt =====
-- An agreed claim as src/reconciliation_reducer.rs evaluates it.
use rhi.Evaluation.{
  scope_satisfied, complete, valid, Projection, classify_evaluation, facts_of, Conclusive, invalid,
  classify_evaluation-Conclusive,
}
use rhi.Base.{◌≡◌, ◌↔◌, refl, [], some, true, false, ◌∷◌}

abbrev agreed_projection : Projection
agreed_projection = record {
  coverage = scope_satisfied;
  evidence_state = complete;
  digest = some 1;
  issues = [];
  agreement_claims = 4 ∷ [];
  active_agreement_claim_ids = 4 ∷ [];
  contested_claim_ids = [];
  cancelled_claim_ids = [];
  agreed = true;
}

agreed_is_valid : classify_evaluation (facts_of agreed_projection 4) ≡ (valid, scope_satisfied)
unfolding classify_evaluation facts_of
agreed_is_valid = refl

classify_evaluation-Conclusive_example :
    (((classify_evaluation (facts_of agreed_projection 4)).0 ≡ valid) ↔ (
      Conclusive (facts_of agreed_projection 4)
      × ((facts_of agreed_projection 4).claim_active ≡ true)
      × ((facts_of agreed_projection 4).agreement_agreed ≡ true)
      × ((facts_of agreed_projection 4).claim_cancelled ≡ false)))
    × (((classify_evaluation (facts_of agreed_projection 4)).0 ≡ invalid) ↔ (
        Conclusive (facts_of agreed_projection 4)
        × ((facts_of agreed_projection 4).claim_cancelled ≡ true)
        × ((facts_of agreed_projection 4).claim_active ≡ false)))
classify_evaluation-Conclusive_example =
    classify_evaluation-Conclusive (facts_of agreed_projection 4)
