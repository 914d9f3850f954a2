-- ===== src/Evaluation.antt =====
-- The evaluation of an agreement claim in src/reconciliation_reducer.rs: the facts that are read off
-- the shared projection, and the order in which they decide. The projection is what the shared reducer
-- of another repository gives; here it is a value, with an id as a number.
mod Tests
use rhi.Base.{
  ℕ, refl, [], true, false, ◌∷◌, Bool, List, Option, if◌then◌else◌, is_some, ◌≡◌, ◌≢◌, any, not,
  ◌||◌, ◌↔◌, ◌&&◌, ◌==◌, arith,
}

pub data Coverage : Type 0 where
  missing partial scope_satisfied unsupported : Coverage

pub data EvidenceState : Type 0 where
  missing query_partial complete unsupported_version : EvidenceState

pub data Outcome : Type 0 where
  indeterminate invalid valid : Outcome

pub data ReasonCode : Type 0 where
  required_evidence_missing required_source_incomplete required_source_unsupported : ReasonCode
  projection_digest_unavailable governing_schema_unsupported reducer_issue_unresolved : ReasonCode
  agreement_claim_missing agreement_claim_unresolved : ReasonCode
  scope_satisfied agreement_claim_cancelled : ReasonCode

-- What `evaluate_rhi_reconciliation_claim` reads of a projection.
pub record Projection : Type 0 where
  pub coverage : Coverage
  pub evidence_state : EvidenceState
  pub digest : Option ℕ
  pub issues : List ℕ
  pub agreement_claims : List ℕ
  pub active_agreement_claim_ids : List ℕ
  pub contested_claim_ids : List ℕ
  pub cancelled_claim_ids : List ℕ
  pub agreed : Bool

pub record EvaluationFacts : Type 0 where
  pub coverage : Coverage
  pub shared_evidence : EvidenceState
  pub projection_digest_available : Bool
  pub reducer_issue_present : Bool
  pub claim_present : Bool
  pub claim_active : Bool
  pub claim_contested : Bool
  pub claim_cancelled : Bool
  pub agreement_agreed : Bool

abbrev contains : List ℕ → ℕ → Bool
contains ids id = any (λ other. other == id) ids

abbrev is_empty : List ℕ → Bool
is_empty [] = true
is_empty (_ ∷ _) = false

unfoldable pub facts_of : Projection → ℕ → EvaluationFacts
facts_of projection claim = record {
  coverage = projection.coverage;
  shared_evidence = projection.evidence_state;
  projection_digest_available = is_some projection.digest;
  reducer_issue_present = not (is_empty projection.issues);
  claim_present = contains projection.agreement_claims claim;
  claim_active = contains projection.active_agreement_claim_ids claim;
  claim_contested = contains projection.contested_claim_ids claim;
  claim_cancelled = contains projection.cancelled_claim_ids claim;
  agreement_agreed = projection.agreed;
}

abbrev decide_claim : EvaluationFacts → Outcome × ReasonCode
decide_claim facts =
    if facts.reducer_issue_present
      || facts.claim_contested
      || (facts.claim_active && facts.claim_cancelled)
    then (indeterminate, reducer_issue_unresolved)
    else if not facts.claim_present
    then (indeterminate, agreement_claim_missing)
    else if facts.claim_active && facts.agreement_agreed
    then (valid, scope_satisfied)
    else if facts.claim_cancelled && not facts.claim_active
    then (invalid, agreement_claim_cancelled)
    else (indeterminate, agreement_claim_unresolved)

abbrev decide_evidence : EvidenceState → EvaluationFacts → Outcome × ReasonCode
decide_evidence missing facts = (indeterminate, required_evidence_missing)
decide_evidence query_partial facts = (indeterminate, required_source_incomplete)
decide_evidence unsupported_version facts = (indeterminate, governing_schema_unsupported)
decide_evidence complete facts = decide_claim facts

abbrev decide_coverage : Coverage → EvaluationFacts → Outcome × ReasonCode
decide_coverage missing facts = (indeterminate, required_evidence_missing)
decide_coverage partial facts = (indeterminate, required_source_incomplete)
decide_coverage unsupported facts = (indeterminate, required_source_unsupported)
decide_coverage scope_satisfied facts =
    if not facts.projection_digest_available
    then (indeterminate, projection_digest_unavailable)
    else decide_evidence facts.shared_evidence facts

unfoldable pub classify_evaluation : EvaluationFacts → Outcome × ReasonCode
classify_evaluation facts = decide_coverage facts.coverage facts

-- The evidence is complete and nothing in it is disputed.
pub record Conclusive (facts : EvaluationFacts) : Type 0 where
  pub covered : facts.coverage ≡ scope_satisfied
  pub digested : facts.projection_digest_available ≡ true
  pub evident : facts.shared_evidence ≡ complete
  pub undisputed : facts.reducer_issue_present ≡ false
  pub uncontested : facts.claim_contested ≡ false
  pub present : facts.claim_present ≡ true

abbrev is_open : Outcome → Bool
is_open indeterminate = true
is_open _ = false

Conclusive-facts :
    (facts : EvaluationFacts) → is_open (classify_evaluation facts).0 ≡ false → Conclusive facts
unfolding classify_evaluation
Conclusive-facts facts h = record {
  covered = ground arith;
  digested = ground arith;
  evident = ground arith;
  undisputed = ground arith;
  uncontested = ground arith;
  present = ground arith;
}

-- A claim is valid exactly if the evidence is conclusive and the claim is active, agreed and not
-- cancelled; it is invalid exactly if the evidence is conclusive and the claim is cancelled and
-- not active.
pub classify_evaluation-Conclusive :
    (facts : EvaluationFacts)
    → (((classify_evaluation facts).0 ≡ valid) ↔ (
        Conclusive facts
        × (facts.claim_active ≡ true)
        × (facts.agreement_agreed ≡ true)
        × (facts.claim_cancelled ≡ false)))
      × (((classify_evaluation facts).0 ≡ invalid)
          ↔ (Conclusive facts × (facts.claim_cancelled ≡ true) × (facts.claim_active ≡ false)))
unfolding classify_evaluation
classify_evaluation-Conclusive facts = (
  (
    λ h. (Conclusive-facts facts (rw h), ground arith, ground arith, ground arith),
    λ c.
        rw
          (
            c.0.covered, c.0.digested, c.0.evident, c.0.undisputed, c.0.uncontested, c.0.present,
            c.1, c.2, c.3,
          )
          refl,
  ),
  (
    λ h. (Conclusive-facts facts (rw h), ground arith, ground arith),
    λ c.
        rw
          (
            c.0.covered, c.0.digested, c.0.evident, c.0.undisputed, c.0.uncontested, c.0.present,
            c.1, c.2,
          )
          refl,
  ),
)
