-- ===== src/Attempt/Inventory.antt =====
-- `RhiReconciliationAttemptResults::new` of src/reconciliation_attempt.rs accepts one result for each
-- request, in order.
use rhi.Attempt.Results.{attempt_results_new, some_other_id}
use rhi.Attempt.Types.{result_inventory, SourceResult, AttemptPlan, SourceRequest}
use rhi.Base.{
  ℕ, refl, [], true, false, inl, inr, ok, err, suc, ◌∷◌, List, ◌≡◌, Bool, arith, take, ◌⊎◌, length,
  not, ◌≢◌, cons_ne_nil, ◌+◌, ◌==◌, Bool-cases, sym, ◌||◌, cons_tail, ◌∙◌, cons_head,
}

abbrev pub result_ids : List SourceResult → List ℕ
result_ids [] = []
result_ids (result ∷ results) = result.request_id ∷ result_ids results

abbrev pub request_ids : List SourceRequest → List ℕ
request_ids [] = []
request_ids (request ∷ requests) = request.id ∷ request_ids requests

-- The test of `new` on the results that it takes.
abbrev is_other : List SourceResult → List SourceRequest → Bool
is_other taken requests = not (length taken == length requests) || some_other_id taken requests

true_ne_false : true ≡ false → ⊥
true_ne_false h = cc

is_other-suc :
    (r : SourceResult) (q : SourceRequest) (taken : List SourceResult)
    (requests : List SourceRequest)
    → is_other (r ∷ taken) (q ∷ requests) ≡ false
    → (is_other taken requests ≡ false) × (r.request_id ≡ q.id)
is_other-suc r q taken requests h = (ground arith, ground arith)

suc-is_other :
    (r : SourceResult) (q : SourceRequest) (taken : List SourceResult)
    (requests : List SourceRequest)
    → is_other taken requests ≡ false
    → r.request_id ≡ q.id
    → is_other (r ∷ taken) (q ∷ requests) ≡ false
suc-is_other r q taken requests h e = ground arith

sound :
    (results : List SourceResult) (requests : List SourceRequest)
    → is_other (take (suc (length requests)) results) requests ≡ false
    → (result_ids results ≡ request_ids requests) × (take (suc (length requests)) results ≡ results)
sound [] [] h = (refl, refl)
sound (r ∷ results) [] h = cc
sound [] (q ∷ requests) h = absurd (ground arith)
sound (r ∷ results) (q ∷ requests) h =
    let (rest, e) = is_other-suc r q (take (suc (length requests)) results) requests h in
    let (same, whole) = sound results requests rest in (rw (e, same) refl, rw whole refl)

complete_ids :
    (results : List SourceResult) (requests : List SourceRequest)
    → result_ids results ≡ request_ids requests
    → is_other (take (suc (length requests)) results) requests ≡ false
complete_ids [] [] h = refl
complete_ids (r ∷ results) [] h = absurd (cons_ne_nil _ _ h)
complete_ids [] (q ∷ requests) h = absurd (cons_ne_nil _ _ (sym h))
complete_ids (r ∷ results) (q ∷ requests) h =
    suc-is_other r q (take (suc (length requests)) results) requests
      (complete_ids results requests (cons_tail h)) (cons_head h)

-- `new` accepts exactly the lists of results whose request ids are those of the plan, in its
-- order, and keeps all of them; any other list is an inventory error.
pub attempt_results_new-ids :
    (plan : AttemptPlan) (results : List SourceResult)
    → ((result_ids results ≡ request_ids plan.requests)
        × (attempt_results_new plan results
            ≡ ok (record { attempt_id = plan.id; results = results })))
      ⊎ ((result_ids results ≢ request_ids plan.requests)
          × (attempt_results_new plan results ≡ err result_inventory))
unfolding attempt_results_new
attempt_results_new-ids plan results =
    let next : length plan.requests + 1 ≡ suc (length plan.requests) = omega arith in
    elim (Bool-cases (is_other (take (suc (length plan.requests)) results) plan.requests)) [
      | inl other ↦ inr (
        λ same. true_ne_false (sym other ∙ complete_ids results plan.requests same),
        rw next (rw other),
      )
      | inr fits ↦
          let (same, whole) = sound results plan.requests fits in
          inl (same, rw next (rw (fits, whole)))
    ]
