-- ===== src/Replay/Advance.antt =====
-- The cursor that a replay of src/reconciliation_replay.rs makes eligible, and where it resumes.
use rhi.Replay.Canonical.{is_lt, compare_cursor}
use rhi.Replay.Plan.{
  from_request, ReplayConfiguration, cursor_scope_matches, max_overlap_seconds, out_of_scope,
  usable_source, replay_source, plan_for, since, cursor_in,
}
use rhi.Replay.Commit.{eligible_cursor, after_cursor, is_complete}
use rhi.Base.{
  none, some, true, ok, List, Option, any, ℕ, ◌≡◌, ◌==◌, ◌↔◌, ◌≤◌, ◌/◌, ◌-◌, false, inl, inr, refl,
  Bool-cases, and_then-ok, ok_or, arith, keep, require, some_ne_none, between, refuse, sym, ◌&&◌,
  leb, subst, true_ne_false, ap, ◌∙◌, ok-injective, ==_iff, require-ok, refuse-ok,
}
use mathlib.Core.Option.{some-injective}
use rhi.Attempt.Types.{complete, SourceCompletion, AttemptPlan, SourceRequest}
use rhi.Replay.Types.{
  invalid_input, invalid_configuration, policy_mismatch, Cursor, CursorEvidence, ReplayPlan,
}

after_cursor_iff :
    (candidate prior : Option Cursor) (k : Cursor)
    → (after_cursor candidate prior ≡ some k)
      ↔ ((candidate ≡ some k) × ((p : Cursor) → prior ≡ some p → is_lt (compare_cursor p k) ≡ true))
after_cursor_iff none prior k =
    (λ e. absurd (some_ne_none (sym e)), λ (e, _). absurd (some_ne_none (sym e)))
after_cursor_iff (some c) none k = (λ e. (e, λ p h. absurd (some_ne_none (sym h))), λ (e, _). e)
after_cursor_iff (some c) (some q) k = elim (Bool-cases (is_lt (compare_cursor q c))) [
  | inl less ↦ rw less (
    λ e. (
      e,
      λ p h.
          let same = some-injective _ _ e in
          let prior_same = some-injective _ _ h in
          subst (λ z. is_lt (compare_cursor p z) ≡ true) same
            (subst (λ z. is_lt (compare_cursor z c) ≡ true) prior_same less),
    ),
    λ (e, _). e,
  )
  | inr more ↦ rw more (
    λ e. absurd (some_ne_none (sym e)),
    λ (e, ahead).
        let same = some-injective _ _ e in
        absurd (
          true_ne_false
            (sym (ahead q refl) ∙ subst (λ z. is_lt (compare_cursor q z) ≡ false) same more)),
  )
]

pub is_complete_eq : (outcome : SourceCompletion) → is_complete outcome ≡ true → outcome ≡ complete
is_complete_eq outcome h = ground arith

-- A cursor is eligible exactly if the source is complete, the cursor is the candidate, and it is
-- after the prior cursor, if there is one.
pub eligible_cursor_iff :
    (outcome : SourceCompletion) (candidate prior : Option Cursor) (k : Cursor)
    → (eligible_cursor outcome candidate prior ≡ some k) ↔ (
        (outcome ≡ complete)
        × (candidate ≡ some k)
        × ((p : Cursor) → prior ≡ some p → is_lt (compare_cursor p k) ≡ true))
unfolding eligible_cursor
eligible_cursor_iff outcome candidate prior k =
    let (down, up) = after_cursor_iff candidate prior k in
    elim (Bool-cases (is_complete outcome)) [
      | inl whole ↦ rw whole (
        λ e. let (same, ahead) = down e in (is_complete_eq outcome whole, same, ahead),
        λ (_, same, ahead). up (same, ahead),
      )
      | inr partly ↦ rw partly (
        λ e. absurd (some_ne_none (sym e)),
        λ (whole, _, _). absurd (true_ne_false (sym (ap is_complete whole) ∙ partly)),
      )
    ]

-- A plan that `from_request` makes.
pub record ReplayPlanFits (attempt : AttemptPlan) (request : SourceRequest)
    (prior : Option CursorEvidence) (plan : ReplayPlan) : Type 0 where
  pub requested :
      any (λ (candidate : SourceRequest). candidate.id == request.id) attempt.requests ≡ true
  pub for_request : plan.request_id ≡ request.id
  pub for_trade : plan.trade_id ≡ request.trade_id
  pub policy : plan.policy_digest ≡ attempt.policy_digest
  pub resumes : plan.prior_cursor ≡ prior
  pub scope :
      (evidence : CursorEvidence)
      → prior ≡ some evidence
      → cursor_scope_matches evidence plan.source_id plan.trade_id plan.policy_digest
          plan.selector_digest
        ≡ true
  pub overlap_pos : 1 ≤ plan.overlap_seconds
  pub overlap_le : plan.overlap_seconds ≤ 86400
  pub overlap_within : plan.overlap_seconds ≤ request.lookback_seconds
  pub fresh :
      prior ≡ none
      → plan.since_unix_seconds ≡ request.attempt_started_at / 1000 - request.lookback_seconds
  pub overlaps :
      (evidence : CursorEvidence)
      → prior ≡ some evidence
      → plan.since_unix_seconds ≡ evidence.cursor.created_at_unix_seconds - plan.overlap_seconds

kept_overlap :
    (o : Option ℕ) (overlap : ℕ)
    → ok_or (keep (between 1 max_overlap_seconds) o) invalid_configuration ≡ ok overlap
    → (1 ≤ overlap) × (overlap ≤ 86400)
kept_overlap o overlap h = (ground arith, ground arith)

kept_lookback :
    (asked overlap : ℕ) (o : Option ℕ) (lookback : ℕ)
    → ok_or (keep (λ value. value == asked && leb overlap value) o) invalid_configuration
      ≡ ok lookback
    → (lookback ≡ asked) × (overlap ≤ lookback)
kept_lookback asked overlap o lookback h = (ground arith, ground arith)

module _ (sha256 : List ℕ → ℕ) where
  plan_for-ReplayPlanFits :
      (attempt : AttemptPlan) (request : SourceRequest) (prior : Option CursorEvidence)
      (policy overlap lookback : ℕ)
      → any (λ (candidate : SourceRequest). candidate.id == request.id) attempt.requests ≡ true
      → policy ≡ attempt.policy_digest
      → out_of_scope prior request policy ≡ false
      → 1 ≤ overlap
      → overlap ≤ 86400
      → lookback ≡ request.lookback_seconds
      → overlap ≤ request.lookback_seconds
      → ReplayPlanFits attempt request prior (plan_for sha256 request policy prior overlap lookback)
  plan_for-ReplayPlanFits attempt request prior policy overlap lookback requested same in_scope pos
        most exact within =
      record {
        requested = requested;
        for_request = refl;
        for_trade = refl;
        policy = same;
        resumes = refl;
        scope = λ evidence h.
            let inside : out_of_scope (some evidence) request policy ≡ false =
              subst (λ o. out_of_scope o request policy ≡ false) h in_scope in
            ground arith;
        overlap_pos = pos;
        overlap_le = most;
        overlap_within = within;
        fresh = λ h. ap (λ o. since (cursor_in o) request overlap lookback) h ∙ (rw exact refl);
        overlaps = λ evidence h. ap (λ o. since (cursor_in o) request overlap lookback) h;
      }

  -- A plan that `from_request` makes is for a request of the attempt, its trade and its policy,
  -- with a prior cursor of that scope if any, an overlap of one second to one day within the
  -- lookback, and a start that is the lookback before the attempt, or the overlap before the prior
  -- cursor, both stopped at 0.
  pub from_request-ReplayPlanFits :
      (attempt : AttemptPlan) (request : SourceRequest) (configuration : ReplayConfiguration)
      (prior : Option CursorEvidence) (plan : ReplayPlan)
      → from_request sha256 attempt request configuration prior ≡ ok plan
      → ReplayPlanFits attempt request prior plan
  unfolding from_request
  from_request-ReplayPlanFits attempt request configuration prior plan e =
      let (_, requested, e1) =
        and_then-ok
          (require
            (any (λ (candidate : SourceRequest). candidate.id == request.id) attempt.requests)
            invalid_input)
          e in
      let (policy, _, e2) =
        and_then-ok (ok_or configuration.policy_digest invalid_configuration) e1 in
      let (_, same_policy, e3) =
        and_then-ok (require (policy == attempt.policy_digest) policy_mismatch) e2 in
      let (_, in_scope, e4) =
        and_then-ok (refuse (out_of_scope prior request policy) policy_mismatch) e3 in
      let (source, _, e5) =
        and_then-ok
          (ok_or (usable_source (replay_source request configuration.sources))
            invalid_configuration)
          e4 in
      let (overlap, overlaps, e6) =
        and_then-ok
          (ok_or (keep (between 1 max_overlap_seconds) source.overlap_seconds)
            invalid_configuration)
          e5 in
      let (lookback, looks, e7) =
        and_then-ok
          (ok_or
            (keep (λ value. value == request.lookback_seconds && leb overlap value)
              source.lookback_seconds)
            invalid_configuration)
          e6 in
      let (overlap_pos, overlap_le) = kept_overlap source.overlap_seconds overlap overlaps in
      let (exact, overlap_within) =
        kept_lookback request.lookback_seconds overlap source.lookback_seconds lookback looks in
      subst (λ plan. ReplayPlanFits attempt request prior plan) (ok-injective e7)
        (plan_for-ReplayPlanFits attempt request prior policy overlap lookback
          (require-ok _ _ requested)
          ((==_iff policy attempt.policy_digest).0 (require-ok _ _ same_policy))
          (refuse-ok _ _ in_scope) overlap_pos overlap_le exact (omega (arith, exact)))
