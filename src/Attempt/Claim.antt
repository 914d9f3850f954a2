-- ===== src/Attempt/Claim.antt =====
-- The plan that `from_claim` of src/reconciliation_attempt.rs makes of a claimed lease.
use rhi.Jobs.Statements.{is_leased}
use rhi.Attempt.Identity.{attempt_id, selector_digest}
use rhi.Jobs.Types.{Lease, attempt_policy_matches}
use rhi.Attempt.Plan.{
  Frame, absolute_deadline, request_for, id_text, after_prior, from_claim, requests_for,
  max_sources, bounded_integer, some_sources, max_result_events, max_result_bytes, AttemptResult,
}
use rhi.Attempt.Types.{
  lease_expired, policy_mismatch, invalid_configuration, invalid_input, SourceRequest, SourceEntry,
  AttemptPlan, Configuration,
}
use rhi.Base.{
  ℕ, refl, true, inl, inr, ok, List, Option, ◌≡◌, arith, ◌<◌, ◌≤◌, ◌+◌, [], none, some, ◌∷◌, length,
  and_then-ok, refuse, not, ◌||◌, ◌==◌, suc, subst, ok-injective, ap, leb, Bool-cases, ok_or,
  between, err_ne_ok, sym,
}

-- A request of a plan: its deadline, its name after the one before it, and its trade.
pub record InFrame (started_at deadline trade_id : ℕ) (prior : Option (List ℕ))
    (request : SourceRequest) : Type 0 where
  pub ahead : started_at < request.deadline
  pub capped : request.deadline ≤ deadline
  pub named : id_text request.source_id ≡ true
  pub ordered : after_prior prior request.source_id ≡ true
  pub of_trade : request.trade_id ≡ trade_id

abbrev pub RequestsFit : ℕ → ℕ → ℕ → Option (List ℕ) → List SourceRequest → Type 0
RequestsFit started_at deadline trade_id prior [] = Unit {0}
RequestsFit started_at deadline trade_id prior (request ∷ requests) =
    InFrame started_at deadline trade_id prior request
    × RequestsFit started_at deadline trade_id (some request.source_id) requests

module _ (sha256 : List ℕ → ℕ) where
  request_for-InFrame :
      (frame : Frame) (prior : Option (List ℕ)) (source : SourceEntry) (request : SourceRequest)
      → request_for sha256 frame prior source ≡ ok request
      → InFrame frame.started_at frame.deadline frame.trade_id prior request
  unfolding request_for absolute_deadline
  request_for-InFrame frame prior source request h = record {
    ahead = ground arith;
    capped = ground arith;
    named = ground arith;
    ordered = ground arith;
    of_trade = ground arith;
  }

  requests_for-fits :
      (frame : Frame) (prior : Option (List ℕ)) (sources : List SourceEntry)
      (requests : List SourceRequest)
      → requests_for sha256 frame prior sources ≡ ok requests
      → RequestsFit frame.started_at frame.deadline frame.trade_id prior requests
        × (length requests ≡ length sources)
  requests_for-fits frame prior [] requests h =
      subst
        (λ rs.
          RequestsFit frame.started_at frame.deadline frame.trade_id prior rs × (length rs ≡ 0))
        (ok-injective h) (tt, refl)
  requests_for-fits frame prior (source ∷ sources) requests h =
      let (request, first, h1) = and_then-ok (request_for sha256 frame prior source) h in
      let (rest, later, h2) =
        and_then-ok (requests_for sha256 frame (some request.source_id) sources) h1 in
      let (fits, long) = requests_for-fits frame (some request.source_id) sources rest later in
      subst
        (λ rs.
          RequestsFit frame.started_at frame.deadline frame.trade_id prior rs
          × (length rs ≡ suc (length sources)))
        (ok-injective h2)
        ((request_for-InFrame frame prior source request first, fits), ap suc long)

  -- What the plan of a claim says.
  pub record PlanFits (lease : Lease) (started_at : ℕ) (plan : AttemptPlan) : Type 0 where
    pub of_job : plan.job_id ≡ lease.job.id
    pub of_attempt : plan.id ≡ attempt_id sha256 lease.job.id lease.job.attempt_count
    pub of_policy : plan.policy_digest ≡ lease.job.policy_digest
    pub begun : plan.attempt_started_at ≡ started_at
    pub leased : started_at < lease.lease_expires
    pub ahead : started_at < plan.deadline
    pub capped : plan.deadline ≤ lease.lease_expires
    pub bounded : plan.deadline ≤ started_at + 30000
    pub some_requests : 1 ≤ length plan.requests
    pub few_requests : length plan.requests ≤ max_sources
    pub requests : RequestsFit started_at plan.deadline lease.job.trade_id none plan.requests

  deadline_bounds :
      (started_at duration ceiling deadline : ℕ)
      → absolute_deadline started_at duration ceiling ≡ ok deadline
      → (started_at < deadline) × (deadline ≤ ceiling) × (deadline ≤ started_at + duration)
  unfolding absolute_deadline
  deadline_bounds started_at duration ceiling deadline h =
      (ground arith, ground arith, ground arith)

  same_policy :
      (a b : ℕ) {u : Unit {0}}
      → ◌≡◌ {A = AttemptResult (Unit {0})} (refuse (not (a == b)) policy_mismatch) (ok u)
      → a ≡ b
  same_policy a b h = ground arith

  before_expiry :
      (started_at expires : ℕ) {u : Unit {0}}
      → ◌≡◌ {A = AttemptResult (Unit {0})} (refuse (leb expires started_at) lease_expired) (ok u)
      → started_at < expires
  before_expiry started_at expires h = ground arith

  within :
      (started_at duration deadline : ℕ)
      → deadline ≤ started_at + duration
      → duration ≤ 30000
      → deadline ≤ started_at + 30000
  within started_at duration deadline sum short = omega arith

  duration_bound :
      (value : Option ℕ) (duration : ℕ)
      → bounded_integer value 100 30000 ≡ ok duration
      → duration ≤ 30000
  duration_bound value duration h = ground arith

  sources_bounds :
      (found : Option (List SourceEntry)) (sources : List SourceEntry)
      → some_sources sha256 found ≡ ok sources
      → (1 ≤ length sources) × (length sources ≤ max_sources)
  sources_bounds none sources h = cc
  sources_bounds (some listed) sources h =
      elim (Bool-cases (between 1 max_sources (length listed))) [
        | inl fits ↦
            let same : listed ≡ sources = ok-injective (rw fits at h) in
            subst (λ l. (1 ≤ length l) × (length l ≤ max_sources)) same (ground arith, ground arith)
        | inr other ↦ absurd (err_ne_ok (rw other at h))
      ]

  -- A plan that `from_claim` makes is of the leased job, its attempt and its policy; it starts at
  -- the given time, before the lease is over, and ends after its start, within thirty seconds and
  -- within the lease; it has one to sixteen requests for the job's trade, in the order of their
  -- names, each ending after the start and no later than the plan.
  pub from_claim-PlanFits :
      (lease : Lease) (configuration : Configuration) (started_at : ℕ) (plan : AttemptPlan)
      → from_claim sha256 lease configuration started_at ≡ ok plan
      → PlanFits lease started_at plan
  unfolding from_claim
  from_claim-PlanFits lease configuration started_at plan h =
      let (_, leased_job, h1) =
        and_then-ok
          (refuse (not (is_leased lease.job.state) || lease.job.attempt_count == 0) invalid_input)
          h in
      let (_, early, h2) =
        and_then-ok (refuse (leb lease.lease_expires started_at) lease_expired) h1 in
      let (digest, _, h3) =
        and_then-ok (ok_or configuration.policy_digest invalid_configuration) h2 in
      let (_, same_digest, h4) =
        and_then-ok (refuse (not (digest == lease.job.policy_digest)) policy_mismatch) h3 in
      let (policy, _, h5) = and_then-ok (ok_or configuration.job_policy invalid_configuration) h4 in
      let (_, _, h6) =
        and_then-ok (refuse (not (attempt_policy_matches lease.job policy)) policy_mismatch) h5 in
      let (duration, asked, h7) =
        and_then-ok (bounded_integer configuration.attempt_deadline_ms 100 30000) h6 in
      let (deadline, ends, h8) =
        and_then-ok (absolute_deadline started_at duration lease.lease_expires) h7 in
      let (events, _, h9) =
        and_then-ok (bounded_integer configuration.result_events 1 max_result_events) h8 in
      let (bytes, _, h10) =
        and_then-ok (bounded_integer configuration.result_bytes 1 max_result_bytes) h9 in
      let (sources, listed, h11) = and_then-ok (some_sources sha256 configuration.sources) h10 in
      let frame : Frame = record {
        attempt = attempt_id sha256 lease.job.id lease.job.attempt_count;
        trade_id = lease.job.trade_id;
        selector = selector_digest sha256 lease.job.trade_id;
        started_at = started_at;
        attempt_deadline_ms = duration;
        deadline = deadline;
        maximum_events = events;
        maximum_bytes = bytes;
      } in
      let (requests, made, h12) = and_then-ok (requests_for sha256 frame none sources) h11 in
      let (fits, long) = requests_for-fits frame none sources requests made in
      let (ahead, capped, bounded) =
        deadline_bounds started_at duration lease.lease_expires deadline ends in
      let number = sources_bounds configuration.sources sources listed in
      let small = duration_bound configuration.attempt_deadline_ms duration asked in
      subst (PlanFits lease started_at) (ok-injective h12) (record {
        of_job = refl;
        of_attempt = refl;
        of_policy = same_policy digest lease.job.policy_digest same_digest;
        begun = refl;
        leased = before_expiry started_at lease.lease_expires early;
        ahead = ahead;
        capped = capped;
        bounded = within started_at duration deadline bounded small;
        some_requests = subst (λ n. 1 ≤ n) (sym long) number.0;
        few_requests = subst (λ n. n ≤ max_sources) (sym long) number.1;
        requests = fits;
      })
