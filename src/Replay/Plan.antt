-- ===== src/Replay/Plan.antt =====
-- `from_request` of src/reconciliation_replay.rs, with the cursors it resumes from.
use rhi.Attempt.Identity.{source_kind, source_selector}
use rhi.Attempt.Plan.{is_text}
use rhi.Base.{
  [], none, some, false, ok, ◌∷◌, List, Option, ℕ, Bool, Result, be_bytes, domain, find,
  if◌then◌else◌, ◌-◌, ◌/◌, not, same_bytes, ◌++◌, ◌>>◌, require, ◌&&◌, any, ◌==◌, ◌>>=◌, ok_or,
  refuse, keep, between, leb,
}
use rhi.Replay.Types.{
  ReplayError, invalid_input, invalid_configuration, policy_mismatch, CursorEvidence, ReplayPlan,
  Cursor,
}
use rhi.Attempt.Types.{SourceRequest, AttemptPlan}

abbrev pub max_overlap_seconds : ℕ
max_overlap_seconds = 86400

-- One entry of `/evidence/sources`, and what the code reads of the configuration.
pub record ReplaySource : Type 0 where
  pub source_id : Option (List ℕ)
  pub kind : Option (List ℕ)
  pub selector : Option (List ℕ)
  pub overlap_seconds : Option ℕ
  pub lookback_seconds : Option ℕ

pub record ReplayConfiguration : Type 0 where
  pub policy_digest : Option ℕ
  pub sources : Option (List ReplaySource)

abbrev pub committed_cursor_evidence : List ℕ → ℕ → ℕ → ℕ → Cursor → CursorEvidence
committed_cursor_evidence source_id trade_id policy_digest selector_digest cursor = record {
  source_id = source_id;
  trade_id = trade_id;
  policy_digest = policy_digest;
  selector_digest = selector_digest;
  cursor = cursor;
}

unfoldable pub cursor_scope_matches : CursorEvidence → List ℕ → ℕ → ℕ → ℕ → Bool
cursor_scope_matches evidence source_id trade_id policy_digest selector_digest =
    same_bytes evidence.source_id source_id
    && evidence.trade_id == trade_id
    && evidence.policy_digest == policy_digest
    && evidence.selector_digest == selector_digest

-- `-` stops at 0, as `saturating_sub` does.
abbrev pub resume_since : Cursor → ℕ → ℕ
resume_since cursor overlap_seconds = cursor.created_at_unix_seconds - overlap_seconds

abbrev cursor_bytes : Option Cursor → List ℕ
cursor_bytes none = 0 ∷ []
cursor_bytes (some cursor) =
    1 ∷ (be_bytes 8 cursor.created_at_unix_seconds ++ be_bytes 32 cursor.event_id)

abbrev pub cursor_in : Option CursorEvidence → Option Cursor
cursor_in none = none
cursor_in (some evidence) = some evidence.cursor

abbrev pub out_of_scope : Option CursorEvidence → SourceRequest → ℕ → Bool
out_of_scope none request policy = false
out_of_scope (some evidence) request policy = not (
    cursor_scope_matches evidence request.source_id request.trade_id policy request.selector_digest)

abbrev is_source : List ℕ → ReplaySource → Bool
is_source id source = is_text id source.source_id

abbrev pub replay_source : SourceRequest → Option (List ReplaySource) → Option ReplaySource
replay_source request none = none
replay_source request (some sources) = find (is_source request.source_id) sources

abbrev pub usable_source : Option ReplaySource → Option ReplaySource
usable_source none = none
usable_source (some source) =
    if is_text source_kind source.kind && is_text source_selector source.selector
    then some source
    else none

abbrev pub since : Option Cursor → SourceRequest → ℕ → ℕ → ℕ
since none request overlap lookback = request.attempt_started_at / 1000 - lookback
since (some cursor) request overlap lookback = resume_since cursor overlap

module _ (sha256 : List ℕ → ℕ) where
  unfoldable pub replay_id : ℕ → Option Cursor → ℕ → ℕ → ℕ
  replay_id request_id prior_cursor overlap_seconds since_unix_seconds = sha256 (
      domain "radroots.rhi.reconciliation_source_replay.v1"
      ++ (be_bytes 32 request_id
          ++ (cursor_bytes prior_cursor
              ++ (be_bytes 8 overlap_seconds ++ be_bytes 8 since_unix_seconds))))

  abbrev pub plan_for : SourceRequest → ℕ → Option CursorEvidence → ℕ → ℕ → ReplayPlan
  plan_for request policy prior_cursor overlap lookback =
      let start = since (cursor_in prior_cursor) request overlap lookback in
      record {
        id = replay_id request.id (cursor_in prior_cursor) overlap start;
        request_id = request.id;
        source_id = request.source_id;
        trade_id = request.trade_id;
        required = request.required;
        policy_digest = policy;
        selector_digest = request.selector_digest;
        prior_cursor = prior_cursor;
        overlap_seconds = overlap;
        since_unix_seconds = start;
      }

  unfoldable pub from_request :
      AttemptPlan
      → SourceRequest
      → ReplayConfiguration
      → Option CursorEvidence
      → Result ReplayError ReplayPlan
  from_request attempt request configuration prior_cursor = do
    require (any (λ (candidate : SourceRequest). candidate.id == request.id) attempt.requests)
        invalid_input
    policy ← ok_or configuration.policy_digest invalid_configuration
    require (policy == attempt.policy_digest) policy_mismatch
    refuse (out_of_scope prior_cursor request policy) policy_mismatch
    source ←
        ok_or (usable_source (replay_source request configuration.sources)) invalid_configuration
    overlap ←
        ok_or (keep (between 1 max_overlap_seconds) source.overlap_seconds) invalid_configuration
    lookback ←
        ok_or
          (keep (λ value. value == request.lookback_seconds && leb overlap value)
            source.lookback_seconds)
          invalid_configuration
    ok (plan_for request policy prior_cursor overlap lookback)
