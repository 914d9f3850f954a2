-- ===== src/Replay/Fits.antt =====
-- What a finished replay of src/reconciliation_replay.rs is to the events that it was given.
use rhi.Replay.Accepts.{canonicalize-ok}
use rhi.Replay.Loop.{event_of, canonicalize, stop, checked_u32}
use rhi.Replay.Marks.{Marks}
use rhi.Replay.Sorting.{total_bytes}
use rhi.Replay.Ingest.{all_ok, ingest_bounded_facts_iff}
use rhi.Attempt.Bounds.{ResultFits, source_result_new-ResultFits}
use rhi.Attempt.Results.{source_result_new}
use rhi.Replay.Finish.{
  AdmittedEvent, finish, replay_fact, from_admitted, replay_with, ingest_bounded_facts,
}
use rhi.Base.{
  [], some, inl, inr, ok, refl, suc, ◌∷◌, ℕ, List, map, ◌<◌, ◌≡◌, arith, max_u64, Contains, length,
  ◌≤◌, cons_ne_nil, subst, sym, ◌+◌, ap, cons_head, count, cons_tail, ◌∙◌, and_then-ok, refuse, not,
  require, ◌==◌, map_err, ok_or, checked, ◌*◌, ltb, map_err-ok, ◌||◌, ok-injective, ==_iff,
  ok_or-ok, require-ok,
}
use rhi.Replay.Types.{
  ReplayFact, ReplayPlan, SourceReplay, CanonicalReplay, invalid_input, resource_limit,
}
use rhi.Attempt.Types.{SourceRequest, SourceCompletion, SourceResult}
use rhi.Replay.Canonical.{refused}

abbrev pub canonical_of : SourceReplay → CanonicalReplay
canonical_of replay = record {
  facts = replay.facts;
  duplicate_observations = replay.duplicate_observations;
  accepted_original_bytes = replay.accepted_original_bytes;
  cursor_candidate = replay.cursor_candidate;
  first_observed_at = replay.first_observed_at;
}

-- Every fact kept stands for an event, every event for a fact of the same record, none twice.
pub record ReplayFits (plan : ReplayPlan) (request : SourceRequest) (started_at finished_at : ℕ)
    (events : List AdmittedEvent) (replay : SourceReplay) : Type 0 where
  pub of_plan : replay.plan ≡ plan
  pub of_request : plan.request_id ≡ request.id
  pub result : ResultFits request replay.result
  pub counted : replay.result.accepted_event_count ≡ length replay.facts
  pub weighed : replay.result.accepted_event_bytes ≡ total_bytes replay.facts
  pub number : length replay.facts + replay.duplicate_observations ≡ length events
  pub from_events :
      (f : ReplayFact)
      → Contains replay.facts f
      → (event : AdmittedEvent) × Contains events event
        × (replay_fact request started_at finished_at event ≡ ok f)
  pub covers :
      (event : AdmittedEvent)
      → Contains events event
      → (f : ReplayFact) × Contains replay.facts f × (from_admitted event ≡ some f.persisted)
  pub once : (f : ReplayFact) → Contains replay.facts f → count (event_of f) replay.facts ≡ 1
  pub marks : Marks (canonical_of replay)

same_count : (n m : ℕ) → checked_u32 n ≡ some m → m ≡ n
same_count n m h = ground arith

module _ (request : SourceRequest) (started_at finished_at : ℕ) where
  from_fact :
      (events : List AdmittedEvent) (xs : List ReplayFact)
      → map (replay_fact request started_at finished_at) events ≡ all_ok xs
      → (x : ReplayFact) → Contains xs x
      → (event : AdmittedEvent) × Contains events event
        × (replay_fact request started_at finished_at event ≡ ok x)
  from_fact events [] e x h = absurd h
  from_fact [] (y ∷ xs) e x h = absurd (cons_ne_nil (ok y) (all_ok xs) (sym e))
  from_fact (event ∷ events) (y ∷ xs) e x (inl here) = (event, inl refl, cons_head e ∙ ap ok here)
  from_fact (event ∷ events) (y ∷ xs) e x (inr later) =
      let (found, in_found, made) = from_fact events xs (cons_tail e) x later in
      (found, inr in_found, made)

  to_fact :
      (events : List AdmittedEvent) (xs : List ReplayFact)
      → map (replay_fact request started_at finished_at) events ≡ all_ok xs
      → (event : AdmittedEvent) → Contains events event
      → (x : ReplayFact) × Contains xs x × (replay_fact request started_at finished_at event ≡ ok x)
  to_fact [] xs e event h = absurd h
  to_fact (next ∷ events) [] e event h = absurd (cons_ne_nil _ _ e)
  to_fact (next ∷ events) (y ∷ xs) e event (inl here) = (
    y,
    inl refl,
    subst (λ z. replay_fact request started_at finished_at z ≡ ok y) here (cons_head e),
  )
  to_fact (next ∷ events) (y ∷ xs) e event (inr later) =
      let (found, in_found, made) = to_fact events xs (cons_tail e) event later in
      (found, inr in_found, made)

  facts-length :
      (events : List AdmittedEvent) (xs : List ReplayFact)
      → map (replay_fact request started_at finished_at) events ≡ all_ok xs
      → length xs ≡ length events
  facts-length [] [] e = refl
  facts-length [] (y ∷ xs) e = absurd (cons_ne_nil _ _ (sym e))
  facts-length (next ∷ events) [] e = absurd (cons_ne_nil _ _ e)
  facts-length (next ∷ events) (y ∷ xs) e = ap suc (facts-length events xs (cons_tail e))

  replay_fact-persisted :
      (event : AdmittedEvent) (x : ReplayFact)
      → replay_fact request started_at finished_at event ≡ ok x
      → from_admitted event ≡ some x.persisted
  replay_fact-persisted event x e =
      let (_, _, e1) =
        and_then-ok (refuse (not (event.trade_id == request.trade_id)) invalid_input) e in
      let (start, _, e2) =
        and_then-ok (ok_or (checked (event.observed_at * 1000)) invalid_input) e1 in
      let (end, _, e3) = and_then-ok (ok_or (checked (start + 999)) invalid_input) e2 in
      let (_, _, e4) =
        and_then-ok (refuse (ltb end started_at || ltb finished_at start) invalid_input) e3 in
      let (persisted, made, e5) = and_then-ok (ok_or (from_admitted event) invalid_input) e4 in
      let same : persisted ≡ x.persisted = ap (λ (z : ReplayFact). z.persisted) (ok-injective e5) in
      ok_or-ok (from_admitted event) _ made ∙ ap some same

  source_result-counts :
      (outcome : SourceCompletion) (events bytes : ℕ) (result : SourceResult)
      → source_result_new request outcome started_at finished_at events bytes ≡ ok result
      → (result.accepted_event_count ≡ events) × (result.accepted_event_bytes ≡ bytes)
  unfolding source_result_new
  source_result-counts outcome events bytes result h = (ground arith, ground arith)

  replay_of :
      (plan : ReplayPlan) (outcome : SourceCompletion) (events : List AdmittedEvent)
      (xs : List ReplayFact) (c : CanonicalReplay) (n : ℕ) (result : SourceResult)
      → plan.request_id ≡ request.id
      → map (replay_fact request started_at finished_at) events ≡ all_ok xs
      → canonicalize xs ≡ ok c
      → n ≡ length c.facts
      → source_result_new request outcome started_at finished_at n c.accepted_original_bytes
        ≡ ok result
      → ReplayFits plan request started_at finished_at events (replay_with plan result c)
  replay_of plan outcome events xs c n result asked all made counted valid =
      let (k, m) = canonicalize-ok xs c made in
      let (is_n, is_bytes) =
        source_result-counts outcome n c.accepted_original_bytes result valid in
      record {
        of_plan = refl;
        of_request = asked;
        result =
            source_result_new-ResultFits request outcome started_at finished_at n
              c.accepted_original_bytes result valid;
        counted = is_n ∙ counted;
        weighed = is_bytes ∙ k.bytes;
        number = k.number ∙ facts-length events xs all;
        from_events = λ f in_f. from_fact events xs all f (k.from_seen f in_f);
        covers = λ event in_events.
            let (x, in_x, is_x) = to_fact events xs all event in_events in
            let (f, in_f, same) = k.covers x in_x in
            (f, in_f, replay_fact-persisted event x is_x ∙ ap some (sym same));
        once = k.once;
        marks = record {
          cursor = m.cursor;
          cursor_from = m.cursor_from;
          first = m.first;
          first_from = m.first_from;
        };
      }

  -- With bounds that fit 64 bits, a finished replay answers the plan's request within the
  -- request's bounds; its facts stand for the given events, every event has a fact of its record,
  -- no event id and signature is kept twice, the facts and the duplicates together are as many as
  -- the events, and its counts, bytes, cursor and first observation are those of its facts.
  pub finish-ReplayFits :
      (plan : ReplayPlan) (outcome : SourceCompletion) (events : List AdmittedEvent)
      (replay : SourceReplay)
      → request.maximum_events < max_u64
      → request.maximum_bytes ≤ max_u64
      → finish plan request outcome started_at finished_at events ≡ ok replay
      → ReplayFits plan request started_at finished_at events replay
  unfolding finish
  finish-ReplayFits plan outcome events replay small fits e =
      let (_, asked, e1) =
        and_then-ok (stop (require (request.id == plan.request_id) invalid_input)) e in
      let (_, _, e2) =
        and_then-ok
          (map_err (λ _. refused invalid_input)
            (source_result_new request outcome started_at finished_at 0 0))
          e1 in
      let (xs, ingested, e3) =
        and_then-ok
          (stop (
            ingest_bounded_facts (map (replay_fact request started_at finished_at) events)
              request.maximum_events request.maximum_bytes))
          e2 in
      let (c, made, e4) = and_then-ok (canonicalize xs) e3 in
      let (n, counted, e5) =
        and_then-ok (ok_or (checked_u32 (length c.facts)) (refused resource_limit)) e4 in
      let (result, valid, e6) =
        and_then-ok
          (map_err (λ _. refused invalid_input)
            (source_result_new request outcome started_at finished_at n c.accepted_original_bytes))
          e5 in
      let (all, _, _) =
        (ingest_bounded_facts_iff (map (replay_fact request started_at finished_at) events)
            request.maximum_events request.maximum_bytes xs small fits).0
          (map_err-ok refused _ ingested) in
      subst (λ replay. ReplayFits plan request started_at finished_at events replay)
        (ok-injective e6)
        (replay_of plan outcome events xs c n result
          (sym
            ((==_iff request.id plan.request_id).0 (require-ok _ _ (map_err-ok refused _ asked))))
          all made (same_count _ _ (ok_or-ok _ _ counted)) (map_err-ok _ _ valid))
