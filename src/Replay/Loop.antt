-- ===== src/Replay/Loop.antt =====
-- The loop of `canonicalize` in src/reconciliation_replay.rs, and the same loop told without the two
-- maps of indexes: the facts kept so far are searched.
use rhi.Base.{
  [], none, some, ok, ◌∷◌, List, Option, Result, ℕ, Bool, if◌then◌else◌, length, map_err, require,
  ◌>>=◌, ◌>>◌, find, leb, ok_or, ◌==◌, checked, get_elem?, ◌&&◌, ◌+◌,
}
use rhi.Replay.Types.{
  ReplayError, resource_limit, mutation_conflict, signed_event_conflict, CanonicalReplay,
  ReplayFact,
}
use rhi.Replay.Canonical.{
  Stop, refused, out_of_bounds, Indexed, event_index, mutation_index, or_insert, same_event,
  same_mutation, sort_facts, kept,
}

abbrev pub max_u32 : ℕ
max_u32 = 4294967295

abbrev pub checked_u32 : ℕ → Option ℕ
checked_u32 n = if leb n max_u32 then some n else none

-- A candidate whose event is kept already.
abbrev pub duplicate :
    ReplayFact → ReplayFact → CanonicalReplay → Result ReplayError CanonicalReplay
duplicate found candidate canonical = do
  require (same_event found.persisted candidate.persisted) signed_event_conflict
  duplicates ← ok_or (checked_u32 (canonical.duplicate_observations + 1)) resource_limit
  ok (record canonical { duplicate_observations = duplicates })

-- A candidate whose mutation is kept already, with another event.
abbrev pub agrees : Option ReplayFact → ReplayFact → Result ReplayError (Unit {0})
agrees none candidate = ok tt
agrees (some found) candidate =
    require (same_mutation found.persisted candidate.persisted) mutation_conflict

abbrev pub accept : ReplayFact → CanonicalReplay → Result ReplayError CanonicalReplay
accept candidate canonical = do
  bytes ←
      ok_or (checked (canonical.accepted_original_bytes + candidate.original_bytes)) resource_limit
  ok (kept candidate bytes canonical)

abbrev pub stop {ℓ} : {A : Type ℓ} → Result ReplayError A → Result Stop A
stop r = map_err refused r

abbrev pub fact_under : Option ℕ → List ReplayFact → Result Stop (Option ReplayFact)
fact_under none facts = ok none
fact_under (some index) facts = do
  found ← ok_or (get_elem? facts index) out_of_bounds
  ok (some found)

abbrev pub with_canonical : Indexed → CanonicalReplay → Indexed
with_canonical s canonical = record {
  event_indexes = s.event_indexes;
  mutation_indexes = s.mutation_indexes;
  canonical = canonical;
}

abbrev pub pushed : ReplayFact → Indexed → CanonicalReplay → Indexed
pushed candidate s canonical =
    let index = length s.canonical.facts in
    record {
      event_indexes =
          (candidate.persisted.event_id, candidate.persisted.event_signature, index)
          ∷ s.event_indexes;
      mutation_indexes = or_insert candidate.persisted.mutation_id index s.mutation_indexes;
      canonical = canonical;
    }

-- What the loop does with a candidate, after it has looked for the candidate's event.
abbrev pub observe : Option ReplayFact → ReplayFact → Indexed → Result Stop Indexed
observe (some found) candidate s = do
  canonical ← stop (duplicate found candidate s.canonical)
  ok (with_canonical s canonical)
observe none candidate s = do
  same ←
      fact_under (mutation_index candidate.persisted.mutation_id s.mutation_indexes)
        s.canonical.facts
  stop (agrees same candidate)
  canonical ← stop (accept candidate s.canonical)
  ok (pushed candidate s canonical)

abbrev pub canonical_loop : List ReplayFact → Indexed → Result Stop Indexed
canonical_loop [] s = ok s
canonical_loop (candidate ∷ candidates) s = do
  found ←
      fact_under
        (event_index candidate.persisted.event_id candidate.persisted.event_signature
          s.event_indexes)
        s.canonical.facts
  s' ← observe found candidate s
  canonical_loop candidates s'

abbrev pub no_facts : CanonicalReplay
no_facts = record {
  facts = [];
  duplicate_observations = 0;
  accepted_original_bytes = 0;
  cursor_candidate = none;
  first_observed_at = none;
}

abbrev pub map_canonical : Result Stop Indexed → Result Stop CanonicalReplay
map_canonical r = do s ← r; ok s.canonical

unfoldable pub canonicalize : List ReplayFact → Result Stop CanonicalReplay
canonicalize candidates = map_canonical (
    canonical_loop (sort_facts candidates)
      (record { event_indexes = []; mutation_indexes = []; canonical = no_facts }))

-- The same without indexes.
abbrev pub has_event : ℕ → ℕ → ReplayFact → Bool
has_event id signature fact =
    fact.persisted.event_id == id && fact.persisted.event_signature == signature

abbrev pub has_mutation : ℕ → ReplayFact → Bool
has_mutation id fact = fact.persisted.mutation_id == id

abbrev pub event_of : ReplayFact → ReplayFact → Bool
event_of fact = has_event fact.persisted.event_id fact.persisted.event_signature

abbrev pub observe_fact :
    Option ReplayFact → ReplayFact → CanonicalReplay → Result ReplayError CanonicalReplay
observe_fact (some found) candidate canonical = duplicate found candidate canonical
observe_fact none candidate canonical = do
  agrees (find (has_mutation candidate.persisted.mutation_id) canonical.facts) candidate
  accept candidate canonical

abbrev pub observe_all : List ReplayFact → CanonicalReplay → Result ReplayError CanonicalReplay
observe_all [] canonical = ok canonical
observe_all (candidate ∷ candidates) canonical = do
  next ← observe_fact (find (event_of candidate) canonical.facts) candidate canonical
  observe_all candidates next
