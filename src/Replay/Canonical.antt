-- ===== src/Replay/Canonical.antt =====
-- `canonicalize` of src/reconciliation_replay.rs with its comparisons. `sort_by` is a stable sort; the
-- two maps are association lists of indexes into the facts kept so far.
use rhi.Base.{
  Ordering, compare, [], none, some, true, false, ◌∷◌, Bool, List, Option, ℕ, if◌then◌else◌, ◌&&◌,
  ◌==◌, is_some, ltb, same_bytes, ◌++◌,
}
use rhi.Replay.Types.{ReplayError, Cursor, PersistenceRecord, ReplayFact, CanonicalReplay}

abbrev pub then_with : Ordering → Ordering → Ordering
then_with Ordering.eq next = next
then_with Ordering.lt next = Ordering.lt
then_with Ordering.gt next = Ordering.gt

abbrev pub is_lt : Ordering → Bool
is_lt Ordering.lt = true
is_lt Ordering.eq = false
is_lt Ordering.gt = false

unfoldable pub compare_fact : ReplayFact → ReplayFact → Ordering
compare_fact left right =
    then_with (compare left.persisted.authored_at_unix_s right.persisted.authored_at_unix_s) (
      then_with (compare left.persisted.event_id right.persisted.event_id) (
        then_with (compare left.persisted.event_signature right.persisted.event_signature) (
          then_with (compare left.observed_at right.observed_at)
            (compare left.original_bytes right.original_bytes))))

unfoldable pub same_mutation : PersistenceRecord → PersistenceRecord → Bool
same_mutation left right =
    left.mutation_id == right.mutation_id
    && left.trade_id == right.trade_id
    && same_bytes left.contract_id right.contract_id
    && left.schema_version == right.schema_version
    && left.event_kind == right.event_kind
    && left.author_pubkey == right.author_pubkey
    && same_bytes left.canonical_content right.canonical_content

unfoldable pub same_event : PersistenceRecord → PersistenceRecord → Bool
same_event left right =
    same_mutation left right
    && left.event_id == right.event_id
    && left.event_signature == right.event_signature
    && left.event_kind == right.event_kind
    && left.authored_at_unix_s == right.authored_at_unix_s
    && same_bytes left.canonical_event_json right.canonical_event_json

unfoldable pub compare_cursor : Cursor → Cursor → Ordering
compare_cursor left right =
    then_with (compare left.created_at_unix_seconds right.created_at_unix_seconds)
      (compare left.event_id right.event_id)

-- `sort_by(compare_fact)`: a fact goes before the first that is not less than it.
abbrev pub insert_fact : ReplayFact → List ReplayFact → List ReplayFact
insert_fact fact [] = fact ∷ []
insert_fact fact (next ∷ rest) =
    let behind = insert_fact fact rest in
    if is_lt (compare_fact next fact) then next ∷ behind else fact ∷ next ∷ rest

abbrev pub sort_facts : List ReplayFact → List ReplayFact
sort_facts [] = []
sort_facts (fact ∷ facts) = insert_fact fact (sort_facts facts)

-- What ends `canonicalize` early: an error, or an index outside the facts.
pub data Stop : Type 0 where
  refused : ReplayError → Stop
  out_of_bounds : Stop

abbrev pub event_index : ℕ → ℕ → List (ℕ × ℕ × ℕ) → Option ℕ
event_index id signature [] = none
event_index id signature ((i, s, index) ∷ rest) =
    let later = event_index id signature rest in
    if i == id && s == signature then some index else later

abbrev pub mutation_index : ℕ → List (ℕ × ℕ) → Option ℕ
mutation_index id [] = none
mutation_index id ((i, index) ∷ rest) =
    let later = mutation_index id rest in if i == id then some index else later

-- `entry(id).or_insert(index)`.
abbrev pub or_insert : ℕ → ℕ → List (ℕ × ℕ) → List (ℕ × ℕ)
or_insert id index indexes =
    if is_some (mutation_index id indexes) then indexes else (id, index) ∷ indexes

pub record Indexed : Type 0 where
  pub event_indexes : List (ℕ × ℕ × ℕ)
  pub mutation_indexes : List (ℕ × ℕ)
  pub canonical : CanonicalReplay

abbrev pub later_cursor : Option Cursor → Cursor → Cursor
later_cursor none cursor = cursor
later_cursor (some current) cursor =
    if is_lt (compare_cursor current cursor) then cursor else current

abbrev pub earlier_observation : Option ℕ → ℕ → ℕ
earlier_observation none observed = observed
earlier_observation (some current) observed = if ltb observed current then observed else current

abbrev pub cursor_of : ReplayFact → Cursor
cursor_of fact = record {
  created_at_unix_seconds = fact.persisted.authored_at_unix_s;
  event_id = fact.persisted.event_id;
}

abbrev pub kept : ReplayFact → ℕ → CanonicalReplay → CanonicalReplay
kept candidate bytes canonical = record {
  facts = canonical.facts ++ (candidate ∷ []);
  duplicate_observations = canonical.duplicate_observations;
  accepted_original_bytes = bytes;
  cursor_candidate = some (later_cursor canonical.cursor_candidate (cursor_of candidate));
  first_observed_at = some (earlier_observation canonical.first_observed_at candidate.observed_at);
}
