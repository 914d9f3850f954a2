-- ===== src/Trade/Samples.antt =====
-- Concrete evidence for src/state_trade.rs and src/source_ingest.rs: one event, and the tables that have it.
use rhi.Trade.Generations.{no_generations}
use rhi.Trade.Settled.{TradeValid}
use rhi.Trade.Persist.{
  mutation_row, persist, event_row, insert_mutation, insert_event, observation_row,
  insert_observation, insert_mutation_row, insert_event_row, insert_observation_row,
}
use rhi.Trade.Ingest.{observation_of}
use rhi.Replay.Types.{PersistenceRecord}
use rhi.Replay.Finish.{AdmittedEvent}
use rhi.Trade.Types.{
  TradeTables, Observation, PersistenceOutcome, mutation_checks, event_checks, observation_checks,
}
use rhi.Base.{some, [], ◌∷◌, true, ok, refl, List, codes, ℕ, ◌≡◌}

abbrev pub relay : List ℕ
relay = codes "relay_a"

abbrev pub sample_event : AdmittedEvent
sample_event = record {
  original_bytes = 123 ∷ 125 ∷ [];
  observed_at = 50;
  wire_json = some (123 ∷ 125 ∷ []);
  content = 91 ∷ 93 ∷ [];
  mutation_id = 20;
  trade_id = 3;
  contract_id = codes "radroots.trade.proposal.v1";
  schema_version = 1;
  event_id = 30;
  event_signature = 31;
  author = 9;
  kind = 3470;
  created_at = 40;
}

abbrev pub sample_record : PersistenceRecord
sample_record = record {
  mutation_id = 20;
  trade_id = 3;
  contract_id = codes "radroots.trade.proposal.v1";
  schema_version = 1;
  event_id = 30;
  event_signature = 31;
  author_pubkey = 9;
  event_kind = 3470;
  authored_at_unix_s = 40;
  canonical_content = 91 ∷ 93 ∷ [];
  canonical_event_json = 123 ∷ 125 ∷ [];
}

abbrev pub sample_observation : Observation
sample_observation = observation_of relay 8 sample_event

abbrev pub no_evidence : TradeTables
no_evidence = record {
  mutations = [];
  events = [];
  observations = [];
  checkpoints = [];
  generations = [];
}

abbrev pub with_sample : TradeTables → TradeTables
with_sample db = record db {
  mutations = mutation_row sample_record ∷ db.mutations;
  events = event_row sample_record ∷ db.events;
  observations = observation_row sample_observation ∷ db.observations;
}

abbrev pub all_new : PersistenceOutcome
all_new = record {
  mutation_inserted = true;
  signed_event_inserted = true;
  observation_inserted = true;
}

pub persists_sample :
    persist sample_record sample_observation no_evidence ≡ ok (all_new, with_sample no_evidence)
unfolding persist insert_mutation insert_event insert_observation insert_mutation_row
    insert_event_row insert_observation_row mutation_checks event_checks observation_checks
persists_sample = refl

pub no_evidence-TradeValid : TradeValid no_evidence
no_evidence-TradeValid = record {
  scopes = record { once = λ row here. absurd here; fits = λ row here. absurd here };
  trades = no_generations no_evidence refl;
}
