-- ===== src/Replay/Same.antt =====
-- `same_mutation` and `same_event` of src/reconciliation_replay.rs compare parts of a record.
use rhi.Replay.Loop.{event_of}
use rhi.Replay.Canonical.{same_event, same_mutation}
use rhi.Replay.Types.{PersistenceRecord, ReplayFact}
use rhi.Base.{true, refl, List, ℕ, ◌≡◌, ◌↔◌, ==_self, arith, ap, same_bytes_eq, same_bytes_self}

-- What `same_mutation` compares.
abbrev pub mutation_part : PersistenceRecord → ℕ × ℕ × List ℕ × ℕ × ℕ × ℕ × List ℕ
mutation_part r = (
  r.mutation_id, r.trade_id, r.contract_id, r.schema_version, r.event_kind, r.author_pubkey,
  r.canonical_content,
)

pub same_mutation_iff :
    (a b : PersistenceRecord) → (same_mutation a b ≡ true) ↔ (mutation_part a ≡ mutation_part b)
unfolding same_mutation
same_mutation_iff a b = (
  λ h.
      let ids : a.mutation_id ≡ b.mutation_id = ground arith in
      let trades : a.trade_id ≡ b.trade_id = ground arith in
      let contracts = same_bytes_eq a.contract_id b.contract_id (ground arith) in
      let versions : a.schema_version ≡ b.schema_version = ground arith in
      let kinds : a.event_kind ≡ b.event_kind = ground arith in
      let authors : a.author_pubkey ≡ b.author_pubkey = ground arith in
      let contents = same_bytes_eq a.canonical_content b.canonical_content (ground arith) in
      rw (ids, trades, contracts, versions, kinds, authors, contents) refl,
  λ e.
      let ids : a.mutation_id ≡ b.mutation_id = cc in
      let trades : a.trade_id ≡ b.trade_id = cc in
      let contracts : a.contract_id ≡ b.contract_id = cc in
      let versions : a.schema_version ≡ b.schema_version = cc in
      let kinds : a.event_kind ≡ b.event_kind = cc in
      let authors : a.author_pubkey ≡ b.author_pubkey = cc in
      let contents : a.canonical_content ≡ b.canonical_content = cc in
      rw
        (
          ids,
          trades,
          contracts,
          versions,
          kinds,
          authors,
          contents,
          ==_self b.mutation_id,
          ==_self b.trade_id,
          same_bytes_self b.contract_id,
          ==_self b.schema_version,
          ==_self b.event_kind,
          ==_self b.author_pubkey,
          same_bytes_self b.canonical_content,
        )
        refl,
)

-- What `same_event` compares beyond that.
abbrev pub event_part : PersistenceRecord → ℕ × ℕ × ℕ × List ℕ
event_part r = (r.event_id, r.event_signature, r.authored_at_unix_s, r.canonical_event_json)

pub same_event_iff :
    (a b : PersistenceRecord)
    → (same_event a b ≡ true)
      ↔ ((mutation_part a ≡ mutation_part b) × (event_part a ≡ event_part b))
unfolding same_event
same_event_iff a b = (
  λ h.
      let ids : a.event_id ≡ b.event_id = ground arith in
      let signatures : a.event_signature ≡ b.event_signature = ground arith in
      let authored : a.authored_at_unix_s ≡ b.authored_at_unix_s = ground arith in
      let texts = same_bytes_eq a.canonical_event_json b.canonical_event_json (ground arith) in
      ((same_mutation_iff a b).0 (ground arith), rw (ids, signatures, authored, texts) refl),
  λ e.
      let kinds : a.event_kind ≡ b.event_kind = cc in
      let ids : a.event_id ≡ b.event_id = cc in
      let signatures : a.event_signature ≡ b.event_signature = cc in
      let authored : a.authored_at_unix_s ≡ b.authored_at_unix_s = cc in
      let texts : a.canonical_event_json ≡ b.canonical_event_json = cc in
      rw
        (
          (same_mutation_iff a b).1 e.0,
          kinds,
          ids,
          signatures,
          authored,
          texts,
          ==_self b.event_id,
          ==_self b.event_signature,
          ==_self b.event_kind,
          ==_self b.authored_at_unix_s,
          same_bytes_self b.canonical_event_json,
        )
        refl,
)

-- `same_event` compares the whole record.
pub same_event_equal : (a b : PersistenceRecord) → (same_event a b ≡ true) ↔ (a ≡ b)
same_event_equal a b = (
  λ h.
      let (m, e) = (same_event_iff a b).0 h in
      let mutation_ids : a.mutation_id ≡ b.mutation_id = cc in
      let trades : a.trade_id ≡ b.trade_id = cc in
      let contracts : a.contract_id ≡ b.contract_id = cc in
      let versions : a.schema_version ≡ b.schema_version = cc in
      let kinds : a.event_kind ≡ b.event_kind = cc in
      let authors : a.author_pubkey ≡ b.author_pubkey = cc in
      let contents : a.canonical_content ≡ b.canonical_content = cc in
      let ids : a.event_id ≡ b.event_id = cc in
      let signatures : a.event_signature ≡ b.event_signature = cc in
      let authored : a.authored_at_unix_s ≡ b.authored_at_unix_s = cc in
      let texts : a.canonical_event_json ≡ b.canonical_event_json = cc in
      λ i. record {
        mutation_id = mutation_ids i;
        trade_id = trades i;
        contract_id = contracts i;
        schema_version = versions i;
        event_id = ids i;
        event_signature = signatures i;
        author_pubkey = authors i;
        event_kind = kinds i;
        authored_at_unix_s = authored i;
        canonical_content = contents i;
        canonical_event_json = texts i;
      },
  λ e. (same_event_iff a b).1 (ap mutation_part e, ap event_part e),
)

abbrev pub event_key : ReplayFact → ℕ × ℕ
event_key fact = (fact.persisted.event_id, fact.persisted.event_signature)

pub event_of_iff : (c f : ReplayFact) → (event_of c f ≡ true) ↔ (event_key f ≡ event_key c)
event_of_iff c f = (
  λ h.
      let ids : f.persisted.event_id ≡ c.persisted.event_id = ground arith in
      let signatures : f.persisted.event_signature ≡ c.persisted.event_signature = ground arith in
      rw (ids, signatures) refl,
  λ e.
      let ids : f.persisted.event_id ≡ c.persisted.event_id = cc in
      let signatures : f.persisted.event_signature ≡ c.persisted.event_signature = cc in
      rw (ids, signatures, ==_self c.persisted.event_id, ==_self c.persisted.event_signature) refl,
)
