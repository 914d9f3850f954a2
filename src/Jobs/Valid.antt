-- ===== src/Jobs/Valid.antt =====
-- When a row and the tables of src/reconciliation_job.rs are well formed, and what is then read.
use rhi.Base.{
  ℕ, ◌+◌, ◌≤◌, ◌<◌, ◌≡◌, true, false, List, [], ◌∷◌, ok, arith, ◌==◌, any, All, is_some_and,
  max_i64, ==_self,
}
use rhi.Jobs.Types.{Job, max_active}
use rhi.Jobs.Schema.{Row, column_checks, shape_checks, one_active_per_trade}
use rhi.Jobs.Store.{Db}
use rhi.Jobs.Decode.{job_id, decode_job}
use rhi.Jobs.Statements.{is_leased}

abbrev pub job_of : Row → Job
job_of r = record {
  id = r.job_id;
  trade_id = r.trade_id;
  input_generation = r.input_generation;
  policy_digest = r.evidence_policy_sha256;
  state = r.state;
  revision = r.revision;
  attempt_count = r.attempt_count;
  failure_count = r.failure_count;
  policy = record {
    queue_capacity = max_active;
    lease_duration_ms = r.lease_duration_ms;
    lease_renewal_ms = r.lease_renewal_ms;
    max_attempts = r.max_attempts;
    initial_backoff_ms = r.initial_backoff_ms;
    maximum_backoff_ms = r.maximum_backoff_ms;
  };
  next_attempt = r.next_attempt_unix_ms;
  lease_owner = r.lease_owner;
  lease_expires = r.lease_expires_unix_ms;
  created_at = r.created_at_unix_ms;
  updated_at = r.updated_at_unix_ms;
}

abbrev pub DistinctIds : List Row → Type 0
DistinctIds [] = Unit {0}
DistinctIds (r ∷ rows) = (any (λ s. s.job_id == r.job_id) rows ≡ false) × DistinctIds rows

module _ (sha256 : List ℕ → ℕ) where
  -- `room` says how many more revisions the row can take.
  pub record RowValid (room : ℕ) (r : Row) : Type 0 where
    pub columns : column_checks r ≡ true
    pub shape : shape_checks r.state r ≡ true
    pub identity : job_id sha256 r.trade_id r.input_generation r.evidence_policy_sha256 ≡ r.job_id
    pub roomy : r.revision + room ≤ max_i64
    pub owned : is_some_and (λ bytes. bytes == 0) r.lease_owner ≡ false
    pub unfailed : is_leased r.state ≡ true → r.failure_count < r.attempt_count
    pub within : r.attempt_count ≤ r.max_attempts

  pub record DbValid (room : ℕ) (db : Db) : Type 0 where
    pub rows : All (RowValid room) db.jobs
    pub distinct : DistinctIds db.jobs
    pub single : one_active_per_trade db.jobs ≡ true

  decode_columns :
      (r : Row)
      → column_checks r ≡ true
      → shape_checks r.state r ≡ true
      → job_id sha256 r.trade_id r.input_generation r.evidence_policy_sha256 ≡ r.job_id
      → is_some_and (λ bytes. bytes == 0) r.lease_owner ≡ false
      → decode_job sha256 r ≡ ok (job_of r)
  unfolding decode_job column_checks shape_checks
  decode_columns r columns shape identity owned = ground (arith, ==_self r.job_id)

  -- A well-formed row decodes, to its own columns.
  pub decode-RowValid : {room : ℕ} (r : Row) → RowValid room r → decode_job sha256 r ≡ ok (job_of r)
  decode-RowValid r v = decode_columns r v.columns v.shape v.identity v.owned
