-- ===== src/Jobs/Decode.antt =====
-- `job_id`, `decode_job` and the readers of src/reconciliation_job.rs.
use rhi.Base.{
  ℕ, Bool, ◌&&◌, ◌||◌, not, Option, none, some, List, ◌++◌, ok, err, ◌>>=◌, ◌>>◌, refuse, ok_or,
  map_err, ltb, leb, ◌==◌, between, is_none, is_some, max_i64, find, filter, if◌then◌else◌, domain,
  be_bytes, [], ◌∷◌,
}
use rhi.Jobs.Types.{
  JobState, ready, leased, invalid_input, dirty_generation_conflict, storage, Job, policy_new,
  lease_owner_from_bytes, max_active, max_attempts_limit, max_lease_ms, max_renewal_ms,
  max_initial_backoff_ms, max_backoff_ms,
}
use rhi.Jobs.Schema.{Row, is_active}
use rhi.Jobs.Store.{Db, DirtyRow, OpResult}

-- `bounded_u64` and `bounded_u16` on a column that holds a number.
abbrev pub bounded : ℕ → ℕ → ℕ → OpResult ℕ
bounded lo hi value = if between lo hi value then ok value else err storage

abbrev pub i64_value : ℕ → OpResult ℕ
i64_value value = if leb value max_i64 then ok value else err invalid_input

abbrev pub optional_owner : Option ℕ → OpResult (Option ℕ)
optional_owner none = ok none
optional_owner (some bytes) =
    map_err (λ _. storage) (lease_owner_from_bytes bytes) >>= λ o. ok (some o)

unfoldable pub valid_state_fields : JobState → ℕ → ℕ → Option ℕ → Option ℕ → Option ℕ → Bool
valid_state_fields ready attempts maximum next owner expires =
    ltb attempts maximum && is_some next && is_none owner && is_none expires
valid_state_fields leased attempts maximum next owner expires =
    ltb 0 attempts && leb attempts maximum && is_none next && is_some owner && is_some expires
valid_state_fields _ attempts maximum next owner expires =
    is_none next && is_none owner && is_none expires

-- The hash is `sha2`'s, and its digest is the number of its 32 bytes.
module _ (sha256 : List ℕ → ℕ) where
  unfoldable pub job_id : ℕ → ℕ → ℕ → ℕ
  job_id trade_id generation policy = sha256 (
      domain "radroots.rhi.reconciliation_job.v1"
      ++ (be_bytes 16 trade_id ++ (be_bytes 8 generation ++ be_bytes 32 policy)))

  unfoldable pub decode_job : Row → OpResult Job
  unfolding valid_state_fields policy_new lease_owner_from_bytes
  decode_job r = do
    generation ← bounded 1 max_i64 r.input_generation
    revision ← bounded 1 max_i64 r.revision
    attempts ← bounded 0 max_attempts_limit r.attempt_count
    failures ← bounded 0 attempts r.failure_count
    maximum ← bounded 1 max_attempts_limit r.max_attempts
    duration ← bounded 1000 max_lease_ms r.lease_duration_ms
    renewal ← bounded 100 max_renewal_ms r.lease_renewal_ms
    initial ← bounded 1 max_initial_backoff_ms r.initial_backoff_ms
    backoff ← bounded 1 max_backoff_ms r.maximum_backoff_ms
    policy ← map_err (λ _. storage) (policy_new max_active duration renewal maximum initial backoff)
    owner ← optional_owner r.lease_owner
    created ← bounded 0 max_i64 r.created_at_unix_ms
    updated ← bounded 0 max_i64 r.updated_at_unix_ms
    refuse
        (ltb updated created
          || ltb attempts failures
          || not (job_id r.trade_id generation r.evidence_policy_sha256 == r.job_id)
          || not (
              valid_state_fields r.state attempts maximum r.next_attempt_unix_ms owner
                r.lease_expires_unix_ms))
        storage
    ok (record {
      id = r.job_id;
      trade_id = r.trade_id;
      input_generation = generation;
      policy_digest = r.evidence_policy_sha256;
      state = r.state;
      revision = revision;
      attempt_count = attempts;
      failure_count = failures;
      policy = policy;
      next_attempt = r.next_attempt_unix_ms;
      lease_owner = owner;
      lease_expires = r.lease_expires_unix_ms;
      created_at = created;
      updated_at = updated;
    })

  abbrev pub decode_optional : Option Row → OpResult (Option Job)
  decode_optional none = ok none
  decode_optional (some r) = decode_job r >>= λ job. ok (some job)

  -- `WHERE job_id = ? LIMIT 1`.
  unfoldable pub read_job : ℕ → Db → OpResult (Option Job)
  read_job id db = decode_optional (find (λ r. r.job_id == id) db.jobs)

  -- One row of the trade in an active state; two are an error.
  abbrev pub decode_single : List Row → OpResult (Option Job)
  decode_single [] = ok none
  decode_single (r ∷ []) = decode_job r >>= λ job. ok (some job)
  decode_single (r ∷ s ∷ rest) = err storage

  unfoldable pub read_active_job : ℕ → Db → OpResult (Option Job)
  read_active_job trade_id db =
      decode_single (filter (λ r. r.trade_id == trade_id && is_active r.state) db.jobs)

unfoldable pub read_dirty : ℕ → Db → OpResult DirtyRow
read_dirty trade_id db = do
  row ← ok_or (find (λ d. d.trade_id == trade_id) db.dirty) dirty_generation_conflict
  generation ← bounded 1 max_i64 row.generation
  ok (record row { generation = generation })
