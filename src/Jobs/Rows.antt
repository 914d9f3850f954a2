-- ===== src/Jobs/Rows.antt =====
-- Each statement of src/reconciliation_job.rs writes rows that the schema of src/state_catalog.rs
-- accepts.
use rhi.Jobs.Tables.{StatementFits}
use rhi.Jobs.Statements.{
  claimable, exhausts, renews, retries, spent, claim, exhaust_expired, exhausted_by_failure,
  renewed, retried, supersede,
}
use rhi.Jobs.Types.{Lease}
use rhi.Jobs.Valid.{RowValid}
use rhi.Jobs.Schema.{Row, column_checks, shape_checks, guard_update, is_active}
use rhi.Base.{ℕ, refl, List, Bool, suc, ◌≡◌, true, ◌≢◌, ◌≤◌, max_i64, arith}

module _ (sha256 : List ℕ → ℕ) (room : ℕ) (p : Row → Bool) where
  pub supersede-fits :
      (now : ℕ) (r : Row)
      → RowValid sha256 (suc room) r
      → is_active r.state ≡ true
      → r.updated_at_unix_ms ≤ now
      → now ≤ max_i64
      → StatementFits sha256 room p (supersede now) r
  unfolding column_checks shape_checks guard_update
  supersede-fits now r v active later small = record {
    guarded = ground (arith, v.columns);
    valid = record {
      columns = ground (arith, v.columns);
      shape = refl;
      identity = v.identity;
      roomy = omega (arith, v.roomy);
      owned = refl;
      unfailed = λ h. cc;
      within = v.within;
    };
    succeeds = record {
      same_id = refl;
      same_trade = refl;
      no_new_activity = λ h. cc;
      advances = omega arith;
      attempts = omega arith;
      same_limit = refl;
    };
  }

  pub exhaust_expired-fits :
      (now : ℕ) (r : Row)
      → RowValid sha256 (suc room) r
      → spent now r ≡ true
      → now ≤ max_i64
      → StatementFits sha256 room p (exhaust_expired now) r
  unfolding column_checks shape_checks guard_update
  exhaust_expired-fits now r v h small = record {
    guarded = ground (arith, v.columns);
    valid = record {
      columns = ground (arith, v.columns);
      shape = ground (arith, v.shape);
      identity = v.identity;
      roomy = omega (arith, v.roomy);
      owned = refl;
      unfailed = λ h. cc;
      within = v.within;
    };
    succeeds = record {
      same_id = refl;
      same_trade = refl;
      no_new_activity = λ h. cc;
      advances = omega arith;
      attempts = omega arith;
      same_limit = refl;
    };
  }

  pub claim-fits :
      (owner expires now : ℕ) (r : Row)
      → RowValid sha256 (suc room) r
      → claimable now r ≡ true
      → owner ≢ 0
      → 1 ≤ expires
      → expires ≤ max_i64
      → now ≤ max_i64
      → StatementFits sha256 room p (claim owner expires now) r
  unfolding column_checks shape_checks guard_update
  claim-fits owner expires now r v h owned late early small = record {
    guarded = ground (arith, v.columns);
    valid = record {
      columns = ground (arith, v.columns);
      shape = ground (arith, v.shape);
      identity = v.identity;
      roomy = omega (arith, v.roomy);
      owned = ground arith;
      unfailed = λ _. ground (arith, v.columns);
      within = ground arith;
    };
    succeeds = record {
      same_id = refl;
      same_trade = refl;
      no_new_activity = λ _. ground arith;
      advances = omega arith;
      attempts = omega arith;
      same_limit = refl;
    };
  }

  pub renewed-fits :
      (lease : Lease) (expires now : ℕ) (r : Row)
      → RowValid sha256 (suc room) r
      → renews lease now r ≡ true
      → 1 ≤ expires
      → expires ≤ max_i64
      → now ≤ max_i64
      → StatementFits sha256 room p (renewed expires now) r
  unfolding column_checks shape_checks guard_update
  renewed-fits lease expires now r v h late early small = record {
    guarded = ground (arith, v.columns);
    valid = record {
      columns = ground (arith, v.columns);
      shape = ground (arith, v.shape);
      identity = v.identity;
      roomy = omega (arith, v.roomy);
      owned = v.owned;
      unfailed = v.unfailed;
      within = v.within;
    };
    succeeds = record {
      same_id = refl;
      same_trade = refl;
      no_new_activity = λ _. ground arith;
      advances = omega arith;
      attempts = omega arith;
      same_limit = refl;
    };
  }

  pub retried-fits :
      (lease : Lease) (next now : ℕ) (r : Row)
      → RowValid sha256 (suc room) r
      → retries lease now r ≡ true
      → r.updated_at_unix_ms ≤ now
      → next ≤ max_i64
      → now ≤ max_i64
      → StatementFits sha256 room p (retried next now) r
  unfolding column_checks shape_checks guard_update
  retried-fits lease next now r v h later early small = record {
    guarded = ground (arith, v.columns);
    valid = record {
      columns = ground (arith, v.columns, v.unfailed);
      shape = ground (arith, v.shape);
      identity = v.identity;
      roomy = omega (arith, v.roomy);
      owned = refl;
      unfailed = λ h. cc;
      within = v.within;
    };
    succeeds = record {
      same_id = refl;
      same_trade = refl;
      no_new_activity = λ _. ground arith;
      advances = omega arith;
      attempts = omega arith;
      same_limit = refl;
    };
  }

  pub exhausted_by_failure-fits :
      (lease : Lease) (now : ℕ) (r : Row)
      → RowValid sha256 (suc room) r
      → exhausts lease now r ≡ true
      → r.updated_at_unix_ms ≤ now
      → now ≤ max_i64
      → StatementFits sha256 room p (exhausted_by_failure now) r
  unfolding column_checks shape_checks guard_update
  exhausted_by_failure-fits lease now r v h later small = record {
    guarded = ground (arith, v.columns);
    valid = record {
      columns = ground (arith, v.columns, v.unfailed);
      shape = refl;
      identity = v.identity;
      roomy = omega (arith, v.roomy);
      owned = refl;
      unfailed = λ h. cc;
      within = v.within;
    };
    succeeds = record {
      same_id = refl;
      same_trade = refl;
      no_new_activity = λ h. cc;
      advances = omega arith;
      attempts = omega arith;
      same_limit = refl;
    };
  }
