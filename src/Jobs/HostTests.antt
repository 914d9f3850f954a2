-- ===== src/Jobs/HostTests.antt =====
-- A host that runs each transaction of src/reconciliation_job.rs at once, as an instance of `Host`.
use rhi.Jobs.Atomic.{MethodCases, methods-cases}
use rhi.Jobs.Samples.{hash, lease_on, leased_row, tables, usual_policy}
use rhi.Jobs.Types.{OperationError}
use rhi.Jobs.Repository.{Host, TransactionError, operation, outcome_unknown, engine}
use rhi.Jobs.Store.{Db, OpResult}
use rhi.Base.{refl, true, inl, inr, ok, err, Result, ◌≡◌, ok-injective, ◌⊎◌}

abbrev settle : {A : Type 0} → OpResult (A × Db) → Db → Result TransactionError A × Db
settle (ok (a, db')) db = (ok a, db')
settle (err e) db = (err (operation e), db)

settle-committed :
    {A : Type 0} (r : OpResult (A × Db)) (db : Db) (a : A)
    → (settle r db).0 ≡ ok a
    → r ≡ ok (a, (settle r db).1)
settle-committed (ok (b, db')) db a h = rw (ok-injective h)
settle-committed (err e) db a h = cc

settle-reported :
    {A : Type 0} (r : OpResult (A × Db)) (db : Db) (e : OperationError)
    → (settle r db).0 ≡ err (operation e)
    → r ≡ err e
settle-reported (ok (b, db')) db e h = cc
settle-reported (err k) db e h = cc

settle-rolled_back :
    {A : Type 0} (r : OpResult (A × Db)) (db : Db) (e : OperationError)
    → ((settle r db).0 ≡ err (operation e)) ⊎ ((settle r db).0 ≡ err engine)
    → (settle r db).1 ≡ db
settle-rolled_back (ok (b, db')) db e (inl h) = cc
settle-rolled_back (ok (b, db')) db e (inr h) = cc
settle-rolled_back (err k) db e h = refl

settle-either :
    {A : Type 0} (r : OpResult (A × Db)) (db : Db)
    → (settle r db).0 ≡ err outcome_unknown
    → ((settle r db).1 ≡ db) ⊎ ((a : A) × (r ≡ ok (a, (settle r db).1)))
settle-either (ok (b, db')) db h = cc
settle-either (err k) db h = inl refl

abbrev prompt : Host
prompt = record {
  writable = true;
  transaction = λ op db. settle (op db) db;
  committed = λ op db. settle-committed (op db) db;
  reported = λ op db. settle-reported (op db) db;
  rolled_back = λ op db. settle-rolled_back (op db) db;
  either = λ op db. settle-either (op db) db;
}

methods-cases_example :
    MethodCases hash prompt 3 77 25000 250 usual_policy (lease_on leased_row) (tables leased_row)
methods-cases_example =
    methods-cases hash prompt 3 77 25000 250 usual_policy (lease_on leased_row) (tables leased_row)
