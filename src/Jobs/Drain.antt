-- ===== src/Jobs/Drain.antt =====
-- `claim_next` of src/reconciliation_job.rs called again and again: every claimable job gets its lease.
use rhi.Jobs.Target.{count-row_of}
use rhi.Jobs.Order.{next_claimable-first}
use rhi.Jobs.Valid.{DbValid}
use rhi.Jobs.Choice.{least-none, Among, Among-RowValid, Among-row_of}
use rhi.Jobs.Statements.{claims, claimable, spent, claim, claim_key, expiry, exhaust_expired}
use rhi.Jobs.Operations.{next_claimable, claim_next}
use rhi.Jobs.Claim.{swept, claimed_db, claim_next-cases, exhaust_all-DbValid, lease_for}
use rhi.Jobs.Types.{Lease, max_lease_ms}
use rhi.Jobs.Store.{Db, among_first, before_by}
use rhi.Jobs.Schema.{Row, column_checks}
use rhi.Base.{
  ℕ, zero, suc, none, some, ok, [], ◌∷◌, true, false, inl, inr, refl, Bool, List, count, ◌≤◌,
  filter, ◌≡◌, Bool-cases, arith, subst, update_where, ◌≢◌, cons_ne_nil, sym, ◌+◌, max_i64, ==_self,
  ◌∙◌, ap,
}

-- An update of rows that stay as claimable as they were.
count-unmoved :
    (p q : Row → Bool) (f : Row → Row) (rows : List Row)
    → ((x : Row) → q x ≡ true → p (f x) ≡ p x)
    → count p (update_where q f rows) ≡ count p rows
count-unmoved p q f [] same = refl
count-unmoved p q f (x ∷ rows) same = elim (Bool-cases (q x)) [
  | inl hit ↦ rw (hit, same x hit, count-unmoved p q f rows same) refl
  | inr miss ↦ rw (miss, count-unmoved p q f rows same) refl
]

-- An update of rows that were claimable and are not any more.
count-taken :
    (p q : Row → Bool) (f : Row → Row) (rows : List Row)
    → ((x : Row) → q x ≡ true → p x ≡ true)
    → ((x : Row) → q x ≡ true → p (f x) ≡ false)
    → count p (update_where q f rows) + count q rows ≡ count p rows
count-taken p q f [] was gone = omega arith
count-taken p q f (x ∷ rows) was gone =
    let rest = count-taken p q f rows was gone in
    elim (Bool-cases (q x)) [
      | inl hit ↦ rw (hit, was x hit, gone x hit) (omega arith)
      | inr miss ↦ elim (Bool-cases (p x)) [
        | inl still ↦ rw (miss, still) (omega arith)
        | inr closed ↦ rw (miss, closed) rest
      ]
    ]

count-Among :
    (p : Row → Bool) (r : Row) (rows : List Row) → Among r rows → p r ≡ true → 1 ≤ count p rows
count-Among p r [] here hit = absurd here
count-Among p r (x ∷ rows) (inl same) hit =
    let found : p x ≡ true = subst (λ z. p z ≡ true) (sym same) hit in rw found (omega arith)
count-Among p r (x ∷ rows) (inr later) hit = elim (Bool-cases (p x)) [
  | inl found ↦ rw found (omega arith)
  | inr miss ↦ rw miss (count-Among p r rows later hit)
]

count-filter : (p : Row → Bool) (rows : List Row) → filter p rows ≡ [] → count p rows ≡ 0
count-filter p [] h = refl
count-filter p (x ∷ rows) h = elim (Bool-cases (p x)) [
  | inl hit ↦
      let h' : x ∷ filter p rows ≡ [] = rw hit at h in absurd (cons_ne_nil x (filter p rows) h')
  | inr miss ↦ let h' : filter p rows ≡ [] = rw miss at h in rw miss (count-filter p rows h')
]

-- How many jobs can be claimed at a time.
abbrev pub claimable_jobs : ℕ → Db → ℕ
claimable_jobs now db = count (claimable now) db.jobs

-- Room for two revisions a claim, and two more.
abbrev pub room_for : ℕ → ℕ
room_for zero = 2
room_for (suc n) = suc (suc (room_for n))

module _ (now : ℕ) where
  spent_stays :
      (db : Db) (x : Row)
      → among_first 65536 (spent now) (before_by expiry) db.jobs x ≡ true
      → claimable now (exhaust_expired now x) ≡ claimable now x
  unfolding among_first
  spent_stays db x h = ground arith

  swept-claimable_jobs : (db : Db) → claimable_jobs now (swept now db) ≡ claimable_jobs now db
  swept-claimable_jobs db =
      count-unmoved (claimable now) (among_first 65536 (spent now) (before_by expiry) db.jobs)
        (exhaust_expired now) db.jobs (spent_stays db)

  next_claimable-none : (db : Db) → next_claimable now db ≡ none → claimable_jobs now db ≡ 0
  unfolding next_claimable
  next_claimable-none db h =
      count-filter (claimable now) db.jobs (least-none claim_key (filter (claimable now) db.jobs) h)

  claims-claimable :
      (id revision : ℕ) (x : Row) → claims id revision now x ≡ true → claimable now x ≡ true
  claims-claimable id revision x h = ground arith

  claimed_for_now :
      (owner duration : ℕ) (x : Row)
      → 1 ≤ duration
      → claimable now (claim owner (now + duration) now x) ≡ false
  claimed_for_now owner duration x h = ground arith

  module _ (sha256 : List ℕ → ℕ) (owner : ℕ) where
    -- One claim leaves one job less to claim.
    claimed-claimable_jobs :
        (room : ℕ) (db : Db) (r : Row)
        → DbValid sha256 room db
        → next_claimable now db ≡ some r
        → claimable_jobs now (claimed_db owner now r db) + 1 ≡ claimable_jobs now db
    unfolding column_checks
    claimed-claimable_jobs room db r v chosen =
        let (member, open_now, _) = next_claimable-first now db r chosen in
        let w = Among-RowValid sha256 room db.jobs r v.rows member in
        let lasting : 1 ≤ r.lease_duration_ms = ground (arith, w.columns) in
        let q = claims r.job_id r.revision now in
        let found = Among-row_of r db.jobs v.distinct member in
        let hit : q r ≡ true = rw (==_self r.job_id, ==_self r.revision) open_now in
        let one : count q db.jobs ≡ 1 =
          count-row_of r.job_id q (λ x taken. ground arith) db.jobs v.distinct
          ∙ (rw found (rw hit refl)) in
        let taken =
          count-taken (claimable now) q (claim owner (now + r.lease_duration_ms) now) db.jobs
            (claims-claimable r.job_id r.revision)
            (λ x same. claimed_for_now owner r.lease_duration_ms x lasting) in
        ap (λ n. claimable_jobs now (claimed_db owner now r db) + n) (sym one) ∙ taken

    -- A number of claims, each of which returned a lease.
    pub data Claims : ℕ → Db → Db → Type 0 where
      no_more : {db : Db} → Claims zero db db
      one_more :
          {n : ℕ} {db db1 db2 : Db} (lease : Lease)
          → claim_next sha256 owner now db ≡ ok (some lease, db1)
          → Claims n db1 db2
          → Claims (suc n) db db2

    drained :
        (n : ℕ) (db : Db)
        → DbValid sha256 (room_for n) db
        → owner ≢ 0
        → now + max_lease_ms ≤ max_i64
        → claimable_jobs now db ≡ n
        → (db' : Db) × Claims n db db'
          × (claim_next sha256 owner now db' ≡ ok (none, swept now db'))
    drained zero db v owned fits number =
        elim (claim_next-cases sha256 0 owner now owned db v fits) [
          | inl (_, e, _, _) ↦ (db, no_more, e)
          | inr (r, chosen, _, _, _, _, _, _) ↦
              let (member, open_now, _) = next_claimable-first now (swept now db) r chosen in
              let some_left = count-Among (claimable now) r (swept now db).jobs member open_now in
              let same = swept-claimable_jobs db in absurd (omega arith)
        ]
    drained (suc n) db v owned fits number =
        elim (claim_next-cases sha256 (room_for n) owner now owned db v fits) [
          | inl (idle, _, _, _) ↦
              let none_left = next_claimable-none (swept now db) idle in
              let same = swept-claimable_jobs db in absurd (omega arith)
          | inr (r, chosen, _, e, valid, _, _, _) ↦
              let (_, swept_valid, _) =
                exhaust_all-DbValid sha256 (suc (room_for n)) now db v (omega arith) in
              let less =
                claimed-claimable_jobs (suc (room_for n)) (swept now db) r swept_valid chosen in
              let same = swept-claimable_jobs db in
              let (db', claims_rest, last) =
                drained n (claimed_db owner now r (swept now db)) valid owned fits (omega arith) in
              (db', one_more (lease_for owner now r) e claims_rest, last)
        ]

    -- On well-formed tables with room for two revisions a call, a nonzero owner and a time at
    -- least one longest lease before the end of the range: as many calls of `claim_next` at that
    -- time as there are claimable jobs return a lease each, and the call after them returns none.
    pub claim_next-drains :
        (db : Db)
        → DbValid sha256 (room_for (claimable_jobs now db)) db
        → owner ≢ 0
        → now + max_lease_ms ≤ max_i64
        → (db' : Db) × Claims (claimable_jobs now db) db db'
          × (claim_next sha256 owner now db' ≡ ok (none, swept now db'))
    claim_next-drains db v owned fits = drained (claimable_jobs now db) db v owned fits refl
