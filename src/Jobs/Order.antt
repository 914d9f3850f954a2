-- ===== src/Jobs/Order.antt =====
-- Which job `claim_next` of src/reconciliation_job.rs takes: READ_CLAIMABLE_SQL's order.
use rhi.Jobs.Types.{JobState, ready, leased, completed, superseded, exhausted}
use rhi.Jobs.Statements.{is_ready, is_leased, claimable, claim_key}
use rhi.Jobs.Choice.{least-none, Among, NoneBefore, least-first, Among-filter}
use rhi.Jobs.Schema.{Row}
use rhi.Jobs.Store.{Db, before_by}
use rhi.Jobs.Operations.{next_claimable}
use rhi.Base.{
  ℕ, some, true, ◌≡◌, filter, ◌<◌, ◌≤◌, ◌⊎◌, inl, inr, none, false, Bool, List, [], ◌∷◌, arith,
  refl, Bool-cases, subst, Option, Option-cases, ◌&&◌, ◌||◌, leb, is_some_and,
}

-- The row that `next_claimable` chooses stands in the table and is claimable, and no claimable row
-- comes before it by due time, creation and id.
pub next_claimable-first :
    (now : ℕ) (db : Db) (r : Row)
    → next_claimable now db ≡ some r
    → Among r db.jobs
      × (claimable now r ≡ true)
      × NoneBefore claim_key r (filter (claimable now) db.jobs)
unfolding next_claimable
next_claimable-first now db r e =
    let (member, first) = least-first claim_key (filter (claimable now) db.jobs) r e in
    let (among, open_now) = Among-filter (claimable now) r db.jobs member in
    (among, open_now, first)

-- A row that a worker may take, due at the time `k`: a ready job at its next attempt, a leased one
-- at the end of its lease.
abbrev pub Due : ℕ → ℕ → Row → Type 0
Due now k r =
    (r.attempt_count < r.max_attempts)
    × (r.updated_at_unix_ms ≤ now)
    × (k ≤ now)
    × (((r.state ≡ ready) × (r.next_attempt_unix_ms ≡ some k))
        ⊎ ((r.state ≡ leased) × (r.lease_expires_unix_ms ≡ some k)))

-- By due time, then by creation, then by id.
abbrev pub NotAfter : ℕ → Row → ℕ → Row → Type 0
NotAfter k r j s =
    (k < j)
    ⊎ ((k ≡ j)
        × ((r.created_at_unix_ms < s.created_at_unix_ms)
            ⊎ ((r.created_at_unix_ms ≡ s.created_at_unix_ms) × (r.job_id ≤ s.job_id))))

claimable-Due : (now k : ℕ) (r : Row) → Due now k r → (claimable now r ≡ true) × (claim_key r ≡ k)
claimable-Due now k r (left, old, open_now, inl (is_ready_row, at)) =
    (rw (is_ready_row, at) (ground arith), rw (is_ready_row, at) refl)
claimable-Due now k r (left, old, open_now, inr (is_leased_row, at)) =
    (rw (is_leased_row, at) (ground arith), rw (is_leased_row, at) refl)

due_when :
    (now : ℕ) (state : JobState) (next expires : Option ℕ)
    → (is_ready state && is_some_and (λ t. leb t now) next
        || is_leased state && is_some_and (λ t. leb t now) expires)
      ≡ true
    → (k : ℕ) × (k ≤ now)
      × (((state ≡ ready) × (next ≡ some k)) ⊎ ((state ≡ leased) × (expires ≡ some k)))
due_when now ready (some k) expires h = (k, ground arith, inl (refl, refl))
due_when now ready none expires h = cc
due_when now leased next (some k) h = (k, ground arith, inr (refl, refl))
due_when now leased next none h = cc
due_when now completed next expires h = cc
due_when now superseded next expires h = cc
due_when now exhausted next expires h = cc

Due-claimable : (now : ℕ) (r : Row) → claimable now r ≡ true → (k : ℕ) × Due now k r
Due-claimable now r h =
    let (k, open_now, how) =
      due_when now r.state r.next_attempt_unix_ms r.lease_expires_unix_ms (ground arith) in
    (k, (ground arith, ground arith, open_now, how))

Among-kept :
    (p : Row → Bool) (x : Row) (xs : List Row) → Among x xs → p x ≡ true → Among x (filter p xs)
Among-kept p x [] h e = absurd h
Among-kept p x (y ∷ ys) (inl same) e = rw (same, e) (inl refl)
Among-kept p x (y ∷ ys) (inr later) e = elim (Bool-cases (p y)) [
  | inl keeps_y ↦ rw keeps_y (inr (Among-kept p x ys later e))
  | inr drops_y ↦ rw drops_y (Among-kept p x ys later e)
]

NoneBefore-Among :
    (r s : Row) (rows : List Row)
    → NoneBefore claim_key r rows
    → Among s rows
    → before_by claim_key s r ≡ false
NoneBefore-Among r s [] a h = absurd h
NoneBefore-Among r s (y ∷ ys) a (inl same) = subst (λ z. before_by claim_key z r ≡ false) same a.0
NoneBefore-Among r s (y ∷ ys) a (inr later) = NoneBefore-Among r s ys a.1 later

NotAfter-before_by :
    (k j : ℕ) (r s : Row)
    → claim_key r ≡ k
    → claim_key s ≡ j
    → before_by claim_key s r ≡ false
    → NotAfter k r j s
unfolding before_by
NotAfter-before_by k j r s at_k at_j h = ground arith

-- What is chosen: none if no row is due, else a row that is due and not after any other.
abbrev pub Earliest : ℕ → Db → Type 0
Earliest now db =
    ((next_claimable now db ≡ none) × ((s : Row) (j : ℕ) → Among s db.jobs → ¬ Due now j s))
    ⊎ ((r : Row) × (k : ℕ) × (next_claimable now db ≡ some r)
        × Among r db.jobs
        × Due now k r
        × ((s : Row) (j : ℕ) → Among s db.jobs → Due now j s → NotAfter k r j s))

-- `next_claimable` is none exactly if no row of the table is due, and else a row of the table that
-- is due and that no due row comes before. A row is due if it has an attempt left, was not updated
-- after `now`, and is ready with its next attempt, or leased with the end of its lease, no later
-- than `now`; the order is by that time, then by creation, then by id.
pub next_claimable-Earliest : (now : ℕ) (db : Db) → Earliest now db
unfolding next_claimable
next_claimable-Earliest now db = elim (Option-cases (next_claimable now db)) [
  | inl idle ↦ inl (
    idle,
    λ s j here due.
        let kept = Among-kept (claimable now) s db.jobs here (claimable-Due now j s due).0 in
        subst (Among s) (least-none claim_key (filter (claimable now) db.jobs) idle) kept,
  )
  | inr (r, chosen) ↦
      let (among, open_now, first) = next_claimable-first now db r chosen in
      let (k, due) = Due-claimable now r open_now in
      inr (
        r,
        k,
        chosen,
        among,
        due,
        λ s j here due_too.
            let (open_too, at_j) = claimable-Due now j s due_too in
            NotAfter-before_by k j r s (claimable-Due now k r due).1 at_j (
              NoneBefore-Among r s (filter (claimable now) db.jobs) first
                (Among-kept (claimable now) s db.jobs here open_too)),
      )
]
