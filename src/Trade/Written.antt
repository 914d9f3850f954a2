-- ===== src/Trade/Written.antt =====
-- `write_checkpoint` of src/source_ingest.rs: what it leaves in the scope it writes.
use rhi.Attempt.Identity.{source_selector}
use rhi.Trade.Cursors.{ScopesDistinct}
use rhi.Trade.Checkpoints.{
  insert_checkpoint_row, as_i64, at_scope, one_written, next_checkpoint, checkpoint_fits,
}
use rhi.Trade.Types.{SourceError, CheckpointRow, TradeTables, checkpoint_checks}
use rhi.Base.{
  ok, some, none, true, false, inl, inr, refl, ◌∷◌, Bool, List, ℕ, ◌≡◌, find, is_some, same_bytes,
  update_where, Bool-cases, same_bytes_eq, subst, Contains-changed, arith, leb, some_ne_none, ◌&&◌,
  ◌==◌, changed_where, max_i64, not, same_bytes_self, sym, &&-left, ==_iff, ==_self, find-changed,
  ◌∙◌, ap, all, all-Contains, guarded-ok, is_some-none,
}

abbrev pub row_scope : CheckpointRow → CheckpointRow → Bool
row_scope row = at_scope row.source_id row.evidence_policy_sha256 row.trade_id

pub at_scope-keys :
    (s : List ℕ) (p t : ℕ) (x : CheckpointRow)
    → at_scope s p t x ≡ true
    → (x.source_id ≡ s) × (x.evidence_policy_sha256 ≡ p) × (x.trade_id ≡ t)
at_scope-keys s p t x h = (same_bytes_eq x.source_id s (ground arith), ground arith, ground arith)

pub as_i64-ok : (value : ℕ) {out : ℕ} → as_i64 value ≡ ok out → value ≡ out
as_i64-ok value h = (guarded-ok (leb value max_i64) value SourceError.storage h).1

pub one_written-ok :
    (n : ℕ) (db : TradeTables) {db' : TradeTables}
    → one_written (n, db) ≡ ok db'
    → (n ≡ 1) × (db ≡ db')
one_written-ok n db h =
    let (one, same) = guarded-ok (n == 1) db SourceError.generation_conflict h in
    ((==_iff n 1).0 one, same)

-- A checked row is in its own scope.
checked_scope : (r : CheckpointRow) → checkpoint_checks r ≡ true → row_scope r r ≡ true
unfolding checkpoint_checks
checked_scope r h =
    let selector : same_bytes r.selector_id source_selector ≡ true = ground arith in
    rw (same_bytes_self r.source_id, selector, ==_self r.evidence_policy_sha256, ==_self r.trade_id)
      refl

-- What an insertion into `relay_checkpoints` gives.
pub insert_checkpoint_row-ok :
    (r : CheckpointRow) (db : TradeTables) (n : ℕ) {db' : TradeTables}
    → insert_checkpoint_row r db ≡ ok (n, db')
    → (row_scope r r ≡ true)
      × (checkpoint_checks r ≡ true)
      × (find (row_scope r) db.checkpoints ≡ none)
      × (record db { checkpoints = r ∷ db.checkpoints } ≡ db')
unfolding insert_checkpoint_row
insert_checkpoint_row-ok r db n h =
    let after : TradeTables = record db { checkpoints = r ∷ db.checkpoints } in
    let (good, same) =
      guarded-ok (checkpoint_checks r && not (is_some (find (row_scope r) db.checkpoints)))
        (1, after) SourceError.storage h in
    let free : is_some (find (row_scope r) db.checkpoints) ≡ false = ground arith in
    let fits = &&-left (checkpoint_checks r) _ good in
    (
      checked_scope r fits,
      fits,
      is_some-none (find (row_scope r) db.checkpoints) free,
      ap (λ (p : ℕ × TradeTables). p.1) same,
    )

-- An old scope is not the new one.
pub old_scope :
    (r : CheckpointRow) (db : TradeTables) (s : List ℕ) (p t : ℕ) (row : CheckpointRow)
    → find (row_scope r) db.checkpoints ≡ none
    → find (at_scope s p t) db.checkpoints ≡ some row
    → find (at_scope s p t) (r ∷ db.checkpoints) ≡ some row
old_scope r db s p t row free found = elim (Bool-cases (at_scope s p t r)) [
  | inl same ↦
      let (k1, k2, k3) = at_scope-keys s p t r same in
      let free' : find (at_scope s p t) db.checkpoints ≡ none =
        subst (λ z. find (at_scope z p t) db.checkpoints ≡ none) k1
          (subst (λ z. find (at_scope r.source_id z t) db.checkpoints ≡ none) k2
            (subst
              (λ z. find (at_scope r.source_id r.evidence_policy_sha256 z) db.checkpoints ≡ none) k3
              free)) in
      absurd (some_ne_none (sym found ∙ free'))
  | inr other ↦ rw other found
]

pub inserted-ScopesDistinct :
    (r : CheckpointRow) (db : TradeTables)
    → ScopesDistinct db
    → row_scope r r ≡ true
    → checkpoint_checks r ≡ true
    → find (row_scope r) db.checkpoints ≡ none
    → ScopesDistinct (record db { checkpoints = r ∷ db.checkpoints })
inserted-ScopesDistinct r db distinct itself fits free = record {
  once = λ row here. elim here [
    | inl same ↦ subst (λ z. find (row_scope z) (r ∷ db.checkpoints) ≡ some z) same (rw itself refl)
    | inr old ↦
        old_scope r db row.source_id row.evidence_policy_sha256 row.trade_id row free
          (distinct.once row old)
  ];
  fits = λ row here. elim here [
    | inl same ↦ subst (λ z. checkpoint_checks z ≡ true) same fits
    | inr old ↦ distinct.fits row old
  ];
}

checkpoint_fits-checks :
    (q : CheckpointRow → Bool) (f : CheckpointRow → CheckpointRow) (r : CheckpointRow)
    → q r ≡ true
    → checkpoint_fits q f r ≡ true
    → checkpoint_checks (f r) ≡ true
checkpoint_fits-checks q f r hit h = ground arith

pub updated-ScopesDistinct :
    (q : CheckpointRow → Bool) (c e at : ℕ) (db : TradeTables)
    → ScopesDistinct db
    → all (checkpoint_fits q (next_checkpoint c e at)) db.checkpoints ≡ true
    → ScopesDistinct
        (record db { checkpoints = update_where q (next_checkpoint c e at) db.checkpoints })
updated-ScopesDistinct q c e at db distinct allowed = record {
  once = λ y here.
      let (x, old, same) = Contains-changed q (next_checkpoint c e at) db.checkpoints y here in
      subst
        (λ z. find (row_scope z) (update_where q (next_checkpoint c e at) db.checkpoints) ≡ some z)
        same
        (elim (Bool-cases (q x)) [
          | inl hit ↦
              let found : find (row_scope x)
                    (update_where q (next_checkpoint c e at) db.checkpoints)
                  ≡ some (changed_where q (next_checkpoint c e at) x) =
                find-changed (row_scope x) q (next_checkpoint c e at) (λ z. refl) db.checkpoints x
                  (distinct.once x old) in
              let found' : find (row_scope x)
                    (update_where q (next_checkpoint c e at) db.checkpoints)
                  ≡ some (next_checkpoint c e at x) =
                rw hit at found in
              rw hit found'
          | inr miss ↦
              let found : find (row_scope x)
                    (update_where q (next_checkpoint c e at) db.checkpoints)
                  ≡ some (changed_where q (next_checkpoint c e at) x) =
                find-changed (row_scope x) q (next_checkpoint c e at) (λ z. refl) db.checkpoints x
                  (distinct.once x old) in
              let found' : find (row_scope x)
                    (update_where q (next_checkpoint c e at) db.checkpoints)
                  ≡ some x =
                rw miss at found in
              rw miss found'
        ]);
  fits = λ y here.
      let (x, old, same) = Contains-changed q (next_checkpoint c e at) db.checkpoints y here in
      let let_through = all-Contains _ db.checkpoints x allowed old in
      subst (λ z. checkpoint_checks z ≡ true) same
        (elim (Bool-cases (q x)) [
          | inl hit ↦ rw hit (checkpoint_fits-checks q (next_checkpoint c e at) x hit let_through)
          | inr miss ↦ rw miss (distinct.fits x old)
        ]);
}
