-- ===== src/Outbox/Updates.antt =====
-- What the reads of src/publication_execution.rs see of an UPDATE that keeps the keys.
use rhi.Outbox.Statements.{target_numbered}
use rhi.Outbox.Store.{TargetRow, at_outbox, on_target}
use rhi.Outbox.Reads.{decode_target, decode_targets, insert_target, sort_targets, targets_under}
use rhi.Base.{
  [], some, true, false, inl, inr, ok, refl, zero, suc, ◌∷◌, Bool, List, all, if◌then◌else◌, ◌≡◌,
  Bool-cases, count, find, sym, ℕ, ok-injective, take, update_where, ◌<◌, ◌≤◌, and_then-ok, ap, ltb,
  some_ne_none, ◌==◌, ◌∙◌, subst, &&-left, arith, &&-right, true_ne_false,
}
use mathlib.Core.Option.{some-injective}
use rhi.Outbox.Types.{OutboxRecord, TargetRecord}

abbrev pub after_update :
    (TargetRecord → Bool) → (TargetRecord → TargetRecord) → TargetRecord → TargetRecord
after_update p f t = if p t then f t else t

module _ (p : TargetRecord → Bool) (f : TargetRecord → TargetRecord)
    (same_key : (t : TargetRecord) → (f t).ordinal ≡ t.ordinal) where
  after_update-key : (t : TargetRecord) → (after_update p f t).ordinal ≡ t.ordinal
  after_update-key t = elim (Bool-cases (p t)) [
    | inl hit ↦ rw hit (same_key t)
    | inr miss ↦ rw miss refl
  ]

  insert_target-update :
      (t : TargetRecord) (ts : List TargetRecord)
      → insert_target (after_update p f t) (update_where p f ts)
        ≡ update_where p f (insert_target t ts)
  insert_target-update t [] = refl
  insert_target-update t (s ∷ ts) = elim (Bool-cases (ltb s.ordinal t.ordinal)) [
    | inl before ↦
        rw (after_update-key s, after_update-key t, before)
          (ap (λ l. after_update p f s ∷ l) (insert_target-update t ts))
    | inr behind ↦ rw (after_update-key s, after_update-key t, behind) refl
  ]

  sort_targets-update :
      (ts : List TargetRecord)
      → sort_targets (update_where p f ts) ≡ update_where p f (sort_targets ts)
  sort_targets-update [] = refl
  sort_targets-update (t ∷ ts) =
      ap (insert_target (after_update p f t)) (sort_targets-update ts)
      ∙ insert_target-update t (sort_targets ts)

  take-update :
      (n : ℕ) (ts : List TargetRecord) → take n (update_where p f ts) ≡ update_where p f (take n ts)
  take-update zero ts = refl
  take-update (suc n) [] = refl
  take-update (suc n) (t ∷ ts) = ap (λ l. after_update p f t ∷ l) (take-update n ts)

  targets_under-update :
      (id : ℕ) (rows : List TargetRow)
      → targets_under id (update_where (at_outbox id p) (on_target f) rows)
        ≡ update_where p f (targets_under id rows)
  targets_under-update id [] = refl
  targets_under-update id (row ∷ rows) = elim (Bool-cases (row.outbox_id == id)) [
    | inl here ↦ elim (Bool-cases (p row.target)) [
      | inl hit ↦
          rw (here, hit) (rw here (ap (λ l. f row.target ∷ l) (targets_under-update id rows)))
      | inr miss ↦
          rw (here, miss) (rw here (ap (λ l. row.target ∷ l) (targets_under-update id rows)))
    ]
    | inr other ↦ rw other (rw other (targets_under-update id rows))
  ]

  -- The target read under an ordinal, after the UPDATE.
  pub target_numbered-update :
      (k : ℕ) (ts : List TargetRecord) (t : TargetRecord)
      → target_numbered k ts ≡ some t
      → p t ≡ true
      → target_numbered k (update_where p f ts) ≡ some (f t)
  target_numbered-update k [] t h hit = absurd (some_ne_none (sym h))
  target_numbered-update k (s ∷ ts) t h hit = elim (Bool-cases (s.ordinal == k)) [
    | inl here ↦
        let h' : some s ≡ some t = rw here at h in
        let same = some-injective _ _ h' in
        let hit' : p s ≡ true = subst (λ z. p z ≡ true) (sym same) hit in
        rw (after_update-key s, here, hit') (ap (λ z. some (f z)) same)
    | inr other ↦
        let h' : target_numbered k ts ≡ some t = rw other at h in
        rw (after_update-key s, other) (target_numbered-update k ts t h' hit)
  ]

  -- The targets read are those read before, with the UPDATE.
  pub raw_targets-update :
      (id : ℕ) (rows : List TargetRow)
      → take 33 (sort_targets (targets_under id (update_where (at_outbox id p) (on_target f) rows)))
        ≡ update_where p f (take 33 (sort_targets (targets_under id rows)))
  raw_targets-update id rows =
      ap (λ l. take 33 (sort_targets l)) (targets_under-update id rows)
      ∙ ap (take 33) (sort_targets-update (targets_under id rows))
      ∙ take-update 33 (sort_targets (targets_under id rows))

decode_target-same : (row t : TargetRecord) → decode_target row ≡ ok t → t ≡ row
unfolding decode_target
decode_target-same row t e = ground arith

pub decode_targets-same :
    (rows targets : List TargetRecord) → decode_targets rows ≡ ok targets → targets ≡ rows
decode_targets-same [] targets e = sym (ok-injective e)
decode_targets-same (row ∷ rows) targets e =
    let (t, one, e1) = and_then-ok (decode_target row) e in
    let (rest, more, e3) = and_then-ok (decode_targets rows) e1 in
    let heads = decode_target-same row t one in
    let tails : rest ≡ rows = decode_targets-same rows rest more in
    sym (ok-injective e3) ∙ ap (λ z. z ∷ rest) heads ∙ ap (λ l. row ∷ l) tails

-- An UPDATE of one row among rows with one key each takes the row that is read under the key.
module _ (p q : OutboxRecord → Bool) (under : (s : OutboxRecord) → p s ≡ true → q s ≡ true) where
  count_le : (rows : List OutboxRecord) → count p rows ≤ count q rows
  count_le [] = omega arith
  count_le (s ∷ rows) = elim (Bool-cases (p s)) [
    | inl hit ↦ rw (hit, under s hit) (omega (arith, count_le rows))
    | inr miss ↦ ground (arith, count_le rows)
  ]

  pub count_hit :
      (rows : List OutboxRecord) (r : OutboxRecord)
      → find q rows ≡ some r
      → p r ≡ false
      → count p rows < count q rows
  count_hit [] r found miss = absurd (some_ne_none (sym found))
  count_hit (s ∷ rows) r found miss = elim (Bool-cases (q s)) [
    | inl here ↦
        let found' : some s ≡ some r = rw here at found in
        let miss' : p s ≡ false = subst (λ z. p z ≡ false) (sym (some-injective _ _ found')) miss in
        rw (here, miss') (omega (arith, count_le rows))
    | inr other ↦
        let found' : find q rows ≡ some r = rw other at found in
        elim (Bool-cases (p s)) [
          | inl hit ↦ absurd (true_ne_false (sym (under s hit) ∙ other))
          | inr miss' ↦ rw (other, miss') (count_hit rows r found' miss)
        ]
  ]

pub find-update_where :
    (p q : OutboxRecord → Bool) (f : OutboxRecord → OutboxRecord) (rows : List OutboxRecord)
    (r : OutboxRecord)
    → ((s : OutboxRecord) → q (f s) ≡ q s)
    → find q rows ≡ some r
    → p r ≡ true
    → find q (update_where p f rows) ≡ some (f r)
find-update_where p q f [] r same found hit = absurd (some_ne_none (sym found))
find-update_where p q f (s ∷ rows) r same found hit = elim (Bool-cases (q s)) [
  | inl here ↦
      let found' : some s ≡ some r = rw here at found in
      let one = some-injective _ _ found' in
      let hit' : p s ≡ true = subst (λ z. p z ≡ true) (sym one) hit in
      rw (hit', same s, here) (ap (λ z. some (f z)) one)
  | inr other ↦
      let found' : find q rows ≡ some r = rw other at found in
      elim (Bool-cases (p s)) [
        | inl hit' ↦ rw (hit', same s, other) (find-update_where p q f rows r same found' hit)
        | inr miss ↦ rw (miss, other) (find-update_where p q f rows r same found' hit)
      ]
]

pub all-find :
    (g q : OutboxRecord → Bool) (rows : List OutboxRecord) (r : OutboxRecord)
    → all g rows ≡ true
    → find q rows ≡ some r
    → g r ≡ true
all-find g q [] r h found = absurd (some_ne_none (sym found))
all-find g q (s ∷ rows) r h found = elim (Bool-cases (q s)) [
  | inl here ↦
      let found' : some s ≡ some r = rw here at found in
      subst (λ z. g z ≡ true) (some-injective _ _ found') (&&-left _ _ h)
  | inr other ↦
      let found' : find q rows ≡ some r = rw other at found in
      all-find g q rows r (&&-right (g s) _ h) found'
]
