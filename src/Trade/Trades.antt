-- ===== src/Trade/Trades.antt =====
-- Rows of `trade_dirty_generations` as src/source_ingest.rs writes them: one of each trade, none set back.
use rhi.Trade.Checkpoints.{of_trade}
use rhi.Trade.Types.{GenerationRow, TradeTables}
use rhi.Base.{
  some, none, ℕ, inl, inr, refl, ◌∷◌, Contains, List, arith, find, ◌≡◌, subst, Bool-cases, ◌≤◌,
  ◌==◌, ==_iff, some_ne_none, sym, ◌∙◌, ==_self,
}

-- The rows of a trade are one.
unfoldable pub GenerationsDistinct : TradeTables → Type 0
GenerationsDistinct db =
    (row : GenerationRow)
    → Contains db.generations row
    → find (of_trade row.trade_id) db.generations ≡ some row

-- Every trade that has a generation keeps one, and it is no less than the old one.
unfoldable pub GenerationsAdvance : TradeTables → TradeTables → Type 0
GenerationsAdvance db db' =
    (trade_id : ℕ) (row : GenerationRow)
    → find (of_trade trade_id) db.generations ≡ some row
    → (row' : GenerationRow) × (find (of_trade trade_id) db'.generations ≡ some row')
      × (row.generation ≤ row'.generation)

pub GenerationsAdvance-same :
    (db db' : TradeTables) → db'.generations ≡ db.generations → GenerationsAdvance db db'
unfolding GenerationsAdvance
GenerationsAdvance-same db db' same trade_id row h = (row, rw same h, omega arith)

pub GenerationsAdvance-trans :
    (a b c : TradeTables) → GenerationsAdvance a b → GenerationsAdvance b c → GenerationsAdvance a c
unfolding GenerationsAdvance
GenerationsAdvance-trans a b c first second trade_id row h =
    let (row1, found1, on1) = first trade_id row h in
    let (row2, found2, on2) = second trade_id row1 found1 in (row2, found2, omega arith)

pub GenerationsDistinct-same :
    (db db' : TradeTables)
    → db'.generations ≡ db.generations
    → GenerationsDistinct db
    → GenerationsDistinct db'
unfolding GenerationsDistinct
GenerationsDistinct-same db db' same distinct row here =
    rw same (distinct row (subst (λ rows. Contains rows row) same here))

pub record Advanced (t g : ℕ) (db db' : TradeTables) : Type 0 where
  pub advance : GenerationsAdvance db db'
  pub distinct : GenerationsDistinct db'
  pub elsewhere : (rows : List GenerationRow) × (record db { generations = rows } ≡ db')
  pub row : GenerationRow
  pub found : find (of_trade t) db'.generations ≡ some row
  pub generation : row.generation ≡ g

pub inserted-Advanced :
    (r : GenerationRow) (db : TradeTables)
    → GenerationsDistinct db
    → find (of_trade r.trade_id) db.generations ≡ none
    → Advanced r.trade_id r.generation db (record db { generations = r ∷ db.generations })
unfolding GenerationsAdvance GenerationsDistinct
inserted-Advanced r db distinct free = record {
  advance = λ t row found. (row, old_trade t row found, omega arith);
  distinct = λ row here. elim here [
    | inl same ↦
        subst (λ z. find (of_trade z.trade_id) (r ∷ db.generations) ≡ some z) same
          (rw (==_self r.trade_id) refl)
    | inr old ↦ old_trade row.trade_id row (distinct row old)
  ];
  elsewhere = (r ∷ db.generations, refl);
  row = r;
  found = rw (==_self r.trade_id) refl;
  generation = refl;
}
  where
    old_trade :
        (t : ℕ) (row : GenerationRow)
        → find (of_trade t) db.generations ≡ some row
        → find (of_trade t) (r ∷ db.generations) ≡ some row
    old_trade t row found = elim (Bool-cases (r.trade_id == t)) [
      | inl same ↦
          let free' : find (of_trade t) db.generations ≡ none =
            subst (λ z. find (of_trade z) db.generations ≡ none) ((==_iff r.trade_id t).0 same)
              free in
          absurd (some_ne_none (sym found ∙ free'))
      | inr other ↦ rw other found
    ]
