-- ===== src/Trade/Generations.antt =====
-- `advance_dirty_generation` of src/source_ingest.rs: what it leaves of `trade_dirty_generations`.
use rhi.Trade.Trades.{GenerationsAdvance, GenerationsDistinct, Advanced, inserted-Advanced}
use rhi.Trade.Written.{one_written-ok, as_i64-ok}
use rhi.Trade.Checkpoints.{
  insert_generation, update_generations, at_generation, of_trade, next_generation, generation_fits,
  advance_dirty_generation, as_i64, one_written,
}
use rhi.Trade.Types.{
  SourceError, GenerationRow, TradeTables, storage, generation_checks, DirtyState,
  generation_conflict,
}
use rhi.Base.{
  ok, some, none, ℕ, true, false, inl, inr, refl, ◌∷◌, Contains, Option, arith, count, find, ◌≡◌,
  Bool, is_some, subst, update_where, ◌+◌, ◌≤◌, all, ◌&&◌, ◌==◌, changed_where, not, find-changed,
  ap, count-Contains, sym, Contains-changed, ◌∙◌, ==_self, and_then-ok, ok_or, keep, leb, max_i64,
  checked, require, [], guarded-ok, ok-pair, is_some-none,
}

insert_generation-ok :
    (r : GenerationRow) (db : TradeTables) (n : ℕ) {db' : TradeTables}
    → insert_generation r db ≡ ok (n, db')
    → (find (of_trade r.trade_id) db.generations ≡ none)
      × (record db { generations = r ∷ db.generations } ≡ db')
unfolding insert_generation
insert_generation-ok r db n h =
    let (good, same) =
      guarded-ok (generation_checks r && not (is_some (find (of_trade r.trade_id) db.generations)))
        (1, record db { generations = r ∷ db.generations }) SourceError.storage h in
    let free : is_some (find (of_trade r.trade_id) db.generations) ≡ false = ground arith in
    (
      is_some-none (find (of_trade r.trade_id) db.generations) free,
      ap (λ (p : ℕ × TradeTables). p.1) same,
    )

update_generations-ok :
    (q : GenerationRow → Bool) (f : GenerationRow → GenerationRow) (db : TradeTables) (n : ℕ)
    {db' : TradeTables}
    → update_generations q f db ≡ ok (n, db')
    → (n ≡ count q db.generations)
      × (record db { generations = update_where q f db.generations } ≡ db')
unfolding update_generations
update_generations-ok q f db n h =
    let (_, same) =
      guarded-ok (all (generation_fits q f) db.generations)
        (count q db.generations, record db { generations = update_where q f db.generations })
        SourceError.storage h in
    (sym (ap (λ (p : ℕ × TradeTables). p.0) same), ap (λ (p : ℕ × TradeTables). p.1) same)

updated-Advanced :
    (t g p at : ℕ) (db : TradeTables)
    → GenerationsDistinct db
    → count (at_generation t g) db.generations ≡ 1
    → Advanced t (g + 1) db (record db {
      generations = update_where (at_generation t g) (next_generation p at) db.generations;
    })
unfolding GenerationsAdvance GenerationsDistinct
updated-Advanced t g p at db distinct one =
    let q = at_generation t g in
    let (x, old, hit) = count-Contains q db.generations 0 one in
    let trade : x.trade_id ≡ t = ground arith in
    let generation : x.generation ≡ g = ground arith in
    let found =
      after t x (subst (λ z. find (of_trade z) db.generations ≡ some x) trade (distinct x old)) in
    record {
      advance = λ u row before. (changed row, after u row before, no_less row);
      distinct = λ y here.
          let (z, there, same) = Contains-changed q (next_generation p at) db.generations y here in
          subst
            (λ w.
              find (of_trade w.trade_id) (update_where q (next_generation p at) db.generations)
              ≡ some w)
            same
            (subst
              (λ w.
                find (of_trade w) (update_where q (next_generation p at) db.generations)
                ≡ some (changed z))
              (sym (same_trade z)) (after z.trade_id z (distinct z there)));
      elsewhere = (update_where q (next_generation p at) db.generations, refl);
      row = changed x;
      found = found;
      generation = next_of x hit ∙ ap (λ z. z + 1) generation;
    }
  where
    changed : GenerationRow → GenerationRow
    changed = changed_where (at_generation t g) (next_generation p at)

    after :
        (u : ℕ) (row : GenerationRow)
        → find (of_trade u) db.generations ≡ some row
        → find (of_trade u) (update_where (at_generation t g) (next_generation p at) db.generations)
          ≡ some (changed row)
    after u row found =
        find-changed (of_trade u) (at_generation t g) (next_generation p at) (λ z. refl)
          db.generations row found

    no_less : (row : GenerationRow) → row.generation ≤ (changed row).generation
    no_less row = ground arith

    same_trade : (row : GenerationRow) → (changed row).trade_id ≡ row.trade_id
    same_trade row = ground arith

    next_of :
        (row : GenerationRow)
        → at_generation t g row ≡ true
        → (changed row).generation ≡ row.generation + 1
    next_of row hit = rw hit refl

-- What the next generation of a trade is, from the one that was read.
pub next_after : Option DirtyState → ℕ
next_after none = 1
next_after (some current) = current.generation + 1

-- Where rows of a trade are one, an advance that goes well leaves the next generation, sets no other
-- back and changes no other table.
pub advance_dirty_generation-Advanced :
    (t p at g : ℕ) (current : Option DirtyState) (db : TradeTables) {db' : TradeTables}
    → GenerationsDistinct db
    → advance_dirty_generation t p at current db ≡ ok (g, db')
    → (g ≡ next_after current) × Advanced t g db db'
unfolding advance_dirty_generation next_after
advance_dirty_generation-Advanced t p at g none db {db'} distinct h =
    let (a, e1, h1) = and_then-ok (as_i64 at) h in
    let ((n, db1), e2, h2) = and_then-ok (insert_generation _ db) h1 in
    let (db2, e3, h3) = and_then-ok (one_written (n, db1)) h2 in
    let (_, same) = one_written-ok n db1 e3 in
    let (free, after) = insert_generation-ok _ db n e2 in
    let r : GenerationRow = record {
      trade_id = t;
      generation = 1;
      evidence_policy_sha256 = p;
      updated_at_unix_s = a;
    } in
    let (result, last) = ok-pair h3 in
    let first = sym result in
    (
      first,
      subst (λ z. Advanced t z db db') (sym first)
          (subst (λ d. Advanced t 1 db d) (after ∙ same ∙ last)
            (inserted-Advanced r db distinct free)),
    )
advance_dirty_generation-Advanced t p at g (some current) db {db'} distinct h =
    let (a, e1, h1) = and_then-ok (as_i64 at) h in
    let (_, _, h2) =
      and_then-ok
        (require (current.policy == p && leb current.updated_at_unix_s at) generation_conflict)
        h1 in
    let (next, e3, h3) =
      and_then-ok
        (ok_or (keep (λ value. leb value max_i64) (checked (current.generation + 1))) storage) h2 in
    let (c, e4, h4) = and_then-ok (as_i64 current.generation) h3 in
    let ((n, db1), e5, h5) =
      and_then-ok (update_generations (at_generation t c) (next_generation p a) db) h4 in
    let (db2, e6, h6) = and_then-ok (one_written (n, db1)) h5 in
    let (one, same) = one_written-ok n db1 e6 in
    let (number, after) = update_generations-ok (at_generation t c) (next_generation p a) db n e5 in
    let (result, last) = ok-pair h6 in
    let is_next : next ≡ current.generation + 1 = checked_next (current.generation + 1) e3 in
    let total = sym result ∙ is_next in
    (
      total,
      subst (λ z. Advanced t z db db') (sym total)
          (subst (λ d. Advanced t (current.generation + 1) db d) (after ∙ same ∙ last)
            (subst
              (λ z. Advanced t (z + 1) db (record db {
                generations = update_where (at_generation t c) (next_generation p a) db.generations;
              }))
              (sym (as_i64-ok current.generation e4))
              (updated-Advanced t c p a db distinct (sym number ∙ one)))),
    )
  where
    checked_next :
        (n : ℕ) {out : ℕ}
        → ok_or {E = SourceError} (keep (λ value. leb value max_i64) (checked n)) storage ≡ ok out
        → out ≡ n
    checked_next n h = ground arith

pub no_generations : (db : TradeTables) → db.generations ≡ [] → GenerationsDistinct db
unfolding GenerationsDistinct
no_generations db empty row here = absurd (subst (λ rows. Contains rows row) empty here)

pub one_generation :
    (db : TradeTables) (r : GenerationRow) → db.generations ≡ r ∷ [] → GenerationsDistinct db
unfolding GenerationsDistinct
one_generation db r only row here = elim (subst (λ rows. Contains rows row) only here) [
  | inl same ↦
      subst (λ z. find (of_trade z.trade_id) db.generations ≡ some z) same
        (rw (only, ==_self r.trade_id) refl)
  | inr later ↦ absurd later
]
