-- ===== src/Jobs/Active.antt =====
-- The active job of a trade in src/reconciliation_job.rs: there is one at most, and once it is
-- superseded there is none.
use rhi.Jobs.Schema.{Row, one_active_per_trade, is_active, same_active_trade}
use rhi.Base.{
  ℕ, refl, [], true, false, inl, inr, ◌∷◌, List, Bool, filter, ◌≡◌, Bool-cases, any, ◌==◌,
  cons_ne_nil, cons_tail, update_where, ◌&&◌, arith, cons_head, &&-right, subst, sym,
}

abbrev pub active_of : ℕ → Row → Bool
active_of trade_id r = r.trade_id == trade_id && is_active r.state

any_of_filter-cons :
    (trade_id : ℕ) (rows : List Row) (s : Row) (rest : List Row)
    → filter (active_of trade_id) rows ≡ s ∷ rest
    → any (active_of trade_id) rows ≡ true
any_of_filter-cons trade_id [] s rest h = cc
any_of_filter-cons trade_id (r ∷ rows) s rest h = elim (Bool-cases (active_of trade_id r)) [
  | inl hit ↦ rw hit
  | inr miss ↦ rw miss (any_of_filter-cons trade_id rows s rest (rw miss at h))
]

pub any_of_filter-nil :
    (trade_id : ℕ) (rows : List Row)
    → filter (active_of trade_id) rows ≡ []
    → any (active_of trade_id) rows ≡ false
any_of_filter-nil trade_id [] h = refl
any_of_filter-nil trade_id (r ∷ rows) h = elim (Bool-cases (active_of trade_id r)) [
  | inl hit ↦ absurd (cons_ne_nil r (filter (active_of trade_id) rows) (rw hit at h))
  | inr miss ↦ rw miss (any_of_filter-nil trade_id rows (rw miss at h))
]

pub same_active-any :
    (trade_id : ℕ) (r : Row) (rows : List Row)
    → active_of trade_id r ≡ true
    → any (same_active_trade r) rows ≡ any (active_of trade_id) rows
same_active-any trade_id r [] h = refl
same_active-any trade_id r (s ∷ rows) h = ground (arith, same_active-any trade_id r rows h)

-- Two active jobs of one trade would break the unique index.
pub not_two_active :
    (trade_id : ℕ) (rows : List Row) (r s : Row) (rest : List Row)
    → one_active_per_trade rows ≡ true
    → filter (active_of trade_id) rows ≡ r ∷ s ∷ rest
    → ⊥
unfolding one_active_per_trade
not_two_active trade_id [] r s rest one h = cc
not_two_active trade_id (x ∷ rows) r s rest one h = elim (Bool-cases (active_of trade_id x)) [
  | inl hit ↦
      let tails : filter (active_of trade_id) rows ≡ s ∷ rest = cons_tail (rw hit at h) in
      let some_active = any_of_filter-cons trade_id rows s rest tails in
      let same = same_active-any trade_id x rows hit in ground arith
  | inr miss ↦ not_two_active trade_id rows r s rest (&&-right _ _ one) (rw miss at h)
]

none_active-update :
    (trade_id : ℕ) (p : Row → Bool) (f : Row → Row)
    → ((r : Row) → is_active (f r).state ≡ false)
    → (rows : List Row) → any (active_of trade_id) rows ≡ false
    → any (active_of trade_id) (update_where p f rows) ≡ false
none_active-update trade_id p f off [] h = refl
none_active-update trade_id p f off (r ∷ rows) h = elim (Bool-cases (p r)) [
  | inl hit ↦ rw (hit, off r) (ground (arith, none_active-update trade_id p f off rows))
  | inr miss ↦ rw miss (ground (arith, none_active-update trade_id p f off rows))
]

-- Superseding the one active job of a trade leaves none.
pub none_active-supersede :
    (trade_id : ℕ) (p : Row → Bool) (f : Row → Row)
    → ((r : Row) → is_active (f r).state ≡ false)
    → (rows : List Row) (a : Row) → filter (active_of trade_id) rows ≡ a ∷ []
    → p a ≡ true
    → any (active_of trade_id) (update_where p f rows) ≡ false
none_active-supersede trade_id p f off [] a h hit = cc
none_active-supersede trade_id p f off (r ∷ rows) a h hit =
    elim (Bool-cases (active_of trade_id r)) [
      | inl here ↦
          let same : r ≡ a = cons_head (rw here at h) in
          let taken : p r ≡ true = subst (λ z. p z ≡ true) (sym same) hit in
          let rest = any_of_filter-nil trade_id rows (cons_tail (rw here at h)) in
          rw (taken, off r) (ground (arith, none_active-update trade_id p f off rows rest))
      | inr miss ↦ elim (Bool-cases (p r)) [
        | inl changed ↦
            rw (changed, off r)
              (ground (arith, none_active-supersede trade_id p f off rows a (rw miss at h) hit))
        | inr kept ↦
            rw (kept, miss) (none_active-supersede trade_id p f off rows a (rw miss at h) hit)
      ]
    ]
