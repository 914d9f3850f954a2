-- ===== src/Replay/Ingest.antt =====
-- The bounds that `ingest_bounded_facts` of src/reconciliation_replay.rs keeps.
use rhi.Replay.Sorting.{total_bytes}
use rhi.Replay.Finish.{ingest_bounded_facts, ingest_loop}
use rhi.Base.{
  [], true, false, ok, err, refl, zero, suc, ◌∷◌, List, ℕ, Result, length, ◌++◌, ◌≤◌, map, max_u64,
  take, ◌<◌, ◌≡◌, ap, arith, ◌+◌, ◌↔◌, cons_ne_nil, cons_head, min, sym, cons_tail, ok-injective,
  subst, ◌==◌, leb, ◌∙◌, and_then-ok, refuse, err_ne_ok, ok_or, keep, checked,
}
use rhi.Replay.Types.{ReplayError, resource_limit, ReplayFact}

abbrev pub all_ok : List ReplayFact → List (Result ReplayError ReplayFact)
all_ok facts = map ok facts

push_append : (xs ys : List ReplayFact) (x : ReplayFact) → (xs ++ (x ∷ [])) ++ ys ≡ xs ++ (x ∷ ys)
push_append [] ys x = refl
push_append (z ∷ xs) ys x = ap (λ l. z ∷ l) (push_append xs ys x)

append_nil : (xs : List ReplayFact) → xs ++ [] ≡ xs
append_nil [] = refl
append_nil (z ∷ xs) = ap (λ l. z ∷ l) (append_nil xs)

pushed_length : (xs : List ReplayFact) (x : ReplayFact) → length (xs ++ (x ∷ [])) ≡ length xs + 1
pushed_length [] x = omega arith
pushed_length (z ∷ xs) x = omega (arith, pushed_length xs x)

module _ (m b : ℕ) (fits : b ≤ max_u64) where
  -- What the loop returns is every fact, all of them in bounds.
  ingest_loop-ok :
      (facts : List (Result ReplayError ReplayFact)) (bytes : ℕ)
      (bounded kept_facts : List ReplayFact)
      → length bounded ≤ m
      → bytes ≤ b
      → ingest_loop m b facts bytes bounded ≡ ok kept_facts
      → (xs : List ReplayFact) × (facts ≡ all_ok xs)
        × (kept_facts ≡ bounded ++ xs)
        × (length bounded + length xs ≤ m)
        × (bytes + total_bytes xs ≤ b)
  ingest_loop-ok [] bytes bounded kept_facts few light e =
      ([], refl, sym (ok-injective e) ∙ sym (append_nil bounded), omega arith, omega arith)
  ingest_loop-ok (err why ∷ facts) bytes bounded kept_facts few light e =
      let (_, _, e1) = and_then-ok (refuse (length bounded == m) resource_limit) e in
      absurd (err_ne_ok e1)
  ingest_loop-ok (ok fact ∷ facts) bytes bounded kept_facts few light e =
      let (_, room, e1) = and_then-ok (refuse (length bounded == m) resource_limit) e in
      let (sum, sums, e2) =
        and_then-ok
          (ok_or (keep (λ value. leb value b) (checked (bytes + fact.original_bytes)))
            resource_limit)
          e1 in
      let below : length bounded < m = ground arith in
      let (is_sum, light') = summed (bytes + fact.original_bytes) sum sums in
      let (xs, all, parts, few', light'') =
        ingest_loop-ok facts sum (bounded ++ (fact ∷ [])) kept_facts
          (omega (arith, pushed_length bounded fact)) light' e2 in
      (
        fact ∷ xs,
        ap (λ l. ok fact ∷ l) all,
        parts ∙ push_append bounded xs fact,
        omega (arith, pushed_length bounded fact),
        omega arith,
      )
    where
      summed :
          (n sum : ℕ)
          → ok_or (keep (λ value. leb value b) (checked n)) resource_limit ≡ ok sum
          → (sum ≡ n) × (sum ≤ b)
      summed n sum h = (ground arith, ground arith)

  ingest_loop-all_ok :
      (xs : List ReplayFact) (bytes : ℕ) (bounded : List ReplayFact)
      → length bounded + length xs ≤ m
      → bytes + total_bytes xs ≤ b
      → ingest_loop m b (all_ok xs) bytes bounded ≡ ok (bounded ++ xs)
  ingest_loop-all_ok [] bytes bounded few light = ap ok (sym (append_nil bounded))
  ingest_loop-all_ok (x ∷ xs) bytes bounded few light =
      let room : (length bounded == m) ≡ false = ground arith in
      let small : leb (bytes + x.original_bytes) max_u64 ≡ true = ground arith in
      let lighter : leb (bytes + x.original_bytes) b ≡ true = ground arith in
      rw (room, small, lighter)
        (ingest_loop-all_ok xs (bytes + x.original_bytes) (bounded ++ (x ∷ []))
            (omega (arith, pushed_length bounded x)) (omega arith)
          ∙ ap ok (push_append bounded xs x))

take_short :
    (n : ℕ) (xs : List ReplayFact) (facts : List (Result ReplayError ReplayFact))
    → take n facts ≡ all_ok xs
    → length xs < n
    → facts ≡ all_ok xs
take_short zero xs facts e short = absurd (omega arith)
take_short (suc n) xs [] e short = e
take_short (suc n) [] (fact ∷ facts) e short = absurd (cons_ne_nil fact (take n facts) e)
take_short (suc n) (x ∷ xs) (fact ∷ facts) e short =
    let heads : fact ≡ ok x = cons_head e in
    let tails = take_short n xs facts (cons_tail e) (omega arith) in rw (heads, tails) refl

take-all_ok : (n : ℕ) (xs : List ReplayFact) → length xs ≤ n → take n (all_ok xs) ≡ all_ok xs
take-all_ok zero [] short = refl
take-all_ok zero (x ∷ xs) short = absurd (omega arith)
take-all_ok (suc n) [] short = refl
take-all_ok (suc n) (x ∷ xs) short = ap (λ l. ok x ∷ l) (take-all_ok n xs (omega arith))

-- With bounds that fit 64 bits, `ingest_bounded_facts` returns a list exactly if the facts are
-- that list without an error, in order, no more than the bound on events and with no more bytes
-- than the bound on bytes.
pub ingest_bounded_facts_iff :
    (facts : List (Result ReplayError ReplayFact)) (m b : ℕ) (xs : List ReplayFact)
    → m < max_u64
    → b ≤ max_u64
    → (ingest_bounded_facts facts m b ≡ ok xs)
      ↔ ((facts ≡ all_ok xs) × (length xs ≤ m) × (total_bytes xs ≤ b))
unfolding ingest_bounded_facts
ingest_bounded_facts_iff facts m b xs small fits = (
  λ e.
      let (ys, all, same, few, light) =
        ingest_loop-ok m b fits (take (min (m + 1) max_u64) facts) 0 [] xs (omega arith)
          (omega arith) e in
      let few' : length xs ≤ m = subst (λ l. length l ≤ m) (sym same) (omega arith) in
      let light' : total_bytes xs ≤ b = subst (λ l. total_bytes l ≤ b) (sym same) (omega arith) in
      (
        take_short (min (m + 1) max_u64) xs facts (all ∙ ap all_ok (sym same)) (omega arith),
        few',
        light',
      ),
  λ (all, few, light).
      rw (all, take-all_ok (min (m + 1) max_u64) xs (omega arith))
        (ingest_loop-all_ok m b fits xs 0 [] (omega arith) (omega arith)),
)
