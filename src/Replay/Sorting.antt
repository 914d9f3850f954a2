-- ===== src/Replay/Sorting.antt =====
-- What `sort_by` in `canonicalize` of src/reconciliation_replay.rs keeps: the facts, their number and
-- their bytes.
use rhi.Replay.Canonical.{insert_fact, sort_facts, is_lt, compare_fact}
use rhi.Replay.Types.{ReplayFact}
use rhi.Base.{
  [], inl, inr, refl, suc, ◌∷◌, List, Contains, length, ℕ, ◌+◌, ◌↔◌, ◌≡◌, Bool-cases, arith,
  keep_head, ◌∙◌, ap, swap_heads,
}

abbrev pub total_bytes : List ReplayFact → ℕ
total_bytes [] = 0
total_bytes (fact ∷ facts) = fact.original_bytes + total_bytes facts

insert_fact-Contains :
    (c : ReplayFact) (facts : List ReplayFact) (x : ReplayFact)
    → Contains (insert_fact c facts) x ↔ Contains (c ∷ facts) x
insert_fact-Contains c [] x = (λ h. h, λ h. h)
insert_fact-Contains c (f ∷ facts) x = elim (Bool-cases (is_lt (compare_fact f c))) [
  | inr stays ↦ rw stays (λ h. h, λ h. h)
  | inl goes_on ↦
      let (down, up) = insert_fact-Contains c facts x in
      rw goes_on (
        λ h. swap_heads x f c facts (keep_head x f (insert_fact c facts) (c ∷ facts) down h),
        λ h. keep_head x f (c ∷ facts) (insert_fact c facts) up (swap_heads x c f facts h),
      )
]

insert_fact-length :
    (c : ReplayFact) (facts : List ReplayFact) → length (insert_fact c facts) ≡ suc (length facts)
insert_fact-length c [] = refl
insert_fact-length c (f ∷ facts) = ground (arith, insert_fact-length c facts)

insert_fact-total_bytes :
    (c : ReplayFact) (facts : List ReplayFact)
    → total_bytes (insert_fact c facts) ≡ c.original_bytes + total_bytes facts
insert_fact-total_bytes c [] = refl
insert_fact-total_bytes c (f ∷ facts) = ground (arith, insert_fact-total_bytes c facts)

pub sort_facts-Contains :
    (facts : List ReplayFact) (x : ReplayFact) → Contains (sort_facts facts) x ↔ Contains facts x
sort_facts-Contains [] x = (λ h. h, λ h. h)
sort_facts-Contains (c ∷ facts) x =
    let (down, up) = insert_fact-Contains c (sort_facts facts) x in
    let (rest_down, rest_up) = sort_facts-Contains facts x in
    (
      λ h. keep_head x c (sort_facts facts) facts rest_down (down h),
      λ h. up (keep_head x c facts (sort_facts facts) rest_up h),
    )

pub sort_facts-length : (facts : List ReplayFact) → length (sort_facts facts) ≡ length facts
sort_facts-length [] = refl
sort_facts-length (c ∷ facts) =
    insert_fact-length c (sort_facts facts) ∙ ap suc (sort_facts-length facts)

pub sort_facts-total_bytes :
    (facts : List ReplayFact) → total_bytes (sort_facts facts) ≡ total_bytes facts
sort_facts-total_bytes [] = refl
sort_facts-total_bytes (c ∷ facts) =
    insert_fact-total_bytes c (sort_facts facts)
    ∙ ap (λ n. c.original_bytes + n) (sort_facts-total_bytes facts)
