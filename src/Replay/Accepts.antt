-- ===== src/Replay/Accepts.antt =====
-- Which candidates `canonicalize` of src/reconciliation_replay.rs accepts, and what it makes of them.
use rhi.Replay.Seen.{seen_after, seen_after-Contains, seen_after-length, seen_after-total_bytes}
use rhi.Replay.Refine.{canonicalize-observe_all}
use rhi.Replay.Cases.{Refuses, LoopOutcome, observe_fact-LoopOutcome}
use rhi.Replay.Same.{event_key, mutation_part}
use rhi.Replay.Sorting.{total_bytes, sort_facts-Contains, sort_facts-length, sort_facts-total_bytes}
use rhi.Replay.Types.{ReplayFact, CanonicalReplay, PersistenceRecord, ReplayError}
use rhi.Replay.Marks.{Marks}
use rhi.Replay.Loop.{no_facts, canonicalize, max_u32, observe_all}
use rhi.Base.{
  [], inl, inr, ok, err, refl, ◌∷◌, List, arith, some_ne_none, Contains, length, sym, ◌↔◌, ◌≡◌, ◌≤◌,
  ℕ, ◌∙◌, ◌⊎◌, ap, max_u64, err_ne_ok, map_err, subst, ok-injective,
}
use rhi.Replay.Keeping.{KeepsFacts, part}
use rhi.Replay.Canonical.{refused, sort_facts}

Refuses-grow :
    (xs ys : List ReplayFact)
    → ((y : ReplayFact) → Contains xs y → Contains ys y)
    → length xs ≤ length ys
    → total_bytes xs ≤ total_bytes ys
    → (e : ReplayError) → Refuses xs e
    → Refuses ys e
Refuses-grow xs ys into shorter lighter e (inl (why, (a, b, in_a, in_b, same, differ))) =
    inl (why, (a, b, into a in_a, into b in_b, same, differ))
Refuses-grow xs ys into shorter lighter e (inr (inl (why, (a, b, in_a, in_b, same, differ)))) =
    inr (inl (why, (a, b, into a in_a, into b in_b, same, differ)))
Refuses-grow xs ys into shorter lighter e (inr (inr (why, inl many))) =
    inr (inr (why, inl (omega arith)))
Refuses-grow xs ys into shorter lighter e (inr (inr (why, inr heavy))) =
    inr (inr (why, inr (omega arith)))

Keeps_on :
    (xs ys : List ReplayFact) (c : CanonicalReplay)
    → ((y : ReplayFact) → Contains xs y ↔ Contains ys y)
    → length xs ≡ length ys
    → total_bytes xs ≡ total_bytes ys
    → KeepsFacts xs c
    → KeepsFacts ys c
Keeps_on xs ys c same long heavy k = record {
  from_seen = λ f h. (same f).0 (k.from_seen f h);
  covers = λ x h. k.covers x ((same x).1 h);
  unique = k.unique;
  once = k.once;
  agreed = k.agreed;
  number = k.number ∙ long;
  bytes = k.bytes;
  bytes_le = omega (arith, k.bytes_le);
}

observe_all-LoopOutcome :
    (candidates seen : List ReplayFact) (c : CanonicalReplay)
    → KeepsFacts seen c
    → Marks c
    → LoopOutcome (seen_after candidates seen) (observe_all candidates c)
observe_all-LoopOutcome [] seen c k m = inl (c, refl, k, m)
observe_all-LoopOutcome (x ∷ candidates) seen c k m = elim (observe_fact-LoopOutcome seen c x k m) [
  | inl (c', e', k', m') ↦ rw e' (observe_all-LoopOutcome candidates (x ∷ seen) c' k' m')
  | inr (e, fails, why) ↦ inr (
    e,
    rw fails refl,
    Refuses-grow (x ∷ seen) (seen_after candidates (x ∷ seen))
        (λ y h. (seen_after-Contains candidates (x ∷ seen) y).1 (inr h))
        (omega (arith, seen_after-length candidates (x ∷ seen)))
        (omega (arith, seen_after-total_bytes candidates (x ∷ seen))) e why,
  )
]

no_facts-KeepsFacts : KeepsFacts [] no_facts
no_facts-KeepsFacts = record {
  from_seen = λ f h. h;
  covers = λ x h. absurd h;
  unique = λ f g h. absurd h;
  once = λ f h. absurd h;
  agreed = λ f g h. absurd h;
  number = refl;
  bytes = refl;
  bytes_le = omega arith;
}

no_facts-Marks : Marks no_facts
no_facts-Marks = record {
  cursor = λ f h. absurd h;
  cursor_from = λ k h. absurd (some_ne_none (sym h));
  first = λ f h. absurd h;
  first_from = λ t h. absurd (some_ne_none (sym h));
}

-- The whole list of candidates, as the loop has seen it at its end.
all_seen-Contains :
    (cs : List ReplayFact) (y : ReplayFact)
    → Contains (seen_after (sort_facts cs) []) y ↔ Contains cs y
all_seen-Contains cs y =
    let (down, up) = seen_after-Contains (sort_facts cs) [] y in
    let (sorted_down, sorted_up) = sort_facts-Contains cs y in
    (
      λ h. elim (down h) [ inl here ↦ sorted_down here | inr nowhere ↦ absurd nowhere ],
      λ h. up (inl (sorted_up h)),
    )

all_seen-length : (cs : List ReplayFact) → length (seen_after (sort_facts cs) []) ≡ length cs
all_seen-length cs = omega (arith, seen_after-length (sort_facts cs) [], sort_facts-length cs)

all_seen-total_bytes :
    (cs : List ReplayFact) → total_bytes (seen_after (sort_facts cs) []) ≡ total_bytes cs
all_seen-total_bytes cs =
    omega (arith, seen_after-total_bytes (sort_facts cs) [], sort_facts-total_bytes cs)

-- `canonicalize` either keeps one fact for each event of the candidates, all of one mutation the
-- same in it, with the number of the others, the bytes, the greatest cursor and the least
-- observation of the facts kept; or it reports an event conflict, a mutation conflict or a
-- resource limit, and the candidates have two that conflict in that way, or are too many or too
-- large.
pub canonicalize-cases :
    (cs : List ReplayFact)
    → ((c : CanonicalReplay) × (canonicalize cs ≡ ok c) × KeepsFacts cs c × Marks c)
      ⊎ ((e : ReplayError) × (canonicalize cs ≡ err (refused e)) × Refuses cs e)
canonicalize-cases cs =
    elim (observe_all-LoopOutcome (sort_facts cs) [] no_facts no_facts-KeepsFacts no_facts-Marks) [
      | inl (c, e, k, m) ↦ inl (
        c,
        canonicalize-observe_all cs ∙ ap (map_err refused) e,
        Keeps_on (seen_after (sort_facts cs) []) cs c (all_seen-Contains cs) (all_seen-length cs)
            (all_seen-total_bytes cs) k,
        m,
      )
      | inr (e, fails, why) ↦ inr (
        e,
        canonicalize-observe_all cs ∙ ap (map_err refused) fails,
        Refuses-grow (seen_after (sort_facts cs) []) cs (λ y h. (all_seen-Contains cs y).0 h)
            (omega (arith, all_seen-length cs)) (omega (arith, all_seen-total_bytes cs)) e why,
      )
    ]

pub canonicalize-ok :
    (cs : List ReplayFact) (c : CanonicalReplay)
    → canonicalize cs ≡ ok c
    → KeepsFacts cs c × Marks c
canonicalize-ok cs c e = elim (canonicalize-cases cs) [
  | inl (c', e', k, m) ↦ subst (λ z. KeepsFacts cs z × Marks z) (ok-injective (sym e' ∙ e)) (k, m)
  | inr (_, fails, _) ↦ absurd (err_ne_ok (sym fails ∙ e))
]

-- Candidates that share an event are the same record, and those that share a mutation the same in it.
abbrev pub Consistent : List ReplayFact → Type 0
Consistent cs =
    (a b : ReplayFact)
    → Contains cs a
    → Contains cs b
    → (event_key a ≡ event_key b → a.persisted ≡ b.persisted)
      × (a.persisted.mutation_id ≡ b.persisted.mutation_id → part a ≡ part b)

KeepsFacts-Consistent :
    (cs : List ReplayFact) (c : CanonicalReplay) → KeepsFacts cs c → Consistent cs
KeepsFacts-Consistent cs c k a b in_a in_b =
    let (f, in_f, e_f) = k.covers a in_a in
    let (g, in_g, e_g) = k.covers b in_b in
    (
      λ keys.
          let same = k.unique f g in_f in_g (ap key_of e_f ∙ keys ∙ ap key_of (sym e_g)) in
          sym e_f ∙ ap (λ (z : ReplayFact). z.persisted) same ∙ e_g,
      λ ids.
          ap mutation_part (sym e_f)
          ∙ k.agreed f g in_f in_g (
              ap (λ (r : PersistenceRecord). r.mutation_id) e_f
              ∙ ids
              ∙ ap (λ (r : PersistenceRecord). r.mutation_id) (sym e_g))
          ∙ ap mutation_part e_g,
    )
  where
    key_of : PersistenceRecord → ℕ × ℕ
    key_of r = (r.event_id, r.event_signature)

-- For at most 2^32 - 1 candidates of at most 2^64 - 1 bytes together, `canonicalize` succeeds
-- exactly if any two candidates of one event id and signature are the same record, and any two of
-- one mutation id are the same in what `same_mutation` compares.
pub canonicalize-accepts :
    (cs : List ReplayFact)
    → length cs ≤ max_u32
    → total_bytes cs ≤ max_u64
    → ((c : CanonicalReplay) × (canonicalize cs ≡ ok c)) ↔ Consistent cs
canonicalize-accepts cs short light = elim (canonicalize-cases cs) [
  | inl (c, e, k, m) ↦ (λ _. KeepsFacts-Consistent cs c k, λ _. (c, e))
  | inr (e, fails, why) ↦
      (λ (c, passes). absurd (err_ne_ok (sym fails ∙ passes)), λ h. absurd (consistent e why h))
]
  where
    consistent : (e : ReplayError) → Refuses cs e → Consistent cs → ⊥
    consistent e (inl (_, (a, b, in_a, in_b, keys, differ))) h = differ ((h a b in_a in_b).0 keys)
    consistent e (inr (inl (_, (a, b, in_a, in_b, ids, differ)))) h =
        differ ((h a b in_a in_b).1 ids)
    consistent e (inr (inr (_, inl many))) h = omega arith
    consistent e (inr (inr (_, inr heavy))) h = omega arith
