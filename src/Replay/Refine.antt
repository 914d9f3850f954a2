-- ===== src/Replay/Refine.antt =====
-- The maps of indexes in `canonicalize` of src/reconciliation_replay.rs stand for the facts they index.
use rhi.Replay.Loop.{
  fact_under, has_event, pushed, has_mutation, event_of, map_canonical, canonical_loop, observe_all,
  canonicalize, duplicate, no_facts, max_u32, with_canonical, agrees,
}
use rhi.Replay.Types.{ReplayFact, CanonicalReplay, ReplayError}
use rhi.Base.{
  [], none, some, false, inl, inr, ok, refl, ◌∷◌, List, Bool, get_elem?, ℕ, Option, find, ◌++◌, ◌≡◌,
  Bool-cases, length, some_ne_none, sym, ok-injective, true, err, find-push_none, get_elem?-length,
  Option-cases, err_ne_ok, get_elem?-push, find-push_some, ==_iff, arith, subst, map_err, ◌∙◌, ◌⊎◌,
  ◌+◌, leb, Result-cases, checked,
}
use rhi.Replay.Types.{signed_event_conflict, resource_limit}
use rhi.Replay.Canonical.{
  refused, out_of_bounds, Indexed, event_index, kept, mutation_index, sort_facts, same_event,
}

-- An index that stands for a search still does once a fact is pushed.
under-push :
    (p : ReplayFact → Bool) (facts : List ReplayFact) (c : ReplayFact) (index : Option ℕ)
    → fact_under index facts ≡ ok (find p facts)
    → (index ≡ none → p c ≡ false)
    → fact_under index (facts ++ (c ∷ [])) ≡ ok (find p (facts ++ (c ∷ [])))
under-push p facts c none h new =
    let missed = find-push_none p facts c (sym (ok-injective h)) in rw (missed, new refl) refl
under-push p facts c (some i) h new = elim (Option-cases (get_elem? facts i)) [
  | inl gone ↦
      let h' : err out_of_bounds ≡ ok (find p facts) = rw gone at h in absurd (err_ne_ok h')
  | inr (f, here) ↦
      let h' : ok (some f) ≡ ok (find p facts) = rw here at h in
      rw (get_elem?-push facts c f i here, find-push_some p facts c f (sym (ok-injective h'))) refl
]

-- The index of the pushed fact itself.
under-pushed :
    (p : ReplayFact → Bool) (facts : List ReplayFact) (c : ReplayFact)
    → find p facts ≡ none
    → p c ≡ true
    → fact_under (some (length facts)) (facts ++ (c ∷ [])) ≡ ok (find p (facts ++ (c ∷ [])))
under-pushed p facts c new hit =
    rw (get_elem?-length facts c, find-push_none p facts c new, hit) refl

-- Both maps stand for searches among the facts kept so far.
record Tracks (s : Indexed) : Type 0 where
  events :
      (id signature : ℕ)
      → fact_under (event_index id signature s.event_indexes) s.canonical.facts
        ≡ ok (find (has_event id signature) s.canonical.facts)
  mutations :
      (id : ℕ)
      → fact_under (mutation_index id s.mutation_indexes) s.canonical.facts
        ≡ ok (find (has_mutation id) s.canonical.facts)

has_event-keys :
    (id signature : ℕ) (c : ReplayFact)
    → has_event id signature c ≡ true
    → (c.persisted.event_id ≡ id) × (c.persisted.event_signature ≡ signature)
has_event-keys id signature c hit = (ground arith, ground arith)

events-pushed :
    (s : Indexed) (c : ReplayFact) (bytes : ℕ)
    → Tracks s
    → find (event_of c) s.canonical.facts ≡ none
    → (id signature : ℕ)
    → fact_under
        (event_index id signature (pushed c s (kept c bytes s.canonical)).event_indexes)
        (kept c bytes s.canonical).facts
      ≡ ok (find (has_event id signature) (kept c bytes s.canonical).facts)
events-pushed s c bytes t new id signature = elim (Bool-cases (has_event id signature c)) [
  | inl hit ↦
      let (same_id, same_signature) = has_event-keys id signature c hit in
      let absent : find (has_event id signature) s.canonical.facts ≡ none =
        subst (λ i. find (has_event i signature) s.canonical.facts ≡ none) same_id
          (subst (λ n. find (has_event c.persisted.event_id n) s.canonical.facts ≡ none)
            same_signature new) in
      rw hit (under-pushed (has_event id signature) s.canonical.facts c absent hit)
  | inr miss ↦ rw miss (
      under-push (has_event id signature) s.canonical.facts c
        (event_index id signature s.event_indexes) (t.events id signature) (λ _. miss))
]

still_other :
    (id : ℕ) (c : ReplayFact) (indexes : List (ℕ × ℕ)) (i : ℕ)
    → mutation_index c.persisted.mutation_id indexes ≡ some i
    → mutation_index id indexes ≡ none
    → has_mutation id c ≡ false
still_other id c indexes i known unknown = elim (Bool-cases (has_mutation id c)) [
  | inl hit ↦ absurd (
      some_ne_none (
        sym known
        ∙ (subst (λ k. mutation_index k indexes ≡ none)
            (sym ((==_iff c.persisted.mutation_id id).0 hit)) unknown)))
  | inr miss ↦ miss
]

mutations-pushed :
    (s : Indexed) (c : ReplayFact) (bytes : ℕ)
    → Tracks s
    → (id : ℕ)
    → fact_under
        (mutation_index id (pushed c s (kept c bytes s.canonical)).mutation_indexes)
        (kept c bytes s.canonical).facts
      ≡ ok (find (has_mutation id) (kept c bytes s.canonical).facts)
mutations-pushed s c bytes t id =
    elim (Option-cases (mutation_index c.persisted.mutation_id s.mutation_indexes)) [
      | inl fresh ↦ elim (Bool-cases (has_mutation id c)) [
        | inl hit ↦
            let same = (==_iff c.persisted.mutation_id id).0 hit in
            let absent : mutation_index id s.mutation_indexes ≡ none =
              subst (λ i. mutation_index i s.mutation_indexes ≡ none) same fresh in
            let found : ok none ≡ ok (find (has_mutation id) s.canonical.facts) =
              rw absent at (t.mutations id) in
            rw (fresh, hit)
              (under-pushed (has_mutation id) s.canonical.facts c (sym (ok-injective found)) hit)
        | inr miss ↦
            rw (fresh, miss)
              (under-push (has_mutation id) s.canonical.facts c
                (mutation_index id s.mutation_indexes) (t.mutations id) (λ _. miss))
      ]
      | inr (i, known) ↦ rw known (
          under-push (has_mutation id) s.canonical.facts c (mutation_index id s.mutation_indexes)
            (t.mutations id) (λ unknown. still_other id c s.mutation_indexes i known unknown))
    ]

pushed-Tracks :
    (s : Indexed) (c : ReplayFact) (bytes : ℕ)
    → Tracks s
    → find (event_of c) s.canonical.facts ≡ none
    → Tracks (pushed c s (kept c bytes s.canonical))
pushed-Tracks s c bytes t new = record {
  events = events-pushed s c bytes t new;
  mutations = mutations-pushed s c bytes t;
}

-- A duplicate changes the count of duplicates only.
duplicate-cases :
    (found c : ReplayFact) (canonical : CanonicalReplay)
    → ((e : ReplayError) × (duplicate found c canonical ≡ err e))
      ⊎ (duplicate found c canonical
          ≡ ok (record canonical { duplicate_observations = canonical.duplicate_observations + 1 }))
duplicate-cases found c canonical = elim (Bool-cases (same_event found.persisted c.persisted)) [
  | inr differs ↦ inl (signed_event_conflict, rw differs refl)
  | inl same ↦ elim (Bool-cases (leb (canonical.duplicate_observations + 1) max_u32)) [
    | inl fits ↦ inr (rw (same, fits) refl)
    | inr over ↦ inl (resource_limit, rw (same, over) refl)
  ]
]

-- The loop with the maps is the loop that searches.
loop-observe_all :
    (candidates : List ReplayFact) (s : Indexed)
    → Tracks s
    → map_canonical (canonical_loop candidates s)
      ≡ map_err refused (observe_all candidates s.canonical)
loop-observe_all [] s t = refl
loop-observe_all (c ∷ candidates) s t = elim (Option-cases (find (event_of c) s.canonical.facts)) [
  | inr (found, at) ↦ elim (duplicate-cases found c s.canonical) [
    | inl (e, fails) ↦
        rw (t.events c.persisted.event_id c.persisted.event_signature, at, fails) refl
    | inr passes ↦
        rw (t.events c.persisted.event_id c.persisted.event_signature, at, passes)
          (loop-observe_all candidates
            (with_canonical s (record s.canonical {
              duplicate_observations = s.canonical.duplicate_observations + 1;
            }))
            (record { events = t.events; mutations = t.mutations }))
  ]
  | inl new ↦
      elim (Result-cases
        (agrees (find (has_mutation c.persisted.mutation_id) s.canonical.facts) c)) [
          | inr (e, fails) ↦
              rw
                (
                  t.events c.persisted.event_id c.persisted.event_signature,
                  new,
                  t.mutations c.persisted.mutation_id,
                  fails,
                )
                refl
          | inl (_, passes) ↦
              elim (Option-cases
                (checked (s.canonical.accepted_original_bytes + c.original_bytes))) [
                  | inl over ↦
                      rw
                        (
                          t.events c.persisted.event_id c.persisted.event_signature,
                          new,
                          t.mutations c.persisted.mutation_id,
                          passes,
                          over,
                        )
                        refl
                  | inr (bytes, fits) ↦
                      rw
                        (
                          t.events c.persisted.event_id c.persisted.event_signature,
                          new,
                          t.mutations c.persisted.mutation_id,
                          passes,
                          fits,
                        )
                        (loop-observe_all candidates (pushed c s (kept c bytes s.canonical))
                          (pushed-Tracks s c bytes t new))
                ]
        ]
]

-- `canonicalize` with its two maps of indexes is the loop that searches the facts kept so far: no
-- index is out of bounds, and every result and error is the same.
pub canonicalize-observe_all :
    (candidates : List ReplayFact)
    → canonicalize candidates ≡ map_err refused (observe_all (sort_facts candidates) no_facts)
unfolding canonicalize
canonicalize-observe_all candidates =
    loop-observe_all (sort_facts candidates)
      (record { event_indexes = []; mutation_indexes = []; canonical = no_facts })
      (record { events = λ _ _. refl; mutations = λ _. refl })
