-- ===== src/Replay/Cases.antt =====
-- What `canonicalize` of src/reconciliation_replay.rs gives for any candidates.
use rhi.Replay.Canonical.{same_event, kept, same_mutation}
use rhi.Replay.Marks.{Marks, Marks-push}
use rhi.Replay.Sorting.{total_bytes}
use rhi.Replay.Keeping.{part, KeepsFacts, KeepsFacts-push, KeepsFacts-duplicate}
use rhi.Replay.Same.{event_key, mutation_part, event_of_iff, same_event_equal, same_mutation_iff}
use rhi.Replay.Loop.{max_u32, observe_fact, event_of, duplicate, accept, has_mutation}
use rhi.Base.{
  none, some, inl, inr, ok, err, refl, ◌∷◌, List, Contains, Result, max_u64, ◌<◌, ◌≡◌, length, ◌≢◌,
  ◌⊎◌, find, Option-cases, find-Contains, subst, Bool-cases, sym, leb, ◌+◌, arith, true_ne_false,
  ==_iff, above, ◌∙◌, find-none,
}
use rhi.Replay.Keeping.{KeepsFacts}
use rhi.Replay.Types.{
  resource_limit, mutation_conflict, signed_event_conflict, ReplayFact, CanonicalReplay,
  ReplayError,
}

-- Two candidates that share an event or a mutation and are not the same in it.
abbrev pub EventConflict : List ReplayFact → Type 0
EventConflict cs =
    (a : ReplayFact) × (b : ReplayFact) × Contains cs a
    × Contains cs b
    × (event_key a ≡ event_key b)
    × (a.persisted ≢ b.persisted)

abbrev pub MutationConflict : List ReplayFact → Type 0
MutationConflict cs =
    (a : ReplayFact) × (b : ReplayFact) × Contains cs a
    × Contains cs b
    × (a.persisted.mutation_id ≡ b.persisted.mutation_id)
    × (part a ≢ part b)

abbrev pub TooMuch : List ReplayFact → Type 0
TooMuch cs = (max_u32 < length cs) ⊎ (max_u64 < total_bytes cs)

-- Why the loop refuses.
abbrev pub Refuses : List ReplayFact → ReplayError → Type 0
Refuses cs e =
    ((e ≡ signed_event_conflict) × EventConflict cs)
    ⊎ ((e ≡ mutation_conflict) × MutationConflict cs)
    ⊎ ((e ≡ resource_limit) × TooMuch cs)

abbrev pub LoopOutcome : List ReplayFact → Result ReplayError CanonicalReplay → Type 0
LoopOutcome seen r =
    ((c : CanonicalReplay) × (r ≡ ok c) × KeepsFacts seen c × Marks c)
    ⊎ ((e : ReplayError) × (r ≡ err e) × Refuses seen e)

module _ (seen : List ReplayFact) (c : CanonicalReplay) (x : ReplayFact) (k : KeepsFacts seen c)
    (m : Marks c) where
  duplicate-LoopOutcome :
      (found : ReplayFact)
      → find (event_of x) c.facts ≡ some found
      → LoopOutcome (x ∷ seen) (duplicate found x c)
  duplicate-LoopOutcome found at =
      let (in_found, hit) = find-Contains (event_of x) c.facts found at in
      let key = (event_of_iff x found).0 hit in
      elim (Bool-cases (same_event found.persisted x.persisted)) [
        | inr differs ↦ inr (
          signed_event_conflict,
          rw differs refl,
          inl (
            refl,
            (
              found,
              x,
              inr (k.from_seen found in_found),
              inl refl,
              key,
              λ e.
                  true_ne_false
                    (sym ((same_event_equal found.persisted x.persisted).1 e) ∙ differs),
            ),
          ),
        )
        | inl same ↦ elim (Bool-cases (leb (c.duplicate_observations + 1) max_u32)) [
          | inl fits ↦ inl (
            record c { duplicate_observations = c.duplicate_observations + 1 },
            rw (same, fits) refl,
            KeepsFacts-duplicate seen c found x k in_found
                ((same_event_equal found.persisted x.persisted).0 same),
            record {
              cursor = m.cursor;
              cursor_from = m.cursor_from;
              first = m.first;
              first_from = m.first_from;
            },
          )
          | inr over ↦ inr (
            resource_limit,
            rw (same, over) refl,
            inr (
                inr (
                  refl,
                  inl (omega (arith, k.number, above (c.duplicate_observations + 1) max_u32 over)),
                )),
          )
        ]
      ]

  accept-LoopOutcome :
      find (event_of x) c.facts ≡ none
      → ((f : ReplayFact)
          → Contains c.facts f
          → f.persisted.mutation_id ≡ x.persisted.mutation_id
          → mutation_part f.persisted ≡ mutation_part x.persisted)
      → LoopOutcome (x ∷ seen) (accept x c)
  accept-LoopOutcome new same =
      elim (Bool-cases (leb (c.accepted_original_bytes + x.original_bytes) max_u64)) [
        | inl fits ↦ inl (
          kept x (c.accepted_original_bytes + x.original_bytes) c,
          rw fits refl,
          KeepsFacts-push seen c x k new same (c.accepted_original_bytes + x.original_bytes) refl,
          Marks-push c x (c.accepted_original_bytes + x.original_bytes) m,
        )
        | inr over ↦ inr (
          resource_limit,
          rw over refl,
          inr (
              inr (
                refl,
                inr (
                    omega (
                      arith,
                      k.bytes,
                      k.bytes_le,
                      above (c.accepted_original_bytes + x.original_bytes) max_u64 over,
                    )),
              )),
        )
      ]

  -- With a kept fact of the mutation, all kept facts of it are the same in it.
  new-LoopOutcome :
      find (event_of x) c.facts ≡ none → LoopOutcome (x ∷ seen) (observe_fact none x c)
  new-LoopOutcome new = elim (Option-cases (find (has_mutation x.persisted.mutation_id) c.facts)) [
    | inl absent ↦ rw absent (
        accept-LoopOutcome new (λ f in_f e. absurd (
          true_ne_false (
            sym ((==_iff f.persisted.mutation_id x.persisted.mutation_id).1 e)
            ∙ find-none (has_mutation x.persisted.mutation_id) c.facts f absent in_f))))
    | inr (g, at) ↦
        let (in_g, hit) = find-Contains (has_mutation x.persisted.mutation_id) c.facts g at in
        let one_id = (==_iff g.persisted.mutation_id x.persisted.mutation_id).0 hit in
        elim (Bool-cases (same_mutation g.persisted x.persisted)) [
          | inr differs ↦ inr (
            mutation_conflict,
            rw (at, differs) refl,
            inr (
                inl (
                  refl,
                  (
                    g,
                    x,
                    inr (k.from_seen g in_g),
                    inl refl,
                    one_id,
                    λ e.
                        true_ne_false
                          (sym ((same_mutation_iff g.persisted x.persisted).1 e) ∙ differs),
                  ),
                )),
          )
          | inl same ↦
              rw (at, same)
                (accept-LoopOutcome new (λ f in_f e.
                  k.agreed f g in_f in_g (e ∙ sym one_id)
                  ∙ (same_mutation_iff g.persisted x.persisted).0 same))
        ]
  ]

  pub observe_fact-LoopOutcome :
      LoopOutcome (x ∷ seen) (observe_fact (find (event_of x) c.facts) x c)
  observe_fact-LoopOutcome = elim (Option-cases (find (event_of x) c.facts)) [
    | inr (found, at) ↦
        subst (λ o. LoopOutcome (x ∷ seen) (observe_fact o x c)) (sym at)
          (duplicate-LoopOutcome found at)
    | inl new ↦
        subst (λ o. LoopOutcome (x ∷ seen) (observe_fact o x c)) (sym new) (new-LoopOutcome new)
  ]
