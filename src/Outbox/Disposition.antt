-- ===== src/Outbox/Disposition.antt =====
-- `disposition` of src/publication_execution.rs.
use mathlib.Core.Option.{some-injective}
use rhi.Outbox.Decisions.{
  next_required, is_accepted, some_blocking, all_accepted, target_is_blocking, disposition,
  complete_disposition, validate_targets, blocked_disposition, pending_disposition,
}
use rhi.Outbox.Types.{TargetRecord, OutboxRecord}
use rhi.Base.{
  ℕ, refl, [], none, some, true, false, ◌∷◌, List, All, ◌≡◌, ◌≤◌, arith, ◌⊎◌, inl, inr, Bool-cases,
  Option-cases, sym, ◌∙◌, ap, min, le_or_lt, subst, ok,
}

-- A required target asks for nothing, blocks, or has a next attempt.
abbrev pub Ready : ℕ → TargetRecord → Type 0
Ready max_attempts target =
    target.required ≡ true
    → (is_accepted target.state ≡ true)
      ⊎ (target_is_blocking target max_attempts ≡ true)
      ⊎ ((t : ℕ) × (target.next_attempt ≡ some t))

-- The time is the next attempt of some required target.
abbrev pub IsNextOf : ℕ → List TargetRecord → Type 0
IsNextOf t [] = ⊥
IsNextOf t (target ∷ targets) =
    ((target.required ≡ true) × (target.next_attempt ≡ some t)) ⊎ IsNextOf t targets

-- The time is no later than the next attempt of any required target.
abbrev pub IsBeforeNexts : ℕ → List TargetRecord → Type 0
IsBeforeNexts t =
    All (λ target. target.required ≡ true → (u : ℕ) → target.next_attempt ≡ some u → t ≤ u)

some_ne_none : {n : ℕ} → some n ≡ none → ⊥
some_ne_none h = cc

true_ne_false : true ≡ false → ⊥
true_ne_false h = cc

weaken :
    (t u : ℕ) (targets : List TargetRecord)
    → u ≤ t
    → IsBeforeNexts t targets
    → IsBeforeNexts u targets
weaken t u [] h b = tt
weaken t u (target ∷ targets) h b =
    (λ needed w e. omega (arith, b.0 needed w e), weaken t u targets h b.1)

next_required-none :
    (targets : List TargetRecord)
    → next_required targets ≡ none
    → All (λ target. target.required ≡ true → target.next_attempt ≡ none) targets
next_required-none [] h = tt
next_required-none (target ∷ targets) h = (ground arith, next_required-none targets (ground arith))

before_none :
    (t : ℕ) (targets : List TargetRecord)
    → All (λ target. target.required ≡ true → target.next_attempt ≡ none) targets
    → IsBeforeNexts t targets
before_none t [] n = tt
before_none t (target ∷ targets) n =
    (λ needed u e. absurd (some_ne_none (sym e ∙ n.0 needed)), before_none t targets n.1)

next_required-head :
    (target : TargetRecord) (targets : List TargetRecord) (a t : ℕ)
    → target.required ≡ true
    → target.next_attempt ≡ some a
    → next_required (target ∷ targets) ≡ some t
    → ((b : ℕ) → next_required targets ≡ some b → IsNextOf b targets × IsBeforeNexts b targets)
    → IsNextOf t (target ∷ targets) × IsBeforeNexts t (target ∷ targets)
next_required-head target targets a t needed at_a h rest =
    elim (Option-cases (next_required targets)) [
      | inl empty ↦
          let same : a ≡ t = some-injective _ _ (rw (needed, at_a, empty) at h) in
          (
            inl (needed, at_a ∙ ap (λ n. some n) same),
            (
              λ _ u e. omega (arith, some-injective _ _ (sym at_a ∙ e)),
              before_none t targets (next_required-none targets empty),
            ),
          )
      | inr (b, later) ↦
          let least_two : min a b ≡ t = some-injective _ _ (rw (needed, at_a, later) at h) in
          let (found, before) = rest b later in
          let bounded : IsBeforeNexts t (target ∷ targets) = (
            λ _ u e. omega (arith, some-injective _ _ (sym at_a ∙ e)),
            weaken b t targets (omega arith) before,
          ) in
          elim (le_or_lt a b) [
            | inl first ↦ (inl (needed, at_a ∙ ap (λ n. some n) (omega arith)), bounded)
            | inr second ↦ (inr (subst (λ n. IsNextOf n targets) (omega arith) found), bounded)
          ]
    ]

next_required-some :
    (targets : List TargetRecord) (t : ℕ)
    → next_required targets ≡ some t
    → IsNextOf t targets × IsBeforeNexts t targets
next_required-some [] t h = cc
next_required-some (target ∷ targets) t h = elim (Bool-cases target.required) [
  | inr optional ↦
      let (found, before) = next_required-some targets t (rw optional at h) in
      (inr found, (λ needed u e. absurd (true_ne_false (sym needed ∙ optional)), before))
  | inl needed ↦ elim (Option-cases target.next_attempt) [
    | inl idle ↦
        let (found, before) = next_required-some targets t (rw (needed, idle) at h) in
        (inr found, (λ _ u e. absurd (some_ne_none (sym e ∙ idle)), before))
    | inr (a, at_a) ↦
        next_required-head target targets a t needed at_a h (next_required-some targets)
  ]
]

not_done-nexts :
    (max_attempts : ℕ) (targets : List TargetRecord)
    → All (Ready max_attempts) targets
    → some_blocking max_attempts targets ≡ false
    → All (λ target. target.required ≡ true → target.next_attempt ≡ none) targets
    → all_accepted targets ≡ true
unfolding target_is_blocking
not_done-nexts max_attempts [] r b n = refl
not_done-nexts max_attempts (target ∷ targets) r b n =
    let rest = not_done-nexts max_attempts targets r.1 (ground arith) n.1 in
    elim (Bool-cases target.required) [
      | inr optional ↦ rw optional rest
      | inl needed ↦ elim (r.0 needed) [
        | inl done ↦ rw (needed, done) rest
        | inr (inl blocking) ↦ absurd (true_ne_false (rw (needed, blocking) at b))
        | inr (inr (t, next)) ↦ absurd (some_ne_none (sym next ∙ n.0 needed))
      ]
    ]

module _ (sha256 : List ℕ → ℕ) (outbox : OutboxRecord) (targets : List TargetRecord) where
  -- What becomes of the publication.
  abbrev pub Disposed : Type 0
  Disposed =
      ((all_accepted targets ≡ true)
        × (disposition sha256 outbox targets ≡ ok complete_disposition))
      ⊎ ((all_accepted targets ≡ false)
          × (some_blocking outbox.max_attempts targets ≡ true)
          × (disposition sha256 outbox targets ≡ ok blocked_disposition))
      ⊎ ((t : ℕ) × (all_accepted targets ≡ false)
          × (some_blocking outbox.max_attempts targets ≡ false)
          × (disposition sha256 outbox targets ≡ ok (pending_disposition t))
          × IsNextOf t targets
          × IsBeforeNexts t targets)

  -- For targets that pass `validate_targets`, each required one of them accepted, blocking or with
  -- a next attempt, `disposition` never fails: the publication is complete exactly if every
  -- required target is accepted, else blocked exactly if one is blocking, and else pending until
  -- the earliest next attempt of a required target.
  pub disposition-cases :
      validate_targets sha256 outbox targets ≡ ok tt
      → All (Ready outbox.max_attempts) targets
      → Disposed
  unfolding disposition
  disposition-cases checked_targets prepared = elim (Bool-cases (all_accepted targets)) [
    | inl done ↦ inl (done, rw (checked_targets, done))
    | inr open_targets ↦ elim (Bool-cases (some_blocking outbox.max_attempts targets)) [
      | inl stuck ↦ inr (inl (open_targets, stuck, rw (checked_targets, open_targets, stuck)))
      | inr free ↦ elim (Option-cases (next_required targets)) [
        | inl idle ↦ absurd (
            true_ne_false (
              sym (
                not_done-nexts outbox.max_attempts targets prepared free
                  (next_required-none targets idle))
              ∙ open_targets))
        | inr (t, next) ↦
            let (found, before) = next_required-some targets t next in
            inr (
              inr (
                t,
                open_targets,
                free,
                rw (checked_targets, open_targets, free, next),
                found,
                before,
              ))
      ]
    ]
  ]
