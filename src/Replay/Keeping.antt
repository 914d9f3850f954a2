-- ===== src/Replay/Keeping.antt =====
-- What the loop of `canonicalize` in src/reconciliation_replay.rs has kept of the candidates it has seen.
use rhi.Replay.Canonical.{kept}
use rhi.Replay.Same.{event_key, mutation_part, event_of_iff}
use rhi.Replay.Loop.{event_of}
use rhi.Replay.Sorting.{total_bytes}
use rhi.Replay.Types.{ReplayFact, CanonicalReplay}
use rhi.Base.{
  [], none, some, inl, inr, refl, suc, ◌∷◌, List, Bool, length, Contains, count, find, ◌++◌, ◌≡◌,
  Bool-cases, ap, ◌+◌, arith, if◌then◌else◌, some_ne_none, ◌∙◌, ◌≢◌, ◌≤◌, ◌⊎◌, find-none, sym,
  subst, ℕ, Contains-pushed, pushed_Contains, Contains-push,
}

abbrev pub part : ReplayFact → ℕ × ℕ × List ℕ × ℕ × ℕ × ℕ × List ℕ
part f = mutation_part f.persisted

-- What the facts kept are to the candidates seen, with nothing said of cursors and times.
pub record KeepsFacts (seen : List ReplayFact) (c : CanonicalReplay) : Type 0 where
  pub from_seen : (f : ReplayFact) → Contains c.facts f → Contains seen f
  pub covers :
      (x : ReplayFact)
      → Contains seen x
      → (f : ReplayFact) × Contains c.facts f × (f.persisted ≡ x.persisted)
  pub unique :
      (f g : ReplayFact)
      → Contains c.facts f
      → Contains c.facts g
      → event_key f ≡ event_key g
      → f ≡ g
  pub once : (f : ReplayFact) → Contains c.facts f → count (event_of f) c.facts ≡ 1
  pub agreed :
      (f g : ReplayFact)
      → Contains c.facts f
      → Contains c.facts g
      → f.persisted.mutation_id ≡ g.persisted.mutation_id
      → mutation_part f.persisted ≡ mutation_part g.persisted
  pub number : length c.facts + c.duplicate_observations ≡ length seen
  pub bytes : c.accepted_original_bytes ≡ total_bytes c.facts
  pub bytes_le : total_bytes c.facts ≤ total_bytes seen

count-push :
    (p : ReplayFact → Bool) (facts : List ReplayFact) (x : ReplayFact)
    → count p (facts ++ (x ∷ [])) ≡ count p facts + (if p x then 1 else 0)
count-push p [] x = ground arith
count-push p (f ∷ facts) x = ground (arith, count-push p facts x)

count-find :
    (p : ReplayFact → Bool) (facts : List ReplayFact) → find p facts ≡ none → count p facts ≡ 0
count-find p [] h = refl
count-find p (f ∷ facts) h = elim (Bool-cases (p f)) [
  | inl hit ↦ let h' : some f ≡ none = rw hit at h in absurd (some_ne_none h')
  | inr miss ↦ let h' : find p facts ≡ none = rw miss at h in rw miss (count-find p facts h')
]

length-push :
    (facts : List ReplayFact) (x : ReplayFact) → length (facts ++ (x ∷ [])) ≡ suc (length facts)
length-push [] x = refl
length-push (f ∷ facts) x = ap suc (length-push facts x)

total_bytes-push :
    (facts : List ReplayFact) (x : ReplayFact)
    → total_bytes (facts ++ (x ∷ [])) ≡ total_bytes facts + x.original_bytes
total_bytes-push [] x = omega arith
total_bytes-push (f ∷ facts) x = omega (arith, total_bytes-push facts x)

-- A duplicate of a kept fact.
pub KeepsFacts-duplicate :
    (seen : List ReplayFact) (c : CanonicalReplay) (found x : ReplayFact)
    → KeepsFacts seen c
    → Contains c.facts found
    → found.persisted ≡ x.persisted
    → KeepsFacts (x ∷ seen) (record c { duplicate_observations = c.duplicate_observations + 1 })
KeepsFacts-duplicate seen c found x k here same = record {
  from_seen = λ f kept_f. inr (k.from_seen f kept_f);
  covers = λ y seen_y. elim seen_y [
    | inl now ↦ (found, here, same ∙ ap (λ (z : ReplayFact). z.persisted) now)
    | inr before ↦ k.covers y before
  ];
  unique = k.unique;
  once = k.once;
  agreed = k.agreed;
  number = omega (arith, k.number);
  bytes = k.bytes;
  bytes_le = omega (arith, k.bytes_le);
}

-- A candidate with a new event, whose mutation agrees with those kept.
module _ (seen : List ReplayFact) (c : CanonicalReplay) (x : ReplayFact)
    (k : KeepsFacts seen c) where
  module _ (new : find (event_of x) c.facts ≡ none)
      (same : (f : ReplayFact)
        → Contains c.facts f
        → f.persisted.mutation_id ≡ x.persisted.mutation_id
        → mutation_part f.persisted ≡ mutation_part x.persisted) where
    other_key : (f : ReplayFact) → Contains c.facts f → event_key f ≢ event_key x
    other_key f here e =
        let away = find-none (event_of x) c.facts f new here in
        let hit = (event_of_iff x f).1 e in cc

    unique-push :
        (f g : ReplayFact)
        → (x ≡ f) ⊎ Contains c.facts f
        → (x ≡ g) ⊎ Contains c.facts g
        → event_key f ≡ event_key g
        → f ≡ g
    unique-push f g (inl at_f) (inl at_g) e = sym at_f ∙ at_g
    unique-push f g (inl at_f) (inr in_g) e =
        absurd (other_key g in_g (sym e ∙ ap event_key (sym at_f)))
    unique-push f g (inr in_f) (inl at_g) e =
        absurd (other_key f in_f (e ∙ ap event_key (sym at_g)))
    unique-push f g (inr in_f) (inr in_g) e = k.unique f g in_f in_g e

    agreed-push :
        (f g : ReplayFact)
        → (x ≡ f) ⊎ Contains c.facts f
        → (x ≡ g) ⊎ Contains c.facts g
        → f.persisted.mutation_id ≡ g.persisted.mutation_id
        → mutation_part f.persisted ≡ mutation_part g.persisted
    agreed-push f g (inl at_f) (inl at_g) e = ap part (sym at_f ∙ at_g)
    agreed-push f g (inl at_f) (inr in_g) e =
        ap part (sym at_f)
        ∙ sym (same g in_g (sym e ∙ ap (λ (z : ReplayFact). z.persisted.mutation_id) (sym at_f)))
    agreed-push f g (inr in_f) (inl at_g) e =
        same f in_f (e ∙ ap (λ (z : ReplayFact). z.persisted.mutation_id) (sym at_g)) ∙ ap part at_g
    agreed-push f g (inr in_f) (inr in_g) e = k.agreed f g in_f in_g e

    once-push :
        (f : ReplayFact)
        → (x ≡ f) ⊎ Contains c.facts f
        → count (event_of f) (c.facts ++ (x ∷ [])) ≡ 1
    once-push f (inl at_f) =
        let none_yet = count-find (event_of x) c.facts new in
        let itself = (event_of_iff x x).1 refl in
        subst (λ z. count (event_of z) (c.facts ++ (x ∷ [])) ≡ 1) at_f
          (count-push (event_of x) c.facts x ∙ (rw (none_yet, itself) refl))
    once-push f (inr in_f) = elim (Bool-cases (event_of f x)) [
      | inl hit ↦ absurd (other_key f in_f (sym ((event_of_iff f x).0 hit)))
      | inr miss ↦ count-push (event_of f) c.facts x ∙ (rw (k.once f in_f, miss) refl)
    ]

    pub KeepsFacts-push :
        (bytes : ℕ)
        → bytes ≡ c.accepted_original_bytes + x.original_bytes
        → KeepsFacts (x ∷ seen) (kept x bytes c)
    KeepsFacts-push bytes sum = record {
      from_seen = λ f in_f. elim (Contains-pushed c.facts x f in_f) [
        | inl now ↦ inl now
        | inr before ↦ inr (k.from_seen f before)
      ];
      covers = λ y seen_y. elim seen_y [
        | inl now ↦ (x, pushed_Contains c.facts x, ap (λ (z : ReplayFact). z.persisted) now)
        | inr before ↦
            let (f, in_f, e) = k.covers y before in (f, Contains-push c.facts x f in_f, e)
      ];
      unique = λ f g in_f in_g.
          unique-push f g (Contains-pushed c.facts x f in_f) (Contains-pushed c.facts x g in_g);
      once = λ f in_f. once-push f (Contains-pushed c.facts x f in_f);
      agreed = λ f g in_f in_g.
          agreed-push f g (Contains-pushed c.facts x f in_f) (Contains-pushed c.facts x g in_g);
      number = omega (arith, k.number, length-push c.facts x);
      bytes = omega (arith, sum, k.bytes, total_bytes-push c.facts x);
      bytes_le = omega (arith, k.bytes_le, total_bytes-push c.facts x);
    }
