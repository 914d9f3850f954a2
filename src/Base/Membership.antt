-- ===== src/Base/Membership.antt =====
-- A list has an entry.
use mathlib.Core.Bool.{Bool, true, false}
use mathlib.Core.Option.{none, some, some-injective}
use mathlib.Core.Path.{◌≡◌, refl, sym, subst}
use mathlib.Core.List.{List, [], ◌∷◌, ◌++◌}
use mathlib.Core.Logic.{◌⊎◌, inl, inr}
use rhi.Base.Lists.{find}
use rhi.Base.Tests.{Bool-cases, some_ne_none}

module _ {A : Type 0} where
  abbrev pub Contains : List A → A → Type 0
  Contains [] x = ⊥
  Contains (y ∷ ys) x = (y ≡ x) ⊎ Contains ys x

  pub keep_head :
      (x y : A) (xs ys : List A)
      → (Contains xs x → Contains ys x)
      → Contains (y ∷ xs) x
      → Contains (y ∷ ys) x
  keep_head x y xs ys f (inl here) = inl here
  keep_head x y xs ys f (inr later) = inr (f later)

  pub swap_heads : (x y z : A) (xs : List A) → Contains (y ∷ z ∷ xs) x → Contains (z ∷ y ∷ xs) x
  swap_heads x y z xs (inl here) = inr (inl here)
  swap_heads x y z xs (inr (inl here)) = inl here
  swap_heads x y z xs (inr (inr later)) = inr (inr later)

  pub Contains-push : (xs : List A) (x y : A) → Contains xs y → Contains (xs ++ (x ∷ [])) y
  Contains-push [] x y h = absurd h
  Contains-push (z ∷ xs) x y (inl here) = inl here
  Contains-push (z ∷ xs) x y (inr later) = inr (Contains-push xs x y later)

  pub pushed_Contains : (xs : List A) (x : A) → Contains (xs ++ (x ∷ [])) x
  pushed_Contains [] x = inl refl
  pushed_Contains (z ∷ xs) x = inr (pushed_Contains xs x)

  pub Contains-pushed :
      (xs : List A) (x y : A) → Contains (xs ++ (x ∷ [])) y → (x ≡ y) ⊎ Contains xs y
  Contains-pushed [] x y (inl here) = inl here
  Contains-pushed [] x y (inr later) = absurd later
  Contains-pushed (z ∷ xs) x y (inl here) = inr (inl here)
  Contains-pushed (z ∷ xs) x y (inr later) = elim (Contains-pushed xs x y later) [
    | inl new ↦ inl new
    | inr old ↦ inr (inr old)
  ]

  -- What a search finds is an entry that meets the condition, and it finds nothing only if none does.
  pub find-Contains :
      (p : A → Bool) (xs : List A) (x : A) → find p xs ≡ some x → Contains xs x × (p x ≡ true)
  find-Contains p [] x h = absurd (some_ne_none (sym h))
  find-Contains p (y ∷ ys) x h = elim (Bool-cases (p y)) [
    | inl hit ↦
        let h' : some y ≡ some x = rw hit at h in
        let same = some-injective y x h' in (inl same, subst (λ z. p z ≡ true) same hit)
    | inr miss ↦
        let h' : find p ys ≡ some x = rw miss at h in
        let (later, holds_x) = find-Contains p ys x h' in (inr later, holds_x)
  ]

  pub find-none :
      (p : A → Bool) (xs : List A) (x : A) → find p xs ≡ none → Contains xs x → p x ≡ false
  find-none p [] x h here = absurd here
  find-none p (y ∷ ys) x h here = elim (Bool-cases (p y)) [
    | inl hit ↦ let h' : some y ≡ none = rw hit at h in absurd (some_ne_none h')
    | inr miss ↦
        let h' : find p ys ≡ none = rw miss at h in
        elim here [
          | inl same ↦ subst (λ z. p z ≡ false) same miss
          | inr later ↦ find-none p ys x h' later
        ]
  ]
