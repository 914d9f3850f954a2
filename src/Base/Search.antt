-- ===== src/Base/Search.antt =====
-- What pushing an entry at the end of a list does to its indexes and to a search.
use Prim.Native.Nat.{ℕ, zero, suc}
use mathlib.Core.Bool.{Bool}
use mathlib.Core.Option.{none, some}
use mathlib.Core.Path.{◌≡◌, refl, sym}
use mathlib.Core.List.{List, [], ◌∷◌, ◌++◌}
use mathlib.Core.Logic.{inl, inr}
use rhi.Base.Lists.{length, find, get_elem?}
use rhi.Base.Tests.{if◌then◌else◌, Bool-cases, some_ne_none}

module _ {ℓ} {A : Type ℓ} where
  pub get_elem?-length : (xs : List A) (x : A) → get_elem? (xs ++ (x ∷ [])) (length xs) ≡ some x
  get_elem?-length [] x = refl
  get_elem?-length (y ∷ xs) x = get_elem?-length xs x

  pub get_elem?-push :
      (xs : List A) (x y : A) (i : ℕ)
      → get_elem? xs i ≡ some y
      → get_elem? (xs ++ (x ∷ [])) i ≡ some y
  get_elem?-push [] x y i h = absurd (some_ne_none (sym h))
  get_elem?-push (z ∷ xs) x y zero h = h
  get_elem?-push (z ∷ xs) x y (suc i) h = get_elem?-push xs x y i h

  module _ (p : A → Bool) where
    pub find-push_some :
        (xs : List A) (x y : A) → find p xs ≡ some y → find p (xs ++ (x ∷ [])) ≡ some y
    find-push_some [] x y h = absurd (some_ne_none (sym h))
    find-push_some (z ∷ xs) x y h = elim (Bool-cases (p z)) [
      | inl hit ↦ let h' : some z ≡ some y = rw hit at h in rw hit h'
      | inr miss ↦ let h' : find p xs ≡ some y = rw miss at h in rw miss (find-push_some xs x y h')
    ]

    pub find-push_none :
        (xs : List A) (x : A)
        → find p xs ≡ none
        → find p (xs ++ (x ∷ [])) ≡ (if p x then some x else none)
    find-push_none [] x h = refl
    find-push_none (z ∷ xs) x h = elim (Bool-cases (p z)) [
      | inl hit ↦ let h' : some z ≡ none = rw hit at h in absurd (some_ne_none h')
      | inr miss ↦ let h' : find p xs ≡ none = rw miss at h in rw miss (find-push_none xs x h')
    ]
