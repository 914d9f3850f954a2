-- ===== src/Base/Update.antt =====
-- What a search finds in a table whose rows are changed where a condition holds.
use Prim.Native.Nat.{ℕ, suc}
use mathlib.Core.Bool.{Bool, true, false}
use mathlib.Core.Option.{some, some-injective}
use mathlib.Core.Path.{◌≡◌, sym, ap, ◌∙◌, subst, refl}
use mathlib.Core.List.{List, [], ◌∷◌}
use mathlib.Core.Logic.{inl, inr}
use native.Mathlib.Omega.{arith}
use rhi.Base.Lists.{find, update_where, all, count}
use rhi.Base.Membership.{Contains}
use rhi.Base.Tests.{true_ne_false, if◌then◌else◌, Bool-cases, some_ne_none, &&-left, &&-right}

module _ {A : Type 0} where
  abbrev pub changed_where : (A → Bool) → (A → A) → A → A
  changed_where q f x = if q x then f x else x

  pub changed_keeps :
      (p q : A → Bool) (f : A → A)
      → ((x : A) → p (f x) ≡ p x)
      → (x : A) → p (changed_where q f x) ≡ p x
  changed_keeps p q f same x = elim (Bool-cases (q x)) [
    | inl hit ↦ rw hit (same x)
    | inr miss ↦ rw miss refl
  ]

  pub find-changed :
      (p q : A → Bool) (f : A → A)
      → ((x : A) → p (f x) ≡ p x)
      → (xs : List A) (row : A) → find p xs ≡ some row
      → find p (update_where q f xs) ≡ some (changed_where q f row)
  find-changed p q f same [] row h = absurd (some_ne_none (sym h))
  find-changed p q f same (x ∷ xs) row h = elim (Bool-cases (p x)) [
    | inl hit ↦
        let h' : some x ≡ some row = rw hit at h in
        let key : p (changed_where q f x) ≡ true = changed_keeps p q f same x ∙ hit in
        rw key (ap (λ y. some (changed_where q f y)) (some-injective x row h'))
    | inr miss ↦
        let h' : find p xs ≡ some row = rw miss at h in
        let key : p (changed_where q f x) ≡ false = changed_keeps p q f same x ∙ miss in
        rw key (find-changed p q f same xs row h')
  ]

  pub Contains-changed :
      (q : A → Bool) (f : A → A) (xs : List A) (y : A)
      → Contains (update_where q f xs) y
      → (x : A) × Contains xs x × (changed_where q f x ≡ y)
  Contains-changed q f [] y h = absurd h
  Contains-changed q f (x ∷ xs) y (inl here) = (x, inl refl, here)
  Contains-changed q f (x ∷ xs) y (inr later) =
      let (z, there, same) = Contains-changed q f xs y later in (z, inr there, same)

  pub all-Contains :
      (p : A → Bool) (xs : List A) (x : A) → all p xs ≡ true → Contains xs x → p x ≡ true
  all-Contains p [] x h here = absurd here
  all-Contains p (y ∷ ys) x h (inl same) = subst (λ z. p z ≡ true) same (&&-left (p y) (all p ys) h)
  all-Contains p (y ∷ ys) x h (inr later) = all-Contains p ys x (&&-right (p y) (all p ys) h) later

  pub count-Contains :
      (p : A → Bool) (xs : List A) (n : ℕ)
      → count p xs ≡ suc n
      → (x : A) × Contains xs x × (p x ≡ true)
  count-Contains p [] n h = absurd (omega arith)
  count-Contains p (x ∷ xs) n h = elim (Bool-cases (p x)) [
    | inl hit ↦ (x, inl refl, hit)
    | inr miss ↦
        let h' : count p xs ≡ suc n = rw miss at h in
        let (y, later, hit) = count-Contains p xs n h' in (y, inr later, hit)
  ]

  -- If no entry meets a condition, none meets one that implies it.
  pub count-implies :
      (p q : A → Bool) (xs : List A)
      → ((x : A) → q x ≡ true → p x ≡ true)
      → count p xs ≡ 0
      → count q xs ≡ 0
  count-implies p q [] implies h = refl
  count-implies p q (x ∷ xs) implies h = elim (Bool-cases (p x)) [
    | inl hit ↦ let h' : suc (count p xs) ≡ 0 = rw hit at h in absurd (omega arith)
    | inr miss ↦
        let h' : count p xs ≡ 0 = rw miss at h in
        elim (Bool-cases (q x)) [
          | inl other ↦ absurd (true_ne_false (sym (implies x other) ∙ miss))
          | inr neither ↦ rw neither (count-implies p q xs implies h')
        ]
  ]
