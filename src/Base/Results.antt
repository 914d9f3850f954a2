-- ===== src/Base/Results.antt =====
-- `Result<A, E>` with `?` as a `do` block.
use mathlib.Core.Path.{◌≡◌, refl, ap, ◌∙◌}
use mathlib.Core.Logic.{◌⊎◌, inl, inr}
use mathlib.Core.Bool.{Bool, true, false}
use mathlib.Core.Option.{Option, none, some}
use rhi.Base.Tests.{if◌then◌else◌}

-- The error comes first in the type, as the code reads `Result<A, E>` from the right.
pub data Result {ℓ κ} (E : Type ℓ) (A : Type κ) : Type (ℓ ⊔ κ) where
  err : E → Result E A
  ok : A → Result E A

-- What follows a `?`: an error is passed on.
abbrev pub and_then {ℓ κ ι} :
    {E : Type ℓ} {A : Type κ} {B : Type ι} → (A → Result E B) → Result E A → Result E B
and_then next (err e) = err e
and_then next (ok a) = next a

-- `if test { return Err(e) }`, and the same for the test denied.
module _ {ℓ} {E : Type ℓ} where
  abbrev pub refuse : Bool → E → Result E (Unit {0})
  refuse false _ = ok tt
  refuse true e = err e

  abbrev pub require : Bool → E → Result E (Unit {0})
  require false e = err e
  require true _ = ok tt

infixl 5 ◌>>=◌ ◌>>◌
abbrev pub ◌>>=◌ {ℓ κ ι} :
    {E : Type ℓ} {A : Type κ} {B : Type ι} → Result E A → (A → Result E B) → Result E B
r >>= next = and_then next r

abbrev pub ◌>>◌ {ℓ κ} : {E : Type ℓ} {B : Type κ} → Result E (Unit {0}) → Result E B → Result E B
checked_first >> rest = and_then (λ _. rest) checked_first

module _ {ℓ κ} {E : Type ℓ} {A : Type κ} where
  abbrev pub ok_or : Option A → E → Result E A
  ok_or (some a) _ = ok a
  ok_or none e = err e

  pub Result-cases : (r : Result E A) → ((a : A) × (r ≡ ok a)) ⊎ ((e : E) × (r ≡ err e))
  Result-cases (err e) = inr (e, refl)
  Result-cases (ok a) = inl (a, refl)

  abbrev ok_part : A → Result E A → A
  ok_part d (err _) = d
  ok_part _ (ok a) = a

  pub ok-injective : {a b : A} → ◌≡◌ {A = Result E A} (ok a) (ok b) → a ≡ b
  ok-injective {a} e = ap (ok_part a) e

  pub err_ne_ok : {e : E} {a : A} → ◌≡◌ {A = Result E A} (err e) (ok a) → ⊥
  err_ne_ok h = cc

abbrev pub map_err {ℓ κ ι} :
    {E : Type ℓ} {F : Type κ} {A : Type ι} → (E → F) → Result E A → Result F A
map_err f (err e) = err (f e)
map_err f (ok a) = ok a

-- A chain that succeeds had a first step that did.
pub and_then-ok {ℓ κ ι} :
    {E : Type ℓ} {A : Type κ} {B : Type ι} {next : A → Result E B} (r : Result E A) {b : B}
    → and_then next r ≡ ok b
    → (a : A) × (r ≡ ok a) × (next a ≡ ok b)
and_then-ok (err e) h = cc
and_then-ok (ok a) h = (a, refl, h)

pub map_err-ok {ℓ κ ι} :
    {E : Type ℓ} {F : Type κ} {A : Type ι} (f : E → F) (r : Result E A) {a : A}
    → map_err f r ≡ ok a
    → r ≡ ok a
map_err-ok f (err e) h = absurd (err_ne_ok h)
map_err-ok f (ok a) h = ap ok (ok-injective h)

pub ok_or-ok {ℓ κ} :
    {E : Type ℓ} {A : Type κ} (o : Option A) (e : E) {a : A} → ok_or o e ≡ ok a → o ≡ some a
ok_or-ok none e h = absurd (err_ne_ok h)
ok_or-ok (some a) e h = ap some (ok-injective h)

-- A test that was passed.
module _ {ℓ} {E : Type ℓ} where
  pub require-ok : (test : Bool) (e : E) {u : Unit {0}} → require test e ≡ ok u → test ≡ true
  require-ok true e h = refl
  require-ok false e h = absurd (err_ne_ok h)

  pub refuse-ok : (test : Bool) (e : E) {u : Unit {0}} → refuse test e ≡ ok u → test ≡ false
  refuse-ok true e h = absurd (err_ne_ok h)
  refuse-ok false e h = refl

-- A chain goes on from a first step that succeeds.
pub then_ok {ℓ κ ι} :
    {E : Type ℓ} {A : Type κ} {B : Type ι} (next : A → Result E B) (r : Result E A) {a : A}
    {out : Result E B}
    → r ≡ ok a
    → next a ≡ out
    → and_then next r ≡ out
then_ok next r e rest = ap (and_then next) e ∙ rest

-- `if test { Ok(a) } else { Err(e) }`.
pub guarded-ok {ℓ κ} :
    {E : Type ℓ} {A : Type κ} (test : Bool) (a : A) (e : E) {b : A}
    → if◌then◌else◌ {A = Result E A} test (ok a) (err e) ≡ ok b
    → (test ≡ true) × (a ≡ b)
guarded-ok true a e h = (refl, ok-injective h)
guarded-ok false a e h = absurd (err_ne_ok h)

-- A value returned with the tables.
pub ok-pair {ℓ κ ι} :
    {E : Type ℓ} {A : Type κ} {B : Type ι} {a c : A} {b d : B}
    → ◌≡◌ {A = Result E (A × B)} (ok (a, b)) (ok (c, d))
    → (a ≡ c) × (b ≡ d)
ok-pair h = let pair = ok-injective h in (ap (λ p. p.0) pair, ap (λ p. p.1) pair)

pub ok-triple {ℓ κ ι μ} :
    {E : Type ℓ} {A : Type κ} {B : Type ι} {C : Type μ} {a d : A} {b e : B} {c f : C}
    → ◌≡◌ {A = Result E ((A × B) × C)} (ok ((a, b), c)) (ok ((d, e), f))
    → (a ≡ d) × (b ≡ e) × (c ≡ f)
ok-triple h = let (first, last) = ok-pair h in (ap (λ p. p.0) first, ap (λ p. p.1) first, last)
