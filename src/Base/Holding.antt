-- ===== src/Base/Holding.antt =====
-- What holds of the value of a run, if it has one.
use mathlib.Core.Path.{◌≡◌, refl, subst}
use mathlib.Core.Option.{Option, none, some}
use v4l2r.Base.Outcome.{Result, ok, err, Run, done, panicked, bind, chain, unwrap_ok}

pub data Returns {ℓ κ} {A : Type ℓ} (Q : A → Type κ) : Run A → Type (ℓ ⊔ κ) where
  returns : {a : A} → Q a → Returns Q (done a)
  panics : Returns Q panicked

pub data Yields {ℓ κ} {A : Type ℓ} (Q : A → Type κ) : Option (Run A) → Type (ℓ ⊔ κ) where
  yields : {r : Run A} → Returns Q r → Yields Q (some r)
  runs_on : Yields Q none

pub data Succeeds {ℓ κ} {E A : Type ℓ} (Q : A → Type κ) : Result E A → Type (ℓ ⊔ κ) where
  succeeds : {a : A} → Q a → Succeeds Q (ok a)
  fails : {e : E} → Succeeds Q (err e)

module _ {ℓ κ μ ν} {A : Type ℓ} {B : Type κ} {Q : A → Type μ} {R : B → Type ν} where
  pub Returns-bind :
      {r : Run A} {f : A → Run B}
      → Returns Q r
      → ((a : A) → Q a → Returns R (f a))
      → Returns R (bind r f)
  Returns-bind (returns q) k = k _ q
  Returns-bind panics k = panics

  pub Yields-chain :
      {r : Option (Run A)} {f : A → Option (Run B)}
      → Yields Q r
      → ((a : A) → Q a → Yields R (f a))
      → Yields R (chain r f)
  Yields-chain (yields (returns q)) k = k _ q
  Yields-chain (yields panics) k = yields panics
  Yields-chain runs_on k = runs_on

module _ {ℓ κ ν} {A : Type ℓ} {B : Type κ} {R : B → Type ν} where
  -- Whatever the run returns.
  pub Returns-any : (r : Run A) {f : A → Run B} → ((a : A) → Returns R (f a)) → Returns R (bind r f)
  Returns-any (done a) k = k a
  Returns-any panicked k = panics

  pub Yields-any :
      (r : Option (Run A)) {f : A → Option (Run B)}
      → ((a : A) → Yields R (f a))
      → Yields R (chain r f)
  Yields-any none k = runs_on
  Yields-any (some (done a)) k = k a
  Yields-any (some panicked) k = yields panics

module _ {ℓ κ} {A : Type ℓ} {Q : A → Type κ} where
  pub Returns-value : {r : Run A} {a : A} → Returns Q r → r ≡ done a → Q a
  Returns-value {a = x} (returns {a} q) e = let eq : a ≡ x = cc e in subst Q eq q
  Returns-value panics e = absurd (cc)

  pub Yields-value : {r : Option (Run A)} {a : A} → Yields Q r → r ≡ some (done a) → Q a
  Yields-value {a = x} (yields (returns {a} q)) e = let eq : a ≡ x = cc e in subst Q eq q
  Yields-value (yields panics) e = absurd (cc)
  Yields-value runs_on e = absurd (cc)

  pub unwrap_ok-Returns : {E : Type ℓ} {r : Result E A} → Succeeds Q r → Returns Q (unwrap_ok r)
  unwrap_ok-Returns (succeeds q) = returns q
  unwrap_ok-Returns fails = panics

-- What holds of both branches of a `match` on a result holds of the `match`.
pub on_result {ℓ κ μ ν} :
    {E : Type ℓ} {A : Type κ} {B : Type μ} (P : B → Type ν) (r : Result E A) {f : E → B} {g : A → B}
    → ((e : E) → P (f e))
    → ((x : A) → P (g x))
    → P (elim r [ err e ↦ f e | ok x ↦ g x ])
on_result P (err e) failed passed = failed e
on_result P (ok x) failed passed = passed x

-- The same, where each branch knows the result.
pub on_result_known {ℓ κ μ ν} :
    {E : Type ℓ} {A : Type κ} {B : Type μ} (P : B → Type ν) (r : Result E A) {f : E → B} {g : A → B}
    → ((e : E) → r ≡ err e → P (f e))
    → ((x : A) → r ≡ ok x → P (g x))
    → P (elim r [ err e ↦ f e | ok x ↦ g x ])
on_result_known P (err e) failed passed = failed e refl
on_result_known P (ok x) failed passed = passed x refl

pub Returns-known {ℓ κ ν} :
    {A : Type ℓ} {B : Type κ} {R : B → Type ν} (r : Run A) {f : A → Run B}
    → ((a : A) → r ≡ done a → Returns R (f a))
    → Returns R (bind r f)
Returns-known (done a) k = k a refl
Returns-known panicked k = panics
