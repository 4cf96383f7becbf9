-- ===== src/Base/Outcome.antt =====
-- Rust's `Result`, and runs that may panic.
use mathlib.Core.Option.{Option, none, some}

pub data Result {ℓ κ} (E : Type κ) (A : Type ℓ) : Type (ℓ ⊔ κ) where
  ok : A → Result E A
  err : E → Result E A

-- The value of an expression that may panic: `unwrap`, `expect`, indexing, `unreachable!`.
pub data Run {ℓ} (A : Type ℓ) : Type ℓ where
  done : A → Run A
  panicked : Run A

-- The `?` operator.
infixl 5 ◌>>=◌
abbrev pub ◌>>=◌ {ℓ κ μ} :
    {E : Type μ} {A : Type ℓ} {B : Type κ} → Result E A → (A → Result E B) → Result E B
ok a >>= f = f a
err e >>= f = err e

abbrev pub map_err {ℓ κ μ} :
    {E : Type κ} {F : Type μ} {A : Type ℓ} → (E → F) → Result E A → Result F A
map_err f (ok a) = ok a
map_err f (err e) = err (f e)

abbrev pub map_ok {ℓ κ μ} :
    {E : Type κ} {A : Type ℓ} {B : Type μ} → (A → B) → Result E A → Result E B
map_ok f (ok a) = ok (f a)
map_ok f (err e) = err e

abbrev pub ok_or {ℓ κ} : {E : Type κ} {A : Type ℓ} → Option A → E → Result E A
ok_or none e = err e
ok_or (some a) e = ok a

abbrev pub unwrap {ℓ} : {A : Type ℓ} → Option A → Run A
unwrap none = panicked
unwrap (some a) = done a

abbrev pub unwrap_or {ℓ} : {A : Type ℓ} → Option A → A → A
unwrap_or none d = d
unwrap_or (some a) d = a

abbrev pub bind {ℓ κ} : {A : Type ℓ} {B : Type κ} → Run A → (A → Run B) → Run B
bind (done a) f = f a
bind panicked f = panicked

-- Going on after a loop that may not have ended yet, which is `none`.
abbrev pub chain {ℓ κ} :
    {A : Type ℓ} {B : Type κ} → Option (Run A) → (A → Option (Run B)) → Option (Run B)
chain none f = none
chain (some panicked) f = some panicked
chain (some (done a)) f = f a

-- `unwrap` of a result.
abbrev pub unwrap_ok {ℓ κ} : {E : Type κ} {A : Type ℓ} → Result E A → Run A
unwrap_ok (ok x) = done x
unwrap_ok (err e) = panicked
