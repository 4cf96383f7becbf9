-- ===== src/Types/Enumn.antt =====
-- The function `n` that the derive macro `N` of the crate enumn gives each `#[repr(u32)]`
-- enumeration: the variant with the given discriminant, if there is one.
use v4l2r.Base.{ℕ, ◌≡◌, List, [], ◌∷◌, Option, none, some, arith, ◌==◌, if◌then◌else◌}

unfoldable pub find_value : {A : Type 0} → (A → ℕ) → List A → ℕ → Option A
find_value to_u32 [] v = none
find_value to_u32 (a ∷ rest) v = if to_u32 a == v then some a else find_value to_u32 rest v

-- A C enumeration: its variants, its discriminants, and that no two variants share one.
pub record CEnum (A : Type 0) : Type 0 where
  pub to_u32 : A → ℕ
  pub variants : List A
  pub found : (a : A) → find_value to_u32 variants (to_u32 a) ≡ some a

unfoldable pub n : {A : Type 0} ⦃e : CEnum A⦄ → ℕ → Option A
n ⦃e⦄ v = find_value e.to_u32 e.variants v

find_value-to_u32 :
    {A : Type 0} (to_u32 : A → ℕ) (l : List A) (v : ℕ) {a : A}
    → find_value to_u32 l v ≡ some a
    → to_u32 a ≡ v
unfolding find_value
find_value-to_u32 to_u32 [] v h = absurd (cc)
find_value-to_u32 to_u32 (x ∷ l) v {a} h = ground (arith, find_value-to_u32 to_u32 l v {a = a})

-- What `n` returns has the discriminant that was looked up.
pub n_sound : {A : Type 0} ⦃e : CEnum A⦄ (v : ℕ) {a : A} → n v ≡ some a → e.to_u32 a ≡ v
unfolding n
n_sound ⦃e⦄ v h = find_value-to_u32 e.to_u32 e.variants v h

-- `n` finds every variant by its discriminant.
pub n_found : {A : Type 0} ⦃e : CEnum A⦄ (a : A) → n (e.to_u32 a) ≡ some a
unfolding n
n_found ⦃e⦄ a = e.found a
