-- ===== src/Cc/Attempt.antt =====
-- cc/: what a function of the compiler comes to. `aborted` is a failed `assert` or a call of `abort`;
-- `undefined` is what C does not define, here a read past the end of an array of constants or of what
-- is mapped of the text;
-- `out_of_fuel` is the model's own.
use estros.Common.{◌≡◌, refl}

pub data Attempt {ℓ} (A : Type ℓ) : Type ℓ where
  ok : A → Attempt A
  aborted : Attempt A
  undefined : Attempt A
  out_of_fuel : Attempt A

infixl 5 ◌>>=◌
abbrev pub ◌>>=◌ {ℓ κ} : {A : Type ℓ} {B : Type κ} → Attempt A → (A → Attempt B) → Attempt B
ok a >>= f = f a
aborted >>= f = aborted
undefined >>= f = undefined
out_of_fuel >>= f = out_of_fuel

-- What a later part comes to, where the earlier one is known.
pub bind-ok {ℓ κ} :
    {A : Type ℓ} {B : Type κ} (m : Attempt A) (f : A → Attempt B) (a : A)
    → m ≡ ok a
    → (m >>= f) ≡ f a
bind-ok m f a h = rw h refl
