-- ===== src/Common/Update.antt =====
-- Arrays as functions of the index, and the write of one place.
use Prim.Native.Nat.{ℕ, ◌<◌}
use mathlib.Core.Path.{◌≡◌}
use mathlib.Core.Logic.{◌≢◌}
use native.Mathlib.Omega.{arith}
use estros.Common.Tests.{◌==◌, if◌then◌else◌}

module _ {ℓ} {A : Type ℓ} where
  unfoldable pub update : (ℕ → A) → ℕ → A → ℕ → A
  update f k v i = if i == k then v else f i

  pub update_self : (f : ℕ → A) (k : ℕ) (v : A) → update f k v k ≡ v
  unfolding update
  update_self f k v = ground arith

  pub update-ne : (f : ℕ → A) (k : ℕ) (v : A) (i : ℕ) → i ≢ k → update f k v i ≡ f i
  unfolding update
  update-ne f k v i ne = ground arith

-- A bound on every place is kept by a write within the bound.
pub update-lt : (f : ℕ → ℕ) (k v n : ℕ) → ((i : ℕ) → f i < n) → v < n → (i : ℕ) → update f k v i < n
unfolding update
update-lt f k v n all small i = ground (arith, all i)
