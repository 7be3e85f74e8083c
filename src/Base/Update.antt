-- ===== src/Base/Update.antt =====
-- A memory as a function from addresses, and one write to it.
use Prim.Native.Nat.{ℕ}
use mango_os.Base.Tests.{◌==◌, if◌then◌else◌}

abbrev pub update {ℓ} : {A : Type ℓ} → (ℕ → A) → ℕ → A → ℕ → A
update f k v a = if a == k then v else f a
