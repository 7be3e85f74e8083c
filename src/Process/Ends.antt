-- ===== src/Process/Ends.antt =====
-- A run of Process that does not run out of fuel, with what holds where it ends and where it waits.
use mango_os.Base.{◌≡◌, refl, sym, ◌⊎◌, inl, inr}
use mathlib.Core.Path.{subst}
use mango_os.Process.{Procs, Run, ok, waits}

pub data Ends {X A : Type 0} (P : A → Procs X → Type 0) (W : Procs X → Type 0)
    : Run X A → Type 0 where
  returns : {a : A} {s : Procs X} → P a s → Ends P W (ok a s)
  held : {s : Procs X} → W s → Ends P W (waits s)

module _ {X A : Type 0} {P : A → Procs X → Type 0} {W : Procs X → Type 0} where
  pub from_eq : {r r' : Run X A} → Ends P W r' → r ≡ r' → Ends P W r
  from_eq d e = subst (Ends P W) (sym e) d

  -- How it ended.
  pub inspect :
      {r : Run X A}
      → Ends P W r
      → ((a : A) × (s : Procs X) × (r ≡ ok a s) × P a s) ⊎ ((s : Procs X) × (r ≡ waits s) × W s)
  inspect (returns {a} {s} p) = inl (a, s, refl, p)
  inspect (held {s} w) = inr (s, refl, w)
