-- ===== src/Log/Numbers.antt =====
-- What `print_integer` writes is the number in its base.
use mango_os.Base.{ℕ, ◌+◌, ◌-◌, ◌*◌, ◌<◌, List, [], ◌∷◌, ltb, if◌then◌else◌}

-- The number that a text shows in a base, read behind the number `start`.
unfoldable pub reads : ℕ → ℕ → List ℕ → ℕ
reads base start [] = start
reads base start (c ∷ cs) = reads base (start * base + (if ltb c 58 then c - 48 else c - 87)) cs

unfoldable pub number_of : ℕ → ℕ → List ℕ → ℕ
number_of base start [] = start
number_of base start (d ∷ ds) = number_of base (start * base + d) ds

abbrev Small : ℕ → List ℕ → Type 0
Small b [] = Unit
Small b (d ∷ ds) = (d < b) × Small b ds
