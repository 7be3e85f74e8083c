-- ===== src/Tests/Numbers.antt =====
-- The number 1234 in base 10.
use mango_os.Base.{◌≡◌, refl, [], ◌∷◌}
use mango_os.Log.{digits, chars, integer_text}

integer_text-decimal : integer_text 1234 10 ≡ 49 ∷ 50 ∷ 51 ∷ 52 ∷ []
unfolding integer_text digits chars
integer_text-decimal = refl
