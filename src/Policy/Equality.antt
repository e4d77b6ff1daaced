-- ===== src/Policy/Equality.antt =====
-- The comparison of texts decides their equality.
use darkstop.Base.{◌≡◌, refl, true, [], ◌∷◌, arith}
use darkstop.Policy.{String, eq_string}

pub eq_string_refl : (s : String) → eq_string s s ≡ true
unfolding eq_string
eq_string_refl [] = refl
eq_string_refl (c ∷ cs) = ground (arith, eq_string_refl cs)

pub eq_string_sound : (s t : String) → eq_string s t ≡ true → s ≡ t
unfolding eq_string
eq_string_sound [] [] h = refl
eq_string_sound [] (y ∷ ys) h = cc
eq_string_sound (x ∷ xs) [] h = cc
eq_string_sound (x ∷ xs) (y ∷ ys) h = ground (arith, eq_string_sound xs ys)
