-- ===== src/Base/Decimal.antt =====
-- (*big.Int).String: numbers in base 10.
use darkstop.Base.Tests.{ltb, if◌then◌else◌, length, All}
use Prim.Native.Nat.{ℕ, zero, suc, ◌+◌, ◌*◌, ◌/◌, ◌%◌, ◌^◌, ◌≤◌, ◌<◌}
use mathlib.Core.List.{List, [], ◌∷◌}
use native.Mathlib.Omega.{arith}

-- The digits of x before the text; the fuel is a bound of their number.
unfoldable pub decimal_onto : ℕ → ℕ → List ℕ → List ℕ
decimal_onto zero x rest = rest
decimal_onto (suc n) x rest =
    let more = decimal_onto n (x / 10) ((48 + x % 10) ∷ rest) in
    if ltb x 10 then (48 + x) ∷ rest else more

-- The text of a number that is not negative. A number has no more digits than it says.
unfoldable pub decimal_text : ℕ → List ℕ
decimal_text x = decimal_onto (suc x) x []

abbrev pub AreDigits : List ℕ → Type 0
AreDigits ds = All (λ c. (48 ≤ c) × (c ≤ 57)) ds

decimal_onto-AreDigits :
    (n x : ℕ) (rest : List ℕ) → AreDigits rest → AreDigits (decimal_onto n x rest)
unfolding decimal_onto
decimal_onto-AreDigits zero x rest h = h
decimal_onto-AreDigits (suc n) x rest h =
    ground (arith, decimal_onto-AreDigits n (x / 10) ((48 + x % 10) ∷ rest))

pub decimal_text-AreDigits : (x : ℕ) → AreDigits (decimal_text x)
unfolding decimal_text
decimal_text-AreDigits x = decimal_onto-AreDigits (suc x) x [] tt

-- 10 ^ k
ten_to : ℕ → ℕ
ten_to zero = 1
ten_to (suc k) = 10 * ten_to k

length-decimal_onto :
    (k n x : ℕ) (rest : List ℕ)
    → x < ten_to (suc k)
    → length (decimal_onto n x rest) ≤ suc k + length rest
unfolding decimal_onto ten_to
length-decimal_onto k zero x rest h = omega arith
length-decimal_onto zero (suc n) x rest h = ground arith
length-decimal_onto (suc k) (suc n) x rest h =
    ground (arith, length-decimal_onto k n (x / 10) ((48 + x % 10) ∷ rest) (omega arith))

-- A uint256 has at most 78 digits.
pub length-decimal_text : (x : ℕ) → x < 2 ^ 256 → length (decimal_text x) ≤ 78
unfolding decimal_text ten_to
length-decimal_text x h = omega (arith, length-decimal_onto 77 (suc x) x [] (omega arith))

length_pos : (n x : ℕ) (rest : List ℕ) → 0 < length rest → 0 < length (decimal_onto n x rest)
unfolding decimal_onto
length_pos zero x rest h = h
length_pos (suc n) x rest h = ground (arith, length_pos n (x / 10) ((48 + x % 10) ∷ rest))

pub length-decimal_text_pos : (x : ℕ) → 0 < length (decimal_text x)
unfolding decimal_text decimal_onto
length-decimal_text_pos x = ground (arith, length_pos x (x / 10) ((48 + x % 10) ∷ []))
