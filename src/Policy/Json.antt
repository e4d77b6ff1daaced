-- ===== src/Policy/Json.antt =====
-- internal/extension/crypto.go: what ParseOrderPlaintext uses of encoding/json, the reading of a flat
-- object. The text is a list of bytes; a character of a string that is not ASCII stands as a number
-- from 128 on, which no string that the program compares or parses contains. A nested value is refused
-- at once: Decode refuses it for each of the three fields that an order may have.
use darkstop.Base.{
  ℕ, zero, suc, ◌+◌, ◌-◌, ◌*◌, Bool, true, false, ◌&&◌, ◌||◌, Option, none, some, List, [], ◌∷◌,
  ltb, leb, ◌==◌, if◌then◌else◌,
}

pub data Scalar : Type 0 where
  text number : List ℕ → Scalar
  boolean : Bool → Scalar
  null : Scalar

abbrev pub Members : Type 0
Members = List (List ℕ × Scalar)

-- Where a string stands: it is a key, or the value of a key.
pub data Place : Type 0 where
  as_key : Place
  as_value : List ℕ → Place

-- Where a number stands: after its sign, after a leading 0, in its integer part, after the point, in
-- the fraction, after the e, after the exponent's sign, in the exponent.
pub data Part : Type 0 where
  signed leading_zero integer point fraction exponent exponent_sign exponent_digits : Part

-- The scanner's states. What it has read of a string or of a number is in reverse.
pub data Scan : Type 0 where
  before first more after done bad : Scan
  string escape : Place → List ℕ → Scan
  unicode : ℕ → ℕ → Place → List ℕ → Scan
  colon value : List ℕ → Scan
  numeral : Part → List ℕ → List ℕ → Scan
  literal : List ℕ → Scalar → List ℕ → Scan

abbrev is_space : ℕ → Bool
is_space c = c == 32 || c == 9 || c == 10 || c == 13

abbrev pub is_digit : ℕ → Bool
is_digit c = leb 48 c && leb c 57

unfoldable pub reverse_onto : List ℕ → List ℕ → List ℕ
reverse_onto [] ys = ys
reverse_onto (x ∷ xs) ys = reverse_onto xs (x ∷ ys)

abbrev reversed : List ℕ → List ℕ
reversed xs = reverse_onto xs []

-- The value of a hexadecimal digit.
abbrev hex_digit : ℕ → Option ℕ
hex_digit c =
    if is_digit c
    then some (c - 48)
    else if leb 97 c && leb c 102
    then some (c - 87)
    else if leb 65 c && leb c 70
    then some (c - 55)
    else none

-- The character that follows a backslash.
abbrev escaped : ℕ → Option ℕ
escaped c =
    if c == 34 || c == 92 || c == 47
    then some c
    else if c == 98
    then some 8
    else if c == 102
    then some 12
    else if c == 110
    then some 10
    else if c == 114
    then some 13
    else if c == 116
    then some 9
    else none

-- A number may end here.
abbrev is_complete : Part → Bool
is_complete leading_zero = true
is_complete integer = true
is_complete fraction = true
is_complete exponent_digits = true
is_complete signed = false
is_complete point = false
is_complete exponent = false
is_complete exponent_sign = false

-- The part that a character of a number leads to, if it goes on.
abbrev exponent_mark : ℕ → Option Part
exponent_mark c = if c == 101 || c == 69 then some exponent else none

abbrev fraction_or_exponent : ℕ → Option Part
fraction_or_exponent c = if c == 46 then some point else exponent_mark c

unfoldable pub next_part : Part → ℕ → Option Part
next_part signed c =
    if c == 48 then some leading_zero else if is_digit c then some integer else none
next_part leading_zero c = fraction_or_exponent c
next_part integer c = if is_digit c then some integer else fraction_or_exponent c
next_part point c = if is_digit c then some fraction else none
next_part fraction c = if is_digit c then some fraction else exponent_mark c
next_part exponent c =
    if c == 43 || c == 45
    then some exponent_sign
    else if is_digit c
    then some exponent_digits
    else none
next_part exponent_sign c = if is_digit c then some exponent_digits else none
next_part exponent_digits c = if is_digit c then some exponent_digits else none

-- The scanner's state, and the members that it has read, the last one first.
abbrev pub Scanned : Type 0
Scanned = Scan × Members

unfoldable pub ended_string : Place → List ℕ → Members → Scanned
ended_string as_key acc m = (colon (reversed acc), m)
ended_string (as_value k) acc m = (after, (k, text (reversed acc)) ∷ m)

abbrev after_member : ℕ → Members → Scanned
after_member c m =
    if is_space c
    then (after, m)
    else if c == 44
    then (more, m)
    else if c == 125
    then (done, m)
    else (bad, m)

unfoldable pub begin_value : List ℕ → ℕ → Members → Scanned
begin_value k c m =
    if is_space c
    then (value k, m)
    else if c == 34
    then (string (as_value k) [], m)
    else if c == 45
    then (numeral signed k (c ∷ []), m)
    else if c == 48
    then (numeral leading_zero k (c ∷ []), m)
    else if is_digit c
    then (numeral integer k (c ∷ []), m)
    else if c == 116
    then (literal (114 ∷ 117 ∷ 101 ∷ []) (boolean true) k, m)
    else if c == 102
    then (literal (97 ∷ 108 ∷ 115 ∷ 101 ∷ []) (boolean false) k, m)
    else if c == 110
    then (literal (117 ∷ 108 ∷ 108 ∷ []) null k, m)
    else (bad, m)

unfoldable pub go_on : Option Part → Part → List ℕ → List ℕ → ℕ → Members → Scanned
go_on (some q) p k acc c m = (numeral q k (c ∷ acc), m)
go_on none p k acc c m =
    if is_complete p then after_member c ((k, number (reversed acc)) ∷ m) else (bad, m)

unfoldable pub unescaped : Option ℕ → Place → List ℕ → Members → Scanned
unescaped none p acc m = (bad, m)
unescaped (some c) p acc m = (string p (c ∷ acc), m)

-- `left` hexadecimal digits follow this one.
unfoldable pub hex_read : Option ℕ → ℕ → ℕ → Place → List ℕ → Members → Scanned
hex_read none left v p acc m = (bad, m)
hex_read (some d) zero v p acc m = (string p ((16 * v + d) ∷ acc), m)
hex_read (some d) (suc left) v p acc m = (unicode left (16 * v + d) p acc, m)

-- One byte.
unfoldable pub step : Scan → ℕ → Members → Scanned
step before c m = if is_space c then (before, m) else if c == 123 then (first, m) else (bad, m)
step first c m =
    if is_space c
    then (first, m)
    else if c == 34
    then (string as_key [], m)
    else if c == 125
    then (done, m)
    else (bad, m)
step more c m =
    if is_space c then (more, m) else if c == 34 then (string as_key [], m) else (bad, m)
step after c m = after_member c m
step done c m = if is_space c then (done, m) else (bad, m)
step bad c m = (bad, m)
step (string p acc) c m =
    if c == 34
    then ended_string p acc m
    else if c == 92
    then (escape p acc, m)
    else if ltb c 32
    then (bad, m)
    else (string p (c ∷ acc), m)
step (escape p acc) c m = if c == 117 then (unicode 3 0 p acc, m) else unescaped (escaped c) p acc m
step (unicode left v p acc) c m = hex_read (hex_digit c) left v p acc m
step (colon k) c m = if is_space c then (colon k, m) else if c == 58 then (value k, m) else (bad, m)
step (value k) c m = begin_value k c m
step (numeral p k acc) c m = go_on (next_part p c) p k acc c m
step (literal [] s k) c m = after_member c ((k, s) ∷ m)
step (literal (x ∷ xs) s k) c m = if c == x then (literal xs s k, m) else (bad, m)

unfoldable pub scan : Scan → List ℕ → Members → Scanned
scan s [] m = (s, m)
scan s (c ∷ cs) m = scan (step s c m).0 cs (step s c m).1

abbrev scanned_object : Scan → Members → Option Members
scanned_object done m = some m
scanned_object s m = none

-- The members of the object that the text is, the last one first.
unfoldable pub read_object : List ℕ → Option Members
read_object bytes = scanned_object (scan before bytes []).0 (scan before bytes []).1
