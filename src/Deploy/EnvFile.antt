-- ===== src/Deploy/EnvFile.antt =====
-- tools/pkg/validate/checks.go: the reading of extension.env, in CheckExtensionEnvFormat and in
-- parseExtensionEnv. Space is ASCII space, and no line is as long as the scanner's limit of 64 KiB.
use darkstop.Base.{
  ℕ, ◌≡◌, refl, Bool, true, false, ◌&&◌, ◌||◌, Option, none, some, List, [], ◌∷◌, leb, ◌==◌,
  if◌then◌else◌, length, arith,
}
use darkstop.Policy.{String, eq_string}

abbrev is_space : ℕ → Bool
is_space c = c == 32 || leb 9 c && leb c 13

unfoldable pub trim_left : String → String
trim_left [] = []
trim_left (c ∷ cs) = let rest = trim_left cs in if is_space c then rest else c ∷ cs

-- Space is dropped from the end.
unfoldable pub trim_right : String → String
trim_right [] = []
trim_right (c ∷ cs) = elim (trim_right cs) [
  | [] ↦ if is_space c then [] else c ∷ []
  | x ∷ xs ↦ c ∷ x ∷ xs
]

-- strings.TrimSpace
abbrev pub trim_space : String → String
trim_space s = trim_right (trim_left s)

abbrev push : ℕ → List String → List String
push c [] = (c ∷ []) ∷ []
push c (l ∷ ls) = (c ∷ l) ∷ ls

-- The lines of a text. The carriage return that bufio.ScanLines drops is space, which TrimSpace drops.
unfoldable pub split_lines : String → List String
split_lines [] = []
split_lines (c ∷ cs) = let rest = split_lines cs in if c == 10 then [] ∷ rest else push c rest

abbrev prepend : ℕ → Option (String × String) → Option (String × String)
prepend c none = none
prepend c (some (k, v)) = some (c ∷ k, v)

-- strings.SplitN(line, "=", 2), if it has two parts
unfoldable pub split_assignment : String → Option (String × String)
split_assignment [] = none
split_assignment (c ∷ cs) =
    let rest = split_assignment cs in if c == 61 then some ([], cs) else prepend c rest

abbrev is_comment : String → Bool
is_comment [] = true
is_comment (c ∷ cs) = c == 35

abbrev trimmed : Option (String × String) → Option (String × String)
trimmed none = none
trimmed (some (k, v)) = some (trim_space k, trim_space v)

-- The key and the value of a line, if it is an assignment.
unfoldable pub assignment : String → Option (String × String)
assignment line =
    if is_comment (trim_space line) then none else trimmed (split_assignment (trim_space line))

abbrev pub Vars : Type 0
Vars = List (String × String)

abbrev stored : Option (String × String) → Vars → Vars
stored none vars = vars
stored (some kv) vars = kv ∷ vars

-- The map of CheckExtensionEnvFormat; the assignment that was stored last stands first.
unfoldable pub read_vars : Vars → List String → Vars
read_vars vars [] = vars
read_vars vars (l ∷ ls) = read_vars (stored (assignment l) vars) ls

-- val, ok := vars[key]
unfoldable pub var : String → Vars → Option String
var key [] = none
var key ((k, v) ∷ vars) = if eq_string k key then some v else var key vars

-- EXTENSION_ID
abbrev pub key_extension_id : String
key_extension_id = 69 ∷ 88 ∷ 84 ∷ 69 ∷ 78 ∷ 83 ∷ 73 ∷ 79 ∷ 78 ∷ 95 ∷ 73 ∷ 68 ∷ []

-- INSTRUCTION_SENDER
abbrev pub key_instruction_sender : String
key_instruction_sender =
    73 ∷ 78 ∷ 83 ∷ 84 ∷ 82 ∷ 85 ∷ 67 ∷ 84 ∷ 73 ∷ 79 ∷ 78 ∷ 95 ∷ 83 ∷ 69 ∷ 78 ∷ 68 ∷ 69 ∷ 82 ∷ []

-- The results of parseExtensionEnv.
pub record Parsed : Type 0 where
  pub extension_id : String
  pub instruction_sender : String

unfoldable pub assigned : Option (String × String) → Parsed → Parsed
assigned none p = p
assigned (some (k, v)) p =
    if eq_string k key_extension_id
    then record p { extension_id = v }
    else if eq_string k key_instruction_sender
    then record p { instruction_sender = v }
    else p

-- The loop of parseExtensionEnv.
unfoldable pub parse_lines : Parsed → List String → Parsed
parse_lines p [] = p
parse_lines p (l ∷ ls) = parse_lines (assigned (assignment l) p) ls

-- parseExtensionEnv, which never returns an error
unfoldable pub parse_extension_env : Option String → Parsed
parse_extension_env none = record { extension_id = []; instruction_sender = [] }
parse_extension_env (some text) =
    parse_lines (record { extension_id = []; instruction_sender = [] }) (split_lines text)

abbrev is_hex : ℕ → Bool
is_hex c = (leb 48 c && leb c 57) || (leb 97 c && leb c 102) || (leb 65 c && leb c 70)

unfoldable pub are_hex : String → Bool
are_hex [] = true
are_hex (c ∷ cs) = is_hex c && are_hex cs

-- ^0x[0-9a-fA-F]{n}$
unfoldable pub is_hex_of : ℕ → String → Bool
is_hex_of n (a ∷ b ∷ cs) = a == 48 && b == 120 && are_hex cs && length cs == n
is_hex_of n (a ∷ []) = false
is_hex_of n [] = false

-- addressRegex
abbrev pub is_address : String → Bool
is_address s = is_hex_of 40 s

-- extensionIDRegex
abbrev pub is_extension_id : String → Bool
is_extension_id s = is_hex_of 64 s

-- What a missing variable is for parseExtensionEnv.
abbrev pub or_empty : Option String → String
or_empty none = []
or_empty (some s) = s

distinct_keys :
    (key : String)
    → eq_string key key_extension_id ≡ true
    → eq_string key key_instruction_sender ≡ false
unfolding eq_string
distinct_keys [] h = cc
distinct_keys (c ∷ cs) h = ground arith

same_vars :
    (p : Parsed) (vars : Vars) (a : Option (String × String))
    → p.extension_id ≡ or_empty (var key_extension_id vars)
    → p.instruction_sender ≡ or_empty (var key_instruction_sender vars)
    → ((assigned a p).extension_id ≡ or_empty (var key_extension_id (stored a vars)))
      × ((assigned a p).instruction_sender ≡ or_empty (var key_instruction_sender (stored a vars)))
unfolding assigned var
same_vars p vars none h k = (h, k)
same_vars p vars (some (key, v)) h k = (ground (arith, h), ground (arith, k, distinct_keys key))

parse_lines-read_vars :
    (p : Parsed) (vars : Vars) (ls : List String)
    → p.extension_id ≡ or_empty (var key_extension_id vars)
    → p.instruction_sender ≡ or_empty (var key_instruction_sender vars)
    → ((parse_lines p ls).extension_id ≡ or_empty (var key_extension_id (read_vars vars ls)))
      × ((parse_lines p ls).instruction_sender
          ≡ or_empty (var key_instruction_sender (read_vars vars ls)))
unfolding parse_lines read_vars
parse_lines-read_vars p vars [] h k = (h, k)
parse_lines-read_vars p vars (l ∷ ls) h k =
    let next = same_vars p vars (assignment l) h k in
    parse_lines-read_vars (assigned (assignment l) p) (stored (assignment l) vars) ls next.0 next.1

-- The two readers of extension.env agree: for a file that is there, parseExtensionEnv gives what
-- the map of CheckExtensionEnvFormat has under the two keys, and an empty string for a key that it
-- lacks.
pub parse_extension_env-read_vars :
    (text : String)
    → ((parse_extension_env (some text)).extension_id
        ≡ or_empty (var key_extension_id (read_vars [] (split_lines text))))
      × ((parse_extension_env (some text)).instruction_sender
          ≡ or_empty (var key_instruction_sender (read_vars [] (split_lines text))))
unfolding parse_extension_env var
parse_extension_env-read_vars text =
    parse_lines-read_vars (record { extension_id = []; instruction_sender = [] }) []
      (split_lines text) refl refl
