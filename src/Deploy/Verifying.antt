-- ===== src/Deploy/Verifying.antt =====
-- tools/cmd/verify-deploy/main.go: the checks of a step, filtered by their IDs, and the exit status.
use darkstop.Base.{
  ℕ, ◌≡◌, Bool, true, false, not, ◌&&◌, ◌||◌, Option, none, some, List, [], ◌∷◌, ◌++◌, ◌==◌,
  if◌then◌else◌,
}
use darkstop.Policy.{String, eq_string}
use darkstop.Tools.Text.{text}
use darkstop.Deploy.{
  is_fail, Check, d1, d3, d5_key, d5_funds, d6, d7_file, d7_sender, d7_id, r1_r7, r1, r2_format, r2,
  r3, r4, r7, s2, s5, s7, s9, s10, v2, v4, v6, t1, t5, t10, e1, e3, e6, stub, CheckResult, Report,
  has_failures,
}
use darkstop.Deploy.Site.{Site, is_empty}
use darkstop.Deploy.EnvFile.{trim_space}
use darkstop.Deploy.Checks.{register_deploy_checks, register_registration_checks}
use darkstop.Deploy.Readiness.{
  register_services_checks, register_tee_version_checks, register_tee_machine_checks,
  register_test_checks,
}

-- The ID of a check. A stub has that of its caller, which no step of the program is.
unfoldable pub id_of : Check → String
id_of (d1 label) = text "D1"
id_of (d3 label) = text "D3"
id_of d5_key = text "D5"
id_of d5_funds = text "D5"
id_of d6 = text "D6"
id_of d7_file = text "D7"
id_of d7_sender = text "D7"
id_of d7_id = text "D7"
id_of r1_r7 = text "R1-R7"
id_of r1 = text "R1"
id_of r2_format = text "R2"
id_of r2 = text "R2"
id_of r3 = text "R3"
id_of r4 = text "R4"
id_of r7 = text "R7"
id_of s2 = text "S2"
id_of s5 = text "S5"
id_of s7 = text "S7"
id_of s9 = text "S9"
id_of s10 = text "S10"
id_of v2 = text "V2"
id_of v4 = text "V4"
id_of v6 = text "V6"
id_of t1 = text "T1"
id_of t5 = text "T5"
id_of t10 = text "T10"
id_of e1 = text "E1"
id_of e3 = text "E3"
id_of e6 = text "E6"
id_of stub = []

abbrev push : ℕ → List String → List String
push c [] = (c ∷ []) ∷ []
push c (l ∷ ls) = (c ∷ l) ∷ ls

-- strings.Split(s, ",")
unfoldable pub split_commas : String → List String
split_commas [] = [] ∷ []
split_commas (c ∷ cs) = let rest = split_commas cs in if c == 44 then [] ∷ rest else push c rest

-- allowed[id], of the map that the filter's parts make
unfoldable pub is_among : String → List String → Bool
is_among id [] = false
is_among id (p ∷ ps) =
    (not (is_empty (trim_space p)) && eq_string (trim_space p) id) || is_among id ps

-- The result is kept by the filter; an empty filter keeps all.
unfoldable pub is_shown : String → CheckResult → Bool
is_shown filter r = is_empty filter || is_among (id_of r.check) (split_commas filter)

unfoldable pub filtered : String → Report → Report
filtered filter [] = []
filtered filter (r ∷ rs) =
    let rest = filtered filter rs in if is_shown filter r then r ∷ rest else rest

unfoldable pub all_checks : Site → Report
all_checks site =
    register_deploy_checks site
    ++ register_registration_checks site
    ++ register_services_checks site
    ++ register_tee_version_checks site
    ++ register_tee_machine_checks site
    ++ register_test_checks site

abbrev with_support : Bool → Report → Option Report
with_support has_support rs = if has_support then some rs else none

-- The switch over the step; `none` is an exit with status 1 before there is a report.
unfoldable pub checks_of : Site → Bool → String → Option Report
checks_of site has_support step =
    if eq_string step (text "deploy")
    then with_support has_support (register_deploy_checks site)
    else if eq_string step (text "register")
    then with_support has_support (register_registration_checks site)
    else if eq_string step (text "all")
    then with_support has_support (all_checks site)
    else if eq_string step (text "services")
    then some (register_services_checks site)
    else if eq_string step (text "tee-version")
    then some (register_tee_version_checks site)
    else if eq_string step (text "tee-machine")
    then some (register_tee_machine_checks site)
    else if eq_string step (text "test")
    then some (register_test_checks site)
    else none

abbrev status_of : String → Option Report → ℕ
status_of filter none = 1
status_of filter (some rs) = if has_failures (filtered filter rs) then 1 else 0

-- The exit status of the program; `has_support` is whether DefaultSupport succeeds.
unfoldable pub verify_deploy : Site → Bool → String → String → ℕ
verify_deploy site has_support step filter = status_of filter (checks_of site has_support step)

-- A result that is shown has not failed.
abbrev pub IsFine : String → CheckResult → Type 0
IsFine filter r = is_shown filter r ≡ true → is_fail r.status ≡ false
