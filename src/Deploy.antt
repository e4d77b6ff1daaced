-- ===== src/Deploy.antt =====
-- tools/pkg/validate/report.go: the report of the deployment checks. The name, the message and the fix of
-- a result are text, which the constructor of its check and its status stand for.
mod Examples
pub mod Site
pub mod EnvFile
pub mod Readiness
pub mod Checks
pub mod Reporting
pub mod Ready
pub mod Prepared
pub mod Verifying
use darkstop.Base.{
  ℕ, zero, suc, ◌+◌, Bool, true, false, not, ◌&&◌, ◌||◌, Option, none, some, List, [], ◌∷◌, ◌++◌,
  ◌==◌, if◌then◌else◌,
}

pub data Status : Type 0 where
  pass warn fail skip : Status

pub data Step : Type 0 where
  deploy register services tee_version tee_machine test : Step

-- The ID and the name of a check, with the label of the address that it is about.
pub data Check : Type 0 where
  d1 d3 : ℕ → Check
  d5_key d5_funds d6 d7_file d7_sender d7_id : Check
  r1_r7 r1 r2_format r2 r3 r4 r7 : Check
  s2 s5 s7 s9 s10 v2 v4 v6 t1 t5 t10 e1 e3 e6 stub : Check

pub record CheckResult : Type 0 where
  pub step : Step
  pub check : Check
  pub status : Status

-- The results in the order in which they were added.
abbrev pub Report : Type 0
Report = List CheckResult

-- Add
unfoldable pub add : CheckResult → Report → Report
add x [] = x ∷ []
add x (r ∷ rs) = r ∷ add x rs

abbrev pub is_fail : Status → Bool
is_fail fail = true
is_fail pass = false
is_fail warn = false
is_fail skip = false

-- HasFailures
unfoldable pub has_failures : Report → Bool
has_failures [] = false
has_failures (r ∷ rs) = if is_fail r.status then true else has_failures rs

-- The four counts of Summary.
pub record Counts : Type 0 where
  pub passed : ℕ
  pub warning : ℕ
  pub failed : ℕ
  pub skipped : ℕ

unfoldable pub counted : Status → Counts → Counts
counted pass c = record c { passed = c.passed + 1 }
counted warn c = record c { warning = c.warning + 1 }
counted fail c = record c { failed = c.failed + 1 }
counted skip c = record c { skipped = c.skipped + 1 }

-- The loop of Summary.
unfoldable pub count_from : Counts → Report → Counts
count_from c [] = c
count_from c (r ∷ rs) = count_from (counted r.status c) rs

unfoldable pub summary : Report → Counts
summary rs = count_from (record { passed = 0; warning = 0; failed = 0; skipped = 0 }) rs

unfoldable pub step_code : Step → ℕ
step_code deploy = 0
step_code register = 1
step_code services = 2
step_code tee_version = 3
step_code tee_machine = 4
step_code test = 5

abbrev pub eq_step : Step → Step → Bool
eq_step s t = step_code s == step_code t

unfoldable pub has_step : Step → List Step → Bool
has_step s [] = false
has_step s (t ∷ ts) = eq_step t s || has_step s ts

-- The first loop of Fprint: the steps in the order in which they first appear; `seen` has the others.
unfoldable pub steps_of : List Step → Report → List Step
steps_of seen [] = []
steps_of seen (r ∷ rs) =
    let rest = steps_of seen rs in
    let rest_seen = steps_of (r.step ∷ seen) rs in
    if has_step r.step seen then rest else r.step ∷ rest_seen

-- The results of a step.
unfoldable pub of_step : Step → Report → Report
of_step s [] = []
of_step s (r ∷ rs) = let rest = of_step s rs in if eq_step r.step s then r ∷ rest else rest

-- The second loop of Fprint: each step with the results that are printed below it.
unfoldable pub groups : List Step → Report → List (Step × Report)
groups [] rs = []
groups (s ∷ ss) rs = (s, of_step s rs) ∷ groups ss rs

unfoldable pub printed : Report → List (Step × Report)
printed rs = groups (steps_of [] rs) rs
