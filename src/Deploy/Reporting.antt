-- ===== src/Deploy/Reporting.antt =====
-- tools/pkg/validate/report.go: what the summary and the printed report say of the results.
use darkstop.Base.{
  ℕ, ◌+◌, ◌<◌, ◌≡◌, ◌↔◌, refl, ap, ◌∙◌, Bool, true, false, ◌||◌, List, [], ◌∷◌, ◌++◌, if◌then◌else◌,
  length, arith,
}
use darkstop.Deploy.{
  Status, pass, warn, fail, skip, Step, Report, is_fail, has_failures, Counts, counted, count_from,
  summary, eq_step, has_step, steps_of, of_step, groups, printed,
}

abbrev pub total : Counts → ℕ
total c = c.passed + c.warning + c.failed + c.skipped

counted-total : (s : Status) (c : Counts) → total (counted s c) ≡ total c + 1
unfolding counted
counted-total pass c = omega arith
counted-total warn c = omega arith
counted-total fail c = omega arith
counted-total skip c = omega arith

count_from-total : (c : Counts) (rs : Report) → total (count_from c rs) ≡ total c + length rs
unfolding count_from
count_from-total c [] = omega arith
count_from-total c (r ∷ rs) =
    omega (arith, count_from-total (counted r.status c) rs, counted-total r.status c)

counted-failed :
    (s : Status) (c : Counts)
    → (counted s c).failed ≡ (if is_fail s then c.failed + 1 else c.failed)
unfolding counted
counted-failed pass c = refl
counted-failed warn c = refl
counted-failed fail c = refl
counted-failed skip c = refl

count_from-failed :
    (c : Counts) (rs : Report)
    → (0 < (count_from c rs).failed) ↔ (0 < (if has_failures rs then 1 else c.failed))
unfolding count_from has_failures
count_from-failed c [] = ground arith
count_from-failed c (r ∷ rs) =
    ground (arith, count_from-failed (counted r.status c) rs, counted-failed r.status c)

-- The four counts of the summary add up to the number of results, and the third is positive exactly
-- if HasFailures.
pub summary_lem :
    (rs : Report)
    → (total (summary rs) ≡ length rs) × ((has_failures rs ≡ true) ↔ (0 < (summary rs).failed))
unfolding summary
summary_lem rs = (
  omega (arith, count_from-total (record { passed = 0; warning = 0; failed = 0; skipped = 0 }) rs),
  ground
      (arith, count_from-failed (record { passed = 0; warning = 0; failed = 0; skipped = 0 }) rs),
)

-- The step of some result.
unfoldable pub occurs : Step → Report → Bool
occurs s [] = false
occurs s (r ∷ rs) = eq_step r.step s || occurs s rs

of_step-occurs : (s : Step) (rs : Report) → occurs s rs ≡ false → of_step s rs ≡ []
unfolding occurs of_step
of_step-occurs s [] h = refl
of_step-occurs s (r ∷ rs) h = ground (arith, of_step-occurs s rs)

of_step-code : (s t : Step) (rs : Report) → eq_step s t ≡ true → of_step s rs ≡ of_step t rs
unfolding of_step
of_step-code s t [] h = refl
of_step-code s t (r ∷ rs) h = ground (arith, of_step-code s t rs h)

of_step-of_step :
    (s t : Step) (rs : Report)
    → of_step t (of_step s rs) ≡ (if eq_step s t then of_step t rs else [])
unfolding of_step
of_step-of_step s t [] = ground arith
of_step-of_step s t (r ∷ rs) = ground (arith, of_step-of_step s t rs)

of_step-append : (t : Step) (xs ys : Report) → of_step t (xs ++ ys) ≡ of_step t xs ++ of_step t ys
unfolding of_step
of_step-append t [] ys = refl
of_step-append t (x ∷ xs) ys = ground (arith, of_step-append t xs ys)

has_step-steps_of :
    (s : Step) (seen : List Step) (rs : Report)
    → has_step s (steps_of seen rs) ≡ (if has_step s seen then false else occurs s rs)
unfolding has_step steps_of occurs
has_step-steps_of s seen [] = ground arith
has_step-steps_of s seen (r ∷ rs) =
    ground (arith, has_step-steps_of s seen rs, has_step-steps_of s (r.step ∷ seen) rs)

abbrev IsDistinct : List Step → Type 0
IsDistinct [] = Unit
IsDistinct (s ∷ ss) = (has_step s ss ≡ false) × IsDistinct ss

steps_of-IsDistinct : (seen : List Step) (rs : Report) → IsDistinct (steps_of seen rs)
unfolding has_step steps_of
steps_of-IsDistinct seen [] = tt
steps_of-IsDistinct seen (r ∷ rs) = ground (
  arith,
  steps_of-IsDistinct seen rs,
  steps_of-IsDistinct (r.step ∷ seen) rs,
  has_step-steps_of r.step (r.step ∷ seen) rs,
)

-- The results in the order in which Fprint prints them.
unfoldable pub lines : List (Step × Report) → Report
lines [] = []
lines ((s, rs) ∷ gs) = rs ++ lines gs

append-[] : (rs : Report) → rs ++ [] ≡ rs
append-[] [] = refl
append-[] (r ∷ rs) = ap (λ xs. r ∷ xs) (append-[] rs)

has_step-code : (s t : Step) (ss : List Step) → eq_step s t ≡ true → has_step s ss ≡ has_step t ss
unfolding has_step
has_step-code s t [] h = refl
has_step-code s t (u ∷ ss) h = ground (arith, has_step-code s t ss h)

of_step-groups :
    (t : Step) (ss : List Step) (rs : Report)
    → IsDistinct ss
    → of_step t (lines (groups ss rs)) ≡ (if has_step t ss then of_step t rs else [])
unfolding of_step groups lines has_step
of_step-groups t [] rs d = refl
of_step-groups t (s ∷ ss) rs d =
    of_step-append t (of_step s rs) (lines (groups ss rs))
    ∙ ground (
      arith,
      of_step-of_step s t rs,
      of_step-groups t ss rs d.1,
      has_step-code s t ss,
      append-[] (of_step t rs),
      d.0,
    )

-- For each step, the printed report has exactly the step's results, in the order in which they were
-- added.
pub printed_lem : (t : Step) (rs : Report) → of_step t (lines (printed rs)) ≡ of_step t rs
unfolding printed has_step
printed_lem t rs =
    of_step-groups t (steps_of [] rs) rs (steps_of-IsDistinct [] rs)
    ∙ ground (arith, has_step-steps_of t [] rs, of_step-occurs t rs)
