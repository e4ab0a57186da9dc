-- ===== src/Report/Counts.antt =====
-- The counters of the summary, and the failure test.
use mindorr.Prelude.{
  ◌⊎◌, ℕ, ◌+◌, ◌<◌, Bool, true, false, List, [], ◌∷◌, ◌++◌, count, ◌≡◌, ◌↔◌, arith, if◌then◌else◌,
}
use mindorr.Report.{
  Status, pass, warn, fail, skip, other, CheckResult, Report, is_fail, has_fail, has_failures,
  Tally, tally_one, tally_from, tally, is_warn, add,
}

abbrev pub is_pass : Status → Bool
is_pass pass = true
is_pass _ = false

abbrev pub is_skip : Status → Bool
is_skip skip = true
is_skip _ = false

-- How many results have a status that passes the test.
abbrev pub number : (Status → Bool) → List CheckResult → ℕ
number p = count (λ res. p res.status)

tally_from_counts :
    (t : Tally) (l : List CheckResult)
    → ((tally_from t l).passed ≡ t.passed + number is_pass l)
      × ((tally_from t l).warning ≡ t.warning + number is_warn l)
      × ((tally_from t l).failed ≡ t.failed + number is_fail l)
      × ((tally_from t l).skipped ≡ t.skipped + number is_skip l)
unfolding tally_from
tally_from_counts t [] = omega arith
tally_from_counts t (res ∷ l) =
    tally_one_counts res.status (tally_from_counts (tally_one t res.status) l)
  where
    tally_one_counts :
        (s : Status)
        → ((tally_from (tally_one t s) l).passed ≡ (tally_one t s).passed + number is_pass l)
          × ((tally_from (tally_one t s) l).warning ≡ (tally_one t s).warning + number is_warn l)
          × ((tally_from (tally_one t s) l).failed ≡ (tally_one t s).failed + number is_fail l)
          × ((tally_from (tally_one t s) l).skipped ≡ (tally_one t s).skipped + number is_skip l)
        → ((tally_from (tally_one t s) l).passed
            ≡ t.passed + ((if is_pass s then 1 else 0) + number is_pass l))
          × ((tally_from (tally_one t s) l).warning
              ≡ t.warning + ((if is_warn s then 1 else 0) + number is_warn l))
          × ((tally_from (tally_one t s) l).failed
              ≡ t.failed + ((if is_fail s then 1 else 0) + number is_fail l))
          × ((tally_from (tally_one t s) l).skipped
              ≡ t.skipped + ((if is_skip s then 1 else 0) + number is_skip l))
    tally_one_counts pass h = omega arith
    tally_one_counts warn h = omega arith
    tally_one_counts fail h = omega arith
    tally_one_counts skip h = omega arith
    tally_one_counts (other n) h = omega arith

-- Each counter of the summary is the number of results with its status.
pub tally_counts :
    (r : Report)
    → ((tally r).passed ≡ number is_pass r.results)
      × ((tally r).warning ≡ number is_warn r.results)
      × ((tally r).failed ≡ number is_fail r.results)
      × ((tally r).skipped ≡ number is_skip r.results)
unfolding tally
tally_counts r =
    let h =
      tally_from_counts (record { passed = 0; warning = 0; failed = 0; skipped = 0 }) r.results in
    omega arith

has_fail-number : (l : List CheckResult) → (has_fail l ≡ true) ↔ (0 < number is_fail l)
unfolding has_fail
has_fail-number [] = ground arith
has_fail-number (res ∷ l) = ground (arith, has_fail-number l)

-- A report has failures exactly when its summary counts one or more.
pub has_failures_iff : (r : Report) → (has_failures r ≡ true) ↔ (0 < (tally r).failed)
unfolding has_failures
has_failures_iff r =
    let counts = tally_counts r in let h = has_fail-number r.results in ground arith

-- Adding a result never clears a failure, and adds one exactly if the result is one.
pub has_failures-add :
    (r : Report) (res : CheckResult)
    → (has_failures (add r res) ≡ true) ↔ ((has_failures r ≡ true) ⊎ (res.status ≡ fail))
unfolding has_failures
has_failures-add r res = has_fail-append r.results res
  where
    has_fail-append :
        (l : List CheckResult) (x : CheckResult)
        → (has_fail (l ++ (x ∷ [])) ≡ true) ↔ ((has_fail l ≡ true) ⊎ (x.status ≡ fail))
    has_fail-append [] x = ground arith
    has_fail-append (y ∷ l) x = ground (arith, has_fail-append l x)
