-- ===== src/Report/Groups.antt =====
-- The results in the printed report of extension/tools/pkg/validate/report.go, under their steps.
use mathlib.Core.List.{append_assoc, Perm, perm_middle, perm-append_left_iff}
use mathlib.Core.List.Perm
use mindorr.Prelude.{
  map, if_elim, true, false, not, ◌||◌, String, List, [], ◌∷◌, ◌++◌, keep, ◌==◌, eq_iff, eq_refl,
  ◌≡◌, refl, arith, All, if◌then◌else◌, ap, ◌∙◌,
}
use mindorr.Report.{
  CheckResult, Report, seen, steps_from, steps, in_step, Piece, line, blank, heading, total,
  step_pieces, pieces,
}

-- No step occurs twice.
abbrev pub Distinct : List String → Type 0
Distinct [] = Unit
Distinct (s ∷ ss) = (seen s ss ≡ false) × Distinct ss

abbrev of_step : List CheckResult → String → List CheckResult
of_step l step = keep (λ res. res.step == step) l

-- The results by step, in the order in which `fprint` writes them.
abbrev pub grouped : List CheckResult → List String → List CheckResult
grouped l [] = []
grouped l (s ∷ ss) = of_step l s ++ grouped l ss

seen-append : (s t : String) (ss : List String) → seen s (ss ++ (t ∷ [])) ≡ (seen s ss || s == t)
seen-append s t [] = ground arith
seen-append s t (u ∷ ss) = ground (arith, seen-append s t ss)

Distinct-append :
    (t : String) (ss : List String) → Distinct ss → seen t ss ≡ false → Distinct (ss ++ (t ∷ []))
Distinct-append t [] d h = (refl, tt)
Distinct-append t (s ∷ ss) d h = (
  ground (arith, seen-append s t ss, eq_iff s t, eq_iff t s),
  Distinct-append t ss d.1 (ground arith),
)

abbrev AllSeen : List String → List CheckResult → Type 0
AllSeen ss = All (λ (res : CheckResult). seen res.step ss ≡ true)

-- The steps met behind one more result, as `steps_from` goes on with them.
abbrev next : List String → String → List String
next met s = if not (seen s met) then met ++ (s ∷ []) else met

next-Distinct : (met : List String) (s : String) → Distinct met → Distinct (next met s)
next-Distinct met s d =
    if_elim Distinct (not (seen s met)) (λ new. Distinct-append s met d (ground arith)) (λ _. d)

next-keeps : (s t : String) (met : List String) → seen s met ≡ true → seen s (next met t) ≡ true
next-keeps s t met h = ground (arith, seen-append s t met)

seen-next : (s : String) (met : List String) → seen s (next met s) ≡ true
seen-next s met = ground (arith, seen-append s s met, eq_refl s)

steps_from-Distinct :
    (met : List String) (l : List CheckResult) → Distinct met → Distinct (steps_from met l)
unfolding steps_from
steps_from-Distinct met [] d = d
steps_from-Distinct met (res ∷ l) d =
    steps_from-Distinct (next met res.step) l (next-Distinct met res.step d)

steps_from-keeps :
    (s : String) (met : List String) (l : List CheckResult)
    → seen s met ≡ true
    → seen s (steps_from met l) ≡ true
unfolding steps_from
steps_from-keeps s met [] h = h
steps_from-keeps s met (res ∷ l) h =
    steps_from-keeps s (next met res.step) l (next-keeps s res.step met h)

steps_from-AllSeen : (met : List String) (l : List CheckResult) → AllSeen (steps_from met l) l
unfolding steps_from
steps_from-AllSeen met [] = tt
steps_from-AllSeen met (res ∷ l) = (
  steps_from-keeps res.step (next met res.step) l (seen-next res.step met),
  steps_from-AllSeen (next met res.step) l,
)

-- A result whose step is not asked for changes no group.
grouped_unseen :
    (x : CheckResult) (l : List CheckResult) (ss : List String)
    → seen x.step ss ≡ false
    → grouped (x ∷ l) ss ≡ grouped l ss
grouped_unseen x l [] h = refl
grouped_unseen x l (s ∷ ss) h = ground (arith, grouped_unseen x l ss)

-- A result whose step is asked for once is added once.
grouped_cons :
    (x : CheckResult) (l : List CheckResult) (ss : List String)
    → Distinct ss
    → seen x.step ss ≡ true
    → Perm (grouped (x ∷ l) ss) (x ∷ grouped l ss)
grouped_cons x l [] d h = absurd (ground arith)
grouped_cons x l (s ∷ ss) d h =
    if_elim (λ g. Perm (g ++ grouped (x ∷ l) ss) (x ∷ (of_step l s ++ grouped l ss))) (x.step == s)
      (λ same. rw (grouped_unseen x l ss (ground (arith, eq_iff x.step s))) (Perm.refl _))
      (λ apart.
        Perm.trans ((perm-append_left_iff (of_step l s)).1 (grouped_cons x l ss d.1 (ground arith)))
          (perm_middle (of_step l s) (grouped l ss)))

grouped_nil : (ss : List String) → grouped [] ss ≡ []
grouped_nil [] = refl
grouped_nil (s ∷ ss) = grouped_nil ss

grouped_perm :
    (l : List CheckResult) (ss : List String) → Distinct ss → AllSeen ss l → Perm (grouped l ss) l
grouped_perm [] ss d h = rw (grouped_nil ss) (Perm.refl [])
grouped_perm (x ∷ l) ss d h =
    Perm.trans (grouped_cons x l ss d h.0) (Perm.cons x (grouped_perm l ss d h.1))

-- The results that pieces show, and the steps that they head.
abbrev pub shown : List Piece → List CheckResult
shown [] = []
shown (line res ∷ ps) = res ∷ shown ps
shown (p ∷ ps) = shown ps

abbrev pub headings : List Piece → List String
headings [] = []
headings (heading s ∷ ps) = s ∷ headings ps
headings (p ∷ ps) = headings ps

shown_lines : (l : List CheckResult) (ps : List Piece) → shown (map line l ++ ps) ≡ l ++ shown ps
shown_lines [] ps = refl
shown_lines (res ∷ l) ps = ap (λ k. res ∷ k) (shown_lines l ps)

headings_lines :
    (l : List CheckResult) (ps : List Piece) → headings (map line l ++ ps) ≡ headings ps
headings_lines [] ps = refl
headings_lines (res ∷ l) ps = headings_lines l ps

step_pieces-shows :
    (r : Report) (ss : List String)
    → (shown (step_pieces r ss ++ (total ∷ [])) ≡ grouped r.results ss)
      × (headings (step_pieces r ss ++ (total ∷ [])) ≡ ss)
step_pieces-shows r [] = (refl, refl)
step_pieces-shows r (s ∷ ss) =
    let (a, b) = step_pieces-shows r ss in
    let more = blank ∷ (step_pieces r ss ++ (total ∷ [])) in
    let own = map line (in_step r s) in
    let split : step_pieces r (s ∷ ss) ++ (total ∷ []) ≡ heading s ∷ (own ++ more) =
      append_assoc (heading s ∷ own) (blank ∷ step_pieces r ss) (total ∷ []) in
    (
      ap shown split ∙ shown_lines (in_step r s) more ∙ ap (λ k. of_step r.results s ++ k) a,
      ap headings split ∙ ap (λ k. s ∷ k) (headings_lines (in_step r s) more ∙ b),
    )

-- The printed report heads every step once, and shows the report's results, each as often as it
-- was added, grouped by step.
pub pieces-Perm :
    (r : Report)
    → Distinct (headings (pieces r))
      × Perm (shown (pieces r)) r.results
      × (shown (pieces r) ≡ grouped r.results (headings (pieces r)))
unfolding pieces steps
pieces-Perm r =
    let d = steps_from-Distinct [] r.results tt in
    let ss = steps_from [] r.results in
    let (s, h) = step_pieces-shows r ss in
    rw (s, h) (d, grouped_perm r.results ss d (steps_from-AllSeen [] r.results), refl)
