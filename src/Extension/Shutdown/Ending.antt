-- ===== src/Extension/Shutdown/Ending.antt =====
-- The end of a process that has got a signal.
use mindorr.Prelude.{
  ℕ, suc, ◌+◌, ◌≤◌, Bool, true, false, Option, none, some, ◌≡◌, refl, subst, sym, arith, ◌⊎◌, inl,
  inr, if◌then◌else◌,
}
use mindorr.Extension.Shutdown.{
  Process, shutting, ProcessStep, arrives, answers, answers_late, signalled, expires, drained,
  abandons, breaks, returns,
}

-- A number of steps.
pub data Takes (p : Process) : ℕ → Process → Type 0 where
  none_yet : Takes p 0 p
  one_more : {k : ℕ} {q r : Process} → Takes p k q → ProcessStep q r → Takes p (suc k) r

-- The most steps that are left to a process in its shutdown.
abbrev left : Option ℕ → ℕ → Bool → ℕ
left (some code) active expired = 0
left none active expired = active + (if expired then 1 else 2)

abbrev steps_left : Process → ℕ
steps_left p = left p.exit p.active p.expired

-- A process in its shutdown, which runs or has exited with 0.
record IsClosing (p : Process) : Type 0 where
  closes : p.closing ≡ true
  ends : (p.exit ≡ none) ⊎ (p.exit ≡ some 0)

ProcessStep-IsClosing : {p q : Process} → ProcessStep p q → p.closing ≡ true → IsClosing q
ProcessStep-IsClosing arrives c = cc
ProcessStep-IsClosing answers c = cc
ProcessStep-IsClosing answers_late c = record { closes = refl; ends = inl refl }
ProcessStep-IsClosing signalled c = cc
ProcessStep-IsClosing expires c = record { closes = refl; ends = inl refl }
ProcessStep-IsClosing drained c = record { closes = refl; ends = inr refl }
ProcessStep-IsClosing abandons c = record { closes = refl; ends = inr refl }
ProcessStep-IsClosing (breaks e) c = cc
ProcessStep-IsClosing returns c = record { closes = refl; ends = inr refl }

ProcessStep-steps_left :
    {p q : Process} → ProcessStep p q → p.closing ≡ true → suc (steps_left q) ≤ steps_left p
ProcessStep-steps_left arrives c = cc
ProcessStep-steps_left answers c = cc
ProcessStep-steps_left answers_late c = omega arith
ProcessStep-steps_left signalled c = cc
ProcessStep-steps_left expires c = omega arith
ProcessStep-steps_left (drained {late = late}) c = ground arith
ProcessStep-steps_left abandons c = omega arith
ProcessStep-steps_left (breaks e) c = cc
ProcessStep-steps_left (returns {late = late}) c = ground arith

Takes-IsClosing : {p q : Process} {k : ℕ} → Takes p k q → IsClosing p → IsClosing q
Takes-IsClosing none_yet c = c
Takes-IsClosing (one_more steps last) c =
    ProcessStep-IsClosing last (Takes-IsClosing steps c).closes

Takes-steps_left :
    {p q : Process} {k : ℕ} → Takes p k q → IsClosing p → k + steps_left q ≤ steps_left p
Takes-steps_left none_yet c = omega arith
Takes-steps_left (one_more steps last) c =
    omega (
      arith,
      Takes-steps_left steps c,
      ProcessStep-steps_left last (Takes-IsClosing steps c).closes,
    )

-- In its shutdown a process can always exit.
IsClosing-exits :
    (q : Process) → q.closing ≡ true → q.exit ≡ none → ProcessStep q (record q { exit = some 0 })
IsClosing-exits q c e =
    subst (λ (p : Process). ProcessStep p (record p { exit = some 0 }))
      (λ i. record { active = q.active; closing = sym c i; expired = q.expired; exit = sym e i })
      (returns {n = q.active} {late = q.expired})

-- A process that gets a signal while it answers `n` requests takes at most `n + 2` more steps; and as
-- long as it has not exited with 0, there is a step that it can take.
pub Takes-ends :
    (n k : ℕ) (q : Process)
    → Takes (shutting n false) k q
    → (k ≤ n + 2) × ((q.exit ≡ some 0) ⊎ ((r : Process) × ProcessStep q r))
Takes-ends n k q steps =
    let start : IsClosing (shutting n false) = record { closes = refl; ends = inl refl } in
    let closing = Takes-IsClosing steps start in
    (
      omega (arith, Takes-steps_left steps start),
      elim closing.ends [
        | inl runs ↦ inr (record q { exit = some 0 }, IsClosing-exits q closing.closes runs)
        | inr exited ↦ inl exited
      ],
    )
