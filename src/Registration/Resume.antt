-- ===== src/Registration/Resume.antt =====
-- What the state file is for: the steps that are completed, in a later run.
pub mod Production
mod Tests
use Prim.Native.String
use text.Mathlib.TextLemmas.{nil-append, cons-append}
use mindorr.Registration.RegisterNode.{
  pre_registered, zero_hash, later_steps, first_step, tee_proxy_id, run_steps, register_node, Keys,
  SignedInfo, load_state, save_state, paused, pre, attest, check,
}
use mindorr.Prelude.{
  ℕ, ap, Result, String, ◌≡◌, refl, ok, err, true, ◌||◌, Char, arith, Bool-cases, inl, inr, subst,
  ◌∙◌,
}
use mindorr.Registration.RegisterNode.{completed, kept_id, letter, do_step, Step, contains}
use mindorr.Wire.{Hash}
use mindorr.Registration.{holds, next, Io, RegistrationState, Node}
use mindorr.Checks.Deploy.{Address}

pub contains-append :
    (l : Char) (s t : String) → contains l (String.◌++◌ s t) ≡ (contains l s || contains l t)
unfolding contains
contains-append l String.[] t = ap (contains l) (nil-append t)
contains-append l (String.◌∷◌ c s) t =
    ap (contains l) (cons-append c s t) ∙ ground (arith, contains-append l s t)

contains-completed :
    (step : Step) (id : Hash) (st : RegistrationState)
    → contains (letter step) (completed step id st).completed_steps ≡ true
unfolding contains
contains-completed pre id st = contains-append (letter pre) st.completed_steps "r" ∙ ground arith
contains-completed attest id st =
    contains-append (letter attest) st.completed_steps "R" ∙ ground arith
contains-completed check id st =
    contains-append (letter check) st.completed_steps "a" ∙ ground arith

kept_id-completed :
    (step : Step) (id : Hash) (st : RegistrationState) → kept_id step (completed step id st) ≡ id
kept_id-completed pre id st = refl
kept_id-completed attest id st = refl
kept_id-completed check id st = refl

module _ {W Log : Type 0} (n : Node W Log) (path : String) where
  -- A state in which the step is completed, and whose id of the step is `id`.
  abbrev pub Completes : Step → RegistrationState × Hash → Type 0
  Completes step (st, id) =
      (contains (letter step) st.completed_steps ≡ true) × (kept_id step st ≡ id)

  abbrev pub Ends : Step → Result (RegistrationState × Hash) × W → Type 0
  Ends step (err e, w) = Unit
  Ends step (ok result, w) = Completes step result

  run_step-Ends :
      (step : Step) (st : RegistrationState) (ran : Result Hash × W)
      → Ends step (
          paused n path (
            next
              (λ id w. (ok (completed step id st, id), save_state n path (completed step id st) w))
              ran))
  run_step-Ends step st (err e, w) = tt
  run_step-Ends step st (ok id, w) = (contains-completed step id st, kept_id-completed step id st)

  pub do_step-Ends :
      (step : Step) (command : String) (st : RegistrationState) (fallback : Hash) (run : Io W Hash)
      (w : W)
      → contains (letter step) command ≡ true
      → Ends step (do_step n path step command st fallback run w)
  unfolding do_step
  do_step-Ends step command st fallback run w asked =
      elim (Bool-cases (contains (letter step) st.completed_steps)) [
        | inl h ↦ rw (do_step, asked, h) (h, refl)
        | inr h ↦ rw (do_step, asked, h) (run_step-Ends step st (run w))
      ]

  -- A completed step is skipped: it gives the id that it gave, whatever it would run.
  pub skipped :
      (step : Step) (command : String) (result : RegistrationState × Hash) (fallback : Hash)
      (run : Io W Hash) (w : W)
      → contains (letter step) command ≡ true
      → Completes step result
      → do_step n path step command result.0 fallback run w ≡ (ok result, n.sleep 1 w)
  unfolding do_step
  skipped step command (st, id) fallback run w asked (h, h') = ground (arith, asked, h, h')

  -- A step that has been run is not run again: if the command asks for the step and it gives a state
  -- and an id, then from that state the step gives the same state and id in every world, with no call
  -- but the pause of a second, whatever it would run.
  pub do_step-once :
      (step : Step) (command : String) (st : RegistrationState) (fallback : Hash) (run : Io W Hash)
      (w : W)
      → contains (letter step) command ≡ true
      → (result : RegistrationState × Hash) (w' : W)
      → do_step n path step command st fallback run w ≡ (ok result, w')
      → (fallback' : Hash) (run' : Io W Hash) (w'' : W)
      → do_step n path step command result.0 fallback' run' w'' ≡ (ok result, n.sleep 1 w'')
  do_step-once step command st fallback run w asked result w' e fallback' run' w'' =
      skipped step command result fallback' run' w'' asked
        (subst (Ends step) e (do_step-Ends step command st fallback run w asked))

  -- The two facts of the disk that a resumed run relies on: a state that is written is read back, and
  -- a pause leaves the file alone.
  abbrev pub Remembers : Type 0
  Remembers =
      ((st : RegistrationState) (w : W) → n.read_state path (n.write_state path st w).1 ≡ holds st)
      × ((k : ℕ) (w : W) → n.read_state path (n.sleep k w) ≡ n.read_state path w)

  abbrev pub Saves : Result (RegistrationState × Hash) × W → Type 0
  Saves (err e, w) = Unit
  Saves (ok (st, id), w) = load_state (n.read_state path w) ≡ ok st

  run_step-Saves :
      (step : Step) (st : RegistrationState) (ran : Result Hash × W)
      → Remembers
      → Saves (
          paused n path (
            next
              (λ id w. (ok (completed step id st, id), save_state n path (completed step id st) w))
              ran))
  run_step-Saves step st (err e, w) (reads, stays) = tt
  run_step-Saves step st (ok id, w) (reads, stays) =
      ap load_state (stays 1 _ ∙ reads (completed step id st) w)

  pub do_step-Saves :
      (step : Step) (command : String) (st : RegistrationState) (fallback : Hash) (run : Io W Hash)
      (w : W)
      → Remembers
      → load_state (n.read_state path w) ≡ ok st
      → Saves (do_step n path step command st fallback run w)
  unfolding do_step
  do_step-Saves step command st fallback run w laws h =
      elim (Bool-cases (contains (letter step) command)) [
        | inr asked ↦ rw (do_step, asked) h
        | inl asked ↦ elim (Bool-cases (contains (letter step) st.completed_steps)) [
          | inl again ↦ rw (do_step, asked, again) (ap load_state (laws.1 1 w) ∙ h)
          | inr fresh ↦ rw (do_step, asked, fresh) (run_step-Saves step st (run w) laws)
        ]
      ]

  module _ (info : SignedInfo) (host_url ftdc_url : String) (ftdc_tee : Address) (command : String)
      (given_id : Hash) (keys : Keys) where
    -- A run that failed behind the step "r" resumes there. The disk reads back what is written, and a
    -- pause does not change it. A run with "r" in its command has read the state `st`, and the step
    -- "r" has given `result` and the world `w1`. Then a run of the same command in a later world in
    -- which the file is as it was in `w1` sends nothing for "r": it pauses, and goes on with the later
    -- steps from the state and the id that the first run had.
    pub register_node-resumes :
        Remembers
        → contains "r" command ≡ true
        → (ids : Address × Address) → tee_proxy_id keys info ≡ ok ids
        → (w : W) (st : RegistrationState) → load_state (n.read_state path w) ≡ ok st
        → (result : RegistrationState × Hash) (w1 : W)
        → first_step n path info host_url ftdc_url ftdc_tee command given_id ids st w
          ≡ (ok result, w1)
        → (w2 : W) → n.read_state path w2 ≡ n.read_state path w1
        → register_node n path info host_url ftdc_url ftdc_tee command given_id keys w2
          ≡ later_steps n path info host_url ftdc_url ftdc_tee command given_id ids.0 result
              (n.sleep 1 w2)
    unfolding register_node run_steps
    register_node-resumes laws asked ids known w st loaded result w1 ran w2 same =
        let run =
          pre_registered n path host_url ids.0 ids.1 info.machine_data info.data_signature in
        let saved = subst Saves ran (do_step-Saves pre command st zero_hash run w laws loaded) in
        let again = ap load_state same ∙ saved in
        let once =
          do_step-once pre command st zero_hash run w asked result w1 ran zero_hash run w2 in
        rw (register_node, known, again, once) refl
