-- ===== src/Registration/Resume/Production.antt =====
-- A registration that failed in its last step, which no state remembers.
use mindorr.Prelude.{
  ap, Result, String, ◌≡◌, refl, ok, err, true, Char, Bool-cases, inl, inr, subst, ◌∙◌,
}
use mindorr.Checks.Deploy.{Address}
use mindorr.Wire.{Hash}
use mindorr.Registration.{next, Io, RegistrationState, Node, done, Done}
use mindorr.Registration.Requests.{request_tee_attestation}
use mindorr.Registration.RegisterNode.{
  pre_registered, zero_hash, later_steps, first_step, tee_proxy_id, run_steps, register_node, Keys,
  SignedInfo, load_state, save_state, paused, pre, attest, check, checked, produced, completed,
  kept_id, letter, do_step, Step, contains,
}
use mindorr.Registration.Resume.{
  contains-append, Ends, do_step-Ends, skipped, Remembers, Saves, do_step-Saves, Completes,
}

-- A step that is added takes none away.
contains-completed_more :
    (l : Char) (step : Step) (id : Hash) (st : RegistrationState)
    → contains l st.completed_steps ≡ true
    → contains l (completed step id st).completed_steps ≡ true
contains-completed_more l pre id st h = contains-append l st.completed_steps "r" ∙ rw h refl
contains-completed_more l attest id st h = contains-append l st.completed_steps "R" ∙ rw h refl
contains-completed_more l check id st h = contains-append l st.completed_steps "a" ∙ rw h refl

module _ {W Log : Type 0} (n : Node W Log) (path : String) where
  abbrev Has : Char → Result (RegistrationState × Hash) × W → Type 0
  Has l (err e, w) = Unit
  Has l (ok (st, id), w) = contains l st.completed_steps ≡ true

  run_step-Has :
      (l : Char) (step : Step) (st : RegistrationState) (ran : Result Hash × W)
      → contains l st.completed_steps ≡ true
      → Has l (
          paused n path (
            next
              (λ id w. (ok (completed step id st, id), save_state n path (completed step id st) w))
              ran))
  run_step-Has l step st (err e, w) h = tt
  run_step-Has l step st (ok id, w) h = contains-completed_more l step id st h

  do_step-Has :
      (l : Char) (step : Step) (command : String) (st : RegistrationState) (fallback : Hash)
      (run : Io W Hash) (w : W)
      → contains l st.completed_steps ≡ true
      → Has l (do_step n path step command st fallback run w)
  unfolding do_step
  do_step-Has l step command st fallback run w h =
      elim (Bool-cases (contains (letter step) command)) [
        | inr left_out ↦ rw (do_step, left_out) h
        | inl asked ↦ elim (Bool-cases (contains (letter step) st.completed_steps)) [
          | inl again ↦ rw (do_step, asked, again) h
          | inr fresh ↦ rw (do_step, asked, fresh) (run_step-Has l step st (run w) h)
        ]
      ]

  module _ (info : SignedInfo) (host_url ftdc_url : String) (ftdc_tee : Address) (command : String)
      (given_id : Hash) (keys : Keys) where
    -- A run that got through the steps "r", "R" and "a", from the world `w` to `w3`, with the states
    -- and ids that they gave.
    pub record GotThrough (ids : Address × Address) (w w3 : W) : Type 0 where
      pub st : RegistrationState
      pub r1 : RegistrationState × Hash
      pub r2 : RegistrationState × Hash
      pub r3 : RegistrationState × Hash
      pub w1 : W
      pub w2 : W
      pub loads : load_state (n.read_state path w) ≡ ok st
      pub registers :
          first_step n path info host_url ftdc_url ftdc_tee command given_id ids st w ≡ (ok r1, w1)
      pub attests :
          do_step n path attest command r1.0 r1.1 (request_tee_attestation n ids.0) w1 ≡ (ok r2, w2)
      pub checks :
          do_step n path check command r2.0 given_id
            (checked n path ftdc_url ids.0 ftdc_tee r2.1)
            w2
          ≡ (ok r3, w3)

    -- The state that such a run leaves in the file has the three steps, with the id of the last.
    GotThrough-state :
        Remembers n path
        → contains "r" command ≡ true
        → contains "R" command ≡ true
        → contains "a" command ≡ true
        → (ids : Address × Address) (w w3 : W) (got : GotThrough ids w w3)
        → (load_state (n.read_state path w3) ≡ ok got.r3.0)
          × (contains "r" got.r3.0.completed_steps ≡ true)
          × (contains "R" got.r3.0.completed_steps ≡ true)
          × Completes n path check got.r3
    GotThrough-state laws has_r has_R has_a ids w w3 got =
        let run1 =
          pre_registered n path host_url ids.0 ids.1 info.machine_data info.data_signature in
        let run2 = request_tee_attestation n ids.0 in
        let run3 = checked n path ftdc_url ids.0 ftdc_tee got.r2.1 in
        let saved1 =
          subst (Saves n path) got.registers
            (do_step-Saves n path pre command got.st zero_hash run1 w laws got.loads) in
        let saved2 =
          subst (Saves n path) got.attests
            (do_step-Saves n path attest command got.r1.0 got.r1.1 run2 got.w1 laws saved1) in
        let saved3 =
          subst (Saves n path) got.checks
            (do_step-Saves n path check command got.r2.0 given_id run3 got.w2 laws saved2) in
        let ended1 =
          subst (Ends n path pre) got.registers
            (do_step-Ends n path pre command got.st zero_hash run1 w has_r) in
        let ended2 =
          subst (Ends n path attest) got.attests
            (do_step-Ends n path attest command got.r1.0 got.r1.1 run2 got.w1 has_R) in
        let ended3 =
          subst (Ends n path check) got.checks
            (do_step-Ends n path check command got.r2.0 given_id run3 got.w2 has_a) in
        let kept_r =
          subst (Has "r") got.attests
            (do_step-Has "r" attest command got.r1.0 got.r1.1 run2 got.w1 ended1.0) in
        (
          saved3,
          subst (Has "r") got.checks
              (do_step-Has "r" check command got.r2.0 given_id run3 got.w2 kept_r),
          subst (Has "R") got.checks
              (do_step-Has "R" check command got.r2.0 given_id run3 got.w2 ended2.0),
          ended3,
        )

    -- A run that failed in the step "p" resumes there. The disk reads back what is written, and a pause
    -- does not change it. A run of a command with "r", "R" and "a" has got through these steps, to the
    -- world `w3`. Then a run of the same command in a later world in which the file is as it was in `w3`
    -- sends nothing for them: it pauses three times, and goes on with the step "p" for the id of the
    -- check that the first run had.
    pub register_node-resumes_production :
        Remembers n path
        → contains "r" command ≡ true
        → contains "R" command ≡ true
        → contains "a" command ≡ true
        → (ids : Address × Address) → tee_proxy_id keys info ≡ ok ids
        → (w w3 : W) (got : GotThrough ids w w3) (w4 : W)
        → n.read_state path w4 ≡ n.read_state path w3
        → register_node n path info host_url ftdc_url ftdc_tee command given_id keys w4
          ≡ next
              (λ (d : Done) w. (ok done, n.remove_state path w))
              (produced n path command ftdc_url got.r3.1 (n.sleep 1 (n.sleep 1 (n.sleep 1 w4))))
    unfolding register_node run_steps later_steps
    register_node-resumes_production laws has_r has_R has_a ids known w w3 got w4 same =
        let (saved, r_done, R_done, a_done) =
          GotThrough-state laws has_r has_R has_a ids w w3 got in
        let again = ap load_state same ∙ saved in
        let st3 = got.r3.0 in
        let e1 =
          skipped n path pre command (st3, kept_id pre st3) zero_hash
            (pre_registered n path host_url ids.0 ids.1 info.machine_data info.data_signature) w4
            has_r (r_done, refl) in
        let e2 =
          skipped n path attest command (st3, kept_id attest st3) (kept_id pre st3)
            (request_tee_attestation n ids.0) (n.sleep 1 w4) has_R (R_done, refl) in
        let e3 =
          skipped n path check command got.r3 given_id
            (checked n path ftdc_url ids.0 ftdc_tee (kept_id attest st3)) (n.sleep 1 (n.sleep 1 w4))
            has_a a_done in
        rw (register_node, known, again, e1, e2, e3) refl
