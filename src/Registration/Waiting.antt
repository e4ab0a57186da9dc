-- ===== src/Registration/Waiting.antt =====
-- The waiting of `ActionResult` for the result of an action.
use mindorr.Prelude.{
  err, Bool, List, Result, ℕ, String, ◌≡◌, refl, true, false, ◌<◌, zero, suc, arith, ap,
}
use mindorr.Registration.{Node, next, and_then, lift}
use mindorr.Wire.{Hash}
use mindorr.Registration.Requests.{action_result, ask_rounds, repeats, is_answer, answer_body}

module _ {W Log : Type 0} (n : Node W Log) (url : String) (id : Hash) where
  -- The world in which the request after `j` rounds is made: each has asked and paused 2 seconds.
  abbrev pub after_rounds : ℕ → W → W
  after_rounds zero w = w
  after_rounds (suc j) w = after_rounds j (n.sleep 2 (n.get_result url id w).1)

  -- The request after `j` rounds is answered with status 200.
  abbrev pub answers_at : ℕ → W → Bool
  answers_at j w = is_answer n (n.get_result url id (after_rounds j w)).0

  ask_rounds_first :
      (j k : ℕ) (last : Result (ℕ × List ℕ)) (w : W)
      → j < k
      → ((i : ℕ) → i < j → answers_at i w ≡ false)
      → answers_at j w ≡ true
      → ask_rounds n k url id last w ≡ n.get_result url id (after_rounds j w)
  unfolding ask_rounds
  ask_rounds_first zero (suc k) last w bound before answer = rw (ask_rounds, answer) refl
  ask_rounds_first (suc j) (suc k) last w bound before answer =
      rw (ask_rounds, before 0 (omega arith))
        (ask_rounds_first j k _ _ (omega (arith, bound)) (λ i h. before (suc i) (omega (arith, h)))
          answer)
  ask_rounds_first j zero last w bound before answer = elim bound [ ]

  -- The first of the fifteen requests that is answered with status 200 gives the result: its body is
  -- decoded, and nothing is asked behind it.
  pub action_result_first :
      (j : ℕ) (w : W)
      → j < repeats
      → ((i : ℕ) → i < j → answers_at i w ≡ false)
      → answers_at j w ≡ true
      → action_result n url id w
        ≡ and_then (n.get_result url id) (λ answer. lift (answer_body n answer)) (after_rounds j w)
  unfolding action_result
  action_result_first j w bound before answer =
      ap (next (λ (answer : ℕ × List ℕ). lift (answer_body n answer)))
        (ask_rounds_first j repeats (err "") w bound before answer)
