-- ===== src/Extension/Threads/Numbers.antt =====
-- The numbers in the greetings that processSayHello of extension/go/internal/extension/extension.go
-- gives to concurrent requests.
use mindorr.Prelude.{
  ℕ, zero, suc, ◌%◌, List, [], ◌∷◌, Option, none, ◌≡◌, refl, arith, sym, subst, map, ◌∙◌,
}
use mathlib.Core.List.{Perm, filter_map}
use mathlib.Core.List.Perm
use mindorr.Extension.Types.{Codec, Extension, new, increment, int_mod}
use mindorr.Extension.Steps.{action_handler-Effect, response_of}
use mindorr.Extension.Numbers.{hello_number, Counted, same, raised, hello_number-Counted}
use mindorr.Extension.Threads.{
  Request, post_action, get_state, RequestOutcome, replied, shown, request_thread, handle,
}
use mindorr.Extension.Threads.Locking.{readers, run_schedule, answered_so_far}
use mindorr.Extension.Threads.Serial.{Serves, nothing, later}
use mindorr.Extension.Threads.Concurrent.{run_schedule-IsSerial}

-- The numbers from `k` down to 1, as 64 bits hold them.
abbrev pub numbered : ℕ → List ℕ
numbered zero = []
numbered (suc k) = suc k % int_mod ∷ numbered k

module _ (c : Codec) where
  abbrev pub outcome_number : RequestOutcome c → Option ℕ
  outcome_number (replied code body) = hello_number (response_of body)
  outcome_number (shown state) = none

  abbrev pub greeting_number : Request × RequestOutcome c → Option ℕ
  greeting_number (r, o) = outcome_number o

  -- A request answered with a greeting takes the next number, and any other takes none.
  handle-Counted :
      (r : Request) (s : Extension)
      → Counted s.greeting_count (handle c r s).1.greeting_count (outcome_number (handle c r s).0)
  unfolding handle
  handle-Counted (post_action r) s = hello_number-Counted c s _ (action_handler-Effect c s r)
  handle-Counted get_state s = same refl refl

  abbrev Numbered : List (Request × RequestOutcome c) → Extension → Type 0
  Numbered log s =
      (k : ℕ) × (filter_map greeting_number log ≡ numbered k) × (s.greeting_count ≡ k % int_mod)

  later-Numbered :
      (log : List (Request × RequestOutcome c)) (s s' : Extension) (r : Request)
      (o : RequestOutcome c)
      → Counted s.greeting_count s'.greeting_count (outcome_number o)
      → Numbered log s
      → Numbered ((r, o) ∷ log) s'
  unfolding filter_map
  later-Numbered log s s' r o (same h e) (k, ns, n) = (k, rw h ns, e ∙ n)
  later-Numbered log s s' r o (raised h e) (k, ns, n) =
      let next : increment s.greeting_count ≡ suc k % int_mod = omega (arith, n) in
      (suc k, rw (h, next, ns) refl, e ∙ next)

  Serves-Numbered :
      {log : List (Request × RequestOutcome c)} {s : Extension}
      → Serves (handle c) new log s
      → Numbered log s
  unfolding filter_map
  Serves-Numbered nothing = (0, refl, omega arith)
  Serves-Numbered (later {log = log} {m1 = m1} {m2 = m2} {r = r} {o = o} served e) =
      later-Numbered log m1 m2 r o
        (subst
          (λ (x : RequestOutcome c × Extension).
            Counted m1.greeting_count x.1.greeting_count (outcome_number x.0))
          e (handle-Counted r m1))
        (Serves-Numbered served)

  -- Requests to a new server at the same time, whatever the schedule of the single reads and writes of
  -- their goroutines: the numbers in the greetings that have been given are 1, 2 and so on up to some
  -- number, modulo `2 ^ 64`, each once, in some order; no increment is lost.
  pub run_schedule-numbers :
      (rs : List Request) (schedule : List ℕ)
      → (k : ℕ) × Perm
          (filter_map greeting_number (
            answered_so_far rs
              (run_schedule schedule (map (request_thread c) rs, readers 0, new)).0))
          (numbered k)
  run_schedule-numbers rs schedule =
      let serial = run_schedule-IsSerial c new rs schedule in
      let (k, ns, n) = Serves-Numbered serial.served in
      (
        k,
        Perm.trans (Perm.filter_map greeting_number (Perm.symm serial.answers))
            (subst (λ l. Perm l (numbered k)) (sym ns) (Perm.refl (numbered k))),
      )
