-- ===== src/LiveServer/Threads/Sending.antt =====
-- What the thread of a request may do, and the calls that the handlers share, against that.
use mindorr.Prelude.{
  ℕ, zero, suc, Bool, true, false, String, [], ◌∷◌, Result, ok, err, ◌≡◌, refl, if_elim, concat,
  ◌==◌,
}
use mindorr.Wire.{Hash}
use mindorr.LiveServer.Proxy.{
  Instruction, Object, json, instruction, ActionResult, Fetched, ready, failed, not_ready,
  poll_rounds,
}
use mindorr.LiveServer.Requests.{Config, Request, Writer, Service, OnboardReq}
use mindorr.LiveServer.Allowed.{Allowed}
use mindorr.LiveServer.Server.{fresh}
use mindorr.LiveServer.Threads.{
  Program, settle, poll_program, policy_sent_program, acted_program, Routine, cors_program,
  locked_send,
}
use mindorr.LiveServer.Threads.Replying.{
  IsReply, IsResponse, empty, write_err-IsReply, onboarded-IsReply, responded-IsReply,
}
use mindorr.LiveServer.Threads.Fitting.{
  Duty, Fits, responds, acquires, releases, sends, fetches, waits,
}

-- The turns of `poll`: a request in each round, and a pause before each but the first.
abbrev pub poll_turns : Bool → ℕ → ℕ
poll_turns first zero = 0
poll_turns true (suc n) = suc (poll_turns false n)
poll_turns false (suc n) = suc (suc (poll_turns false n))

-- At most: the lock, the instruction, the unlock, and the turns of `poll`.
abbrev pub most_turns : ℕ
most_turns = 122

module _ (cfg : Config) (s : Service) where
  -- What a request may send, to the proxy's endpoint for instructions.
  abbrev pub MaySend : Request → String → Instruction → Type 0
  MaySend r url i = (url ≡ concat (cfg.proxy_url ∷ "/direct" ∷ [])) × Allowed cfg s r i

  abbrev pub duty : Request → Duty
  duty r = record { may_send = MaySend r; may_say = IsReply }

  -- The same, with the answers of `http.ServeMux`.
  abbrev pub whole_duty : Request → Duty
  whole_duty r = record { may_send = MaySend r; may_say = IsResponse s r }

  module _ (r : Request) where
    settle-Fits :
        (f : Fetched) (after : Result ActionResult → Program) (more : Program) (n : ℕ)
        → ((res : Result ActionResult) (m : ℕ) → Fits (duty r) false m (after res))
        → Fits (duty r) false n more
        → Fits (duty r) false n (settle cfg s f after more)
    settle-Fits (ready result) after more n h k = h _ n
    settle-Fits (failed e) after more n h k = h _ n
    settle-Fits not_ready after more n h k = k

    poll_program-Fits :
        (id : Hash) (n : ℕ) (first : Bool) (after : Result ActionResult → Program)
        → ((res : Result ActionResult) (m : ℕ) → Fits (duty r) false m (after res))
        → Fits (duty r) false (poll_turns first n) (poll_program cfg s id n first after)
    unfolding poll_program
    poll_program-Fits id zero first after h = h _ _
    poll_program-Fits id (suc n) true after h =
        fetches (λ r. settle-Fits _ after _ _ h (poll_program-Fits id n false after h))
    poll_program-Fits id (suc n) false after h =
        waits (fetches (λ r. settle-Fits _ after _ _ h (poll_program-Fits id n false after h)))

    pub acted-Fits :
        (failure : String) (sent : Result Hash) (w : Writer)
        → Fits (duty r) false (poll_turns true poll_rounds) (acted_program cfg s failure sent w)
    acted-Fits failure (err e) w = responds (write_err-IsReply _ _ w)
    acted-Fits failure (ok id) w =
        poll_program-Fits id poll_rounds true _ (λ res m. responds (responded-IsReply cfg s res w))

    pub policy_sent-Fits :
        (req : OnboardReq) (wallet risk : String) (sent : Result Hash) (w : Writer)
        → Fits
            (duty r)
            false
            (poll_turns true poll_rounds)
            (policy_sent_program cfg s req wallet risk sent w)
    policy_sent-Fits req wallet risk (err e) w = responds (write_err-IsReply _ _ w)
    policy_sent-Fits req wallet risk (ok id) w =
        poll_program-Fits id poll_rounds true _
          (λ res m. responds (onboarded-IsReply cfg s req wallet risk res w))

    pub locked_send-Fits :
        (op_command : String) (payload : Object) (after : Result Hash → Program)
        → MaySend r
            (concat (cfg.proxy_url ∷ "/direct" ∷ []))
            (instruction "VAULT" op_command (json payload))
        → ((sent : Result Hash) → Fits (duty r) false (poll_turns true poll_rounds) (after sent))
        → Fits (duty r) false most_turns (locked_send cfg s op_command payload after)
    locked_send-Fits op_command payload after a h = acquires (sends a (λ r. releases (h _)))

    pub cors-Fits :
        (next : Routine cfg s)
        → ((w' : Writer) → Fits (duty r) false most_turns (next w' r))
        → Fits (duty r) false most_turns (cors_program cfg s next fresh r)
    unfolding cors_program
    cors-Fits next h =
        if_elim (Fits (duty r) false most_turns) (r.method == "OPTIONS")
          (λ _. responds (empty refl refl)) (λ _. h _)
