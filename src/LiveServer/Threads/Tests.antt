-- ===== src/LiveServer/Threads/Tests.antt =====
-- Two requests that are served at the same time.
use mindorr.Prelude.{
  ℕ, zero, suc, ◌≤◌, true, false, some, String, List, [], ◌∷◌, ◌≡◌, refl, arith, count, all, All,
  replicate,
}
use mathlib.Core.List.{Memᴰ}
use mindorr.LiveServer.Address.{valid_addr}
use mindorr.LiveServer.Proxy.{Instruction}
use mindorr.LiveServer.Requests.{Request}
use mindorr.LiveServer.Server.{serve}
use mindorr.LiveServer.Tests.{config, service, recording, ask, ToVault, keeps_ToVault}
use mindorr.LiveServer.Threads.{serve_program}
use mindorr.LiveServer.Threads.Alone.{perform, perform-serve_program}
use mindorr.LiveServer.Threads.Turns.{run_schedule, started}
use mindorr.LiveServer.Threads.Interleaved.{
  Asked, is_sending, run_schedule-exclusive, run_schedule-Keeps,
}
use mindorr.LiveServer.Threads.Moving.{is_done}
use mindorr.LiveServer.Threads.Replying.{IsResponse}
use mindorr.LiveServer.Threads.Responses.{serve-IsReply}
use mindorr.LiveServer.Threads.Finishing.{IsFair, in_turn, run_schedule-answers}

abbrev both : List Request
both = ask "/allocate" "POST" "secret" ∷ ask "/withdraw" "POST" "secret" ∷ []

perform-serve_program_example :
    perform recording (serve_program config service (ask "/onboard" "POST" "secret")) false []
    ≡ some (serve config service (ask "/onboard" "POST" "secret") [], false)
perform-serve_program_example =
    perform-serve_program config service (ask "/onboard" "POST" "secret") []

-- Both want the mutex, and the first gets it.
run_schedule-exclusive_example :
    count is_sending
      (run_schedule recording (0 ∷ 1 ∷ 1 ∷ []) (started config service both [])).threads
    ≤ 1
run_schedule-exclusive_example = run_schedule-exclusive config service both (0 ∷ 1 ∷ 1 ∷ []) []

Asked-ToVault :
    (url : String) (i : Instruction) (v : List Instruction)
    → Asked config service both url i
    → ToVault v
    → ToVault (recording.post url i v).1
Asked-ToVault url i v (r, found, (at, a)) k = keeps_ToVault r i v a k

run_schedule-Keeps_example :
    ToVault
      (run_schedule recording
        (0 ∷ 1 ∷ 0 ∷ 0 ∷ 1 ∷ 1 ∷ 1 ∷ [])
        (started config service both [])).world
run_schedule-Keeps_example =
    run_schedule-Keeps config service ToVault (λ url w h. h) (λ w h. h) both
      (0 ∷ 1 ∷ 0 ∷ 0 ∷ 1 ∷ 1 ∷ 1 ∷ []) [] Asked-ToVault tt

both-IsFair : IsFair 2 (0 ∷ 1 ∷ [])
both-IsFair zero lt = Memᴰ.head refl
both-IsFair (suc zero) lt = Memᴰ.tail (Memᴰ.head refl)
both-IsFair (suc (suc i)) lt = absurd (omega (arith, lt))

All-IsFair : (n : ℕ) → All (IsFair 2) (replicate n (0 ∷ 1 ∷ []))
All-IsFair zero = tt
All-IsFair (suc n) = (both-IsFair, All-IsFair n)

both_answered :
    all is_done
      (run_schedule recording
        (in_turn (replicate 244 (0 ∷ 1 ∷ [])))
        (started config service both [])).threads
    ≡ true
both_answered =
    run_schedule-answers config service (λ url i w. refl) both (replicate 244 (0 ∷ 1 ∷ [])) []
      (omega arith) (All-IsFair 244)

-- The first thread holds the mutex and sends, the second waits.
first_sends :
    count is_sending
      (run_schedule recording (0 ∷ 1 ∷ 1 ∷ []) (started config service both [])).threads
    ≡ 1
unfolding run_schedule serve_program valid_addr
first_sends = refl

serve-IsReply_example :
    IsResponse service
      (ask "/withdraw" "POST" "secret")
      (serve config service (ask "/withdraw" "POST" "secret") []).0
serve-IsReply_example = serve-IsReply config service (ask "/withdraw" "POST" "secret") []
