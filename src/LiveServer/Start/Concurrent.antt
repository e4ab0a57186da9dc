-- ===== src/LiveServer/Start/Concurrent.antt =====
-- `main` of extension/tools/cmd/live-server/main.go, whose server answers each request in a thread of
-- its own.
use mindorr.Prelude.{ℕ, ◌≤◌, ◌*◌, ◌≡◌, refl, Result, ok, List, all, All, true, length}
use mathlib.Core.List.{Memᴰ}
use mindorr.Registration.{Io, ◌>>◌}
use mindorr.Registration.Setup.{worded_io}
use mindorr.LiveServer.Requests.{Config, Request, Service, Writer}
use mindorr.LiveServer.Start.{Sealing, deliver_seed}
use mindorr.LiveServer.Start.Serving.{Delivers, Delivers-deliver_seed}
use mindorr.LiveServer.Threads.{respond}
use mindorr.LiveServer.Threads.Finishing.{IsFair, in_turn, run_schedule-answers}
use mindorr.LiveServer.Threads.Moving.{is_done}
use mindorr.LiveServer.Threads.Interleaved.{Answered}
use mindorr.LiveServer.Threads.Responses.{run_schedule-IsReply}
use mindorr.LiveServer.Threads.Sending.{most_turns}
use mindorr.LiveServer.Threads.Turns.{AllAnswered, Pool, run_schedule, started}

module _ (cfg : Config) (s : Service) (k : Sealing s.proxy.World) where
  open s use {proxy}
  open proxy use {World}

  abbrev ended : Pool proxy → Result (Pool proxy) × World
  ended pool = (ok pool, pool.world)

  -- `main`, on requests whose threads take their turns by the schedule.
  unfoldable pub main_threads : List Request → (schedule : List ℕ) → Io World (Pool proxy)
  unfolding deliver_seed run_schedule
  main_threads requests schedule = do
    (λ w. worded_io "deliver master seed: " (deliver_seed cfg s k w))
    (λ w. ended (run_schedule proxy schedule (started cfg s requests w)))

  -- If the proxy answers every instruction that is sent to it, nothing fails up to the sending of the
  -- seed, and a round of the polling brings a result with status 1, the server starts, and all requests
  -- are answered, however the turns of their threads are interleaved: after 122 rounds for each request,
  -- in which each thread has a turn, every thread has its response, and every response is one to one of
  -- the requests: the reply of a handler, with an object that says that all is well only with code 200
  -- or with code 204 and no body, or the answer of `http.ServeMux` to a path without a handler.
  pub main_threads-answers :
      AllAnswered proxy
      → (requests : List Request) (rounds : List (List ℕ)) (w ready : World)
      → Delivers cfg s k w ready
      → length requests * most_turns ≤ length rounds
      → All (IsFair (length requests)) rounds
      → (pool : Pool proxy) × (main_threads requests (in_turn rounds) w ≡ (ok pool, pool.world))
        × (all is_done pool.threads ≡ true)
        × ((v : Writer) → Memᴰ (respond v) pool.threads → Answered cfg s requests v)
  unfolding main_threads
  main_threads-answers answered requests rounds w ready d enough fair = (
    run_schedule proxy (in_turn rounds) (started cfg s requests ready),
    rw (Delivers-deliver_seed cfg s k w ready d) refl,
    run_schedule-answers cfg s answered requests rounds ready enough fair,
    run_schedule-IsReply cfg s requests (in_turn rounds) ready,
  )
