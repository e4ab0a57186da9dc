-- ===== src/LiveServer/Threads/Turns.antt =====
-- Threads that take turns. A schedule says whose turn it is, and a turn is one call of the thread: of
-- the mutex, the proxy or the clock.
use mindorr.Prelude.{ℕ, zero, suc, Bool, true, false, String, ◌≡◌, List, [], ◌∷◌, map}
use mindorr.LiveServer.Proxy.{Proxy, Instruction}
use mindorr.LiveServer.Requests.{Config, Request, Service}
use mindorr.LiveServer.Threads.{
  Program, respond, acquire, release, send, fetch, wait, serve_program,
}

-- Several threads, whether the mutex is held, and the world.
pub record Pool (p : Proxy) : Type 0 where
  pub threads : List Program
  pub held : Bool
  pub world : p.World

module _ (p : Proxy) where
  open p use {World}

  -- A turn of a thread. A thread that is done, that waits for the mutex, or whose `http.Post` has no
  -- answer yet, stays as it is.
  unfoldable pub turn : Program → Bool → World → Program × Bool × World
  turn (respond w) held world = (respond w, held, world)
  turn (acquire next) true world = (acquire next, true, world)
  turn (acquire next) false world = (next, true, world)
  turn (release next) held world = (next, false, world)
  turn (send url i next) held world = elim (p.hangs url i world) [
    | true ↦ (send url i next, held, world)
    | false ↦ let (r, world') = p.post url i world in (next r, held, world')
  ]
  turn (fetch url next) held world = let (r, world') = p.get url world in (next r, held, world')
  turn (wait next) held world = (next, held, p.sleep world)

  -- The turn of the thread with a number; a number of no thread is no turn.
  unfoldable pub turn_at : ℕ → List Program → Bool → World → List Program × Bool × World
  unfolding turn
  turn_at n [] held world = ([], held, world)
  turn_at zero (t ∷ ts) held world =
      let (t', held', world') = turn t held world in (t' ∷ ts, held', world')
  turn_at (suc n) (t ∷ ts) held world =
      let (ts', held', world') = turn_at n ts held world in (t ∷ ts', held', world')

  unfoldable pub take_turn : ℕ → Pool p → Pool p
  unfolding turn_at
  take_turn n pool =
      let (threads, held, world) = turn_at n pool.threads pool.held pool.world in
      record { threads = threads; held = held; world = world }

  -- A schedule: whose turn it is, one after the other.
  unfoldable pub run_schedule : List ℕ → Pool p → Pool p
  unfolding take_turn
  run_schedule [] pool = pool
  run_schedule (n ∷ schedule) pool = run_schedule schedule (take_turn n pool)

-- The proxy answers every `http.Post`, so that none goes on waiting.
abbrev pub AllAnswered : Proxy → Type 0
AllAnswered p = (url : String) (i : Instruction) (w : p.World) → p.hangs url i w ≡ false

-- The threads of some requests, before any has had a turn.
abbrev pub started : (cfg : Config) (s : Service) → List Request → s.proxy.World → Pool s.proxy
started cfg s requests world = record {
  threads = map (serve_program cfg s) requests;
  held = false;
  world = world;
}
