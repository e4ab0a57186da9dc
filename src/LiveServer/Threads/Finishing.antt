-- ===== src/LiveServer/Threads/Finishing.antt =====
-- Fair turns of the threads, round by round, and what they leave.
use mindorr.Prelude.{
  ℕ, zero, suc, ◌*◌, ◌≤◌, ◌<◌, Bool, true, List, [], ◌∷◌, ◌++◌, ◌≡◌, refl, ◌∙◌, inl, inr, arith,
  length, map, all, All, ap, sym, subst,
}
use mathlib.Core.List.{Memᴰ}
use mindorr.LiveServer.Proxy.{Proxy}
use mindorr.LiveServer.Requests.{Config, Request, Service}
use mindorr.LiveServer.Threads.{
  Program, respond, acquire, release, send, fetch, wait, serve_program,
}
use mindorr.LiveServer.Threads.Sending.{most_turns}
use mindorr.LiveServer.Threads.Pools.{AllFit, turn_at-fits}
use mindorr.LiveServer.Threads.Moving.{is_done, Moves, some-Moves}
use mindorr.LiveServer.Threads.Fitting.{Duty}
use mindorr.LiveServer.Threads.Turns.{
  AllAnswered, Pool, turn, turn_at, take_turn, run_schedule, started,
}
use mindorr.LiveServer.Threads.Interleaved.{duty_of, started-AllFit, run_schedule-fits}

-- A round gives each of `n` threads a turn, in any order and as often as it likes.
abbrev pub IsFair : ℕ → List ℕ → Type 0
IsFair n round = (i : ℕ) → i < n → Memᴰ i round

-- Rounds one after the other.
abbrev pub in_turn : List (List ℕ) → List ℕ
in_turn [] = []
in_turn (round ∷ rounds) = round ++ in_turn rounds

module _ (p : Proxy) where
  open p use {World}

  length-turn_at :
      (i : ℕ) (ts : List Program) (h : Bool) (w : World) → length (turn_at p i ts h w).0 ≡ length ts
  unfolding turn_at
  length-turn_at i [] h w = refl
  length-turn_at zero (t ∷ ts) h w = refl
  length-turn_at (suc i) (t ∷ ts) h w = ap suc (length-turn_at i ts h w)

  length-run_schedule :
      (schedule : List ℕ) (pool : Pool p)
      → length (run_schedule p schedule pool).threads ≡ length pool.threads
  unfolding run_schedule take_turn
  length-run_schedule [] pool = refl
  length-run_schedule (i ∷ schedule) pool =
      length-run_schedule schedule (take_turn p i pool)
      ∙ length-turn_at i pool.threads pool.held pool.world

  run_schedule-append :
      (a b : List ℕ) (pool : Pool p)
      → run_schedule p (a ++ b) pool ≡ run_schedule p b (run_schedule p a pool)
  unfolding run_schedule
  run_schedule-append [] b pool = refl
  run_schedule-append (i ∷ a) b pool = run_schedule-append a b (take_turn p i pool)

  turn_at-done :
      (i : ℕ) (ts : List Program) (h : Bool) (w : World)
      → all is_done ts ≡ true
      → all is_done (turn_at p i ts h w).0 ≡ true
  unfolding turn_at turn
  turn_at-done i [] h w d = refl
  turn_at-done zero (respond r ∷ ts) h w d = d
  turn_at-done zero (acquire t ∷ ts) h w d = absurd (ground arith)
  turn_at-done zero (release t ∷ ts) h w d = absurd (ground arith)
  turn_at-done zero (send url i t ∷ ts) h w d = absurd (ground arith)
  turn_at-done zero (fetch url t ∷ ts) h w d = absurd (ground arith)
  turn_at-done zero (wait t ∷ ts) h w d = absurd (ground arith)
  turn_at-done (suc i) (t ∷ ts) h w d = ground (arith, turn_at-done i ts h w)

  run_schedule-done :
      (schedule : List ℕ) (pool : Pool p)
      → all is_done pool.threads ≡ true
      → all is_done (run_schedule p schedule pool).threads ≡ true
  unfolding run_schedule take_turn
  run_schedule-done [] pool d = d
  run_schedule-done (i ∷ schedule) pool d =
      run_schedule-done schedule (take_turn p i pool)
        (turn_at-done i pool.threads pool.held pool.world d)

  module _ (A : Duty) where
    -- What is left of threads that fit, with fewer turns.
    abbrev Fewer : ℕ → Pool p → Type 0
    Fewer n pool = (m : ℕ) × (m < n) × AllFit A pool.held m pool.threads

    rest-Fewer :
        (schedule : List ℕ) (pool : Pool p) (n : ℕ)
        → Fewer n pool
        → Fewer n (run_schedule p schedule pool)
    rest-Fewer schedule pool n (m, fewer, fs) =
        let (k, le, gs, u) =
          run_schedule-fits p A (λ w. Unit) (λ url w h. tt) (λ w h. tt) (λ url i w a h. tt) schedule
            pool fs tt in
        (k, omega (arith, fewer, le), gs)

    -- A schedule with the turn of a thread that moves leaves fewer turns.
    schedule-Fewer :
        (schedule : List ℕ) (pool : Pool p) (n i : ℕ)
        → AllFit A pool.held n pool.threads
        → Memᴰ i schedule
        → Moves p A i pool.threads pool.held pool.world n
        → Fewer n (run_schedule p schedule pool)
    unfolding run_schedule take_turn
    schedule-Fewer [] pool n i fs found moves = elim found [ ]
    schedule-Fewer (j ∷ schedule) pool n i fs (Memᴰ.head e) (m, fewer, gs) =
        rest-Fewer schedule (take_turn p j pool) n
          (subst (λ k. Fewer n (take_turn p k pool)) e (m, fewer, gs))
    schedule-Fewer (j ∷ schedule) pool n i fs (Memᴰ.tail later) moves =
        let turned =
          turn_at-fits p A (λ w. Unit) (λ url w h. tt) (λ w h. tt) (λ url k w a h. tt) j pool.held
            pool.world fs tt in
        elim turned.moves [
          | inl fewer ↦ rest-Fewer schedule (take_turn p j pool) n (turned.left, fewer, turned.fits)
          | inr (same, unchanged) ↦
              subst (λ q. Fewer n (run_schedule p schedule q)) (sym (ap remade unchanged))
                (schedule-Fewer schedule pool n i fs later moves)
        ]
      where
        remade : List Program × Bool × World → Pool p
        remade (threads, held, world) = record { threads = threads; held = held; world = world }

    rounds-done :
        AllAnswered p
        → (rounds : List (List ℕ)) (pool : Pool p) (n : ℕ) → AllFit A pool.held n pool.threads
        → n ≤ length rounds
        → All (IsFair (length pool.threads)) rounds
        → all is_done (run_schedule p (in_turn rounds) pool).threads ≡ true
    rounds-done answered [] pool n fs le fair =
        elim (some-Moves p A pool.held pool.world answered fs) [
          | inl done ↦ run_schedule-done [] pool done
          | inr (i, lt, (m, fewer, gs)) ↦ absurd (omega (arith, fewer, le))
        ]
    rounds-done answered (round ∷ rounds) pool n fs le (fair, fairs) =
        elim (some-Moves p A pool.held pool.world answered fs) [
          | inl done ↦ run_schedule-done (in_turn (round ∷ rounds)) pool done
          | inr (i, lt, moves) ↦
              let next = run_schedule p round pool in
              let (m, fewer, gs) = schedule-Fewer round pool n i fs (fair i lt) moves in
              subst (λ q. all is_done q.threads ≡ true)
                (sym (run_schedule-append round (in_turn rounds) pool))
                (rounds-done answered rounds next m gs (omega (arith, fewer, le))
                  (subst (λ k. All (IsFair k) rounds) (sym (length-run_schedule round pool)) fairs))
        ]

module _ (cfg : Config) (s : Service) where
  -- If the proxy answers every instruction that is sent to it, requests that are served at the same
  -- time are all answered, without a deadlock: after 122 rounds for each request, in which each thread
  -- has a turn, every thread has its response.
  pub run_schedule-answers :
      AllAnswered s.proxy
      → (requests : List Request) (rounds : List (List ℕ)) (w : s.proxy.World)
      → length requests * most_turns ≤ length rounds
      → All (IsFair (length requests)) rounds
      → all is_done (run_schedule s.proxy (in_turn rounds) (started cfg s requests w)).threads
        ≡ true
  run_schedule-answers answered requests rounds w enough fair =
      rounds-done s.proxy (duty_of cfg s requests) answered rounds (started cfg s requests w)
        (length requests * most_turns) (started-AllFit cfg s requests) enough
        (subst (λ k. All (IsFair k) rounds) (sym (length-threads requests)) fair)
    where
      length-threads : (rs : List Request) → length (map (serve_program cfg s) rs) ≡ length rs
      length-threads [] = refl
      length-threads (r ∷ rs) = ap suc (length-threads rs)
