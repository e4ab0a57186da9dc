-- ===== src/LiveServer/Threads/Interleaved.antt =====
-- What holds of the requests that the service serves at the same time, whatever the schedule.
use mindorr.Prelude.{
  ℕ, ◌*◌, ◌≤◌, Bool, true, false, List, [], ◌∷◌, ◌≡◌, refl, arith, String, length, count, map,
  if◌then◌else◌,
}
use mathlib.Core.List.{Memᴰ}
use mindorr.LiveServer.Proxy.{Proxy, Instruction}
use mindorr.LiveServer.Threads.Replying.{IsResponse}
use mindorr.LiveServer.Requests.{Writer, Config, Request, Service}
use mindorr.LiveServer.Threads.{
  Program, respond, acquire, release, send, fetch, wait, serve_program,
}
use mindorr.LiveServer.Threads.Fitting.{Duty, Fits, responds, acquires, fetches, waits, Fits-more}
use mindorr.LiveServer.Threads.Sending.{whole_duty, MaySend, most_turns}
use mindorr.LiveServer.Threads.Serving.{serve_program-Fits}
use mindorr.LiveServer.Threads.Pools.{AllFit, nobody, outside, inside, turn_at-fits}
use mindorr.LiveServer.Threads.Turns.{Pool, take_turn, run_schedule, started}

-- The thread is in the middle of sending an instruction.
abbrev pub is_sending : Program → Bool
is_sending (respond w) = false
is_sending (acquire next) = false
is_sending (release next) = false
is_sending (send url i next) = true
is_sending (fetch url next) = false
is_sending (wait next) = false

Fits-is_sending : {A : Duty} {n : ℕ} {t : Program} → Fits A false n t → is_sending t ≡ false
Fits-is_sending (responds a) = refl
Fits-is_sending (acquires f) = refl
Fits-is_sending (fetches f) = refl
Fits-is_sending (waits f) = refl

AllFit-senders :
    {A : Duty} {c : Bool} {n : ℕ} {ts : List Program}
    → AllFit A c n ts
    → count is_sending ts ≤ (if c then 1 else 0)
AllFit-senders nobody = omega arith
AllFit-senders (outside n m e f fs) = ground (arith, Fits-is_sending f, AllFit-senders fs)
AllFit-senders {ts = t ∷ ts} (inside n m e f fs) = ground (arith, AllFit-senders fs)

-- What a schedule leaves of threads that fit, in a world with a property that their calls keep.
module _ (p : Proxy) (A : Duty) (P : p.World → Type 0)
    (keep_get : (url : String) (w : p.World) → P w → P (p.get url w).1)
    (keep_sleep : (w : p.World) → P w → P (p.sleep w))
    (keep_post : (url : String) (i : Instruction) (w : p.World)
      → A.may_send url i
      → P w
      → P (p.post url i w).1) where
  pub run_schedule-fits :
      (schedule : List ℕ) (pool : Pool p) {n : ℕ}
      → AllFit A pool.held n pool.threads
      → P pool.world
      → (m : ℕ) × (m ≤ n)
        × AllFit A (run_schedule p schedule pool).held m (run_schedule p schedule pool).threads
        × P (run_schedule p schedule pool).world
  unfolding run_schedule take_turn
  run_schedule-fits [] pool {n} fs k = (n, omega arith, fs, k)
  run_schedule-fits (i ∷ schedule) pool fs k =
      let turned = turn_at-fits p A P keep_get keep_sleep keep_post i pool.held pool.world fs k in
      let (m, fewer, gs, l) =
        run_schedule-fits schedule (take_turn p i pool) turned.fits turned.keeps in
      (m, ground (arith, turned.moves, fewer), gs, l)

module _ (cfg : Config) (s : Service) where
  open s use {proxy}
  open proxy use {World}

  -- One of the requests may send the instruction to the URL.
  abbrev pub Asked : List Request → String → Instruction → Type 0
  Asked requests url i = (r : Request) × Memᴰ r requests × MaySend cfg s r url i

  -- The response is one to one of the requests.
  abbrev pub Answered : List Request → Writer → Type 0
  Answered requests w = (r : Request) × Memᴰ r requests × IsResponse s r w

  -- The duty of the threads of several requests.
  abbrev pub duty_of : List Request → Duty
  duty_of requests = record { may_send = Asked requests; may_say = Answered requests }

  AllFit-more :
      (A B : Duty) {c : Bool} {n : ℕ} {ts : List Program}
      → ((url : String) (i : Instruction) → A.may_send url i → B.may_send url i)
      → ((w : Writer) → A.may_say w → B.may_say w)
      → AllFit A c n ts
      → AllFit B c n ts
  AllFit-more A B h k nobody = nobody
  AllFit-more A B h k (outside n m e f fs) =
      outside n m e (Fits-more A B _ _ _ h k f) (AllFit-more A B h k fs)
  AllFit-more A B h k (inside n m e f fs) =
      inside n m e (Fits-more A B _ _ _ h k f) (AllFit-more A B h k fs)

  pub started-AllFit :
      (requests : List Request)
      → AllFit
          (duty_of requests)
          false
          (length requests * most_turns)
          (map (serve_program cfg s) requests)
  started-AllFit [] = nobody
  started-AllFit (r ∷ rs) =
      outside most_turns (length rs * most_turns) (omega arith)
        (Fits-more (whole_duty cfg s r) (duty_of (r ∷ rs)) _ _ _ (λ url i a. (r, Memᴰ.head refl, a))
          (λ w a. (r, Memᴰ.head refl, a)) (serve_program-Fits cfg s r))
        (AllFit-more (duty_of rs) (duty_of (r ∷ rs)) (λ url i (q, m, a). (q, Memᴰ.tail m, a))
          (λ w (q, m, a). (q, Memᴰ.tail m, a)) (started-AllFit rs))

  -- However the turns of some requests are interleaved, at most one of them is sending an
  -- instruction to the proxy at a time.
  pub run_schedule-exclusive :
      (requests : List Request) (schedule : List ℕ) (w : World)
      → count is_sending (run_schedule proxy schedule (started cfg s requests w)).threads ≤ 1
  run_schedule-exclusive requests schedule w =
      let (m, fewer, fs, k) =
        run_schedule-fits proxy (duty_of requests) (λ v. Unit) (λ url v k. tt) (λ v k. tt)
          (λ url i v a k. tt) schedule (started cfg s requests w) (started-AllFit requests) tt in
      ground (arith, AllFit-senders fs)

  -- Whatever reading results and waiting keep, and the instructions that one of the requests may send
  -- keep, is kept by serving the requests at the same time, however their turns are interleaved.
  pub run_schedule-Keeps :
      (P : World → Type 0)
      → ((url : String) (w : World) → P w → P (proxy.get url w).1)
      → ((w : World) → P w → P (proxy.sleep w))
      → (requests : List Request) (schedule : List ℕ) (w : World)
      → ((url : String) (i : Instruction) (v : World)
          → Asked requests url i
          → P v
          → P (proxy.post url i v).1)
      → P w
      → P (run_schedule proxy schedule (started cfg s requests w)).world
  run_schedule-Keeps P keep_get keep_sleep requests schedule w keep_post k =
      (run_schedule-fits proxy (duty_of requests) P keep_get keep_sleep keep_post schedule
        (started cfg s requests w) (started-AllFit requests) k).3
