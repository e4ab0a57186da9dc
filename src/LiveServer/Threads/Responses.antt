-- ===== src/LiveServer/Threads/Responses.antt =====
-- The responses of the service, alone and at the same time as others, and the forms of Replying.
use mindorr.Prelude.{ℕ, Bool, true, false, Option, none, some, List, subst, sym}
use mathlib.Core.List.{Memᴰ}
use mindorr.LiveServer.Proxy.{Proxy}
use mindorr.LiveServer.Requests.{Config, Request, Service, Writer}
use mindorr.LiveServer.Server.{serve}
use mindorr.LiveServer.Threads.{Program, respond}
use mindorr.LiveServer.Threads.Alone.{perform, perform-serve_program}
use mindorr.LiveServer.Threads.Fitting.{
  Duty, Fits, responds, acquires, releases, sends, fetches, waits,
}
use mindorr.LiveServer.Threads.Interleaved.{Answered, duty_of, run_schedule-fits, started-AllFit}
use mindorr.LiveServer.Threads.Pools.{AllFit, nobody, outside, inside}
use mindorr.LiveServer.Threads.Replying.{IsResponse}
use mindorr.LiveServer.Threads.Serving.{serve_program-Fits}
use mindorr.LiveServer.Threads.Turns.{run_schedule, started}

-- What a run by itself responds, if it responds.
abbrev Responded : {W : Type 0} → (Writer → Type 0) → Option ((Writer × W) × Bool) → Type 0
Responded may_say none = Unit
Responded may_say (some ((w, world), held)) = may_say w

perform-fits :
    (p : Proxy) {A : Duty} {c : Bool} {n : ℕ} {t : Program} (w : p.World)
    → Fits A c n t
    → Responded A.may_say (perform p t c w)
unfolding perform
perform-fits p w (responds a) = a
perform-fits p w (acquires f) = perform-fits p w f
perform-fits p w (releases f) = perform-fits p w f
perform-fits p w (sends {url = url} {i = i} a f) = perform-fits p (p.post url i w).1 (f _)
perform-fits p w (fetches {url = url} f) = perform-fits p (p.get url w).1 (f _)
perform-fits p w (waits f) = perform-fits p (p.sleep w) f

Fits-said : {A : Duty} {c : Bool} {n : ℕ} {w : Writer} → Fits A c n (respond w) → A.may_say w
Fits-said (responds a) = a

AllFit-said :
    {A : Duty} {c : Bool} {n : ℕ} {ts : List Program} {w : Writer}
    → AllFit A c n ts
    → Memᴰ (respond w) ts
    → A.may_say w
AllFit-said nobody found = elim found [ ]
AllFit-said {A = A} (outside n m e f fs) (Memᴰ.head same) =
    Fits-said (subst (λ t. Fits A false n t) (sym same) f)
AllFit-said (outside n m e f fs) (Memᴰ.tail k) = AllFit-said fs k
AllFit-said {A = A} (inside n m e f fs) (Memᴰ.head same) =
    Fits-said (subst (λ t. Fits A true n t) (sym same) f)
AllFit-said (inside n m e f fs) (Memᴰ.tail k) = AllFit-said fs k

module _ (cfg : Config) (s : Service) where
  open s use {proxy}
  open proxy use {World}

  -- A request with one of the four paths is answered with an object whose key `ok` says whether all is
  -- well, and that it is only with code 200, or without a body and with code 204. A request with
  -- another path is answered what `http.ServeMux` itself answers.
  pub serve-IsReply : (r : Request) (world : World) → IsResponse s r (serve cfg s r world).0
  serve-IsReply r world =
      subst (Responded (IsResponse s r)) (perform-serve_program cfg s r world)
        (perform-fits proxy world (serve_program-Fits cfg s r))

  -- Every response that some requests have got is such a response to one of them, however their turns
  -- are interleaved.
  pub run_schedule-IsReply :
      (requests : List Request) (schedule : List ℕ) (world : World) (w : Writer)
      → Memᴰ (respond w) (run_schedule proxy schedule (started cfg s requests world)).threads
      → Answered cfg s requests w
  run_schedule-IsReply requests schedule world w found =
      let (m, fewer, fs, k) =
        run_schedule-fits proxy (duty_of cfg s requests) (λ v. Unit) (λ url v k. tt) (λ v k. tt)
          (λ url i v a k. tt) schedule (started cfg s requests world)
          (started-AllFit cfg s requests) tt in
      AllFit-said fs found
