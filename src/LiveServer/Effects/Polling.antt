-- ===== src/LiveServer/Effects/Polling.antt =====
-- What waiting for an answer keeps of the world.
use mindorr.Prelude.{ℕ, zero, suc, Bool, true, false, String, Result, ok, err, if◌then◌else◌}
use mindorr.Wire.{Hash}
use mindorr.LiveServer.Proxy.{
  decide, poll_rounds, ActionResult, Fetched, ready, failed, not_ready, fetch_submit_result,
  poll_from, poll,
}
use mindorr.LiveServer.Handlers.{policy_sent, acted}
use mindorr.LiveServer.Requests.{Config, Writer, Service, OnboardReq}

-- A property of worlds that reading results and waiting keep.
module _ (cfg : Config) (s : Service) (P : s.proxy.World → Type 0)
    (keep_get : (url : String) (w : s.proxy.World) → P w → P (s.proxy.get url w).1)
    (keep_sleep : (w : s.proxy.World) → P w → P (s.proxy.sleep w)) where
  open s use {proxy}
  open proxy use {World, post, sleep}

  waited-Keeps : (first : Bool) (w : World) → P w → P (if first then w else sleep w)
  waited-Keeps true w h = h
  waited-Keeps false w h = keep_sleep w h

  decide-Keeps :
      (f : Fetched) (w : World) (more : World → Result ActionResult × World)
      → P w
      → ((v : World) → P v → P (more v).1)
      → P (decide f w more).1
  decide-Keeps (ready result) w more h k = h
  decide-Keeps (failed e) w more h k = h
  decide-Keeps not_ready w more h k = k w h

  poll_from-Keeps :
      (url : String) (id : Hash) (n : ℕ) (first : Bool) (w : World)
      → P w
      → P (poll_from proxy url id n first w).1
  unfolding poll_from fetch_submit_result
  poll_from-Keeps url id zero first w h = h
  poll_from-Keeps url id (suc n) first w h =
      decide-Keeps _ _ (λ v. poll_from proxy url id n false v)
        (keep_get _ _ (waited-Keeps first w h)) (λ v. poll_from-Keeps url id n false v)

  poll-Keeps : (url : String) (id : Hash) (w : World) → P w → P (poll proxy url id w).1
  unfolding poll
  poll-Keeps url id w h = poll_from-Keeps url id poll_rounds true w h

  pub acted-Keeps :
      (failure : String) (sent : Result Hash) (w : Writer) (world : World)
      → P world
      → P (acted cfg s failure sent w world).1
  unfolding acted
  acted-Keeps failure (err e) w world h = h
  acted-Keeps failure (ok id) w world h = poll-Keeps cfg.proxy_url id world h

  pub policy_sent-Keeps :
      (req : OnboardReq) (wallet risk : String) (sent : Result Hash) (w : Writer) (world : World)
      → P world
      → P (policy_sent cfg s req wallet risk sent w world).1
  unfolding policy_sent
  policy_sent-Keeps req wallet risk (err e) w world h = h
  policy_sent-Keeps req wallet risk (ok id) w world h = poll-Keeps cfg.proxy_url id world h
