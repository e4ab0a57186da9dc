-- ===== src/LiveServer/Start/Serving.antt =====
-- When the live server starts to serve.
use mindorr.Prelude.{ℕ, suc, ◌<◌, ◌≡◌, refl, some, ok, List, eqb, true, arith}
use mindorr.Wire.{Hash}
use mindorr.LiveServer.Proxy.{ActionResult, bytes, send_direct, poll_rounds}
use mindorr.LiveServer.Proxy.Polling.{AllWait, settled, answer, after, poll_first_answer}
use mindorr.LiveServer.Requests.{Config, Request, Service}
use mindorr.LiveServer.Start.{Sealing, seed, deliver_seed, main, serve_all}
use mindorr.Registration.{done}

module _ (cfg : Config) (s : Service) (k : Sealing s.proxy.World) where
  open s use {proxy}
  open proxy use {World}

  -- Everything that a delivery of the seed waits for: the info of the machine, its key, the
  -- ciphertext, the proxy's taking of the instruction, and a result with status 1 in one of the
  -- sixty rounds of polling, the last of which leads to `ready`.
  pub record Delivers (w ready : World) : Type 0 where
    pub info : List ℕ
    pub told : World
    pub tells : k.tee_info cfg.proxy_url w ≡ (ok info, told)
    pub key : k.PublicKey
    pub parses : k.parse_pub_key info ≡ ok key
    pub plain : List ℕ
    pub seeds : seed ≡ ok plain
    pub sealed : List ℕ
    pub sealing : World
    pub seals : k.encrypt key plain told ≡ (ok sealed, sealing)
    pub id : Hash
    pub sent : World
    pub sends :
        send_direct proxy cfg.proxy_url "WALLET" "UPDATE_KEY" (bytes sealed) sealing ≡ (ok id, sent)
    pub round : ℕ
    pub in_time : round < poll_rounds
    pub waits : AllWait proxy cfg.proxy_url id round sent
    pub result : ActionResult
    pub settles : settled (answer proxy cfg.proxy_url id round sent) ≡ some (ok result)
    pub takes : result.status ≡ 1
    pub reaches : after proxy cfg.proxy_url id (suc round) sent ≡ ready

  pub Delivers-deliver_seed :
      (w ready : World) → Delivers w ready → deliver_seed cfg s k w ≡ (ok done, ready)
  unfolding deliver_seed
  Delivers-deliver_seed w ready d =
      let asked =
        poll_first_answer proxy cfg.proxy_url d.id d.round d.sent d.in_time d.waits d.settles in
      let taken : eqb d.result.status 1 ≡ true = ground (arith, d.takes) in
      rw (d.seeds, d.tells, d.parses, d.seals, d.sends, asked, taken, d.reaches) refl

  -- If nothing fails up to the sending of the seed, and a round of the polling brings a result with
  -- status 1, the server starts: it serves the requests from the world behind that round.
  pub main-serves :
      (requests : List Request) (w ready : World)
      → Delivers w ready
      → main cfg s k requests w
        ≡ (ok (serve_all cfg s k requests ready).0, (serve_all cfg s k requests ready).1)
  unfolding main
  main-serves requests w ready d = rw (Delivers-deliver_seed w ready d) refl
