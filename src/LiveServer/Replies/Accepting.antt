-- ===== src/LiveServer/Replies/Accepting.antt =====
-- Where an `ok` answer of the service comes from, step by step.
use mindorr.Prelude.{
  ℕ, Bool, true, false, not, String, [], ◌∷◌, Option, none, some, Result, ok, err, ◌≡◌, refl, arith,
  concat, if◌then◌else◌, ◌==◌, eq_iff,
}
use mindorr.Wire.{Hash}
use mindorr.LiveServer.Address.{valid_addr}
use mindorr.LiveServer.Risk.{normalize_risk}
use mindorr.LiveServer.Proxy.{Object, Value, field, bool, json, ActionResult, send_direct, poll}
use mindorr.LiveServer.Handlers.{
  read_json, Read, on_given, given, replied, onboarded, policy_sent, set_policy, responded,
  respond_action, acted, act,
}
use mindorr.LiveServer.Requests.{Config, Request, Writer, Service, OnboardReq, policy, write_err}

-- What the key `ok` has in the object of a response.
abbrev pub says : Writer → Option Value
says w = elim w.body [ none ↦ none | some object ↦ field "ok" object ]

-- The object says that all is well.
abbrev pub SaysOk : Writer → Type 0
SaysOk w = says w ≡ some (bool true)

module _ (cfg : Config) (s : Service) where
  open s use {proxy}
  open proxy use {World}

  onboarded-SaysOk :
      (req : OnboardReq) (wallet risk : String) (res : Result ActionResult) (w : Writer)
      → SaysOk (onboarded cfg s req wallet risk res w)
      → (a : ActionResult) × (res ≡ ok a) × (a.status ≡ 1)
  unfolding onboarded
  onboarded-SaysOk req wallet risk (err e) w h = absurd (ground arith)
  onboarded-SaysOk req wallet risk (ok a) w h = (a, refl, ground arith)

  responded-SaysOk :
      (res : Result ActionResult) (w : Writer)
      → SaysOk (responded cfg s res w)
      → (a : ActionResult) × (res ≡ ok a) × (a.status ≡ 1)
  unfolding responded
  responded-SaysOk (err e) w h = absurd (ground arith)
  responded-SaysOk (ok a) w h = (a, refl, ground arith)

  -- The instruction was sent and taken, and the enclave's result has status 1.
  abbrev pub Accepted : String → Object → World → Type 0
  Accepted op_command message world =
      let sent = send_direct proxy cfg.proxy_url "VAULT" op_command (json message) world in
      (id : Hash) × (a : ActionResult) × (sent.0 ≡ ok id)
      × ((poll proxy cfg.proxy_url id sent.1).0 ≡ ok a)
      × (a.status ≡ 1)

  pub read-SaysOk :
      {A : Type 0} (decode : String → Result A) (body : A → Writer → World → Writer × World)
      (w : Writer) (r : Request) (world : World)
      → SaysOk (on_given body w world (read_json decode w r)).0
      → (req : A) × (r.method ≡ "POST") × (decode r.body ≡ ok req) × SaysOk (body req w world).0
  read-SaysOk {A} decode body w r world h =
      let (test, k) = tested (not (r.method == "POST")) _ h in
      decoded (decode r.body) refl (ground (arith, eq_iff r.method "POST")) k
    where
      tested :
          (b : Bool) (x : Read A)
          → SaysOk
              (on_given body w world
                (if b then replied (write_err 405 "method not allowed" w) else x)).0
          → (b ≡ false) × SaysOk (on_given body w world x).0
      tested true x k = absurd (ground arith)
      tested false x k = (refl, k)

      decoded :
          (d : Result A)
          → decode r.body ≡ d
          → r.method ≡ "POST"
          → SaysOk
              (on_given body w world (elim d [
                | err e ↦ replied (write_err 400 (concat ("bad json: " ∷ e ∷ [])) w)
                | ok v ↦ given v
              ])).0
          → (req : A) × (r.method ≡ "POST") × (decode r.body ≡ ok req) × SaysOk (body req w world).0
      decoded (ok req) e post k = (req, post, e, k)
      decoded (err m) e post k = absurd (ground arith)

  -- An `ok` answer is none that a check wrote.
  pub passed :
      (b : Bool) (code : ℕ) (msg : String) (w : Writer) (world : World) (x : Writer × World)
      → SaysOk (if b then (write_err code msg w, world) else x).0
      → (b ≡ false) × SaysOk x.0
  passed true code msg w world x k = absurd (ground arith)
  passed false code msg w world x k = (refl, k)

  pub is_valid : (a : String) → not (valid_addr a) ≡ false → valid_addr a ≡ true
  is_valid a h = ground arith

  pub acted-SaysOk :
      (op_command failure : String) (message : Object) (w : Writer) (world : World)
      → SaysOk (act cfg s op_command failure message w world).0
      → Accepted op_command message world
  unfolding act acted respond_action
  acted-SaysOk op_command failure message w world h =
      answered (send_direct proxy cfg.proxy_url "VAULT" op_command (json message) world).0 refl h
    where
      after : World
      after = (send_direct proxy cfg.proxy_url "VAULT" op_command (json message) world).1

      answered :
          (sent : Result Hash)
          → (send_direct proxy cfg.proxy_url "VAULT" op_command (json message) world).0 ≡ sent
          → SaysOk (acted cfg s failure sent w after).0
          → Accepted op_command message world
      answered (err e) eq k = absurd (ground arith)
      answered (ok id) eq k =
          let (a, polled, one) = responded-SaysOk (poll proxy cfg.proxy_url id after).0 w k in
          (id, a, eq, polled, one)

  policy_sent-SaysOk :
      (req : OnboardReq) (wallet risk : String) (message : Object) (w : Writer) (world : World)
      (sent : Result Hash)
      → (send_direct proxy cfg.proxy_url "VAULT" "SET_POLICY" (json message) world).0 ≡ sent
      → SaysOk
          (policy_sent cfg s req wallet risk sent w
            (send_direct proxy cfg.proxy_url "VAULT" "SET_POLICY" (json message) world).1).0
      → Accepted "SET_POLICY" message world
  unfolding policy_sent
  policy_sent-SaysOk req wallet risk message w world (err e) eq k = absurd (ground arith)
  policy_sent-SaysOk req wallet risk message w world (ok id) eq k =
      let after = (send_direct proxy cfg.proxy_url "VAULT" "SET_POLICY" (json message) world).1 in
      let (a, polled, one) =
        onboarded-SaysOk req wallet risk (poll proxy cfg.proxy_url id after).0 w k in
      (id, a, eq, polled, one)

  pub set_policy-SaysOk :
      (req : OnboardReq) (wallet : Result String) (w : Writer) (world : World)
      → SaysOk (set_policy cfg s req wallet w world).0
      → Accepted "SET_POLICY" (policy req.user (normalize_risk s.table req.risk_level)) world
  unfolding set_policy
  set_policy-SaysOk req (err e) w world k = absurd (ground arith)
  set_policy-SaysOk req (ok wallet) w world k =
      policy_sent-SaysOk req wallet (normalize_risk s.table req.risk_level) _ w world _ refl k
