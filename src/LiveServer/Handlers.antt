-- ===== src/LiveServer/Handlers.antt =====
-- The HTTP handlers of extension/tools/cmd/live-server/main.go. A handler is given the response
-- written so far and the world, and returns both. Each handler holds `sendMu` only while it sends
-- one instruction, so that the instructions of concurrent requests reach the proxy one at a time.
use mindorr.Prelude.{
  true, false, not, String, [], ◌∷◌, ◌++◌, none, some, Result, ok, err, eqb, ◌==◌, concat,
  if◌then◌else◌,
}
use mindorr.Text.Hex.{decode_hex}
use mindorr.Wire.{Hash}
use mindorr.LiveServer.Address.{valid_addr}
use mindorr.LiveServer.Risk.{normalize_risk}
use mindorr.LiveServer.Proxy.{str, bool, Object, json, ActionResult, send_direct, poll}
use mindorr.LiveServer.Requests.{
  ActionReq, Config, OnboardReq, Request, Service, Writer, allocate_intent, default_venue,
  first_non_empty, master_seed_hex, policy, withdraw_intent, write_err, write_json,
}

-- `readJSON`: the decoded value, or the response that says what is wrong.
pub data Read {ℓ} (A : Type ℓ) : Type ℓ where
  given : A → Read A
  replied : Writer → Read A

abbrev pub read_json {ℓ} : {A : Type ℓ} → (String → Result A) → Writer → Request → Read A
read_json decode w r =
    if not (r.method == "POST")
    then replied (write_err 405 "method not allowed" w)
    else elim (decode r.body) [
      | err e ↦ replied (write_err 400 (concat ("bad json: " ∷ e ∷ [])) w)
      | ok v ↦ given v
    ]

-- A handler's body runs on what was read.
abbrev pub on_given {ℓ κ} :
    {A : Type ℓ} {W : Type κ} → (A → Writer → W → Writer × W) → Writer → W → Read A → Writer × W
on_given body w world (replied w') = (w', world)
on_given body w world (given req) = body req w world

module _ (cfg : Config) (s : Service) where
  open s use {
    proxy, decode_onboard, decode_action_req, decode_signed, table, address_bytes, key_address,
  }
  open proxy use {World}

  unfoldable pub handle_health : Writer → Request → World → Writer × World
  handle_health w r world =
      (write_json 200 (("ok", bool true) ∷ ("proxy", str cfg.proxy_url) ∷ []) w, world)

  -- The seed's bytes and the user's, hashed to a key.
  unfoldable pub derive_wallet_address : String → Result String
  derive_wallet_address user = elim (decode_hex master_seed_hex) [
    | none ↦ err "encoding/hex: invalid byte"
    | some seed ↦ key_address (seed ++ address_bytes user)
  ]

  abbrev policy_failed : String → String → Writer → Writer
  policy_failed log e = write_err 502 (concat ("policy failed: " ∷ first_non_empty log e ∷ []))

  -- What `handleOnboard` answers to the result of the policy.
  unfoldable pub onboarded : OnboardReq → String → String → Result ActionResult → Writer → Writer
  onboarded req wallet risk (err e) w = policy_failed "" e w
  onboarded req wallet risk (ok res) w =
      if not (eqb res.status 1)
      then policy_failed res.log "" w
      else write_json 200
          (("ok", bool true)
            ∷ ("riskLevel", str risk)
            ∷ ("user", str req.user)
            ∷ ("venue", str default_venue)
            ∷ ("walletAddress", str wallet)
            ∷ [])
          w

  -- `handleOnboard` behind the sending of the policy.
  unfoldable pub policy_sent :
      OnboardReq → String → String → Result Hash → Writer → World → Writer × World
  unfolding onboarded
  policy_sent req wallet risk (err e) w world =
      (write_err 502 (concat ("policy send failed: " ∷ e ∷ [])) w, world)
  policy_sent req wallet risk (ok pid) w world =
      let (res, world') = poll proxy cfg.proxy_url pid world in
      (onboarded req wallet risk res w, world')

  -- `handleOnboard` behind the derivation of the wallet.
  unfoldable pub set_policy : OnboardReq → Result String → Writer → World → Writer × World
  unfolding policy_sent
  set_policy req (err e) w world = (write_err 500 (concat ("derive failed: " ∷ e ∷ [])) w, world)
  set_policy req (ok wallet) w world =
      let risk = normalize_risk table req.risk_level in
      let (sent, world') =
        send_direct proxy cfg.proxy_url "VAULT" "SET_POLICY" (json (policy req.user risk)) world in
      policy_sent req wallet risk sent w world'

  unfoldable pub onboard : OnboardReq → Writer → World → Writer × World
  unfolding set_policy derive_wallet_address
  onboard req w world =
      if not (valid_addr req.user)
      then (write_err 400 "user must be a 20-byte address" w, world)
      else set_policy req (derive_wallet_address req.user) w world

  unfoldable pub handle_onboard : Writer → Request → World → Writer × World
  unfolding onboard
  handle_onboard w r world = on_given onboard w world (read_json decode_onboard w r)

  -- What `respondAction` answers to the result of an instruction.
  unfoldable pub responded : Result ActionResult → Writer → Writer
  responded (err e) w = write_err 502 (concat ("poll failed: " ∷ e ∷ [])) w
  responded (ok res) w =
      if not (eqb res.status 1)
      then write_json 200 (("log", str res.log) ∷ ("ok", bool false) ∷ ("refused", bool true) ∷ [])
          w
      else let out = decode_signed res.result_data in
        write_json 200
          (("amount", str out.amount)
            ∷ ("destination", str out.destination)
            ∷ ("digest", str out.digest)
            ∷ ("kind", str out.kind)
            ∷ ("ok", bool true)
            ∷ ("signature", str out.signature)
            ∷ ("signer", str out.signer)
            ∷ [])
          w

  unfoldable pub respond_action : Hash → Writer → World → Writer × World
  unfolding responded
  respond_action id w world =
      let (res, world') = poll proxy cfg.proxy_url id world in (responded res w, world')

  -- The end that `handleAllocate` and `handleWithdraw` share: the answer to what was sent.
  unfoldable pub acted : String → Result Hash → Writer → World → Writer × World
  unfolding respond_action
  acted failure (err e) w world = (write_err 502 (concat (failure ∷ e ∷ [])) w, world)
  acted failure (ok id) w world = respond_action id w world

  unfoldable pub act : String → String → Object → Writer → World → Writer × World
  unfolding acted
  act op_command failure payload w world =
      let (sent, world') =
        send_direct proxy cfg.proxy_url "VAULT" op_command (json payload) world in
      acted failure sent w world'

  unfoldable pub allocate : ActionReq → Writer → World → Writer × World
  unfolding act
  allocate req w world =
      if not (valid_addr req.user)
      then (write_err 400 "user must be a 20-byte address" w, world)
      else act "ALLOCATE" "allocate send failed: " (allocate_intent req) w world

  unfoldable pub handle_allocate : Writer → Request → World → Writer × World
  unfolding allocate
  handle_allocate w r world = on_given allocate w world (read_json decode_action_req w r)

  unfoldable pub withdraw : ActionReq → Writer → World → Writer × World
  unfolding act
  withdraw req w world =
      if not (valid_addr req.user)
      then (write_err 400 "user must be a 20-byte address" w, world)
      else if not (valid_addr req.to)
      then (write_err 400 "to must be a 20-byte address" w, world)
      else act "WITHDRAW" "withdraw send failed: " (withdraw_intent req) w world

  unfoldable pub handle_withdraw : Writer → Request → World → Writer × World
  unfolding withdraw
  handle_withdraw w r world = on_given withdraw w world (read_json decode_action_req w r)
