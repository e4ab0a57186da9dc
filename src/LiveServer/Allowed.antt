-- ===== src/LiveServer/Allowed.antt =====
-- Which instructions a request asks for, and whether it may.
use mindorr.Prelude.{true, ok, ◌≡◌, ◌⊎◌}
use mindorr.LiveServer.Address.{valid_addr}
use mindorr.LiveServer.Risk.{normalize_risk}
use mindorr.LiveServer.Proxy.{Instruction, json, instruction}
use mindorr.LiveServer.Requests.{
  Config, Request, Service, OnboardReq, ActionReq, policy, allocate_intent, withdraw_intent,
}

-- The instructions that the service may send for a request, by its path: what the body decodes to
-- names valid addresses.
pub data Intends (cfg : Config) (s : Service) (r : Request) (i : Instruction) : Type 0 where
  a_policy :
      r.path ≡ "/onboard"
      → (req : OnboardReq) → s.decode_onboard r.body ≡ ok req
      → valid_addr req.user ≡ true
      → i
        ≡ instruction "VAULT" "SET_POLICY"
            (json (policy req.user (normalize_risk s.table req.risk_level)))
      → Intends cfg s r i
  an_allocation :
      r.path ≡ "/allocate"
      → (req : ActionReq) → s.decode_action_req r.body ≡ ok req
      → valid_addr req.user ≡ true
      → i ≡ instruction "VAULT" "ALLOCATE" (json (allocate_intent req))
      → Intends cfg s r i
  a_withdrawal :
      r.path ≡ "/withdraw"
      → (req : ActionReq) → s.decode_action_req r.body ≡ ok req
      → valid_addr req.user ≡ true
      → valid_addr req.to ≡ true
      → i ≡ instruction "VAULT" "WITHDRAW" (json (withdraw_intent req))
      → Intends cfg s r i

-- The token is the configured one, if one is configured.
abbrev pub IsAuthorised : Config → Request → Type 0
IsAuthorised cfg r = (cfg.auth_token ≡ "") ⊎ (r.token ≡ cfg.auth_token)

-- The request is authorised and a POST, and the instruction is one that it asks for.
pub record Allowed (cfg : Config) (s : Service) (r : Request) (i : Instruction) : Type 0 where
  pub authorised : IsAuthorised cfg r
  pub method : r.method ≡ "POST"
  pub intends : Intends cfg s r i
