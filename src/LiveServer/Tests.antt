-- ===== src/LiveServer/Tests.antt =====
-- Concrete requests to the live server, over a world that records the instructions sent.
use mindorr.Prelude.{
  false, ne_of_str_eq, length, ap, ℕ, zero, suc, ◌+◌, ◌≤◌, true, String, List, [], ◌∷◌, ◌++◌, none,
  ok, ◌≡◌, ◌↔◌, inl, inr, refl, arith, ltb, if◌then◌else◌, All,
}
use mindorr.Wire.{to_hash}
use mindorr.LiveServer.Address.{valid_addr, IsAddress, valid_addr_iff}
use mindorr.LiveServer.Risk.{
  normalize_risk, health_floor, IsLevel, normalize_risk_padded, health_floor_mono,
}
use mindorr.LiveServer.Proxy.{
  poll_rounds, poll_from, Instruction, Proxy, HttpReply, fetched, fetch_submit_result, poll,
  send_direct,
}
use mindorr.LiveServer.Handlers.{handle_onboard, handle_allocate, handle_withdraw}
use mindorr.LiveServer.Requests.{
  policy, withdraw_intent, allocate_intent, Config, Request, Service, OnboardReq, ActionReq,
}
use mindorr.LiveServer.Server.{require_auth, with_cors, fresh, serve}
use mindorr.Text.Trim.{trim_space}
use mindorr.Text.{to_lower}
use mindorr.LiveServer.Replies.{
  handle_onboard-SaysOk, handle_withdraw-SaysOk, handle_allocate-SaysOk, serve_options,
  serve_unauthorized,
}
use mindorr.LiveServer.Replies.Accepting.{Accepted, SaysOk}
use mindorr.LiveServer.Allowed.{a_withdrawal, an_allocation, a_policy, Intends, Allowed}
use mindorr.LiveServer.Effects.{serve-Keeps}
use mindorr.LiveServer.Proxy.Polling.{
  poll_first_answer, AllWait, poll_expired, after, timeout_answer, answer,
}
use mindorr.Text.Hex.{decode_hex}

abbrev alice : String
alice = "0xa11a000100000000000000000000000000000000"

abbrev reply : ℕ → HttpReply
reply n = record { status = n; body = []; broken = none }

-- Every instruction is taken, and every result is there at once, with status 1.
abbrev pub recording : Proxy
recording = record {
  World = List Instruction;
  post = λ url i w. (ok (reply 200), w ++ (i ∷ []));
  get = λ url w. (ok (reply 200), w);
  hangs = λ url i w. false;
  sleep = λ w. w;
  decode_action = λ b. ok (1 ∷ []);
  decode_result = λ b. ok (record { status = 1; result_data = []; log = "ok" });
  hex = λ h. "0x01";
  text = λ b. "";
}

abbrev pub service : Service
service = record {
  proxy = recording;
  decode_onboard = λ b. ok (record { user = alice; risk_level = "growth" });
  decode_action_req = λ b. ok (record { user = alice; amount = "5"; venue = ""; to = alice });
  decode_signed = λ b. record {
    signer = "";
    kind = "";
    amount = "";
    destination = "";
    digest = "";
    signature = "";
  };
  table = λ c. c;
  unrouted = λ r. record { headers = []; code = 404; body = none };
  address_bytes = λ s. [];
  key_address = λ b. ok "0x02";
}

abbrev pub config : Config
config = record { proxy_url = "http://localhost:6674"; auth_token = "secret" }

abbrev pub ask : String → String → String → Request
ask path method token = record { path = path; method = method; token = token; body = "{}" }

valid_addr_iff_example : (valid_addr alice ≡ true) ↔ IsAddress alice
valid_addr_iff_example = valid_addr_iff alice

normalize_risk_padded_example :
    ¬ IsLevel (normalize_risk (λ c. c) " growth")
    × (health_floor (normalize_risk (λ c. c) " growth") ≡ 13000)
unfolding to_lower trim_space
normalize_risk_padded_example =
    normalize_risk_padded (λ c. c) " growth" (λ c h. refl) (ne_of_str_eq _ _ refl) (inr refl)

health_floor_mono_example : health_floor "growth" ≤ health_floor "moderate"
health_floor_mono_example = health_floor_mono "moderate" "growth" (omega arith)

serve_refused_token :
    ((serve config service (ask "/withdraw" "POST" "guess") []).0.code ≡ 401)
    × ((serve config service (ask "/withdraw" "POST" "guess") []).1 ≡ [])
serve_refused_token =
    serve_unauthorized config service (ask "/withdraw" "POST" "guess") [] (ne_of_str_eq _ _ refl)
      (ne_of_str_eq _ _ refl) (ne_of_str_eq _ _ refl) (inr (inr refl))

serve_options_example :
    ((serve config service (ask "/allocate" "OPTIONS" "") []).0.code ≡ 204)
    × ((serve config service (ask "/allocate" "OPTIONS" "") []).1 ≡ [])
serve_options_example =
    serve_options config service (ask "/allocate" "OPTIONS" "") [] refl (inr (inl refl))

-- All that was sent is meant for the vault.
abbrev pub ToVault : List Instruction → Type 0
ToVault = All (λ (i : Instruction). i.op_type ≡ to_hash "VAULT")

pub keeps_ToVault :
    (r : Request) (i : Instruction) (w : List Instruction)
    → Allowed config service r i
    → ToVault w
    → ToVault (w ++ (i ∷ []))
keeps_ToVault r i w a h = one_more w h
  where
    meant : Intends config service r i → i.op_type ≡ to_hash "VAULT"
    meant (a_policy _ _ _ _ e) = ap (λ (j : Instruction). j.op_type) e
    meant (an_allocation _ _ _ _ e) = ap (λ (j : Instruction). j.op_type) e
    meant (a_withdrawal _ _ _ _ _ e) = ap (λ (j : Instruction). j.op_type) e

    one_more : (sent : List Instruction) → ToVault sent → ToVault (sent ++ (i ∷ []))
    one_more [] k = (meant a.intends, tt)
    one_more (first ∷ sent) (k, ks) = (k, one_more sent ks)

serve-Keeps_example : ToVault (serve config service (ask "/allocate" "POST" "secret") []).1
serve-Keeps_example =
    serve-Keeps config service ToVault (λ url w h. h) (λ w h. h) (ask "/allocate" "POST" "secret")
      [] (keeps_ToVault (ask "/allocate" "POST" "secret")) tt

abbrev opened : Unit {0}
unfolding serve
opened = tt

sends_allocation : length (serve config service (ask "/allocate" "POST" "secret") []).1 ≡ 1
unfolding serve with_cors require_auth handle_allocate valid_addr send_direct poll poll_from
    fetch_submit_result fetched to_hash
sends_allocation = refl

-- A proxy that says "not found" until the third request.
abbrev slow : Proxy
slow = record {
  World = ℕ;
  post = λ url i w. (ok (reply 200), w);
  get = λ url w. (ok (reply (if ltb w 2 then 404 else 200)), w + 1);
  hangs = λ url i w. false;
  sleep = λ w. w;
  decode_action = λ b. ok [];
  decode_result = λ b. ok (record { status = 1; result_data = []; log = "ok" });
  hex = λ h. "0x01";
  text = λ b. "";
}

-- A proxy that never has a result.
abbrev silent : Proxy
silent = record {
  World = ℕ;
  post = λ url i w. (ok (reply 200), w);
  get = λ url w. (ok (reply 404), w + 1);
  hangs = λ url i w. false;
  sleep = λ w. w;
  decode_action = λ b. ok [];
  decode_result = λ b. ok (record { status = 1; result_data = []; log = "ok" });
  hex = λ h. "0x01";
  text = λ b. "";
}

slow_waits : AllWait slow "" [] 2 0
unfolding answer after fetch_submit_result fetched
slow_waits zero h = refl
slow_waits (suc zero) h = refl
slow_waits (suc (suc j)) h = absurd (omega arith)

poll_first_answer_example :
    poll slow "" [] 0
    ≡ (ok (record { status = 1; result_data = []; log = "ok" }), after slow "" [] 3 0)
unfolding answer after fetch_submit_result fetched
poll_first_answer_example = poll_first_answer slow "" [] 2 0 (omega arith) slow_waits refl

silent_waits : AllWait silent "" [] poll_rounds 0
unfolding answer fetch_submit_result fetched
silent_waits j h = refl

poll_expired_example :
    poll silent "" [] 0 ≡ (timeout_answer silent "" [], after silent "" [] poll_rounds 0)
poll_expired_example = poll_expired silent "" [] 0 silent_waits

-- An answer that says `ok`, for the three handlers.
allocated : SaysOk (handle_allocate config service fresh (ask "/allocate" "POST" "secret") []).0
unfolding handle_allocate valid_addr send_direct poll poll_from fetch_submit_result fetched to_hash
allocated = refl

withdrawn : SaysOk (handle_withdraw config service fresh (ask "/withdraw" "POST" "secret") []).0
unfolding handle_withdraw valid_addr send_direct poll poll_from fetch_submit_result fetched to_hash
withdrawn = refl

onboarded_ok : SaysOk (handle_onboard config service fresh (ask "/onboard" "POST" "secret") []).0
unfolding handle_onboard valid_addr send_direct poll poll_from fetch_submit_result fetched to_hash
    decode_hex normalize_risk to_lower trim_space health_floor
onboarded_ok = refl

handle_allocate-SaysOk_example :
    (req : ActionReq) × ((ask "" "POST" "").method ≡ "POST")
    × (service.decode_action_req "{}" ≡ ok req)
    × (valid_addr req.user ≡ true)
    × Accepted config service "ALLOCATE" (allocate_intent req) []
handle_allocate-SaysOk_example =
    handle_allocate-SaysOk config service fresh (ask "/allocate" "POST" "secret") [] allocated

handle_withdraw-SaysOk_example :
    (req : ActionReq) × ((ask "" "POST" "").method ≡ "POST")
    × (service.decode_action_req "{}" ≡ ok req)
    × (valid_addr req.user ≡ true)
    × (valid_addr req.to ≡ true)
    × Accepted config service "WITHDRAW" (withdraw_intent req) []
handle_withdraw-SaysOk_example =
    handle_withdraw-SaysOk config service fresh (ask "/withdraw" "POST" "secret") [] withdrawn

handle_onboard-SaysOk_example :
    (req : OnboardReq) × ((ask "" "POST" "").method ≡ "POST")
    × (service.decode_onboard "{}" ≡ ok req)
    × (valid_addr req.user ≡ true)
    × Accepted config service "SET_POLICY"
        (policy req.user (normalize_risk (λ c. c) req.risk_level))
        []
handle_onboard-SaysOk_example =
    handle_onboard-SaysOk config service fresh (ask "/onboard" "POST" "secret") [] onboarded_ok
