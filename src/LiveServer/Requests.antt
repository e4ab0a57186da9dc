-- ===== src/LiveServer/Requests.antt =====
-- The requests, the responses and the messages to the enclave of
-- extension/tools/cmd/live-server/main.go, and what its handlers take from the libraries.
use mindorr.Prelude.{
  ℕ, true, false, not, Char, String, List, [], ◌∷◌, Option, some, Result, ◌==◌, if◌then◌else◌,
}
use mindorr.Text.{is_empty}
use mindorr.LiveServer.Risk.{health_floor}
use mindorr.LiveServer.Proxy.{str, bool, num, list, Object, Proxy}

abbrev pub fxrp : String
fxrp = "0x0b6A3645c240605887a5532109323A3E12273dc7"

abbrev pub default_venue : String
default_venue = "0xa11a000100000000000000000000000000000000"

abbrev pub master_seed_hex : String
master_seed_hex = "b71c71a67e1177ad4e901695e1b4b9ee17ae16c6668d313eac2f96dbcda3f291"

abbrev pub max_tx_amount : String
max_tx_amount = "1000000000000000"

pub record Config : Type 0 where
  pub proxy_url : String
  pub auth_token : String

pub record Request : Type 0 where
  pub path : String
  pub method : String
  pub token : String
  pub body : String

-- `onboardReq` and `actionReq`.
pub record OnboardReq : Type 0 where
  pub user : String
  pub risk_level : String

pub record ActionReq : Type 0 where
  pub user : String
  pub amount : String
  pub venue : String
  pub to : String

-- The struct that `respondAction` reads the result into.
pub record Signed : Type 0 where
  pub signer : String
  pub kind : String
  pub amount : String
  pub destination : String
  pub digest : String
  pub signature : String

-- The response: the headers that are set, the status and the body, an object once written.
pub record Writer : Type 0 where
  pub headers : List (String × String)
  pub code : ℕ
  pub body : Option Object

-- What the handlers take from the libraries, beside the proxy.
pub record Service : Type 1 where
  pub proxy : Proxy
  -- `json.NewDecoder(r.Body).Decode` into the two requests, and `json.Unmarshal` of a result,
  -- whose error the code drops.
  pub decode_onboard : String → Result OnboardReq
  pub decode_action_req : String → Result ActionReq
  pub decode_signed : List ℕ → Signed
  -- The case table of `strings.ToLower` beyond ASCII.
  pub table : Char → Char
  -- `common.HexToAddress(user).Bytes()`, and the address of the key that is the Keccak hash of
  -- some bytes.
  pub address_bytes : String → List ℕ
  pub key_address : List ℕ → Result String
  -- What `http.ServeMux` itself answers to a path with no handler: 404 with a text, or a redirect to
  -- the path that it cleans this one to.
  pub unrouted : Request → Writer

abbrev pub first_non_empty : String → String → String
first_non_empty a b = if not (is_empty a) then a else b

-- `w.Header().Set`: one value for a key.
abbrev pub set_header : String → String → List (String × String) → List (String × String)
set_header k v [] = (k, v) ∷ []
set_header k v ((j, u) ∷ hs) = if j == k then (k, v) ∷ hs else (j, u) ∷ set_header k v hs

abbrev pub write_json : ℕ → Object → Writer → Writer
write_json code v w = record {
  headers = set_header "Content-Type" "application/json" w.headers;
  code = code;
  body = some v;
}

abbrev pub write_err : ℕ → String → Writer → Writer
write_err code msg = write_json code (("error", str msg) ∷ ("ok", bool false) ∷ [])

-- The policy of a user: funds go to the default venue or back to the user.
abbrev pub policy : String → String → Object
policy user risk =
    ("allowedVenues", list (default_venue ∷ []))
    ∷ ("asset", str fxrp)
    ∷ ("maxTxAmount", str max_tx_amount)
    ∷ ("maxVenueBps", num 10000)
    ∷ ("minHealthFactorBps", num (health_floor risk))
    ∷ ("owner", str user)
    ∷ ("returnAddress", str user)
    ∷ ("riskLevel", str risk)
    ∷ []

-- What `handleAllocate` and `handleWithdraw` ask of the enclave.
abbrev pub allocate_intent : ActionReq → Object
allocate_intent req =
    let amount = first_non_empty req.amount "1000000" in
    ("amount", str amount)
    ∷ ("asset", str fxrp)
    ∷ ("portfolioValue", str amount)
    ∷ ("user", str req.user)
    ∷ ("venue", str (if is_empty req.venue then default_venue else req.venue))
    ∷ ("venueBalance", str "0")
    ∷ []

abbrev pub withdraw_intent : ActionReq → Object
withdraw_intent req =
    ("amount", str (first_non_empty req.amount "1000000"))
    ∷ ("asset", str fxrp)
    ∷ ("to", str req.to)
    ∷ ("user", str req.user)
    ∷ ("userAuthorized", bool true)
    ∷ []
