-- ===== src/LiveServer/Proxy.antt =====
-- The enclave's proxy as the live server sees it, and the calls that it makes to it: `sendDirect`,
-- `fetchSubmitResult` and `poll` of extension/tools/cmd/live-server/main.go.
pub mod Polling
use mindorr.Prelude.{
  ℕ, zero, suc, Bool, true, false, not, String, List, [], ◌∷◌, Option, none, some, Result, ok, err,
  eqb, ltb, ◌==◌, length, take, concat, if◌then◌else◌,
}
use mindorr.Text.Decimal.{decimal}
use mindorr.Wire.{Hash, to_hash}

-- The values that the service puts into a JSON object.
pub data Value : Type 0 where
  str : String → Value
  bool : Bool → Value
  num : ℕ → Value
  list : List String → Value

-- A Go map as `json.Marshal` writes it, with its keys in the order of their bytes.
abbrev pub Object : Type 0
Object = List (String × Value)

-- The value of a key.
abbrev pub field : String → Object → Option Value
field k [] = none
field k ((j, v) ∷ object) = let rest = field k object in if j == k then some v else rest

-- What an instruction carries: an object that is marshalled, or bytes.
pub data Payload : Type 0 where
  json : Object → Payload
  bytes : List ℕ → Payload

-- `directInstruction`.
pub record Instruction : Type 0 where
  pub op_type : Hash
  pub op_command : Hash
  pub message : Payload

-- An answer over HTTP. `broken` is the error that reading the body ends with, behind `body`.
pub record HttpReply : Type 0 where
  pub status : ℕ
  pub body : List ℕ
  pub broken : Option String

-- The fields of tee-node's `ActionResult` that the service reads.
pub record ActionResult : Type 0 where
  pub status : ℕ
  pub result_data : List ℕ
  pub log : String

-- The network and the libraries. `World` is all that lies outside the process.
pub record Proxy : Type 1 where
  pub World : Type 0
  -- `http.Post` of a marshalled instruction, and `client.Get`, to a URL.
  pub post : String → Instruction → World → Result HttpReply × World
  pub get : String → World → Result HttpReply × World
  -- `http.Post` is called without a timeout: in such a world it goes on to wait for its answer. What it
  -- changes is changed when it returns. `client.Get` returns within five seconds, with an error if
  -- need be.
  pub hangs : String → Instruction → World → Bool
  -- `time.Sleep(time.Second)`.
  pub sleep : World → World
  -- `json.Unmarshal` into tee-node's `types.Action`, of which the ID is read, and into its
  -- `types.ActionResponse`, of which the result is read.
  pub decode_action : List ℕ → Result Hash
  pub decode_result : List ℕ → Result ActionResult
  -- `common.Hash.Hex`, and bytes as the text of a message.
  pub hex : Hash → String
  pub text : List ℕ → String

-- What one request for a result gives; `not_ready` is `errResultNotReady`.
pub data Fetched : Type 0 where
  ready : ActionResult → Fetched
  not_ready : Fetched
  failed : String → Fetched

abbrev pub body_limit : ℕ
body_limit = 1048576

-- The rounds of `poll`.
abbrev pub poll_rounds : ℕ
poll_rounds = 60

abbrev pub instruction : String → String → Payload → Instruction
instruction op_type op_command payload = record {
  op_type = to_hash op_type;
  op_command = to_hash op_command;
  message = payload;
}

-- A round of `poll` returns or goes on.
abbrev pub decide {ℓ} :
    {W : Type ℓ} → Fetched → W → (W → Result ActionResult × W) → Result ActionResult × W
decide (ready result) w more = (ok result, w)
decide (failed e) w more = (err e, w)
decide not_ready w more = more w

module _ (p : Proxy) where
  open p use {World, post, get, sleep, decode_action, decode_result, hex, text}

  -- What `sendDirect` makes of the answer; an error in reading the body is ignored there.
  unfoldable pub sent_id : Result HttpReply → Result Hash
  sent_id (err e) = err (concat ("POST /direct: " ∷ e ∷ []))
  sent_id (ok r) =
      if not (eqb r.status 200)
      then err (concat ("POST /direct returned " ∷ decimal r.status ∷ ": " ∷ text r.body ∷ []))
      else elim (decode_action r.body) [
        | err e ↦ err (concat ("decode action: " ∷ e ∷ []))
        | ok id ↦ ok id
      ]

  unfoldable pub send_direct : String → String → String → Payload → World → Result Hash × World
  unfolding sent_id
  send_direct url op_type op_command payload w =
      let (r, w') =
        post (concat (url ∷ "/direct" ∷ [])) (instruction op_type op_command payload) w in
      (sent_id r, w')

  -- `io.ReadAll(io.LimitReader(resp.Body, 1<<20))`: an error behind the limit is not met.
  unfoldable pub read_limited : HttpReply → Result (List ℕ)
  read_limited r = elim r.broken [
    | none ↦ ok (take body_limit r.body)
    | some e ↦ if ltb (length r.body) body_limit then err e else ok (take body_limit r.body)
  ]

  -- What `fetchSubmitResult` makes of the answer.
  unfoldable pub fetched : Result HttpReply → Fetched
  unfolding read_limited
  fetched (err e) = failed e
  fetched (ok r) = elim (read_limited r) [
    | err e ↦ failed e
    | ok body ↦
        if eqb r.status 404
        then not_ready
        else if not (eqb r.status 200)
        then failed (concat ("action result returned " ∷ decimal r.status ∷ ": " ∷ text body ∷ []))
        else elim (decode_result body) [
          | err e ↦ failed (concat ("decode action result: " ∷ e ∷ []))
          | ok result ↦ ready result
        ]
  ]

  unfoldable pub fetch_submit_result : String → Hash → World → Fetched × World
  fetch_submit_result url id w =
      let (r, w') =
        get (concat (url ∷ "/action/result/" ∷ hex id ∷ "?submissionTag=submit" ∷ [])) w in
      (fetched r, w')

  -- The loop of `poll`, with the rounds left; no pause stands before the first round.
  unfoldable pub poll_from :
      (url : String) (id : Hash) → ℕ → Bool → World → Result ActionResult × World
  poll_from url id zero first w =
      (err (concat ("direct action " ∷ hex id ∷ " not processed after 60s" ∷ [])), w)
  poll_from url id (suc n) first w =
      let (f, w') = fetch_submit_result url id (if first then w else sleep w) in
      decide f w' (λ v. poll_from url id n false v)

  unfoldable pub poll : String → Hash → World → Result ActionResult × World
  poll url id w = poll_from url id poll_rounds true w
