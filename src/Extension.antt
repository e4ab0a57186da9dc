-- ===== src/Extension.antt =====
-- The extension server inside the TEE: extension/go/internal/extension/extension.go and utils.go,
-- extension/go/pkg/types/types.go and the constants of extension/go/internal/config/config.go.
-- A handler is a function from the state to the answer and the state behind it; Threads has the reads
-- and writes of concurrent handlers under their mutex.
pub mod Types
pub mod Steps
pub mod Numbers
pub mod Threads
pub mod Shutdown
mod Tests
use mindorr.Prelude.{
  ℕ, ◌+◌, ◌%◌, ◌^◌, Bool, true, false, String, List, [], ◌∷◌, Option, none, some, Result, ok, err,
  concat, eqb, if◌then◌else◌, ◌&&◌,
}
use mindorr.Text.{is_empty}
use mindorr.Extension.Types.{
  goodbye, hello, Action, ActionResult, Body, Codec, DataFixed, Extension, Response,
  SayGoodbyeRequest, SayHelloRequest, increment, int_mod, new, op_command_say_goodbye,
  op_command_say_hello, op_type_greeting, result, text, version,
}
use mindorr.Wire.{Hash, same_hash}

-- `buildResult`; the error is that of status 0.
unfoldable pub build_result :
    Action → DataFixed → Option Response → ℕ → Option String → ActionResult
build_result a df response status error = record {
  id = a.id;
  submission_tag = a.submission_tag;
  version = version;
  op_type = df.op_type;
  op_command = df.op_command;
  response = response;
  status = status;
  log =
      if eqb status 0
      then elim error [ none ↦ "error: <nil>" | some e ↦ concat ("error: " ∷ e ∷ []) ]
      else if eqb status 1
      then "ok"
      else "pending";
}

abbrev refuse : Action → DataFixed → String → Extension → ActionResult × Extension
refuse a df e s = (build_result a df none 0 (some e), s)

module _ (c : Codec) where
  open c use {to_hash, hex, parse, decode_hello, decode_goodbye}

  abbrev pub greeting_for : String → String
  greeting_for name = concat ("Hello, " ∷ name ∷ "! Welcome to Flare Confidential Compute." ∷ [])

  abbrev pub farewell_for : String → String → String
  farewell_for name reason = concat ("Goodbye, " ∷ name ∷ "! Reason: " ∷ reason ∷ [])

  -- The critical section of `processSayHello`, and the answer.
  unfoldable pub greet : Action → DataFixed → String → Extension → ActionResult × Extension
  unfolding build_result
  greet a df name s =
      let number = increment s.greeting_count in
      let greeting = greeting_for name in
      (
        build_result a df (some (hello greeting number)) 1 none,
        record s { greeting_count = number; last_greeting = greeting },
      )

  -- `processSayHello`, on the decoded request.
  abbrev pub said_hello :
      Action → DataFixed → Extension → Result SayHelloRequest → ActionResult × Extension
  said_hello a df s (err e) = refuse a df (concat ("decoding request: " ∷ e ∷ [])) s
  said_hello a df s (ok req) =
      if is_empty req.name then refuse a df "name must not be empty" s else greet a df req.name s

  unfoldable pub process_say_hello : Action → DataFixed → Extension → ActionResult × Extension
  unfolding greet
  process_say_hello a df s = said_hello a df s (decode_hello df.original_message)

  -- The critical section of `processSayGoodbye`, and the answer.
  unfoldable pub part :
      Action → DataFixed → SayGoodbyeRequest → Extension → ActionResult × Extension
  unfolding build_result
  part a df req s =
      let number = increment s.farewell_count in
      let farewell = farewell_for req.name req.reason in
      (
        build_result a df (some (goodbye farewell number)) 1 none,
        record s { farewell_count = number; last_farewell = farewell },
      )

  -- `processSayGoodbye`, on the decoded request.
  abbrev pub said_goodbye :
      Action → DataFixed → Extension → Result SayGoodbyeRequest → ActionResult × Extension
  said_goodbye a df s (err e) = refuse a df (concat ("decoding request: " ∷ e ∷ [])) s
  said_goodbye a df s (ok req) =
      if is_empty req.name then refuse a df "name must not be empty" s else part a df req s

  unfoldable pub process_say_goodbye : Action → DataFixed → Extension → ActionResult × Extension
  unfolding part
  process_say_goodbye a df s = said_goodbye a df s (decode_goodbye df.original_message)

  -- An answer: the HTTP status, the body, and the state behind it.
  abbrev pub Answer : Type 0
  Answer = ℕ × Body × Extension

  abbrev answered : ActionResult × Extension → Answer
  answered (ar, s) = (200, result ar, s)

  abbrev pub unsupported_command : DataFixed → String
  unsupported_command df = concat (
      "unsupported op command: received "
      ∷ hex df.op_command
      ∷ ", expected one of ["
      ∷ hex (to_hash op_command_say_hello)
      ∷ " (SAY_HELLO), "
      ∷ hex (to_hash op_command_say_goodbye)
      ∷ " (SAY_GOODBYE)]"
      ∷ [])

  abbrev pub unsupported_type : DataFixed → String
  unsupported_type df = concat (
      "unsupported op type: received "
      ∷ hex df.op_type
      ∷ ", expected "
      ∷ hex (to_hash op_type_greeting)
      ∷ " (GREETING)"
      ∷ [])

  unfoldable pub process_greeting : Action → DataFixed → Extension → Answer
  unfolding process_say_hello process_say_goodbye
  process_greeting a df s =
      if same_hash df.op_command (to_hash op_command_say_hello)
      then answered (process_say_hello a df s)
      else if same_hash df.op_command (to_hash op_command_say_goodbye)
      then answered (process_say_goodbye a df s)
      else (501, text (unsupported_command df), s)

  -- `processAction`, on the decoded fixed data.
  abbrev pub routed : Action → Extension → Result DataFixed → Answer
  routed a s (err e) = (400, text (concat ("decoding fixed data: " ∷ e ∷ [])), s)
  routed a s (ok df) =
      if same_hash df.op_type (to_hash op_type_greeting)
      then process_greeting a df s
      else (501, text (unsupported_type df), s)

  unfoldable pub process_action : Action → Extension → Answer
  unfolding process_greeting
  process_action a s = routed a s (parse a.message)

  -- `actionHandler`: a request whose body does not decode is answered 400.
  unfoldable pub action_handler : Result Action → Extension → Answer
  unfolding process_action
  action_handler (err e) s = (400, text (concat ("decoding action: " ∷ e ∷ "\n" ∷ [])), s)
  action_handler (ok a) s = process_action a s

  -- `StateResponse` and `State`, as `stateHandler` fills them.
  pub record StateResponse : Type 0 where
    pub state_version : Hash
    pub greeting_count : ℕ
    pub last_greeting : String
    pub farewell_count : ℕ
    pub last_farewell : String

  unfoldable pub state_handler : Extension → StateResponse
  state_handler s = record {
    state_version = to_hash version;
    greeting_count = s.greeting_count;
    last_greeting = s.last_greeting;
    farewell_count = s.farewell_count;
    last_farewell = s.last_farewell;
  }

  -- The answers to a sequence of requests, and the state behind the last.
  unfoldable pub handle_all : List (Result Action) → Extension → List Answer × Extension
  handle_all [] s = ([], s)
  handle_all (r ∷ rs) s =
      let answer = action_handler r s in
      let (answers, s') = handle_all rs answer.2 in (answer ∷ answers, s')
