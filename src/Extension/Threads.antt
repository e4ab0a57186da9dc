-- ===== src/Extension/Threads.antt =====
-- Requests that the extension server answers at the same time: the handlers of
-- extension/go/internal/extension/extension.go as goroutines on the fields of `Extension`, with its
-- `sync.RWMutex`. The server runs each request in a goroutine of its own.
pub mod Locking
pub mod Serial
pub mod Concurrent
pub mod Numbers
mod Tests
use mindorr.Prelude.{ℕ, String, Option, none, some, Result, ok, err, concat, [], ◌∷◌, if◌then◌else◌}
use mindorr.Text.{is_empty}
use mindorr.Wire.{same_hash}
use mindorr.Extension.{
  build_result, greeting_for, farewell_for, StateResponse, unsupported_command, unsupported_type,
  action_handler, state_handler,
}
use mindorr.Extension.Types.{
  goodbye, hello, Action, ActionResult, Body, Codec, DataFixed, Extension, SayGoodbyeRequest,
  SayHelloRequest, increment, op_command_say_goodbye, op_command_say_hello, op_type_greeting,
  result, text, version,
}
use mindorr.Extension.Threads.Locking.{
  Thread, exclusive, shared, yields, enter, leave, look, assign,
}

-- `POST /action`, with what its body decodes to, and `GET /state`.
pub data Request : Type 0 where
  post_action : Result Action → Request
  get_state : Request

module _ (c : Codec) where
  open c use {to_hash, parse, decode_hello, decode_goodbye}

  -- The answer to a request: a code and a body, or the state.
  pub data RequestOutcome : Type 0 where
    replied : ℕ → Body → RequestOutcome
    shown : StateResponse c → RequestOutcome

  abbrev Goroutine : Type 0
  Goroutine = Thread Extension RequestOutcome

  abbrev said : ActionResult → Goroutine
  said ar = yields (replied 200 (result ar))

  abbrev refuse_thread : Action → DataFixed → String → Goroutine
  refuse_thread a df e = said (build_result a df none 0 (some e))

  -- `processSayHello` from its `Lock`: `greetingCount++` reads and writes, then the count is read again.
  abbrev pub greet_thread : Action → DataFixed → String → Goroutine
  greet_thread a df name = enter exclusive (
      look (λ s.
        assign (λ v. record v { greeting_count = increment s.greeting_count })
          (look (λ s'.
            let number = s'.greeting_count in
            let greeting = greeting_for c name in
            assign (λ v. record v { last_greeting = greeting })
              (leave exclusive (said (build_result a df (some (hello greeting number)) 1 none)))))))

  -- `processSayGoodbye` from its `Lock`.
  abbrev pub part_thread : Action → DataFixed → SayGoodbyeRequest → Goroutine
  part_thread a df req = enter exclusive (
      look (λ s.
        assign (λ v. record v { farewell_count = increment s.farewell_count })
          (look (λ s'.
            let number = s'.farewell_count in
            let farewell = farewell_for c req.name req.reason in
            assign (λ v. record v { last_farewell = farewell })
              (leave exclusive
                (said (build_result a df (some (goodbye farewell number)) 1 none)))))))

  abbrev pub hello_thread : Action → DataFixed → Result SayHelloRequest → Goroutine
  hello_thread a df (err e) = refuse_thread a df (concat ("decoding request: " ∷ e ∷ []))
  hello_thread a df (ok req) =
      if is_empty req.name
      then refuse_thread a df "name must not be empty"
      else greet_thread a df req.name

  abbrev pub goodbye_thread : Action → DataFixed → Result SayGoodbyeRequest → Goroutine
  goodbye_thread a df (err e) = refuse_thread a df (concat ("decoding request: " ∷ e ∷ []))
  goodbye_thread a df (ok req) =
      if is_empty req.name
      then refuse_thread a df "name must not be empty"
      else part_thread a df req

  abbrev pub greeting_thread : Action → DataFixed → Goroutine
  greeting_thread a df =
      if same_hash df.op_command (to_hash op_command_say_hello)
      then hello_thread a df (decode_hello df.original_message)
      else if same_hash df.op_command (to_hash op_command_say_goodbye)
      then goodbye_thread a df (decode_goodbye df.original_message)
      else yields (replied 501 (text (unsupported_command c df)))

  abbrev pub routed_thread : Action → Result DataFixed → Goroutine
  routed_thread a (err e) = yields (replied 400 (text (concat ("decoding fixed data: " ∷ e ∷ []))))
  routed_thread a (ok df) =
      if same_hash df.op_type (to_hash op_type_greeting)
      then greeting_thread a df
      else yields (replied 501 (text (unsupported_type c df)))

  -- `stateHandler`: each field is read on its own, between `RLock` and `RUnlock`.
  abbrev pub state_thread : Goroutine
  state_thread = enter shared (
      look (λ s1. look (λ s2. look (λ s3. look (λ s4. leave shared (
        yields (
          shown (record {
            state_version = to_hash version;
            greeting_count = s1.greeting_count;
            last_greeting = s2.last_greeting;
            farewell_count = s3.farewell_count;
            last_farewell = s4.last_farewell;
          }))))))))

  -- The goroutine of a request.
  unfoldable pub request_thread : Request → Goroutine
  unfolding build_result
  request_thread (post_action (err e)) =
      yields (replied 400 (text (concat ("decoding action: " ∷ e ∷ "\n" ∷ []))))
  request_thread (post_action (ok a)) = routed_thread a (parse a.message)
  request_thread get_state = state_thread

  abbrev replied_with : ℕ × Body × Extension → RequestOutcome × Extension
  replied_with (code, body, s) = (replied code body, s)

  -- A request by itself: its answer and the state behind it.
  unfoldable pub handle : Request → Extension → RequestOutcome × Extension
  unfolding action_handler state_handler
  handle (post_action r) s = replied_with (action_handler c r s)
  handle get_state s = (shown (state_handler c s), s)
