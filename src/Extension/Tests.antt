-- ===== src/Extension/Tests.antt =====
-- The requests that the tests of Steps and Numbers run on.
use mindorr.Wire.{to_hash, utf8}
use mindorr.Prelude.{arith, ◌∷◌, ◌≡◌}
use mindorr.Extension.{
  build_result, greet, process_say_hello, err, [], process_action, ok, process_greeting,
  action_handler, handle_all,
}
use mindorr.Extension.Types.{
  new, op_command_say_hello, Action, Codec, op_type_greeting, Extension, DataFixed,
}
use mindorr.Extension.Steps.{action_handler-Effect, process_greeting-Logs, Logs, Effect}
use mindorr.Wire.{utf8}
use mindorr.Extension.Numbers.{handle_all-hello_numbers, hello_numbers}

abbrev hello_data : DataFixed
hello_data = record {
  op_type = to_hash op_type_greeting;
  op_command = to_hash op_command_say_hello;
  original_message = [];
}

-- Every action with a message says hello, and one without says goodbye.
abbrev sample_codec : Codec
sample_codec = record {
  to_hash = to_hash;
  hex = λ h. "0x";
  parse = λ message. ok hello_data;
  decode_hello = λ message. ok (record { name = "Ada" });
  decode_goodbye = λ message. err "EOF";
}

abbrev sample_action : Action
sample_action = record { id = 7 ∷ []; submission_tag = "submit"; message = [] }

abbrev sample_state : Extension
sample_state = record {
  greeting_count = 4;
  last_greeting = "";
  farewell_count = 0;
  last_farewell = "";
}

action_handler-Effect_example :
    Effect sample_codec sample_state (action_handler sample_codec (ok sample_action) sample_state)
action_handler-Effect_example = action_handler-Effect sample_codec sample_state (ok sample_action)

sample-Logs :
    Logs sample_codec sample_state sample_action hello_data
      (process_greeting sample_codec sample_action hello_data sample_state).1
sample-Logs = process_greeting-Logs sample_codec sample_state sample_action hello_data

hello_numbers_in_turn :
    (hello_numbers sample_codec
        (handle_all sample_codec (ok sample_action ∷ err "EOF" ∷ ok sample_action ∷ []) new).0
      ≡ 1 ∷ 2 ∷ [])
    × ((handle_all sample_codec
          (ok sample_action ∷ err "EOF" ∷ ok sample_action ∷ [])
          new).1.greeting_count
        ≡ 2)
unfolding handle_all action_handler process_action process_greeting to_hash utf8 process_say_hello
    greet build_result
hello_numbers_in_turn =
    handle_all-hello_numbers sample_codec (ok sample_action ∷ err "EOF" ∷ ok sample_action ∷ [])
      (omega arith)
