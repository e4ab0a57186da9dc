-- ===== src/Extension/Threads/Tests.antt =====
-- Two requests to greet and one for the state, at the same time.
use mindorr.Prelude.{ℕ, ◌≡◌, refl, List, [], ◌∷◌, ok, map}
use mathlib.Core.List.{Perm, filter_map}
use mindorr.Wire.{to_hash}
use mindorr.Extension.Types.{new, op_command_say_hello, op_type_greeting, Action, Codec}
use mindorr.Extension.Threads.{Request, post_action, get_state, request_thread}
use mindorr.Extension.Threads.Locking.{readers, run_schedule, answered_so_far}
use mindorr.Extension.Threads.Concurrent.{IsSerial, run_schedule-IsSerial}
use mindorr.Extension.Threads.Numbers.{greeting_number, numbered, run_schedule-numbers}

abbrev greeting_codec : Codec
greeting_codec = record {
  to_hash = to_hash;
  hex = λ h. "0x";
  parse = λ message. ok (record {
    op_type = to_hash op_type_greeting;
    op_command = to_hash op_command_say_hello;
    original_message = [];
  });
  decode_hello = λ message. ok (record { name = "Ada" });
  decode_goodbye = λ message. ok (record { name = "Ada"; reason = "late" });
}

abbrev action : Action
action = record { id = 7 ∷ []; submission_tag = "submit"; message = [] }

abbrev several : List Request
several = post_action (ok action) ∷ get_state ∷ post_action (ok action) ∷ []

-- The third takes the mutex, and the others wait while it writes; then the first follows.
abbrev taking_turns : List ℕ
taking_turns = 2 ∷ 0 ∷ 2 ∷ 1 ∷ 2 ∷ 2 ∷ 2 ∷ 2 ∷ 0 ∷ 0 ∷ 0 ∷ 0 ∷ 0 ∷ 0 ∷ 1 ∷ []

run_schedule-IsSerial_example :
    IsSerial greeting_codec new several
      (run_schedule taking_turns (map (request_thread greeting_codec) several, readers 0, new))
run_schedule-IsSerial_example = run_schedule-IsSerial greeting_codec new several taking_turns

run_schedule-numbers_example :
    (k : ℕ) × Perm
      (filter_map (greeting_number greeting_codec) (
        answered_so_far several
          (run_schedule taking_turns
            (map (request_thread greeting_codec) several, readers 0, new)).0))
      (numbered k)
run_schedule-numbers_example = run_schedule-numbers greeting_codec several taking_turns

-- The first and the third have their numbers, in the order in which they took the mutex.
both_numbers :
    filter_map (greeting_number greeting_codec) (
      answered_so_far several
        (run_schedule taking_turns (map (request_thread greeting_codec) several, readers 0, new)).0)
    ≡ 2 ∷ 1 ∷ []
unfolding filter_map run_schedule request_thread to_hash
both_numbers = refl
