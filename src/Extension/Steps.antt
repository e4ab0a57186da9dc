-- ===== src/Extension/Steps.antt =====
-- What one request does: the three cases, and the answer in each.
use mindorr.Prelude.{
  if_elim, ap, false, String, [], ◌∷◌, Option, none, some, Result, ok, err, ◌≡◌, ◌≢◌, refl, ◌⊎◌,
  inl, inr, arith, concat,
}
use mindorr.Text.{is_empty}
use mindorr.Extension.{
  routed, said_goodbye, said_hello, hello, goodbye, build_result, greeting_for, farewell_for, greet,
  process_say_hello, part, process_say_goodbye, Answer, answered, process_greeting, process_action,
  action_handler,
}
use mindorr.Extension.Types.{
  op_type_greeting, op_command_say_goodbye, op_command_say_hello, SayGoodbyeRequest,
  SayHelloRequest, Action, DataFixed, Response, ActionResult, Extension, increment, Body, text,
  result, Codec,
}
use mindorr.Wire.{same_hash}

-- The response that an answer carries.
abbrev pub response_of : Body → Option Response
response_of (text e) = none
response_of (result ar) = ar.response

-- The status and the log of a result, and that it names the request it answers.
abbrev pub Reports : Action → DataFixed → ActionResult → Type 0
Reports a df ar =
    (ar.id ≡ a.id)
    × (ar.submission_tag ≡ a.submission_tag)
    × (ar.op_type ≡ df.op_type)
    × (ar.op_command ≡ df.op_command)

-- The three things that a request may do to the state `s`.
pub data Effect (c : Codec) (s : Extension) (answer : Answer c) : Type 0 where
  nothing : response_of answer.1 ≡ none → answer.2 ≡ s → Effect c s answer
  greeted :
      (name : String)
      → name ≢ ""
      → response_of answer.1 ≡ some (hello (greeting_for c name) (increment s.greeting_count))
      → answer.2 ≡ record s {
        greeting_count = increment s.greeting_count;
        last_greeting = greeting_for c name;
      }
      → Effect c s answer
  parted :
      (name reason : String)
      → name ≢ ""
      → response_of answer.1
        ≡ some (goodbye (farewell_for c name reason) (increment s.farewell_count))
      → answer.2 ≡ record s {
        farewell_count = increment s.farewell_count;
        last_farewell = farewell_for c name reason;
      }
      → Effect c s answer

ne_of_is_empty : (s : String) → is_empty s ≡ false → s ≢ ""
ne_of_is_empty s h e = ground (arith, ap is_empty e)

module _ (c : Codec) (s : Extension) where
  hello-Effect :
      (a : Action) (df : DataFixed) (r : Result SayHelloRequest)
      → Effect c s (answered c (said_hello c a df s r))
  unfolding build_result greet part
  hello-Effect a df (err e) = nothing refl refl
  hello-Effect a df (ok req) =
      if_elim (λ x. Effect c s (answered c x)) (is_empty req.name) (λ _. nothing refl refl)
        (λ e. greeted req.name (ne_of_is_empty req.name e) refl refl)

  goodbye-Effect :
      (a : Action) (df : DataFixed) (r : Result SayGoodbyeRequest)
      → Effect c s (answered c (said_goodbye c a df s r))
  unfolding build_result greet part
  goodbye-Effect a df (err e) = nothing refl refl
  goodbye-Effect a df (ok req) =
      if_elim (λ x. Effect c s (answered c x)) (is_empty req.name) (λ _. nothing refl refl)
        (λ e. parted req.name req.reason (ne_of_is_empty req.name e) refl refl)

  greeting-Effect : (a : Action) (df : DataFixed) → Effect c s (process_greeting c a df s)
  unfolding process_greeting process_say_hello process_say_goodbye greet part build_result
  greeting-Effect a df =
      if_elim (Effect c s) (same_hash df.op_command (c.to_hash op_command_say_hello))
        (λ _. hello-Effect a df (c.decode_hello df.original_message))
        (λ _.
          if_elim (Effect c s) (same_hash df.op_command (c.to_hash op_command_say_goodbye))
            (λ _. goodbye-Effect a df (c.decode_goodbye df.original_message))
            (λ _. nothing refl refl))

  routed-Effect : (a : Action) (r : Result DataFixed) → Effect c s (routed c a s r)
  routed-Effect a (err e) = nothing refl refl
  routed-Effect a (ok df) =
      if_elim (Effect c s) (same_hash df.op_type (c.to_hash op_type_greeting))
        (λ _. greeting-Effect a df) (λ _. nothing refl refl)

  -- A request either leaves the state alone and carries no response, or it raises one of the two
  -- counts by one, stores the text that it answers with, and answers with the raised count.
  pub action_handler-Effect : (r : Result Action) → Effect c s (action_handler c r s)
  unfolding action_handler process_action
  action_handler-Effect (err e) = nothing refl refl
  action_handler-Effect (ok a) = routed-Effect a (c.parse a.message)

  -- The log of a result is "ok" with status 1 and a response, and an error with status 0 and none.
  abbrev pub IsLogged : ActionResult → Type 0
  IsLogged ar =
      ((ar.status ≡ 1) × (ar.log ≡ "ok") × ((v : Response) × (ar.response ≡ some v)))
      ⊎ ((ar.status ≡ 0)
          × ((e : String) × (ar.log ≡ concat ("error: " ∷ e ∷ [])))
          × (ar.response ≡ none))

  abbrev pub Logs : Action → DataFixed → Body → Type 0
  Logs a df (text e) = Unit
  Logs a df (result ar) = Reports a df ar × IsLogged ar

  hello-Logs :
      (a : Action) (df : DataFixed) (r : Result SayHelloRequest)
      → Logs a df (result (said_hello c a df s r).0)
  unfolding build_result greet
  hello-Logs a df (err e) = ((refl, refl, refl, refl), inr (refl, (_, refl), refl))
  hello-Logs a df (ok req) =
      if_elim {A = ActionResult × Extension} (λ x. Logs a df (result x.0)) (is_empty req.name)
        (λ _. ((refl, refl, refl, refl), inr (refl, ("name must not be empty", refl), refl)))
        (λ _. ((refl, refl, refl, refl), inl (refl, refl, (_, refl))))

  goodbye-Logs :
      (a : Action) (df : DataFixed) (r : Result SayGoodbyeRequest)
      → Logs a df (result (said_goodbye c a df s r).0)
  unfolding build_result part
  goodbye-Logs a df (err e) = ((refl, refl, refl, refl), inr (refl, (_, refl), refl))
  goodbye-Logs a df (ok req) =
      if_elim {A = ActionResult × Extension} (λ x. Logs a df (result x.0)) (is_empty req.name)
        (λ _. ((refl, refl, refl, refl), inr (refl, ("name must not be empty", refl), refl)))
        (λ _. ((refl, refl, refl, refl), inl (refl, refl, (_, refl))))

  -- A result that answers an action names the action it answers; its log is "ok" with status 1 and
  -- a response, or an error with status 0 and none.
  pub process_greeting-Logs :
      (a : Action) (df : DataFixed) → Logs a df (process_greeting c a df s).1
  unfolding process_greeting process_say_hello process_say_goodbye
  process_greeting-Logs a df =
      if_elim {A = Answer c} (λ x. Logs a df x.1)
        (same_hash df.op_command (c.to_hash op_command_say_hello))
        (λ _. hello-Logs a df (c.decode_hello df.original_message))
        (λ _.
          if_elim {A = Answer c} (λ x. Logs a df x.1)
            (same_hash df.op_command (c.to_hash op_command_say_goodbye))
            (λ _. goodbye-Logs a df (c.decode_goodbye df.original_message)) (λ _. tt))
