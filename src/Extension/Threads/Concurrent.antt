-- ===== src/Extension/Threads/Concurrent.antt =====
-- Concurrent requests to the server of extension/go/internal/extension/extension.go, against the same
-- requests in a row.
use mindorr.Prelude.{
  ℕ, String, Bool, true, false, List, Result, ok, err, ◌≡◌, refl, map, if◌then◌else◌, sym, subst,
}
use mathlib.Core.List.{Perm}
use mindorr.Text.{is_empty}
use mindorr.Wire.{same_hash}
use mindorr.Extension.{
  action_handler, process_action, process_greeting, process_say_hello, process_say_goodbye, greet,
  part, said_hello, said_goodbye, routed, state_handler,
}
use mindorr.Extension.Types.{
  Action, Codec, DataFixed, Extension, SayGoodbyeRequest, SayHelloRequest, ActionResult, Body,
  result, op_command_say_goodbye, op_command_say_hello, op_type_greeting,
}
use mindorr.Extension.Threads.{
  Request, post_action, get_state, RequestOutcome, replied, shown, request_thread, handle,
  greet_thread, part_thread, hello_thread, goodbye_thread, greeting_thread, routed_thread,
  state_thread,
}
use mindorr.Extension.Threads.Locking.{
  Pool, Thread, yields, Held, readers, writer, alone, run_schedule, answered_so_far,
}
use mindorr.Extension.Threads.Serial.{leaves, looks, changes, IsBracketed, ends, enters, Serves}
use mindorr.Extension.Threads.Serial.Ordered.{
  Orderly, quiet, writing, Calm-answered_so_far, Busy-answered_so_far, run_schedule-Orderly,
  started-Orderly,
}
use mindorr.Extension.Threads.Serial.Ending.{Ends, Calm-Ends, Busy-Ends}

module _ (c : Codec) where
  open c use {to_hash, parse, decode_hello, decode_goodbye}

  -- A goroutine that does, by itself, what a handler does, in at most one critical section.
  record Does (t : Thread Extension (RequestOutcome c))
      (f : Extension → RequestOutcome c × Extension) : Type 0 where
    bracketed : IsBracketed t
    agrees : (s : Extension) → alone t s ≡ f s

  -- The same test on both sides.
  if-Does :
      {A : Type 0} (b : Bool) (t u : Thread Extension (RequestOutcome c)) (x y : Extension → A)
      (F : A → RequestOutcome c × Extension)
      → Does t (λ s. F (x s))
      → Does u (λ s. F (y s))
      → Does (if b then t else u) (λ s. F (if b then x s else y s))
  if-Does true t u x y F h k = h
  if-Does false t u x y F h k = k

  replied_ok : ActionResult × Extension → RequestOutcome c × Extension
  replied_ok (ar, s) = (replied 200 (result ar), s)

  replied_with : ℕ × Body × Extension → RequestOutcome c × Extension
  replied_with (code, body, s) = (replied code body, s)

  yields-Does : (o : RequestOutcome c) → Does (yields o) (λ s. (o, s))
  unfolding alone
  yields-Does o = record { bracketed = ends; agrees = λ s. refl }

  greet-Does :
      (a : Action) (df : DataFixed) (name : String)
      → Does (greet_thread c a df name) (λ s. replied_ok (greet c a df name s))
  unfolding alone greet replied_ok
  greet-Does a df name = record {
    bracketed = enters (looks (λ s. changes (looks (λ s'. changes leaves))));
    agrees = λ s. refl;
  }

  part-Does :
      (a : Action) (df : DataFixed) (req : SayGoodbyeRequest)
      → Does (part_thread c a df req) (λ s. replied_ok (part c a df req s))
  unfolding alone part replied_ok
  part-Does a df req = record {
    bracketed = enters (looks (λ s. changes (looks (λ s'. changes leaves))));
    agrees = λ s. refl;
  }

  hello-Does :
      (a : Action) (df : DataFixed) (r : Result SayHelloRequest)
      → Does (hello_thread c a df r) (λ s. replied_ok (said_hello c a df s r))
  unfolding replied_ok
  hello-Does a df (err e) = yields-Does _
  hello-Does a df (ok req) =
      if-Does (is_empty req.name) _ _ _ (greet c a df req.name) replied_ok (yields-Does _)
        (greet-Does a df req.name)

  goodbye-Does :
      (a : Action) (df : DataFixed) (r : Result SayGoodbyeRequest)
      → Does (goodbye_thread c a df r) (λ s. replied_ok (said_goodbye c a df s r))
  unfolding replied_ok
  goodbye-Does a df (err e) = yields-Does _
  goodbye-Does a df (ok req) =
      if-Does (is_empty req.name) _ _ _ (part c a df req) replied_ok (yields-Does _)
        (part-Does a df req)

  greeting-Does :
      (a : Action) (df : DataFixed)
      → Does (greeting_thread c a df) (λ s. replied_with (process_greeting c a df s))
  unfolding process_greeting process_say_hello process_say_goodbye replied_ok replied_with
  greeting-Does a df =
      if-Does (same_hash df.op_command (to_hash op_command_say_hello)) _ _ _ _ replied_with
        (hello-Does a df (decode_hello df.original_message))
        (if-Does (same_hash df.op_command (to_hash op_command_say_goodbye)) _ _ _ _ replied_with
          (goodbye-Does a df (decode_goodbye df.original_message)) (yields-Does _))

  routed-Does :
      (a : Action) (r : Result DataFixed)
      → Does (routed_thread c a r) (λ s. replied_with (routed c a s r))
  unfolding replied_with
  routed-Does a (err e) = yields-Does _
  routed-Does a (ok df) =
      if-Does (same_hash df.op_type (to_hash op_type_greeting)) _ _ _ _ replied_with
        (greeting-Does a df) (yields-Does _)

  state-Does : Does (state_thread c) (λ s. (shown (state_handler c s), s))
  unfolding alone state_handler
  state-Does = record {
    bracketed = enters (looks (λ s1. looks (λ s2. looks (λ s3. looks (λ s4. leaves)))));
    agrees = λ s. refl;
  }

  -- The goroutine of a request does what the handlers do.
  request-Does : (r : Request) → Does (request_thread c r) (handle c r)
  unfolding request_thread handle action_handler process_action replied_with
  request-Does (post_action (err e)) = yields-Does _
  request-Does (post_action (ok a)) = routed-Does a (parse a.message)
  request-Does get_state = state-Does

  -- The memory while nobody writes; a writer may have changed it in part.
  abbrev pub MemoryIs : Held → Extension → Extension → Type 0
  MemoryIs (readers k) s base = s ≡ base
  MemoryIs writer s base = Unit

  -- Some of the requests are done, and they are answered as if they had been handled one after the
  -- other in the order of `log`, which leads to the memory; and turns can be given so that all are done.
  pub record IsSerial (start : Extension) (rs : List Request)
      (pool : Pool Extension (RequestOutcome c)) : Type 0 where
    pub log : List (Request × RequestOutcome c)
    pub base : Extension
    pub served : Serves (handle c) start log base
    pub answers : Perm log (answered_so_far rs pool.0)
    pub memory : MemoryIs pool.1 pool.2 base
    pub ending : Ends pool

  Orderly-IsSerial :
      (start : Extension) (rs : List Request) (pool : Pool Extension (RequestOutcome c))
      → Orderly (handle c) start rs pool
      → IsSerial start rs pool
  Orderly-IsSerial start rs (ts, readers k, m) (quiet {log = log} s p calm) = record {
    log = log;
    base = m;
    served = s;
    answers = subst (Perm log) (sym (Calm-answered_so_far (handle c) calm)) p;
    memory = refl;
    ending = Calm-Ends (handle c) m calm;
  }
  Orderly-IsSerial start rs (ts, writer, v) (writing {log = log} {m = m} s p busy) = record {
    log = log;
    base = m;
    served = s;
    answers = subst (Perm log) (sym (Busy-answered_so_far (handle c) busy)) p;
    memory = tt;
    ending = Busy-Ends (handle c) busy;
  }

  -- Requests that the server answers at the same time, whatever the schedule of the single reads and
  -- writes of their goroutines: the answers that have been given are those of handling these requests
  -- one after the other in some order, from the same state; the memory, while nobody holds the mutex
  -- exclusively, is what that leaves behind; and the goroutines can always go on until all are done.
  pub run_schedule-IsSerial :
      (start : Extension) (rs : List Request) (schedule : List ℕ)
      → IsSerial start rs (run_schedule schedule (map (request_thread c) rs, readers 0, start))
  run_schedule-IsSerial start rs schedule = Orderly-IsSerial start rs _ (
      run_schedule-Orderly (handle c) start rs schedule _ (
        started-Orderly (handle c) (request_thread c) (λ r. (request-Does r).bracketed)
          (λ r. (request-Does r).agrees) start rs))
