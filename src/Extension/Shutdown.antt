-- ===== src/Extension/Shutdown.antt =====
-- The process of the extension server: `main` of extension/go/cmd/main.go, with the goroutine that
-- waits for a signal, as a step relation. `ListenAndServe` and `Shutdown` do what the documentation of
-- net/http says: `Shutdown` closes the listener, with which `ListenAndServe` returns ErrServerClosed
-- at once, and waits until no request is being answered or its context ends.
pub mod Ending
mod Tests
use mindorr.Prelude.{ℕ, zero, suc, Bool, true, false, Option, none, some, String, ◌≡◌, refl}

-- What `ListenAndServe` returns.
pub data Served : Type 0 where
  ended : Served
  server_closed : Served
  failed : String → Served

-- The rest of `main`: nil and ErrServerClosed leave it without an error, `Fatalf` exits with 1.
abbrev pub served_code : Served → ℕ
served_code ended = 0
served_code server_closed = 0
served_code (failed e) = 1

-- The requests that are being answered; whether the goroutine has got a signal and is in `Shutdown`;
-- whether TimeoutShutdown has passed since; and the code with which the process has exited.
pub record Process : Type 0 where
  pub active : ℕ
  pub closing : Bool
  pub expired : Bool
  pub exit : Option ℕ

-- `main` in front of `ListenAndServe`.
abbrev pub at_start : Process
at_start = record { active = 0; closing = false; expired = false; exit = none }

abbrev pub serving : ℕ → Process
serving n = record { active = n; closing = false; expired = false; exit = none }

abbrev pub shutting : ℕ → Bool → Process
shutting n late = record { active = n; closing = true; expired = late; exit = none }

-- One step of a process that has not exited.
pub data ProcessStep : Process → Process → Type 0 where
  -- A request comes, which the listener accepts.
  arrives : {n : ℕ} → ProcessStep (serving n) (serving (suc n))
  -- A request is answered.
  answers : {n : ℕ} → ProcessStep (serving (suc n)) (serving n)
  answers_late : {n : ℕ} {late : Bool} → ProcessStep (shutting (suc n) late) (shutting n late)
  -- The goroutine gets a signal and calls `Shutdown`.
  signalled : {n : ℕ} → ProcessStep (serving n) (shutting n false)
  -- TimeoutShutdown passes.
  expires : {n : ℕ} → ProcessStep (shutting n false) (shutting n true)
  -- `Shutdown` returns, and the goroutine calls `os.Exit(0)`: all requests are answered, or the time
  -- has passed.
  drained :
      {late : Bool}
      → ProcessStep (shutting zero late) (record (shutting zero late) { exit = some 0 })
  abandons : {n : ℕ} → ProcessStep (shutting n true) (record (shutting n true) { exit = some 0 })
  -- `ListenAndServe` returns with an error while it serves, or since the listener is closed.
  breaks :
      {n : ℕ} (e : String)
      → ProcessStep (serving n) (record (serving n) { exit = some (served_code (failed e)) })
  returns :
      {n : ℕ} {late : Bool}
      → ProcessStep
          (shutting n late)
          (record (shutting n late) { exit = some (served_code server_closed) })

-- What some steps lead to.
pub data Reaches (p : Process) : Process → Type 0 where
  here : Reaches p p
  then : {q r : Process} → Reaches p q → ProcessStep q r → Reaches p r

-- A process that exits without an error has got a signal, and one that exits with an error has none.
pub data ExitIsRight (p : Process) : Type 0 where
  runs : p.exit ≡ none → ExitIsRight p
  stopped : p.exit ≡ some 0 → p.closing ≡ true → ExitIsRight p
  broken : p.exit ≡ some 1 → p.closing ≡ false → ExitIsRight p

ProcessStep-ExitIsRight : {p q : Process} → ProcessStep p q → ExitIsRight q
ProcessStep-ExitIsRight arrives = runs refl
ProcessStep-ExitIsRight answers = runs refl
ProcessStep-ExitIsRight answers_late = runs refl
ProcessStep-ExitIsRight signalled = runs refl
ProcessStep-ExitIsRight expires = runs refl
ProcessStep-ExitIsRight drained = stopped refl refl
ProcessStep-ExitIsRight abandons = stopped refl refl
ProcessStep-ExitIsRight (breaks e) = broken refl refl
ProcessStep-ExitIsRight returns = stopped refl refl

-- Whatever requests and signals come, the process exits with 0 only behind a signal, and else with 1.
pub Reaches-ExitIsRight : {p : Process} → Reaches at_start p → ExitIsRight p
Reaches-ExitIsRight here = runs refl
Reaches-ExitIsRight (then steps last) = ProcessStep-ExitIsRight last

arrived : (n : ℕ) → Reaches at_start (serving n)
arrived zero = here
arrived (suc n) = then (arrived n) arrives

-- The shutdown is not graceful: with any number of requests that are being answered, the process can
-- exit before it has answered one of them and before TimeoutShutdown has passed.
pub Reaches-dropped :
    (n : ℕ)
    → Reaches at_start (record { active = n; closing = true; expired = false; exit = some 0 })
Reaches-dropped n = then (then (arrived n) signalled) returns
