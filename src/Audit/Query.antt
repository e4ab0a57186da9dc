-- ===== src/Audit/Query.antt =====
-- `main` of extension/tools/cmd/query-tee/main.go. What is printed is a list of lines, a quoted text
-- being written as it is.
use mindorr.Prelude.{
  ℕ, eqb, ◌+◌, length, concat, ◌≡◌, refl, arith, Option, none, some, String, Result, ok, err, List,
  [], ◌∷◌, ◌++◌, if◌then◌else◌,
}
use mindorr.Text.Decimal.{decimal}
use mindorr.Checks.Deploy.{Address, is_zero}
use mindorr.Registration.{Done}

-- What `GetTeeMachine` gives.
pub record TeeMachine : Type 0 where
  pub tee_id : Address
  pub tee_proxy_id : Address
  pub url : String

-- What `GetActiveTeeMachines` gives.
pub record ActiveMachines : Type 0 where
  pub tee_ids : List Address
  pub urls : List String

-- The calls of the registry, one answer to each question, and the texts of the libraries.
pub record Registry : Type 0 where
  pub dial : Result Done
  pub bind : Result Done
  pub active_tee_machines : ℕ → Result ActiveMachines
  pub tee_machine : Address → Result TeeMachine
  pub tee_machine_status : Address → Result ℕ
  pub tee_machine_owner : Address → Result Address
  pub extension_id : Address → Result ℕ
  pub last_status_change_ts : Address → Result ℕ
  pub initial_signing_policy_id : Address → Result ℕ
  pub hex : Address → String
  pub hex_to_address : String → Address

-- How a run ends: at its end, at `os.Exit(1)` with a text on the error output, or where the list of
-- URLs is shorter than that of the ids.
pub data Ending : Type 0 where
  ended : Ending
  exited : String → Ending
  out_of_range : Ending

pub record Queried : Type 0 where
  pub printed : List String
  pub ending : Ending

abbrev exit_with : String → Queried
exit_with text = record { printed = []; ending = exited text }

-- Lines, and then what follows.
abbrev pub before : List String → Queried → Queried
before lines q = record { printed = lines ++ q.printed; ending = q.ending }

abbrev pub behind : Queried → Queried → Queried
behind first later = elim first.ending [
  | ended ↦ before first.printed later
  | exited text ↦ first
  | out_of_range ↦ first
]

abbrev all_of : List String → Queried
all_of lines = record { printed = lines; ending = ended }

module _ (r : Registry) where
  -- The loop over the active machines, from index `i`.
  unfoldable pub machine_lines : ℕ → List Address → List String → Queried
  unfolding decimal
  machine_lines i [] urls = all_of []
  machine_lines i (id ∷ ids) [] = record { printed = []; ending = out_of_range }
  machine_lines i (id ∷ ids) (url ∷ urls) =
      before (concat ("  " ∷ decimal i ∷ ": " ∷ r.hex id ∷ " url=" ∷ url ∷ []) ∷ [])
        (machine_lines (i + 1) ids urls)

  abbrev active_answer : Result ActiveMachines → Queried
  active_answer (err e) = all_of (concat ("getActiveTeeMachines ERROR: " ∷ e ∷ []) ∷ [])
  active_answer (ok out) =
      behind (machine_lines 0 out.tee_ids out.urls)
        (all_of (if eqb (length out.tee_ids) 0 then "  (none)" ∷ [] else []))

  -- The part for the flag `ext`, none where the number is negative.
  unfoldable pub active_lines : Option ℕ → Queried
  unfolding machine_lines decimal
  active_lines none = all_of []
  active_lines (some ext) =
      before ("" ∷ concat ("=== Active TEEs for extensionId=" ∷ decimal ext ∷ " ===" ∷ []) ∷ [])
        (active_answer (r.active_tee_machines ext))

  -- One answer: the error or the text.
  abbrev pub answer_line : String → Result String → String
  answer_line call (err e) = concat ("  " ∷ call ∷ " ERROR: " ∷ e ∷ [])
  answer_line call (ok text) = concat ("  " ∷ call ∷ ": " ∷ text ∷ [])

  abbrev shown : {A : Type 0} → (A → String) → Result A → Result String
  shown show (err e) = err e
  shown show (ok a) = ok (show a)

  abbrev pub registered_lines : Result TeeMachine → List String
  registered_lines (err e) = concat ("  getTeeMachine ERROR: " ∷ e ∷ []) ∷ []
  registered_lines (ok m) =
      concat (
        "  getTeeMachine: teeId="
        ∷ r.hex m.tee_id
        ∷ " teeProxyId="
        ∷ r.hex m.tee_proxy_id
        ∷ " url="
        ∷ m.url
        ∷ [])
      ∷ (if is_zero m.tee_id then "  -> EMPTY/UNREGISTERED" ∷ [] else [])

  -- The lines for one machine that the arguments name.
  unfoldable pub tee_lines : String → List String
  unfolding is_zero decimal
  tee_lines raw =
      let id = r.hex_to_address raw in
      ("" ∷ concat ("=== TEE " ∷ r.hex id ∷ " ===" ∷ []) ∷ [])
      ++ registered_lines (r.tee_machine id)
      ++ (answer_line "getTeeMachineStatus" (shown decimal (r.tee_machine_status id))
          ∷ answer_line "getTeeMachineOwner" (shown r.hex (r.tee_machine_owner id))
          ∷ answer_line "getExtensionId" (shown decimal (r.extension_id id))
          ∷ answer_line "getLastStatusChangeTs" (shown decimal (r.last_status_change_ts id))
          ∷ answer_line "getInitialSigningPolicyId" (shown decimal (r.initial_signing_policy_id id))
          ∷ [])

  unfoldable pub tees_lines : List String → List String
  unfolding tee_lines
  tees_lines [] = []
  tees_lines (raw ∷ raws) = tee_lines raw ++ tees_lines raws

  -- `main`, on the flag `ext` and the arguments.
  unfoldable pub query : Option ℕ → List String → Queried
  unfolding active_lines tees_lines
  query ext raws = elim r.dial [
    | err e ↦ exit_with (concat ("dial: " ∷ e ∷ []))
    | ok d ↦ elim r.bind [
      | err e ↦ exit_with (concat ("bind: " ∷ e ∷ []))
      | ok d ↦ behind (active_lines ext) (all_of (tees_lines raws))
    ]
  ]

  machine_lines-ended :
      (i : ℕ) (ids : List Address) (urls : List String)
      → length ids ≡ length urls
      → (machine_lines i ids urls).ending ≡ ended
  unfolding machine_lines
  machine_lines-ended i [] urls same = refl
  machine_lines-ended i (id ∷ ids) [] same = absurd (ground arith)
  machine_lines-ended i (id ∷ ids) (url ∷ urls) same =
      machine_lines-ended (i + 1) ids urls (ground arith)

  -- Where the registry can be asked and gives a URL for every active machine, a run prints its lines
  -- to the end.
  pub query-ended :
      (ext : Option ℕ) (raws : List String) {d d' : Done}
      → r.dial ≡ ok d
      → r.bind ≡ ok d'
      → ((id : ℕ) (out : ActiveMachines)
          → r.active_tee_machines id ≡ ok out
          → length out.tee_ids ≡ length out.urls)
      → (query ext raws).ending ≡ ended
  unfolding query active_lines
  query-ended ext raws dials binds same =
      rw (dials, binds)
        (behind-ended (active_lines ext) (all_of (tees_lines raws)) (active ext) refl)
    where
      behind-ended :
          (first later : Queried)
          → first.ending ≡ ended
          → later.ending ≡ ended
          → (behind first later).ending ≡ ended
      behind-ended first later h k = rw h k

      answered :
          (answer : Result ActiveMachines)
          → ((out : ActiveMachines) → answer ≡ ok out → length out.tee_ids ≡ length out.urls)
          → (active_answer answer).ending ≡ ended
      answered (err e) h = refl
      answered (ok out) h =
          behind-ended (machine_lines 0 out.tee_ids out.urls) _
            (machine_lines-ended 0 out.tee_ids out.urls (h out refl)) refl

      active : (ext : Option ℕ) → (active_lines ext).ending ≡ ended
      active none = refl
      active (some id) = answered (r.active_tee_machines id) (same id)
