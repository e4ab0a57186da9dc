-- ===== src/Checks/EnvFile.antt =====
-- `extension.env`: `CheckExtensionEnvFormat`, `parseExtensionEnv` and the two patterns of
-- extension/tools/pkg/validate/checks.go.
pub mod Agreement
use mindorr.Prelude.{
  ℕ, ◌-◌, Bool, true, false, not, ◌&&◌, ◌||◌, String, code, List, [], ◌∷◌, ◌++◌, Option, none, some,
  concat, ◌==◌, eqb, if◌then◌else◌, ◌≡◌, refl,
}
use mindorr.Text.{is_empty}
use mindorr.Text.Trim.{trim_space}
use mindorr.Text.Split.{split_equals, scan_lines}
use mindorr.Text.Hex.{hex_value}
use mindorr.LiveServer.Address.{strip_0x}
use mindorr.Report.{CheckResult, pass, fail, skip}

-- What the checks ask of the machine that they run on. A file that cannot be opened is `none`;
-- a URL that cannot be fetched has no status.
pub record Machine : Type 0 where
  pub getenv : String → String
  pub read_file : String → Option String
  pub is_missing : String → Bool
  pub dial : String → Bool
  pub http_status : String → Option ℕ
  -- `%q` of a text.
  pub quote : String → String

abbrev pub is_digit : Option ℕ → Bool
is_digit none = false
is_digit (some v) = true

-- `[0-9a-fA-F]{n}$`.
unfoldable pub hex_digits : ℕ → String → Bool
unfolding hex_value
hex_digits n String.[] = eqb n 0
hex_digits n (String.◌∷◌ c s) =
    let rest = hex_digits (n - 1) s in not (eqb n 0) && is_digit (hex_value (code c)) && rest

abbrev pub matches : ℕ → Option String → Bool
matches n none = false
matches n (some digits) = hex_digits n digits

-- `addressRegex` and `extensionIDRegex`: `^0x`, and 40 or 64 digits.
unfoldable pub is_address : String → Bool
unfolding hex_digits strip_0x
is_address s = matches 40 (strip_0x s)

unfoldable pub is_extension_id : String → Bool
unfolding hex_digits strip_0x
is_extension_id s = matches 64 (strip_0x s)

abbrev starts_with_hash : String → Bool
starts_with_hash String.[] = false
starts_with_hash (String.◌∷◌ c s) = eqb (code c) b'#'

abbrev trim_both : Option (String × String) → Option (String × String)
trim_both none = none
trim_both (some (k, v)) = some (trim_space k, trim_space v)

-- One round of the scanner's loop: the key and the value of a line, if it has them.
unfoldable pub env_entry : String → Option (String × String)
unfolding trim_space split_equals
env_entry text =
    let line = trim_space text in
    if is_empty line || starts_with_hash line then none else trim_both (split_equals line)

-- `vars[k] = v`.
abbrev pub put : String → String → List (String × String) → List (String × String)
put k v [] = (k, v) ∷ []
put k v ((j, u) ∷ m) = if j == k then (k, v) ∷ m else (j, u) ∷ put k v m

abbrev pub lookup : String → List (String × String) → Option String
lookup k [] = none
lookup k ((j, u) ∷ m) = if j == k then some u else lookup k m

abbrev put_entry : Option (String × String) → List (String × String) → List (String × String)
put_entry none m = m
put_entry (some (k, v)) m = put k v m

-- The map that `CheckExtensionEnvFormat` builds.
unfoldable pub env_vars : List (String × String) → List String → List (String × String)
unfolding env_entry
env_vars m [] = m
env_vars m (text ∷ texts) = env_vars (put_entry (env_entry text) m) texts

-- The two results of `parseExtensionEnv`.
pub record Env : Type 0 where
  pub extension_id : String
  pub instruction_sender : String

abbrev take_entry : Option (String × String) → Env → Env
take_entry none e = e
take_entry (some (k, v)) e =
    if k == "EXTENSION_ID"
    then record e { extension_id = v }
    else if k == "INSTRUCTION_SENDER"
    then record e { instruction_sender = v }
    else e

unfoldable pub env_from : Env → List String → Env
unfolding env_entry
env_from e [] = e
env_from e (text ∷ texts) = env_from (take_entry (env_entry text) e) texts

abbrev pub no_env : Env
no_env = record { extension_id = ""; instruction_sender = "" }

abbrev pub env_of : Option String → Env
env_of none = no_env
env_of (some text) = env_from no_env (scan_lines text)

-- `parseExtensionEnv`; its third result, the error, is nil on every path.
unfoldable pub parse_extension_env : Machine → String → Env
unfolding env_from scan_lines
parse_extension_env m path = env_of (m.read_file path)

abbrev env_fix : String
env_fix = "Delete config/extension.env and re-run scripts/pre-build.sh"

-- The result for one variable.
abbrev pub env_check : Machine → (String → Bool) → String → Option String → CheckResult
env_check m valid key none = record {
  step = "deploy";
  id = "D7";
  name = concat (key ∷ " in extension.env" ∷ []);
  status = fail;
  message = concat (key ∷ " not found in extension.env" ∷ []);
  fix = env_fix;
}
env_check m valid key (some val) =
    if not (valid val)
    then record {
      step = "deploy";
      id = "D7";
      name = concat (key ∷ " in extension.env" ∷ []);
      status = fail;
      message = concat (key ∷ " has invalid format: " ∷ m.quote val ∷ []);
      fix = env_fix;
    }
    else record {
      step = "deploy";
      id = "D7";
      name = concat (key ∷ " in extension.env" ∷ []);
      status = pass;
      message = val;
      fix = "";
    }

abbrev pub format_of : Machine → String → Option String → List CheckResult
format_of m path none =
    record {
      step = "deploy";
      id = "D7";
      name = "extension.env exists";
      status = skip;
      message = concat ("file not found: " ∷ path ∷ []);
      fix = "";
    }
    ∷ []
format_of m path (some text) =
    let vars = env_vars [] (scan_lines text) in
    env_check m is_address "INSTRUCTION_SENDER" (lookup "INSTRUCTION_SENDER" vars)
    ∷ env_check m is_extension_id "EXTENSION_ID" (lookup "EXTENSION_ID" vars)
    ∷ []

-- `CheckExtensionEnvFormat`.
unfoldable pub check_extension_env_format : Machine → String → List CheckResult
unfolding env_vars scan_lines is_address is_extension_id
check_extension_env_format m path = format_of m path (m.read_file path)
