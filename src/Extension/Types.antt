-- ===== src/Extension/Types.antt =====
-- The data of the extension server: extension/go/pkg/types/types.go, the constants of
-- extension/go/internal/config/config.go, and the records of extension/go/internal/extension/.
use mindorr.Prelude.{ℕ, ◌+◌, ◌%◌, ◌^◌, String, List, Option, Result}
use mindorr.Wire.{Hash}

abbrev pub version : String
version = "0.1.0"

abbrev pub op_type_greeting : String
op_type_greeting = "GREETING"

abbrev pub op_command_say_hello : String
op_command_say_hello = "SAY_HELLO"

abbrev pub op_command_say_goodbye : String
op_command_say_goodbye = "SAY_GOODBYE"

-- The fields of tee-node's `Action` and of `instruction.DataFixed` that the server reads.
pub record Action : Type 0 where
  pub id : Hash
  pub submission_tag : String
  pub message : List ℕ

pub record DataFixed : Type 0 where
  pub op_type : Hash
  pub op_command : Hash
  pub original_message : List ℕ

-- `SayHelloRequest` and `SayGoodbyeRequest`.
pub record SayHelloRequest : Type 0 where
  pub name : String

pub record SayGoodbyeRequest : Type 0 where
  pub name : String
  pub reason : String

-- `SayHelloResponse` and `SayGoodbyeResponse`, the values that are marshalled into a result.
pub data Response : Type 0 where
  hello : (greeting : String) (greeting_number : ℕ) → Response
  goodbye : (farewell : String) (farewell_number : ℕ) → Response

-- tee-node's `ActionResult`.
pub record ActionResult : Type 0 where
  pub id : Hash
  pub submission_tag : String
  pub version : String
  pub op_type : Hash
  pub op_command : Hash
  pub response : Option Response
  pub status : ℕ
  pub log : String

-- The fields of `Extension`; a count is the bit pattern of a 64-bit `int`.
pub record Extension : Type 0 where
  pub greeting_count : ℕ
  pub last_greeting : String
  pub farewell_count : ℕ
  pub last_farewell : String

-- `New`.
abbrev pub new : Extension
new = record { greeting_count = 0; last_greeting = ""; farewell_count = 0; last_farewell = "" }

abbrev pub int_mod : ℕ
int_mod = 2 ^ 64

-- `count++`.
abbrev pub increment : ℕ → ℕ
increment n = (n + 1) % int_mod

-- What a request is answered with: an error text, or a result in JSON.
pub data Body : Type 0 where
  text : String → Body
  result : ActionResult → Body

-- What the server takes from the libraries.
pub record Codec : Type 0 where
  -- `teeutils.ToHash` and `common.Hash.Hex`.
  pub to_hash : String → Hash
  pub hex : Hash → String
  -- `processorutils.Parse[instruction.DataFixed]`.
  pub parse : List ℕ → Result DataFixed
  -- Strict decoding of the JSON request, and decoding of the ABI tuple.
  pub decode_hello : List ℕ → Result SayHelloRequest
  pub decode_goodbye : List ℕ → Result SayGoodbyeRequest
