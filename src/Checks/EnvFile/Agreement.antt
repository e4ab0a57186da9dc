-- ===== src/Checks/EnvFile/Agreement.antt =====
-- The two readers of `extension.env`, side by side, and their patterns beside the address test of the
-- live server.
use mindorr.Prelude.{
  Bool-ext, Char, ◌||◌, any, ℕ, zero, suc, ◌+◌, ◌-◌, ◌*◌, Bool, true, false, not, ◌&&◌, String,
  code, List, [], ◌∷◌, Option, none, some, ◌==◌, eqb, if◌then◌else◌, ◌≡◌, refl, arith, eq_iff,
  length, ap, ◌∙◌,
}
use mindorr.Text.Split.{scan_lines}
use mindorr.Text.Hex.{hex_value, decode_hex, pair_value-eq-some}
use mindorr.LiveServer.Address.{strip_0x, valid_addr, valid_addr_iff, strip_0x-eq-some, strip_0x_0x}
use mindorr.Report.{is_fail}
use mindorr.Checks.EnvFile.{
  Machine, is_digit, hex_digits, matches, is_address, is_extension_id, env_entry, put, lookup,
  put_entry, env_vars, Env, take_entry, env_from, no_env, env_of, parse_extension_env, env_check,
  check_extension_env_format,
}

-- The value of a key, and the empty text if there is none.
abbrev pub value_or_empty : Option String → String
value_or_empty none = ""
value_or_empty (some v) = v

lookup-put :
    (k j v : String) (m : List (String × String))
    → lookup j (put k v m) ≡ (if k == j then some v else lookup j m)
lookup-put k j v [] = refl
lookup-put k j v ((i, u) ∷ m) =
    ground (arith, eq_iff k j, eq_iff i k, eq_iff i j, lookup-put k j v m)

-- What the record holds is what the map holds.
record Agrees (e : Env) (m : List (String × String)) : Type 0 where
  extension_id : e.extension_id ≡ value_or_empty (lookup "EXTENSION_ID" m)
  instruction_sender : e.instruction_sender ≡ value_or_empty (lookup "INSTRUCTION_SENDER" m)

take_entry-Agrees :
    (o : Option (String × String)) (e : Env) (m : List (String × String))
    → Agrees e m
    → Agrees (take_entry o e) (put_entry o m)
take_entry-Agrees none e m h = h
take_entry-Agrees (some (k, v)) e m h = record {
  extension_id = ground (
    arith,
    h.extension_id,
    lookup-put k "EXTENSION_ID" v m,
    eq_iff k "EXTENSION_ID",
    eq_iff k "INSTRUCTION_SENDER",
    eq_iff "EXTENSION_ID" "INSTRUCTION_SENDER",
  );
  instruction_sender = ground (
    arith,
    h.instruction_sender,
    lookup-put k "INSTRUCTION_SENDER" v m,
    eq_iff k "EXTENSION_ID",
    eq_iff k "INSTRUCTION_SENDER",
    eq_iff "EXTENSION_ID" "INSTRUCTION_SENDER",
  );
}

env_from-Agrees :
    (e : Env) (m : List (String × String)) (texts : List String)
    → Agrees e m
    → Agrees (env_from e texts) (env_vars m texts)
unfolding env_from env_vars
env_from-Agrees e m [] h = h
env_from-Agrees e m (text ∷ texts) h =
    env_from-Agrees (take_entry (env_entry text) e) (put_entry (env_entry text) m) texts
      (take_entry-Agrees (env_entry text) e m h)

env_of-Agrees : (text : String) → Agrees (env_of (some text)) (env_vars [] (scan_lines text))
env_of-Agrees text =
    env_from-Agrees no_env [] (scan_lines text)
      (record { extension_id = refl; instruction_sender = refl })

de_morgan : (a b : Bool) → (not a || (not b || false)) ≡ not (a && b)
de_morgan a b = ground arith

env_check-failed :
    (m : Machine) (valid : String → Bool) (key : String) (o : Option String)
    → valid "" ≡ false
    → is_fail (env_check m valid key o).status ≡ not (valid (value_or_empty o))
env_check-failed m valid key none h = rw h
env_check-failed m valid key (some v) h = ground arith

-- The format check of a file that can be read fails exactly if one of the two values that
-- `parseExtensionEnv` reads from it does not match its pattern.
pub check_extension_env_format-parse :
    (m : Machine) (path text : String)
    → m.read_file path ≡ some text
    → any (λ res. is_fail res.status) (check_extension_env_format m path)
      ≡ not (
          is_address (parse_extension_env m path).instruction_sender
          && is_extension_id (parse_extension_env m path).extension_id)
unfolding check_extension_env_format parse_extension_env
check_extension_env_format-parse m path text e =
    let a = env_of-Agrees text in
    rw
      (
        e,
        a.extension_id,
        a.instruction_sender,
        env_check-failed m is_address "INSTRUCTION_SENDER" _ refl,
        env_check-failed m is_extension_id "EXTENSION_ID" _ refl,
      )
      (de_morgan _ _)

is_digit-eq-true : (o : Option ℕ) → is_digit o ≡ true → (v : ℕ) × (o ≡ some v)
is_digit-eq-true none h = cc
is_digit-eq-true (some v) h = (v, refl)

hex_digits-cons_cons :
    (n : ℕ) (c d : Char) (s : String)
    → hex_digits n (String.◌∷◌ c (String.◌∷◌ d s)) ≡ (
        not (eqb n 0)
        && is_digit (hex_value (code c))
        && (not (eqb (n - 1) 0) && is_digit (hex_value (code d)) && hex_digits (n - 1 - 1) s))
unfolding hex_digits
hex_digits-cons_cons n c d s = ground arith

abbrev Decodes : ℕ → String → Type 0
Decodes k s = (bs : List ℕ) × (decode_hex s ≡ some bs) × (length bs ≡ k)

Decodes-cons_cons :
    (c d : Char) (s : String) (k : ℕ)
    → (v : ℕ) × (hex_value (code c) ≡ some v)
    → (v : ℕ) × (hex_value (code d) ≡ some v)
    → Decodes k s
    → Decodes (suc k) (String.◌∷◌ c (String.◌∷◌ d s))
unfolding decode_hex
Decodes-cons_cons c d s k (hi, p) (lo, q) (bs, e, n) =
    ((hi * 16 + lo) ∷ bs, rw (p, q, e), omega arith)

hex_digits-decode_hex : (k : ℕ) (s : String) → hex_digits (2 * k) s ≡ true → Decodes k s
unfolding hex_digits decode_hex
hex_digits-decode_hex zero String.[] h = ([], refl, refl)
hex_digits-decode_hex zero (String.◌∷◌ c s) h = absurd (ground arith)
hex_digits-decode_hex (suc k) String.[] h = absurd (ground arith)
hex_digits-decode_hex (suc k) (String.◌∷◌ c String.[]) h = absurd (ground arith)
hex_digits-decode_hex (suc k) (String.◌∷◌ c (String.◌∷◌ d s)) h =
    let two : 2 * suc k - 1 - 1 ≡ 2 * k = omega arith in
    let parts = rw (hex_digits-cons_cons (2 * suc k) c d s, two) at h in
    Decodes-cons_cons c d s k (is_digit-eq-true (hex_value (code c)) (ground arith))
      (is_digit-eq-true (hex_value (code d)) (ground arith))
      (hex_digits-decode_hex k s (ground arith))

decode_hex-hex_digits :
    (s : String) (bs : List ℕ) → decode_hex s ≡ some bs → hex_digits (2 * length bs) s ≡ true
unfolding hex_digits decode_hex
decode_hex-hex_digits String.[] bs h =
    let none_left : [] ≡ bs = ground arith in rw (← none_left) refl
decode_hex-hex_digits (String.◌∷◌ c String.[]) bs h = cc
decode_hex-hex_digits (String.◌∷◌ c (String.◌∷◌ d s)) bs h =
    let (hi, lo, rest, p, q, r, e) =
      pair_value-eq-some (hex_value (code c)) (hex_value (code d)) (decode_hex s) h in
    let two : 2 * suc (length rest) - 1 - 1 ≡ 2 * length rest = omega arith in
    let ih = decode_hex-hex_digits s rest r in
    rw (e, hex_digits-cons_cons (2 * suc (length rest)) c d s, two, p, q, ih) (ground arith)

matched :
    (n : ℕ) (o : Option String)
    → matches n o ≡ true
    → (digits : String) × (o ≡ some digits) × (hex_digits n digits ≡ true)
matched n none h = cc
matched n (some digits) h = (digits, refl, h)

-- The pattern for an address accepts the texts that the live server accepts, and no other.
pub is_address-valid_addr : (s : String) → is_address s ≡ valid_addr s
unfolding is_address
is_address-valid_addr s = Bool-ext (is_address s) (valid_addr s) to from
  where
    to : is_address s ≡ true → valid_addr s ≡ true
    to h =
        let (digits, tail, k) = matched 40 (strip_0x s) h in
        let (bs, d, n) = hex_digits-decode_hex 20 digits k in
        (valid_addr_iff s).1 (digits, bs, strip_0x-eq-some s tail, d, n)

    from : valid_addr s ≡ true → is_address s ≡ true
    from h =
        let (digits, bs, e, d, n) = (valid_addr_iff s).0 h in
        let tail : strip_0x s ≡ some digits = ap strip_0x e ∙ strip_0x_0x digits in
        let k = decode_hex-hex_digits digits bs d in ap (matches 40) tail ∙ rw n at k
