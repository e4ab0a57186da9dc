-- ===== src/Checks/Deploy/Passing.antt =====
-- What a deployment report without a failure says of the chain and of `extension.env`.
use mindorr.Prelude.{
  Option-cases, inr, inl, Bool-cases, ◌⊎◌, List, ◌≡◌, refl, none, some, [], ◌∷◌, ok, err, ◌++◌,
  false, true, arith, All, any, ◌≤◌, sym, subst, ◌∙◌, map,
}
use mindorr.Checks.Deploy.{
  chain_checks, check_deployer_key_source, deploy_results, format_checks, check_chain_id,
  funds_error, code_error, of_error, register_deploy_checks, Result, Option, is_zero, funds_checks,
  code_check, zero_check, key_has_funds, code_checks, address_has_code, zero_labels,
  address_not_zero, min_deploy_balance, String, ℕ, Address, Client,
}
use mindorr.Report.{has_failures, Report}
use mindorr.Checks.Verdicts.{none_of_append, neither, has_failures-add_all, fails}
use mindorr.Checks.EnvFile.{is_extension_id, parse_extension_env, is_address, Machine}
use mindorr.Text.{eq_of_is_empty, is_empty}
use mindorr.Checks.EnvFile.Agreement.{check_extension_env_format-parse}

-- Deployed code is an answer that is not empty.
abbrev pub HasCode : Client → Address → Type 0
HasCode client addr = (b : ℕ) × (code : List ℕ) × (client.code_at addr ≡ ok (b ∷ code))

abbrev pub IsFunded : Client → Address → Type 0
IsFunded client addr =
    (balance : ℕ) × (client.balance_at addr ≡ ok balance) × (min_deploy_balance ≤ balance)

module _ (hex : Address → String) where
  of_error-passes :
      (step id name message fix : String) (o : Option String)
      → fails (of_error hex step id name o message fix) ≡ false
      → o ≡ none
  of_error-passes step id name message fix none h = refl
  of_error-passes step id name message fix (some e) h = ground (arith, h)

  zero_check-passes :
      (entry : String × Address) → fails (zero_check hex entry) ≡ false → is_zero entry.1 ≡ false
  unfolding address_not_zero
  zero_check-passes entry h = ground (arith, h)

  zero_checks-pass :
      (entries : List (String × Address))
      → any fails (map (zero_check hex) entries) ≡ false
      → All (λ entry. is_zero entry.1 ≡ false) entries × (zero_labels hex entries ≡ [])
  unfolding zero_labels address_not_zero is_zero
  zero_checks-pass [] h = (tt, refl)
  zero_checks-pass (entry ∷ entries) h =
      let z = zero_check-passes entry (ground (arith, h)) in
      let (zs, labels) = zero_checks-pass entries (ground (arith, h)) in
      ((z, zs), ground (arith, z, labels))

  pub code_error-passes :
      (addr : Address) (label : String) (answer : Result (List ℕ))
      → code_error hex addr label answer ≡ none
      → (b : ℕ) × (code : List ℕ) × (answer ≡ ok (b ∷ code))
  code_error-passes addr label (err e) h = ground (arith, h)
  code_error-passes addr label (ok []) h = ground (arith, h)
  code_error-passes addr label (ok (b ∷ code)) h = (b, code, refl)

  code_check-passes :
      (client : Client) (entry : String × Address)
      → fails (code_check hex (some client) entry) ≡ false
      → HasCode client entry.1
  unfolding address_has_code
  code_check-passes client entry h =
      code_error-passes entry.1 entry.0 (client.code_at entry.1)
        (of_error-passes "deploy" "D1" _ _ _ _ h)

  code_checks-pass :
      (client : Client) (entries : List (String × Address))
      → any fails (code_checks hex (some client) [] entries) ≡ false
      → All (λ entry. HasCode client entry.1) entries
  unfolding code_checks
  code_checks-pass client [] h = tt
  code_checks-pass client (entry ∷ entries) h = (
    code_check-passes client entry (ground (arith, h)),
    code_checks-pass client entries (ground (arith, h)),
  )

  pub funds_error-passes :
      (addr : Address) (min : ℕ) (answer : Result ℕ)
      → funds_error hex addr min answer ≡ none
      → (balance : ℕ) × (answer ≡ ok balance) × (min ≤ balance)
  funds_error-passes addr min (err e) h = ground (arith, h)
  funds_error-passes addr min (ok balance) h = (balance, refl, ground (arith, h))

  funds_checks-pass :
      (client : Client) (addr : Address)
      → any fails (funds_checks hex (some client) (some addr)) ≡ false
      → IsFunded client addr
  unfolding key_has_funds
  funds_checks-pass client addr h =
      funds_error-passes addr min_deploy_balance (client.balance_at addr) (
        of_error-passes "deploy" "D5" "deployer has sufficient funds"
          "balance above minimum threshold" "Fund the deployer account before deploying" _
          (ground (arith, h)))

  chain_id-passes :
      (answer : Result ℕ) → fails (check_chain_id answer) ≡ false → (id : ℕ) × (answer ≡ ok id)
  chain_id-passes (err e) h = ground (arith, h)
  chain_id-passes (ok id) h = (id, refl)

  format_checks-pass :
      (m : Machine) (path : String)
      → any fails (format_checks hex m path) ≡ false
      → (path ≡ "")
        ⊎ (m.read_file path ≡ none)
        ⊎ ((is_address (parse_extension_env m path).instruction_sender ≡ true)
            × (is_extension_id (parse_extension_env m path).extension_id ≡ true))
  format_checks-pass m path h = elim (Bool-cases (is_empty path)) [
    | inl e ↦ inl (eq_of_is_empty path e)
    | inr e ↦ elim (Option-cases (m.read_file path)) [
      | inl missing ↦ inr (inl missing)
      | inr (text, found) ↦
          let agree = check_extension_env_format-parse m path text found in
          inr (inr (ground (arith, agree, h, e)))
    ]
  ]

  -- A deployment report with a client and a key, and without a failure, found that no address is
  -- zero, that there is code at every address, that the deployer has the minimum balance, and that
  -- the chain gave its id; and, where the file at the given path can be read, that it holds a
  -- well-formed `INSTRUCTION_SENDER` and `EXTENSION_ID`. The report was without a failure before.
  pub register_deploy_checks-passing :
      (m : Machine) (client : Client) (key : Address) (first second : List (String × Address))
      (path : String) (r : Report)
      → has_failures (register_deploy_checks hex m (some client) (some key) first second path r)
        ≡ false
      → (has_failures r ≡ false)
        × All (λ entry. is_zero entry.1 ≡ false) first
        × All (λ entry. HasCode client entry.1) second
        × IsFunded client key
        × ((id : ℕ) × (client.chain_id ≡ ok id))
        × ((path ≡ "")
            ⊎ (m.read_file path ≡ none)
            ⊎ ((is_address (parse_extension_env m path).instruction_sender ≡ true)
                × (is_extension_id (parse_extension_env m path).extension_id ≡ true)))
  unfolding register_deploy_checks
  register_deploy_checks-passing m client key first second path r h =
      let results = deploy_results hex m (some client) (some key) first second path in
      let (before, parts) =
        neither (has_failures r) (any fails results) (sym (has_failures-add_all r results) ∙ h) in
      let (zeros, parts) = none_of_append (map (zero_check hex) first) _ parts in
      let (addresses, labels) = zero_checks-pass first zeros in
      let (codes, parts) =
        none_of_append (code_checks hex (some client) (zero_labels hex first) second) _ parts in
      let (source, parts) = neither (fails (check_deployer_key_source m)) _ parts in
      let (funds, parts) =
        none_of_append (funds_checks hex (some client) (some key))
          (chain_checks hex (some client) ++ format_checks hex m path) parts in
      let (chain, format) = neither (fails (check_chain_id client.chain_id)) _ parts in
      (
        before,
        addresses,
        code_checks-pass client second
            (subst (λ l. any fails (code_checks hex (some client) l second) ≡ false) labels codes),
        funds_checks-pass client key funds,
        chain_id-passes client.chain_id chain,
        format_checks-pass m path format,
      )
