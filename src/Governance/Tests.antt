-- ===== src/Governance/Tests.antt =====
-- A contract that stores a hash, and signers in an environment.
use mindorr.Governance.Setting.{HasSet, set_governance-HasSet}
use mindorr.Prelude.{
  ◌==◌, if◌then◌else◌, ℕ, ◌≡◌, refl, ◌∙◌, ◌≤◌, ◌<◌, ◌^◌, List, ok, [], ◌∷◌, length, sym, ap,
}
use mindorr.Wire.{Hash, utf8}
use mindorr.Checks.Deploy.{Address}
use mindorr.Registration.{Node, returned, done}
use mindorr.Registration.Sample.{quiet}
use mindorr.Governance.{
  err, set_governance, Command, String, GovernanceContract, set_tee_governance, parse_signers,
  parse_threshold,
}
use mindorr.Governance.Governed.{set_tee_governance-IsGoverned, IsGoverned, KeepsHash}
use mindorr.Governance.Bounds.{parse_threshold-range}
use mindorr.Registration.Revert.{check_tx}

abbrev chain : Node Hash ℕ
chain = quiet Hash

-- The world is the hash that was set last, here the number of signers and the threshold.
abbrev contract : GovernanceContract Hash
contract = record {
  governance_hash = λ l t. ok (length l ∷ t ∷ []);
  transactor = ok done;
  get_latest = λ id w. ok w;
  set_new = λ id l t w. (returned (3 ∷ []), length l ∷ t ∷ []);
}

abbrev signers : List Address
signers = (1 ∷ []) ∷ (2 ∷ []) ∷ []

keeps : KeepsHash chain contract
keeps id l t hash w w2 h m = ap ok (sym (ap (λ r. r.1) m.sends ∙ ap (λ r. r.1) m.mines)) ∙ h

ran : set_tee_governance chain contract 4 signers 2 [] ≡ (ok done, 2 ∷ 2 ∷ [])
unfolding set_tee_governance check_tx
ran = refl

set_tee_governance-IsGoverned_example :
    IsGoverned chain contract 4 signers 2 (2 ∷ 2 ∷ [])
    × (set_tee_governance chain contract 4 signers 2 (2 ∷ 2 ∷ []) ≡ (ok done, 2 ∷ 2 ∷ []))
set_tee_governance-IsGoverned_example =
    set_tee_governance-IsGoverned chain contract keeps 4 signers 2 [] (2 ∷ 2 ∷ []) ran

too_large : parse_threshold "18446744073709551616" ≡ 1
unfolding parse_threshold
too_large = refl

split : parse_signers utf8 " a, ,b" [] ≡ (97 ∷ []) ∷ (98 ∷ []) ∷ []
unfolding parse_signers utf8
split = refl

parse_threshold-range_example :
    (1 ≤ length (parse_signers utf8 "" (7 ∷ [])))
    × (1 ≤ parse_threshold "0")
    × (parse_threshold "0" < 2 ^ 64)
parse_threshold-range_example = parse_threshold-range utf8 "" "0" (7 ∷ [])

abbrev env : String → String
env name =
    if name == "GOVERNANCE_SIGNERS"
    then "a,b"
    else if name == "GOVERNANCE_THRESHOLD"
    then "2"
    else ""

abbrev command : Command Hash
command = record {
  PrivateKey = List ℕ;
  getenv = env;
  hex_to_ecdsa = λ s. err "no key";
  address_of = λ k. k;
  hex_to_address = utf8;
  support = ok (9 ∷ []);
  contract = λ k. contract;
  tee_info = λ w. (ok 4, w);
}

set_ran : set_governance chain command [] ≡ (ok done, 2 ∷ 2 ∷ [])
unfolding set_governance check_tx utf8
set_ran = refl

set_governance-HasSet_example : HasSet chain command [] (2 ∷ 2 ∷ [])
set_governance-HasSet_example =
    set_governance-HasSet chain command (λ k. keeps) [] (2 ∷ 2 ∷ []) set_ran
