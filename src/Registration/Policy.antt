-- ===== src/Registration/Policy.antt =====
-- The signing policy of the FTDC proxy: extension/tools/pkg/fccutils/policy_consistency.go.
use mindorr.Prelude.{
  concat, if◌then◌else◌, Option, String, Bool, Result, ℕ, ◌≡◌, refl, ok, err, [], ◌∷◌, none, some,
  ◌||◌, eqb, ltb, ◌^◌, ◌%◌, ◌+◌, ◌-◌, ◌<◌, ◌≤◌, ◌↔◌, ◌⊎◌, arith,
}
use mindorr.Text.Decimal.{decimal}

-- The sum of two 64-bit numbers.
abbrev pub word : ℕ → ℕ
word n = n % 2 ^ 64

-- `policyInSync`.
unfoldable pub policy_in_sync : ℕ → ℕ → Bool
policy_in_sync onchain_epoch proxy_policy_id =
    eqb proxy_policy_id onchain_epoch || eqb proxy_policy_id (word (onchain_epoch + 1))

-- `outOfSyncError`; each difference is of the larger number and the smaller.
abbrev pub out_of_sync_error : ℕ → ℕ → String
out_of_sync_error onchain_epoch proxy_policy_id =
    let rel =
      if ltb proxy_policy_id onchain_epoch
      then concat
          ("proxy is " ∷ decimal (onchain_epoch - proxy_policy_id) ∷ " epoch(s) behind" ∷ [])
      else concat
          ("proxy is " ∷ decimal (proxy_policy_id - onchain_epoch) ∷ " epoch(s) ahead" ∷ []) in
    concat (
      "FTDC proxy signing policy out of sync with on-chain reward epoch: proxy signing policy "
      ∷ decimal proxy_policy_id
      ∷ " vs on-chain current reward epoch "
      ∷ decimal onchain_epoch
      ∷ " ("
      ∷ rel
      ∷ "); data providers will reject the availability check with 404 \"no round\"; wait for the proxy to catch up to the current signing policy, or check the proxy's initial_signing_policy_offset and C-chain indexer sync"
      ∷ [])

-- `CheckFTDCProxyPolicyConsistency`, on the answers of the chain and of the proxy; the chain's
-- answer may be nil, and its low 64 bits are read. A failed lookup is no error.
unfoldable pub check_policy_consistency : Result (Option ℕ) → Result ℕ → Option String
unfolding policy_in_sync
check_policy_consistency (err e) info = none
check_policy_consistency (ok none) info = none
check_policy_consistency (ok (some onchain)) (err e) = none
check_policy_consistency (ok (some onchain)) (ok last_policy_id) =
    let onchain_epoch = word onchain in
    if policy_in_sync onchain_epoch last_policy_id
    then none
    else some (out_of_sync_error onchain_epoch last_policy_id)

-- Between two answers the check lets a registration go on exactly if the policy of the proxy is that
-- of the current epoch or of the one after it; the epoch is below `2 ^ 64 - 1`.
pub check_policy_consistency_iff :
    (epoch policy : ℕ)
    → epoch + 1 < 2 ^ 64
    → (check_policy_consistency (ok (some epoch)) (ok policy) ≡ none)
      ↔ ((epoch ≤ policy) × (policy ≤ epoch + 1))
unfolding check_policy_consistency policy_in_sync
check_policy_consistency_iff epoch policy h = ground (arith, h)

-- A lookup that fails never stops a registration.
check_policy_consistency-failed :
    (onchain : Result (Option ℕ)) (info : Result ℕ) (e : String)
    → (onchain ≡ err e) ⊎ (info ≡ err e)
    → check_policy_consistency onchain info ≡ none
unfolding check_policy_consistency
check_policy_consistency-failed (err _) info e h = refl
check_policy_consistency-failed (ok none) info e h = refl
check_policy_consistency-failed (ok (some n)) (err _) e h = refl
check_policy_consistency-failed (ok (some n)) (ok l) e h = ground (arith, h)
