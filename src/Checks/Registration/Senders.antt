-- ===== src/Checks/Registration/Senders.antt =====
-- When R7 warns of an instruction sender that several extensions share.
use mindorr.Prelude.{
  ◌^◌, subst, inr, ◌≢◌, inl, Bool-cases, ◌+◌, ◌⊎◌, ◌≡◌, ok, err, length, false, true, zero, suc,
  arith, ◌≤◌, ◌<◌, ◌↔◌,
}
use mindorr.Checks.Registration.{
  unique_check, is_sender, String, int64_rounds, matching_ids, Result, ℕ, ExtensionManager,
}
use mindorr.Checks.Deploy.{Address}
use mindorr.Wire.{same_hash_iff}
use mindorr.Report.{warn}

-- The extension `j` has the sender `expected`.
abbrev pub Sends : ExtensionManager → Address → ℕ → Type 0
Sends registry expected j = registry.tee_extension_instructions_sender j ≡ ok expected

is_sender_iff :
    (expected : Address) (answer : Result Address)
    → (is_sender expected answer ≡ true) ↔ (answer ≡ ok expected)
is_sender_iff expected (err e) = ground arith
is_sender_iff expected (ok sender) = ground (arith, same_hash_iff sender expected)

module _ (registry : ExtensionManager) (expected : Address) where
  match_or_not :
      (j : ℕ)
      → Sends registry expected j
        ⊎ (is_sender expected (registry.tee_extension_instructions_sender j) ≡ false)
  match_or_not j =
      elim (Bool-cases (is_sender expected (registry.tee_extension_instructions_sender j))) [
        | inl h ↦ inl ((is_sender_iff expected _).0 h)
        | inr h ↦ inr h
      ]

  first_match :
      (i k : ℕ)
      → 0 < length (matching_ids registry expected i k)
      → (j : ℕ) × (i ≤ j) × (j < i + k) × Sends registry expected j
  unfolding matching_ids
  first_match i zero h = ground (arith, h)
  first_match i (suc k) h = elim (match_or_not i) [
    | inl s ↦ (i, omega arith, omega arith, s)
    | inr n ↦
        let (j, low, high, s) = first_match (i + 1) k (ground (arith, h, n)) in
        (j, omega (arith, low), omega (arith, high), s)
  ]

  -- An id that is not a match differs from one that is.
  differs :
      (i j : ℕ)
      → is_sender expected (registry.tee_extension_instructions_sender i) ≡ false
      → Sends registry expected j
      → i ≢ j
  differs i j n s same =
      let e = (is_sender_iff expected (registry.tee_extension_instructions_sender j)).1 s in
      let e' =
        subst (λ x. is_sender expected (registry.tee_extension_instructions_sender x) ≡ false) same
          n in
      cc

  match_counted :
      (i k j : ℕ)
      → i ≤ j
      → j < i + k
      → Sends registry expected j
      → 0 < length (matching_ids registry expected i k)
  unfolding matching_ids
  match_counted i zero j low high s = omega arith
  match_counted i (suc k) j low high s = elim (match_or_not i) [
    | inl t ↦ let e = (is_sender_iff expected _).1 t in ground (arith, e)
    | inr n ↦
        let d = differs i j n s in
        let ih = match_counted (i + 1) k j (omega arith) (omega arith) s in ground (arith, n, ih)
  ]

  two_matches :
      (i k : ℕ)
      → 1 < length (matching_ids registry expected i k)
      → (j l : ℕ) × (j < l) × (l < i + k) × Sends registry expected j × Sends registry expected l
  unfolding matching_ids
  two_matches i zero h = ground (arith, h)
  two_matches i (suc k) h = elim (match_or_not i) [
    | inl s ↦
        let e = (is_sender_iff expected _).1 s in
        let (l, low, high, t) = first_match (i + 1) k (ground (arith, h, e)) in
        (i, l, omega (arith, low), omega (arith, high), s, t)
    | inr n ↦
        let (j, l, order, high, s, t) = two_matches (i + 1) k (ground (arith, h, n)) in
        (j, l, order, omega (arith, high), s, t)
  ]

  matches_counted :
      (i k j l : ℕ)
      → i ≤ j
      → j < l
      → l < i + k
      → Sends registry expected j
      → Sends registry expected l
      → 1 < length (matching_ids registry expected i k)
  unfolding matching_ids
  matches_counted i zero j l low order high s t = omega arith
  matches_counted i (suc k) j l low order high s t = elim (match_or_not i) [
    | inl u ↦
        let e = (is_sender_iff expected _).1 u in
        let ih = match_counted (i + 1) k l (omega arith) (omega arith) t in ground (arith, e, ih)
    | inr n ↦
        let d = differs i j n s in
        let ih = matches_counted (i + 1) k j l (omega arith) order (omega arith) s t in
        ground (arith, n, ih)
  ]

-- Where the next id is below `2 ^ 63`, the loop visits every id below it.
int64_rounds_small : (n : ℕ) → n < 2 ^ 63 → int64_rounds n ≡ n
unfolding int64_rounds
int64_rounds_small n h = ground (arith, h)

-- R7 warns exactly if two different extensions below the next public id have the instruction sender
-- of the file; the next id is below `2 ^ 63`.
pub unique_check-warns :
    (registry : ExtensionManager) (expected : Address) (sender : String) (counter : ℕ)
    → counter < 2 ^ 63
    → ((unique_check sender (matching_ids registry expected 0 (int64_rounds counter))).status
        ≡ warn)
      ↔ ((j l : ℕ) × (j < l)
          × (l < counter)
          × Sends registry expected j
          × Sends registry expected l)
unique_check-warns registry expected sender counter h = rw (int64_rounds_small counter h) (to, from)
  where
    to :
        (unique_check sender (matching_ids registry expected 0 counter)).status ≡ warn
        → (j l : ℕ) × (j < l)
          × (l < counter)
          × Sends registry expected j
          × Sends registry expected l
    to w =
        let (j, l, order, high, s, t) =
          two_matches registry expected 0 counter (ground (arith, w)) in
        (j, l, order, omega (arith, high), s, t)

    from :
        ((j l : ℕ) × (j < l)
          × (l < counter)
          × Sends registry expected j
          × Sends registry expected l)
        → (unique_check sender (matching_ids registry expected 0 counter)).status ≡ warn
    from (j, l, order, high, s, t) =
        let many =
          matches_counted registry expected 0 counter j l (omega arith) order (omega (arith, high))
            s t in
        ground (arith, many)
