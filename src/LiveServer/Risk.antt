-- ===== src/LiveServer/Risk.antt =====
-- `normalizeRisk` and `healthFloor` of extension/tools/cmd/live-server/main.go.
use mindorr.Prelude.{
  ◌≤◌, ◌≢◌, ℕ, Char, String, ◌==◌, ◌||◌, if◌then◌else◌, ◌≡◌, ◌⊎◌, arith, eq_iff, ap, true, ◌∙◌,
  subst, sym, refl, inl, inr,
}
use mindorr.Text.{to_lower}
use mindorr.Text.Trim.{is_space, trim_space, StartsClean}
use mindorr.Text.Clean.{
  KeepsSpace, ends_clean, StartsClean-to_lower, ends_clean-to_lower, trim_space_of_clean,
}

-- The test is made on the trimmed text, and the text that is returned is not trimmed.
unfoldable pub normalize_risk : (Char → Char) → String → String
normalize_risk table r =
    let key = to_lower table (trim_space r) in
    if key == "conservative" || key == "growth" then to_lower table r else "moderate"

unfoldable pub health_floor : String → ℕ
health_floor risk =
    if risk == "conservative" then 15000 else if risk == "growth" then 12000 else 13000

-- The levels that the policy knows.
abbrev pub IsLevel : String → Type 0
IsLevel r = (r ≡ "conservative") ⊎ (r ≡ "moderate") ⊎ (r ≡ "growth")

module _ (table : Char → Char) (r : String) where
  -- A level with no white space around it is normalised to one of the three levels.
  pub normalize_risk-IsLevel : trim_space r ≡ r → IsLevel (normalize_risk table r)
  unfolding normalize_risk
  normalize_risk-IsLevel h = ground (
    arith,
    ap (to_lower table) h,
    eq_iff (to_lower table (trim_space r)) "conservative",
    eq_iff (to_lower table (trim_space r)) "growth",
  )

  -- A text whose lower case has no white space around it has none either.
  trimmed_of_lower :
      {l : String}
      → KeepsSpace table
      → StartsClean l
      → ends_clean l ≡ true
      → to_lower table r ≡ l
      → trim_space r ≡ r
  trimmed_of_lower keeps starts ends e =
      trim_space_of_clean r (StartsClean-to_lower table keeps r (subst StartsClean (sym e) starts))
        (sym (ends_clean-to_lower table keeps r) ∙ ap ends_clean e ∙ ends)

  -- A text with white space around it is not a level, whatever the case of its letters.
  padded-IsLevel : KeepsSpace table → trim_space r ≢ r → ¬ IsLevel (to_lower table r)
  unfolding is_space ends_clean
  padded-IsLevel keeps padded (inl e) = padded (trimmed_of_lower keeps refl refl e)
  padded-IsLevel keeps padded (inr (inl e)) = padded (trimmed_of_lower keeps refl refl e)
  padded-IsLevel keeps padded (inr (inr e)) = padded (trimmed_of_lower keeps refl refl e)

  -- The case table beyond ASCII gives white space just for white space. A text with white space around
  -- it that is a level with a floor of its own without it, up to the case of its letters, is normalised
  -- to a text that is no level, and gets the floor of "moderate".
  pub normalize_risk_padded :
      KeepsSpace table
      → trim_space r ≢ r
      → (to_lower table (trim_space r) ≡ "conservative")
        ⊎ (to_lower table (trim_space r) ≡ "growth")
      → ¬ IsLevel (normalize_risk table r) × (health_floor (normalize_risk table r) ≡ 13000)
  unfolding normalize_risk health_floor
  normalize_risk_padded keeps padded h = ground (
    arith,
    padded-IsLevel keeps padded,
    eq_iff (to_lower table (trim_space r)) "conservative",
    eq_iff (to_lower table (trim_space r)) "growth",
    eq_iff (to_lower table r) "conservative",
    eq_iff (to_lower table r) "growth",
  )

-- The floor of a level falls as the level's risk grows, and no floor lies outside these.
abbrev pub level_rank : String → ℕ
level_rank r = if r == "conservative" then 0 else if r == "growth" then 2 else 1

pub health_floor_mono :
    (r s : String) → level_rank r ≤ level_rank s → health_floor s ≤ health_floor r
unfolding health_floor
health_floor_mono r s h = ground arith
