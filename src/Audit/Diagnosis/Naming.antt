-- ===== src/Audit/Diagnosis/Naming.antt =====
-- Which error the diagnosis of a reverted availability check names.
use mindorr.Prelude.{
  ◌≡◌, refl, ◌∙◌, ap, Bool, true, false, String, Result, ok, err, ℕ, List, [], ◌∷◌, ◌++◌, take,
  if◌then◌else◌,
}
use mindorr.Wire.{same_hash}
use mindorr.Audit.Replay.{ErrorDef}
use mindorr.Audit.Diagnosis.{Diagnoser, custom_error, error_among, error_named}

-- The errors of one ABI with its name, and before the errors of others.
abbrev pub labelled : String → List ErrorDef → List (String × ErrorDef) → List (String × ErrorDef)
labelled source [] later = later
labelled source (def ∷ defs) later = (source, def) ∷ labelled source defs later

-- All the errors of the ABIs that are loaded, in order.
abbrev pub all_errors : List (String × Result (List ErrorDef)) → List (String × ErrorDef)
all_errors [] = []
all_errors ((source, err e) ∷ sources) = all_errors sources
all_errors ((source, ok defs) ∷ sources) = labelled source defs (all_errors sources)

abbrev pub has_selector : ErrorDef → List ℕ → Bool
has_selector def revert_data = same_hash (take 4 def.id) (take 4 revert_data)

-- No error of the list has the selector.
abbrev pub NoneFits : List (String × ErrorDef) → List ℕ → Type 0
NoneFits [] revert_data = Unit
NoneFits ((source, def) ∷ errors) revert_data =
    (has_selector def revert_data ≡ false) × NoneFits errors revert_data

module _ (r : Diagnoser) where
  -- The text for the first error of a list that has the selector.
  unfoldable first_fitting : List (String × ErrorDef) → List ℕ → String
  first_fitting [] revert_data = error_named r [] revert_data
  first_fitting ((source, def) ∷ errors) revert_data =
      let rest = first_fitting errors revert_data in
      if has_selector def revert_data then custom_error r source def revert_data else rest

  error_among-first_fitting :
      (source : String) (defs : List ErrorDef) (later : List (String × ErrorDef))
      (revert_data : List ℕ)
      → error_among r source defs revert_data (first_fitting later revert_data)
        ≡ first_fitting (labelled source defs later) revert_data
  unfolding error_among first_fitting
  error_among-first_fitting source [] later revert_data = refl
  error_among-first_fitting source (def ∷ defs) later revert_data =
      ap
        (λ rest.
          if has_selector def revert_data then custom_error r source def revert_data else rest)
        (error_among-first_fitting source defs later revert_data)

  error_named-first_fitting :
      (sources : List (String × Result (List ErrorDef))) (revert_data : List ℕ)
      → error_named r sources revert_data ≡ first_fitting (all_errors sources) revert_data
  unfolding error_named first_fitting
  error_named-first_fitting [] revert_data = refl
  error_named-first_fitting ((source, err e) ∷ sources) revert_data =
      error_named-first_fitting sources revert_data
  error_named-first_fitting ((source, ok defs) ∷ sources) revert_data =
      ap (error_among r source defs revert_data) (error_named-first_fitting sources revert_data)
      ∙ error_among-first_fitting source defs (all_errors sources) revert_data

  first_fitting-after :
      (before after : List (String × ErrorDef)) (source : String) (def : ErrorDef)
      (revert_data : List ℕ)
      → NoneFits before revert_data
      → has_selector def revert_data ≡ true
      → first_fitting (before ++ (source, def) ∷ after) revert_data
        ≡ custom_error r source def revert_data
  unfolding first_fitting
  first_fitting-after [] after source def revert_data none_fits fits = rw fits refl
  first_fitting-after ((s, d) ∷ before) after source def revert_data (differs, none_fit) fits =
      rw differs (first_fitting-after before after source def revert_data none_fit fits)

  -- Where an error of an ABI that is loaded has the selector of the revert's data, and no error before
  -- it has, the diagnosis names that error, with its ABI and its arguments.
  pub error_named-first :
      (sources : List (String × Result (List ErrorDef))) (revert_data : List ℕ)
      (before after : List (String × ErrorDef)) (source : String) (def : ErrorDef)
      → all_errors sources ≡ before ++ (source, def) ∷ after
      → NoneFits before revert_data
      → has_selector def revert_data ≡ true
      → error_named r sources revert_data ≡ custom_error r source def revert_data
  error_named-first sources revert_data before after source def split none_fits fits =
      error_named-first_fitting sources revert_data
      ∙ ap (λ errors. first_fitting errors revert_data) split
      ∙ first_fitting-after before after source def revert_data none_fits fits
