-- ===== src/Wire/Tests.antt =====
-- Concrete names and versions.
use mindorr.Prelude.{refl, arith, String, ◌≡◌}
use mindorr.Wire.{utf8}
use mindorr.Wire.Packing.{to_hash_inj, HasNoNul}

abbrev padded : String
padded = "SET_POLICY"

no_nul : HasNoNul (utf8 padded)
unfolding utf8
no_nul = ground arith

same_hashes : utf8 padded ≡ utf8 "SET_POLICY"
unfolding utf8
same_hashes = to_hash_inj padded "SET_POLICY" (omega arith) (omega arith) no_nul no_nul refl
