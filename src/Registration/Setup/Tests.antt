-- ===== src/Registration/Setup/Tests.antt =====
-- A set-up on contracts that remember what was granted.
use mindorr.Prelude.{◌≡◌, refl, ok}
use mindorr.Registration.Setup.{setup_extension}
use mindorr.Registration.Setup.Granted.{setup_extension-granted, Supports, OwnsProjects, Owns}
use mindorr.Registration.Sample.{tee}
use mindorr.Registration.Revert.{check_tx}
use mindorr.Registration.Setup.Sample.{chain, contracts, keep_promises, nothing, everything}

set_up_run : setup_extension chain contracts tee tee nothing ≡ (ok 4, everything)
unfolding setup_extension check_tx
set_up_run = refl

setup_extension-granted_example :
    Owns chain contracts 4 everything
    × OwnsProjects chain contracts 4 everything
    × Supports chain contracts 4 everything
setup_extension-granted_example =
    setup_extension-granted chain contracts keep_promises tee tee nothing everything 4 set_up_run
