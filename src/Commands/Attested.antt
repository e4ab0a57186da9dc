-- ===== src/Commands/Attested.antt =====
-- What was checked of a machine before it is registered.
use mindorr.Prelude.{◌≡◌, String, Result, ok}
use mindorr.Wire.{Hash}
use mindorr.Checks.Deploy.{Address}
use mindorr.Registration.{done, Node}
use mindorr.Registration.Ensures.{Ensures}
use mindorr.Registration.RegisterNode.{register_node}
use mindorr.Registration.Produced.{IsProduced}
use mindorr.Registration.Machine.{TeeInfoResponse, Machines, tee_info, get_tee_proxy_id, expected}
use mindorr.Commands.{Started, RegisterFlags, started_with, host_of}

module _ {W Log : Type 0} (n : Node W Log) (support : Result Started) (m : Machines W)
    (hex_to_hash : String → Hash) where
  -- The machine that is in production: the proxy gave its info; the code hash and the platform that it
  -- reports are the expected ones, those of the attestation or the constants of a simulation; and the
  -- registration of it got through the steps of the command, fetched the proof of the availability
  -- check, and had the transaction with that proof mined.
  pub record IsRegistered (flags : RegisterFlags) (w w' : W) : Type 0 where
    pub info : TeeInfoResponse
    pub told : W
    pub tells : tee_info m flags.proxy_url (started_with n flags w) ≡ (ok info, told)
    pub attested : expected m hex_to_hash info ≡ ok (info.code_hash, info.platform)
    pub ftdc : Address × Address
    pub before : W
    pub found : get_tee_proxy_id m flags.ftdc_url told ≡ (ok ftdc, before)
    pub registers :
        register_node n flags.state_file info.signed
          (host_of flags)
          flags.ftdc_url
          ftdc.0
          flags.command
          flags.instruction_id
          m.keys
          before
        ≡ (ok done, w')
    pub produces :
        IsProduced n flags.state_file info.signed
          (host_of flags)
          flags.ftdc_url
          ftdc.0
          flags.command
          flags.instruction_id
          m.keys
          before
          w'
