-- ===== src/Commands/Allowed.antt =====
-- What the command allow-tee-version leaves behind.
use mindorr.Prelude.{
  ℕ, true, false, Bool, List, [], ◌∷◌, ◌≡◌, refl, String, Result, ok, err, inl, inr, Bool-cases,
}
use mindorr.Text.Search.{contains_text}
use mindorr.Wire.{Hash, string_to_bytes32}
use mindorr.Registration.{Done, done, Node}
use mindorr.Registration.Ensures.{
  Ensures, Mined, map-Ensures, Gives, Gives-Ensures, lift-Ensures, next-Ensures, of_Ensures,
}
use mindorr.Registration.RegisterNode.{tee_proxy_id}
use mindorr.Registration.Setup.{Registrar, add_tee_version, transact}
use mindorr.Registration.Setup.Granted.{Post, transact-Post}
use mindorr.Registration.Machine.{TeeInfoResponse, Machines, tee_info}
use mindorr.Commands.{allow_tee_version, allowed_unless, owner_key, tolerated}

Post-Ensures :
    {W A : Type 0} (P : W → Type 0) (r : Result A × W) → Post P r → Ensures (λ a w. P w) r
Post-Ensures P (err e, w) h = tt
Post-Ensures P (ok a, w) h = h

module _ {W Log : Type 0} (n : Node W Log) (c : Registrar W Log) where
  -- The version's 32 bytes are added for the code hash and the platform of the machine, in a transaction
  -- that is mined without a failure.
  pub record IsAdded (info : TeeInfoResponse) (version : String) (w w' : W) : Type 0 where
    pub bytes : Hash
    pub fits : string_to_bytes32 version ≡ ok bytes
    pub mined :
        Mined n (c.add_tee_version info.extension_id bytes info.code_hash (info.platform ∷ [])) w w'

  add_tee_version-IsAdded :
      (info : TeeInfoResponse) (version : String) (w : W)
      → Ensures
          (λ d w'. IsAdded info version w w')
          (add_tee_version n c info.extension_id info.code_hash info.platform version w)
  unfolding add_tee_version
  add_tee_version-IsAdded info version w =
      let Q = λ (d : Done) (v : W). IsAdded info version w v in
      let call = λ (bytes : Hash).
        c.add_tee_version info.extension_id bytes info.code_hash (info.platform ∷ []) in
      let failed : String = "TeeExtensionRegistry.AddTeeVersion failed: " in
      let read : List Log → Result Done = λ logs. ok done in
      lift-Ensures Q _ n.transactor w λ _ _.
        lift-Ensures Q (λ bytes. transact n c failed "" (call bytes) read)
          (string_to_bytes32 version) w
          λ bytes fits.
            Post-Ensures (IsAdded info version w) (transact n c failed "" (call bytes) read w) (
              transact-Post n c (IsAdded info version w) failed "" (call bytes) read w
                λ w2 mined. record { bytes = bytes; fits = fits; mined = mined })

module _ {W Log PrivateKey : Type 0} (n : PrivateKey → Node W Log)
    (c : PrivateKey → Registrar W Log) (support : Result PrivateKey) (m : Machines W)
    (hex_to_ecdsa : String → Result PrivateKey)
    (is_supported : ℕ → Hash → Hash → W → Result Bool) where
  -- How the version of a machine can have come to be allowed, from the world `w` to `w'`: the chain
  -- says that it is supported; or it is added with the key; or AddTeeVersion with the key has ended
  -- with the error that it exists.
  pub data IsAllowed (key : PrivateKey) (info : TeeInfoResponse) (version : String) (w w' : W)
      : Type 0 where
    supported :
        is_supported info.extension_id info.code_hash info.platform w ≡ ok true
        → w' ≡ w
        → IsAllowed key info version w w'
    added :
        is_supported info.extension_id info.code_hash info.platform w ≡ ok false
        → IsAdded (n key) (c key) info version w w'
        → IsAllowed key info version w w'
    exists :
        (e : String)
        → is_supported info.extension_id info.code_hash info.platform w ≡ ok false
        → add_tee_version (n key) (c key) info.extension_id info.code_hash info.platform version w
          ≡ (err e, w')
        → contains_text e "VersionAlreadyExists" ≡ true
        → IsAllowed key info version w w'

  tolerated-IsAllowed :
      (key : PrivateKey) (info : TeeInfoResponse) (version : String) (w : W) (r : Result Done × W)
      → is_supported info.extension_id info.code_hash info.platform w ≡ ok false
      → add_tee_version (n key) (c key) info.extension_id info.code_hash info.platform version w ≡ r
      → Ensures (λ d w'. IsAllowed key info version w w') (tolerated r.0, r.1)
  tolerated-IsAllowed key info version w (ok d, w') h e = added h (
      of_Ensures (λ d v. IsAdded (n key) (c key) info version w v)
        (add_tee_version-IsAdded (n key) (c key) info version w) e)
  tolerated-IsAllowed key info version w (err text, w') h e =
      elim (Bool-cases (contains_text text "VersionAlreadyExists")) [
        | inl has ↦ rw has (exists text h e has)
        | inr lacks ↦ rw lacks tt
      ]

  allowed_unless-IsAllowed :
      (key : PrivateKey) (info : TeeInfoResponse) (version : String) (w : W) (there : Bool)
      → is_supported info.extension_id info.code_hash info.platform w ≡ ok there
      → Ensures
          (λ d w'. IsAllowed key info version w w')
          (allowed_unless n c support m hex_to_ecdsa is_supported there key info version w)
  allowed_unless-IsAllowed key info version w true h = supported h refl
  allowed_unless-IsAllowed key info version w false h =
      tolerated-IsAllowed key info version w _ h refl

  -- A run of the command that succeeds has got the info of a machine from the proxy, and for its
  -- extension, code hash and platform one of three things holds: the chain has said that they are
  -- supported, and nothing is sent; or the chain has not, and the 32 bytes of the version are added for
  -- them in a transaction that is mined without a failure; or AddTeeVersion has ended with an error
  -- that contains VersionAlreadyExists. AddTeeVersion is called with the key of EXTENSION_OWNER_KEY,
  -- or with the deployer's where none is set.
  pub allow_tee_version-IsAllowed :
      (proxy_url version : String) (w w' : W)
      → allow_tee_version n c support m hex_to_ecdsa is_supported proxy_url version w
        ≡ (ok done, w')
      → (info : TeeInfoResponse) × (told : W) × (tee_info m proxy_url w ≡ (ok info, told))
        × ((prv key : PrivateKey) × (support ≡ ok prv)
            × (owner_key n c support m hex_to_ecdsa is_supported prv ≡ ok key)
            × IsAllowed key info version told w')
  unfolding allow_tee_version
  allow_tee_version-IsAllowed proxy_url version w w' h =
      let Q = λ (d : Done) (v : W).
        (info : TeeInfoResponse) × (told : W) × (tee_info m proxy_url w ≡ (ok info, told))
        × ((prv key : PrivateKey) × (support ≡ ok prv)
            × (owner_key n c support m hex_to_ecdsa is_supported prv ≡ ok key)
            × IsAllowed key info version told v) in
      of_Ensures Q
        (lift-Ensures Q _ support w λ prv given.
          next-Ensures (Gives (tee_info m proxy_url w)) Q _ _
            (Gives-Ensures (tee_info m proxy_url w))
            λ info told tells.
              lift-Ensures Q _ (owner_key n c support m hex_to_ecdsa is_supported prv) told
                λ key chosen. lift-Ensures Q _ (tee_proxy_id m.keys info.signed) told λ ids _.
                  lift-Ensures Q
                    (λ there.
                      allowed_unless n c support m hex_to_ecdsa is_supported there key info version)
                    (is_supported info.extension_id info.code_hash info.platform told) told
                    λ there h1.
                      map-Ensures Q _ (allowed_unless-IsAllowed key info version told there h1)
                        λ d v allowed. (info, told, tells, (prv, key, given, chosen, allowed)))
        h
