-- ===== src/LiveServer/Start.antt =====
-- The start of the live server: `deliverSeed` and `main` of extension/tools/cmd/live-server/main.go.
pub mod Serving
pub mod Concurrent
mod Tests
use mindorr.Prelude.{
  ℕ, ◌≡◌, refl, eqb, not, concat, if◌then◌else◌, none, some, String, Result, ok, err, List, [], ◌∷◌,
  arith,
}
use mindorr.Text.Hex.{decode_hex}
use mindorr.Wire.{Hash}
use mindorr.LiveServer.Proxy.{ActionResult, bytes, send_direct, poll}
use mindorr.LiveServer.Requests.{Config, Request, Writer, Service, master_seed_hex}
use mindorr.LiveServer.Server.{serve}
use mindorr.Registration.{Io, ◌>>=◌, ◌>>◌, lift, Done, done}
use mindorr.Registration.Setup.{worded, worded_io}
use mindorr.Registration.Ensures.{
  worded_io-Ensures, Ensures, next-Ensures, lift-Ensures, result-Ensures, Gives, Gives-Ensures,
  of_Ensures, worded-eq-ok,
}

-- `fccutils.TeeInfo`, of which the public key is read, `types.ParsePubKey`, and `ecies.Encrypt`,
-- which draws from the random source.
pub record Sealing (W : Type 0) : Type 1 where
  pub PublicKey : Type 0
  pub tee_info : String → W → Result (List ℕ) × W
  pub parse_pub_key : List ℕ → Result PublicKey
  pub encrypt : PublicKey → List ℕ → W → Result (List ℕ) × W

unfoldable pub seed : Result (List ℕ)
unfolding decode_hex
seed = elim (decode_hex master_seed_hex) [ none ↦ err "bad seed hex" | some plain ↦ ok plain ]

module _ (cfg : Config) (s : Service) (k : Sealing s.proxy.World) where
  open s use {proxy}
  open proxy use {World}

  abbrev pub taken : ActionResult → Result Done
  taken result =
      if not (eqb result.status 1)
      then err (concat ("seed delivery refused: " ∷ result.log ∷ []))
      else ok done

  -- `deliverSeed`.
  unfoldable pub deliver_seed : Io World Done
  unfolding send_direct poll
  deliver_seed = do
    plain ← lift seed
    info ← (λ w. worded_io "fetch TEE info: " (k.tee_info cfg.proxy_url w))
    tee_key ← lift (worded "parse TEE pubkey: " (k.parse_pub_key info))
    ciphertext ← (λ w. worded_io "ECIES encrypt: " (k.encrypt tee_key plain w))
    id ← send_direct proxy cfg.proxy_url "WALLET" "UPDATE_KEY" (bytes ciphertext)
    result ← poll proxy cfg.proxy_url id
    lift (taken result)

  -- The requests that are served, one after the other, with their responses.
  unfoldable pub serve_all : List Request → World → List Writer × World
  unfolding serve
  serve_all [] w = ([], w)
  serve_all (r ∷ requests) w =
      let (reply, w1) = serve cfg s r w in
      let (replies, w2) = serve_all requests w1 in (reply ∷ replies, w2)

  abbrev pub serving : List Request → Io World (List Writer)
  serving requests w = let (replies, w') = serve_all requests w in (ok replies, w')

  -- `main`, on the requests that come in.
  unfoldable pub main : List Request → Io World (List Writer)
  unfolding deliver_seed serve_all
  main requests = do (λ w. worded_io "deliver master seed: " (deliver_seed w)); serving requests

  -- The enclave took the seed: the seed, encrypted for the key of the machine's info, was sent, each
  -- step from where the one before it ended, and its result, there in `w1`, has status 1.
  pub record IsSeeded (w w1 : World) : Type 0 where
    pub plain : List ℕ
    pub seeds : seed ≡ ok plain
    pub info : List ℕ
    pub told : World
    pub tells : k.tee_info cfg.proxy_url w ≡ (ok info, told)
    pub key : k.PublicKey
    pub parses : k.parse_pub_key info ≡ ok key
    pub ciphertext : List ℕ
    pub before : World
    pub seals : k.encrypt key plain told ≡ (ok ciphertext, before)
    pub id : Hash
    pub sent : World
    pub sends :
        send_direct proxy cfg.proxy_url "WALLET" "UPDATE_KEY" (bytes ciphertext) before
        ≡ (ok id, sent)
    pub result : ActionResult
    pub answers : poll proxy cfg.proxy_url id sent ≡ (ok result, w1)
    pub takes : result.status ≡ 1

  taken-eq-ok : (result : ActionResult) {d : Done} → taken result ≡ ok d → result.status ≡ 1
  taken-eq-ok result h = ground (arith, h)

  deliver_seed-IsSeeded : (w : World) → Ensures (λ d w'. IsSeeded w w') (deliver_seed w)
  unfolding deliver_seed
  deliver_seed-IsSeeded w =
      let Q = λ (d : Done) (w' : World). IsSeeded w w' in
      let asked = k.tee_info cfg.proxy_url w in
      lift-Ensures Q _ seed w λ plain seeds.
        next-Ensures (Gives asked) Q _ _
          (worded_io-Ensures (Gives asked) "fetch TEE info: " asked (Gives-Ensures asked))
          λ info w1 tells.
            lift-Ensures Q _ (worded "parse TEE pubkey: " (k.parse_pub_key info)) w1
              λ tee_key parses.
                let sealing = k.encrypt tee_key plain w1 in
                next-Ensures (Gives sealing) Q _ _
                  (worded_io-Ensures (Gives sealing) "ECIES encrypt: " sealing
                    (Gives-Ensures sealing))
                  λ sealed w2 seals.
                    let sends =
                      send_direct proxy cfg.proxy_url "WALLET" "UPDATE_KEY" (bytes sealed) w2 in
                    next-Ensures (Gives sends) Q _ sends (Gives-Ensures sends) λ id w3 sent.
                      let asks = poll proxy cfg.proxy_url id w3 in
                      next-Ensures (Gives asks) Q _ asks (Gives-Ensures asks) λ result w4 answered.
                        result-Ensures Q (taken result) w4 (λ d h. record {
                          plain = plain;
                          seeds = seeds;
                          info = info;
                          told = w1;
                          tells = tells;
                          key = tee_key;
                          parses = worded-eq-ok "parse TEE pubkey: " (k.parse_pub_key info) parses;
                          ciphertext = sealed;
                          before = w2;
                          seals = seals;
                          id = id;
                          sent = w3;
                          sends = sent;
                          result = result;
                          answers = answered;
                          takes = taken-eq-ok result h;
                        })

  -- The server answers requests only behind a delivery of the seed that the enclave took: the master
  -- seed, encrypted for the key in the info that the machine gave at the start, was sent as
  -- UPDATE_KEY and answered with status 1. The responses and the world are then those of serving the
  -- requests in turn from there.
  pub main-IsSeeded :
      (requests : List Request) (w w' : World) (replies : List Writer)
      → main requests w ≡ (ok replies, w')
      → (w1 : World) × IsSeeded w w1 × (serve_all requests w1 ≡ (replies, w'))
  unfolding main
  main-IsSeeded requests w w' replies h =
      let Q = λ (l : List Writer) (v : World).
        (w1 : World) × IsSeeded w w1 × (serve_all requests w1 ≡ (l, v)) in
      of_Ensures Q
        (next-Ensures (λ d w1. IsSeeded w w1) Q _ _
          (worded_io-Ensures (λ d w1. IsSeeded w w1) _ (deliver_seed w) (deliver_seed-IsSeeded w))
          λ d w1 seeded. (w1, seeded, refl))
        h
