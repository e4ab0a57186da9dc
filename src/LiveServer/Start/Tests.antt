-- ===== src/LiveServer/Start/Tests.antt =====
-- A start over a world that records the instructions sent, and one request.
use mathlib.Core.List.{Memᴰ}
use mindorr.LiveServer.Threads.{respond}
use mindorr.LiveServer.Threads.Turns.{Pool}
use mindorr.LiveServer.Threads.Moving.{is_done}
use mindorr.LiveServer.Threads.Interleaved.{Answered}
use mindorr.LiveServer.Threads.Finishing.{IsFair, in_turn}
use mindorr.LiveServer.Start.Concurrent.{main_threads, main_threads-answers}
use mindorr.LiveServer.Start.Serving.{Delivers, main-serves}
use mindorr.Prelude.{
  zero, suc, true, false, all, All, replicate, ℕ, ◌≡◌, refl, List, [], ◌∷◌, ◌++◌, ok, none,
}
use mindorr.LiveServer.Proxy.{
  fetched, fetch_submit_result, poll_from, sent_id, bytes, instruction, Proxy, Instruction,
  send_direct, poll,
}
use mindorr.LiveServer.Handlers.{handle_health}
use mindorr.LiveServer.Requests.{Config, Request, Writer, Service}
use mindorr.LiveServer.Server.{with_cors, serve}
use mindorr.LiveServer.Start.{
  arith, seed, deliver_seed, Result, err, Sealing, main, serve_all, IsSeeded, main-IsSeeded,
}
use mindorr.LiveServer.Proxy.Polling.{after, answer}

abbrev proxy : Proxy
proxy = record {
  World = List Instruction;
  post = λ url i w. (ok (record { status = 200; body = []; broken = none }), w ++ (i ∷ []));
  get = λ url w. (ok (record { status = 200; body = []; broken = none }), w);
  hangs = λ url i w. false;
  sleep = λ w. w;
  decode_action = λ b. ok (1 ∷ []);
  decode_result = λ b. ok (record { status = 1; result_data = []; log = "ok" });
  hex = λ h. "0x01";
  text = λ b. "";
}

abbrev service : Service
service = record {
  proxy = proxy;
  decode_onboard = λ b. err "EOF";
  decode_action_req = λ b. err "EOF";
  decode_signed = λ b. record {
    signer = "";
    kind = "";
    amount = "";
    destination = "";
    digest = "";
    signature = "";
  };
  table = λ c. c;
  unrouted = λ r. record { headers = []; code = 404; body = none };
  address_bytes = λ s. [];
  key_address = λ b. err "no key";
}

abbrev config : Config
config = record { proxy_url = "u"; auth_token = "secret" }

abbrev sealing : Sealing (List Instruction)
sealing = record {
  PublicKey = List ℕ;
  tee_info = λ u w. (ok [], w);
  parse_pub_key = λ b. ok b;
  encrypt = λ k b w. (ok (7 ∷ []), w);
}

abbrev health : Request
health = record { path = "/health"; method = "GET"; token = ""; body = "" }

abbrev ran : Result (List Writer) × List Instruction
ran = main config service sealing (health ∷ []) []

abbrev seeded : List Instruction
seeded = instruction "WALLET" "UPDATE_KEY" (bytes (7 ∷ [])) ∷ []

abbrev replies : List Writer
replies = (serve_all config service sealing (health ∷ []) seeded).0

ends : ran ≡ (ok replies, seeded)
unfolding main deliver_seed seed serve_all serve send_direct sent_id poll poll_from
    fetch_submit_result fetched with_cors handle_health
ends = refl

main-IsSeeded_example :
    (w1 : List Instruction) × IsSeeded config service sealing [] w1
    × (serve_all config service sealing (health ∷ []) w1 ≡ (replies, seeded))
main-IsSeeded_example = main-IsSeeded config service sealing (health ∷ []) [] seeded replies ends

abbrev plain_seed : List ℕ
plain_seed =
    183 ∷ 28 ∷ 113 ∷ 166 ∷ 126 ∷ 17 ∷ 119 ∷ 173 ∷ 78 ∷ 144 ∷ 22 ∷ 149 ∷ 225 ∷ 180 ∷ 185 ∷ 238 ∷ 23
    ∷ 174 ∷ 22 ∷ 198 ∷ 102 ∷ 141 ∷ 49 ∷ 62 ∷ 172 ∷ 47 ∷ 150 ∷ 219 ∷ 205 ∷ 163 ∷ 242 ∷ 145 ∷ []

delivered : Delivers config service sealing [] seeded
unfolding seed send_direct sent_id answer after fetch_submit_result fetched
delivered = record {
  info = [];
  told = [];
  tells = refl;
  key = [];
  parses = refl;
  plain = plain_seed;
  seeds = refl;
  sealed = 7 ∷ [];
  sealing = [];
  seals = refl;
  id = 1 ∷ [];
  sent = seeded;
  sends = refl;
  round = 0;
  in_time = omega arith;
  waits = λ j h. elim h [ ];
  result = record { status = 1; result_data = []; log = "ok" };
  settles = refl;
  takes = refl;
  reaches = refl;
}

serves_health : main config service sealing (health ∷ []) [] ≡ (
  ok (serve_all config service sealing (health ∷ []) seeded).0,
  (serve_all config service sealing (health ∷ []) seeded).1,
)
serves_health = main-serves config service sealing (health ∷ []) [] seeded delivered

only-IsFair : IsFair 1 (0 ∷ [])
only-IsFair zero lt = Memᴰ.head refl
only-IsFair (suc i) lt = absurd (omega (arith, lt))

rounds-IsFair : (n : ℕ) → All (IsFair 1) (replicate n (0 ∷ []))
rounds-IsFair zero = tt
rounds-IsFair (suc n) = (only-IsFair, rounds-IsFair n)

main_threads-answers_example :
    (pool : Pool proxy) × (main_threads config service sealing
        (health ∷ [])
        (in_turn (replicate 122 (0 ∷ [])))
        []
      ≡ (ok pool, pool.world))
    × (all is_done pool.threads ≡ true)
    × ((v : Writer) → Memᴰ (respond v) pool.threads → Answered config service (health ∷ []) v)
main_threads-answers_example =
    main_threads-answers config service sealing (λ url i w. refl) (health ∷ [])
      (replicate 122 (0 ∷ [])) [] seeded delivered (omega arith) (rounds-IsFair 122)
