-- ===== src/Lib.antt =====
-- Verification of the Go code of this repository: the server that stands between the app and the
-- enclave, the extension that runs in the enclave, and the tools that deploy, register and check the
-- extension.
--
-- The parts and how they interact. The app sends onboarding, allocations and withdrawals to the live
-- server (extension/tools/cmd/live-server/main.go), which sends each as an instruction to the
-- enclave's proxy and polls for the result. The extension (extension/go) answers the actions that the
-- node passes on to it. Before that, the tools register the machine (extension/tools/pkg/fccutils),
-- and verify-deploy (extension/tools/cmd/verify-deploy/main.go) runs the checks of
-- extension/tools/pkg/validate on the deployment and prints a report of their results.
--
-- The files.
-- Prelude: the names that all modules share, Boolean tests on numbers, lists, results.
-- Text: the parts of strings, bufio, encoding/hex and strconv that the code uses.
-- Wire: 32-byte names: toHash of the live server, StringToBytes32 of the registration.
-- LiveServer: extension/tools/cmd/live-server/main.go. Address is validAddr, Risk is normalizeRisk
--   and healthFloor, Proxy is sendDirect, fetchSubmitResult and poll, Requests the requests,
--   responses and messages, Handlers the handlers, Server the wrappers and the routes. A handler
--   takes the writer, the request and a world, and gives the writer and the world behind it; the
--   world is abstract, and the proxy's answers are parameters. Allowed, Effects and Replies say what
--   a request may do and what its answers mean. Start is deliverSeed and main, on the requests that
--   come in one after the other, Serving when it serves, and Concurrent is main on requests that are
--   served at the same time. Threads has the handlers as programs with the mutex sendMu, for
--   requests that are served at the same time: Turns runs several by a schedule, one call of a
--   thread at a turn; Fitting, Sending, Serving, Pools and Moving carry what every schedule keeps, Replying
--   and Responses the form of the responses, and Alone runs one program by itself.
-- Registration: RegisterNode with its state file (RegisterNode, Resume), the transactions that it
--   sends (Requests, Outcomes), its last step (Produced), the wait for a result (Waiting), the reasons of failed transactions
--   (Revert), the signing policy of the proxy (Policy), and SetupExtension with AddTeeVersion (Setup),
--   of extension/tools/pkg/fccutils/registration.go, tee_calls.go, revert.go, policy_consistency.go,
--   extension.go and extension/tools/pkg/support/support.go. The calls of the chain, the proxy and the
--   disk are the fields of the records Node and Registrar, on an abstract world. Machine is what a
--   machine says of itself: tee_calls.go, common.go and the constants of encoding.go. Ensures has the
--   rules by which a run of several steps is taken apart, and Sample a chain for the tests.
-- Instructions: extension/tools/pkg/utils/instructions.go, with the sender contract as the record
--   SenderContract.
-- RunTest: extension/tools/cmd/run-test/main.go. Types and Expected have what is sent and expected,
--   Digest the digest of an allocation, and Delivered, Signed and Verified what a run shows.
-- Support: DefaultSupport, its key and its addresses, of extension/tools/pkg/support/support.go and
--   extension/tools/pkg/configs/configs.go.
-- Governance: extension/tools/pkg/fccutils/governance.go and extension/tools/cmd/set-governance/main.go.
--   Governed is about the two transactions, Setting about a whole run, Bounds about the threshold.
-- Audit: extension/tools/cmd/audit-deploy/main.go, and in Diagnosis the diagnosis of a reverted
--   availability check, of extension/tools/pkg/fccutils/diag.go. Query is
--   extension/tools/cmd/query-tee/main.go.
-- Commands: the commands deploy-contract, register-extension, allow-tee-version and register-tee of
--   extension/tools/cmd. Allowed is about allow-tee-version, Attested about register-tee and Preflight
--   about deploy-contract. Start has the processes that host the node, the extension and the proxy:
--   extension/go/cmd/start-tee, extension/go/cmd/docker, extension/go/pkg/server (Hosts, Running) and
--   extension/tools/cmd/start-proxy (Proxy).
--   Printed is the id that register-extension prints, Registered what the chain holds of it, and its
--   child Checked leads from there to the registration checks; the file between them is written by
--   extension/scripts/pre-build.sh, and is an assumption.
-- Report: extension/tools/pkg/validate/report.go.
-- Checks: extension/tools/pkg/validate/checks.go and validate.go. EnvFile reads extension.env; Deploy
--   and Registration ask the chain; Environment and Readiness ask the machine alone; Probe has what
--   they share. A check is a function from the answers to the results that it adds.
-- VerifyDeploy: extension/tools/cmd/verify-deploy/main.go.
-- Extension: extension/go/internal/extension, extension/go/pkg/types and the constants of
--   extension/go/internal/config. Types has the data; the state is a record; a handler gives the
--   state behind it. Threads has the same handlers as goroutines, for requests that are answered at
--   the same time: every read and every write of a field is a turn of its own, and so are Lock, Unlock,
--   RLock and RUnlock of the mutex. Its child Locking has turns and schedules, Serial what holds of
--   goroutines with one critical section each, Concurrent and Numbers the server. Shutdown is
--   the process of extension/go/cmd/main.go as a step relation, with the goroutine that waits for a
--   signal; Ending counts the steps behind it.
--
-- Numbers, bounds and fuel. Numbers are natural; a count of the extension and an epoch of the policy
-- check are taken modulo 2 ^ 64, and the bound of the loop over the extension ids is what int64 makes
-- of the counter. The code's own bounds are kept: 60 rounds of polling in the live server, 15 in the
-- tools, 65536 bytes of a scanned line, 64 bits of a threshold. Only the decimal printing of a number
-- and its bytes run on fuel, one more than the number and the number itself, which has no more digits
-- and no more bytes than that.
--
-- What is a parameter. The chain, the contracts, the enclave's proxy, the disk, the clock, JSON and
-- ABI encoding, hashing and keys are the fields of records: Proxy and Service of LiveServer,
-- Machine, Client, ExtensionManager, OwnerAllowlist and Library of Checks, Node, Keys, Machines and
-- Registrar of Registration, Host, ProxyHost and OwnerKeys of Commands, SenderContract, Tools,
-- Padding, Setting, GovernanceContract, AuditCalls, Replayer, Diagnoser and Registry of the modules
-- that use them, Codec of Extension. In the checks, the audit and before a deployment every question
-- has one answer during a run. http.Post
-- of the live server has no timeout and runs while sendMu is held: the field hangs of Proxy says where
-- it goes on waiting, a thread that waits so keeps its turn and the mutex, and what is said of answers
-- and of ends has as a hypothesis that the proxy answers every instruction. The answers of
-- http.ServeMux to other paths than the four are the field unrouted of Service. The handlers as
-- functions, LiveServer/Handlers, and the other commands are about runs whose calls return. A Go map
-- that is marshalled is a list with its keys in the order in which json.Marshal writes them.
--
-- What is not modelled: the parsing of flags; the listening sockets, of which Shutdown has what the
-- documentation of net/http says of them; log lines, except those of the diagnosis and where a text is
-- also an answer; the ABI encoding of encoding.go, which a library does; the timeout of client.Get in
-- the live server, which shows as its error; ports that are negative; the generated binding of the sender contract; the
-- contracts and the code in other languages.
pub mod Prelude
pub mod Text
pub mod Wire
pub mod LiveServer
pub mod Registration
pub mod Report
pub mod Commands
pub mod Support
pub mod Governance
pub mod Audit
pub mod Instructions
pub mod RunTest
pub mod Checks
pub mod VerifyDeploy
pub mod Extension
