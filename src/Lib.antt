-- ===== src/Lib.antt =====
-- netflix-pbrd routes the traffic of Netflix by policy: a DNS proxy learns the addresses of Netflix
-- names, a daemon merges them with the networks of its controller and its agents, persists them, and
-- has drivers apply them to the machine. No DNS answer is to be handed out before its addresses are
-- in force.
--
-- The model is a shallow embedding of the Go code:
-- - Text.antt and Net.antt: what the code uses of `strings` and `net` (Go 1.22), on texts as lists of
--   bytes; Text/ and Net/ hold the lemmas.
-- - Networks.antt: internal/pbr/networks.go. `canonical_network` is CanonicalNetwork, `merge` Merge,
--   `validate_networks` ValidateNetworks, `state_content` and `scan_lines` what SaveState and LoadState
--   do between a set and a file. Networks/ holds one file per subject of the theorems.
-- - Config.antt: the structs of internal/pbr/config.go and the intervals; Config/Load.antt: LoadConfig
--   behind the JSON decoder, one check after another.
-- - System.antt: files, the clock and HTTP as an interface over a world; Status.antt:
--   internal/pbr/status.go; Runner.antt: internal/pbr/runner.go, the interface and ExecRunner over
--   processes.
-- - Runtime/Daemon.antt: internal/pbr/runtime.go, the record Runtime and its operations `learn`, `sync`,
--   `reconcile`, `accept_report` and `new_runtime`, as functions that pass the state and the world on
--   and may fail; a failed operation keeps the state it reached. Runtime/Server.antt: the handler of
--   the API, as a function of a request; Runtime/Running.antt: Run, with the number of its ticks
--   given. Runtime/Evidence.antt is an interface of what a world may show of the daemon's acts, and
--   Runtime/History.antt fills it with a host that also writes a history: which driver has run with
--   which networks, and which request was answered with which status. The other files of Runtime/ hold
--   theorems, by subject.
-- - Dns.antt: internal/pbr/dns_proxy.go, from names to what an answer teaches; Dns/Serving.antt:
--   ServeDNS, where the proxy meets the daemon: its learner is `learn`; Dns/Exchange.antt: how a query goes
--   to the upstream server, with the subnet of the client in one of the OPT records of its additional
--   section.
-- - Drivers.antt: internal/pbr/drivers.go, over the interface of the runner. Drivers/Commands.antt: the
--   helpers; Drivers/Rules.antt: the scan of the kernel's rules and the rule that the edge owns;
--   Drivers/Edge.antt, Drivers/Exit.antt and Drivers/OpenWrt.antt: the drivers wg-route and linux-edge,
--   linux-exit and nft-exit, and openwrt-pbr; Drivers/Dispatch.antt: applyNetworks and
--   reapplyNetworks, which fill the interface that the daemon calls. For theorems on the order of
--   commands a driver runs on `journaled` (Drivers/Journal.antt), a runner that also writes down what it
--   was asked; the world and the answers stay arbitrary. Operations/CleanupOrder.antt has one that writes
--   down how a command failed. Drivers/RuleTable.antt states what `ip` is
--   documented to do to the kernel's rules. Drivers/Enforced.antt puts the drivers, over `journaled`,
--   into the daemon.
-- - Operations.antt: internal/pbr/operations.go and internal/pbr/install.go over the record `Machine` of
--   what they ask of the system (Operations/Machine.antt). Operations/Doctor.antt: Doctor;
--   Operations/Smoke.antt: SmokeTest, which fills its result step by step; Operations/Cleanup.antt:
--   Cleanup; Operations/Uninstall.antt: Uninstall; Operations/Install.antt: InstallSelf;
--   Operations/Generate.antt: internal/pbr/generate.go.
-- - Tests/ runs the model on concrete data.
--
-- What the daemon does under `syncMu` is one step, the record of an error behind the unlock is one of
-- its own, and an execution is a sequence of steps (Runtime/Reports.antt).
--
-- The loop of `inspect` is recursion on fuel, one more than there are records: every pass but the
-- last trusts the target of a record that was not trusted before.
--
-- The wait for a stopped process is recursion on fuel, 51 rounds: a round sleeps 100 ms of a deadline of
-- 5 s (Operations/Waiting.antt).
--
-- Parameters: the world of files, clock and HTTP; for the daemon the drivers, and for ServeDNS the
-- exchange with the upstream server; the clients of DNS, and which OPT
-- record IsEdns0 finds; random bytes; JSON (a payload is what it decodes to); processes;
-- users, removal and copies of files; time.ParseDuration, url.Parse, net.SplitHostPort, strconv.ParseUint
-- and strconv.Atoi; the text of an error; the lower case of a text with a byte outside ASCII.
-- Times are nanoseconds, 0 for Go's zero time. The limit on networks is not negative. Lines of state
-- files are below the 64 KiB of bufio.Scanner.
--
-- A process id is a natural number. The modes of directories and of the files that `ioutil.WriteFile`
-- writes are not modelled.
--
-- Not modelled: the clients of DNS and HTTP, their certificates and the listeners, which the code
-- sets up from libraries; the goroutines beside Run and its ticker; the command line.
pub mod Base
pub mod Text
pub mod Net
pub mod Networks
pub mod Config
pub mod Runner
pub mod System
pub mod Status
pub mod Runtime
pub mod Drivers
pub mod Operations
pub mod Dns
pub mod Tests
