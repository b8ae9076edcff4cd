-- ===== src/Lib.antt =====
-- better-nm: a network manager front end with a monitoring daemon.
--
-- The daemon (internal/daemon) reads views of the system from NetworkManager and from the VPN
-- adapters. Its deriver turns successive views and expired timers into events. Each event goes to
-- the bus, which fans it out to the subscribers of the stream (clients read it as Server-Sent
-- Events), and to the notifier, whose filter decides what reaches the desktop. A Network Key names
-- the network that is monitored: the probe engine (internal/monitor) keeps a window of samples for
-- each key and anchor and reports when a key degrades or recovers. The VPN registry (internal/vpn)
-- lists the VPNs of all backends and routes a connect to the backend that owns it, and the importer
-- (internal/vpn/wireguard) turns wg-quick files into profiles. The command line (internal/cli)
-- passes all that it prints through a writer that filters control characters, and finds what an
-- argument names among profiles and VPNs. The bridges of container runtimes are listed with their
-- members and neighbours (internal/infra). The NetworkManager client (internal/nm) translates settings
-- and errors, and answers NetworkManager's requests for secrets by asking the surfaces through the
-- daemon, which emits an event when a secret is needed and when the request has ended.
--
-- Files and code:
--   Prelude          tests on numbers and texts, lists, and Go's maps as association lists
--   Core             internal/core: events, status, VPNs, samples and baselines; errors.go is
--                    Core/Errors, with KindOf as kind_of and errors.Is as error_is
--   Notify           internal/notify: policy.go is Notify/Policy, filter.go Notify/RateKey and
--                    Notify/Filter (Allow is allow, Flush flush, release release), notifier.go
--                    Notify/Desktop. Notify/Trace strings calls together
--   Daemon           internal/daemon: derive.go is Daemon/Deriver (State: the struct and its
--                    helpers; Events: what is said; Machine: apply, flush and nextDeadline), bus.go
--                    is Daemon/Bus. Daemon/Deriver/Trace strings views and timer calls together.
--                    daemon.go is Daemon/Loop (the state, the refreshes, emitEvents and
--                    syncMonitorNetwork) and Daemon/Loop/Handlers (initialRead, onNMChanges,
--                    onVPNChanges, onMonitorChange, onMonitorEvent, the timer, Refresh, the
--                    callbacks of the secret broker); Daemon/Loop/Life strings them together
--   Monitor          internal/monitor/engine.go: Config, Stats, Anchor (one anchor's state machine),
--                    Engine (keys, Add, settle), Load (the warm start). monitor.go is
--                    Monitor/Rounds (SetNetwork, Pause, Resume, ResetBaseline, and a round as
--                    begin_round and end_round) and Monitor/Events (eventFor); Monitor/Life strings
--                    the calls together
--   Nm               internal/nm: mapping.go is Nm/Mapping and Nm/Reasons, consts.go Nm/Consts,
--                    errors.go Nm/Errors, settings.go Nm/Variant (the readers of values),
--                    Nm/Settings/Ip, Nm/Settings/Profile (profiles that are read) and
--                    Nm/Settings/Created (new ones), agent.go Nm/Request (what is asked), Nm/Reply
--                    (what is sent back), Nm/Agent (GetSecrets and how a request ends) and
--                    Nm/Agent/Broker (the surfaces' side); Nm/Agent/World lets all who use the agent
--                    act in any order
--   Vpn              internal/vpn: registry.go is Vpn/Registry; wireguard/parse.go is Vpn/WireGuard
--                    (Text, Spec, Lines, Conf)
--   Cli              internal/cli: safe.go is Cli/Safe, resolve.go Cli/Resolve
--   Infra            internal/infra: classify.go is Infra/Classify, networks.go Infra/Networks
--   Stream           internal/client/sse.go and the frames of internal/api/server.go: Stream/Sse
--   Tests            runs at concrete inputs
--
-- State and time: a method with a pointer receiver is a function from the old state to the new one
-- and what it returns. A lock that a method holds makes it one step, so that interleavings are lists
-- of calls. Times are natural numbers of nanoseconds, 0 is the zero time, and negative durations are
-- taken as 0. Maps are association lists whose keys are distinct; where the code ranges over a map
-- the theorems hold for the order of the list, which stands for any order.
--
-- Bounds: the printing of a number in decimal runs on the number's successor as fuel, which is more
-- than its digits; each loop of the modelled code is a recursion over a list or a text. A
-- subscriber's buffer is 128 items, the notifier's 64 and a channel of the monitor 32, as in the
-- code, and an engine's window is the configured one. int and float64: counters are natural numbers,
-- since no counter here reaches the range of int; float64 is any type with the operations that the
-- code uses, and nothing is assumed of them.
--
-- Parameters: the netip, SplitHostPort and ParseInt parsers of the importer, the results of VPN
-- adapters, the two ways to deliver a notification, and what netlink and the Docker socket answer;
-- the netip parsers of the settings with the printer of an address, the text of an SSID that is no
-- UTF-8, the printing of a float64, the results of probes, and what the store and NetworkManager
-- answer. An ID of a secret request is drawn at random, and one that was never drawn before is taken.
--
-- Interleavings: a handler of the daemon's loop and a Refresh are one step each in Daemon/Loop. The
-- code releases its lock before it emits, so that a Refresh may come between: in Daemon/Loop/Order a
-- derivation and the emission of its batch are steps of their own, with the batches in the order in
-- which they were derived. That the code may swap two of them is a test in Tests/Loop.
--
-- Not modelled: D-Bus, netlink, sockets, SQL, HTTP and the user interfaces; the daemon's goroutines
-- and the commands that call a backend and refresh; the probes; the adapters behind the registry, and
-- its merge of watch channels; the registration of the secret agent and the storing of secrets; the
-- reads and operations of the NetworkManager client; the operations with Tailscale; configuration,
-- diagnostics, store and speed test.
pub mod Prelude
pub mod Core
pub mod Notify
pub mod Daemon
pub mod Monitor
pub mod Nm
pub mod Vpn
pub mod Cli
pub mod Infra
pub mod Stream
mod Tests
