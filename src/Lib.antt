-- ===== src/Lib.antt =====
-- Verification of airgapp-rpi, the network filter that keeps a car's vendor out of its own uplink.
--
-- The daemon (cmd/netfilterd) is one Go process on a Raspberry Pi. The parts modelled here, each with
-- its files:
--
--  * Gate, Gate/..: internal/services/lockgate.go. A frame of the car becomes a signal
--    (`DecodeLockSignal` is `decode_lock_signal`), signals fold into `GateState` (`Apply` is `apply`),
--    and `APShouldBeUp` (`ap_should_be_up`) says whether the access point may stay up.
--  * Watch, Watch/..: internal/services/lockwatch.go. The watcher attaches to the live session, feeds
--    its frames to the gate and tells an enforcer the verdict. An operation is one function on the
--    record `Watch`; Watch/Race takes `settle` apart for goroutines that interleave.
--  * Wire, Wire/..: internal/services/tesla_session.go, `readVarint`, `scanProtoField` and the
--    extractors, by which the pump tells whose answer a frame is.
--  * Pump, Pump/..: internal/services/tesla_session.go, `internalSession`. The waiters of `Exchange`,
--    the subscribers, and `routeFrame`; a run is any sequence of its operations.
--  * Service, Service/..: internal/services/tesla_session.go, `BLESessionService`, and `bleLock` of
--    internal/services/tesla.go. Service/Race is a step relation for the goroutines of `Open`, `Close`,
--    `CloseForToken` and the pairing of internal/services/tesla.go in any interleaving.
--  * Floor, Floor/Suffix: internal/services/protected.go, the deny floor.
--  * Hello, Hello/..: internal/services/sniproxy.go, `readClientHello` and `parseSNI`.
--  * Sni, Sni/..: internal/services/sniproxy.go, the cache, the policy of a client and `handle`.
--  * Domains, Domains/..: internal/services/validate.go, `ValidDomain` and `NormalizeDomain`, and the
--    checks of `CreateDomain` in internal/services/filter.go.
--  * Executor, Executor/Ring: internal/executor/executor.go, the ring of recorded commands.
--  * Token, Token/..: internal/services/tesla_token.go over the rows of `tesla_client_tokens`.
--  * Validate, Validate/Lines: internal/services/validate.go, the other validators.
--  * Firewall, Firewall/..: internal/services/firewall.go. A line of a chain is data (`Line`) with the
--    text it is written as (`line_text`). Rules has `buildRuleLines`, Chains `generateConfig`, Listing
--    `verifyOutput`; Policy gives the chains a meaning over the interface `Kernel`.
--  * Dns, Dns/..: internal/services/dns.go, the file of dnsmasq and the repair of older files.
--  * Network, Network/..: internal/services/network.go, lease file, ARP table and the table `devices`.
--  * Filters, Filters/..: internal/services/filter.go over `filters` and `filter_domains`.
--  * Traffic, Traffic/..: internal/services/trafficlog.go, what is stored in the table `query_log` and
--    the caches that decide it.
--  * Database, Database/..: internal/database/migrations.go, the loop of `Migrate`.
--  * Hotspot, Hotspot/..: internal/services/hotspot.go, the gate before hostapd is started, and the
--    file that hostapd reads.
--  * Auth, Auth/..: internal/services/auth.go, and the lockout of internal/handlers/auth.go.
--  * Base: Boolean tests, lists, text and bits that the others share. The Tests modules hold concrete
--    inputs.
--
-- How they interact: a bearer of Token opens a session of Service, whose Pump reads frames, finds
-- their correlators by Wire, and hands what nobody waits for to the subscriber, Watch, which folds it
-- by Gate. Apart from that, Sni reads a host by Hello and decides by Floor and the allow list that it
-- loads from Filters. Network gives every device the status that Firewall reads: Firewall sends the
-- HTTPS of filtered devices to Sni, Dns resolves only the names of the allow list, and Traffic logs
-- both. Hotspot starts the access point after it has asked Firewall, by two hooks.
--
-- Conventions. Numbers are natural numbers; a 64-bit number keeps its wrap-around written out, and
-- positions in a Go slice are kept as bit patterns. Times are nanoseconds, in Token seconds. Text is
-- a list of bytes, with the ASCII part of `ToLower`, `ToUpper` and `TrimSpace`. The protobuf package
-- is the parameter `Decoder`, the hash of a bearer the parameter `hash`, the package `net` the
-- parameter `Net`, SQLite's reading of a statement the parameter `exec`, nftables the interface
-- `Kernel`, bcrypt the parameters `hash` and `matches`. A file is the list of its lines, a query the list of its rows. Fields that the program does
-- not have are named where a record is declared: they record what was done, and no operation but the
-- recording reads them, except that `answers` of Pump stands for the state of the waiters' channels.
--
-- Fuel. The loops of Hello have as much fuel as they have bytes, and `exhausted` is the result without
-- any. `scan_proto_field` has one more than it has bytes, which is enough for the encoding of a
-- message, and `stuck` is its result without any. The other loops are by structure.
--
-- Not modelled: the radio, sockets, timers and log lines; `Start` and `Stop` of the watcher; failures
-- of the database other than its constraints, and the order in which it returns rows; the calls of
-- nft, systemctl and other tools; the spoof and bandwidth services, the queries of the
-- traffic log, most HTTP handlers and the SQL of the migrations.
pub mod Base
pub mod Gate
pub mod Watch
pub mod Wire
pub mod Pump
pub mod Service
pub mod Floor
pub mod Hello
pub mod Sni
pub mod Domains
pub mod Executor
pub mod Token
pub mod Validate
pub mod Dns
pub mod Firewall
pub mod Network
pub mod Filters
pub mod Auth
pub mod Traffic
pub mod Database
pub mod Hotspot
