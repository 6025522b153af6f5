-- ===== src/Lib.antt =====
-- Aegis Private Browser: the daemon that runs a hardened browser in a disposable virtual machine
-- behind a fail-closed gateway, and the domain types that it shares with its adapters.
--
-- The program's parts. crates/aegis-core holds the domain types with their validation and the
-- traits of the adapters. crates/aegis-daemon/src/orchestrator.rs is what composes the adapters:
-- it keeps a table of sessions, drives a start from the profile's lock to the launched browser,
-- and undoes everything when a step fails. crates/gateway-controller is the adapter that loads the
-- firewall and cuts traffic, crates/network-audit measures what the preflight checklist reports,
-- and crates/aegis-ipc frames the messages of the clients. crates/update-client checks signed
-- manifests and installs artifacts behind backups. crates/vm-controller defines, starts and
-- destroys the machines through qemu-img and virsh. crates/profile-store keeps the profiles as
-- directories with a lock file. The adapters (profile store, virtual machines, gateway, auditor,
-- browser backends, key store, audit sink) are reached by trait objects only.
--
-- Which file models which part:
--   Core/FailureClass, Core/Error   crates/aegis-core/src/error.rs (class, requires_killswitch)
--   Core/Preflight                  crates/aegis-core/src/preflight.rs (checks, verdict)
--   Core/Session                    crates/aegis-core/src/session.rs (the state machine)
--   Core/Network, Core/Gateway      crates/aegis-core/src/network.rs, gateway.rs
--   Core/Vm, Core/Fingerprint       crates/aegis-core/src/vm.rs, fingerprint.rs
--   Core/Permissions, Core/Config   crates/aegis-core/src/permissions.rs, config.rs
--   Core/Browser, Core/Profile      crates/aegis-core/src/browser.rs, profile.rs
--   Core/Events                     crates/aegis-core/src/events.rs
--   Gateway/Runner, Gateway/Render  crates/gateway-controller/src/runner.rs, render.rs
--   Gateway/Bootstrap               parse_tor_bootstrap of crates/gateway-controller/src/lib.rs
--   Gateway/Controller              NftGatewayController and its state
--   Gateway/Loaded                  what the kernel has loaded, read off the history of commands
--   Audit                           crates/network-audit/src/lib.rs (Auditor)
--   Ipc/Frame                       crates/aegis-ipc/src/frame.rs
--   Core/Update                     crates/aegis-core/src/update.rs (versions, manifests)
--   Files/FilePath                  what is used of `std::path`
--   Update/Host, Update/Transport   the files, the transports of crates/update-client/src/lib.rs
--   Update/Client, Update/Apply     SignedUpdateClient: check_for_update, verify, apply
--   Update/Checked                  what an accepted manifest has passed
--   Update/Undo to Update/Applied   that an apply is all or nothing
--   Vm/Xml                          crates/vm-controller/src/xml.rs
--   Vm/Runner, Vm/Controller        crates/vm-controller/src/runner.rs, lib.rs
--   Vm/Noted to Vm/Reachable        what the controller's operations do, over sequences of them
--   Store/Tree, Store/Disk          the files below the root of crates/profile-store/src/store.rs
--   Store/Size, Store/Profiles      FileProfileStore: dir_size, and its other operations
--   Store/Kept to Store/Exclusive   the lock, over sequences of operations
--   Store/Token                     the lock token as text and as bytes
--   Store/Sound to Store/Lasting    the metadata files, over sequences of operations
--   Store/Sized                     that dir_size ends
--   Daemon/Calls                    `Capabilities` and the traits of crates/aegis-core/src/traits.rs
--   Daemon/State                    the session table and the audit of orchestrator.rs
--   Daemon/HostProxy                HostProxy::parse, host_proxy_endpoint
--   Daemon/Orchestrator             transition, fail_closed, provision_request, launch requests
--   Daemon/Start, Daemon/StartHost  drive_start, drive_start_host
--   Daemon/Teardown                 teardown
--   Daemon/Sessions                 start_session, stop_session, set_enforcement and the views
--   Daemon/Trace, Daemon/Reachable  the calls of an orchestrator, and the states that it comes to
--   Daemon/Table                    what the operations leave in the session table
--   Tests                           the theorems at concrete inputs
--
-- How state and operations correspond. `Orchestrator` of Daemon/State is the struct of the same
-- name: its enforcement policy and its session table, with the history of calls beside them. A
-- method is an action of Prelude/Exec, a function from the state to a result and a state, in which
-- `?` is a bind and what was written before a failure stays written. `Capabilities` is a record of
-- functions, one for each method of an adapter that is called: the answer is any function of the
-- history of the calls, so that an adapter may answer differently each time. Every call is written
-- to the history with its answer. `Controller` of Gateway/Controller is the gateway's guarded
-- `State` with the history of the commands that were run; `Runner` is any function of that
-- history. `Machine` of Update/Host holds the files as a function from paths to contents, with the
-- calls made and the backups of a running apply; which calls the host refuses is any function of
-- the calls before. `Disk` of Store/Disk is the directories of the profiles with the calls made,
-- `Outside` beside it what the host answers. `LibvirtController` of Vm/Controller is the map of
-- tracked machines with the history of the commands and of the uses of files; `Outside` is what
-- answers them, any function of that history.
--
-- Bounds: one function runs on fuel, `walk` of Store/Size, which has one unit for each directory
-- of the tree; `dir_size_lem` shows that it is enough. Ports and percentages are natural numbers
-- with the source's limits written out. Recursion is on lists and texts.
--
-- Not modelled. The texts of errors, timestamps, tracing and display labels are dropped.
-- Identifiers are numbers, and a fresh one is any function of the history. Paths are texts, but
-- for the update client, where they are lists of components. JSON values are texts, and bytes in
-- the profile store, whose disk has no links at the store's own names and no other entries in its
-- root. A map is an association list. A poisoned mutex does not occur. Operations run one after
-- the other: two starts are not interleaved at their await points. Of the adapters the gateway
-- controller, the machine controller, the profile store, the update client and the auditor are
-- modelled; the sockets, the processes and the command-line programs are not. serde_json is a
-- parameter of the frames and of the profile store, and with ed25519-dalek, sha2 and hex one of
-- the update client. The profile store's shredder is a trait object in the source and a parameter
-- of the model, so that the two shredders of crates/profile-store/src/shred.rs are not modelled.
-- The update client's directories are not kept: a missing parent is one of the refusals.
pub mod Prelude
pub mod Core
pub mod Daemon
pub mod Files
pub mod Update
pub mod Vm
pub mod Store
pub mod Gateway
pub mod Ipc
pub mod Audit
pub mod Tests
