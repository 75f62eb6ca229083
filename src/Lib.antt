-- ===== src/Lib.antt =====
-- FastFlow client: the Go parts of the client, that is the wrapper around the sing-box core that
-- the application loads as a library, and the Windows daemon that runs with elevated rights.
--
-- The wrapper, data/vpn_engine. `engine_controller.go` keeps one engine: a mutex, the running
-- instance with the function that cancels its context, and a status, a last error, a TUN
-- descriptor and a traffic snapshot that are read without the mutex. `StartEngine` and `StopEngine`
-- change it. `start` ends by starting the poller of `traffic.go`, which samples the core's counters
-- each second and stores the snapshot that `GetStats` reads. On Android `platform_android.go` keeps
-- a registry of the networks that the platform reports by the exports of `netif_export_android.go`,
-- and answers the core from it.
--
-- The daemon, windows_daemon. A server (`ipc.go`) accepts one client after the other on a named
-- pipe, checks the process behind it (`security.go`), and gives the connection to a loop that reads
-- one JSON request a line. A request that shows the shared secret is dispatched to the kill switch
-- (`firewall.go`) or to the routes (`routing.go`). The secret lies in a directory that `acl.go`
-- creates or takes back. `pipe.go` wraps the pipe, `main.go`, `install.go` and `service.go` register
-- and run the service, and `authenticode.go` checks signatures, though nothing calls it now.
--
-- Files:
-- - Base and below: names of the libraries, 64-bit and 32-bit wrapping (Base.Int), strings
--   (Base.Text), calls of foreign code that return, panic or never come back (Base.Calls).
-- - Traffic, Traffic.Reader: traffic.go, `readTotals`, `perSecond`, the rounds of `pollTraffic`,
--   and the reader by reflection. Traffic.Rates and Traffic.Totals: their theorems.
-- - Engine: engine_controller.go, with `start` cut at its calls of the core: `start_body`,
--   `parse_config`, `create_box`, `start_box`, `start_poller`; `settle` is the deferred functions
--   and `force_cleanup` is `forceCleanupLocked`. Engine.Lifecycle, Engine.Success,
--   Engine.Operations, Engine.Resources, Engine.Leaks and Engine.Statuses: theorems. Engine.Meter:
--   the pollers' goroutines beside the operations of the engine. Engine.Exports: what the host
--   calls and reads. Engine.Tunnel: the descriptor of the TUN device, and platform_other.go.
--   Engine.Transports: custom_transports/registry.go.
-- - Net and below: what the program uses of Go's `net` and `net/netip`: `ParseIP`, `ParseCIDR`,
--   `ParseAddr`, `To4`, masks and printing.
-- - Daemon.Os: the interface to Windows, and `system32`. Daemon.Firewall, Daemon.Routing:
--   firewall.go and routing.go. Daemon.Ipc: `dispatch` and `handle` of ipc.go. Daemon.Json:
--   responses as text and the framing of lines; Daemon.Json.Syntax, Daemon.Json.Modes and
--   Daemon.Json.Scanner: the syntax that `encoding/json` accepts; Daemon.Json.Decode:
--   `json.Unmarshal` into a request, and `handle` over the text of a connection;
--   Daemon.Json.Written: how a client writes a request.
-- - Daemon.Accept: `acceptLoop` and `stop` of ipc.go. Daemon.Pipe: pipe.go. Daemon.Acl: acl.go.
--   Daemon.Security and Daemon.Process: security.go. Daemon.Authenticode: authenticode.go.
--   Daemon.Service: `Execute` of service.go, with the server's `start`. Daemon.Install:
--   install.go, main.go and `runConsole`. Daemon.Handles: handles that are taken and given back.
-- - Daemon.Work: the requests of ipc.go command by command. Daemon.Whole: the accept loop, the
--   connections that it starts, and the machine, together. Daemon.Whole.Rounds: the loop by
--   itself, over the functions of pipe.go and security.go. The theorems of the daemon stand in the
--   modules below each of these, those on handles in Daemon.Balance.
-- - Netif, Netif.Parse, Netif.Exports, Netif.Platform: platform_android.go and
--   netif_export_android.go. Netif.View, Netif.Default, Netif.Listing, Netif.Reports, and the
--   modules below Netif.Parse: theorems.
-- - Tests: runs at concrete inputs.
--
-- How the code is modelled:
-- - The core is a parameter (`Engine.Core`): each of its calls, in the session of a given number,
--   returns a result or an error, panics, or never comes back. A session number stands for the
--   context, the box and the poller that one `start` makes, so `live` and `boxes` say which of
--   them are open: a box on which `Close` was called and never returns counts as open. A run that
--   never comes back keeps the mutex. A panic that nothing recovers sets `crashed`; Go ends the
--   process then, and what the model does afterwards has no meaning.
-- - `float64` is a parameter (`Traffic.Float`), with laws where a theorem needs them. The
--   statistics service is a parameter of the reader.
-- - Windows is a parameter that threads the machine's state, cut by what a file uses: `Os`,
--   `Disk`, `Processes`, `Pipes`, `Crypto` and `Manager`. The laws of netsh.exe are in
--   Daemon.Firewall.Switch: a command that reports success has done what it says, and one that
--   fails has changed nothing that the theorems read.
-- - The accept loop and `stop` are two threads: a schedule is a list of steps, each one the
--   stretch between two places where the other thread can come in. What Windows decides is in the
--   step.
-- - In the same way a poller's round and an operation of the engine are turns in Engine.Meter. An
--   operation is one turn, since it neither reads nor writes the snapshot.
-- - In Daemon.Whole a move is a step of the accept loop or of `stop`, a line that a connection
--   reads, one command of a request, an answer, the end of a connection, or something the rest of
--   the machine does. What is left of a request (`Work`) is its next command with what follows
--   each result of it, so the commands of several requests interleave in any order. Daemon.Ipc has
--   the same requests in one go.
-- - A handle is taken or given back by a call of Windows; `held` counts how often each is held.
-- - The scanner of JSON keeps the stack of open arrays and objects, at most 10000 deep, and takes
--   one step for each character. `unicode.SimpleFold` is a parameter, one code point for each
--   class.
-- - Strings are lists of code points. Callbacks of the registry are values that each operation
--   returns, in the order in which the code calls them.
-- - Fuel: a number is printed with one unit more than the number itself, and each digit divides it
--   by ten; an IPv6 address is parsed in at most eight rounds, as many as it has groups. The
--   accept loop, which may never end, is run for any number of rounds.
--
-- Not modelled: input that is not UTF-8, the layout in memory of the structures that are handed to
-- Windows, `FreeString`, which frees memory of C, `svc.Run`, logging, and the layers in Dart, Kotlin
-- and C++.
pub mod Base
pub mod Traffic
pub mod Engine
pub mod Net
pub mod Daemon
pub mod Netif
mod Tests
