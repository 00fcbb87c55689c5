-- ===== src/Lib.antt =====
-- Verification of ocserv, the OpenConnect VPN server (paths below are those of the repository).
--
-- The server is a main process (src/main*.c), which accepts connections, keeps the ban list and
-- hands out addresses; a security module (src/sec-mod*.c), which authenticates users and keeps
-- their sessions; and a worker for each client (src/worker*.c). They talk by messages, which
-- stand here as arguments and results of the handlers.
--
-- Conventions. A function that changes an object returns the new object beside its result. Each
-- call of time() is an argument. Numbers are natural numbers; the wrap-around of an `unsigned
-- int` is written out where the source can reach it, and that of a size_t in Bandwidth; times (time_t,
-- 64 bits) and 64-bit counters are unbounded. Byte strings are lists of numbers. Logging is left out.
-- The hash tables of src/ccan/htable are a library: Table.antt sees one as the list of its
-- entries and takes insertion (which may fail for want of memory, and may reorder) and search
-- as parameters with their documented behaviour; Table/Chains adds the visit to the entries of
-- one hash value.
--
-- Files.
--   Prelude: shared names, Boolean tests, lists, byte strings, masks on octets.
--   Table: the tables and their laws.
--   Address: socket addresses (src/ip-util.h, src/ip-util.c).
--   Ban: the ban list (src/main-ban.c, src/main-ban.h); Ban/Local the test for the server's own
--     networks; Ban/Step the calls as one step function and its histories.
--   Mask: network masks and prefixes (src/ip-util.c); the loop of bit_count takes a round for each
--     of the 32 bits at most. Mask/Bits what bit_count accepts, Mask/Prefix the masks of prefixes.
--   Route: routes as text (src/ip-util.c), with inet_pton, inet_ntop and strtoul as parameters;
--     Route/Accepted the form of the routes that ip_route_sanity_check accepts, Route/Cidr their way
--     back by ipv4_route_to_cidr.
--   Resume: the cache of TLS sessions (src/sec-mod-resume.c, src/tlslib.h). Resume/Step its requests
--     and their histories; Counted its counter and bounds, Answer what it answers, Refine the
--     cache as a map, Roundtrip a session stored and resumed.
--   Bandwidth: the bandwidth limit of a worker (src/worker-bandwidth.c, src/worker-bandwidth.h);
--     Bandwidth/Window what passes in a period.
--   Ports: lists of ports as text (src/config-ports.c), with atoi as a parameter; each round of the
--     loop takes a byte at least, so a round more than bytes is fuel enough. Ports/Ends.
--   Url: escape_url and unescape_url (src/html.c), with sscanf as a parameter; Url/Roundtrip.
--   Proxy: the header of the proxy protocol (src/worker-proxyproto.c), with the read of
--     src/common/common.c and with inet_pton and atoi as parameters; the loop for version 1 has 92
--     rounds, as in the source. Consistent what it can make of the addresses, Roundtrip version 2,
--     Text version 1.
--   Hostname: host names (src/valid-hostname.c); each round of the loop takes a byte, so as many rounds
--     as bytes are fuel enough. Hostname/Label and Hostname/Grammar the names it accepts.
--   Lease: the addresses of clients (src/ip-lease.c, src/ip-lease.h). Lease/Entry the leases;
--     Lease/Pick4 and Lease/Pick6 their choice; Lease/Assign giving, moving and removing them;
--     Lease/Step the histories. The choice takes sixteen rounds at most, as in the source.
--     Owners, Fresh, Give and Unique count the leases of clients and of the table; Network says
--     where an address lies, Seeded which address a seed names. Pings are a parameter.
--   Mtu: the MTU of a worker's DTLS channel (src/worker-vpn.c, src/worker.h). Mtu/Events where it is
--     set: CONNECT, the start of a session, packets, dead peer detection, the periodic check. Agreed,
--     Bounds and Ceiling its bounds; Search, Settles, Rounds and Outcome its discovery over IPv4.
--   PlainAuth: authentication by a password file (src/auth/plain.c), with crypt, liboath and the
--     lines of the file as parameters. PlainAuth/Groups the lists of groups, File the reading of the
--     file, Pass the passwords, Login a sequence of them. Accepted, Refused, Entry and Secure are proofs.
--   Main: the clients of the main process. Main/Index what its hash tables promise, Main/Proc the
--     clients (src/main.h), Main/Search the tables (src/proc-search.c), Main/Auth the request for a
--     session (src/main-auth.c, src/main-worker-cmd.c, src/main-sec-mod-cmd.c), Main/Clients the
--     list (src/main-proc.c), Main/Step the events as one step function and its histories
--     (src/main.c). A client stands at a pointer; memory is a function from pointers, so that a
--     stale pointer in a table would show. Sound, Valid, Kept, Moved, Cookie, Request, Run, Safe,
--     Limit and Reuse are proofs; Fixtures and Tests concrete inputs.
--   SecMod: the security module's sessions. SecMod/Entry the state (src/sec-mod.h); SecMod/Db the
--     table (src/sec-mod-db.c); SecMod/Checks, SecMod/Auth, SecMod/Session and SecMod/Init the
--     handlers of src/sec-mod-auth.c (checks, results, session messages, start); SecMod/Step the
--     messages and timers as one step function and its histories.
--     The others are proofs: SecMod/Accounting, Kept, Handlers, Created, Preserve and History the
--     accounting of sessions; Grant, Gone, Reuse and Banned the openings; Isolation, Fresh and
--     Complete the rest; Fixtures and Tests concrete inputs.
--
-- In the security module, what a handler sends (and each call of the accounting module) is added
-- to a list of events. What authentication modules, gnutls_rnd, calc_safe_id, the check of the
-- message code, allocations and sockets answer comes in as arguments. The loop that draws an
-- identifier runs at most five times, as in the source, so no other fuel is needed.
--
-- Not modelled: the workers but for their bandwidth limit, their MTU and the header of the proxy
-- protocol, the scripts, devices and logs of the main process, the authentication modules but for the
-- password file, the configuration but for lists of ports, the tools, and the glue to TLS and to the
-- system. Copies of other projects stay out.
pub mod Address
pub mod Ban
pub mod Bandwidth
pub mod Hostname
pub mod Lease
pub mod Main
pub mod Mask
pub mod Mtu
pub mod PlainAuth
pub mod Ports
pub mod Prelude
pub mod Proxy
pub mod Resume
pub mod Route
pub mod SecMod
pub mod Table
pub mod Url
