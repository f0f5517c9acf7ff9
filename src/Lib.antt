-- ===== src/Lib.antt =====
-- moxui: authentication, sessions and the calls of the clusters of a web front end for Proxmox.
--
-- The program is a server (src/main.rs) that answers the handlers of src/api over a shared state
-- (src/state.rs). A request passes the guards of src/auth/middleware.rs; the handlers of
-- src/api/auth.rs begin and renew sessions with the stores of src/auth; calls of a cluster go
-- through src/proxmox. The files here follow these parts:
--
--   Prelude       the parts of Rust's standard library that the code uses: lists, strings as lists
--                 of byte values, association lists for HashMap, i64 with wrap-around, Result
--   Auth.Crypto   the cryptographic crates, a record of functions that the definitions take
--   Auth.Password src/auth/password.rs: hash_password, verify_password
--   Auth.Refresh  src/auth/refresh.rs: RefreshStore, each method a function of the store. Ledger
--                 looks at the store by token hash; Valid is its invariant; Rotation, Admission and
--                 Replay are about rotate, verify and the lock-out; History is about sequences
--   Auth.Totp     src/auth/totp.rs: Base32, Code (compute_totp, verify_totp), Url, Backup, PreAuth
--   Auth.User     src/auth/user.rs: Role, User, UserStore
--   Auth.Oidc     src/auth/oidc.rs: the pending logins and the checks of the callback
--   Auth.Ldap     src/auth/ldap.rs: the check of credentials by a directory
--   Auth.Jwt      src/auth/jwt.rs: the claims; the jsonwebtoken crate is a parameter
--   Auth.Middleware  src/auth/middleware.rs: require_auth, require_cluster_access, require_role
--   Api.Session   src/api/auth.rs: login, two_factor_complete, refresh, logout
--   Api.SingleSignOn  src/api/auth.rs: oidc_login, oidc_callback, ldap_login
--   Api.TwoFactor  src/api/auth.rs: two_factor_setup, two_factor_verify, two_factor_disable
--   Api.Accounts  src/api/auth.rs: list_users, create_user, update_user, delete_user
--   Api.Handler   what the handlers about clusters share: a handler as a function of the world and
--                 the clients, the role check, a call on one client (on_cluster) or on each (on_each)
--   Api.Listing   the answers gathered from every cluster
--   Api.Vms       src/api/vms.rs: Reads, Actions, Writes, Bulk and the queries in Params
--   Api.Lxcs, Api.HaGroups, Api.Replication, Api.Storages  the files of src/api of these names
--   Api.Networks, Api.Tasks, Api.Cluster  the files of src/api of these names
--   Api.Gathered  the answers passed on from every cluster: Api.Ceph, Api.Sdn, Api.Firewall
--   Api.Dashboard  src/api/dashboard.rs: what is collected of a cluster, the totals, the handlers
--   Api.Audit     src/api/audit.rs: list_audit
--   Api.Routes    src/api/mod.rs: the patterns of the routes behind the two guards
--   Audit         src/audit/store.rs (Store; Statements is what is documented of SQLite) and
--                 src/audit/middleware.rs (Middleware)
--   Security      src/security/rate_limiter.rs and src/security/api_key.rs
--   Webhook       src/webhook/mod.rs; Dispatcher is src/webhook/dispatcher.rs
--   Error         src/error.rs: AppError and its responses
--   State         src/state.rs: client, clients_for_user; State.Readiness with src/api/health.rs
--   Proxmox       src/proxmox/circuit_breaker.rs and src/proxmox/retry.rs; Http is what
--                 src/proxmox/client.rs uses of other crates, Call what its methods are made of,
--                 Client the requests, with the endpoints below it; Types is src/proxmox/types.rs
--   Vnc           src/auth/vnc.rs (Token), and of src/api/vnc.rs the limiter (Limiter) and the two
--                 handlers (Console)
--   Dashboards    src/dashboard_custom/mod.rs
--   Tests         concrete inputs
--
-- Stateful code takes its state and returns it with the answer. A lock that a method holds from
-- its first to its last access makes the method one step; a handler takes several locks in turn,
-- and the model runs it with no other request in between; the limiter of src/api/vnc.rs has no lock
-- and is modelled access by access. Whatever the code draws from outside (the clock at each place
-- that reads it, random bytes, UUIDs, bcrypt salts) is an argument. A HashMap is an association
-- list, whose order stands for the order of iteration; the theorems hold for every order. Times
-- are i64 (wrap-around in the sum with a lifetime) or u64, as in the code; u32 counters wrap at
-- 2 ^ 32. A panic of an operation is the answer `none` or `panicked`.
--
-- A call of a cluster is a function of the world outside, of which the program sees what Http.Net
-- gives, and of the cluster's client. It runs under the deadline of the timeout around it, whose
-- passing is an outcome of each request. The calls that join_all runs together run one after the
-- other in the model, and two requests at once to one client are not modelled. The HTTP client, the
-- clocks and the decoders derived by serde are parameters; an f64, which is only passed on, is its
-- bit pattern. Decimal numbers have at most twenty digits, enough for every u64.
--
-- Loops are structural recursion, but for the inner loop of base32_encode, which runs on the number
-- of buffered bits as fuel: each turn takes five of them, so this number is enough. The buffer of
-- the base32 loops keeps the wrap-around of u64.
-- RetryPolicy::execute and deliver_with_retry recurse on the attempts that are left.
--
-- The audit log hands SQLite the syntax of its statements in place of their text, and the theorems
-- take what SQLite documents of them as a hypothesis (Audit.Store.Statements.Documented).
--
-- Not modelled: HTTP, TLS, sockets, SQLite, the network of LDAP and of the providers, and the
-- WebSocket proxy (I/O); bcrypt, SHA, HMAC, JWT, base64 and the limiter of governor (third-party
-- crates, parameters here); logging; rustls and certificates; the texts for Slack and Discord; the
-- metrics; WebAuthn, and the plugins, which only write to the program's log.
pub mod Api
pub mod Audit
pub mod Auth
pub mod Dashboards
pub mod Error
pub mod Prelude
pub mod Proxmox
pub mod Security
pub mod State
pub mod Tests
pub mod Vnc
pub mod Webhook
