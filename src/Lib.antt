-- ===== src/Lib.antt =====
-- Collectivus collects the traffic of coding agents: gateways record it and ship it to a central
-- server, which hands out identities and configurations. This library models the parts of it that
-- keep state or read foreign bytes, and proves what makes them correct. Paths are from the
-- repository's root.
--
-- Sse: src/sse.js, the incremental parser of server-sent events. `feed`, `find_separator` and
--   `parse_block` are its functions; the state is the buffer between two chunks; the UTF-8 decoder
--   of the platform is a parameter. The loop over the buffer runs on fuel, its length plus one,
--   which is enough since each round takes a block off.
-- RateLimit: src/server/rate_limit.js, the sliding window (`check`) and the token bucket
--   (`refill`, `try_consume`). Times are milliseconds, tokens are counted in thousandths.
-- Outbox: src/gateway/outbox_sink.js, the gateway's batches on disk. The state is the open batch
--   and the directories as maps from names to lines; each method is one function of it, in the
--   order in which the promise queue runs them. `find_free` runs on fuel, the number of the files
--   plus one, which is enough by the pigeonhole principle. The posts of a batch are the list of the
--   answers of the central server, which is a parameter, as is the clock that names the files.
-- Bootstrap: src/server/identity.js, the store of one-shot bootstrap tokens. SHA-256 is a parameter.
-- Jwt: src/server/identity.js, the tokens of the control plane (`sign_jwt`, `verify_jwt`,
--   `issue_from_bootstrap`) with base64url written out; HMAC, UTF-8 and JSON are the interface
--   Runtime, and what is assumed of them is IsLawful.
-- Identity: src/gateway/identity.js, the gateway's side of those tokens: `acquire`, `bootstrap`,
--   `do_refresh`, `get_current_jwt`, and the file that keeps the identity.
-- Shipping: src/gateway/shipping_sink.js, batches in memory with their thresholds and timer, and
--   the posts of a batch. The chain of promises is a queue of batches.
-- Ingest: src/server/ingest.js, the other end of those posts: `admit`, `take_body` and `settle` are
--   the three steps of a request, and Event is one step of any request.
-- Registry: src/server/config_registry.js, the configurations of the gateways: `canonicalize`, the
--   ETag, and `get_config`, `set_config`, `delete_config` and `list_gateways` over a map of files.
--   Json is its data and that of HotReload; JSON text, SHA-256 and the validation are an interface.
-- BearerAuth: src/server/auth.js and src/server/admin_auth.js, the Authorization header.
-- ControlPlane: src/server/control_plane.js, which puts Bootstrap, Enrollment, Jwt, Registry, Ingest
--   and RateLimit behind HTTP: `begin` is `handleRequest`, `finish_bootstrap` and
--   `finish_enrollment` are what follows a body; requests may come between.
-- Enrollment: src/server/enrollment.js with src/gateway_id.js, the join codes that admit several
--   gateways; an exchange registers a token with Bootstrap.
-- AdminInvites: src/server/admin_invites.js, the handler that makes a join code, registers it with
--   Enrollment and posts it to the rendezvous service (src/server/rendezvous_client.js). An expiry
--   that no date has makes it throw.
-- ServerUtil: src/server/util.js, the quoting for a shell and the trimming of addresses, and
--   src/server/secret_resolver.js.
-- Rendezvous: src/rendezvous/store.js, the invites on the other side of that request. `Date.parse`,
--   `toISOString` and the parsing of addresses are parameters with two laws (IsPlatform).
-- ConfigClient: src/gateway/config_client.js, the loop that pulls a gateway's configuration. A
--   World is what the outside answers in one tick; Loop is the timer around the ticks.
-- HotReload: src/gateway/hot_reload.js, what a new configuration restarts. Json holds JSON values
--   and `deepEqual`. Whether a listener starts or stops is a parameter.
-- Dedup: src/gascity/dedup.js, the bounded set of uuids of a session.
-- EventBus: src/gascity/event_bus.js and src/gascity/event_writer.js, the events of a bus, live and
--   of a snapshot, with the cursor for the next start. An Event is one step; a call that writes the
--   cursor is a read and a write, which may fail and between which others may come.
-- Scheduler: src/upload/scheduler.js, the daily timer in UTC.
-- Upload: src/upload/uploader.js and src/upload/ledger.js, a run of the uploader over its jobs.
--   What each attempt of a call meets is a function of the number of the attempt.
-- Protobuf: src/protobuf.js, the reader of the wire format under the OTLP decoders; varints are those
--   of `readVarBigInt`, which `readVarint` agrees with below 2 ^ 53.
-- Prelude: JavaScript strings as lists of code units, `Map` as a list of pairs, decimal digits.
--
-- How they interact: AdminInvites calls Enrollment and ServerUtil, Enrollment calls Bootstrap,
-- HotReload uses Json, and AdminInvites and Rendezvous meet in the request that the
-- one posts and the other stores. ConfigClient emits the configuration that HotReload applies.
-- Jwt issues its tokens for what Bootstrap consumed, Identity reads them, and Ingest takes the
-- bodies that Shipping posts and the token bucket of RateLimit. ControlPlane calls all of the
-- server's stores, and compares ETags that Registry made; Registry's ETags agree with the equality
-- of HotReload.
--
-- Numbers are naturals, as every count, time and status of these files is one; JSON numbers are
-- too. Promises that run one after another are composed as functions; where they may interleave
-- (Outbox, ConfigClient, Shipping, Ingest, ControlPlane, EventBus) the orders are explicit
-- sequences of steps.
--
-- Not modelled: the command line, the proxy and the recorder, the OTLP decoders, the query engine,
-- the search for files to upload, the streams of events, the writers of Parquet and Iceberg, daemons and skills. They are input and output,
-- glue around libraries, or wait for a later step. Of the modelled files, log lines, error texts,
-- file modes and failing disks are left out, but for the writing of the ETag file, of the identity
-- and of the rows and the cursor of EventBus.
pub mod AdminInvites
pub mod BearerAuth
pub mod Bootstrap
pub mod ConfigClient
pub mod ControlPlane
pub mod Dedup
pub mod Enrollment
pub mod EventBus
pub mod HotReload
pub mod Identity
pub mod Ingest
pub mod Json
pub mod Jwt
pub mod Outbox
pub mod Prelude
pub mod Protobuf
pub mod RateLimit
pub mod Registry
pub mod Rendezvous
pub mod Scheduler
pub mod ServerUtil
pub mod Shipping
pub mod Sse
pub mod Upload
