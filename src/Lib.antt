-- ===== src/Lib.antt =====
-- The ASAP protocol library: agents exchange envelopes about tasks over HTTP and WebSockets. This
-- development models the parts of src/asap that keep state and decide: the task state machine, the
-- circuit breaker of the clients, the sending of an envelope with its retries, the checks against
-- replays, the approval of an agent by a human, the registry of hosts and agents, the tokens of
-- both, the capabilities that agents are granted, delegation tokens and their revocation, the
-- snapshots of a task's state, the cache of manifests, the audit log, the endpoints by which a
-- host manages its agents, the OAuth2 middleware, token buckets, webhooks with their retries, and
-- the acknowledgements of the WebSocket client.
--
-- How the parts interact: a client's `send` asks the circuit breaker that its registry gives it,
-- and records outcomes with it. A server checks an envelope's timestamp and then its nonce before
-- it looks at the task, and a token's `jti` before it trusts the agent. An agent becomes active at
-- its registration where the capabilities that it asks for need no consent, and otherwise once a
-- human has approved its request, over a browser, CIBA or A2H; its session then lives in the agent
-- store, which the revocation of its host reaches. Each of its calls brings a token, which is
-- verified against the stores of hosts and agents and the replay cache, and is let through by its
-- grants in the capability registry. An agent may delegate by a signed token, and the revocation
-- of one token cascades to those that its delegate issued. A host manages its agents by the
-- endpoints, which verify its token and write the agent store, and which act on the decisions of
-- the approval store. Calls of other paths bring an OAuth2 token, checked against the keys of its
-- issuer. Events leave the server as webhooks, at the rate of a token bucket for each URL.
--
-- Files, with the code that each models:
-- - Task, Task/Lifecycle: src/asap/state/machine.py, with TaskStatus and Task of src/asap/models.
--   `transition` returns the updated copy or the error; `run` is a sequence of requests.
-- - Circuit/Breaker, Circuit/Admission, Circuit/Tripping: CircuitBreaker of
--   src/asap/transport/circuit_breaker.py. A method is a function on the record, with the clock's
--   reading as an argument. `probe` and `admit` are the two halves of `can_attempt`.
--   Circuit/Registry: CircuitBreakerRegistry, where a breaker is a place in a heap, since clients
--   share the object.
-- - Client/Send, Client/Retries, Client/Probing: `send` of src/asap/transport/client/_send.py. The
--   network is a function from the number of the attempt to what arrives and when; a handler
--   returns the breaker and whether the loop goes on. `handle_retryable` is `_handle_server_error`
--   and `_handle_rate_limited`, which differ in their delays alone.
-- - Replay/Nonces, Replay/Envelopes: src/asap/transport/validators.py, in the order of
--   src/asap/transport/_request_handler.py. Replay/Jti, Replay/Eviction: JtiReplayCache of
--   src/asap/auth/agent_jwt.py.
-- - Approval/Requests, Approval/Decisions, Approval/History, Approval/Outcomes, Approval/Merge,
--   Approval/Flows, Approval/Consent: src/asap/auth/approval.py. `settle` and `resolve` are what
--   `approve` and `deny` share, `start_approval` and `create_fresh` what the two flows share.
-- - Identity/Keys, Identity/Sessions, Identity/Agents, Identity/Hosts, with the proofs in
--   Identity/Revocation, Identity/Rotation, Identity/Index, Identity/Found and Identity/Cascade:
--   src/asap/auth/identity.py.
-- - Snapshots, Snapshots/Latest, Snapshots/Runs, Snapshots/Reads: src/asap/state/stores/memory.py,
--   whose two stores have one body. `without` is the part of `delete` that takes one version out.
-- - Audit/Log, Audit/Bars, Audit/Chain, Audit/Pages: src/asap/economics/audit.py. `verify_from` is
--   the loop of `verify_chain` from a previous hash on.
-- - Auth/Claims, Auth/Slide, Auth/Verify, with the proofs in Auth/Authentic, Auth/Accepted,
--   Auth/Guarantees and Auth/HostTokens: `verify_host_jwt` and `verify_agent_jwt` of
--   src/asap/auth/agent_jwt.py with src/asap/auth/agent_jwt_session.py and the audiences of
--   src/asap/auth/jwks.py. `agent_claims` is what comes before the replay cache and `slide` what
--   comes after it. The agent store as the row is looked up and as it is read again are two
--   arguments, since other requests may run between.
-- - Capability/Constraints, Capability/Registry, Capability/Escalation, with the proofs in
--   Capability/Operators, Capability/Meets, Capability/Soundness, Capability/Granting,
--   Capability/Keeping and Capability/Defaults: src/asap/auth/capabilities.py and
--   `apply_capability_specs_to_registry` of src/asap/transport/agent_routes.py. Json: the values
--   of constraints and claims, with Python's `==`.
-- - Delegation/Storage, Delegation/Tokens, with the proofs in Delegation/Walks,
--   Delegation/Cascade, Delegation/Revoked, Delegation/Live, Delegation/Validity and
--   Delegation/Accepted: src/asap/economics/delegation_storage.py (in memory) and
--   src/asap/economics/delegation.py. `visit` is the body of the cascade's loop, `walk` the loop.
-- - Manifests/Cache, with the proofs in Manifests/Evictions, Manifests/Maps, Manifests/Runs and
--   Manifests/Unlimited: src/asap/transport/cache.py. `with_room` is what `set` leaves before it
--   puts the new entry at the end. `spec_run` is the map with expiry that the cache stands for.
-- - Limits/Bucket, Limits/Rates: WebSocketTokenBucket of src/asap/transport/rate_limit.py and
--   _URLTokenBucket of src/asap/transport/webhook.py. `missing` is `seconds_until_available` times
--   the rate.
-- - Webhooks/Urls, Webhooks/Delivery, Webhooks/Manager, with the proofs in Webhooks/Attempts and
--   Webhooks/Bounds: the rest of src/asap/transport/webhook.py. A `Visit` is what one attempt
--   reads of the clock, the resolver and the network; `retry_loop` is the loop of
--   `deliver_with_retry`.
-- - OAuth/Scopes, OAuth/Keys, OAuth/Bearer, with the proofs in OAuth/Genuine, OAuth/Refetch and
--   OAuth/Passing: src/asap/auth/_scope_parse.py, src/asap/auth/jwks.py,
--   src/asap/auth/middleware.py and src/asap/auth/scopes.py. `check_claims` and `judge` are the
--   parts of `validate_bearer_token` after the token's claims are there.
-- - Routes/Caller, Routes/Lifecycle, Routes/Status, Routes/Registration, Routes/Register, with the
--   proofs in Routes/Owners, Routes/Granted, Routes/Decided, Routes/Licence, Routes/Distinct,
--   Routes/Admitted, Routes/Consented and Routes/Rotating: the status, revoke, rotate-key and
--   register handlers of src/asap/transport/agent_routes.py, with
--   src/asap/transport/_auth_helpers.py. `own_agent` is what the first three begin with; a handler
--   takes the stores as other requests leave them at each await.
-- - Websocket/Acks, with the proofs in Websocket/Rounds, Websocket/Budget and Websocket/Retries:
--   src/asap/transport/ws/_ack.py, with the acknowledgements of src/asap/transport/ws/_recv.py.
--   `due_list` and `expired_list` are the two lists that a round makes, `count_retry` what it does
--   to an object that is still pending after a send, and an `Event` what other tasks do while it
--   awaits.
-- - Prelude: equality of keys as an interface, Python's dict as an association list in insertion
--   order, results that return or raise. Tests: examples of every part.
--
-- Numbers: a time is a count of microseconds, except that a claim and the check of a fresh session
-- hold seconds, and `a - b > c` is written `b + c < a`; the code's floats are taken as exact, and
-- no duration is negative. A number in JSON is an integer here. Python's integers are unbounded,
-- and so are these.
--
-- Loops and fuel: `send_loop` counts down from `max_retries`, as the code's range does. `evict`
-- has the length of the dict as its fuel, and each round removes an entry. `walk` has n * n + 1
-- rounds for n issued tokens: each token is visited once and pushes at most n others. `retry_loop`
-- counts down from `max_retries`, and `wait_loop` runs over the clock readings that it is given,
-- of which two are enough once the wait that the bucket tells has passed. A round of
-- retransmissions runs over what its sendings meet, and still waits where these run out. All other
-- loops run over a list.
--
-- Parameters: SHA-256, the ISO form of a date and the JSON of an entry's details, the digest of a
-- JWK's members (JSON, SHA-256 and base64url), the name that the code reads in a capability spec,
-- the random draw that starts a cleanup, the fresh user code and the network; the parsing of a
-- compact token, the verification of its signature with a key, key sets and their download, the
-- parsing of URLs and addresses, the resolver, HMAC, Python's `str`, `int` and `float`.
--
-- Not modelled: stores over SQLite, the economics of usage, the HTTP rate limiter, WebSocket
-- frames, the other caches, the other routes of the server, cryptography, discovery, MCP, the
-- integrations, the CLI, and the packages in TypeScript. They are I/O, calls of other libraries,
-- or parts that this development does not reach yet. Logs, metrics and traces change no state that
-- the modelled code reads.
mod Prelude
pub mod Task
pub mod Circuit
pub mod Client
pub mod Replay
pub mod Approval
pub mod Identity
pub mod Audit
pub mod Snapshots
pub mod Json
pub mod Capability
pub mod Delegation
pub mod Auth
pub mod Manifests
pub mod Limits
pub mod Webhooks
pub mod OAuth
pub mod Routes
pub mod Websocket
mod Tests
