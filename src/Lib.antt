-- ===== src/Lib.antt =====
-- lacme: an ACME client and server library, and its verification.
--
-- The program. lacme/acme_server.py is an ACME responder: an ASGI application that keeps accounts,
-- orders, authorizations and certificates in dictionaries, reads flattened JWS requests
-- (lacme/_jose.py), checks certificate identifiers and binds CSRs to orders (lacme/_identifiers.py),
-- and has its certificates signed by a certificate authority. Client and responder share the
-- identifier rules and the base64url codec (lacme/crypto.py). The client (lacme/client.py) sends
-- signed requests with nonces of the server, reads problem documents (lacme/errors.py), and asks the rate
-- limiter (lacme/ratelimit.py) before it issues and tells it afterwards. To issue, it provisions challenges
-- with handlers (lacme/challenges), stores the certificate (lacme/store.py) and emits events
-- (lacme/events.py), which lacme/metrics.py counts; lacme/renewal.py issues again what is due in
-- a store, and lacme/testing.py is a mock server for tests.
--
-- The files.
--   Prelude: what all modules share. Texts are lists of code points and byte strings lists of bytes
--     (`Str`); most exceptions are the `raise` of `Result`, by class and without their message; `Dict` is
--     a dict in insertion order.
--   Base64: `b64url_encode` of lacme/crypto.py and `b64url_decode_strict` of lacme/_jose.py, with the
--     standard library's base64 written out.
--   Json, Jose: JSON values, and `parse_unverified_jws` of lacme/_jose.py.
--   Identifiers: lacme/_identifiers.py. Platform and X509 hold what it uses of ipaddress, idna and
--     cryptography.x509, as parameters; Dns is `validate_dns_identifier`, Values the typed values, their
--     wire forms and keys, Csr the projections from CSRs and certificates with
--     `decode_and_validate_csr`, and Bundle `certificate_bundle_identifier_values`.
--   Responder: lacme/acme_server.py. State is the state of `ACMEResponder` with `Config`, its
--     constructor's arguments; Request reads the body, the base URL and the route; Accounts, Orders and
--     Challenges are the route handlers, Replies what they send, Serve `__call__`. Steps is the
--     state machine that the handlers implement, with its invariants below it; Runs follows
--     sequences of requests, and Registered, Placed and Bodies are about single handlers.
--   RateLimit: lacme/ratelimit.py. Domains is the registered-domain rule, Sorted the sets that the tracker
--     walks in order, Store the store protocol with its laws and the two stores, Tracker the
--     tracker, Enforced its two calls in `Client.issue` of lacme/client.py.
--   Errors: lacme/errors.py, the class of a problem document.
--   Client: lacme/client.py. Network is what the client sees of HTTP, as an arbitrary list of replies and
--     a log; Requests is the nonce pool, `_signed_request` and `_check_response`; Nonces and Retries
--     are about them; Polling is the three polling loops, on the rounds that they meet.
--   Issuing: `Client.issue` of lacme/client.py. Monad is a step that may raise, with the list
--     `provisioned` and the history of what `provision` was called with; Calls the requests, handlers, keys,
--     store, tracker and dispatcher that `issue` calls, as an interface whose members change the world as
--     they like; Effective the choice of challenge type and handler for each identifier; Issue the flow. Triples, Routes and Keeps carry the
--     proofs of Cleanup, and Checked is about the bundle and the rate limit.
--   Store: lacme/store.py, with `CertBundle` and `CertMeta` of lacme/_types.py. Platform holds what it
--     uses of pathlib, json, datetime and cryptography, as parameters; Names is the file naming, with
--     SHA-256 a parameter; Bundle the JSON of the metadata; FileStore the files and
--     directories; Interface the protocol and `MemoryStore`; Operations the methods of
--     `FileStore`, whose writes and removals may raise. Paths, Contents, Sessions, Agrees and Refines
--     compare the two stores; Partial and Faults are about calls that raise or end early, Modes about
--     file modes and Listed about the listing.
--   Mock: lacme/testing.py, the mock server of the test suite: State, a file for each group of
--     handlers, Serve the routing; the files below View compare it with Responder.
--   Challenges: the handlers of lacme/challenges/http01.py and lacme/challenges/dns01.py; the DNS provider
--     and the digest are parameters.
--   Events, Metrics: `EventDispatcher` of lacme/events.py and the counters of lacme/metrics.py.
--   Renewal: `RenewalManager.check_and_renew` of lacme/renewal.py, over the stores of Store, with the
--     client of Issuing, which has no store or another one.
--   Tests: a concrete world, runs in it, and the theorems at concrete inputs.
--
-- Bounds and fuel. Numbers are unbounded, as Python's are. All loops of the source are structural
-- recursion on their list, so no result depends on fuel, except for `decimal`, whose fuel is the
-- number itself plus one, at least as many as its digits. The retries of a signed request are bounded
-- by `_MAX_BAD_NONCE_RETRIES`, as in the source. Times are numbers of microseconds in
-- RateLimit and Renewal and of milliseconds in Polling and Dns01, where the rounds that a loop meets
-- are an arbitrary list; how many suffice for an end is a theorem.
--
-- Concurrency. A handler awaits nothing between its reads and its writes but the challenge validator,
-- after which it writes the two status fields of an authorization that is never removed. A
-- request is therefore one transition, and interleaved requests are sequences of transitions.
--
-- The client's `issue` is one sequence of calls, each of which may raise; a task that is cancelled
-- between them is not modelled. A write of a file is atomic, as `os.replace` is, and a save that ends
-- early, or that raises the error of a write, ends between two writes; a removal of a directory may raise
-- after any of its files. The lock of the dispatcher makes each of its operations one step.
--
-- Not modelled: the messages of exceptions and the `detail` of problem documents; HTTP headers other
-- than Replay-Nonce, Location and the choice of JSON or problem JSON; `_normalize_external_url` (the
-- external URL is taken as normalized); the JSON file of the rate limiter's store; symbolic links and
-- foreign files inside the certificate store; the rest of the client (account creation, revocation and
-- key change); a renewal manager that signs with a certificate authority or shares its store with the
-- client, the loop of `RenewalManager.run` and its task; errors of the file system other than those of
-- the writes and removals of certificates' files; exceptions of a CSR's extensions other than a missing
-- one; log records; the sockets of the HTTP-01
-- server; the DNS providers, the certificate authority, mTLS, the synchronous wrapper and the command line.
pub mod Prelude
pub mod Base64
pub mod Json
pub mod Jose
pub mod Identifiers
pub mod Responder
pub mod RateLimit
pub mod Errors
pub mod Client
pub mod Store
pub mod Mock
pub mod Issuing
pub mod Challenges
pub mod Events
pub mod Metrics
pub mod Renewal
pub mod Tests
