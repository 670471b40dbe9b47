-- ===== src/Lib.antt =====
-- The muthur collector: a service that takes AlertManager webhooks inside a cluster, enriches each alert
-- with logs, metrics, metadata and events, redacts what is free text, and forwards the result.
--
-- The path of an alert, and the file that models each part:
--   Webhook (internal/webhook/handler.go): ServeHTTP is `serve_http`; the semaphore is the record
--     `Gate`, the select of its loop `offer`. Webhook/Storm runs several requests and workers as a
--     step relation on a `System`.
--   Pipeline (internal/pipeline/pipeline.go): ProcessAlert is `process_alert`, one function per stage.
--     A step (Metrics/Step) returns `none` where the code panics and threads the counters of Metrics
--     (internal/metrics/metrics.go); the loops that redact lists are in Redact/Messages.
--   Resolver (internal/resolver/resolver.go): Resolve is `resolve`, limitPods `limit_pods`.
--   K8s (internal/k8s): K8s/Lookup has the searches for pods (lookup.go), K8s/Meta has PodMeta (meta.go),
--     K8s/Events has FetchEvents (events.go). The clientset is the record `Clientset`.
--   Loki (internal/loki/client.go): FetchLogs is `fetch_logs`, fetchPodLogs `fetch_pod_logs`.
--   Prometheus (internal/prometheus/client.go): FetchMetrics is `fetch_metrics`, queryRange
--     `query_range`; Prometheus/Queries has the tables of queries.
--   Redact (internal/redact): Redact is `redact`, whose loop is `redact_loop` and whose loop body is
--     `redact_round`; RedactString is `redact_string`; Redact/Patterns has patterns.go and rules.go.
--     Redact/Spec says the same one line at a time, with no state.
--   Forwarder (internal/forwarder/forwarder.go): Forward is `forward`, its loop `attempt_loop`; Errors
--     has HTTPError of internal/auth/signedclient.go. Proto has the messages of proto/alert.pb.go.
--     Forwarder/Dial has the constructors, and Forwarder/Signed the sends over Auth/SignedClient, which
--     share a reloader and a client; Pipeline/Egress follows one alert down to its requests.
--   Config (internal/config/config.go): Load is `load`, its literal `read_config`, its checks `validate`.
--   Auth/Reloader (internal/auth/reloader.go) is the certificate cache that the signed transport asks
--     before each send, Auth/KeyPair (internal/auth/keypair.go) writes the files that it reads, state by
--     state, Auth/KeyPair/Csr has GenerateCSR, and Auth/Replay has StripScheme and
--     FreshNonce of internal/auth/replay.go.
--   Auth/SignedClient (internal/auth/signedclient.go): call is `call`, once `once`. Its data stand in
--     Auth/Transport, where the record `Attempt` is what one attempt meets outside; the cache of the
--     brain's keys in Auth/VendorKeys, where activeKey is `active_key` and fetchKeysLocked `fetch_keys`.
--     Auth/SignedClient/Endpoints has the constructor and Bootstrap, Renew and Ingest, and
--     Auth/SignedClient/Workers runs calls of several goroutines as a step relation: the mutex guards
--     activeKey, and each worker stands at a place `Pc` of its call.
--   Auth/HttpSig (internal/auth/httpsig.go): SignRequest is `sign_request`, VerifyRequest
--     `verify_request`; Auth/SignatureBase has the headers and the text that is signed,
--     `signature_base`.
--   Auth/Sealed (internal/auth/sealed.go): SealRequest is `seal_request`, OpenRequest `open_request`,
--     Seal and Open of a response `seal_response` and `open_response`; Auth/Sealed/Keys has the key
--     sets, and Auth/Sealed/Payload the signatures on payloads. The client seals and signs with these,
--     and the brain opens and verifies with them.
--   Auth/Flows (internal/auth/flows.go): the two runs are `run_bootstrap` and `run_renew`, over the
--     interface Auth/Persister, which Auth/SecretStore (internal/auth/secret_store.go) implements,
--     and Auth/FilePersister over the files of Auth/KeyPair.
--     Auth/BrainClient (internal/auth/client.go) is the gRPC client that the flows may use.
--   Main (cmd/collector/main.go): `dispatch`, `new_persister` and the commands `main_bootstrap` and
--     `main_renew`, which Main/Commands runs from the environment on as `bootstrap_command` and
--     `renew_command`. Main/Serve has runServer as `run_server`, from the record `Services` of what its
--     constructors call to the `Server` that is about to listen; K8s/Client, `new_loki_client`,
--     `new_prometheus_client` and `new_pipeline` are constructors that it uses. Main/Serve/Alerts lets
--     such a server process alerts one after another, those that the webhook gave workers to.
-- Prelude holds the shared names: texts as lists of bytes, tests, association lists, results, signed
-- integers and the quoting of %q. Examples holds concrete runs.
--
-- Bounds: every loop is a structural recursion over the list that the code ranges over, but for the
-- retry loop, which counts down its three rounds as the code counts up, and the parser of a PEM file,
-- whose rounds are bounded by the length of the file, since each block takes some of it. Counters and
-- lengths are not bounded; the three counts of the payload wrap at 32 bits as int32 does, and the time
-- that is read from a signature is one of 64 bits. Other signed integers of the source are unbounded
-- here, and a map that is ranged over is a list, in any order.
--
-- Parameters: the regular expression engine, HTTP, JSON and floating point, the clientset of Kubernetes,
-- sort.Slice, the transport, clock, nonces and cancellation seen by the forwarder, the environment and
-- its parsers, what the disk answers to the reloader, HPKE, AES-GCM, SHA-256, base64, ECDSA, PEM, X.509
-- and protocol buffers, and what the API server of Kubernetes refuses.
--
-- Not modelled: logging, the latency histograms, what TLS and gRPC do on the wire, timeouts, the HTTP
-- routes of cmd/collector and the generated code of proto. Main/Serve/Alerts takes the workers of a
-- request in some order, one at a time; what several workers do with the shared client is
-- Auth/SignedClient/Workers, and what several requests do with the semaphore Webhook/Storm. The quoting
-- of %q is exact on ASCII text; other bytes stand for themselves.
pub mod Prelude
pub mod Metrics
pub mod Redact
pub mod Proto
pub mod K8s
pub mod Resolver
pub mod Errors
pub mod Loki
pub mod Prometheus
pub mod Forwarder
pub mod Webhook
pub mod Pipeline
pub mod Config
pub mod Auth
pub mod Main
pub mod Examples
