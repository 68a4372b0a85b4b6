-- ===== src/Lib.antt =====
-- Verification library of the CloudZero agent (paths are from the repository's root).
--
-- The collector (app/domain/metric_collector.go) takes remote-write requests of Prometheus. It parses
-- the content type, decodes the request into metrics (app/types/metric.go), lets a transformer
-- rewrite GPU metrics (app/domain/transform), sorts the metrics into cost and observability metrics
-- (app/domain/metric_filter.go over app/domain/filter), and puts each kind into a disk store
-- (app/storage/disk/disk.go), which writes rows to an active file and renames it when it is full.
--
-- The shipper (app/domain/shipper) takes the lock file (app/utils/lock), lists the finished files of the
-- stores, asks for a URL for each, uploads them with a pool of workers (app/utils/parallel) and moves
-- them away; its disk manager removes old ones. The admission webhook (app/domain/webhook) stores a
-- record of each Kubernetes object (app/storage/repo), the pusher (app/domain/pusher) sends the records
-- that were not sent and marks them, and the housekeeper (app/domain/housekeeper) deletes old ones.
--
-- Base          Boolean tests on the native ℕ, Go's strings and maps, results. A Go map is a list of
--               pairs without a repeated key (`IsMap`); what is iterated in map order is iterated in
--               the order of the list.
-- Filter        `NewFilterChecker` is `new_filter_checker`, `Test` is `test`; regular expressions are
--               two functions, given as parameters.
-- Metric        `ImportLabels`, `FullLabels`, `Metric.Parquet` is `parquet`, `ParquetMetric.Metric` is
--               `metric`; the packages time and encoding/json are the record `Codec`.
-- Dcgm          `Transform` is `transform`; its buffer and the number of IDs drawn are the state. The
--               operations on float64 and the IDs are the record `Numbers`.
-- Collector     `parseProtoMsg`, `DecodeV1`, `DecodeV2`, `Filter` and `PutMetrics`. The state is the
--               two stores, the transformer and the flag of the first flush; snappy, protobuf and the
--               message types are the record `Wire`, the stores the interface `Store`. A panic is an
--               error value of its own.
-- DiskStore     `NewDiskStore`, `Put`, `Flush` and the rotation. What may fail in the operating system
--               is the record `Env`, a stream of outcomes; each public method holds the store's mutex,
--               so that a history is a list of calls, the flushes of the ticker among them.
-- ErrorRate     `Record`, `Healthy` and `HealthyWithinCooldown` (app/http/middleware/errorrate.go), which
--               the probes of the collector ask. Each reading of the clock is an argument.
-- Shipper       `DiskManager` (app/domain/shipper/disk.go), which removes uploaded files when the disk
--               fills up, over the directory as a list of files; the host is the record `Host`. `Chunk`
--               (app/domain/shipper/utils.go) has the length of the list as its fuel, which is enough
--               since each round takes at least one element. `ProcessFiles` is `process_files`,
--               `HandleRequest` is `handle_request` (shipper.go, upload.go, allocate_url.go): the
--               state is the list of paths below the base directory with what was uploaded and
--               abandoned; the server and the file system are the record `Env`.
-- Parallel      `Manager` and `Waiter` (app/utils/parallel/parallel.go), on which the shipper uploads:
--               the goroutines' steps are moves on a pool, an interleaving is a list of moves.
-- Runnable      `Run`, `Shutdown` and `reset` (app/domain/pusher/pusher.go), which the housekeeper and the
--               secret monitor (app/domain/housekeeper, app/domain/monitor) write in the same way: a
--               service is its flags, its channel and its goroutines, a history a list of events.
--               One tick of the housekeeper is `purge`.
-- Pusher        Records of Kubernetes objects. `FormatMetrics` is `format_metrics`, `PushMetrics` is
--               `push_metrics` (app/domain/pusher/sender.go), `Flush` is `flush` (pusher.go), and
--               Stream is the store of the backfill (app/storage/streaming/store.go). The server is a
--               function from the number of a request to its status; the state is the traffic with it.
-- Tls           The reconciler (app/domain/monitor/tls_monitor.go): `TLSConfig` is `tls_config`,
--               `certificates` has its name and answers `none` where the caller would wait.
-- Lock          The lock file (app/utils/lock/filelock.go), which two shippers contend for: each
--               process has a phase, a move is one call of the operating system.
-- Webhook       What the admission webhook keeps of an object: `Filter` (app/config/webhook/filters.go),
--               the formatters and the handler (app/domain/webhook/handler), and the repository
--               (app/storage/repo) as a list of rows, which the pusher reads and marks. Review, Hook,
--               Controller and Serve are the way of a review from the body of a request to a handler
--               (app/types/review.go, app/domain/webhook/hook/hook.go, app/domain/webhook/webhook.go,
--               app/handlers/webhook.go): `PostAdmissionRequest` is `post_admission_request`, `Review`
--               is `review`, `Execute` is `execute`, `NewWebhookFactory` is `new_webhook_factory`.
--               Backfiller is the walk over the cluster (app/domain/webhook/backfiller): `Start` is
--               `start`, on fuel, one unit for each answer of the server; the fuel must exceed the
--               number of further pages of each list and of the refused lists of nodes.
-- Diagnostics   The runner of the validator (app/domain/diagnostic/runner/runner.go): `NewRunner` is
--               `new_runner`, `Run` is `run` with a schedule of the goroutines' writes; the catalog
--               (app/domain/diagnostic/catalog/catalog.go) is a list of providers by name, and
--               `Diagnostics.Validate` (app/config/validator/diagnostics.go) is `validate`.
-- Config        `Validate` (app/config/gator/settings.go) is `validate_settings`, `DetectConfiguration`
--               (app/utils/scout/detect_configuration.go) is `detect_configuration`.
-- Tests         Runs on concrete inputs.
--
-- The loops but `Chunk` and those over pages are structural recursion. Row and sample counters are
-- natural numbers: a Go int holds 2^63 - 1 of them. Times are natural numbers in the unit
-- that the code counts them in, those of metrics in nanoseconds.
--
-- Not modelled: logging and Prometheus counters, since they change no result; the protobuf, snappy,
-- Brotli, regexp, uuid and JSON packages, the client of Kubernetes and the single diagnostic checks,
-- which are parameters; the races between concurrent callers of the TLS reconciler
-- and between concurrent requests to the collector.
pub mod Base
pub mod Filter
pub mod Metric
pub mod Dcgm
pub mod Collector
pub mod DiskStore
pub mod ErrorRate
pub mod Shipper
pub mod Parallel
pub mod Runnable
pub mod Pusher
pub mod Tls
pub mod Lock
pub mod Webhook
pub mod Config
pub mod Diagnostics
pub mod Tests
