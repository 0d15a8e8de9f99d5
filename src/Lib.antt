-- ===== src/Lib.antt =====
-- A model of mineru-gateway: a gateway that queues documents for a fleet of MinerU workers, and a
-- scheduler that dispatches the queue, sizes the fleet and stores the results.
--
-- The program's parts and the files that model them:
--   Config      the settings (src/mineru_gateway/config.py)
--   Cloud       states of VMs and of workers (src/mineru_gateway/cloud/types.py)
--   Models      the four tables, and the database `Db` that holds them (src/mineru_gateway/db/models.py)
--   Tasks       statuses, error classes and object keys (src/mineru_gateway/tasks/status.py, errors.py
--               and storage.py)
--   Scaling     the desired number of workers (src/mineru_gateway/scheduler/scaling.py)
--   Workers     `WorkerRepository` (src/mineru_gateway/scheduler/worker_repository.py): its WHERE
--               clauses, reads, writes and admin commands
--   Queue       `TaskRepository` (src/mineru_gateway/scheduler/task_repository.py): the rows, the claim,
--               the dispatch loop and the refresh from the workers
--   Scheduler   `Scheduler` (src/mineru_gateway/scheduler/scheduler.py): the autoscaler, drains,
--               stalled workers, rotations, the reconciliation with the cloud over a provider
--               (src/mineru_gateway/cloud/base.py, errors.py), health checks, the cleanup, and the ticks
--               with their lock (src/mineru_gateway/scheduler/lock.py)
--   Ec2         the provider of EC2 (src/mineru_gateway/cloud/aws/ec2.py)
--   Cache       `CacheService` (src/mineru_gateway/scheduler/cache_service.py)
--   Admission   size limits (src/mineru_gateway/gateway/admission.py, src/mineru_gateway/util/io.py)
--   UploadPaths names of uploads (src/mineru_gateway/util/upload_paths.py)
--   Payload     the payload blob: `_pack_payload` of src/mineru_gateway/gateway/ingest.py and
--               `_rebuild_payload` of the task repository
--   Objects     the object store (src/mineru_gateway/cloud/base.py)
--   Results     the storing of results (src/mineru_gateway/tasks/results.py, and
--               `persist_pending_results` of the task repository)
--   Ingest      the intake of a payload (src/mineru_gateway/gateway/ingest.py)
--   TaskFlow    the polls of a synchronous request and the routes that read tasks
--               (src/mineru_gateway/gateway/task_flow.py, src/mineru_gateway/gateway/api/tasks.py)
--   Ocr         `/v1/ocr` (src/mineru_gateway/gateway/api/ocr.py)
--   Guard       who may use the gateway (src/mineru_gateway/startup_guard.py,
--               src/mineru_gateway/gateway/auth.py and readiness.py)
--   Base        shared names, and tables as lists of rows with the statements sent to them
--   Tests       concrete runs
--
-- The gateway writes tasks and payloads; the scheduler's ticks read and write the same tables. A
-- method is a function on `Db` with the method's name, a leading underscore dropped. A transaction
-- is one such function; the body of a Python loop is a function of its own. The clock is the
-- argument `now`, read once for each operation, and a fresh id is an argument. Times are natural
-- numbers of microseconds since the epoch, so that an age stays a difference of natural numbers.
-- What the object store, the cloud, the workers, SHA-256 and JSON do is a parameter: `Outside`,
-- `ObjectStore`, `StorageProvider`, `ComputeProvider`, `Hashes`, `Ec2` and `HeaderCodec`.
-- Where SQL leaves the order of rows open, the model takes the table's order.
--
-- Code that may raise is an `Action` of Base/Action: a function of the state to an answer or an
-- exception, with the state as it then is.
--
-- Bounds: `submit_claimed_task` runs on fuel. Each round excludes one more worker, so that one round
-- for each worker and one more are enough; `dispatch_queued_tasks` gives that much. Its own loop is
-- bounded by `max_per_tick` in the code, and the polls of a synchronous request by their number. All
-- other loops run over lists.
--
-- Not modelled: HTTP, the calls of boto3, the paths of temporary files, the pages that are read from
-- a result, SQLAlchemy's sessions, logging, metrics and the reasons of scaling events with numbers in
-- them. The refresh of tasks and the storing of results, which run several at a time on different rows,
-- are one after another, and the two loops of the scheduler are not interleaved.
pub mod Base
pub mod Config
pub mod Cloud
pub mod Tasks
pub mod Models
pub mod Scaling
pub mod Workers
pub mod Admission
pub mod UploadPaths
pub mod Payload
pub mod Queue
pub mod Scheduler
pub mod Cache
pub mod Objects
pub mod Results
pub mod TaskFlow
pub mod Ingest
pub mod Ec2
pub mod Guard
pub mod Ocr
pub mod Tests
