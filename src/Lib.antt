-- ===== src/Lib.antt =====
-- Oecophylla, a social reading platform: the Python core that turns engagement events into training
-- labels and into the preference vectors that rank the feed.
--
-- Events come from Kafka. The feature worker buffers them, applies them to a user's vectors in one
-- transaction with a receipt per event, and commits its position once a whole batch is applied. The
-- label module reads the same event types and decides what a user's behaviour on a post means.
--
-- Which file models which part:
-- - Label and its children: recommendation_label/__init__.py. Label has the data model, the event
--   mapping and the fields; Label/Accept the duplicates and the order; Label/Judge the replay, the
--   precedence and `derive_label`; the other children prove.
-- - Batch: workers/common/oecophylla_worker_common/kafka.py, `MicroBatchBuffer`.
-- - Preference and its children: workers/feature_store_worker/app/features.py. Preference has the
--   events, the deltas, the decay and the blend; Preference/Replay `build_preference_vector_v2`.
-- - Recent: workers/feature_store_worker/app/recent_topics.py, `ranked_view_topics`.
-- - Worker and its children: workers/feature_store_worker/app/main.py. Worker/Envelope has the reading
--   of envelopes, Worker/Claim the receipts, Worker/Store the tables, Worker/Apply `_apply_for_user`,
--   Worker/Flush `_flush` and `_update_trending` over any `Applier`, Worker/Calls the applier that the
--   worker has, Worker/Loop a turn of `run`, Worker/Interrupt `_flush` cancelled behind `drain`,
--   Worker/Cancel the states that `run` reaches, Worker/Rebuild the rebuild of one user and the
--   cache's commands, Worker/Backfill `_backfill_v2`; the other children prove.
-- - Release and its children: ai_pipeline/release_gate.py, the gate that approves a trained model.
-- - Ranking and its child: recommendation_api/app/ranking.py, the scores and the rerank of a feed.
-- - Dataset and its children: ai_pipeline/build_dataset.py with the records of schemas.py and config.py.
--   Dataset/Rows and Dataset/Records have the data, Dataset/Split `_split_rows`, `_split_ranking_rows` and
--   `_snap_split_boundary`, Dataset/Checks the checks, Dataset/Row a row, Dataset/Samples
--   `build_samples`, which calls Label's `derive_label`, Dataset/History `build_history_snapshot`; the
--   other children prove.
-- - Evaluation and its children: recommendation_api/app/evaluate.py and metrics.py. Evaluation/Metrics has
--   the metrics, Evaluation/Split `build_temporal_split`; the other children prove.
-- - Paging and its children: workers/feature_store_worker/app/rebuild_v2.py, `replay_user` and `replay_all`.
-- - Common: lists, dicts, values, results and orders that the parts share.
--
-- How the code is modelled. A mapping of the program is a `Fields`, a dict an association list in
-- insertion order, an exception a value of `Outcome`, a datetime a number of microseconds. A float
-- is an element of `Arith`, an abstract type with the operations that the code calls; a theorem
-- names the laws it needs. The text of a value, the parsing of a UUID or a timestamp, JSON and
-- asyncpg's encoding are fields of `Runtime`, `Library` and `Config`. The clock, failures of the
-- database and of Redis, and writes of other services are arguments. Every loop is a structural
-- recursion, but `snap_up`, which runs for as many turns as there are groups behind the boundary: at
-- the last group it has stopped, and the pages of `replay_all` and the batches of `_backfill_v2`,
-- for which one turn more than users is enough. No datetime is near the largest, where adding the
-- label window would raise.
--
-- Not modelled: the periodic refresh, a second cancellation of a cancelled run, the receipt's columns
-- beside its id, the start and stop of the worker, the metrics' server; the second schema's data sets and the writers of artifacts; the
-- evaluation's summary of a run; the training and serving of neural models; the Rust services, the
-- frontend, the SQL migrations and the deployment.
pub mod Common
pub mod Label
pub mod Batch
pub mod Preference
pub mod Worker
pub mod Recent
pub mod Release
pub mod Ranking
pub mod Dataset
pub mod Evaluation
pub mod Paging
