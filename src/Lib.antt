-- ===== src/Lib.antt =====
-- SchemaPilot: the governance core of the backend, and the state that its services share.
--
-- The control plane keeps the tables of a workspace. Its services are called by HTTP handlers, each
-- within one database transaction (`get_session` in backend/control_plane/app.py): policy packs,
-- semantic manifests, retention, deletion requests, freshness limits, the catalog, reviews and the gate
-- of the gold publication. They write evidence bundles, which nothing may change afterwards. The
-- gateway decides who asks and what may be asked, binds a metric to SQL through the manifest in
-- force, masks values, limits requests and caches answers. Workers take the queued runs to their end,
-- check quality contracts, merge entities and detect schema drift, and the audit outbox delivers what
-- the services recorded.
--
-- The files, and the code that they model:
--   Base            what the models use of Python: lists, dictionaries, sorting, texts, and tables
--                   with a primary key (`get_row` is `session.get`, `put_row` a write to a row,
--                   `find` a query with `.first()`)
--   Errors          backend/shared_domain/errors.py, and the calls that may raise
--   Policies        the rows of `governance_policies` (backend/shared_domain/metadata_models.py)
--   Review          backend/control_plane/review_repository.py
--   Gating          backend/control_plane/gating.py, `evaluate_gold_publish_gate`
--   Evidence        backend/shared_domain/evidence_store.py
--   PolicyPack      backend/control_plane/policy_pack_service.py and
--                   backend/shared_domain/policy_pack_tests.py
--   Purge           backend/shared_domain/purge.py
--   Retention       backend/control_plane/retention.py
--   Deletion        backend/control_plane/deletion.py
--   RateLimit       backend/shared_domain/rate_limit.py
--   QueryCache      backend/gateway/query_cache.py
--   Access          backend/gateway/policy.py and backend/gateway/abac.py
--   GoldPointer     backend/shared_domain/gold_pointer.py
--   AuditOutbox     backend/shared_domain/audit_outbox.py
--   Scheduling      backend/shared_domain/scheduling.py
--   Drift           backend/workers/drift.py
--   Contracts       backend/workers/contracts.py
--   Runs            the choice of the next run and the step rows of
--                   backend/workers/run_processor.py
--   Processing      the states of a run and the tick: backend/workers/run_processor.py and
--                   backend/workers/service.py
--   Semantic        backend/shared_domain/semantic.py, the validation of a manifest
--   Manifests       backend/control_plane/semantic_manifest_service.py
--   Binding         backend/gateway/semantic_binding.py
--   Sql             the query guards of backend/gateway/executor.py
--   Auth            backend/shared_domain/auth.py
--   Settings        the startup guards of backend/shared_domain/config.py
--   Secrets         backend/shared_domain/artifact_crypto.py and
--                   backend/shared_domain/secrets_store.py
--   Catalog         backend/control_plane/repository.py
--   SourceHealth    backend/control_plane/source_health.py
--   Entities        backend/workers/entity_resolution.py and
--                   backend/workers/entity_resolution_v2.py
--   Examples        concrete runs
-- Operations keep the names of the functions. A table is a list of rows in the order of insertion, and
-- a query without an order reads it so; that a primary key is unique is the hypothesis `IsKeyed`.
--
-- The state of a service is a record of its tables, and a call maps it to a result and a new state.
-- What was written before a raise stays in that state: the transaction undoes it. New identifiers,
-- the time, SHA-256, HMAC signatures, UTF-8, base64, the parser of JSON, Python's `repr`, the
-- network, the encryption of payloads in an evidence bundle, the sink of the audit events, the
-- similarity of two records, what a run type does, Python's digits and the bundled packs are
-- arguments. JSON values are the data type of Base.Json, where a number is its text. JSON reads back
-- what the same module printed; a key that is missing is identified with the default that the code
-- reads for it. Times are whole seconds, and microseconds in Purge, QueryCache and Auth. A
-- confidence is in ten-thousandths. `lower` is exact on ASCII; its results are compared with ASCII
-- words, or, in the evidence store, name a bundle of a type that the callers give in ASCII. All loops are structural recursion, so no fuel is needed.
--
-- Not modelled: HTTP handlers, reading the configuration, the remote vault, connectors and external
-- engines, what runs do between their steps, the semantic builder, monitoring, directories on disk, and
-- files that the modelled code did not write.
pub mod Base
pub mod Errors
pub mod Review
pub mod Gating
pub mod Evidence
pub mod Policies
pub mod PolicyPack
pub mod Purge
pub mod Retention
pub mod Deletion
pub mod RateLimit
pub mod QueryCache
pub mod Scheduling
pub mod Catalog
pub mod Sql
pub mod Secrets
pub mod Entities
pub mod Binding
pub mod Processing
pub mod SourceHealth
pub mod Settings
pub mod Auth
pub mod Semantic
pub mod Manifests
pub mod Access
pub mod Drift
pub mod Contracts
pub mod Runs
pub mod AuditOutbox
pub mod GoldPointer
pub mod Examples
