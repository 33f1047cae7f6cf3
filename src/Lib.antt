-- ===== src/Lib.antt =====
-- Verification of the core of Atlas SQL, a service that answers questions about sales in SQL.
--
-- The parts, and how they interact. The semantic layer (server/semantic) keeps the metrics: a metric
-- goes through a life cycle of statuses, its published versions are snapshots, and a registry in
-- memory is loaded from the active ones. A question (server/domain/query.py) is submitted to the
-- orchestrator (server/orchestrator/query.py), which decides on its scope with the registry
-- (server/domain/sales_scope.py), stores the state of the request in a repository
-- (server/query/repository.py) and calls the pipeline that writes and runs the SQL. The linking layer
-- (server/linking) completes a selection of tables by the joins between them. The business data that is
-- queried (datasets) is declared as a catalog, from which its schema is rendered and migrated.
--
-- Files and sources.
--   Common: the names that the files share; Common/Rows is what a session of the ORM does with the
--     rows of a table, Common/Dict is a Python dict, Common/Sort is sorted(), Common/Text is str.
--   Semantic/Models: server/semantic/models.py, one record for each table; Db is the session.
--   Semantic/Lifecycle: MetricLifecycleService of server/semantic/lifecycle.py. transition, publish,
--     rollback, deprecate and the helpers have the names of the methods; an exception is `err`.
--     Lifecycle/Steps has the service as a machine, with one committed or refused call at a time.
--   Semantic/Versions: get_version_diff and list_versions of the same class.
--   Semantic/Registry: SemanticRegistry, _entry_from_snapshot, _entry_from_orm of
--     server/semantic/registry.py.
--   Semantic/VerifiedQueries: VerifiedQueryValidator and VerifiedQueryRepository of
--     server/semantic/verified_queries.py. The SQL parser is an argument.
--   Query/Types: server/domain/query.py, QueryContext and QueryOutcome of
--     server/orchestrator/query.py, QueryState of server/query/repository.py.
--   Query/Scope: server/domain/sales_scope.py.
--   Query/Repository: the protocol QueryRepository as a record of operations with its laws, and
--     InMemoryQueryRepository, which keeps them. Query/Repository/Sql is SQLAlchemyQueryRepository over
--     the rows of QueryRecord (server/query/models.py).
--   Query/Orchestrator: QueryOrchestrator.submit and .get, and response_from_state. The pipeline and
--     the repository are arguments; a pipeline that raises returns none.
--   Query/Generation: parse_sql_payload and BaselineSQLGenerationPipeline of
--     server/generation/sql.py. The gateway, the decoder of JSON and the prompt are arguments; the
--     loop over the attempts is recursion on the retries that are left.
--   Query/Pipeline: SafeQueryPipeline of server/orchestrator/pipeline.py. The generator, the validator
--     and the executor are arguments.
--   Query/SqlTree: what the validator reads of the trees of SQLGlot. Query/Validation: SQLValidator of
--     server/validation/sql.py, with the methods' names; the parser and str.upper are arguments.
--     Query/Pipeline/Guarded has the generator, the validator and the pipeline together.
--   Query/Context: SemanticContextBuilder of server/generation/context.py; Query/Context/Rendering:
--     what goes into the prompt. The patterns that it searches comments for are arguments.
--   Query/Execution: AsyncpgReadOnlyExecutor.execute of server/execution/postgres.py over a driver that
--     is an argument, and ResultSummaryBuilder of server/generation/answer.py.
--   Linking/Relations, Linking/JoinGraph, Linking/Completion: server/linking/join_graph.py.
--   Search/Candidates, Search/Fusion, Search/Hybrid: server/search/repository.py, fusion.py and
--     hybrid.py. The type of the scores and the two searches are arguments.
--   Datasets/Schema, Datasets/Tables, Datasets/Catalog: datasets/schema/catalog.py, the types, TABLES by
--     domain, and validate_catalog. Datasets/Ddl and Datasets/Migrations: render_schema_sql and
--     apply_migrations of datasets/migrations.py, Datasets/Roles: its statements for the reader role; the
--     hash, and whether a script or a statement succeeds, are arguments.
--   Routing: _parse_time_range and its helpers of server/domain/router.py, with the classes of
--     server/domain/intent.py. The value of a decimal digit is an argument; Routing/Calendar is
--     datetime.date as far as it is used, and a date is moved by n days one day at a time.
--
-- Numbers and bounds. The loop that drops examples of a context has their number as fuel, and each
-- turn drops one. Times, uuids and durations are numbers or texts that are compared and copied
-- only. The loop of find_paths is recursion on fuel. An item whose path may still grow by n tables
-- causes at most 1 + d * (the same for n - 1) turns, where d is the number of edges of the graph; the
-- fuel is that number for the first item, and it empties the queue on every graph.
--
-- What is not modelled. The log lines; the texts of warnings, which are data here; the YAML imports of
-- the registry; build_graph_from_foreign_keys; the near duplicates of verified queries; the scores of
-- the domains and the mentions of a question; the connection pool; the prompts; the search services
-- themselves; the HTTP handlers, the tasks, the migrations and the front ends. Of database constraints
-- only the unique trace id of a query record is relied on: a select of one row takes the first that
-- matches.
pub mod Common
pub mod Semantic
pub mod Query
pub mod Linking
pub mod Datasets
pub mod Routing
pub mod Search
