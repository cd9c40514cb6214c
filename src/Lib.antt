-- ===== src/Lib.antt =====
-- Verification of the query engine: natural language and SQL queries over customer data, with a
-- vector store, a SQL engine, a language model and a cache.
--
-- The engines. Engines/Cache models the semantic cache of src/engines/cache.rs: `get_exact`,
-- `get_similar` and `insert` are steps on the record `SemanticCache`, with the clock as an
-- argument and the poisoned lock as a flag; Engines/Cache/History runs any list of calls.
-- Engines/RankFusion is `fuse_ranked_candidates` of src/engines/rank_fusion.rs over any order of
-- the map's iterator, Engines/Rerank the selection by scores of src/engines/rerank.rs over any
-- scorer. Engines/AstGuard is `validate_sql_is_safe` of src/engines/ast_guard.rs over any
-- parser, and Engines/Sql uses it in `execute_sql_query` of src/engines/sql.rs over any engine,
-- which `init_datafusion` starts. Engines/Embeddings holds the buffer, the normalisation and the
-- batches of src/engines/embeddings.rs over any model, and Engines/Vector the searches of
-- src/engines/vector.rs over any store, Engines/Vector/Semantic those for a text.
-- Engines/Inference is what both neural models do with their tensors, with `score_pairs` and
-- `rerank` of src/engines/rerank.rs, over any tensors, tokenizer and forward pass; its children
-- take the documented shapes of the tensors as laws. Engines/Loading is `download_file`,
-- `load_model` and `load_cross_encoder` over any disk and network.
--
-- The pipelines. Pipelines/Types holds the records of src/common/types.rs. Pipelines/Firewall is
-- src/pipelines/query/firewall.rs over any JSON parser, Pipelines/Ollama `prompt_model` of
-- src/pipelines/query/ollama.rs over any HTTP client, and Pipelines/Ollama/Setup the
-- construction of that client and its probe. Pipelines/Ingest is src/pipelines/ingest with the
-- writing functions of src/engines/vector.rs: `process_current_batch` drops the known rows,
-- embeds and stores the others; Pipelines/Ingest/Csv reads the rows in batches and is
-- `execute_ingestion`. Pipelines/Ingest/Contents states the documented behaviour of the store as
-- laws on what is stored under each key, and Pipelines/Ingest/Importing compares an import with
-- them, batch by batch as in Pipelines/Ingest/Writing, Pipelines/Ingest/Reimport a second one
-- with the first. Pipelines/Prompts holds the texts of src/pipelines/query/prompts.rs.
-- Pipelines/Query is `run_semantic_pipeline` of src/pipelines/query/mod.rs, which puts the
-- cache, the model client, the search, the re-ranking and the firewall together, cut into one
-- function per decision; what it calls outside the repository is the record `Services`.
-- Pipelines/Query/Setup is `AppState` with its constructor and setters; Pipelines/Query/Repeat
-- follows a question that is asked twice, with what Pipelines/Query/Remembering says of one run,
-- Pipelines/Query/Offline one without the language model, whose response
-- Pipelines/Query/Degraded reads field by field. Pipelines/Query/Concurrent is the same pipeline
-- as the server runs it: a request is the point its future is at with its locals, and advances
-- by one call of the cache, one pause or one HTTP request at a time; its children say what holds
-- of a step. Pipelines/Query/Router is the dispatch of a question to SQL or to that pipeline, of
-- mod.rs, router.rs and intent.rs. Its child Agreement compares the two dispatchers.
-- Pipelines/Query/Serving puts the requests of the semantic, the routed and the SQL doors over
-- one `AppState`, a state machine per request, and interleaves them by Common/Interleaving:
-- requests arrive, advance and leave in any order.
--
-- The doors. Gateway/Requests holds the validation of src/gateway/http/routes.rs and
-- src/gateway/grpc/service.rs, Gateway/Wire the SQL route with its framing, Gateway/Health the
-- three health reports, Gateway/Grpc the two queries of src/gateway/grpc/service.rs,
-- Gateway/Agreement compares its SQL query with the route, Gateway/Cli the queries of
-- src/gateway/cli.rs, Gateway/Http the routes and the answers to errors of src/gateway/http,
-- Gateway/Http/Socket the listener of src/gateway/http/socket.rs over the calls on a socket.
-- Gateway/Commands is `run` of src/gateway/mod.rs: each command is a step on the record `World`,
-- the disk with the models, the client, the store, a clock and the standard output; what the
-- process has from outside is the record `Process`. Gateway/Commands/Ask holds the command that
-- starts the SQL engine and the model when it needs them, Gateway/Commands/Run the others and
-- the dispatch.
--
-- Shared. Common/Text models text as lists of code points, with the functions of the standard
-- library that the program calls; Common/Maps maps as association lists with each key once;
-- Common/Members members of lists; Common/Interleaving many requests over one shared state, with
-- invariants and a bound on their steps for any machine of the kind; Common/Order the stable
-- sort; Common/Errors results; Common/Floats the numbers `f32` as a record of operations and of
-- the laws of their comparisons, so no result depends on rounding. Tests applies the theorems to
-- concrete inputs.
--
-- Bounds and fuel. `usize` has 64 bits in the checked arithmetic of the embedding buffer. The
-- normalisation of chunks takes the number of values as fuel, and a round takes at least one;
-- the pieces of a file likewise take the number of rows.
--
-- Not modelled: the tasks and the shutdown of the servers, the layers of the web framework, the
-- set-up of logging, and the parsing of the command line, which are calls of other crates or of
-- the system. A writer that fails is taken to have written nothing. Each call of the cache is
-- one step, as its lock makes it. Between any two steps of a request others may run; the SQL
-- engine executes a text in one step, and the store does not change while requests are served.
-- Whatever else asks the model appears only as a change of the client's state.
pub mod Common
pub mod Engines
pub mod Pipelines
pub mod Gateway
pub mod Tests
