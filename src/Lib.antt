-- ===== src/Lib.antt =====
-- The orchestrator of the memory service: what it stores, who may see it, and what each of its graphs
-- answers.
--
-- Parts and files (paths are under orchestrator/src/orchestrator/):
--   Enums           enums.py: the wire enums and the check of a source id
--   Permissions     permissions.py: `evaluate` and `permits`; Rules and Narrowing reason about them
--   Schema          schema.py: the records of memory
--   Store           storage/neo4j_store.py: the graph as rows and relationships, the writes (Writes), the
--                   reads (Reads) and the walks (Walks); Kept, Typed, Coherence and Owners have the laws
--   Resolver        resolution/resolver.py: topics (Topics), the loops (Defs), their laws (Links, Outcomes)
--   Retrieval       retrieval/ranking.py, and `retrieve_stored` of retrieval/index.py
--   Graphs.Checked  the nodes `authorize` and `check_permissions` of graphs/history.py and
--                   graphs/neighbourhood.py
--   Graphs.Query, Graphs.History, Graphs.Neighbourhood, Graphs.Ingestion
--                   the graphs of graphs/*.py, node by node, and their composition
--   Connectors      connectors/base.py and registry.py: the registry (Registry) and the chunkers (Chunks);
--                   connectors/mock.py (Fixtures), `chunk_diff` of connectors/github.py (Diffs), the four
--                   connectors' specs and their registration (Builtins); connectors/chatgpt.py over JSON
--                   (Json): the walk of a conversation (Chatgpt), its turns (Turns), its record (Records),
--                   the place of an export (Exports) and the bundled one (Sample)
--   Extraction      extraction/ids.py; extraction/llm.py from the decoded answer to a candidate (Llm);
--                   extraction/mock.py, what its passes add (Mock) and the passes (Mock.Passes); Contract
--                   states what an extractor may propose
--   Config          config.py: the settings and what they decide
--   Gateway         gateway_client.py: the session and the requests
--   Api             api.py: the endpoints, with the bounds of their requests
--   Jobs            jobs/tasks.py: the task that the queue runs
--   Mcp             mcp_server.py: the tools, and the runtime that is kept between their calls
--   Examples        a small memory, with the theorems applied to it
--   Prelude         Python's lists, dicts, texts and exceptions, and the lemmas that the parts share
--
-- How they interact. Ingestion takes a connector's records and an extractor's candidates, has the resolver
-- compare the new claims with those stored and those earlier in the batch, asks the enclave to seal the
-- sensitive bodies, and writes to the store. The three reading graphs walk the store without regard to
-- permissions, evaluate every object that they have found, and assemble an answer from what is allowed.
-- The endpoints of the API and the tools of the MCP server call these graphs, which resolve the grant token
-- of each call through the gateway client; an ingestion is enqueued by the API and run by the queue's task.
-- A LangGraph graph is a straight line of nodes here, and its run is their composition.
--
-- How the code is translated. A query is a function over a list of rows and a list of relationships; a
-- write returns the graph that it leaves, or raises, which is a value of `Result`; of an operation that
-- raises midway only the exception is kept, not what it had written before. The extractor and the embedder
-- may raise, and each build of a runtime may come to something else. A payload is the object
-- itself, since a model survives the round trip through its JSON. As in Cypher, a path takes no relationship
-- twice. Where a query has no order, the rows come in the order of the list. Texts are native, and their
-- lower case is exact for ASCII. Times are natural numbers of milliseconds, a confidence is in thousandths,
-- and scores are a parameter with the operations that the code uses.
--
-- Bounds and fuel. A walk is bounded by its number of hops, which is the recursion's argument, as in the
-- query; the decimal form of n has n + 1 steps, which are more than its digits; the walk of a conversation
-- has one round more than the conversation has nodes, since no node is visited twice.
--
-- Arguments of the model: the enclave's seal, the embedder and the vector index, and in the graphs the
-- gateway's introspection, a connector's records and the extractor, which the parts Gateway, Connectors and
-- Extraction model on their own; httpx, the job queue and the file system; the matches of the regular
-- expressions of extraction/mock.py; and of Python SHA-256, lower case, `repr`, `str` of what is no text,
-- the parsing of dates and of numbers, base64, and the formatting of a number of days.
--
-- Not modelled: the Neo4j driver, the call of the language model, the embeddings, the reading of the
-- environment, the wiring of a runtime, the servers' loops, the job workers, and the Rust services.
-- Messages of exceptions are left out, and so are times before 1970. An attribute that a decoded value
-- lacks raises `type_error` here, which stands for Python's `AttributeError` too. A graph is called typed
-- when the labels of its rows tell the kinds of their payloads.
pub mod Prelude
pub mod Enums
pub mod Permissions
pub mod Schema
pub mod Store
pub mod Resolver
pub mod Retrieval
pub mod Graphs
pub mod Connectors
pub mod Extraction
pub mod Config
pub mod Gateway
pub mod Api
pub mod Jobs
pub mod Mcp
pub mod Examples
