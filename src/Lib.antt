-- ===== src/Lib.antt =====
-- A verification library for the RAG service: the document lifecycle of backend/app/rag with its
-- Celery tasks in backend/app/task/tasks/rag, and the logins, sessions and permissions of the
-- administration (backend/app/admin, backend/common/security).
--
-- The program. A user uploads a document to a knowledge base (service/document_service.py). The row
-- is PENDING, and an event in the outbox (service/outbox_service.py), written in the same
-- transaction, asks for its indexing. A dispatcher task delivers the events to Celery. The index
-- task claims the document, parses (parsers/text.py), splits (chunking.py) and embeds it, stores
-- its chunks and makes it READY; a failure is retried or final by its class (indexing.py). A
-- deletion is a request in the outbox too. A repair task requeues what is stuck. A question is
-- answered from chunks that a dense and a lexical ranking (lexical.py) select, in a bounded context
-- with citations (context.py).
--
-- Around it, an administration (backend/app/admin) logs users in: a login gives an access token and
-- a refresh token (common/security/jwt.py), whose sessions are keys in Redis (database/redis.py)
-- with an expiry; failed logins are counted there and lock the user. A middleware authenticates
-- requests by their token, rbac.py checks the permission of the route against the menus of the
-- user's roles, and permission.py filters the rows that a user may see.
--
-- The files. Rag/Model has the rows (enums.py, model/), Rag/Settings the settings (core/conf.py).
-- Rag/World is the state: the tables, the object store (adapters/storage.py), the task queue and
-- the clock; a table is the list of its rows, a query is a test on them, and a transaction undoes
-- the writes to the database if its body raises. Rag/Exec has the result of code that may raise,
-- and Rag/Indexing the classes of exceptions. Rag/Chunking (Clean, Split, Sections), Rag/Parsers,
-- Rag/Embedding, Rag/Lexical and Rag/Context are the pure parts, under the names of the functions.
-- Rag/Outbox, Rag/KnowledgeBases, Rag/Profiles and Rag/Documents (with Content for index_content
-- and Requests for create, retry and delete) are the services, and Rag/Tasks the tasks. Rag/Query
-- is service/query_service.py, with Retrieve for retrieve and Answer for answer and agent/graph.py.
-- Rag/Adapters has the model adapters (adapters/), a child for each file, and Rag/Evaluation the
-- offline evaluation (evaluation/), with Report for load_dataset and build_report.
--
-- Admin has the administration. Exec is the result of a handler over a state, Effects its do
-- blocks, Redis the keys, Settings and Model the settings and rows. Tokens and Authentication are
-- jwt.py and middleware/jwt_auth_middleware.py, Lockout is
-- service/user_password_history_service.py, Auth and Login (with Refresh for refresh_token) are
-- service/auth_service.py, Permissions its get_codes, Passwords is utils/password_security.py, and
-- Rbac and DataPermission are common/security/rbac.py and permission.py. Utils/Snowflake has the
-- primary keys (backend/utils/snowflake.py). A child module that is named for a property has its
-- proof. Prelude has tables, lists, sorting, texts and decimals. Tests has runs on a small state.
--
-- The bounds. A text is a list of code points, a time a number of milliseconds (of seconds in
-- Admin). Integers of Python are unbounded, and natural numbers here, as the code never takes them
-- below 0 unchecked. The fuel of the window and batch loops is the length of what they read, which
-- falls with every step; the theorems on them show that it is enough. Row locks are not modelled: a
-- transaction is one step.
--
-- Parameters. The embedding service, SHA-256, the codec, python-docx, pypdf, jieba, Unicode's
-- digits and case folding, floats, the broker, the rankings of PostgreSQL, and the rerank and chat
-- services are arguments, as are the HTTP calls of the adapters, the signature of tokens (a signed
-- token decodes to its claims until it expires), the hash of passwords, the format of times (a time
-- that is written reads back), lower case, the JSON of users, the patterns of excluded paths, the
-- Casbin plugin and the conversion to a column's type. Not modelled: the administration's other
-- services and queries, the scheduler, the plugins, the caches and the web layer.
pub mod Prelude
pub mod Rag
pub mod Utils
pub mod Admin
pub mod Tests
