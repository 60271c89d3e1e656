-- ===== src/Rag.antt =====
-- backend/app/rag and backend/app/task/tasks/rag: the retrieval-augmented generation backend.
pub mod Model
pub mod Indexing
pub mod Chunking
pub mod Exec
pub mod Embedding
pub mod World
pub mod Context
pub mod Lexical
pub mod Outbox
pub mod Settings
pub mod Services
pub mod KnowledgeBases
pub mod Profiles
pub mod Documents
pub mod Query
pub mod Tasks
pub mod Parsers
pub mod Evaluation
pub mod Adapters
