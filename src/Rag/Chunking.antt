-- ===== src/Rag/Chunking.antt =====
-- backend/app/rag/chunking.py. `\d` of Python's `re` is a table of the Unicode database, and so a
-- parameter, `is_digit`.
pub mod Clean
pub mod Split
pub mod Sections
