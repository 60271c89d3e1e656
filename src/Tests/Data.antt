-- ===== src/Tests/Data.antt =====
-- A small state: one knowledge base with a document in each of four states, and their objects.
use rag_service.Prelude.{
  ℕ, Text, codes, Bool, false, ◌&&◌, leb, List, [], ◌∷◌, map, Option, none, some,
}
use rag_service.Rag.Model.{
  Document, DocumentStatus, KnowledgeBase, OutboxEvent, OutboxStatus, Payload, Vector,
}
use rag_service.Rag.Exec.{Result, ok}
use rag_service.Rag.Services.{Services}
use rag_service.Rag.Parsers.{PdfFile, Readers}
use rag_service.Rag.Lexical.{Tokenizer}
use rag_service.Rag.World.{World}
use rag_service.Rag.Outbox.{index_document_event}

abbrev pub document : ℕ → DocumentStatus → Document
document id status = record {
  id = id;
  knowledge_base_id = 1;
  filename = codes "notes.md";
  file_type = codes "md";
  storage_key = codes "1/ab.md";
  file_size = 5;
  content_hash = codes "ab";
  mime_type = none;
  parsed_content = none;
  status = status;
  error_message = none;
  chunk_count = 0;
  index_version = 3;
  index_profile_id = none;
  deleted = 0;
  created_time = 100;
  updated_time = none;
}

abbrev pub base : KnowledgeBase
base = record {
  id = 1;
  owner_id = 7;
  name = codes "base";
  description = none;
  is_public = false;
  deleted = 0;
}

abbrev pub event : ℕ → ℕ → OutboxStatus → OutboxEvent
event id attempts status = record {
  id = id;
  event_type = index_document_event;
  aggregate_id = 10;
  payload = Payload.index_payload 10 3;
  dedupe_key = codes "10:3";
  status = status;
  dispatch_attempts = attempts;
  last_error = none;
  dispatched_time = none;
}

abbrev pub documents : List Document
documents =
    document 10 DocumentStatus.pending
    ∷ document 11 DocumentStatus.processing
    ∷ document 12 DocumentStatus.ready
    ∷ document 13 DocumentStatus.deleting
    ∷ []

abbrev pub world : World
world = record {
  db = record {
    documents = documents;
    chunks = [];
    knowledge_bases = base ∷ [];
    events = [];
    profiles = [];
    next_id = 100;
  };
  storage = (codes "1/ab.md", codes "hello") ∷ [];
  queue = [];
  now = 5000;
}

abbrev pub with_events : List OutboxEvent → World
with_events events = record world { db = record world.db { events = events } }

abbrev pub vector_of : Text → Vector
vector_of text = text

abbrev pub embed : List Text → Result (List Vector)
embed texts = ok (map vector_of texts)

abbrev pub ascii_digit : ℕ → Bool
ascii_digit c = leb b'0' c && leb c b'9'

abbrev pub read_pdf : Text → Option PdfFile
read_pdf content = some (record { is_encrypted = false; pages = some content ∷ [] })

abbrev pub readers : Readers
readers = record {
  decode = λ content. content;
  docx_paragraphs = λ content. ok (content ∷ []);
  read_pdf = read_pdf;
}

abbrev pub tokenizer : Tokenizer
tokenizer = record { lcut = λ text. text ∷ []; is_alnum = λ c. leb b'0' c; casefold = λ text. text }

abbrev pub services : Services
services = record {
  readers = readers;
  sha256 = λ text. text;
  embed = embed;
  tokenizer = tokenizer;
  is_digit = ascii_digit;
}
