-- ===== src/Rag/Indexing/Sanitized.antt =====
-- The failure summaries show no text of the broker or of the model service.
use rag_service.Prelude.{Text, [], ◌≡◌, refl, true, any, take, inl, inr, ◌⊎◌, Bool-cases}
use rag_service.Rag.Indexing.{
  Exception, http_status, value_error, not_found_error, request_error, server_error, other_error,
  sanitize_dispatch_error, sanitize_index_error, safe_prefixes, starts_with,
}

-- The exception with every text of its message gone; its class is kept.
abbrev pub erase : Exception → Exception
erase (value_error _) = value_error []
erase (not_found_error _) = not_found_error []
erase (request_error _) = request_error []
erase (server_error _) = server_error []
erase (other_error name _) = other_error name []
erase exc = exc

-- The summary is one of a fixed set that its class (and an HTTP status) selects, or it is the
-- first 512 code points of a ValueError's message that starts with a known prefix.
abbrev pub IndexSummary : Exception → Type 0
IndexSummary exc =
    (sanitize_index_error exc ≡ sanitize_index_error (erase exc))
    ⊎ ((m : Text) × (exc ≡ value_error m)
        × (any (starts_with m) safe_prefixes ≡ true)
        × (sanitize_index_error exc ≡ take 512 m))

index_summary : (exc : Exception) → IndexSummary exc
unfolding sanitize_index_error
index_summary (value_error m) = elim (Bool-cases (any (starts_with m) safe_prefixes)) [
  | inl safe ↦ inr (m, refl, safe, rw safe)
  | inr other ↦ inl (rw other (unfold starts_with in refl))
]
index_summary _ = inl refl

-- A failed delivery's summary is a function of the exception's class alone, so no connection string
-- in a message reaches the outbox row; a failed indexing's summary depends on the message only if
-- the exception is a ValueError whose message starts with a known prefix, and then it is the first
-- 512 code points of that message.
pub summaries_hide_message :
    (exc : Exception)
    → (sanitize_dispatch_error exc ≡ sanitize_dispatch_error (erase exc)) × IndexSummary exc
unfolding sanitize_dispatch_error
summaries_hide_message (http_status n) = (refl, index_summary _)
summaries_hide_message _ = (refl, index_summary _)
