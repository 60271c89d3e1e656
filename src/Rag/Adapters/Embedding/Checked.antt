-- ===== src/Rag/Adapters/Embedding/Checked.antt =====
-- What an embedding gives, whatever the service answers.
use rag_service.Prelude.{
  ℕ, suc, Text, Bool, true, false, ◌||◌, not, List, [], ◌∷◌, map, any, length, All, Option, none,
  some, ltb, ◌==◌, if◌then◌else◌, sort_by, ◌≡◌, refl, ap, arith, inl, inr, Bool-cases,
}
use rag_service.Rag.Model.{Vector}
use rag_service.Rag.Indexing.{Exception}
use rag_service.Rag.Exec.{Result, ok, err}
use rag_service.Rag.Adapters.{AdapterSettings, given}
use rag_service.Rag.Adapters.Embedding.{check_vectors, read_vectors, embed_with, embed}

module _ (settings : AdapterSettings) where
  module _ (post : Text → Text → List Text → Result (List (ℕ × Vector)))
      (local_embedding : Text → Vector) where
    -- One vector of the configured dimension for each text.
    abbrev pub AreVectors : List Text → Result (List Vector) → Type 0
    AreVectors texts (ok vectors) =
        (length vectors ≡ length texts)
        × All (λ (v : Vector). length v ≡ settings.embedding_dimensions) vectors
    AreVectors texts (err _) = Unit

    dimensions :
        (vectors : List Vector)
        → any (λ (v : Vector). not (length v == settings.embedding_dimensions)) vectors ≡ false
        → All (λ (v : Vector). length v ≡ settings.embedding_dimensions) vectors
    dimensions [] h = tt
    dimensions (v ∷ vs) h = (ground arith, dimensions vs (ground arith))

    fallback :
        ((text : Text) → length (local_embedding text) ≡ settings.embedding_dimensions)
        → (texts : List Text) → AreVectors texts (ok (map local_embedding texts))
    fallback right [] = (refl, tt)
    fallback right (t ∷ ts) =
        let rest : AreVectors ts (ok (map local_embedding ts)) = fallback right ts in
        (ap suc rest.0, (right t, rest.1))

    checked :
        (raised : Exception) (texts : List Text) (vectors : List Vector)
        → AreVectors texts (
            if not (length vectors == length texts)
              || any (λ (v : Vector). not (length v == settings.embedding_dimensions)) vectors
            then err raised
            else ok vectors)
    checked raised texts vectors = elim (Bool-cases (length vectors == length texts)) [
      | inr e ↦ rw e tt
      | inl e ↦
          elim (Bool-cases
            (any (λ (v : Vector). not (length v == settings.embedding_dimensions)) vectors)) [
              | inl d ↦ rw (e, d) tt
              | inr d ↦ rw (e, d) (ground arith, dimensions vectors d)
            ]
    ]

    checked-AreVectors :
        (texts : List Text) (items : List (ℕ × Vector))
        → AreVectors texts (check_vectors settings texts items)
    unfolding check_vectors
    checked-AreVectors texts items =
        let vectors : List Vector =
          map (λ (item : ℕ × Vector). item.1)
            (sort_by (λ (x : ℕ × Vector) (y : ℕ × Vector). ltb y.0 x.0) items) in
        checked _ texts vectors

    read-AreVectors :
        (texts : List Text) (response : Result (List (ℕ × Vector)))
        → AreVectors texts (read_vectors settings texts response)
    unfolding read_vectors
    read-AreVectors texts (ok items) = checked-AreVectors texts items
    read-AreVectors texts (err raised) = tt

    local-AreVectors :
        ((text : Text) → length (local_embedding text) ≡ settings.embedding_dimensions)
        → (allowed : Bool) (raised : Exception) (texts : List Text)
        → AreVectors texts (if allowed then ok (map local_embedding texts) else err raised)
    local-AreVectors right true raised texts = fallback right texts
    local-AreVectors right false raised texts = tt

    embed_with-AreVectors :
        ((text : Text) → length (local_embedding text) ≡ settings.embedding_dimensions)
        → (url key : Option Text) (texts : List Text)
        → AreVectors texts (embed_with settings post local_embedding url key texts)
    unfolding embed_with
    embed_with-AreVectors right (some url) (some key) texts =
        read-AreVectors texts (post _ key texts)
    embed_with-AreVectors right none key texts =
        local-AreVectors right settings.allow_local_model_fallback _ texts
    embed_with-AreVectors right (some url) none texts =
        local-AreVectors right settings.allow_local_model_fallback _ texts

    -- Where the vectors for development have the configured dimension, an embedding that returns has
    -- one vector of that dimension for each text, whatever the service answers.
    pub embed-AreVectors :
        ((text : Text) → length (local_embedding text) ≡ settings.embedding_dimensions)
        → (texts : List Text) → AreVectors texts (embed settings post local_embedding texts)
    unfolding embed
    embed-AreVectors right texts =
        embed_with-AreVectors right (given settings.embedding_base_url)
          (given settings.embedding_api_key) texts
