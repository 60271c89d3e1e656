-- ===== src/Rag/Embedding/Batches.antt =====
-- The batches keep the order of the texts, and splitting reaches every text that can be embedded.
use rag_service.Prelude.{
  ℕ, zero, suc, ◌/◌, ◌≤◌, ◌<◌, Text, true, false, List, [], ◌∷◌, map, take, drop, length,
  length-take, length-drop, take-append-drop, ◌≡◌, ◌≢◌, refl, sym, ap, ◌∙◌, arith, inl, inr, ◌==◌,
  ◌⊎◌, ltb,
}
use mathlib.Core.List.{map-append}
use rag_service.Rag.Model.{Vector}
use rag_service.Rag.Indexing.{Exception}
use rag_service.Rag.Exec.{Result, ok, err}
use rag_service.Rag.Embedding.{
  is_bad_request, append_results, embed_batch, embed_from, embed_texts_in_batches,
}

-- A provider that gives each text its vector. It may refuse a list, but only one that has not
-- exactly one text, and only with status 400.
pub record Embeds (embed : List Text → Result (List Vector)) (vector : Text → Vector) : Type 0 where
  pub answer : (ts : List Text) (vs : List Vector) → embed ts ≡ ok vs → vs ≡ map vector ts
  pub refusal :
      (ts : List Text) (e : Exception)
      → embed ts ≡ err e
      → (is_bad_request e ≡ true) × (length ts ≢ 1)

module _ (embed : List Text → Result (List Vector)) (vector : Text → Vector)
    (provider : Embeds embed vector) where
  -- The answer of the provider, with its law.
  Answered : List Text → Type 0
  Answered ts = (embed ts ≡ ok (map vector ts)) ⊎ ((e : Exception) × (embed ts ≡ err e))

  answered : (ts : List Text) → Answered ts
  unfolding Answered
  answered ts = go (embed ts) refl
    where
      go :
          (r : Result (List Vector))
          → embed ts ≡ r
          → (embed ts ≡ ok (map vector ts)) ⊎ ((e : Exception) × (embed ts ≡ err e))
      go (ok vs) e = inl (e ∙ ap (λ (v : List Vector). ok v) (provider.answer ts vs e))
      go (err x) e = inr (x, e)

  joined :
      (n : ℕ) (ts : List Text) (l r : Result (List Vector))
      → l ≡ ok (map vector (take n ts))
      → r ≡ ok (map vector (drop n ts))
      → append_results l r ≡ ok (map vector ts)
  joined n ts l r p q =
      rw (p, q)
        (ap ok (
          sym (map-append vector (take n ts) (drop n ts))
          ∙ ap (map vector) (take-append-drop n ts)))

  embed_batch_lem :
      (fuel : ℕ) (ts : List Text)
      → 0 < length ts
      → length ts ≤ fuel
      → embed_batch embed fuel ts ≡ ok (map vector ts)
  unfolding embed_batch Answered
  embed_batch_lem zero ts p h = absurd (omega arith)
  embed_batch_lem (suc fuel) ts p h = elim (answered ts) [
    | inl e ↦ rw (e, embed_batch)
    | inr (x, e) ↦
        let (bad, many) = provider.refusal ts x e in
        let single : length ts == 1 ≡ false = ground arith in
        let half = length ts / 2 in
        rw (e, embed_batch, bad, single)
          (joined half ts _ _
            (embed_batch_lem fuel (take half ts) (omega (arith, length-take half ts))
              (omega (arith, length-take half ts)))
            (embed_batch_lem fuel (drop half ts) (omega (arith, length-drop half ts))
              (omega (arith, length-drop half ts))))
  ]

  embed_from_lem :
      (batch_size rounds : ℕ) (ts : List Text)
      → 0 < batch_size
      → length ts ≤ rounds
      → embed_from embed batch_size rounds ts ≡ ok (map vector ts)
  unfolding embed_from
  embed_from_lem size zero [] p h = refl
  embed_from_lem size zero (t ∷ ts) p h = absurd (omega arith)
  embed_from_lem size (suc rounds) [] p h = refl
  embed_from_lem size (suc rounds) (t ∷ ts) p h =
      let batch : List Text = take size (t ∷ ts) in
      joined size (t ∷ ts) _ _
        (embed_batch_lem (length batch) batch (omega (arith, length-take size (t ∷ ts)))
          (omega arith))
        (embed_from_lem size rounds (drop size (t ∷ ts)) p
          (omega (arith, length-drop size (t ∷ ts))))

  -- With a positive batch size and a provider that may refuse a list of several texts with status
  -- 400, but answers every single text, all texts are embedded, each by its own vector, in order.
  pub embed_texts_complete :
      (texts : List Text) (batch_size : ℕ)
      → 0 < batch_size
      → embed_texts_in_batches embed texts batch_size ≡ ok (map vector texts)
  unfolding embed_texts_in_batches
  embed_texts_complete texts zero h = elim h [ ]
  embed_texts_complete texts (suc n) h =
      let positive : ltb (suc n) 1 ≡ false = ground arith in
      rw positive (embed_from_lem (suc n) (length texts) texts h (omega arith))
