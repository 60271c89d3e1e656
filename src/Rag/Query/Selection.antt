-- ===== src/Rag/Query/Selection.antt =====
-- `_select_context_results`: one result for each context, and at most `top_k`.
use rag_service.Prelude.{
  ℕ, suc, ◌+◌, ◌≤◌, ◌<◌, true, false, List, [], ◌∷◌, length, length-take, ◌==◌, ==_refl, ◌≡◌, ◌≢◌,
  refl, arith, All, Unique, Bool-cases, inl, inr, ◌⊎◌,
}
use mathlib.Core.Path.{subst}
use rag_service.Rag.Settings.{QuerySettings}
use rag_service.Rag.Query.{
  MergedResult, contains_id, context_id, unique_contexts, select_context_results,
}

-- A context that was seen does not come again.
unseen :
    (id top_k count : ℕ) (seen : List ℕ) (items : List MergedResult)
    → contains_id id seen ≡ true
    → All (λ item. context_id item ≢ id) (unique_contexts top_k count seen items)
unfolding unique_contexts
unseen id k n seen [] h = tt
unseen id k n seen (x ∷ xs) h = elim (Bool-cases (contains_id (context_id x) seen)) [
  | inl e ↦ rw (unique_contexts, e) (unseen id k n seen xs h)
  | inr e ↦
      let other : context_id x ≢ id =
        λ same. (let e' = subst (λ q. contains_id q seen ≡ false) same e in ground arith) in
      elim (Bool-cases (suc n == k)) [
        | inl f ↦ rw (unique_contexts, e, f) (other, tt)
        | inr f ↦
            rw (unique_contexts, e, f)
              (other, unseen id k (suc n) (context_id x ∷ seen) xs (ground arith))
      ]
]

unique_lem :
    (top_k count : ℕ) (seen : List ℕ) (items : List MergedResult)
    → Unique context_id (unique_contexts top_k count seen items)
unfolding unique_contexts
unique_lem k n seen [] = tt
unique_lem k n seen (x ∷ xs) = elim (Bool-cases (contains_id (context_id x) seen)) [
  | inl e ↦ rw (unique_contexts, e) (unique_lem k n seen xs)
  | inr e ↦ elim (Bool-cases (suc n == k)) [
    | inl f ↦ rw (unique_contexts, e, f) (tt, tt)
    | inr f ↦
        rw (unique_contexts, e, f)
          (
            unseen (context_id x) k (suc n) (context_id x ∷ seen) xs
                (ground (arith, ==_refl (context_id x))),
            unique_lem k (suc n) (context_id x ∷ seen) xs,
          )
  ]
]

few :
    (top_k count : ℕ) (seen : List ℕ) (items : List MergedResult)
    → count < top_k
    → count + length (unique_contexts top_k count seen items) ≤ top_k
unfolding unique_contexts
few k n seen [] h = omega arith
few k n seen (x ∷ xs) h = elim (Bool-cases (contains_id (context_id x) seen)) [
  | inl e ↦ rw (unique_contexts, e) (few k n seen xs h)
  | inr e ↦ elim (Bool-cases (suc n == k)) [
    | inl f ↦ rw (unique_contexts, e, f) (omega arith)
    | inr f ↦
        rw (unique_contexts, e, f)
          (let rest = few k (suc n) (context_id x ∷ seen) xs (ground arith) in omega arith)
  ]
]

-- For a positive `top_k`, at most that many results are selected; and where parents give the context,
-- no two of them have the same one.
pub select_context_results_lem :
    (settings : QuerySettings) (ordered : List MergedResult) (top_k : ℕ)
    → 1 ≤ top_k
    → (length (select_context_results settings ordered top_k) ≤ top_k)
      × ((settings.parent_context_enabled ≡ false)
          ⊎ Unique context_id (select_context_results settings ordered top_k))
unfolding select_context_results
select_context_results_lem settings ordered top_k h =
    elim (Bool-cases settings.parent_context_enabled) [
      | inl on ↦
          let bound = few top_k 0 [] ordered (omega arith) in
          rw on (omega arith, inr (unique_lem top_k 0 [] ordered))
      | inr off ↦ rw off (omega (arith, length-take top_k ordered), inl refl)
    ]
