-- ===== src/Rag/Chunking/Split/Windows.antt =====
-- The windows of a long paragraph lose nothing of it.
use rag_service.Prelude.{
  ℕ, zero, suc, ◌-◌, ◌≤◌, ◌<◌, max, Text, [], ◌∷◌, take, drop, length, concat, map, ◌≡◌, refl,
  arith, length-drop, take-append-drop, ap,
}
use rag_service.Rag.Chunking.Split.{windows_from, windows}

take-take : (m n : ℕ) (s : Text) → m ≤ n → take m (take n s) ≡ take m s
take-take zero n s h = refl
take-take (suc m) zero s h = elim h [ ]
take-take (suc m) (suc n) [] h = refl
take-take (suc m) (suc n) (c ∷ s) h = ap (λ (t : Text). c ∷ t) (take-take m n s (omega arith))

windows_cover :
    (size step fuel : ℕ) (s : Text)
    → 0 < step
    → step ≤ size
    → length s ≤ fuel
    → concat (map (take step) (windows_from size step fuel s)) ≡ s
unfolding windows_from
windows_cover size step zero [] p q h = refl
windows_cover size step zero (c ∷ s) p q h = absurd (omega arith)
windows_cover size step (suc fuel) [] p q h = refl
windows_cover size step (suc fuel) (c ∷ s) p q h =
    let rest : Text = drop step (c ∷ s) in
    let ih = windows_cover size step fuel rest p q (omega (arith, length-drop step (c ∷ s))) in
    rw (take-take step size (c ∷ s) q, ih) (take-append-drop step (c ∷ s))

-- For a positive chunk size, the first `max (chunk_size - overlap) 1` code points of the windows,
-- one window after the other, are the paragraph: every code point lies in a window, in its place.
pub windows_lose_nothing :
    (chunk_size overlap : ℕ) (paragraph : Text)
    → 0 < chunk_size
    → let step = max (chunk_size - overlap) 1 in
      concat (map (take step) (windows chunk_size step paragraph)) ≡ paragraph
unfolding windows
windows_lose_nothing size overlap s h =
    windows_cover size (max (size - overlap) 1) (length s) s (omega arith) (omega arith)
      (omega arith)
