-- ===== src/Rag/Chunking/Split/Bounds.antt =====
-- How long a chunk may be.
use rag_service.Prelude.{
  ℕ, zero, suc, ◌+◌, ◌-◌, ◌≤◌, ◌<◌, max, Text, true, List, [], ◌∷◌, ◌++◌, drop, take_last, length,
  ltb, leb, ◌==◌, if◌then◌else◌, ◌≡◌, arith, length-drop, length-take, length-append, All,
  All-append, All-select_where, Bool-cases, inl, inr, tests,
}
use rag_service.Rag.Chunking.Clean.{strip, clean_text}
use rag_service.Rag.Chunking.Clean.Laws.{length-strip}
use rag_service.Rag.Chunking.Split.{
  windows_from, windows, flush, pack, pack_all, carry, blank_line, paragraphs_of, split_text,
  not_blank,
}

-- The longest chunk: an overlap is carried in front of a paragraph with a blank line between.
abbrev pub longest : ℕ → ℕ → ℕ
longest chunk_size overlap = if overlap == 0 then chunk_size else overlap + 2 + chunk_size

abbrev AtMost : ℕ → Text → Type 0
AtMost n s = length s ≤ n

windows_bound :
    (n size step fuel : ℕ) (s : Text) → size ≤ n → All (AtMost n) (windows_from size step fuel s)
unfolding windows_from
windows_bound n size step zero s h = tt
windows_bound n size step (suc fuel) [] h = tt
windows_bound n size step (suc fuel) (c ∷ s) h =
    (omega (arith, length-take size (c ∷ s)), windows_bound n size step fuel (drop step (c ∷ s)) h)

length-take_last : (n : ℕ) (s : Text) → 0 < n → length (take_last n s) ≤ n
length-take_last zero s h = elim h [ ]
length-take_last (suc n) s h = omega (arith, length-drop (length s - suc n) s)

length-carry :
    (size overlap : ℕ) (current paragraph : Text)
    → length paragraph ≤ size
    → length (carry overlap current paragraph) ≤ longest size overlap
unfolding carry
length-carry size overlap current paragraph h = elim (Bool-cases (overlap == 0)) [
  | inl e ↦ rw e h
  | inr e ↦ rw e (
      omega (
        arith,
        length-strip (take_last overlap current ++ (blank_line ++ paragraph)),
        length-append (take_last overlap current) (blank_line ++ paragraph),
        length-take_last overlap current (ground arith),
      ))
]

abbrev Packed : ℕ → ℕ → List Text × Text → Type 0
Packed size overlap (chunks, next) =
    All (AtMost (longest size overlap)) chunks × (length next ≤ longest size overlap)

size-le-longest : (size overlap : ℕ) → size ≤ longest size overlap
size-le-longest size overlap = ground arith

flush_bound : (n : ℕ) (s : Text) → length s ≤ n → All (AtMost n) (flush s)
flush_bound n [] h = tt
flush_bound n (c ∷ s) h = (h, tt)

pack_bound :
    (size overlap : ℕ) (current paragraph : Text)
    → length current ≤ longest size overlap
    → Packed size overlap (pack size overlap current paragraph)
unfolding pack windows
pack_bound size overlap current paragraph h = elim (Bool-cases (ltb size (length paragraph))) [
  | inl long ↦ rw long (
    All-append (AtMost _) (flush current) _ (flush_bound _ current h) (
        windows_bound _ size (max (size - overlap) 1) (length paragraph) paragraph
          (size-le-longest size overlap)),
    omega arith,
  )
  | inr short ↦
      elim (Bool-cases (leb (length (strip (current ++ (blank_line ++ paragraph)))) size)) [
        | inl fits ↦ rw (short, fits) (tt, omega (tests, size-le-longest size overlap))
        | inr full ↦
            rw (short, full) ((h, tt), length-carry size overlap current paragraph (omega tests))
      ]
]

pack_all_bound :
    (size overlap : ℕ) (current : Text) (paragraphs : List Text)
    → length current ≤ longest size overlap
    → All (AtMost (longest size overlap)) (pack_all size overlap current paragraphs)
unfolding pack_all
pack_all_bound size overlap current [] h = flush_bound _ current h
pack_all_bound size overlap current (p ∷ ps) h =
    let step = pack_bound size overlap current p h in
    All-append (AtMost _) (pack size overlap current p).0 _ step.0
      (pack_all_bound size overlap (pack size overlap current p).1 ps step.1)

-- Every chunk is at most `chunk_size` long where there is no overlap, and otherwise at most
-- `overlap + 2 + chunk_size`, as the carried overlap and a blank line come on top; none is blank.
pub split_text_bound :
    (text : Text) (chunk_size overlap : ℕ)
    → All
        (λ chunk. (length chunk ≤ longest chunk_size overlap) × (not_blank chunk ≡ true))
        (split_text text chunk_size overlap)
unfolding split_text
split_text_bound text size overlap =
    All-select_where (AtMost (longest size overlap)) not_blank
      (pack_all size overlap [] (paragraphs_of (clean_text text)))
      (pack_all_bound size overlap [] (paragraphs_of (clean_text text)) (omega arith))
