-- ===== src/Rag/Chunking/Split.antt =====
-- `split_text` of backend/app/rag/chunking.py: paragraphs are packed into chunks, and a paragraph
-- that is longer than a chunk is cut into overlapping windows.
pub mod Windows
pub mod Bounds
use rag_service.Prelude.{
  ℕ, zero, suc, ◌-◌, max, Text, Bool, true, false, List, [], ◌∷◌, ◌++◌, take, drop, take_last,
  length, ltb, leb, ◌==◌, if◌then◌else◌, select,
}
use rag_service.Rag.Chunking.Clean.{strip, clean_text}

abbrev pub is_empty : Text → Bool
is_empty [] = true
is_empty (c ∷ s) = false

unfoldable pub newlines : ℕ → Text
newlines zero = []
newlines (suc n) = 10 ∷ newlines n

-- `re.split(r'\n{2,}', …)`: `piece` is what is read since the last separator, and behind it `run`
-- newlines that may begin one.
split_blank_lines : Text → ℕ → Text → List Text
unfolding newlines
split_blank_lines piece run [] = if leb 2 run then piece ∷ [] ∷ [] else (piece ++ newlines run) ∷ []
split_blank_lines piece run (c ∷ s) = elim (c == 10) [
  | true ↦ split_blank_lines piece (suc run) s
  | false ↦ elim (leb 2 run) [
    | true ↦ piece ∷ split_blank_lines (c ∷ []) 0 s
    | false ↦ split_blank_lines (piece ++ (newlines run ++ c ∷ [])) 0 s
  ]
]

-- `[item.strip() for item in … if item.strip()]`
strip_all : List Text → List Text
strip_all [] = []
strip_all (item ∷ items) =
    let rest = strip_all items in if is_empty (strip item) then rest else strip item ∷ rest

pub paragraphs_of : Text → List Text
unfolding split_blank_lines strip_all strip
paragraphs_of content = strip_all (split_blank_lines [] 0 content)

-- `[paragraph[index : index + size] for index in range(0, len(paragraph), step)]`: what is left of
-- the paragraph from `index` on. The fuel is its length.
windows_from : ℕ → ℕ → ℕ → Text → List Text
windows_from size step zero rest = []
windows_from size step (suc fuel) [] = []
windows_from size step (suc fuel) (c ∷ s) =
    take size (c ∷ s) ∷ windows_from size step fuel (drop step (c ∷ s))

pub windows : ℕ → ℕ → Text → List Text
unfolding windows_from
windows size step paragraph = windows_from size step (length paragraph) paragraph

abbrev blank_line : Text
blank_line = 10 ∷ 10 ∷ []

-- The current chunk, unless it is empty.
abbrev flush : Text → List Text
flush current = if is_empty current then [] else current ∷ []

-- `f'{current[-overlap:]}\n\n{paragraph}'.strip() if overlap else paragraph`
carry : ℕ → Text → Text → Text
unfolding strip
carry overlap current paragraph =
    if overlap == 0
    then paragraph
    else strip (take_last overlap current ++ (blank_line ++ paragraph))

-- One round of the loop: the chunks that it appends, and the new `current`.
pack : ℕ → ℕ → Text → Text → List Text × Text
unfolding windows strip carry
pack chunk_size overlap current paragraph =
    let candidate = strip (current ++ (blank_line ++ paragraph)) in
    if ltb chunk_size (length paragraph)
    then (flush current ++ windows chunk_size (max (chunk_size - overlap) 1) paragraph, [])
    else if leb (length candidate) chunk_size
    then ([], candidate)
    else (current ∷ [], carry overlap current paragraph)

pack_all : ℕ → ℕ → Text → List Text → List Text
unfolding pack
pack_all chunk_size overlap current [] = flush current
pack_all chunk_size overlap current (paragraph ∷ paragraphs) =
    let (chunks, next) = pack chunk_size overlap current paragraph in
    chunks ++ pack_all chunk_size overlap next paragraphs

abbrev pub not_blank : Text → Bool
not_blank chunk = if is_empty (strip chunk) then false else true

unfoldable pub split_text : Text → ℕ → ℕ → List Text
unfolding paragraphs_of pack_all strip clean_text select
split_text text chunk_size overlap =
    select not_blank (pack_all chunk_size overlap [] (paragraphs_of (clean_text text)))
