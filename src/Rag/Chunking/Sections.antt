-- ===== src/Rag/Chunking/Sections.antt =====
-- `contextualize_chunk` and `split_parent_child_text` of backend/app/rag/chunking.py: the lines are
-- cut into sections at Markdown headings and at the page marks of a PDF.
pub mod Partition
use rag_service.Prelude.{
  ℕ, zero, suc, ◌+◌, ◌-◌, Text, codes, Bool, true, false, ◌&&◌, ◌||◌, List, [], ◌∷◌, ◌++◌, take,
  drop, length, any, all, ltb, leb, ◌==◌, if◌then◌else◌, Option, none, some, get_elem?,
}
use rag_service.Rag.Chunking.Clean.{is_space, lstrip, strip, clean_text}
use rag_service.Rag.Chunking.Split.{is_empty, split_text}

-- `sep.join(items)`
unfoldable pub join : Text → List Text → Text
join sep [] = []
join sep (item ∷ []) = item
join sep (item ∷ other ∷ items) = item ++ (sep ++ join sep (other ∷ items))

unfoldable pub contextualize_chunk : Text → List Text → Text → Text
unfolding join
contextualize_chunk filename heading_path content =
    let heading : Text = elim heading_path [
      | [] ↦ codes "未分节"
      | h ∷ hs ↦ join (codes " > ") (h ∷ hs)
    ] in
    codes "文件：" ++ (filename ++ (codes "\n章节：" ++ (heading ++ (codes "\n\n" ++ content))))

pub record ParentChildChunks : Type 0 where
  pub heading_path : List Text
  pub parent_content : Text
  pub children : List Text

-- The line ends of `str.splitlines`. The text is clean, so that no "\r\n" is met.
is_line_break : ℕ → Bool
is_line_break c = any (λ d. c == d) (10 ∷ 11 ∷ 12 ∷ 13 ∷ 28 ∷ 29 ∷ 30 ∷ 0x85 ∷ 0x2028 ∷ 0x2029 ∷ [])

lines_from : Text → Text → List Text
lines_from line [] = if is_empty line then [] else line ∷ []
lines_from line (c ∷ s) = elim (is_line_break c) [
  | true ↦ line ∷ lines_from [] s
  | false ↦ lines_from (line ++ c ∷ []) s
]

unfoldable pub split_lines : Text → List Text
unfolding lines_from is_line_break
split_lines = lines_from []

-- The number of leading `#`, and what is behind them.
hashes : Text → ℕ × Text
hashes [] = (0, [])
hashes (c ∷ s) = let (n, rest) = hashes s in if c == b'#' then (suc n, rest) else (0, c ∷ s)

abbrev starts_blank : Text → Bool
starts_blank [] = false
starts_blank (c ∷ s) = is_space c

-- `^(#{1,6})\s+(.+)$`: the level and the stripped second group. The white space gives its last code
-- point back to the second group where nothing else is left, and stripping takes it again.
pub heading_match : Text → Option (ℕ × Text)
unfolding hashes strip
heading_match line =
    let (level, rest) = hashes line in
    if (leb 1 level && leb level 6) && (starts_blank rest && leb 2 (length rest))
    then some (level, strip rest)
    else none

-- An entry of `sections`.
pub record Section : Type 0 where
  pub path : List Text
  pub lines : List Text

-- `if section_lines: sections.append((heading_path.copy(), section_lines))`
abbrev close_section : List Text → List Text → List Section
close_section heading_path [] = []
close_section heading_path (line ∷ lines) =
    record { path = heading_path; lines = line ∷ lines } ∷ []

-- The heading path that a line begins, if it is a mark: a page number goes before a heading.
pub mark_path : List Text → Option Text → Option (ℕ × Text) → Option (List Text)
mark_path heading_path (some page) heading = some ((codes "第 " ++ (page ++ codes " 页")) ∷ [])
mark_path heading_path none (some (level, title)) =
    some (take (level - 1) heading_path ++ title ∷ [])
mark_path heading_path none none = none

-- A mark closes the section before it and opens one; any other line joins the open section.
pub open_section :
    List Text → List Text → Text → Option (List Text) → List Section × List Text × List Text
open_section heading_path section_lines line (some path) =
    (close_section heading_path section_lines, path, line ∷ [])
open_section heading_path section_lines line none = ([], heading_path, section_lines ++ line ∷ [])

module _ (is_digit : ℕ → Bool) where
  -- `(\d+)\s*页$`, with the digits that are read so far.
  page_number : Text → Text → Option Text
  page_number digits [] = none
  page_number digits (c ∷ s) = elim (is_digit c) [
    | true ↦ page_number (digits ++ c ∷ []) s
    | false ↦ elim (is_empty digits) [
      | true ↦ none
      | false ↦ elim (lstrip (c ∷ s)) [
        | [] ↦ none
        | d ∷ t ↦ if d == 0x9875 && is_empty t then some digits else none
      ]
    ]
  ]

  -- `^第\s*(\d+)\s*页$`: the digits.
  pub page_match : Text → Option Text
  unfolding page_number lstrip
  page_match [] = none
  page_match (c ∷ s) = if c == 0x7b2c then page_number [] (lstrip s) else none

  -- One round of the loop: the sections that it appends, and the new `heading_path` and
  -- `section_lines`.
  read_line : List Text → List Text → Text → List Section × List Text × List Text
  unfolding page_match heading_match mark_path open_section
  read_line heading_path section_lines line =
      open_section heading_path section_lines line
        (mark_path heading_path (page_match line) (heading_match line))

  sections_from : List Text → List Text → List Text → List Section
  unfolding read_line
  sections_from heading_path section_lines [] = close_section heading_path section_lines
  sections_from heading_path section_lines (line ∷ lines) =
      let (closed, path, open_lines) = read_line heading_path section_lines line in
      closed ++ sections_from path open_lines lines

  unfoldable pub sections_of : List Text → List Section
  unfolding sections_from
  sections_of = sections_from [] []

  parents_of : ℕ → ℕ → List Section → List ParentChildChunks
  parents_of chunk_size overlap [] = []
  parents_of chunk_size overlap (s ∷ sections) =
      let parent = clean_text (join (codes "\n") s.lines) in
      let rest = parents_of chunk_size overlap sections in
      if is_empty parent
      then rest
      else record {
        heading_path = s.path;
        parent_content = parent;
        children = split_text parent chunk_size overlap;
      }
        ∷ rest

  unfoldable pub split_parent_child_text : Text → ℕ → ℕ → List ParentChildChunks
  unfolding parents_of sections_of split_lines clean_text split_text join
  split_parent_child_text text chunk_size overlap =
      let content = clean_text text in
      if is_empty content
      then []
      else parents_of chunk_size overlap (sections_of (split_lines content))
