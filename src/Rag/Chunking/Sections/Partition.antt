-- ===== src/Rag/Chunking/Sections/Partition.antt =====
-- The sections are a partition of the lines, and every section lies under at most six headings.
use rag_service.Prelude.{
  ℕ, ◌-◌, ◌≤◌, Text, Bool, List, [], ◌∷◌, ◌++◌, append_assoc, append-nil, take, length, All,
  All-append, concat, map, Option, none, some, ◌≡◌, refl, sym, ap, ◌∙◌, arith, length-append,
  length-take,
}
use rag_service.Rag.Chunking.Sections.{
  Section, heading_match, page_match, mark_path, open_section, close_section, read_line,
  sections_from, sections_of,
}

abbrev pub lines_of : List Section → List Text
lines_of sections = concat (map (λ (s : Section). s.lines) sections)

lines_of-append : (xs ys : List Section) → lines_of (xs ++ ys) ≡ lines_of xs ++ lines_of ys
lines_of-append [] ys = refl
lines_of-append (x ∷ xs) ys = simp (lines_of-append xs ys, append_assoc)

lines_of-close : (path lines : List Text) → lines_of (close_section path lines) ≡ lines
lines_of-close path [] = refl
lines_of-close path (l ∷ ls) = append-nil (l ∷ ls)

-- A section lies under at most six headings.
abbrev pub IsShallow : Section → Type 0
IsShallow s = length s.path ≤ 6

close-IsShallow :
    (path lines : List Text) → length path ≤ 6 → All IsShallow (close_section path lines)
close-IsShallow path [] h = tt
close-IsShallow path (l ∷ ls) h = (h, tt)

heading_level :
    (line : Text) (level : ℕ) (title : Text) → heading_match line ≡ some (level, title) → level ≤ 6
unfolding heading_match
heading_level line level title h = ground arith

open_section_lines :
    (path open_lines : List Text) (line : Text) (mark : Option (List Text))
    → let (closed, _, next) = open_section path open_lines line mark in
      lines_of closed ++ next ≡ open_lines ++ line ∷ []
unfolding open_section
open_section_lines path open_lines line none = refl
open_section_lines path open_lines line (some p) =
    ap (λ (l : List Text). l ++ line ∷ []) (lines_of-close path open_lines)

mark_shallow :
    (path : List Text) (page : Option Text) (heading : Option (ℕ × Text)) (p : List Text)
    → length path ≤ 6
    → ((level : ℕ) (title : Text) → heading ≡ some (level, title) → level ≤ 6)
    → mark_path path page heading ≡ some p
    → length p ≤ 6
unfolding mark_path
mark_shallow path (some page) heading p h fits e = ground arith
mark_shallow path none (some (level, title)) p h fits e = ground (
  arith,
  fits level title refl,
  length-append (take (level - 1) path) (title ∷ []),
  length-take (level - 1) path,
)
mark_shallow path none none p h fits e = ground arith

open_section-IsShallow :
    (path open_lines : List Text) (line : Text) (mark : Option (List Text))
    → length path ≤ 6
    → ((p : List Text) → mark ≡ some p → length p ≤ 6)
    → All IsShallow (open_section path open_lines line mark).0
      × (length (open_section path open_lines line mark).1 ≤ 6)
unfolding open_section
open_section-IsShallow path open_lines line none h fits = (tt, h)
open_section-IsShallow path open_lines line (some p) h fits =
    (close-IsShallow path open_lines h, fits p refl)

module _ (is_digit : ℕ → Bool) where
  read_line_lines :
      (path open_lines : List Text) (line : Text)
      → let (closed, _, next) = read_line is_digit path open_lines line in
        lines_of closed ++ next ≡ open_lines ++ line ∷ []
  unfolding read_line
  read_line_lines path open_lines line = open_section_lines path open_lines line _

  sections_from_lines :
      (path open_lines lines : List Text)
      → lines_of (sections_from is_digit path open_lines lines) ≡ open_lines ++ lines
  unfolding sections_from
  sections_from_lines path open_lines [] =
      lines_of-close path open_lines ∙ sym (append-nil open_lines)
  sections_from_lines path open_lines (line ∷ lines) =
      let (closed, path', next) = read_line is_digit path open_lines line in
      lines_of-append closed (sections_from is_digit path' next lines)
      ∙ ap (λ (l : List Text). lines_of closed ++ l) (sections_from_lines path' next lines)
      ∙ sym (append_assoc (lines_of closed) next lines)
      ∙ ap (λ (l : List Text). l ++ lines) (read_line_lines path open_lines line)
      ∙ append_assoc open_lines (line ∷ []) lines

  read_line-IsShallow :
      (path open_lines : List Text) (line : Text)
      → length path ≤ 6
      → All IsShallow (read_line is_digit path open_lines line).0
        × (length (read_line is_digit path open_lines line).1 ≤ 6)
  unfolding read_line
  read_line-IsShallow path open_lines line h = open_section-IsShallow path open_lines line _ h (λ p.
      mark_shallow path (page_match is_digit line) (heading_match line) p h (heading_level line))

  sections_from-IsShallow :
      (path open_lines lines : List Text)
      → length path ≤ 6
      → All IsShallow (sections_from is_digit path open_lines lines)
  unfolding sections_from
  sections_from-IsShallow path open_lines [] h = close-IsShallow path open_lines h
  sections_from-IsShallow path open_lines (line ∷ lines) h =
      let r = read_line is_digit path open_lines line in
      let k = read_line-IsShallow path open_lines line h in
      All-append IsShallow r.0 (sections_from is_digit r.1 r.2 lines) k.0
        (sections_from-IsShallow r.1 r.2 lines k.1)

  -- The lines of the sections, in order, are exactly the lines of the text, and no section lies
  -- under more than six headings.
  pub sections_partition :
      (lines : List Text)
      → (lines_of (sections_of is_digit lines) ≡ lines) × All IsShallow (sections_of is_digit lines)
  unfolding sections_of
  sections_partition lines =
      (sections_from_lines [] [] lines, sections_from-IsShallow [] [] lines (omega arith))
