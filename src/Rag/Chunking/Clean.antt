-- ===== src/Rag/Chunking/Clean.antt =====
-- `clean_text` of backend/app/rag/chunking.py, with Python's `str.strip`.
pub mod Laws
use rag_service.Prelude.{
  ℕ, zero, suc, ◌+◌, Text, Bool, true, false, ◌&&◌, ◌||◌, not, List, [], ◌∷◌, any, leb, ◌==◌,
  if◌then◌else◌,
}

-- `str.isspace`, and `\s` of `re`: the code points that Python takes for white space.
unfoldable pub is_space : ℕ → Bool
is_space c =
    (leb 9 c && leb c 13)
    || ((leb 28 c && leb c 32)
        || ((leb 0x2000 c && leb c 0x200a)
            || any (λ d. c == d)
                (0x85 ∷ 0xa0 ∷ 0x1680 ∷ 0x2028 ∷ 0x2029 ∷ 0x202f ∷ 0x205f ∷ 0x3000 ∷ [])))

unfoldable pub lstrip : Text → Text
lstrip [] = []
lstrip (c ∷ s) = let rest = lstrip s in if is_space c then rest else c ∷ s

abbrev pub cons_unless_blank : ℕ → Text → Text
cons_unless_blank c [] = if is_space c then [] else c ∷ []
cons_unless_blank c (d ∷ s) = c ∷ d ∷ s

unfoldable pub rstrip : Text → Text
unfolding is_space
rstrip [] = []
rstrip (c ∷ s) = cons_unless_blank c (rstrip s)

unfoldable pub strip : Text → Text
unfolding lstrip rstrip
strip s = rstrip (lstrip s)

-- `[\x00-\x08\x0b\x0c\x0e-\x1f\x7f]`
unfoldable pub is_control : ℕ → Bool
is_control c = leb c 8 || ((leb 11 c && leb c 12) || ((leb 14 c && leb c 31) || c == 0x7f))

-- `re.sub(r'[\x00-\x08\x0b\x0c\x0e-\x1f\x7f]', '', text)`
remove_controls : Text → Text
remove_controls [] = []
remove_controls (c ∷ s) = let rest = remove_controls s in if is_control c then rest else c ∷ rest

abbrev starts_with_newline : Text → Bool
starts_with_newline [] = false
starts_with_newline (c ∷ s) = c == 10

-- `.replace('\r\n', '\n')`: a return before a newline goes.
replace_crlf : Text → Text
replace_crlf [] = []
replace_crlf (c ∷ s) =
    let rest = replace_crlf s in if c == 13 && starts_with_newline s then rest else c ∷ rest

-- `.replace('\r', '\n')`
replace_cr : Text → Text
replace_cr [] = []
replace_cr (c ∷ s) = (if c == 13 then 10 else c) ∷ replace_cr s

-- `re.sub(r'\n{3,}', '\n\n', …)`: of a run of newlines, of which `run` are read, two are kept.
pub collapse : ℕ → Text → Text
collapse run [] = []
collapse run (c ∷ s) =
    let rest = collapse (if c == 10 then suc run else 0) s in
    if c == 10 && leb 2 run then rest else c ∷ rest

unfoldable pub clean_text : Text → Text
unfolding remove_controls replace_crlf replace_cr collapse strip is_control
clean_text text = strip (collapse 0 (replace_cr (replace_crlf (remove_controls text))))
