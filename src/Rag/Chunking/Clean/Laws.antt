-- ===== src/Rag/Chunking/Clean/Laws.antt =====
-- What `clean_text` leaves, and that it changes nothing in a text that it has cleaned.
use rag_service.Prelude.{
  ℕ, suc, ◌≤◌, ◌<◌, ==_iff, Text, false, ◌&&◌, [], ◌∷◌, leb, ◌==◌, if◌then◌else◌, ◌≡◌, refl, arith,
  All, Bool-cases, inl, inr, length, ap,
}
use rag_service.Rag.Chunking.Clean.{
  is_space, lstrip, rstrip, strip, is_control, remove_controls, replace_crlf, replace_cr, collapse,
  clean_text, cons_unless_blank,
}

-- A code point that `clean_text` keeps: no control character and no carriage return.
pub record IsKept (c : ℕ) : Type 0 where
  pub visible : is_control c ≡ false
  pub no_return : c == 13 ≡ false

-- No run of newlines that goes on behind `run` newlines is longer than two.
abbrev pub HasShortRuns : ℕ → Text → Type 0
HasShortRuns run [] = Unit
HasShortRuns run (c ∷ s) = (c ≡ 10 → run < 2) × HasShortRuns (if c == 10 then suc run else 0) s

-- A clean text: its code points are kept ones, no run of newlines is longer than two, and it
-- neither begins nor ends with white space.
pub record IsClean (s : Text) : Type 0 where
  pub kept : All IsKept s
  pub short_runs : HasShortRuns 0 s
  pub left : lstrip s ≡ s
  pub right : rstrip s ≡ s

abbrev IsVisible : ℕ → Type 0
IsVisible c = is_control c ≡ false

remove_controls-IsVisible : (s : Text) → All IsVisible (remove_controls s)
unfolding remove_controls
remove_controls-IsVisible [] = tt
remove_controls-IsVisible (c ∷ s) = elim (Bool-cases (is_control c)) [
  | inl e ↦ rw e (remove_controls-IsVisible s)
  | inr e ↦ rw e (e, remove_controls-IsVisible s)
]

replace_crlf-IsVisible : (s : Text) → All IsVisible s → All IsVisible (replace_crlf s)
unfolding replace_crlf
replace_crlf-IsVisible [] h = tt
replace_crlf-IsVisible (c ∷ s) h = ground (arith, replace_crlf-IsVisible s h.1)

replace_cr-IsKept : (s : Text) → All IsVisible s → All IsKept (replace_cr s)
unfolding replace_cr
replace_cr-IsKept [] h = tt
replace_cr-IsKept (c ∷ s) h = elim (Bool-cases (c == 13)) [
  | inl e ↦
      rw e
        (record { visible = unfold is_control in refl; no_return = refl }, replace_cr-IsKept s h.1)
  | inr e ↦ rw e (record { visible = h.0; no_return = e }, replace_cr-IsKept s h.1)
]

abbrev next_run : ℕ → ℕ → ℕ
next_run run c = if c == 10 then suc run else 0

collapse-IsKept : (run : ℕ) (s : Text) → All IsKept s → All IsKept (collapse run s)
unfolding collapse
collapse-IsKept run [] h = tt
collapse-IsKept run (c ∷ s) h = ground (arith, collapse-IsKept (next_run run c) s h.1)

-- From the second newline on, the length of the run no longer matters.
collapse_saturates : (run : ℕ) (s : Text) → 2 ≤ run → collapse (suc run) s ≡ collapse run s
unfolding collapse
collapse_saturates run [] h = refl
collapse_saturates run (c ∷ s) h = ground (arith, collapse_saturates (suc run) s)

collapse-collapse : (run : ℕ) (s : Text) → collapse run (collapse run s) ≡ collapse run s
unfolding collapse
collapse-collapse run [] = refl
collapse-collapse run (c ∷ s) =
    ground (
      arith,
      collapse-collapse (next_run run c) s,
      collapse-collapse run s,
      collapse_saturates run s,
    )

length-collapse : (run : ℕ) (s : Text) → length (collapse run s) ≤ length s
unfolding collapse
length-collapse run [] = omega arith
length-collapse run (c ∷ s) = ground (arith, length-collapse (next_run run c) s)

-- A text with short runs has short runs behind its first code point.
short_tail : (run c : ℕ) (s : Text) → collapse run (c ∷ s) ≡ c ∷ s → collapse (next_run run c) s ≡ s
unfolding collapse
short_tail run c s h = ground (arith, length-collapse (next_run run c) s, ap length h)

short_le : (j k : ℕ) (s : Text) → j ≤ k → collapse k s ≡ s → collapse j s ≡ s
unfolding collapse
short_le j k [] le h = refl
short_le j k (c ∷ s) le h = ground (
  arith,
  length-collapse (next_run k c) s,
  ap length h,
  short_tail k c s h,
  short_le (suc j) (suc k) s,
)

lstrip_short : (s : Text) → collapse 0 s ≡ s → collapse 0 (lstrip s) ≡ lstrip s
unfolding lstrip
lstrip_short [] h = h
lstrip_short (c ∷ s) h =
    ground (arith, lstrip_short s, short_le 0 (next_run 0 c) s, short_tail 0 c s h)

length-lstrip : (s : Text) → length (lstrip s) ≤ length s
unfolding lstrip
length-lstrip [] = omega arith
length-lstrip (c ∷ s) = ground (arith, length-lstrip s)

lstrip-lstrip : (s : Text) → lstrip (lstrip s) ≡ lstrip s
unfolding lstrip
lstrip-lstrip [] = refl
lstrip-lstrip (c ∷ s) = ground (arith, lstrip-lstrip s)

lstrip-IsKept : (s : Text) → All IsKept s → All IsKept (lstrip s)
unfolding lstrip
lstrip-IsKept [] h = tt
lstrip-IsKept (c ∷ s) h = ground (arith, lstrip-IsKept s h.1)

rstrip-IsKept : (s : Text) → All IsKept s → All IsKept (rstrip s)
unfolding rstrip
rstrip-IsKept [] h = tt
rstrip-IsKept (c ∷ s) h = cons_kept c (rstrip s) h.0 (rstrip-IsKept s h.1)
  where
    cons_kept : (c : ℕ) (s : Text) → IsKept c → All IsKept s → All IsKept (cons_unless_blank c s)
    cons_kept c [] k h = ground arith
    cons_kept c (d ∷ s) k h = (k, h)

rstrip-rstrip : (s : Text) → rstrip (rstrip s) ≡ rstrip s
unfolding rstrip
rstrip-rstrip [] = refl
rstrip-rstrip (c ∷ s) = again c (rstrip s) (rstrip-rstrip s)
  where
    again :
        (c : ℕ) (s : Text) → rstrip s ≡ s → rstrip (cons_unless_blank c s) ≡ cons_unless_blank c s
    again c [] e = ground arith
    again c (d ∷ s) e = rw e

short_head : (run c : ℕ) (s : Text) → collapse run (c ∷ s) ≡ c ∷ s → (c == 10 && leb 2 run) ≡ false
unfolding collapse
short_head run c s h = ground (arith, length-collapse (next_run run c) s, ap length h)

cons_short :
    (run c : ℕ) (t : Text)
    → (c == 10 && leb 2 run) ≡ false
    → collapse (next_run run c) t ≡ t
    → collapse run (cons_unless_blank c t) ≡ cons_unless_blank c t
unfolding collapse
cons_short run c [] h e = ground arith
cons_short run c (d ∷ t) h e = rw h (ap (λ (u : Text). c ∷ u) e)

rstrip_short : (run : ℕ) (s : Text) → collapse run s ≡ s → collapse run (rstrip s) ≡ rstrip s
unfolding rstrip
rstrip_short run [] h = h
rstrip_short run (c ∷ s) h =
    cons_short run c (rstrip s) (short_head run c s h)
      (rstrip_short (next_run run c) s (short_tail run c s h))

lstrip_head : (c : ℕ) (s : Text) → lstrip (c ∷ s) ≡ c ∷ s → is_space c ≡ false
unfolding lstrip
lstrip_head c s h = ground (arith, length-lstrip s, ap length h)

cons_left :
    (c : ℕ) (t : Text) → is_space c ≡ false → lstrip (cons_unless_blank c t) ≡ cons_unless_blank c t
unfolding lstrip
cons_left c [] h = ground arith
cons_left c (d ∷ t) h = rw h

rstrip_left : (s : Text) → lstrip s ≡ s → lstrip (rstrip s) ≡ rstrip s
unfolding rstrip
rstrip_left [] h = unfold lstrip in refl
rstrip_left (c ∷ s) h = cons_left c (rstrip s) (lstrip_head c s h)

-- What `collapse` leaves alone is what has short runs.
fixed-HasShortRuns : (run : ℕ) (s : Text) → collapse run s ≡ s → HasShortRuns run s
fixed-HasShortRuns run [] h = tt
fixed-HasShortRuns run (c ∷ s) h = (
  λ e. (let head = short_head run c s h in ground arith),
  fixed-HasShortRuns (next_run run c) s (short_tail run c s h),
)

HasShortRuns-fixed : (run : ℕ) (s : Text) → HasShortRuns run s → collapse run s ≡ s
unfolding collapse
HasShortRuns-fixed run [] h = refl
HasShortRuns-fixed run (c ∷ s) h =
    let head : (c == 10 && leb 2 run) ≡ false = elim (Bool-cases (c == 10)) [
      | inl e ↦ (let short = h.0 ((==_iff c 10).0 e) in ground arith)
      | inr e ↦ rw e
    ] in
    rw head (ap (λ (t : Text). c ∷ t) (HasShortRuns-fixed (next_run run c) s h.1))

cleaned : (s : Text) → IsClean (clean_text s)
unfolding clean_text strip
cleaned s =
    let t : Text = replace_cr (replace_crlf (remove_controls s)) in
    let u : Text = collapse 0 t in
    let ku =
      collapse-IsKept 0 t
        (replace_cr-IsKept _ (replace_crlf-IsVisible _ (remove_controls-IsVisible s))) in
    record {
      kept = rstrip-IsKept (lstrip u) (lstrip-IsKept u ku);
      short_runs =
          fixed-HasShortRuns 0 (rstrip (lstrip u))
            (rstrip_short 0 (lstrip u) (lstrip_short u (collapse-collapse 0 t)));
      left = rstrip_left (lstrip u) (lstrip-lstrip u);
      right = rstrip-rstrip (lstrip u);
    }

remove_controls_fixed : (s : Text) → All IsKept s → remove_controls s ≡ s
unfolding remove_controls
remove_controls_fixed [] h = refl
remove_controls_fixed (c ∷ s) h = rw (h.0.visible, remove_controls_fixed s h.1)

replace_crlf_fixed : (s : Text) → All IsKept s → replace_crlf s ≡ s
unfolding replace_crlf
replace_crlf_fixed [] h = refl
replace_crlf_fixed (c ∷ s) h = rw (h.0.no_return, replace_crlf_fixed s h.1)

replace_cr_fixed : (s : Text) → All IsKept s → replace_cr s ≡ s
unfolding replace_cr
replace_cr_fixed [] h = refl
replace_cr_fixed (c ∷ s) h = rw (h.0.no_return, replace_cr_fixed s h.1)

IsClean-fixed : (s : Text) → IsClean s → clean_text s ≡ s
unfolding clean_text strip
IsClean-fixed s h = rw (
  remove_controls_fixed s h.kept,
  replace_crlf_fixed s h.kept,
  replace_cr_fixed s h.kept,
  HasShortRuns-fixed 0 s h.short_runs,
  h.left,
  h.right,
)

-- What `clean_text` returns is clean: it holds no control character and no carriage return, no run
-- of three newlines, and no white space at its ends; and cleaning it again changes nothing.
pub clean_text-IsClean :
    (s : Text) → IsClean (clean_text s) × (clean_text (clean_text s) ≡ clean_text s)
clean_text-IsClean s = (cleaned s, IsClean-fixed (clean_text s) (cleaned s))

length-rstrip : (s : Text) → length (rstrip s) ≤ length s
unfolding rstrip
length-rstrip [] = omega arith
length-rstrip (c ∷ s) = grows c (rstrip s) (length-rstrip s)
  where
    grows : (c : ℕ) {n : ℕ} (t : Text) → length t ≤ n → length (cons_unless_blank c t) ≤ suc n
    grows c [] h = ground arith
    grows c (d ∷ t) h = omega arith

pub length-strip : (s : Text) → length (strip s) ≤ length s
unfolding strip
length-strip s = omega (arith, length-rstrip (lstrip s), length-lstrip s)
