-- ===== src/Rag/Context/Budget.antt =====
-- `build_bounded_context` of backend/app/rag/context.py: the bounds of the context.
use mathlib.Core.Path.{subst}
use rag_service.Prelude.{
  ℕ, suc, ◌+◌, ◌-◌, ◌*◌, ◌≤◌, Text, codes, false, ◌||◌, List, [], ◌∷◌, ◌++◌, map, length, ltb, leb,
  ◌==◌, All, ◌≡◌, refl, sym, ap, ◌∙◌, arith, Bool-cases, inl, inr, append-nil, append_assoc,
  get_elem?, some,
}
use rag_service.Rag.Exec.{ok}
use rag_service.Rag.Chunking.Clean.{rstrip, cons_unless_blank, is_space}
use rag_service.Rag.Chunking.Split.{is_empty}
use rag_service.Rag.Chunking.Sections.{join}
use rag_service.Rag.Context.{
  Source, ContextSelection, cost, estimate_token_units, take_units, truncate_to_units, is_seen,
  prefix_of, available_to, select_sources, part_of, build_bounded_context,
}

units-append :
    (s t : Text) → estimate_token_units (s ++ t) ≡ estimate_token_units s + estimate_token_units t
unfolding estimate_token_units
units-append [] t = omega arith
units-append (c ∷ s) t = omega (arith, units-append s t)

-- `s` is a beginning of `text`.
abbrev pub IsPrefix : Text → Text → Type 0
IsPrefix s text = (rest : Text) × (s ++ rest ≡ text)

units-IsPrefix :
    (s text : Text) → IsPrefix s text → estimate_token_units s ≤ estimate_token_units text
units-IsPrefix s text (rest, e) =
    subst (λ t. estimate_token_units s ≤ estimate_token_units t) e
      (omega (arith, units-append s rest))

cons_blank-IsPrefix : (c : ℕ) (s : Text) → IsPrefix (cons_unless_blank c s) (c ∷ s)
cons_blank-IsPrefix c [] = elim (Bool-cases (is_space c)) [
  | inl e ↦ rw e (c ∷ [], refl)
  | inr e ↦ rw e ([], refl)
]
cons_blank-IsPrefix c (d ∷ s) = ([], append-nil _)

prefix_trans : (r s t : Text) → IsPrefix r s → IsPrefix s t → IsPrefix r t
prefix_trans r s t (x, e) (y, f) = (x ++ y, sym (append_assoc r x y) ∙ ap (λ z. z ++ y) e ∙ f)

rstrip-IsPrefix : (s : Text) → IsPrefix (rstrip s) s
unfolding rstrip
rstrip-IsPrefix [] = ([], refl)
rstrip-IsPrefix (c ∷ s) =
    let (rest, e) = rstrip-IsPrefix s in
    prefix_trans _ (c ∷ rstrip s) _ (cons_blank-IsPrefix c (rstrip s)) (rest, ap (λ t. c ∷ t) e)

take_units-IsPrefix : (available used : ℕ) (s : Text) → IsPrefix (take_units available used s) s
unfolding take_units
take_units-IsPrefix available used [] = ([], refl)
take_units-IsPrefix available used (c ∷ s) = elim (Bool-cases (ltb available (used + cost c))) [
  | inl e ↦ rw e (c ∷ s, refl)
  | inr e ↦
      rw e (
        let (rest, h) = take_units-IsPrefix available (used + cost c) s in
        (rest, ap (λ t. c ∷ t) h))
]

take_units_bound :
    (available used : ℕ) (s : Text)
    → used ≤ available
    → used + estimate_token_units (take_units available used s) ≤ available
unfolding take_units estimate_token_units
take_units_bound available used [] h = omega arith
take_units_bound available used (c ∷ s) h =
    ground (arith, take_units_bound available (used + cost c) s)

truncated :
    (text : Text) (available : ℕ)
    → IsPrefix (truncate_to_units text available) text
      × (estimate_token_units (truncate_to_units text available) ≤ available)
unfolding truncate_to_units
truncated text available =
    let cut = take_units available 0 text in
    (
      prefix_trans _ cut _ (rstrip-IsPrefix cut) (take_units-IsPrefix available 0 text),
      (let a = units-IsPrefix _ cut (rstrip-IsPrefix cut) in
          let b = take_units_bound available 0 text in omega arith),
    )

-- A source of the list, of whose content a non-empty beginning was kept, and nothing else changed.
abbrev pub IsCut : List Source → Source → Type 0
IsCut sources s =
    (i : ℕ) × (x : Source) × (get_elem? sources i ≡ some x)
    × (s ≡ record x { content = s.content })
    × IsPrefix s.content x.content
    × (is_empty s.content ≡ false)

weaken :
    (source : Source) (sources ss : List Source)
    → All (IsCut sources) ss
    → All (IsCut (source ∷ sources)) ss
weaken source sources [] h = tt
weaken source sources (s ∷ ss) h =
    let (i, x, at, same, cut, full) = h.0 in
    ((suc i, x, at, same, cut, full), weaken source sources ss h.1)

total_units : List Source → ℕ
total_units [] = 0
total_units (s ∷ ss) = estimate_token_units (part_of s) + total_units ss

-- What the loop promises behind `used_units` units and `count` sources.
record Bounded (max_sources max_units used_units count : ℕ) (sources selected : List Source)
    : Type 0 where
  fits : used_units + total_units selected ≤ max_units
  few : count + length selected ≤ max_sources
  cuts : All (IsCut sources) selected

stop :
    (max_sources max_units used_units count : ℕ) (sources : List Source)
    → used_units ≤ max_units
    → count ≤ max_sources
    → Bounded max_sources max_units used_units count sources []
unfolding total_units
stop ms mu used count sources h c = record { fits = omega arith; few = omega arith; cuts = tt }

-- A source that is taken, and what is taken behind it.
take_one :
    (max_sources max_units used_units count : ℕ) (source : Source) (sources rest : List Source)
    (content : Text)
    → IsPrefix content source.content
    → is_empty content ≡ false
    → Bounded max_sources max_units
        (used_units + estimate_token_units (prefix_of source ++ content))
        (suc count)
        sources
        rest
    → Bounded max_sources max_units used_units count
        (source ∷ sources)
        (record source { content = content } ∷ rest)
unfolding total_units
take_one ms mu used count source sources rest content cut full b =
    let fits = b.fits in
    let few = b.few in
    record {
      fits = omega arith;
      few = omega arith;
      cuts = ((0, source, refl, refl, cut, full), weaken source sources rest b.cuts);
    }

-- The units of a part that is taken fit.
part_fits :
    (max_units used_units : ℕ) (source : Source) (content : Text)
    → estimate_token_units content ≤ available_to max_units used_units source
    → (available_to max_units used_units source == 0) ≡ false
    → used_units + estimate_token_units (prefix_of source ++ content) ≤ max_units
part_fits mu used source content h positive =
    rw (units-append (prefix_of source) content) (ground arith)

select-Bounded :
    (max_sources max_units used_units : ℕ) (seen sources : List Source)
    → used_units ≤ max_units
    → length seen ≤ max_sources
    → Bounded max_sources max_units used_units
        (length seen)
        sources
        (select_sources max_sources max_units used_units seen sources)
unfolding select_sources
select-Bounded ms mu used seen [] h c = stop ms mu used (length seen) [] h c
select-Bounded ms mu used seen (s ∷ ss) h c =
    let available = available_to mu used s in
    let content = truncate_to_units s.content available in
    let (cut, small) = truncated s.content available in
    let next = used + estimate_token_units (prefix_of s ++ content) in
    elim (Bool-cases (is_seen s seen || length seen == ms)) [
      | inl e ↦
          rw (select_sources, e)
            (let r = select-Bounded ms mu used seen ss h c in
              record { fits = r.fits; few = r.few; cuts = weaken s ss _ r.cuts })
      | inr e ↦ elim (Bool-cases (available == 0 || is_empty content)) [
        | inl e2 ↦ rw (select_sources, e, e2) (stop ms mu used (length seen) (s ∷ ss) h c)
        | inr e2 ↦
            let fits : next ≤ mu = part_fits mu used s content small (ground arith) in
            elim (Bool-cases (leb mu next)) [
              | inl e3 ↦
                  rw (select_sources, e, e2, e3)
                    (take_one ms mu used (length seen) s ss [] content cut (ground arith)
                      (stop ms mu next (suc (length seen)) ss fits (ground arith)))
              | inr e3 ↦
                  rw (select_sources, e, e2, e3)
                    (take_one ms mu used (length seen) s ss _ content cut (ground arith)
                      (select-Bounded ms mu next (s ∷ seen) ss fits (ground arith)))
            ]
      ]
    ]

joined_units :
    (ss : List Source)
    → estimate_token_units (join (codes "\n\n") (map part_of ss))
      ≤ total_units ss + 2 * (length ss - 1)
unfolding join total_units
joined_units [] = unfold estimate_token_units in omega arith
joined_units (s ∷ []) = omega arith
joined_units (s ∷ t ∷ ss) =
    let rest = joined_units (t ∷ ss) in
    let a = units-append (part_of s) (codes "\n\n" ++ join (codes "\n\n") (map part_of (t ∷ ss))) in
    let b = units-append (codes "\n\n") (join (codes "\n\n") (map part_of (t ∷ ss))) in
    let two : estimate_token_units (codes "\n\n") ≡ 2 = unfold estimate_token_units cost in refl in
    omega arith

-- With a positive number of sources and of tokens, a context is built: it is the chosen sources,
-- each as its citation, a space and its content, with an empty line between two; they are at most
-- `max_sources`; each is a source of the list, with a non-empty beginning of its content; and the
-- estimate of the whole context is at most four units a token, and two more for every empty line.
pub build_bounded_context_lem :
    (sources : List Source) (max_sources max_tokens : ℕ)
    → 1 ≤ max_sources
    → 1 ≤ max_tokens
    → (selection : ContextSelection) × (build_bounded_context sources max_sources max_tokens
        ≡ ok selection)
      × (selection.context ≡ join (codes "\n\n") (map part_of selection.sources))
      × (length selection.sources ≤ max_sources)
      × All (IsCut sources) selection.sources
      × (estimate_token_units selection.context
          ≤ 4 * max_tokens + 2 * (length selection.sources - 1))
unfolding build_bounded_context
build_bounded_context_lem sources max_sources max_tokens hs ht =
    let selected = select_sources max_sources (max_tokens * 4) 0 [] sources in
    let b = select-Bounded max_sources (max_tokens * 4) 0 [] sources (omega arith) (omega arith) in
    let fits = b.fits in
    let few = b.few in
    let joined = joined_units selected in
    let valid : (max_sources == 0 || max_tokens == 0) ≡ false = ground arith in
    (
      record { context = join (codes "\n\n") (map part_of selected); sources = selected },
      rw valid,
      refl,
      omega arith,
      b.cuts,
      omega arith,
    )
