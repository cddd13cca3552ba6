-- ===== src/Indexing/Chunker/Normal/Fits.antt =====
-- Children of ordinary blocks fit the soft limit, and the loops that make them end.
use Prim.Native.Nat.{min}
use mathlib.Core.Path.{subst}
use omf_retrieval.Indexing.Chunker.Excerpt.{Excerpt}
use omf_retrieval.Indexing.Chunker.Excerpt.Laws.{slice_excerpt_with_line_ends-Ensures}
use omf_retrieval.Indexing.Chunker.Groups.{ceil_token_group_boundary, token_boundary}
use omf_retrieval.Indexing.Chunker.Groups.Laws.{BeginsAtZero, ceil-Ensures, token_boundary-Halts}
use omf_retrieval.Indexing.Chunker.Normal.{
  NormalSplit, Progress, found_or_raise, last_piece, next_window, plan_of, rest_of_tokens,
  slice_tokens, take_window, window_end_at, window_end_of,
}
use omf_retrieval.Indexing.Chunker.Tokens.{Span, TokenCounter, token_count}
use omf_retrieval.Indexing.Chunker.Tokens.Laws.{token_count-Halts}
use omf_retrieval.Indexing.Chunker.Window.{Chunker, WindowSearchBudget}
use omf_retrieval.Indexing.Chunker.Window.Fits.{Fits, FoundFrom, bounded_window_end-IsWindow}
use omf_retrieval.Prelude.{
  All, All-append, Bool, List, Option, [], arith, false, if◌then◌else◌, is_some, leb, leb→le,
  length, ltb, nat_beq, none, not, ok, refl, some, sym, tests, true, value_error, ℕ, ◌&&◌, ◌++◌,
  ◌-◌, ◌/◌, ◌<◌, ◌>>=◌, ◌∷◌, ◌≡◌, ◌≤◌,
}
use omf_retrieval.Prelude.Ensures.{
  Ensures, Ensures-bind, Ensures-branch, Ensures-if, Ensures-imp, Halts, refused, returned,
}
use omf_retrieval.Prelude.Slices.{slice}
use omf_retrieval.Prelude.Text.{Text}

-- the text of an excerpt fits a limit
abbrev pub FitsIn : Chunker → Text → ℕ → Excerpt → Type 0
FitsIn chunker heading_prefix limit x = Fits chunker.counter heading_prefix limit x.raw_text

-- the text between two characters that are known
pub slice_tokens-Ensures :
    (x : Excerpt) (offsets : List Span) (line_ends : List ℕ) (i j first last : ℕ)
    → token_boundary offsets i (length x.raw_text) ≡ ok first
    → token_boundary offsets j (length x.raw_text) ≡ ok last
    → Ensures (λ y. y.raw_text ≡ slice x.raw_text first last) (slice_tokens x offsets line_ends i j)
unfolding slice_tokens
slice_tokens-Ensures x offsets line_ends i j first last p q =
    rw (p, q, ◌>>=◌) (slice_excerpt_with_line_ends-Ensures x first last line_ends)

rest_of_tokens-Halts :
    (x : Excerpt) (offsets : List Span) (line_ends : List ℕ) (i : ℕ)
    → Halts (rest_of_tokens x offsets line_ends i)
unfolding rest_of_tokens
rest_of_tokens-Halts x offsets line_ends i =
    Ensures-bind (token_boundary offsets i (length x.raw_text)) _
      (token_boundary-Halts offsets i (length x.raw_text))
      λ first q h.
        Ensures-imp (λ y e. tt)
          (slice_excerpt_with_line_ends-Ensures x first (length x.raw_text) line_ends)

-- the part of the loop's variables that does not change is sound
pub record IsSplit (chunker : Chunker) (n : NormalSplit) : Type 0 where
  pub begins : BeginsAtZero n.boundaries
  pub within : n.window_limit ≤ chunker.config.soft_max_tokens

abbrev pub FitsSoft : Chunker → NormalSplit → Excerpt → Type 0
FitsSoft chunker n x = FitsIn chunker n.heading_prefix chunker.config.soft_max_tokens x

abbrev pub AllOption {ℓ κ} : {A : Type ℓ} → (A → Type κ) → Option A → Type κ
AllOption P none = Unit
AllOption P (some a) = P a

pub last_piece-Ensures :
    (chunker : Chunker) (n : NormalSplit) (cursor : ℕ)
    → Ensures (AllOption (FitsSoft chunker n)) (last_piece chunker n cursor)
unfolding last_piece
last_piece-Ensures chunker n cursor =
    let rest = rest_of_tokens n.excerpt n.offsets n.line_ends cursor in
    Ensures-bind rest _ (rest_of_tokens-Halts n.excerpt n.offsets n.line_ends cursor) λ y q h.
      let text = n.heading_prefix ++ y.raw_text in
      Ensures-bind (token_count chunker.counter text) _ (token_count-Halts chunker.counter text)
        λ count q' h'.
          let soft = chunker.config.soft_max_tokens in
          returned (if leb count soft then some y else none)
            (kept_fits (leb count soft) y (λ e. (count, q', leb→le count soft e)))
  where
    kept_fits :
        (b : Bool) (y : Excerpt)
        → (b ≡ true → FitsSoft chunker n y)
        → AllOption (FitsSoft chunker n) (if b then some y else none)
    kept_fits true y f = f refl
    kept_fits false y f = tt

-- a window of the excerpt, from the token of the cursor
abbrev WindowAt : Chunker → NormalSplit → ℕ → ℕ → ℕ → Type 0
WindowAt chunker n cursor limit window_end =
    FoundFrom chunker.counter n.excerpt.raw_text n.offsets cursor n.heading_prefix limit
      (some window_end)

window_end_at-Ensures :
    (chunker : Chunker) (n : NormalSplit) (cursor source_budget limit : ℕ) (allow : Bool)
    (budget : WindowSearchBudget)
    → IsSplit chunker n
    → Ensures
        (λ r.
          FoundFrom chunker.counter n.excerpt.raw_text n.offsets cursor n.heading_prefix limit r.0)
        (window_end_at chunker n cursor source_budget limit allow budget)
unfolding window_end_at
window_end_at-Ensures chunker n cursor source_budget limit allow budget s =
    bounded_window_end-IsWindow chunker.counter n.excerpt.raw_text n.offsets n.boundaries cursor
      (plan_of chunker source_budget allow) n.heading_prefix limit budget s.begins

module _ (counter : TokenCounter) (raw_text : Text) (offsets : List Span) (cursor : ℕ)
    (heading_prefix : Text) (limit soft : ℕ) (below : limit ≤ soft) where
  -- what is found under a limit is found under a greater one
  FoundFrom-mono :
      (found : Option ℕ)
      → FoundFrom counter raw_text offsets cursor heading_prefix limit found
      → FoundFrom counter raw_text offsets cursor heading_prefix soft found
  FoundFrom-mono none h = (h.0, h.1, tt)
  FoundFrom-mono (some e) h = (
    h.0,
    h.1,
    record {
      advances = h.2.advances;
      within = h.2.within;
      last_char = h.2.last_char;
      last_at = h.2.last_at;
      fits = (h.2.fits.0, h.2.fits.1, omega (arith, h.2.fits.2));
    },
  )

found-Ensures :
    (chunker : Chunker) (n : NormalSplit) (cursor : ℕ) (r : Option ℕ × WindowSearchBudget)
    → FoundFrom chunker.counter n.excerpt.raw_text n.offsets cursor n.heading_prefix
        chunker.config.soft_max_tokens r.0
    → Ensures
        (λ r'. WindowAt chunker n cursor chunker.config.soft_max_tokens r'.0)
        (found_or_raise r)
unfolding found_or_raise
found-Ensures chunker n cursor (none, budget) h = refused value_error tt
found-Ensures chunker n cursor (some e, budget) h = returned (e, budget) h

pub window_end_of-Ensures :
    (chunker : Chunker) (n : NormalSplit) (cursor source_budget limit : ℕ)
    (budget : WindowSearchBudget)
    → IsSplit chunker n
    → limit ≤ chunker.config.soft_max_tokens
    → Ensures
        (λ r. WindowAt chunker n cursor chunker.config.soft_max_tokens r.0)
        (window_end_of chunker n cursor source_budget limit budget)
unfolding window_end_of
window_end_of-Ensures chunker n cursor source_budget limit budget s below =
    let soft = chunker.config.soft_max_tokens in
    let exact = nat_beq limit soft in
    Ensures-bind (window_end_at chunker n cursor source_budget limit exact budget) _
      (window_end_at-Ensures chunker n cursor source_budget limit exact budget s)
      λ first q h.
        Ensures-bind
          (if not (is_some first.0) && ltb limit soft
            then window_end_at chunker n cursor n.soft_budget soft true first.1
            else ok first)
          found_or_raise
          (Ensures-branch _ _ _
            (window_end_at-Ensures chunker n cursor n.soft_budget soft true first.1 s)
            (returned first (FoundFrom-mono _ _ _ _ _ _ _ below first.0 h)))
          λ found q' h'. found-Ensures chunker n cursor found h'

-- after a window, all chunks fit and the cursor has grown
pub record Advanced (chunker : Chunker) (n : NormalSplit) (p p' : Progress) : Type 0 where
  pub chunks_fit : All (FitsSoft chunker n) p'.chunks
  pub started : p.cursor < length n.offsets
  pub grown : p.cursor < p'.cursor

take_window-Ensures :
    (chunker : Chunker) (n : NormalSplit) (p : Progress) (window_end : ℕ)
    (budget : WindowSearchBudget)
    → All (FitsSoft chunker n) p.chunks
    → WindowAt chunker n p.cursor chunker.config.soft_max_tokens window_end
    → Ensures (Advanced chunker n p) (take_window chunker n p window_end budget)
unfolding take_window
take_window-Ensures chunker n p window_end budget a (first_char, first_at, w) =
    let overlap = min chunker.config.overlap_tokens ((window_end - p.cursor) / 2) in
    Ensures-bind (slice_tokens n.excerpt n.offsets n.line_ends p.cursor window_end) _
      (slice_tokens-Ensures n.excerpt n.offsets n.line_ends p.cursor window_end first_char
        w.last_char first_at w.last_at)
      λ piece q text.
        Ensures-bind (ceil_token_group_boundary n.boundaries (window_end - overlap)) _
          (ceil-Ensures n.boundaries (window_end - overlap))
          λ cursor q' le.
            let before = w.advances in
            let within = w.within in
            returned _ (record {
              chunks_fit = All-append (FitsSoft chunker n) p.chunks (piece ∷ []) a (
                subst (λ t. Fits chunker.counter n.heading_prefix chunker.config.soft_max_tokens t)
                    (sym text) w.fits,
                tt,
              );
              started = omega arith;
              grown = omega arith;
            })

pub next_window-Ensures :
    (chunker : Chunker) (n : NormalSplit) (p : Progress) (source_budget limit : ℕ)
    → IsSplit chunker n
    → limit ≤ chunker.config.soft_max_tokens
    → All (FitsSoft chunker n) p.chunks
    → Ensures (Advanced chunker n p) (next_window chunker n p source_budget limit)
unfolding next_window
next_window-Ensures chunker n p source_budget limit s below a =
    Ensures-bind (window_end_of chunker n p.cursor source_budget limit p.search_budget) _
      (window_end_of-Ensures chunker n p.cursor source_budget limit p.search_budget s below)
      λ r q h.
        let before = h.2.advances in
        let within = h.2.within in
        Ensures-if (leb r.0 p.covered_end) _ _
          (λ covered.
            returned (record p { cursor = p.covered_end; search_budget = r.1 })
              (record {
                chunks_fit = a;
                started = omega arith;
                grown = omega (tests, leb→le r.0 p.covered_end covered);
              }))
          (λ fresh. take_window-Ensures chunker n p r.0 r.1 a h)
