-- ===== src/Indexing/Chunker/Window/Fits.antt =====
-- A window that is found reaches past its first token, ends within the text and fits its limit.
use Prim.Native.Nat.{min}
use omf_retrieval.Indexing.Chunker.Groups.{floor_token_group_boundary, token_boundary}
use omf_retrieval.Indexing.Chunker.Groups.Laws.{BeginsAtZero, floor-Ensures, token_boundary-Halts}
use omf_retrieval.Indexing.Chunker.Tokens.{Span, TokenCounter, token_count}
use omf_retrieval.Indexing.Chunker.Tokens.Laws.{token_count-Halts}
use omf_retrieval.Indexing.Chunker.Window.{
  Probes, WindowPlan, WindowSearch, WindowSearchBudget, bounded_window_end, consume,
  corrected_window_end, is_above, probe_window, search_from, searched_window_end, tried_window_end,
  try_ends, unique_floors, window_probe_ends, window_probe_limit,
}
use omf_retrieval.Indexing.Chunker.Window.Ends.{unique_floors-Ensures, window_probe_ends-Ensures}
use omf_retrieval.Prelude.{
  All, All-imp, Bool, Bool-cases, List, Option, [], arith, false, if◌then◌else◌, inl, inr, leb,
  leb→le, length, none, ok, refl, some, true, value_error, ℕ, ◌&&◌, ◌++◌, ◌+◌, ◌<◌, ◌∷◌, ◌≡◌, ◌≤◌,
}
use omf_retrieval.Prelude.Ensures.{
  Ensures, Ensures-bind, Ensures-branch, Ensures-if, Ensures-imp, Ensures-require, Halts, returned,
}
use omf_retrieval.Prelude.Slices.{slice}
use omf_retrieval.Prelude.Text.{Text}

-- the text, after the prefix, has no more tokens than the limit
abbrev pub Fits : TokenCounter → Text → ℕ → Text → Type 0
Fits counter heading_prefix limit text =
    (n : ℕ) × (token_count counter (heading_prefix ++ text) ≡ ok n) × (n ≤ limit)

-- the text of a window from its first character to the end of its tokens
pub record IsWindow (counter : TokenCounter) (w : WindowSearch) (window_end : ℕ) : Type 0 where
  pub advances : w.first_token < window_end
  pub within : window_end ≤ length w.offsets
  pub last_char : ℕ
  pub last_at : token_boundary w.offsets window_end (length w.raw_text) ≡ ok last_char
  pub fits : Fits counter w.heading_prefix w.token_limit (slice w.raw_text w.first_char last_char)

abbrev pub FoundWindow : TokenCounter → WindowSearch → Option ℕ → Type 0
FoundWindow counter w none = Unit
FoundWindow counter w (some window_end) = IsWindow counter w window_end

consume-Halts : (b : WindowSearchBudget) (n : ℕ) → Halts (consume b n)
unfolding consume
consume-Halts b n =
    Ensures-require (leb 1 b.calls_left && leb n b.input_chars_left) value_error _ tt
      λ e. returned _ tt

-- a probe that returns has counted the tokens of the window
abbrev IsProbed : TokenCounter → WindowSearch → ℕ → ℕ × Probes → Type 0
IsProbed counter w window_end r =
    (last_char : ℕ) × (token_boundary w.offsets window_end (length w.raw_text) ≡ ok last_char)
    × (token_count counter (w.heading_prefix ++ slice w.raw_text w.first_char last_char) ≡ ok r.0)

probe_window-Ensures :
    (counter : TokenCounter) (w : WindowSearch) (window_end : ℕ) (p : Probes)
    → Ensures (IsProbed counter w window_end) (probe_window counter w window_end p)
unfolding probe_window
probe_window-Ensures counter w window_end p =
    Ensures-require (leb (p.made + 1) window_probe_limit) value_error _ tt λ allowed.
      Ensures-bind _ _ (token_boundary-Halts w.offsets window_end (length w.raw_text))
        λ last_char e h.
          let text = w.heading_prefix ++ slice w.raw_text w.first_char last_char in
          Ensures-bind _ _ (consume-Halts p.budget (length text)) λ budget e' h'.
            Ensures-bind _ _ (token_count-Halts counter text) λ count e'' h''.
              returned (count, record { made = p.made + 1; budget = budget }) (last_char, e, e'')

Probed-IsWindow :
    (counter : TokenCounter) (w : WindowSearch) (window_end : ℕ) (r : ℕ × Probes)
    → w.first_token < window_end
    → window_end ≤ length w.offsets
    → IsProbed counter w window_end r
    → r.0 ≤ w.token_limit
    → IsWindow counter w window_end
Probed-IsWindow counter w window_end r a b h n = record {
  advances = a;
  within = b;
  last_char = h.0;
  last_at = h.1;
  fits = (r.0, h.2, n);
}

better-FoundWindow :
    (counter : TokenCounter) (w : WindowSearch) (b : Bool) (e : ℕ) (best : Option ℕ)
    → (b ≡ true → IsWindow counter w e)
    → FoundWindow counter w best
    → FoundWindow counter w (if b then some e else best)
better-FoundWindow counter w true e best f h = f refl
better-FoundWindow counter w false e best f h = h

try_ends-Ensures :
    (counter : TokenCounter) (w : WindowSearch) (ends : List ℕ) (best : Option ℕ) (p : Probes)
    → All (λ e. e ≤ length w.offsets) ends
    → FoundWindow counter w best
    → Ensures (λ r. FoundWindow counter w r.0) (try_ends counter w ends best p)
unfolding try_ends
try_ends-Ensures counter w [] best p a h = returned (best, p.budget) h
try_ends-Ensures counter w (e ∷ ends) best p a h = elim (Bool-cases (leb e w.first_token)) [
  | inl small ↦ rw (small, try_ends) (try_ends-Ensures counter w ends best p a.1 h)
  | inr large ↦
      rw (large, try_ends)
        (Ensures-bind (probe_window counter w e p) _ (probe_window-Ensures counter w e p) λ r q h'.
          try_ends-Ensures counter w ends
            (if leb r.0 w.token_limit && is_above e best then some e else best) r.1 a.1
            (better-FoundWindow counter w (leb r.0 w.token_limit && is_above e best) e best
              (λ fits. Probed-IsWindow counter w e r (ground arith) a.0 h' (ground arith)) h))
]

tried_window_end-Ensures :
    (counter : TokenCounter) (w : WindowSearch) (boundaries : List ℕ)
    (minimum_end estimated_end candidate : ℕ) (p : Probes)
    → BeginsAtZero boundaries
    → candidate ≤ length w.offsets
    → Ensures
        (λ r. FoundWindow counter w r.0)
        (tried_window_end counter w boundaries minimum_end estimated_end candidate p)
unfolding tried_window_end
tried_window_end-Ensures counter w boundaries lo estimated hi p z c =
    Ensures-bind (window_probe_ends lo estimated hi) _ (window_probe_ends-Ensures lo estimated hi)
      λ ends q h.
        Ensures-bind (unique_floors boundaries [] ends) _
          (unique_floors-Ensures boundaries [] ends hi z tt
            (All-imp (λ e. (lo ≤ e) × (e ≤ hi)) (λ e. e ≤ hi) (λ e r. r.1) ends h))
          λ safe q' h'.
            try_ends-Ensures counter w safe none p
              (All-imp (λ e. e ≤ hi) (λ e. e ≤ length w.offsets) (λ e r. omega arith) safe h') tt

corrected_window_end-Ensures :
    (counter : TokenCounter) (w : WindowSearch) (plan : WindowPlan) (boundaries : List ℕ)
    (candidate count : ℕ) (p : Probes)
    → BeginsAtZero boundaries
    → candidate ≤ length w.offsets
    → Ensures
        (λ r. FoundWindow counter w r.0)
        (corrected_window_end counter w plan boundaries candidate count p)
unfolding corrected_window_end
corrected_window_end-Ensures counter w plan boundaries candidate count p z c =
    Ensures-branch _ _ _ (returned (none, p.budget) tt)
      (tried_window_end-Ensures counter w boundaries _ _ candidate p z c)

searched_window_end-Ensures :
    (counter : TokenCounter) (w : WindowSearch) (plan : WindowPlan) (boundaries : List ℕ)
    (candidate : ℕ) (budget : WindowSearchBudget)
    → BeginsAtZero boundaries
    → w.first_token < candidate
    → candidate ≤ length w.offsets
    → Ensures
        (λ r. FoundWindow counter w r.0)
        (searched_window_end counter w plan boundaries candidate budget)
unfolding searched_window_end
searched_window_end-Ensures counter w plan boundaries candidate budget z a c =
    let fresh : Probes = record { made = 0; budget = budget } in
    Ensures-bind (probe_window counter w candidate fresh) _
      (probe_window-Ensures counter w candidate fresh)
      λ r q h.
        Ensures-if (leb r.0 w.token_limit) _ _
          (λ fits.
            returned (some candidate, r.1.budget)
              (Probed-IsWindow counter w candidate r a c h (leb→le _ _ fits)))
          (λ over. corrected_window_end-Ensures counter w plan boundaries candidate r.0 r.1 z c)

-- the search of one call
abbrev pub search_of : Text → List Span → ℕ → ℕ → Text → ℕ → WindowSearch
search_of raw_text offsets first_token first_char heading_prefix token_limit = record {
  raw_text = raw_text;
  offsets = offsets;
  first_token = first_token;
  first_char = first_char;
  heading_prefix = heading_prefix;
  token_limit = token_limit;
}

abbrev pub FoundFrom : TokenCounter → Text → List Span → ℕ → Text → ℕ → Option ℕ → Type 0
FoundFrom counter raw_text offsets first_token heading_prefix token_limit found =
    (first_char : ℕ) × (token_boundary offsets first_token (length raw_text) ≡ ok first_char)
    × FoundWindow counter
        (search_of raw_text offsets first_token first_char heading_prefix token_limit) found

-- A window end that `_bounded_window_end` finds is a token after the first one of the window, at
-- most the number of tokens, and the text up to it fits the limit after the prefix. The search ends.
pub bounded_window_end-IsWindow :
    (counter : TokenCounter) (raw_text : Text) (offsets : List Span) (boundaries : List ℕ)
    (first_token : ℕ) (plan : WindowPlan) (heading_prefix : Text) (token_limit : ℕ)
    (budget : WindowSearchBudget)
    → BeginsAtZero boundaries
    → Ensures
        (λ r. FoundFrom counter raw_text offsets first_token heading_prefix token_limit r.0)
        (bounded_window_end counter raw_text offsets boundaries first_token plan heading_prefix
          token_limit budget)
unfolding bounded_window_end search_from
bounded_window_end-IsWindow counter raw_text offsets boundaries first_token plan heading_prefix
      token_limit budget z =
    let place = min (first_token + plan.source_budget) (length offsets) in
    Ensures-bind (floor_token_group_boundary boundaries place) _ (floor-Ensures boundaries place z)
      λ candidate q le.
        Ensures-bind (token_boundary offsets first_token (length raw_text)) _
          (token_boundary-Halts offsets first_token (length raw_text))
          λ first_char q' h.
            let w = search_of raw_text offsets first_token first_char heading_prefix token_limit in
            Ensures-if (leb candidate first_token) _ _
              (λ small. returned (none, budget) (first_char, q', tt))
              (λ large.
                Ensures-imp (λ r found. (first_char, q', found))
                  (searched_window_end-Ensures counter w plan boundaries candidate budget z
                    (ground arith) (omega arith)))
