-- ===== src/Indexing/Chunker/Context/Bounds.antt =====
-- The parent context of infrastructure/source/chunker.py around a match.
use mathlib.Core.Path.{subst}
use omf_retrieval.Indexing.Chunker.Context.Build.{
  ContextBuilder, MatchedChild, body_start_line, build, check_matched, checked_context, holds_match,
  is_child, item_at, match_of, matched_source_start, reparsed_root, select_context,
  whole_or_selected,
}
use omf_retrieval.Indexing.Chunker.Context.Cover.{lines_text-Infix_joined}
use omf_retrieval.Indexing.Chunker.Context.Inside.{IsInside, IsMatch, select_blocks-IsInside}
use omf_retrieval.Indexing.Chunker.Context.Reparsed.{
  body_start_line-InLines, match_of-IsMatch, reparsed_root-Meets,
}
use omf_retrieval.Indexing.Chunker.Context.Select.{Match, select_blocks}
use omf_retrieval.Indexing.Chunker.Limits.{IsLimits}
use omf_retrieval.Indexing.Chunker.Split.{split_drafts_with_excerpts}
use omf_retrieval.Indexing.Chunker.Split.Drafts.{split_drafts_with_excerpts-AreDrafts}
use omf_retrieval.Indexing.Chunker.Tokens.{token_count}
use omf_retrieval.Indexing.Chunker.Tokens.Laws.{token_count-Halts}
use omf_retrieval.Indexing.Chunker.Window.{Chunker}
use omf_retrieval.Indexing.Markdown.Checked.{AreChecked}
use omf_retrieval.Indexing.Markdown.Sections.{parser_version}
use omf_retrieval.Indexing.Ports.{ParentContext, check_parent_context, split_physical_lines}
use omf_retrieval.Indexing.Ports.Checks.{check_parent_context-Halts}
use omf_retrieval.Indexing.Ports.Lines.{joined, split_physical_lines-AreLines}
use omf_retrieval.Indexing.Structure.{ParsedBlock, ParsedMarkdown, ParsedSection}
use omf_retrieval.Prelude.{
  &&-split, List, Option, Option-cases, Result, arith, get_elem?, index_error, inl, inr, is_exit,
  keyboard_interrupt, leb, leb→le, length, ltb, none, not, ok, ok-injective, raise, shielded,
  shielded-eq_ok, some, sym, system_exit, value_error, ℕ, ◌&&◌, ◌-◌, ◌∙◌, ◌≡◌, ◌≤◌,
}
use omf_retrieval.Prelude.Ensures.{
  Ensures, Ensures-bind, Ensures-if, Ensures-require, Halts, refused, returned,
}
use omf_retrieval.Prelude.Infix.{Infix, Infix-refl, Infix-trans}
use omf_retrieval.Prelude.Text.{Text, is_blank, is_empty}

-- a part of the body around the match, within the limit, that passes the checks
pub record IsContext (chunker : Chunker) (body matched : Text) (c : ParentContext) : Type 0 where
  pub inside : Infix c.raw_text body
  pub holds : Infix matched c.raw_text
  pub counted : token_count chunker.counter c.raw_text ≡ ok c.token_count
  pub within : c.token_count ≤ chunker.config.parent_context_max_tokens
  pub checked : check_parent_context c ≡ ok tt

shielded-Halts {ℓ} : {A : Type ℓ} (r : Result A) → Halts (shielded value_error r)
unfolding shielded is_exit
shielded-Halts (ok a) = returned a tt
shielded-Halts (raise keyboard_interrupt) = refused keyboard_interrupt tt
shielded-Halts (raise system_exit) = refused system_exit tt
shielded-Halts (raise _) = refused value_error tt

checked_context-IsContext :
    (chunker : Chunker) (body matched text : Text) (count i j : ℕ)
    → IsInside chunker.counter chunker.config.parent_context_max_tokens body matched text
    → token_count chunker.counter text ≡ ok count
    → Ensures (IsContext chunker body matched) (checked_context text count i j)
unfolding checked_context
checked_context-IsContext chunker body matched text count i j is counted =
    let (n, (counted', fits)) = is.fits in
    let same : n ≡ count = ok-injective (sym counted' ∙ counted) in
    let c : ParentContext = record {
      raw_text = text;
      token_count = count;
      line_start = i;
      line_end = j;
    } in
    Ensures-bind (check_parent_context c) _ (check_parent_context-Halts c) λ u checked h.
      returned c (record {
        inside = is.inside;
        holds = is.holds;
        counted = counted;
        within = omega (arith, same, fits);
        checked = checked;
      })

module _ (chunker : Chunker) (s : ParsedSection) (blocks : List ParsedBlock) (first : ℕ)
    (m : Match) where
  whole_or_selected-IsContext :
      IsMatch (split_physical_lines s.body) blocks m
      → Ensures
          (IsContext chunker s.body m.raw_text)
          (whole_or_selected chunker s blocks (split_physical_lines s.body) first m)
  unfolding whole_or_selected select_context
  whole_or_selected-IsContext is =
      let lines = split_physical_lines s.body in
      let limit = chunker.config.parent_context_max_tokens in
      let whole : joined lines ≡ s.body = (split_physical_lines-AreLines s.body).0 in
      Ensures-bind (token_count chunker.counter s.body) _ (token_count-Halts chunker.counter s.body)
        λ count counted u.
          Ensures-if (leb count limit) _ _
            (λ fits.
              checked_context-IsContext chunker s.body m.raw_text s.body count first s.line_end
                (record {
                  inside = Infix-refl s.body;
                  holds = subst (Infix m.raw_text) whole (
                      Infix-trans m.raw_text _ (joined lines) is.found
                        (lines_text-Infix_joined lines (m.line_start - 1) m.line_end));
                  fits = (count, (counted, leb→le count limit fits));
                })
                counted)
            (λ over.
              Ensures-bind (select_blocks chunker.counter limit blocks lines first m) _
                (select_blocks-IsInside chunker.counter limit blocks lines first m is)
                λ x q inside.
                  Ensures-bind (token_count chunker.counter x.raw_text) _
                    (token_count-Halts chunker.counter x.raw_text)
                    λ n counted' u'.
                      checked_context-IsContext chunker s.body m.raw_text x.raw_text n x.line_start
                        x.line_end
                        (subst (λ t. IsInside chunker.counter limit t m.raw_text x.raw_text) whole
                          inside)
                        counted')

item_at-Halts {ℓ} : {A : Type ℓ} (l : List A) (i : ℕ) → Halts (item_at l i)
unfolding item_at
item_at-Halts l i = elim (Option-cases (get_elem? l i)) [
  | inl e ↦ rw (e, item_at) (refused index_error tt)
  | inr (x, e) ↦ rw (e, item_at) (returned x tt)
]

matched_source_start-Halts :
    (chunker : Chunker) (s : ParsedSection) (child : MatchedChild) (version : Text)
    (ordinal : Option ℕ)
    → IsLimits chunker.config
    → Halts (matched_source_start chunker s child version ordinal)
unfolding matched_source_start
matched_source_start-Halts chunker s child version none l = returned none tt
matched_source_start-Halts chunker s child version (some i) l =
    Ensures-bind (split_drafts_with_excerpts chunker s version) _
      (split_drafts_with_excerpts-AreDrafts chunker s version l)
      λ r q h. Ensures-require (ltb i (length r.0)) value_error _ tt λ less.
        Ensures-bind (item_at r.0 i) _ (item_at-Halts r.0 i) λ d q' h'.
          Ensures-bind (item_at r.1 i) _ (item_at-Halts r.1 i) λ x q2 h2.
            Ensures-require (is_child child i d && holds_match s.body child x) value_error _ tt
              λ same. returned x.source_start tt

-- Building the parent context of a matched child ends, and what it returns is a part of the section's
-- text that holds the text of the child, its token count is the tokenizer's count of it and at most
-- the limit on parent contexts, and it passes the checks of a parent context. The limits are those of
-- a checked configuration, and the blocks that the parser makes have passed their checks.
pub build-IsContext :
    (builder : ContextBuilder) (s : ParsedSection) (child : MatchedChild) (parser_version : Text)
    → IsLimits builder.chunker.config
    → ((m : ParsedMarkdown) → builder.parser s.body ≡ ok m → AreChecked m)
    → Ensures
        (IsContext builder.chunker s.body child.raw_text)
        (build builder s child parser_version)
unfolding build check_matched match_of
build-IsContext builder s child parser_version limits parses =
    let lines = split_physical_lines s.body in
    Ensures-require
      (not (is_empty child.raw_text)
        && leb 1 child.line_start
        && leb child.line_start child.line_end
        && not (is_blank parser_version))
      value_error _ tt
      λ valid.
        let valid' = &&-split _ (not (is_blank parser_version)) valid in
        let ordered = (&&-split _ (leb child.line_start child.line_end) valid'.0).1 in
        Ensures-bind (shielded value_error (builder.parser s.body)) _
          (shielded-Halts (builder.parser s.body))
          λ parsed q u.
            let checked = parses parsed (shielded-eq_ok value_error (builder.parser s.body) q) in
            Ensures-bind (reparsed_root parsed s.body parser_version) _
              (reparsed_root-Meets parsed s.body parser_version checked)
              λ root q' meets.
                Ensures-bind (body_start_line s lines child) _
                  (body_start_line-InLines s lines child)
                  λ first q2 in_lines. Ensures-require _ value_error _ tt λ found.
                    Ensures-bind
                      (matched_source_start builder.chunker s child parser_version child.ordinal) _
                      (matched_source_start-Halts builder.chunker s child parser_version
                        child.ordinal limits)
                      λ place q3 u'.
                        whole_or_selected-IsContext builder.chunker s root.blocks first
                          (match_of child first place)
                          (match_of-IsMatch s.body root.blocks child first place ordered meets
                            in_lines found)
