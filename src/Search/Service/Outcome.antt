-- ===== src/Search/Service/Outcome.antt =====
-- Every outcome of the search of application/search/service.py, in the order of its steps.
use mathlib.Core.Path.{subst}
use omf_retrieval.Admin.Tokens.{AuthorizedSource}
use omf_retrieval.Prelude.{
  Bool-cases, Exception, List, Result, inl, inr, ok, raise, refl, require, search_unavailable,
  shielded, shielded-eq_ok, sym, true-ne-false, ℕ, ◌==◌, ◌>>=◌, ◌>>◌, ◌∙◌, ◌≡◌, ◌≢◌,
}
use omf_retrieval.Prelude.Floats.{Floats}
use omf_retrieval.Prelude.Text.{Text, strip}
use omf_retrieval.Search.Evidence.{EvidenceItem}
use omf_retrieval.Search.Policy.{SearchPolicySnapshot}
use omf_retrieval.Search.Ports.{
  ActiveIndex, CandidateBatch, active_index_beq_iff, active_index_eq, candidate_eq, origin_eq,
}
use omf_retrieval.Search.Service.{
  SearchPorts, SearchResult, check_request, fetch, find_active, new_search_result, rank_batch,
  resolved_policy, search, search_result,
}
use omf_retrieval.Search.Service.Laws.{
  IsAnswer, answer, check_request-lem, new_search_result-accepts,
}

bind_cases :
    {A B : Type 0} (P : Result B → Type 0) (r : Result A) (f : A → Result B)
    → ((e : Exception) → r ≡ raise e → P (raise e))
    → ((a : A) → r ≡ ok a → P (f a))
    → P (r >>= f)
bind_cases P (ok a) f g h = h a refl
bind_cases P (raise e) f g h = g e refl

module _ ⦃fl : Floats⦄ (ports : SearchPorts) where
  module _ (authorized : AuthorizedSource) (query : Text) (limit : ℕ) (level : Text) where
    -- the request is valid and its policy resolves
    pub record Resolved (policy : SearchPolicySnapshot) : Type 0 where
      pub request : check_request ports authorized query limit level ≡ ok (strip query)
      pub resolved : resolved_policy ports ≡ ok policy

    -- and an index is active, before the query is embedded
    pub record Found (policy : SearchPolicySnapshot) (active : ActiveIndex) : Type 0 where
      pub before : Resolved policy
      pub found : find_active ports authorized policy ≡ ok active

    -- and the query is embedded, before the repository is asked for candidates
    pub record Embedded (policy : SearchPolicySnapshot) (active : ActiveIndex)
        (vector : ports.Vector) : Type 0 where
      pub before : Found policy active
      pub embedded : ports.embed_query (strip query) ≡ ok vector

    -- and candidates are fetched
    pub record Fetched (policy : SearchPolicySnapshot) (active : ActiveIndex)
        (vector : ports.Vector) (batch : CandidateBatch) : Type 0 where
      pub before : Embedded policy active vector
      pub fetched : fetch ports authorized (strip query) vector policy ≡ ok batch

    -- an answer, or the error of the first step that fails
    pub data IsOutcome : Result SearchResult → Type 0 where
      answered :
          {r : SearchResult} → IsAnswer ports authorized query limit level r → IsOutcome (ok r)
      at_request :
          {e : Exception}
          → check_request ports authorized query limit level ≡ raise e
          → IsOutcome (raise e)
      at_policy :
          {e : Exception}
          → check_request ports authorized query limit level ≡ ok (strip query)
          → resolved_policy ports ≡ raise e
          → IsOutcome (raise e)
      at_active :
          {e : Exception} (policy : SearchPolicySnapshot)
          → Resolved policy
          → find_active ports authorized policy ≡ raise e
          → IsOutcome (raise e)
      at_embedding :
          {e : Exception} (policy : SearchPolicySnapshot) (active : ActiveIndex)
          → Found policy active
          → shielded search_unavailable (ports.embed_query (strip query)) ≡ raise e
          → IsOutcome (raise e)
      at_fetch :
          {e : Exception} (policy : SearchPolicySnapshot) (active : ActiveIndex)
          (vector : ports.Vector)
          → Embedded policy active vector
          → fetch ports authorized (strip query) vector policy ≡ raise e
          → IsOutcome (raise e)
      at_generation :
          (policy : SearchPolicySnapshot) (active : ActiveIndex) (vector : ports.Vector)
          (batch : CandidateBatch)
          → Fetched policy active vector batch
          → batch.index ≢ active
          → IsOutcome (raise search_unavailable)
      at_ranking :
          {e : Exception} (policy : SearchPolicySnapshot) (active : ActiveIndex)
          (vector : ports.Vector) (batch : CandidateBatch)
          → Fetched policy active vector batch
          → batch.index ≡ active
          → shielded search_unavailable (rank_batch policy level limit batch) ≡ raise e
          → IsOutcome (raise e)

    -- the steps after the request
    abbrev after_request : Text → Result SearchResult
    after_request q = do
      policy ← resolved_policy ports
      active ← find_active ports authorized policy
      vector ← shielded search_unavailable (ports.embed_query q)
      batch ← fetch ports authorized q vector policy
      require (batch.index == active) search_unavailable
      evidence ← shielded search_unavailable (rank_batch policy level limit batch)
      new_search_result (search_result batch.index ports.policy_manifest evidence)

    ending :
        (policy : SearchPolicySnapshot) (active : ActiveIndex) (vector : ports.Vector)
        (batch : CandidateBatch)
        → Fetched policy active vector batch
        → batch.index ≡ active
        → (evidence : List EvidenceItem) → rank_batch policy level limit batch ≡ ok evidence
        → IsOutcome (new_search_result (search_result batch.index ports.policy_manifest evidence))
    ending policy active vector batch f same evidence ranked =
        subst IsOutcome (sym (new_search_result-accepts batch.index ports.policy_manifest evidence))
          (answered (
            answer ports authorized query limit level (strip query) refl vector batch policy active
              evidence f.before.before.before.request f.before.before.before.resolved
              f.before.before.found f.before.embedded f.fetched same ranked))

    candidates :
        (policy : SearchPolicySnapshot) (active : ActiveIndex) (vector : ports.Vector)
        (batch : CandidateBatch)
        → Fetched policy active vector batch
        → IsOutcome (
            require (batch.index == active) search_unavailable >>= λ _.
            shielded search_unavailable (rank_batch policy level limit batch) >>= λ evidence.
            new_search_result (search_result batch.index ports.policy_manifest evidence))
    candidates policy active vector batch f = elim (Bool-cases (batch.index == active)) [
      | inr other ↦
          let differs : batch.index ≢ active =
            λ e. true-ne-false (sym ((active_index_beq_iff batch.index active).1 e) ∙ other) in
          rw (other, require, ◌>>=◌) (at_generation policy active vector batch f differs)
      | inl same ↦
          let equal : batch.index ≡ active = (active_index_beq_iff batch.index active).0 same in
          rw (same, require, ◌>>=◌)
            (bind_cases IsOutcome
              (shielded search_unavailable (rank_batch policy level limit batch)) _
              (λ e h. at_ranking policy active vector batch f equal h)
              λ evidence ranked.
                ending policy active vector batch f equal evidence
                  (shielded-eq_ok search_unavailable _ ranked))
    ]

    steps :
        check_request ports authorized query limit level ≡ ok (strip query)
        → IsOutcome (after_request (strip query))
    steps request =
        bind_cases IsOutcome (resolved_policy ports) _ (λ e h. at_policy request h)
          λ policy resolved.
            let r : Resolved policy = record { request = request; resolved = resolved } in
            bind_cases IsOutcome (find_active ports authorized policy) _
              (λ e h. at_active policy r h)
              λ active found.
                let s : Found policy active = record { before = r; found = found } in
                bind_cases IsOutcome (shielded search_unavailable (ports.embed_query (strip query)))
                  _ (λ e h. at_embedding policy active s h)
                  λ vector embedded.
                    let t : Embedded policy active vector = record {
                      before = s;
                      embedded = shielded-eq_ok search_unavailable _ embedded;
                    } in
                    bind_cases IsOutcome (fetch ports authorized (strip query) vector policy) _
                      (λ e h. at_fetch policy active vector t h)
                      λ batch fetched.
                        candidates policy active vector batch
                          (record { before = t; fetched = fetched })

    -- The outcome of a search is an answer or the error of its first failing step, in this order:
    -- the request's checks, the policy, the active index, the embedding of the query, the fetch,
    -- the comparison of the batch's index with the active one, the ranking. An answer is for a
    -- valid request; it is ranked under the resolved policy from the batch that was fetched for the
    -- stripped query; its index is the active one and the batch's; its status is `no_evidence`
    -- exactly if it is empty.
    pub search-IsOutcome : IsOutcome (search ports authorized query limit level)
    unfolding search
    search-IsOutcome =
        bind_cases IsOutcome (check_request ports authorized query limit level) after_request
          (λ e h. at_request h)
          λ q request.
            let stripped = (check_request-lem ports authorized query limit level request).2 in
            subst
              (λ t.
                check_request ports authorized query limit level ≡ ok t
                → IsOutcome (after_request t))
              stripped steps request
