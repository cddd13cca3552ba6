-- ===== src/Search/Service/Errors.antt =====
-- Which errors leave the search of application/search/service.py, and its readiness.
use mathlib.Core.Path.{subst}
use omf_retrieval.Admin.Tokens.{AuthorizedSource}
use omf_retrieval.Prelude.{
  >>=-eq_ok, Bool, Bool-cases, Exception, Result, ap, arith, false, inl, inr, is_exit,
  keyboard_interrupt, no_active_index, ok, ok-injective, raise, refl, require, search_unavailable,
  shielded, source_access, sym, system_exit, true, true-ne-false, ℕ, ◌==◌, ◌>>=◌, ◌↔◌, ◌∙◌, ◌≡◌,
}
use omf_retrieval.Prelude.Floats.{Floats}
use omf_retrieval.Prelude.Text.{Text}
use omf_retrieval.Search.Policy.{SearchPolicySnapshot}
use omf_retrieval.Search.Ports.{active_index_eq, candidate_eq, origin_eq}
use omf_retrieval.Search.Service.{
  EmbeddingDescriptor, SearchPorts, check_request, fail_closed, fetch, find_active,
  guard_active_index, is_ready, passes_active_index, probe, rank_batch, resolved_policy, search,
  search_result,
}
use omf_retrieval.Search.Service.Laws.{new_search_result-accepts}

-- what a caller may see: an unavailable search, no active index, no access, or an exit
pub data IsSearchError : Exception → Type 0 where
  unavailable : IsSearchError search_unavailable
  inactive : IsSearchError no_active_index
  inaccessible : IsSearchError source_access
  interrupted : IsSearchError keyboard_interrupt
  exited : IsSearchError system_exit

is_exit-IsSearchError : (e : Exception) → is_exit e ≡ true → IsSearchError e
unfolding is_exit
is_exit-IsSearchError keyboard_interrupt h = interrupted
is_exit-IsSearchError system_exit h = exited
is_exit-IsSearchError e h = cc

-- a result, or one of these errors
pub data IsAllowed {A : Type 0} : Result A → Type 0 where
  answered : (a : A) → IsAllowed (ok a)
  refused : (e : Exception) → IsSearchError e → IsAllowed (raise e)

module _ ⦃fl : Floats⦄ where
  passes-IsSearchError : (e : Exception) → passes_active_index e ≡ true → IsSearchError e
  unfolding passes_active_index is_exit
  passes-IsSearchError no_active_index h = inactive
  passes-IsSearchError search_unavailable h = unavailable
  passes-IsSearchError source_access h = inaccessible
  passes-IsSearchError keyboard_interrupt h = interrupted
  passes-IsSearchError system_exit h = exited
  passes-IsSearchError e h = cc

  shielded-IsAllowed : {A : Type 0} (r : Result A) → IsAllowed (shielded search_unavailable r)
  unfolding shielded
  shielded-IsAllowed (ok a) = answered a
  shielded-IsAllowed (raise x) = elim (Bool-cases (is_exit x)) [
    | inl passed ↦ rw (passed, shielded) (refused x (is_exit-IsSearchError x passed))
    | inr caught ↦ rw (caught, shielded) (refused search_unavailable unavailable)
  ]

  guard-IsAllowed : {A : Type 0} (r : Result A) → IsAllowed (guard_active_index r)
  unfolding guard_active_index
  guard-IsAllowed (ok a) = answered a
  guard-IsAllowed (raise x) = elim (Bool-cases (passes_active_index x)) [
    | inl passed ↦ rw (passed, guard_active_index) (refused x (passes-IsSearchError x passed))
    | inr caught ↦ rw (caught, guard_active_index) (refused search_unavailable unavailable)
  ]

  bind-IsAllowed :
      {A B : Type 0} (r : Result A) (f : A → Result B)
      → IsAllowed r
      → ((a : A) → r ≡ ok a → IsAllowed (f a))
      → IsAllowed (r >>= f)
  bind-IsAllowed (ok a) f h k = k a refl
  bind-IsAllowed (raise x) f (refused y p) k = refused x p

  require-IsAllowed : (b : Bool) → IsAllowed (require b search_unavailable)
  require-IsAllowed true = answered tt
  require-IsAllowed false = refused search_unavailable unavailable

  fail_closed-true : (r : Result Bool) → fail_closed r ≡ ok true → r ≡ ok true
  unfolding fail_closed
  fail_closed-true (ok ready) h = h
  fail_closed-true (raise e) h = ground arith

  fail_closed-raise : (r : Result Bool) (e : Exception) → fail_closed r ≡ raise e → is_exit e ≡ true
  unfolding fail_closed
  fail_closed-raise (ok ready) e h = cc
  fail_closed-raise (raise x) e h = ground arith

  module _ (ports : SearchPorts) where
    -- A valid request raises an unavailable search, no active index, no access, or an exit, and no
    -- other error, when the retrieval raises no other.
    pub search_errors :
        (authorized : AuthorizedSource) (query : Text) (limit : ℕ) (level : Text) {q : Text}
        → check_request ports authorized query limit level ≡ ok q
        → ((v : ports.Vector) (policy : SearchPolicySnapshot)
            → IsAllowed (fetch ports authorized q v policy))
        → IsAllowed (search ports authorized query limit level)
    unfolding search resolved_policy find_active
    search_errors authorized query limit level {q} request retrieved =
        rw (request, ◌>>=◌)
          (bind-IsAllowed (resolved_policy ports) _ (shielded-IsAllowed _) λ policy _.
            bind-IsAllowed (find_active ports authorized policy) _ (guard-IsAllowed _) λ active _.
              bind-IsAllowed (shielded search_unavailable (ports.embed_query q)) _
                (shielded-IsAllowed _)
                λ vector _.
                  bind-IsAllowed (fetch ports authorized q vector policy) _
                    (retrieved vector policy)
                    λ batch _.
                      bind-IsAllowed (require (batch.index == active) search_unavailable) _
                        (require-IsAllowed (batch.index == active))
                        λ _ _.
                          bind-IsAllowed
                            (shielded search_unavailable (rank_batch policy level limit batch)) _
                            (shielded-IsAllowed _)
                            λ evidence _.
                              subst IsAllowed
                                (sym (
                                  new_search_result-accepts batch.index ports.policy_manifest
                                    evidence))
                                (answered
                                  (search_result batch.index ports.policy_manifest evidence)))

    -- the readiness of every port
    pub record IsServing (authorized : AuthorizedSource) : Type 0 where
      pub policy : SearchPolicySnapshot
      pub described : EmbeddingDescriptor
      pub resolved : resolved_policy ports ≡ ok policy
      pub model : ports.embeddings_is_ready ≡ ok true
      pub descriptor : ports.descriptor ≡ ok described
      pub repository :
          ports.repository_is_ready authorized described policy.query_embedding_normalize_embeddings
          ≡ ok true

    probe-IsServing :
        (authorized : AuthorizedSource) → probe ports authorized ≡ ok true → IsServing authorized
    unfolding probe
    probe-IsServing authorized h =
        let (policy, resolved, h1) = >>=-eq_ok (resolved_policy ports) _ h in
        let (ready, model, h2) = >>=-eq_ok ports.embeddings_is_ready _ h1 in
        elim (Bool-cases ready) [
          | inl is_true ↦
              let (described, descriptor, h3) = >>=-eq_ok ports.descriptor _ (rw is_true at h2) in
              record {
                policy = policy;
                described = described;
                resolved = resolved;
                model = model ∙ ap ok is_true;
                descriptor = descriptor;
                repository = h3;
              }
          | inr is_false ↦ absurd (true-ne-false (sym (ok-injective (rw is_false at h2))))
        ]

    IsServing-probe :
        (authorized : AuthorizedSource) → IsServing authorized → probe ports authorized ≡ ok true
    unfolding probe
    IsServing-probe authorized s =
        rw (s.resolved, ◌>>=◌) (rw (s.model, ◌>>=◌) (rw (s.descriptor, ◌>>=◌) s.repository))

    -- The service is ready exactly if its policy resolves and the model and the repository say that
    -- they are; readiness raises exits only.
    pub is_ready_iff :
        (authorized : AuthorizedSource)
        → ((is_ready ports authorized ≡ ok true) ↔ IsServing authorized)
          × ((e : Exception) → is_ready ports authorized ≡ raise e → is_exit e ≡ true)
    unfolding is_ready fail_closed
    is_ready_iff authorized = (
      (
        λ h. probe-IsServing authorized (fail_closed-true (probe ports authorized) h),
        λ s. rw (IsServing-probe authorized s, is_ready),
      ),
      λ e h. fail_closed-raise (probe ports authorized) e h,
    )
