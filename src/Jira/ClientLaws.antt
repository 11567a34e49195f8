-- ===== src/Jira/ClientLaws.antt =====
-- The search for issues (`GetAllIssues`).
use ocm_service_common.Common.{
  ℕ, zero, suc, ◌≤◌, String, some, List, [], ◌++◌, ◌≡◌, ◌≢◌, ◌↔◌, inl, inr, sym, ◌∙◌, subst, arith,
  str_eq, eq_iff, append_assoc, Bool-cases,
}
use ocm_service_common.Common.Result.{Result, ok, err, Result-cases}
use ocm_service_common.Jira.Client.{issues_from, get_all_issues, search_error}

-- The pages of a search from a token on, with their number and their issues in order.
pub data Pages {I : Type 0} (search : String → Result String (List I × String))
    : String → ℕ → List I → Type 0 where
  last :
      {token : String} (chunk : List I) → search token ≡ ok (chunk, "") → Pages search token 1 chunk
  more :
      {token : String} {n : ℕ} {rest : List I} (chunk : List I) (next : String)
      → search token ≡ ok (chunk, next)
      → next ≢ ""
      → Pages search next n rest
      → Pages search token (suc n) (chunk ++ rest)

module _ {I : Type 0} (search : String → Result String (List I × String)) where
  issues_from_complete :
      (fuel : ℕ) (issues : List I) {token : String} {n : ℕ} {found : List I}
      → Pages search token n found
      → n ≤ fuel
      → issues_from search fuel token issues ≡ some (ok (issues ++ found))
  unfolding issues_from
  issues_from_complete zero issues (Pages.last chunk e) h = absurd (omega (arith, h))
  issues_from_complete (suc fuel) issues (Pages.last chunk e) h = ground (arith, e, eq_iff "" "")
  issues_from_complete zero issues (Pages.more chunk next e ne p) h = absurd (omega (arith, h))
  issues_from_complete (suc fuel) issues (Pages.more {token} {n} {rest} chunk next e ne p) h =
      ground (
        arith,
        e,
        ne,
        eq_iff next "",
        append_assoc issues chunk rest,
        issues_from_complete fuel (issues ++ chunk) p (omega (arith, h)),
      )

  issues_from_sound :
      (token : String) (fuel : ℕ) (issues all : List I)
      → issues_from search fuel token issues ≡ some (ok all)
      → (n : ℕ) × (found : List I) × (n ≤ fuel)
        × Pages search token n found
        × (all ≡ issues ++ found)
  unfolding issues_from
  issues_from_sound token zero issues all h = cc
  issues_from_sound token (suc fuel) issues all h = elim (Result-cases (search token)) [
    | inr (e, fails) ↦ ground (arith, fails)
    | inl ((chunk, next), page) ↦ elim (Bool-cases (str_eq next "")) [
      | inl e ↦ (
        1,
        chunk,
        omega arith,
        Pages.last chunk (ground (arith, page, eq_iff next "")),
        ground (arith, page),
      )
      | inr e ↦
          let (n, found, bound, pages, whole) =
            issues_from_sound next fuel (issues ++ chunk) all (ground (arith, page)) in
          (
            suc n,
            chunk ++ found,
            omega (arith, bound),
            Pages.more chunk next page (ground (arith, eq_iff next "")) pages,
            whole ∙ append_assoc issues chunk found,
          )
    ]
  ]

  -- GetAllIssues returns a list exactly when the search has a last page, and then the list is the
  -- issues of all its pages in order; fuel for as many steps as there are pages is enough.
  pub get_all_issues-Pages_iff :
      (fuel : ℕ) (all : List I)
      → (get_all_issues search fuel ≡ some (ok all))
        ↔ ((n : ℕ) × (n ≤ fuel) × Pages search "" n all)
  unfolding get_all_issues
  get_all_issues-Pages_iff fuel all = (
    λ h.
        let (n, found, bound, pages, whole) = issues_from_sound "" fuel [] all h in
        (n, bound, subst (Pages search "" n) (sym whole) pages),
    λ found. let (n, bound, pages) = found in issues_from_complete fuel [] pages bound,
  )

  -- The pages before one that fails.
  pub data Fails : String → ℕ → String → Type 0 where
    now : {token e : String} → search token ≡ err e → Fails token 1 e
    later :
        {token e : String} {n : ℕ} (chunk : List I) (next : String)
        → search token ≡ ok (chunk, next)
        → next ≢ ""
        → Fails next n e
        → Fails token (suc n) e

  issues_from-Fails :
      (fuel : ℕ) (issues : List I) {token e : String} {n : ℕ}
      → Fails token n e
      → n ≤ fuel
      → issues_from search fuel token issues ≡ some (err (search_error e))
  unfolding issues_from
  issues_from-Fails zero issues (Fails.now h) bound = absurd (omega (arith, bound))
  issues_from-Fails (suc fuel) issues (Fails.now h) bound = ground (arith, h)
  issues_from-Fails zero issues (Fails.later chunk next h ne f) bound =
      absurd (omega (arith, bound))
  issues_from-Fails (suc fuel) issues (Fails.later chunk next h ne f) bound = ground (
    arith,
    h,
    ne,
    eq_iff next "",
    issues_from-Fails fuel (issues ++ chunk) f (omega (arith, bound)),
  )

  -- Where a page of the search fails, GetAllIssues returns the error of that page and none of the
  -- issues before it.
  get_all_issues-Fails :
      {e : String} {n : ℕ} (fuel : ℕ)
      → Fails "" n e
      → n ≤ fuel
      → get_all_issues search fuel ≡ some (err (search_error e))
  unfolding get_all_issues
  get_all_issues-Fails fuel f bound = issues_from-Fails fuel [] f bound
