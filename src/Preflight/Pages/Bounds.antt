-- ===== src/Preflight/Pages/Bounds.antt =====
-- On how often `linode_get_pages`, of scripts/akamai_state_preflight.py, asks the API.
mod Tests
use iac_modules.Common.{
  ℕ, zero, suc, ◌+◌, ◌≤◌, String, ◌≡◌, refl, sym, ap, subst, ◌∙◌, Bool, true, false, ◌⊎◌, inl, inr,
  List, [], ◌∷◌, ◌++◌, ◌&&◌, arith, Bool-cases, leb, member, Result, ok, err, refused,
  if◌then◌else◌,
}
use iac_modules.Common.Steps.{check, lift, >>=-leaves}
use iac_modules.Json.{pos, int, Value, get, get_or, is_list, members}
use iac_modules.Preflight.Pages.{
  Pages, pages_from, reaches, objects, linode_get_pages, pages_in, is_endpoint, is_token,
}
use iac_modules.Cmdb.Words.{strip}

-- A reader that counts what it is asked.
abbrev pub counted : {W : Type 0} → Pages W → Pages (W × ℕ)
counted p = record {
  read = λ page (w, n). let (r, v) = p.read page w in (r, (v, n + 1));
  number = p.number;
}

module _ {W : Type 0} (p : Pages W) where
  pages_from-bound :
      (left page : ℕ) (results : List Value) (w : W) (n : ℕ) {most : ℕ}
      → n + left ≤ most
      → (pages_from (counted p) left page results (w, n)).1.1 ≤ most
  unfolding pages_from
  pages_from-bound zero page results w n h = omega arith
  pages_from-bound (suc left) page results w n {most} h =
      let within : W × ℕ → Type 0 = λ (s : W × ℕ). s.1 ≤ most in
      >>=-leaves within ((counted p).read page) _ (w, n) (omega arith)
        λ payload.
          let s = (p.read page w).1 in
          >>=-leaves within (check (is_list (get "data" payload)) "linode_api_response_invalid") _
            (s, n + 1) (omega arith)
            λ _.
              >>=-leaves within (lift (pages_in (counted p) (get_or "pages" (int (pos 1)) payload)))
                _ (s, n + 1) (omega arith)
                λ pages. elim (Bool-cases (reaches page pages)) [
                  | inl last ↦ rw last (omega arith)
                  | inr more ↦ rw more (pages_from-bound left (page + 1) _ s (n + 1) (omega arith))
                ]

  -- The API is asked for at most a hundred pages, also where the reading fails on the way, and for
  -- none under a path that is not permitted or with a token that is not one.
  pub linode_get_pages-bound :
      (path token : String) (w : W)
      → (linode_get_pages (counted p) path token (w, 0)).1.1
        ≤ (if is_endpoint path && is_token (strip token) then 100 else 0)
  unfolding linode_get_pages
  linode_get_pages-bound path token w = elim (Bool-cases (is_endpoint path)) [
    | inl known ↦ rw known (elim (Bool-cases (is_token (strip token))) [
      | inl good ↦ rw good (pages_from-bound 100 1 [] w 0 (omega arith))
      | inr bad ↦ rw bad (omega arith)
    ])
    | inr unknown ↦ rw unknown (omega arith)
  ]
