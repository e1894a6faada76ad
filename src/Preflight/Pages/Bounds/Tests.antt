-- ===== src/Preflight/Pages/Bounds/Tests.antt =====
-- An API of two pages and one without an end, and the law at the latter.
use iac_modules.Common.{ℕ, ◌≤◌, ◌≡◌, refl, none, [], ◌∷◌, ok, err, refused, if◌then◌else◌, ◌&&◌}
use iac_modules.Json.{pos, Value, int, str, arr, items, mapping, find}
use iac_modules.Cmdb.Words.{strip, strip_of}
use iac_modules.Preflight.Pages.{
  Pages, is_endpoint, is_token, objects, pages_from, linode_get_pages,
}
use iac_modules.Preflight.Pages.Bounds.{counted, linode_get_pages-bound}

abbrev page : Value → Value → Value
page entry pages =
    mapping (("data", arr (items (entry ∷ str "noise" ∷ []))) ∷ ("pages", pages) ∷ [])

abbrev entry : ℕ → Value
entry n = mapping (("id", int (pos n)) ∷ [])

abbrev two_pages : Pages (Unit {0})
two_pages = record { read = λ n w. (ok (page (entry n) (int (pos 2))), w); number = λ s. none }

abbrev endless : Pages (Unit {0})
endless = record { read = λ n w. (ok (page (entry n) (int (pos 500))), w); number = λ s. none }

paged :
    (linode_get_pages (counted two_pages) "linode/instances" "t\n" (tt, 0)
      ≡ (ok (entry 1 ∷ entry 2 ∷ []), (tt, 2)))
    × (linode_get_pages (counted endless) "linode/instances" "t" (tt, 0)
        ≡ (err (refused "linode_api_page_limit_exceeded"), (tt, 100)))
unfolding linode_get_pages pages_from objects strip strip_of find
paged = (refl, refl)

linode_get_pages-bound_example :
    (linode_get_pages (counted endless) "linode/instances" "t" (tt, 0)).1.1
    ≤ (if is_endpoint "linode/instances" && is_token (strip "t") then 100 else 0)
linode_get_pages-bound_example = linode_get_pages-bound endless "linode/instances" "t" tt
