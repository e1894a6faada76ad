-- ===== src/Preflight/Pages.antt =====
-- `linode_get_pages` of scripts/akamai_state_preflight.py. The reading of one page is a parameter,
-- and so is `int` of a text.
mod Bounds
use Prim.Native.Char.{code}
use iac_modules.Common.{
  ℕ, zero, suc, ◌+◌, String, Bool, true, not, ◌&&◌, ◌||◌, none, some, Option, List, [], ◌∷◌, ◌++◌,
  all_chars, eqb, leb, member, ◌==◌, Result, ok, err, malformed, refused, if◌then◌else◌,
}
use iac_modules.Common.Steps.{Step, ◌>>=◌, ◌>>◌, lift, return, check}
use iac_modules.Json.{
  ℤ, pos, negsuc, Value, null, bool, int, str, arr, obj, get, get_or, is_list, is_mapping, members,
  truthy,
}
use iac_modules.Cmdb.Words.{strip}

-- What a page is read with: its number, and `int` of a text that a field may hold.
pub record Pages (W : Type 0) : Type 0 where
  pub read : ℕ → Step W Value
  pub number : String → Option ℤ

-- The dictionaries of a page.
unfoldable pub objects : List Value → List Value
objects [] = []
objects (v ∷ vs) = let rest = objects vs in if is_mapping v then v ∷ rest else rest

-- `page >= pages`
abbrev pub reaches : ℕ → ℤ → Bool
reaches page (pos n) = leb n page
reaches page (negsuc n) = true

abbrev pub is_endpoint : String → Bool
is_endpoint path = member path ("linode/instances" ∷ "networking/firewalls" ∷ [])

-- No control character is left in the token.
abbrev pub is_token : String → Bool
is_token token = not (token == "") && all_chars (λ c. leb 32 c && not (eqb c 127)) token

module _ {W : Type 0} (p : Pages W) where
  -- `int(payload.get("pages", 1) or 0)`
  pages_in : Value → Result ℤ
  pages_in (int n) = ok n
  pages_in (bool b) = ok (pos (if b then 1 else 0))
  pages_in (str s) =
      if s == "" then ok (pos 0) else elim (p.number s) [ none ↦ err malformed | some n ↦ ok n ]
  pages_in v = if truthy v then err malformed else ok (pos 0)

  -- The loop from a page on, with the pages that may still be read.
  unfoldable pub pages_from : ℕ → ℕ → List Value → Step W (List Value)
  unfolding pages_in objects
  pages_from zero page results = lift (err (refused "linode_api_page_limit_exceeded"))
  pages_from (suc left) page results = do
    payload ← p.read page
    let found = get "data" payload
    check (is_list found) "linode_api_response_invalid"
    let grown = results ++ objects (members found)
    pages ← lift (pages_in (get_or "pages" (int (pos 1)) payload))
    let more = pages_from left (page + 1) grown
    if reaches page pages then return grown else more

  unfoldable pub linode_get_pages : String → String → Step W (List Value)
  unfolding pages_from
  linode_get_pages path token = do
    check (is_endpoint path) "linode_endpoint_not_allowlisted"
    check (is_token (strip token)) "linode_token_invalid"
    pages_from 100 1 []
