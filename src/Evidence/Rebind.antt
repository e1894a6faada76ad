-- ===== src/Evidence/Rebind.antt =====
-- `_safe_gcp_federation_rebind` of scripts/pipeline/unified/evidence.py: the one replacement that an
-- ordinary plan may hold.
use iac_modules.Common.{
  ℕ, String, Bool, true, false, not, ◌&&◌, ◌||◌, Option, none, some, List, [], ◌∷◌, all_chars,
  head_tail, is_alnum, is_digit, one_of, segments, ◌==◌, ◌+++◌,
}
use iac_modules.Json.{Value, str, arr, nil, cons, get, eq, is_text, get_or, texts, or_empty}

-- What the pattern of a federation member captures.
pub record Member : Type 0 where
  pub project : String
  pub pool : String
  pub owner : String
  pub repository : String

-- `[class]+`
abbrev some_chars : (ℕ → Bool) → String → Bool
some_chars class s = not (s == "") && all_chars class s

-- The parts between slashes: no class of the pattern holds a slash, so the pattern matches exactly
-- where the parts do.
unfoldable pub member_of : List String → Option Member
member_of
      (scheme ∷ blank ∷ host ∷ projects ∷ project ∷ locations ∷ global ∷ pools ∷ pool ∷ attribute
        ∷ owner ∷ repository ∷ []) =
    elim (scheme == "principalSet:"
      && (blank == ""
          && (host == "iam.googleapis.com"
              && (projects == "projects"
                  && (some_chars is_digit project
                      && (locations == "locations"
                          && (global == "global"
                              && (pools == "workloadIdentityPools"
                                  && (some_chars (λ c. is_alnum c || one_of "_-" c) pool
                                      && (attribute == "attribute.repository"
                                          && (head_tail is_alnum (λ c. is_alnum c || one_of "-" c)
                                                38 owner
                                              && head_tail is_alnum
                                                  (λ c. is_alnum c || one_of "_.-" c) 98
                                                  repository))))))))))) [
                                                    | true ↦ some (record {
                                                      project = project;
                                                      pool = pool;
                                                      owner = owner;
                                                      repository = repository;
                                                    })
                                                    | false ↦ none
                                                  ]
member_of _ = none

-- `member_pattern.fullmatch(str(value))`; `str` of a value that is no string never matches.
unfoldable pub parse_member : Value → Option Member
unfolding member_of segments
parse_member (str s) = member_of (segments s)
parse_member _ = none

-- The two members bind the same pool, and only the repository's name differs; the new one is the
-- declared repository.
abbrev pub rebinds : Option Member → Option Member → Option String → Bool
rebinds none new declared = false
rebinds (some old) none declared = false
rebinds (some old) (some new) none = false
rebinds (some old) (some new) (some declared) =
    (old.project == new.project && old.pool == new.pool)
    && (not (old.owner == new.owner && old.repository == new.repository)
        && (old.owner == new.owner && (new.owner +++ ("/" +++ new.repository)) == declared))

unfoldable pub safe_gcp_federation_rebind : Value → String → Value → Option String → Bool
safe_gcp_federation_rebind target stage item declared =
    let change = or_empty (get "change" item) in
    let before = or_empty (get "before" change) in
    let after = or_empty (get "after" change) in
    (is_text "gcp-cloud" (get "provider" target) && stage == "bootstrap")
    && (is_text "google_service_account_iam_member.federation" (get "address" item)
        && (is_text "google_service_account_iam_member" (get "type" item)
            && ((eq (get "actions" change) (texts ("create" ∷ "delete" ∷ []))
                  && eq (get "replace_paths" change) (arr (cons (texts ("member" ∷ [])) nil)))
                && ((is_text "roles/iam.workloadIdentityUser" (get "role" before)
                      && is_text "roles/iam.workloadIdentityUser" (get "role" after))
                    && rebinds (parse_member (get_or "member" (str "") before))
                        (parse_member (get_or "member" (str "") after)) declared))))
