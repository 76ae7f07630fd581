-- ===== src/Identity/Aliases.antt =====
-- src/identity/posting.ts: `resolvePostingAliases`, which finds the job that an identity belongs to by
-- the claims on its aliases.
use Prim.Native.Char.{Char, code}
use intern_notifs.Base.{
  ℕ, String, Option, none, some, List, [], ◌∷◌, ◌++◌, map, any, get_or, ◌==◌, units, starts,
  if◌then◌else◌,
}
use intern_notifs.Base.Table.{lookup, put}
use intern_notifs.Base.Sets.{template, distinct, sorted_texts}
use intern_notifs.Identity.Posting.{PostingIdentity, non_empty}
use intern_notifs.Identity.Decision.{
  ConflictReason, aliases_resolve_to_different_jobs, multiple_immutable_provider_postings,
  provider_scope_mismatch, employer_scope_mismatch, multiple_authoritative_requisitions,
}
use intern_notifs.Identity.Conflicts.{more_than_one}

pub data AliasResolution : Type 0 where
  create merge : String → List String → AliasResolution
  quarantine : List String → List String → ConflictReason → AliasResolution

abbrev put_first : Char → List String → List String
put_first c [] = String.◌∷◌ c "" ∷ []
put_first c (word ∷ rest) = String.◌∷◌ c word ∷ rest

-- `value.split(':')`
unfoldable pub split_colon : String → List String
split_colon String.[] = "" ∷ []
split_colon (String.◌∷◌ c s) =
    let rest = split_colon s in if code c == b':' then "" ∷ rest else put_first c rest

-- The part at a place, if it is there and not empty.
abbrev part : List String → ℕ → Option String
part [] n = none
part (s ∷ rest) ℕ.zero = non_empty (some s)
part (s ∷ rest) (ℕ.suc n) = part rest n

-- The provider with its tenant, and the posting.
unfoldable pub provider_parts : String → Option (String × String)
provider_parts value =
    let parts = split_colon value in
    elim (part parts 1) [
      | none ↦ none
      | some provider ↦ elim (part parts 2) [
        | none ↦ none
        | some tenant ↦ elim (part parts 3) [
          | none ↦ none
          | some posting_id ↦ some (template (provider ∷ ":" ∷ tenant ∷ []), posting_id)
        ]
      ]
    ]

-- `providerPostingGroups`, with the postings of each group.
abbrev pub with_posting :
    List (String × List String) → Option (String × String) → List (String × List String)
with_posting groups none = groups
with_posting groups (some found) =
    put groups found.0 (distinct (get_or (lookup groups found.0) [] ++ found.1 ∷ []))

unfoldable pub provider_groups :
    List (String × List String) → List String → List (String × List String)
provider_groups groups [] = groups
provider_groups groups (value ∷ rest) =
    provider_groups
      (with_posting groups
        (if starts (units value) (units "provider:") then provider_parts value else none))
      rest

-- The employer and the requisition.
unfoldable pub requisition_parts : String → Option (String × String)
requisition_parts value =
    let parts = split_colon value in
    elim (part parts 1) [
      | none ↦ none
      | some employer ↦ elim (part parts 2) [
        | none ↦ none
        | some requisition ↦ some (employer, template (employer ∷ ":" ∷ requisition ∷ []))
      ]
    ]

unfoldable pub requisitions_of : List String → List (String × String)
requisitions_of [] = []
requisitions_of (value ∷ rest) =
    let later = requisitions_of rest in
    elim (if starts (units value) (units "requisition:") then requisition_parts value else none) [
      | none ↦ later
      | some found ↦ found ∷ later
    ]

module _ (claims : String → Option String) where
  unfoldable pub claimed_ids : List String → List String
  claimed_ids [] = []
  claimed_ids (value ∷ rest) =
      let later = claimed_ids rest in
      elim (non_empty (claims value)) [ none ↦ later | some job ↦ job ∷ later ]

  abbrev by_claims : String → List String → List String → AliasResolution
  by_claims own_id values [] = create own_id values
  by_claims own_id values (job ∷ []) = merge job values
  by_claims own_id values (job ∷ other ∷ more) =
      quarantine values (job ∷ other ∷ more) aliases_resolve_to_different_jobs

  -- The tests in their order.
  unfoldable pub resolve_values : String → List String → AliasResolution
  resolve_values own_id values =
      let groups = provider_groups [] values in
      let requisitions = requisitions_of values in
      if more_than_one groups
      then quarantine values [] provider_scope_mismatch
      else if any (λ group. more_than_one group.1) groups
      then quarantine values [] multiple_immutable_provider_postings
      else if more_than_one (distinct (map (λ r. r.0) requisitions))
      then quarantine values [] employer_scope_mismatch
      else if more_than_one (distinct (map (λ r. r.1) requisitions))
      then quarantine values [] multiple_authoritative_requisitions
      else by_claims own_id values (sorted_texts (distinct (claimed_ids values)))

  unfoldable pub resolve_posting_aliases : PostingIdentity → AliasResolution
  resolve_posting_aliases identity =
      resolve_values identity.canonical_job_id
        (sorted_texts (distinct (map (λ a. a.value) identity.aliases)))
