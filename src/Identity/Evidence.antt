-- ===== src/Identity/Evidence.antt =====
-- src/identity/reviewed-provider.ts: the check of what a provider is said to have told. The sources
-- that were reviewed are given by their ids, with the board token or the site of each.
use Prim.Native.String
use intern_notifs.Base.{
  ℕ, String, Bool, true, false, ◌&&◌, ◌||◌, not, Option, none, some, List, [], ◌∷◌, leb, ◌==◌,
  str_eq, if◌then◌else◌, units, is_blank, all, starts,
}
use intern_notifs.Base.Table.{lookup}
use intern_notifs.Identity.Posting.{ProviderPostingEvidence, greenhouse}

abbrev is_digit : ℕ → Bool
is_digit c = leb b'0' c && leb c b'9'

abbrev is_hex : ℕ → Bool
is_hex c = is_digit c || (leb b'a' c && leb c b'f') || (leb b'A' c && leb c b'F')

-- `/^\d+$/`
unfoldable pub all_digits : List ℕ → Bool
all_digits [] = false
all_digits (c ∷ cs) = all is_digit (c ∷ cs)

-- Groups of hexadecimal digits of these lengths, with a dash between two of them.
unfoldable pub hex_groups : ℕ → List ℕ → List ℕ → Bool
hex_groups ℕ.zero [] [] = true
hex_groups ℕ.zero [] (c ∷ cs) = false
hex_groups ℕ.zero (n ∷ ns) [] = false
hex_groups ℕ.zero (n ∷ ns) (c ∷ cs) = c == b'-' && hex_groups n ns cs
hex_groups (ℕ.suc k) ns [] = false
hex_groups (ℕ.suc k) ns (c ∷ cs) = is_hex c && hex_groups k ns cs

-- `/^[a-f0-9]{8}-[a-f0-9]{4}-[a-f0-9]{4}-[a-f0-9]{4}-[a-f0-9]{12}$/i`
unfoldable pub is_uuid : List ℕ → Bool
is_uuid text = hex_groups 8 (4 ∷ 4 ∷ 4 ∷ 12 ∷ []) text

module _ (lower : String → String) (greenhouse_sources lever_sources : List (String × String)) where
  -- Does the source say another tenant, or is it unknown and not named as expected?
  abbrev disagrees : Option String → String → Bool → Bool
  disagrees none tenant named = not named
  disagrees (some token) tenant named = not (str_eq (lower token) (lower tenant))

  unfoldable pub reviewed_provider_evidence_error : ProviderPostingEvidence → Option String
  reviewed_provider_evidence_error e =
      if is_blank (units e.evidence_posting_id)
        || is_blank (units e.evidence_tenant)
        || is_blank (units e.evidence_source_id)
      then some "provider evidence is incomplete"
      else elim e.evidence_provider [
        | greenhouse ↦
            if disagrees (lookup greenhouse_sources e.evidence_source_id) e.evidence_tenant
              (str_eq e.evidence_source_id (String.◌++◌ "greenhouse-" (lower e.evidence_tenant)))
            then some "Greenhouse evidence disagrees with the reviewed source"
            else if not (all_digits (units e.evidence_posting_id))
            then some "Greenhouse public posting ID is invalid"
            else none
        | _ ↦
            if disagrees (lookup lever_sources e.evidence_source_id) e.evidence_tenant
              (starts (units e.evidence_source_id) (units "lever-"))
            then some "Lever evidence disagrees with the reviewed source"
            else if not (is_uuid (units e.evidence_posting_id))
            then some "Lever posting UUID is invalid"
            else none
      ]
