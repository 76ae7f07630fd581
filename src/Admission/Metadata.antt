-- ===== src/Admission/Metadata.antt =====
-- src/catalog-admission.ts: how complete the title and the locations of a posting are. A text is the
-- list of its UTF-16 code units.
use intern_notifs.Base.{
  ℕ, ◌+◌, Bool, true, false, ◌&&◌, ◌||◌, not, List, [], ◌∷◌, ◌++◌, ◌==◌, if◌then◌else◌, units,
  contains, is_space,
}
use intern_notifs.Admission.Evidence.{
  TitleState, LocationState, MetadataCompleteness, Reason, metadata_title_missing,
  metadata_title_truncated, metadata_title_malformed, metadata_title_approximate_repair,
  metadata_location_truncated, metadata_location_malformed,
}

-- `replace(/\s+/gu, ' ').trim()`: the flag says that a space is owed before the next character.
pub squeeze : Bool → List ℕ → List ℕ
squeeze owed [] = []
squeeze owed (c ∷ rest) =
    let spaced = squeeze true rest in
    let kept = squeeze false rest in
    if is_space c then spaced else if owed then 32 ∷ c ∷ kept else c ∷ kept

-- The leading white space is dropped, the rest squeezed.
unfoldable pub normalized : List ℕ → List ℕ
unfolding squeeze
normalized [] = []
normalized (c ∷ rest) =
    let trimmed = normalized rest in if is_space c then trimmed else c ∷ squeeze false rest

-- `value.split(c).length - 1`
abbrev pub occurrences : ℕ → List ℕ → ℕ
occurrences c [] = 0
occurrences c (d ∷ rest) = let n = occurrences c rest in if c == d then n + 1 else n

unfoldable pub is_unbalanced : List ℕ → Bool
is_unbalanced text =
    not (occurrences b'(' text == occurrences b')' text)
    || not (occurrences b'[' text == occurrences b']' text)
    || not (occurrences b'{' text == occurrences b'}' text)

-- `/(?:\.{2,}|…)/`
unfoldable pub has_ellipsis : List ℕ → Bool
unfolding contains units
has_ellipsis text = contains text (units "..") || contains text (0x2026 ∷ [])

-- `/[,/(&[{-]\s*$/` on a text without white space at its end
unfoldable pub ends_in_fragment : List ℕ → Bool
ends_in_fragment [] = false
ends_in_fragment (c ∷ []) =
    c == b',' || c == b'/' || c == b'(' || c == b'&' || c == b'[' || c == b'{' || c == b'-'
ends_in_fragment (c ∷ d ∷ rest) = ends_in_fragment (d ∷ rest)

abbrev pub is_empty : List ℕ → Bool
is_empty [] = true
is_empty (c ∷ rest) = false

-- `join(' · ')`
abbrev pub joined : List (List ℕ) → List ℕ
joined [] = []
joined (place ∷ []) = place
joined (place ∷ more ∷ places) = place ++ (32 ∷ 0xb7 ∷ 32 ∷ joined (more ∷ places))

unfoldable pub title_state : List ℕ → Bool → TitleState
title_state title repaired =
    if is_empty title
    then TitleState.missing
    else if has_ellipsis title
    then TitleState.truncated
    else if is_unbalanced title || ends_in_fragment title
    then TitleState.malformed
    else if repaired
    then TitleState.approximate_repair
    else TitleState.complete

-- The last pattern of the source, letters before two dots at the end, is an ellipsis already.
unfoldable pub location_state : List ℕ → LocationState
location_state place =
    if is_empty place
    then LocationState.not_specified
    else if has_ellipsis place
    then LocationState.truncated
    else if is_unbalanced place
    then LocationState.malformed
    else LocationState.complete

abbrev is_complete_title : TitleState → Bool
is_complete_title TitleState.complete = true
is_complete_title _ = false

abbrev is_complete_location : LocationState → Bool
is_complete_location LocationState.complete = true
is_complete_location LocationState.not_specified = true
is_complete_location _ = false

unfoldable pub metadata_completeness : List ℕ → List (List ℕ) → Bool → MetadataCompleteness
metadata_completeness title locations repaired =
    let title_is = title_state (normalized title) repaired in
    let location_is = location_state (normalized (joined locations)) in
    record {
      is_complete = is_complete_title title_is && is_complete_location location_is;
      title = title_is;
      location = location_is;
    }

abbrev title_reasons : TitleState → List Reason
title_reasons TitleState.missing = metadata_title_missing ∷ []
title_reasons TitleState.truncated = metadata_title_truncated ∷ []
title_reasons TitleState.malformed = metadata_title_malformed ∷ []
title_reasons TitleState.approximate_repair = metadata_title_approximate_repair ∷ []
title_reasons TitleState.complete = []

abbrev location_reasons : LocationState → List Reason
location_reasons LocationState.truncated = metadata_location_truncated ∷ []
location_reasons LocationState.malformed = metadata_location_malformed ∷ []
location_reasons _ = []

unfoldable pub metadata_reasons : MetadataCompleteness → List Reason
metadata_reasons m = title_reasons m.title ++ location_reasons m.location
