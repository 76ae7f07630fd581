-- ===== src/Catalog/Groups.antt =====
-- src/catalog-groups.ts: the groups in which the catalog shows its jobs. A job is told from others by
-- its place among those that are shown, as the code tells objects apart; `company_key` and
-- `safe_program_key` are made of texts. How a group is summed up, and the order of the groups by that,
-- are left out.
use intern_notifs.Base.{
  ℕ, zero, suc, ◌+◌, String, Bool, true, ◌&&◌, ◌||◌, not, Option, none, some, List, [], ◌∷◌, ◌++◌,
  map, any, keep, length, leb, ltb, ◌==◌, get_or, is_some, if◌then◌else◌,
}
use intern_notifs.Base.Table.{lookup, put}
use intern_notifs.Catalog.Types.{Internship}

pub data Kind : Type 0 where
  program_group employer_release individual : Kind

pub record Shown : Type 0 where
  pub place : ℕ
  pub job : Internship

abbrev pub release_window_ms : ℕ
release_window_ms = 8000

-- `Date.parse(catalogVisibleAt(job))`
abbrev pub timestamp : Shown → ℕ
timestamp s = get_or s.job.catalog_visible_at s.job.first_seen_at

-- `set.has(job)`
abbrev pub has_place : ℕ → List Shown → Bool
has_place n shown = any (λ s. s.place == n) shown

-- A job is added to the list of its key.
unfoldable pub with_match : List (String × List Shown) → String → Shown → List (String × List Shown)
unfolding lookup put
with_match table key s = put table key (get_or (lookup table key) [] ++ s ∷ [])

unfoldable pub insert_by_time : Shown → List Shown → List Shown
insert_by_time s [] = s ∷ []
insert_by_time s (t ∷ rest) =
    let later = insert_by_time s rest in
    if leb (timestamp s) (timestamp t) then s ∷ t ∷ rest else t ∷ later

-- `sort` by the times, which keeps the order of equal ones
unfoldable pub ordered : List Shown → List Shown
unfolding insert_by_time
ordered [] = []
ordered (s ∷ rest) = insert_by_time s (ordered rest)

-- Those that follow within the window of the first.
unfoldable pub window : ℕ → List Shown → List Shown
window anchor [] = []
window anchor (s ∷ rest) =
    let more = window anchor rest in
    if leb (timestamp s) (anchor + release_window_ms) then s ∷ more else []

-- The releases so far, and the jobs that are in none.
pub record Bursts : Type 0 where
  pub releases : List (List Shown)
  pub remaining : List Shown

unfoldable pub burst_at : Shown → List Shown → List Shown → List Shown
unfolding window
burst_at s rest remaining = keep (λ t. has_place t.place remaining) (s ∷ window (timestamp s) rest)

abbrev pub with_release : List Shown → Bursts → Bursts
with_release burst b = record {
  releases = b.releases ++ burst ∷ [];
  remaining = keep (λ t. not (has_place t.place burst)) b.remaining;
}

-- The walk over the jobs of one company; `passed` of the next ones are in the burst before.
unfoldable pub company_bursts : ℕ → List Shown → Bursts → Bursts
unfolding window burst_at
company_bursts passed [] b = b
company_bursts (suc passed) (s ∷ rest) b = company_bursts passed rest b
company_bursts zero (s ∷ rest) b =
    let burst = burst_at s rest b.remaining in
    let after = company_bursts (length (window (timestamp s) rest)) rest (with_release burst b) in
    let without = company_bursts zero rest b in if leb 4 (length burst) then after else without

unfoldable pub all_bursts : List (String × List Shown) → Bursts → Bursts
unfolding company_bursts ordered
all_bursts [] b = b
all_bursts (entry ∷ rest) b = all_bursts rest (company_bursts zero (ordered entry.1) b)

unfoldable pub numbered : ℕ → List Internship → List Shown
numbered n [] = []
numbered n (job ∷ rest) = record { place = n; job = job } ∷ numbered (suc n) rest

abbrev pub is_visible : Bool → Internship → Bool
is_visible include_closed job = (include_closed || job.is_open) && get_or job.technical true

-- The same, where it has a key.
unfoldable pub added :
    Option String → List (String × List Shown) → Shown → List (String × List Shown)
unfolding with_match
added none table s = table
added (some key) table s = with_match table key s

module _ (key : Internship → Option String) where
  unfoldable pub grouped_by : List (String × List Shown) → List Shown → List (String × List Shown)
  unfolding added
  grouped_by table [] = table
  grouped_by table (s ∷ rest) = grouped_by (added (key s.job) table s) rest

  abbrev pub has_no_key : Shown → Bool
  has_no_key s = not (is_some (key s.job))

abbrev pub program_kind : List Shown → Kind
program_kind roles = if ltb 1 (length roles) then program_group else individual

-- `is_dated` is `Number.isFinite(timestamp(job))`: a job whose time cannot be read is in no burst.
module _ (company_key safe_program_key : Internship → Option String)
    (is_dated : Internship → Bool) where
  abbrev pub burst_key : Internship → Option String
  burst_key job = if is_dated job then company_key job else none

  unfoldable pub burst_groups : List Shown → Bursts
  unfolding grouped_by all_bursts
  burst_groups shown =
      all_bursts (grouped_by burst_key [] shown) (record { releases = []; remaining = shown })

  unfoldable pub groups_from : Bursts → List (Kind × List Shown)
  unfolding grouped_by
  groups_from bursts =
      map (λ roles. (employer_release, roles)) bursts.releases
      ++ map (λ (entry : String × List Shown). (program_kind entry.1, entry.1))
          (grouped_by safe_program_key [] bursts.remaining)
      ++ map (λ s. (individual, s ∷ [])) (keep (has_no_key safe_program_key) bursts.remaining)

  unfoldable pub group_catalog_jobs : Bool → List Internship → List (Kind × List Shown)
  unfolding burst_groups numbered groups_from
  group_catalog_jobs include_closed jobs =
      groups_from (burst_groups (numbered 0 (keep (is_visible include_closed) jobs)))
