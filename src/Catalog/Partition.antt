-- ===== src/Catalog/Partition.antt =====
-- src/catalog-groups.ts: each job that is shown is in one group.
use intern_notifs.Base.{
  ℕ, zero, suc, ◌+◌, ◌≤◌, ◌≡◌, refl, ◌∙◌, String, Bool, ◌&&◌, not, Option, none, some, List, [],
  ◌∷◌, ◌++◌, map, keep, length, leb, ltb, is_some, if◌then◌else◌, if_splits, arith,
}
use intern_notifs.Catalog.Types.{Internship}
use intern_notifs.Catalog.Groups.{
  Kind, Shown, Bursts, timestamp, has_place, ordered, window, burst_at, with_release,
  company_bursts, all_bursts, numbered, is_visible, added, grouped_by, has_no_key, burst_key,
  burst_groups, groups_from, group_catalog_jobs, program_kind, employer_release, individual,
}
use intern_notifs.Catalog.Places.{
  times_in, times_in_all, values, ordered-times_in, keep-times_in, with_match-times_in,
  release-times_in, burst_at-times_in,
}

abbrev all_times : ℕ → Bursts → ℕ
all_times n b = times_in_all n b.releases + times_in n b.remaining

-- From the one to the other every job stays where there is one of it.
abbrev Keeps : ℕ → Bursts → Bursts → Type 0
Keeps n b after = (all_times n after ≡ all_times n b) × (times_in n after.remaining ≤ 1)

with_release-Keeps :
    (n : ℕ) (burst : List Shown) (b : Bursts)
    → times_in n burst ≤ times_in n b.remaining
    → times_in n b.remaining ≤ 1
    → Keeps n b (with_release burst b)
with_release-Keeps n burst b h one =
    let kept = keep-times_in (λ m. not (has_place m burst)) n b.remaining in
    (release-times_in n burst b h one, ground (arith, kept, one))

Keeps-trans : (n : ℕ) (a b c : Bursts) → Keeps n a b → Keeps n b c → Keeps n a c
Keeps-trans n a b c h k = (k.0 ∙ h.0, k.1)

company_bursts-Keeps :
    (n passed : ℕ) (xs : List Shown) (b : Bursts)
    → times_in n xs ≤ 1
    → times_in n b.remaining ≤ 1
    → Keeps n b (company_bursts passed xs b)
unfolding company_bursts
company_bursts-Keeps n passed [] b h one = (refl, one)
company_bursts-Keeps n (suc passed) (s ∷ rest) b h one =
    company_bursts-Keeps n passed rest b (ground (arith, h)) one
company_bursts-Keeps n zero (s ∷ rest) b h one =
    let burst = burst_at s rest b.remaining in
    let fewer : times_in n rest ≤ 1 = ground (arith, h) in
    let taken = with_release-Keeps n burst b (burst_at-times_in n s rest b.remaining h) one in
    if_splits (Keeps n b) (leb 4 (length burst))
      (company_bursts (length (window (timestamp s) rest)) rest (with_release burst b))
      (company_bursts zero rest b)
      (λ e.
        Keeps-trans n b (with_release burst b)
          (company_bursts (length (window (timestamp s) rest)) rest (with_release burst b)) taken
          (company_bursts-Keeps n (length (window (timestamp s) rest)) rest (with_release burst b)
            fewer taken.1))
      (λ e. company_bursts-Keeps n zero rest b fewer one)

all_bursts-Keeps :
    (n : ℕ) (table : List (String × List Shown)) (b : Bursts)
    → times_in_all n (values table) ≤ 1
    → times_in n b.remaining ≤ 1
    → Keeps n b (all_bursts table b)
unfolding all_bursts
all_bursts-Keeps n [] b h one = (refl, one)
all_bursts-Keeps n (entry ∷ rest) b h one =
    let after = company_bursts zero (ordered entry.1) b in
    let own : times_in n (ordered entry.1) ≤ 1 = omega (arith, ordered-times_in n entry.1, h) in
    let kept = company_bursts-Keeps n zero (ordered entry.1) b own one in
    Keeps-trans n b after (all_bursts rest after) kept
      (all_bursts-Keeps n rest after (omega (arith, h)) kept.1)

added-times_in :
    (n : ℕ) (key : Option String) (table : List (String × List Shown)) (s : Shown)
    → times_in_all n (values (added key table s))
        + times_in n (if not (is_some key) then s ∷ [] else [])
      ≡ times_in_all n (values table) + times_in n (s ∷ [])
unfolding added
added-times_in n none table s = refl
added-times_in n (some key) table s = ground (arith, with_match-times_in n table key s)

grouped_by-times_in :
    (n : ℕ) (key : Internship → Option String) (table : List (String × List Shown))
    (xs : List Shown)
    → times_in_all n (values (grouped_by key table xs)) + times_in n (keep (has_no_key key) xs)
      ≡ times_in_all n (values table) + times_in n xs
unfolding grouped_by
grouped_by-times_in n key table [] = refl
grouped_by-times_in n key table (s ∷ xs) =
    let first = added-times_in n (key s.job) table s in
    let others = grouped_by-times_in n key (added (key s.job) table s) xs in
    ground (arith, first, others)

numbered-times_in :
    (n first : ℕ) (jobs : List Internship)
    → times_in n (numbered first jobs)
      ≡ (if leb first n && ltb n (first + length jobs) then 1 else 0)
unfolding numbered
numbered-times_in n first [] = ground arith
numbered-times_in n first (job ∷ rest) = ground (arith, numbered-times_in n (suc first) rest)

-- The lists of the groups.
abbrev pub roles_of : List (Kind × List Shown) → List (List Shown)
roles_of [] = []
roles_of (group ∷ rest) = group.1 ∷ roles_of rest

roles_of-append :
    (n : ℕ) (xs ys : List (Kind × List Shown))
    → times_in_all n (roles_of (xs ++ ys))
      ≡ times_in_all n (roles_of xs) + times_in_all n (roles_of ys)
roles_of-append n [] ys = omega arith
roles_of-append n (x ∷ xs) ys = omega (arith, roles_of-append n xs ys)

roles_of-releases :
    (n : ℕ) (xs : List (List Shown))
    → times_in_all n (roles_of (map (λ roles. (employer_release, roles)) xs)) ≡ times_in_all n xs
roles_of-releases n [] = refl
roles_of-releases n (x ∷ xs) = omega (arith, roles_of-releases n xs)

roles_of-programs :
    (n : ℕ) (table : List (String × List Shown))
    → times_in_all n
        (roles_of (map (λ (entry : String × List Shown). (program_kind entry.1, entry.1)) table))
      ≡ times_in_all n (values table)
roles_of-programs n [] = refl
roles_of-programs n (entry ∷ rest) = omega (arith, roles_of-programs n rest)

roles_of-individuals :
    (n : ℕ) (xs : List Shown)
    → times_in_all n (roles_of (map (λ s. (individual, s ∷ [])) xs)) ≡ times_in n xs
roles_of-individuals n [] = refl
roles_of-individuals n (s ∷ xs) = ground (arith, roles_of-individuals n xs)

module _ (company_key safe_program_key : Internship → Option String)
    (is_dated : Internship → Bool) where
  bursts-Keeps :
      (n : ℕ) (shown : List Shown)
      → times_in n shown ≤ 1
      → Keeps n
          (record { releases = []; remaining = shown })
          (burst_groups company_key safe_program_key is_dated shown)
  unfolding burst_groups
  bursts-Keeps n shown one =
      all_bursts-Keeps n (grouped_by (burst_key company_key safe_program_key is_dated) [] shown)
        (record { releases = []; remaining = shown })
        (omega (
          arith,
          grouped_by-times_in n (burst_key company_key safe_program_key is_dated) [] shown,
          one,
        ))
        one

  groups_from-times_in :
      (n : ℕ) (bursts : Bursts)
      → times_in_all n (roles_of (groups_from company_key safe_program_key is_dated bursts))
        ≡ all_times n bursts
  unfolding groups_from
  groups_from-times_in n bursts =
      let programs = grouped_by safe_program_key [] bursts.remaining in
      let lone = keep (has_no_key safe_program_key) bursts.remaining in
      let first : List (Kind × List Shown) =
        map (λ roles. (employer_release, roles)) bursts.releases in
      let second : List (Kind × List Shown) =
        map (λ (entry : String × List Shown). (program_kind entry.1, entry.1)) programs in
      let third : List (Kind × List Shown) = map (λ s. (individual, s ∷ [])) lone in
      roles_of-append n (first ++ second) third
      ∙ omega (
        arith,
        roles_of-append n first second,
        roles_of-releases n bursts.releases,
        roles_of-programs n programs,
        roles_of-individuals n lone,
        grouped_by-times_in n safe_program_key [] bursts.remaining,
      )

  -- Each job that is visible is in the groups exactly once, and nothing else is in them: the job of
  -- each place below the number of visible jobs once, and that of any other place not at all.
  pub each_job_once :
      (include_closed : Bool) (jobs : List Internship) (n : ℕ)
      → times_in_all n
          (roles_of (group_catalog_jobs company_key safe_program_key is_dated include_closed jobs))
        ≡ (if ltb n (length (keep (is_visible include_closed) jobs)) then 1 else 0)
  unfolding group_catalog_jobs
  each_job_once include_closed jobs n =
      let visible = keep (is_visible include_closed) jobs in
      let shown = numbered 0 visible in
      let counted = numbered-times_in n 0 visible in
      let one : times_in n shown ≤ 1 = ground (arith, counted) in
      let bursts : Bursts = burst_groups company_key safe_program_key is_dated shown in
      let kept = bursts-Keeps n shown one in
      ground (arith, groups_from-times_in n bursts, kept.0, counted)
