-- ===== src/Catalog/Places.antt =====
-- src/catalog-groups.ts: how often a job is in the lists that the grouping makes.
use intern_notifs.Base.{
  ℕ, suc, ◌+◌, ◌≤◌, ◌≡◌, refl, String, Bool, not, List, [], ◌∷◌, ◌++◌, keep, ltb, ◌==◌,
  if◌then◌else◌, arith, ==_iff,
}
use intern_notifs.Base.Table.{lookup, put}
use intern_notifs.Catalog.Groups.{
  Shown, Bursts, timestamp, has_place, with_match, insert_by_time, ordered, window, burst_at,
  with_release,
}

-- How often is the job of this place in a list?
abbrev pub times_in : ℕ → List Shown → ℕ
times_in n [] = 0
times_in n (s ∷ rest) = let later = times_in n rest in if s.place == n then suc later else later

abbrev pub times_in_all : ℕ → List (List Shown) → ℕ
times_in_all n [] = 0
times_in_all n (group ∷ rest) = times_in n group + times_in_all n rest

abbrev pub values : List (String × List Shown) → List (List Shown)
values [] = []
values (entry ∷ rest) = entry.1 ∷ values rest

pub times_in-append :
    (n : ℕ) (xs ys : List Shown) → times_in n (xs ++ ys) ≡ times_in n xs + times_in n ys
times_in-append n [] ys = omega arith
times_in-append n (x ∷ xs) ys = ground (arith, times_in-append n xs ys)

pub times_in_all-append :
    (n : ℕ) (xs ys : List (List Shown))
    → times_in_all n (xs ++ ys) ≡ times_in_all n xs + times_in_all n ys
times_in_all-append n [] ys = omega arith
times_in_all-append n (x ∷ xs) ys = omega (arith, times_in_all-append n xs ys)

pub insert_by_time-times_in :
    (n : ℕ) (s : Shown) (xs : List Shown) → times_in n (insert_by_time s xs) ≡ times_in n (s ∷ xs)
unfolding insert_by_time
insert_by_time-times_in n s [] = refl
insert_by_time-times_in n s (t ∷ xs) = ground (arith, insert_by_time-times_in n s xs)

pub ordered-times_in : (n : ℕ) (xs : List Shown) → times_in n (ordered xs) ≡ times_in n xs
unfolding ordered
ordered-times_in n [] = refl
ordered-times_in n (s ∷ xs) =
    ground (arith, insert_by_time-times_in n s (ordered xs), ordered-times_in n xs)

pub window-times_in :
    (n anchor : ℕ) (xs : List Shown) → times_in n (window anchor xs) ≤ times_in n xs
unfolding window
window-times_in n anchor [] = omega arith
window-times_in n anchor (s ∷ xs) = ground (arith, window-times_in n anchor xs)

pub has_place-times_in : (n : ℕ) (xs : List Shown) → has_place n xs ≡ ltb 0 (times_in n xs)
has_place-times_in n [] = refl
has_place-times_in n (s ∷ xs) = ground (arith, has_place-times_in n xs)

pub keep-times_in :
    (p : ℕ → Bool) (n : ℕ) (xs : List Shown)
    → times_in n (keep (λ s. p s.place) xs) ≡ (if p n then times_in n xs else 0)
keep-times_in p n [] = ground arith
keep-times_in p n (s ∷ xs) = ground (arith, keep-times_in p n xs, ==_iff s.place n)

pub with_match-times_in :
    (n : ℕ) (table : List (String × List Shown)) (key : String) (s : Shown)
    → times_in_all n (values (with_match table key s))
      ≡ times_in_all n (values table) + times_in n (s ∷ [])
unfolding with_match lookup put
with_match-times_in n [] key s = omega arith
with_match-times_in n ((j, group) ∷ rest) key s =
    ground (arith, with_match-times_in n rest key s, times_in-append n group (s ∷ []))

-- A burst takes what it has out of the remaining jobs.
pub release-times_in :
    (n : ℕ) (burst : List Shown) (b : Bursts)
    → times_in n burst ≤ times_in n b.remaining
    → times_in n b.remaining ≤ 1
    → times_in_all n (with_release burst b).releases + times_in n (with_release burst b).remaining
      ≡ times_in_all n b.releases + times_in n b.remaining
release-times_in n burst b h one =
    let kept = keep-times_in (λ m. not (has_place m burst)) n b.remaining in
    let more = times_in_all-append n b.releases (burst ∷ []) in
    ground (arith, kept, more, has_place-times_in n burst, h, one)

pub burst_at-times_in :
    (n : ℕ) (s : Shown) (rest remaining : List Shown)
    → times_in n (s ∷ rest) ≤ 1
    → times_in n (burst_at s rest remaining) ≤ times_in n remaining
unfolding burst_at
burst_at-times_in n s rest remaining one =
    let kept = keep-times_in (λ m. has_place m remaining) n (s ∷ window (timestamp s) rest) in
    ground (arith, kept, has_place-times_in n remaining, window-times_in n (timestamp s) rest, one)
