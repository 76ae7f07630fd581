-- ===== src/Catalog/Attached.antt =====
-- src/identity/source-occurrence.ts: what occurrences that are merged leave of each.
use mathlib.Core.Bool.{true≢false}
use intern_notifs.Base.{
  sym, ◌∙◌, ◌⊎◌, inl, inr, any, ℕ, ◌≡◌, refl, Bool, true, false, ◌&&◌, ◌||◌, not, Option, none,
  some, List, [], ◌∷◌, All, leb, arith,
}
use intern_notifs.Admission.Evidence.{CatalogAdmission, SourceOccurrence, Precision}
use intern_notifs.Catalog.Occurrence.{
  merge_source_occurrence, earliest, latest_admission, merged_precision, admission_observed_at,
  is_exact,
}

-- Occurrences merged into one, each in its turn.
unfoldable pub merged : SourceOccurrence → List SourceOccurrence → SourceOccurrence
unfolding merge_source_occurrence
merged o [] = o
merged o (next ∷ rest) = merged (merge_source_occurrence (some o) next) rest

abbrev pub no_later : Option ℕ → Option ℕ → Bool
no_later a none = true
no_later none (some t) = false
no_later (some u) (some t) = leb u t

abbrev pub as_recent : Option CatalogAdmission → Option CatalogAdmission → Bool
as_recent a none = true
as_recent none (some b) = false
as_recent (some a) (some b) = leb (admission_observed_at b) (admission_observed_at a)

-- Does the first know all of the second: an attachment as early, an admission observed as late, and
-- an exact time where that is exact?
abbrev pub knows : SourceOccurrence → SourceOccurrence → Bool
knows m o =
    no_later m.first_attached_at o.first_attached_at
    && as_recent m.admission o.admission
    && (is_exact m.first_attached_precision || not (is_exact o.first_attached_precision))

earliest-no_later :
    (a b : Option ℕ) → (no_later (earliest a b) a && no_later (earliest a b) b) ≡ true
unfolding earliest
earliest-no_later none none = refl
earliest-no_later none (some b) = ground arith
earliest-no_later (some a) none = ground arith
earliest-no_later (some a) (some b) = ground arith

latest-as_recent :
    (a b : Option CatalogAdmission)
    → (as_recent (latest_admission a b) a && as_recent (latest_admission a b) b) ≡ true
unfolding latest_admission
latest-as_recent none none = refl
latest-as_recent none (some b) = ground arith
latest-as_recent (some a) none = ground arith
latest-as_recent (some a) (some b) = ground arith

merged_precision-exact :
    (a b : Option Precision)
    → ((is_exact (merged_precision a b) || not (is_exact a))
        && (is_exact (merged_precision a b) || not (is_exact b)))
      ≡ true
merged_precision-exact a b = ground arith

no_later_trans :
    (a b c : Option ℕ) → no_later a b ≡ true → no_later b c ≡ true → no_later a c ≡ true
no_later_trans a b none h k = refl
no_later_trans none none (some t) h k = k
no_later_trans (some u) none (some t) h k = elim (true≢false (sym k)) [ ]
no_later_trans none (some v) (some t) h k = h
no_later_trans (some u) (some v) (some t) h k = ground arith

as_recent_trans :
    (a b c : Option CatalogAdmission)
    → as_recent a b ≡ true
    → as_recent b c ≡ true
    → as_recent a c ≡ true
as_recent_trans a b none h k = refl
as_recent_trans none none (some t) h k = k
as_recent_trans (some u) none (some t) h k = elim (true≢false (sym k)) [ ]
as_recent_trans none (some v) (some t) h k = h
as_recent_trans (some u) (some v) (some t) h k = ground arith

knows_trans : (a b c : SourceOccurrence) → knows a b ≡ true → knows b c ≡ true → knows a c ≡ true
knows_trans a b c h k = ground (
  arith,
  no_later_trans a.first_attached_at b.first_attached_at c.first_attached_at,
  as_recent_trans a.admission b.admission c.admission,
)

merge_knows :
    (p i : SourceOccurrence)
    → (knows (merge_source_occurrence (some p) i) p && knows (merge_source_occurrence (some p) i) i)
      ≡ true
unfolding merge_source_occurrence
merge_knows p i = ground (
  arith,
  earliest-no_later p.first_attached_at i.first_attached_at,
  latest-as_recent p.admission i.admission,
  merged_precision-exact p.first_attached_precision i.first_attached_precision,
)

knows_refl : (o : SourceOccurrence) → knows o o ≡ true
knows_refl o = ground arith

merged-knows_each :
    (o : SourceOccurrence) (rest : List SourceOccurrence)
    → All (λ x. knows (merged o rest) x ≡ true) (o ∷ rest)
unfolding merged
merged-knows_each o [] = (knows_refl o, tt)
merged-knows_each o (next ∷ rest) =
    let both = merge_source_occurrence (some o) next in
    let later = merged-knows_each both rest in
    (
      knows_trans (merged both rest) both o later.0 (ground (arith, merge_knows o next)),
      (
        knows_trans (merged both rest) both next later.0 (ground (arith, merge_knows o next)),
        later.1,
      ),
    )

module _ {A : Type 0} (field : SourceOccurrence → A) where
  abbrev pub TakenFrom : A → List SourceOccurrence → Type 0
  TakenFrom a [] = ⊥
  TakenFrom a (x ∷ xs) = (a ≡ field x) ⊎ TakenFrom a xs

  -- A field that a merge takes from one of two occurrences is taken from one of them all.
  merged-TakenFrom :
      ((p i : SourceOccurrence)
        → (field (merge_source_occurrence (some p) i) ≡ field p)
          ⊎ (field (merge_source_occurrence (some p) i) ≡ field i))
      → (o : SourceOccurrence) (rest : List SourceOccurrence)
      → TakenFrom (field (merged o rest)) (o ∷ rest)
  unfolding merged
  merged-TakenFrom either o [] = inl refl
  merged-TakenFrom either o (next ∷ rest) =
      elim (merged-TakenFrom either (merge_source_occurrence (some o) next) rest) [
        | inr later ↦ inr (inr later)
        | inl e ↦ elim (either o next) [
          | inl first ↦ inl (e ∙ first)
          | inr second ↦ inr (inl (e ∙ second))
        ]
      ]

either_time : (a b : Option ℕ) → (earliest a b ≡ a) ⊎ (earliest a b ≡ b)
unfolding earliest
either_time none b = inr refl
either_time (some a) none = inl refl
either_time (some a) (some b) = ground arith

either_admission :
    (a b : Option CatalogAdmission) → (latest_admission a b ≡ a) ⊎ (latest_admission a b ≡ b)
unfolding latest_admission
either_admission none b = inr refl
either_admission (some a) none = inl refl
either_admission (some a) (some b) = ground arith

merged-exact :
    (o : SourceOccurrence) (rest : List SourceOccurrence)
    → is_exact (merged o rest).first_attached_precision
      ≡ any (λ x. is_exact x.first_attached_precision) (o ∷ rest)
unfolding merged merge_source_occurrence
merged-exact o [] = ground arith
merged-exact o (next ∷ rest) =
    ground (arith, merged-exact (merge_source_occurrence (some o) next) rest)

-- Occurrences merged into one keep the earliest of their times of first attachment, said to be exact
-- if and only if one of theirs is, and of their admissions one that none of the others was observed
-- after.
pub merged-knows :
    (o : SourceOccurrence) (rest : List SourceOccurrence)
    → All (λ x. knows (merged o rest) x ≡ true) (o ∷ rest)
      × TakenFrom (λ x. x.first_attached_at) (merged o rest).first_attached_at (o ∷ rest)
      × TakenFrom (λ x. x.admission) (merged o rest).admission (o ∷ rest)
      × (is_exact (merged o rest).first_attached_precision
          ≡ any (λ x. is_exact x.first_attached_precision) (o ∷ rest))
unfolding merge_source_occurrence
merged-knows o rest = (
  merged-knows_each o rest,
  merged-TakenFrom (λ x. x.first_attached_at)
      (λ p i. either_time p.first_attached_at i.first_attached_at) o rest,
  merged-TakenFrom (λ x. x.admission) (λ p i. either_admission p.admission i.admission) o rest,
  merged-exact o rest,
)
