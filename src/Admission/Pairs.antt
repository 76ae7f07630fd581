-- ===== src/Admission/Pairs.antt =====
-- src/catalog-admission.ts: when references of one posting contradict each other, without groups.
use mathlib.Core.Bool.{true≢false}
use text.Mathlib.TextPositions.{eq_refl}
use intern_notifs.Base.{
  String, ◌≡◌, refl, sym, ap, ◌∙◌, Bool, true, false, not, ◌&&◌, ◌||◌, Option, none, some, List, [],
  ◌∷◌, arith, any, keep, length, ltb, eq_iff, if◌then◌else◌, Bool-cases, Option-cases, inl, inr,
}
use intern_notifs.Admission.Evidence.{SourceOccurrence}
use intern_notifs.Admission.Derive.{
  key_of, identities, is_official, is_admitted, some_disagree, group_conflict, metadata_conflict_in,
}
use intern_notifs.Admission.Grouping.{
  has_key, identities-found, identities-unique, any-found, found_of_any,
}

iff_eq : (a b : Bool) → (a ≡ true → b ≡ true) → (b ≡ true → a ≡ true) → a ≡ b
iff_eq true b f g = sym (f refl)
iff_eq false true f g = g refl
iff_eq false false f g = refl

-- Is there a pair, in the order of the list, for which the test holds?
abbrev pub pairs : {A : Type 0} → (A → A → Bool) → List A → Bool
pairs p [] = false
pairs p (x ∷ xs) = any (p x) xs || pairs p xs

abbrev pub speaks_for_group : SourceOccurrence → Bool
speaks_for_group r = is_official r && is_admitted r

abbrev has_posting : Option String → SourceOccurrence → Bool
has_posting none b = false
has_posting (some k) b = has_key k b

-- Do both name the same posting?
abbrev pub same_posting : SourceOccurrence → SourceOccurrence → Bool
same_posting a b = has_posting (key_of a) b

-- An official reference that is admitted is heard, and any other where its posting has none.
abbrev pub is_heard : List SourceOccurrence → SourceOccurrence → Bool
is_heard all r = speaks_for_group r || not (any (λ o. same_posting r o && speaks_for_group o) all)

module _ (disagree : SourceOccurrence → SourceOccurrence → Bool) where
  -- Do two of the references name one posting and disagree on it, and is each of them heard?
  abbrev pub contradicts_in : List SourceOccurrence → SourceOccurrence → SourceOccurrence → Bool
  contradicts_in all a b = same_posting a b && is_heard all a && is_heard all b && disagree a b

  abbrev pub contradicts : List SourceOccurrence → Bool
  contradicts all = pairs (contradicts_in all) all

  any_nothing : (xs : List SourceOccurrence) → any (λ b. false) xs ≡ false
  any_nothing [] = refl
  any_nothing (x ∷ xs) = any_nothing xs

  any-keep :
      (q p : SourceOccurrence → Bool) (xs : List SourceOccurrence)
      → any p (keep q xs) ≡ any (λ b. q b && p b) xs
  any-keep q p [] = refl
  any-keep q p (x ∷ xs) = ground (arith, any-keep q p xs)

  keep-pairs :
      (q : SourceOccurrence → Bool) (xs : List SourceOccurrence)
      → some_disagree disagree (keep q xs) ≡ pairs (λ a b. q a && (q b && disagree a b)) xs
  keep-pairs q [] = refl
  keep-pairs q (x ∷ xs) = elim (Bool-cases (q x)) [
    | inl e ↦ rw e (ground (arith, any-keep q (disagree x) xs, keep-pairs q xs))
    | inr e ↦ rw e (ground (arith, any_nothing xs, keep-pairs q xs))
  ]

  speakers_kept :
      (h q : SourceOccurrence → Bool) (xs : List SourceOccurrence)
      → ltb 0 (length (keep q (keep h xs))) ≡ any (λ o. h o && q o) xs
  speakers_kept h q [] = refl
  speakers_kept h q (x ∷ xs) = ground (arith, speakers_kept h q xs)

  choose_kept :
      (b : Bool) (h q : SourceOccurrence → Bool) (xs : List SourceOccurrence)
      → (if b then keep q (keep h xs) else keep h xs) ≡ keep (λ r. h r && (q r || not b)) xs
  choose_kept true h q [] = refl
  choose_kept false h q [] = refl
  choose_kept true h q (x ∷ xs) = ground (arith, choose_kept true h q xs)
  choose_kept false h q (x ∷ xs) = ground (arith, choose_kept false h q xs)

  -- Is the reference one of the posting of the key, and heard there?
  abbrev heard_at : String → List SourceOccurrence → SourceOccurrence → Bool
  heard_at k all r =
      has_key k r && (speaks_for_group r || not (any (λ o. has_key k o && speaks_for_group o) all))

  group_conflict-pairs :
      (k : String) (all : List SourceOccurrence)
      → group_conflict disagree (keep (has_key k) all)
        ≡ pairs (λ a b. heard_at k all a && (heard_at k all b && disagree a b)) all
  group_conflict-pairs k all =
      ap
        (λ b.
          some_disagree disagree
            (if b then keep speaks_for_group (keep (has_key k) all) else keep (has_key k) all))
        (speakers_kept (has_key k) speaks_for_group all)
      ∙ (ap (some_disagree disagree) (
            choose_kept (any (λ o. has_key k o && speaks_for_group o) all) (has_key k)
              speaks_for_group all)
          ∙ keep-pairs (heard_at k all) all)

  any-implied :
      (p q : SourceOccurrence → Bool) (xs : List SourceOccurrence)
      → ((a : SourceOccurrence) → p a ≡ true → q a ≡ true)
      → any p xs ≡ true
      → any q xs ≡ true
  any-implied p q [] f h = h
  any-implied p q (x ∷ xs) f h = elim (Bool-cases (p x)) [
    | inl e ↦ rw (f x e) refl
    | inr e ↦ ground (arith, any-implied p q xs f (rw e at h))
  ]

  pairs-implied :
      (p q : SourceOccurrence → SourceOccurrence → Bool) (xs : List SourceOccurrence)
      → ((a b : SourceOccurrence) → p a b ≡ true → q a b ≡ true)
      → pairs p xs ≡ true
      → pairs q xs ≡ true
  pairs-implied p q [] f h = h
  pairs-implied p q (x ∷ xs) f h = elim (Bool-cases (any (p x) xs)) [
    | inl e ↦ rw (any-implied (p x) (q x) xs (f x) e) refl
    | inr e ↦ ground (arith, pairs-implied p q xs f (rw e at h))
  ]

  and_true : (a b : Bool) → a ≡ true → (a && b) ≡ b
  and_true true b h = refl
  and_true false b h = elim (true≢false (sym h)) [ ]

  of_key : (k : String) (a : SourceOccurrence) → has_key k a ≡ true → key_of a ≡ some k
  of_key k a h = elim (Option-cases (key_of a)) [
    | inl e ↦ ground (arith, e, h)
    | inr (j, e) ↦ ground (arith, e, h, eq_iff k j)
  ]

  heard_same :
      (k : String) (all : List SourceOccurrence) (a : SourceOccurrence)
      → has_key k a ≡ true
      → heard_at k all a ≡ is_heard all a
  heard_same k all a h =
      and_true (has_key k a)
        (speaks_for_group a || not (any (λ o. has_key k o && speaks_for_group o) all)) h
      ∙ ap
          (λ key.
            speaks_for_group a || not (any (λ o. has_posting key o && speaks_for_group o) all))
          (sym (of_key k a h))

  -- Of two references of the group of a key, as of two that name one posting.
  at_key-contradicts :
      (k : String) (all : List SourceOccurrence) (a b : SourceOccurrence)
      → (heard_at k all a && (heard_at k all b && disagree a b)) ≡ true
      → contradicts_in all a b ≡ true
  at_key-contradicts k all a b h =
      let p : has_key k a ≡ true = ground (arith, h) in
      let q : has_key k b ≡ true = ground (arith, h) in
      let same : same_posting a b ≡ true = ap (λ key. has_posting key b) (of_key k a p) ∙ q in
      let x = heard_same k all a p in
      let y = heard_same k all b q in
      let u : heard_at k all a ≡ true = ground (arith, h) in
      let v : heard_at k all b ≡ true = ground (arith, h) in
      let w : disagree a b ≡ true = ground (arith, h) in rw (same, sym x ∙ u, sym y ∙ v, w) refl

  key_of_pair :
      (a b : SourceOccurrence)
      → same_posting a b ≡ true
      → (k : String) × (has_key k a ≡ true) × (has_key k b ≡ true)
  key_of_pair a b h = elim (Option-cases (key_of a)) [
    | inl e ↦ elim (true≢false (sym h ∙ ap (λ key. has_posting key b) e)) [ ]
    | inr (k, e) ↦ (k, ground (arith, e, eq_refl k), ap (λ key. has_posting key b) (sym e) ∙ h)
  ]

  contradicts-at_key :
      (k : String) (all : List SourceOccurrence) (a b : SourceOccurrence)
      → contradicts_in all a b ≡ true
      → has_key k a ≡ true
      → has_key k b ≡ true
      → (heard_at k all a && (heard_at k all b && disagree a b)) ≡ true
  contradicts-at_key k all a b h p q =
      let u : is_heard all a ≡ true = ground (arith, h) in
      let v : is_heard all b ≡ true = ground (arith, h) in
      let w : disagree a b ≡ true = ground (arith, h) in
      rw (heard_same k all a p ∙ u, heard_same k all b q ∙ v, w) refl

  any_at_key :
      (all : List SourceOccurrence) (x : SourceOccurrence) (ys : List SourceOccurrence)
      → any (contradicts_in all x) ys ≡ true
      → (k : String) × (any (λ b. heard_at k all x && (heard_at k all b && disagree x b)) ys ≡ true)
  any_at_key all x [] h = elim (true≢false (sym h)) [ ]
  any_at_key all x (y ∷ ys) h = elim (Bool-cases (contradicts_in all x y)) [
    | inl e ↦
        let (k, p, q) = key_of_pair x y (ground (arith, e)) in
        (k, rw (contradicts-at_key k all x y e p q) refl)
    | inr e ↦ let (k, later) = any_at_key all x ys (rw e at h) in (k, ground (arith, later))
  ]

  pairs_at_key :
      (all xs : List SourceOccurrence)
      → pairs (contradicts_in all) xs ≡ true
      → (k : String) × (pairs (λ a b. heard_at k all a && (heard_at k all b && disagree a b)) xs
          ≡ true)
  pairs_at_key all [] h = elim (true≢false (sym h)) [ ]
  pairs_at_key all (x ∷ xs) h = elim (Bool-cases (any (contradicts_in all x) xs)) [
    | inl e ↦ let (k, first) = any_at_key all x xs e in (k, rw first refl)
    | inr e ↦ let (k, later) = pairs_at_key all xs (rw e at h) in (k, ground (arith, later))
  ]

  -- Some group of one posting has a conflict exactly if two references contradict each other.
  pub metadata_conflict_in-contradicts :
      (all : List SourceOccurrence) → metadata_conflict_in disagree all ≡ contradicts all
  unfolding metadata_conflict_in
  metadata_conflict_in-contradicts all =
      let table = identities [] all in
      let group = λ (k : String). ap (group_conflict disagree) (identities-found [] all k) in
      iff_eq (any (λ e. group_conflict disagree e.1) table) (contradicts all)
        (λ h.
          let (k, c) =
            found_of_any (group_conflict disagree) table (identities-unique [] all refl) refl h in
          pairs-implied (λ a b. heard_at k all a && (heard_at k all b && disagree a b))
            (contradicts_in all) all (at_key-contradicts k all)
            (sym (group_conflict-pairs k all) ∙ (sym (group k) ∙ c)))
        (λ h.
          let (k, c) = pairs_at_key all all h in
          any-found (group_conflict disagree) table k refl
            (group k ∙ (group_conflict-pairs k all ∙ c)))
