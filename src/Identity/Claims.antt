-- ===== src/Identity/Claims.antt =====
-- What a confirmed decision claims, and how long the evidence for it holds.
use intern_notifs.Base.{
  ◌≡◌, refl, sym, ap, ◌∙◌, ◌⊎◌, inl, inr, String, Bool, true, false, ◌&&◌, Option, none, some, List,
  [], ◌∷◌, arith, eq_iff, str_eq, if◌then◌else◌, ok, All, keep,
}
use mathlib.Core.Path.{subst}
use mathlib.Core.Bool.{true≢false}
use intern_notifs.Base.Sets.{unique_by-All}
use intern_notifs.Identity.Posting.{PostingAlias, PostingIdentity}
use intern_notifs.Identity.Decision.{
  EvidenceKind, Confirmed, Decision, confirmed, unconfirmed, quarantined, RegistryInput,
  RegistryResult, Routes,
}
use intern_notifs.Identity.Registry.{
  claims_kind, claimable_identity, resolve_posting_identity_decision,
}
use intern_notifs.Identity.Outcome.{is_confirmed, Sourced, Backing, resolve-Ends}

-- The aliases of an identity all stand for this key.
abbrev pub ClaimsOnly : String → PostingIdentity → Type 0
ClaimsOnly key identity = All (λ a. a.value ≡ key) identity.aliases

abbrev pub Claims : RegistryResult → Type 0
Claims result = elim result.decision [
  | confirmed c ↦ (i : PostingIdentity) × (result.identity ≡ some i) × ClaimsOnly c.exact_key i
  | unconfirmed _ ↦ result.identity ≡ none
  | quarantined _ ↦ result.identity ≡ none
]

if_keyed :
    (b : Bool) (key : String) (a : PostingAlias) (rest : List PostingAlias)
    → (b ≡ true → a.value ≡ key)
    → All (λ a. a.value ≡ key) rest
    → All (λ a. a.value ≡ key) (if b then a ∷ rest else rest)
if_keyed true key a rest h k = (h refl, k)
if_keyed false key a rest h k = k

keep-keyed :
    (kind : EvidenceKind) (key : String) (listed : List PostingAlias)
    → All (λ a. a.value ≡ key) (keep (λ a. str_eq a.value key && claims_kind kind a) listed)
keep-keyed kind key [] = tt
keep-keyed kind key (a ∷ rest) =
    if_keyed (str_eq a.value key && claims_kind kind a) key a
      (keep (λ a. str_eq a.value key && claims_kind kind a) rest)
      (λ h. ground (arith, eq_iff a.value key)) (keep-keyed kind key rest)

claimable_identity-ClaimsOnly :
    (identity : PostingIdentity) (key : String) (kind : EvidenceKind)
    → ClaimsOnly key (claimable_identity identity key kind)
unfolding claimable_identity
claimable_identity-ClaimsOnly identity key kind =
    unique_by-All (λ a. a.value ≡ key) (λ a. a.value) _ (keep-keyed kind key identity.aliases)

module _ (routes : Routes) where
  abbrev ClaimsOf : Decision → Option PostingIdentity → Type 0
  ClaimsOf decision identity = Claims (record { decision = decision; identity = identity })

  of_confirmation :
      (decision : Decision) (c : Confirmed) (i : PostingIdentity)
      → decision ≡ confirmed c
      → ClaimsOf decision (some (claimable_identity i c.exact_key c.evidence_kind))
  of_confirmation decision c i h =
      subst (λ d. ClaimsOf d (some (claimable_identity i c.exact_key c.evidence_kind))) (sym h)
        (
          claimable_identity i c.exact_key c.evidence_kind,
          refl,
          claimable_identity-ClaimsOnly i c.exact_key c.evidence_kind,
        )

  unclaimed : (decision : Decision) → is_confirmed decision ≡ false → ClaimsOf decision none
  unclaimed (confirmed c) h = elim (true≢false h) [ ]
  unclaimed (unconfirmed u) h = refl
  unclaimed (quarantined q) h = refl

  -- A confirmed decision comes with an identity all of whose aliases are the exact key of the
  -- decision; one that is unconfirmed or quarantined comes with none.
  pub confirmed-Claims :
      (input : RegistryInput) (result : RegistryResult)
      → resolve_posting_identity_decision routes input ≡ ok result
      → Claims result
  confirmed-Claims input result came = elim (resolve-Ends routes input result came) [
    | inl p ↦ subst (ClaimsOf result.decision) (sym p.1) (unclaimed result.decision p.0)
    | inr p ↦
        subst (ClaimsOf result.decision) (sym p.1.2)
          (of_confirmation result.decision p.0 p.1.0 p.1.1)
  ]

  confirmed-inj : (a b : Confirmed) → confirmed a ≡ confirmed b → a ≡ b
  confirmed-inj a b h = cc

  -- A confirmation is the one before it, unchanged, or a new one, whose evidence has not expired.
  pub expired_never_confirms :
      (input : RegistryInput) (result : RegistryResult) (c : Confirmed)
      → resolve_posting_identity_decision routes input ≡ ok result
      → result.decision ≡ confirmed c
      → (input.previous_decision ≡ some (confirmed c))
        ⊎ ((c.confirmed_at ≡ input.observed_at) × Backing routes input c)
  expired_never_confirms input result c came h = elim (resolve-Ends routes input result came) [
    | inl p ↦ elim (true≢false (ap is_confirmed (sym h) ∙ p.0)) [ ]
    | inr p ↦ subst (Sourced routes input) (confirmed-inj p.0 c (sym p.1.1 ∙ h)) p.1.3
  ]
