-- ===== src/Identity/Settled.antt =====
-- An identity that the registry confirms raises no conflict among the aliases.
use intern_notifs.Base.{
  ◌≡◌, refl, sym, ap, ◌∙◌, ◌⊎◌, inl, inr, String, Bool, true, false, Option, some, List, [], ◌∷◌,
  map, arith, eq_iff, ok, All,
}
use mathlib.Core.Path.{subst}
use intern_notifs.Base.Table.{put, lookup}
use intern_notifs.Base.Sets.{distinct, unique_by, set_all, sorted_texts}
use intern_notifs.Identity.Posting.{PostingAlias, PostingIdentity}
use intern_notifs.Identity.Decision.{
  Decision, confirmed, unconfirmed, quarantined, RegistryInput, RegistryResult, Routes,
}
use intern_notifs.Identity.Registry.{resolve_posting_identity_decision}
use intern_notifs.Identity.Claims.{Claims, ClaimsOnly, confirmed-Claims}
use intern_notifs.Identity.Aliases.{
  AliasResolution, quarantine, provider_groups, requisitions_of, claimed_ids, resolve_values,
  resolve_posting_aliases,
}

abbrev pub is_quarantine : AliasResolution → Bool
is_quarantine (quarantine values jobs reason) = true
is_quarantine _ = false

-- A table with one entry is kept by what is put under its key.
put_again :
    (key : String) (xs : List String)
    → All (λ x. x ≡ key) xs
    → set_all (λ s. s) ((key, key) ∷ []) xs ≡ (key, key) ∷ []
unfolding set_all put
put_again key [] h = refl
put_again key (x ∷ xs) h =
    ap (λ table. set_all (λ s. s) table xs) (ground (arith, h.0, eq_iff x key))
    ∙ put_again key xs h.1

distinct_one :
    (key : String) (xs : List String)
    → All (λ x. x ≡ key) xs
    → (distinct xs ≡ []) ⊎ (distinct xs ≡ key ∷ [])
unfolding distinct unique_by set_all put
distinct_one key [] h = inl refl
distinct_one key (x ∷ xs) h = inr (
    ap (map (λ entry. entry.1))
      (ap (λ s. set_all (λ t. t) ((s, s) ∷ []) xs) h.0 ∙ put_again key xs h.1))

values_keyed :
    (key : String) (aliases : List PostingAlias)
    → All (λ a. a.value ≡ key) aliases
    → All (λ x. x ≡ key) (map (λ a. a.value) aliases)
values_keyed key [] h = tt
values_keyed key (a ∷ rest) h = (h.0, values_keyed key rest h.1)

module _ (claims : String → Option String) where
  no_values : (own_id : String) → is_quarantine (resolve_values claims own_id []) ≡ false
  unfolding resolve_values provider_groups requisitions_of claimed_ids distinct unique_by set_all
      sorted_texts
  no_values own_id = refl

  one_value :
      (own_id value : String) → is_quarantine (resolve_values claims own_id (value ∷ [])) ≡ false
  unfolding resolve_values provider_groups requisitions_of claimed_ids distinct unique_by set_all
      put lookup sorted_texts
  one_value own_id value = ground arith

  few_values :
      (own_id key : String) (values : List String)
      → (values ≡ []) ⊎ (values ≡ key ∷ [])
      → is_quarantine (resolve_values claims own_id (sorted_texts values)) ≡ false
  unfolding sorted_texts
  few_values own_id key values (inl e) =
      subst (λ vs. is_quarantine (resolve_values claims own_id (sorted_texts vs)) ≡ false) (sym e)
        (no_values own_id)
  few_values own_id key values (inr e) =
      subst (λ vs. is_quarantine (resolve_values claims own_id (sorted_texts vs)) ≡ false) (sym e)
        (one_value own_id key)

  only_key_settles :
      (key : String) (identity : PostingIdentity)
      → ClaimsOnly key identity
      → is_quarantine (resolve_posting_aliases claims identity) ≡ false
  unfolding resolve_posting_aliases
  only_key_settles key identity h =
      few_values identity.canonical_job_id key _
        (distinct_one key _ (values_keyed key identity.aliases h))

  same_identity : (i j : PostingIdentity) → some j ≡ some i → j ≡ i
  same_identity i j h = cc

  settles_if_claimed :
      (decision : Decision) (given : Option PostingIdentity) (i : PostingIdentity)
      → Claims (record { decision = decision; identity = given })
      → given ≡ some i
      → is_quarantine (resolve_posting_aliases claims i) ≡ false
  settles_if_claimed (confirmed c) given i h e =
      only_key_settles c.exact_key i
        (subst (ClaimsOnly c.exact_key) (same_identity i h.0 (sym h.1 ∙ e)) h.2)
  settles_if_claimed (unconfirmed u) given i h e = cc
  settles_if_claimed (quarantined q) given i h e = cc

  -- An identity that the registry gives out is never quarantined for its aliases, whatever jobs they
  -- are claimed for: it belongs to one job, or to a new one.
  pub identity_settles :
      (routes : Routes) (input : RegistryInput) (result : RegistryResult) (i : PostingIdentity)
      → resolve_posting_identity_decision routes input ≡ ok result
      → result.identity ≡ some i
      → is_quarantine (resolve_posting_aliases claims i) ≡ false
  identity_settles routes input result i came given =
      settles_if_claimed result.decision result.identity i
        (confirmed-Claims routes input result came) given
