-- ===== src/Session/Digest/Laws.antt =====
-- The digest of a field plan: its shape, and that the order of the fields does not matter.
use mathlib.Core.List.{Perm, Permᴰ}
use mathlib.Core.Path.{ap₂}
use mathlib.Core.Logic.{∥∥₁_elim}
use native.Mathlib.Nat.{ℕ_set, pow-suc}
use intern_notifs.Base.{
  fnv, fnv-lt, ℕ, zero, suc, ◌+◌, ◌-◌, ◌/◌, ◌%◌, ◌≤◌, ◌<◌, ◌^◌, ◌≡◌, refl, ap, true, false, List,
  [], ◌∷◌, ◌++◌, map, arith, length, length-append, drop, ltb, ◌==◌, if◌then◌else◌, Bool-cases, inl,
  inr, ◌∙◌, units, ◌*◌, ◌⊎◌,
}
use intern_notifs.Session.Digest.{
  ApplicationFieldDraft, field_line, lex_le, insert, sort, join, hex_digit, to_hex, replicate,
  pad_start, canonical, digest_field_plan,
}

lex_total : (a b : List ℕ) → (lex_le a b ≡ true) ⊎ (lex_le b a ≡ true)
unfolding lex_le
lex_total [] b = inl refl
lex_total (x ∷ a) [] = inr refl
lex_total (x ∷ a) (y ∷ b) = ground (arith, lex_total a b)

lex_antisymm : (a b : List ℕ) → lex_le a b ≡ true → lex_le b a ≡ true → a ≡ b
unfolding lex_le
lex_antisymm [] [] h k = refl
lex_antisymm [] (y ∷ b) h k = cc
lex_antisymm (x ∷ a) [] h k = cc
lex_antisymm (x ∷ a) (y ∷ b) h k = ground (arith, lex_antisymm a b)

lex_trans : (a b c : List ℕ) → lex_le a b ≡ true → lex_le b c ≡ true → lex_le a c ≡ true
unfolding lex_le
lex_trans [] b c h k = refl
lex_trans (x ∷ a) [] c h k = cc
lex_trans (x ∷ a) (y ∷ b) [] h k = cc
lex_trans (x ∷ a) (y ∷ b) (z ∷ c) h k = ground (arith, lex_trans a b c)

-- Two texts go in by either order.
insert_comm : (a b : List ℕ) (l : List (List ℕ)) → insert a (insert b l) ≡ insert b (insert a l)
unfolding insert
insert_comm a b [] = ground (arith, lex_total a b, lex_antisymm a b)
insert_comm a b (c ∷ l) = ground (
  arith,
  insert_comm a b l,
  lex_total a b,
  lex_antisymm a b,
  lex_trans a b c,
  lex_trans b a c,
  lex_total a c,
  lex_total b c,
)

lines-permᴰ :
    {xs ys : List ApplicationFieldDraft}
    → Permᴰ xs ys
    → sort (map field_line xs) ≡ sort (map field_line ys)
unfolding sort
lines-permᴰ Permᴰ.nil = refl
lines-permᴰ (Permᴰ.cons e p) = ap₂ insert (ap field_line e) (lines-permᴰ p)
lines-permᴰ (Permᴰ.swap {a = a} {b = b} {l = l} e e') =
    rw (← e, ← e') (insert_comm (field_line a) (field_line b) (sort (map field_line l)))
lines-permᴰ (Permᴰ.trans p q) = lines-permᴰ p ∙ lines-permᴰ q

units-set : IsSet (List ℕ)
units-set = hlevel ℕ_set

-- The digest does not depend on the order in which the fields are listed.
pub digest_field_plan-perm :
    (xs ys : List ApplicationFieldDraft) → Perm xs ys → digest_field_plan xs ≡ digest_field_plan ys
unfolding digest_field_plan
digest_field_plan-perm xs ys p = ∥∥₁_elim p (units-set _ _) (λ q.
    ap (λ t. units "fp-" ++ pad_start 8 b'0' (to_hex 8 (fnv 0x811c9dc5 (join b'\n' t)) []))
      (lines-permᴰ q))

unhex : ℕ → ℕ
unhex c = if ltb c b'a' then c - b'0' else c - b'a' + 10

unhex-hex_digit : (d : ℕ) → d < 16 → unhex (hex_digit d) ≡ d
unfolding unhex hex_digit
unhex-hex_digit d h = ground arith

-- The number that hexadecimal digits stand for, behind those that have been read.
pub hex_value : ℕ → List ℕ → ℕ
hex_value v [] = v
hex_value v (c ∷ cs) = hex_value (v * 16 + unhex c) cs

quotient_fits : (fuel n : ℕ) → n < 16 ^ suc fuel → n / 16 < 16 ^ fuel
quotient_fits fuel n h = omega (arith, pow-suc 16 fuel)

fuel_left : (fuel n : ℕ) → n < 16 ^ suc fuel → (n / 16 == 0) ≡ false → 0 < fuel
fuel_left zero n h p = ground arith
fuel_left (suc fuel) n h p = omega arith

length-replicate : (n c : ℕ) → length (replicate n c) ≡ n
unfolding replicate
length-replicate zero c = refl
length-replicate (suc n) c = ap suc (length-replicate n c)

length-to_hex : (fuel n : ℕ) (acc : List ℕ) → length (to_hex fuel n acc) ≤ fuel + length acc
unfolding to_hex
length-to_hex zero n acc = omega arith
length-to_hex (suc fuel) n acc =
    ground (arith, length-to_hex fuel (n / 16) (hex_digit (n % 16) ∷ acc))

hex_value-to_hex :
    (fuel n : ℕ) (acc : List ℕ)
    → n < 16 ^ fuel
    → 0 < fuel
    → hex_value 0 (to_hex fuel n acc) ≡ hex_value n acc
unfolding to_hex hex_value
hex_value-to_hex zero n acc h k = absurd (omega arith)
hex_value-to_hex (suc fuel) n acc h k = elim (Bool-cases (n / 16 == 0)) [
  | inl p ↦
      let small : n < 16 = ground arith in
      rw p (ap (λ v. hex_value v acc) (omega (arith, unhex-hex_digit n small)))
  | inr p ↦ rw p (
      hex_value-to_hex fuel (n / 16) (hex_digit (n % 16) ∷ acc) (quotient_fits fuel n h)
        (fuel_left fuel n h p)
      ∙ ap (λ v. hex_value v acc) (omega (arith, unhex-hex_digit (n % 16) (omega arith))))
]

hex_value-replicate : (k : ℕ) (cs : List ℕ) → hex_value 0 (replicate k b'0' ++ cs) ≡ hex_value 0 cs
unfolding replicate hex_value unhex
hex_value-replicate zero cs = refl
hex_value-replicate (suc k) cs = hex_value-replicate k cs

-- The hash that the digest writes out.
pub plan_hash : List ApplicationFieldDraft → ℕ
plan_hash fields = fnv 0x811c9dc5 (canonical fields)

-- Behind its prefix `fp-` the digest is the hexadecimal writing of the hash, eight digits long and
-- with no digit lost, whatever the fields are.
pub digest_field_plan-hash :
    (fields : List ApplicationFieldDraft)
    → (hex_value 0 (drop 3 (digest_field_plan fields)) ≡ plan_hash fields)
      × (length (digest_field_plan fields) ≡ 11)
unfolding digest_field_plan plan_hash units pad_start hex_value
digest_field_plan-hash fields =
    let n = fnv 0x811c9dc5 (canonical fields) in
    let p : n < 16 ^ 8 = fnv-lt 0x811c9dc5 (canonical fields) (omega arith) in
    (
      hex_value-replicate (8 - length (to_hex 8 n [])) _ ∙ hex_value-to_hex 8 n [] p (omega arith),
      omega (
        arith,
        length-append (replicate (8 - length (to_hex 8 n [])) b'0') (to_hex 8 n []),
        length-replicate (8 - length (to_hex 8 n [])) b'0',
        length-to_hex 8 n [],
      ),
    )
