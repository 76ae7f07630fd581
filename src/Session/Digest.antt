-- ===== src/Session/Digest.antt =====
-- src/application-automation.ts: the field plan of a session and its digest, a change detector.
-- A text is the list of its UTF-16 code units wherever the code walks it.
pub mod Laws
use intern_notifs.Base.{
  ℕ, zero, suc, ◌+◌, ◌-◌, ◌*◌, ◌/◌, ◌%◌, ◌^◌, String, Bool, true, false, Option, none, some, List,
  [], ◌∷◌, ◌++◌, map, ltb, ◌==◌, if◌then◌else◌, length, units, fnv,
}
use intern_notifs.Base.Json.{Props}

pub data Classification : Type 0 where
  standard sensitive voluntary_self_identification : Classification

pub data Confidence : Type 0 where
  exact inferred unknown : Confidence

pub data ValueSource : Type 0 where
  profile reusable_answer document user : ValueSource

-- The reference as it is stored: the object of the request, with what else it holds, and of it the
-- source and the key, which were checked.
pub record ValueRef : Type 0 where
  pub source : ValueSource
  pub key : String
  pub stored : Props

pub record ApplicationFieldDraft : Type 0 where
  pub key : String
  pub label : String
  pub required : Bool
  pub resolved : Bool
  pub classification : Classification
  pub confidence : Confidence
  pub value_ref : Option ValueRef
  pub masked_preview : Option String

bool_text : Bool → String
bool_text true = "true"
bool_text false = "false"

classification_text : Classification → String
classification_text standard = "standard"
classification_text sensitive = "sensitive"
classification_text voluntary_self_identification = "voluntary-self-identification"

confidence_text : Confidence → String
confidence_text exact = "exact"
confidence_text inferred = "inferred"
confidence_text unknown = "unknown"

source_text : Option ValueRef → String
source_text none = ""
source_text (some r) = elim r.source [
  | profile ↦ "profile"
  | reusable_answer ↦ "reusable-answer"
  | document ↦ "document"
  | user ↦ "user"
]

key_text : Option ValueRef → String
key_text none = ""
key_text (some r) = r.key

preview_text : Option String → String
preview_text none = ""
preview_text (some s) = s

-- `join(separator)`, for a separator of one code unit.
join : ℕ → List (List ℕ) → List ℕ
join sep [] = []
join sep (x ∷ []) = x
join sep (x ∷ y ∷ r) = x ++ sep ∷ join sep (y ∷ r)

field_line : ApplicationFieldDraft → List ℕ
unfolding join bool_text classification_text confidence_text source_text key_text preview_text units
field_line f = join b'|' (
    map units (
      f.key
      ∷ bool_text f.required
      ∷ bool_text f.resolved
      ∷ classification_text f.classification
      ∷ confidence_text f.confidence
      ∷ source_text f.value_ref
      ∷ key_text f.value_ref
      ∷ preview_text f.masked_preview
      ∷ []))

-- The default order of `sort()`: by code units, a prefix first.
pub lex_le : List ℕ → List ℕ → Bool
lex_le [] ys = true
lex_le (x ∷ xs) [] = false
lex_le (x ∷ xs) (y ∷ ys) = if x == y then lex_le xs ys else ltb x y

pub insert : List ℕ → List (List ℕ) → List (List ℕ)
insert x [] = x ∷ []
insert x (y ∷ ys) = if lex_le x y then x ∷ y ∷ ys else y ∷ insert x ys

pub sort : List (List ℕ) → List (List ℕ)
unfolding insert lex_le
sort [] = []
sort (x ∷ xs) = insert x (sort xs)

hex_digit : ℕ → ℕ
hex_digit d = if ltb d 10 then b'0' + d else b'a' + (d - 10)

-- `toString(16)`; a hash has at most eight digits, which is the fuel.
pub to_hex : ℕ → ℕ → List ℕ → List ℕ
unfolding hex_digit
to_hex zero n acc = acc
to_hex (suc fuel) n acc =
    let more = to_hex fuel (n / 16) (hex_digit (n % 16) ∷ acc) in
    if n / 16 == 0 then hex_digit n ∷ acc else more

replicate : ℕ → ℕ → List ℕ
replicate zero c = []
replicate (suc n) c = c ∷ replicate n c

pub pad_start : ℕ → ℕ → List ℕ → List ℕ
unfolding replicate
pad_start width c s = replicate (width - length s) c ++ s

pub canonical : List ApplicationFieldDraft → List ℕ
unfolding join sort field_line
canonical fields = join b'\n' (sort (map field_line fields))

unfoldable pub digest_field_plan : List ApplicationFieldDraft → List ℕ
unfolding canonical fnv to_hex pad_start units
digest_field_plan fields =
    units "fp-" ++ pad_start 8 b'0' (to_hex 8 (fnv 0x811c9dc5 (canonical fields)) [])
