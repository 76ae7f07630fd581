-- ===== src/Session/Request/Laws.antt =====
-- What the checks on an incoming session event let through.
use intern_notifs.Base.{
  All, Option-cases, inl, inr, ◌≤◌, ◌≡◌, String, Bool, true, false, Option, none, some, List, [],
  ◌∷◌, map, ap, ok, arith, units, length, is_blank, both_ok,
}
use intern_notifs.Base.Json.{
  items_length, as_str, Value, obj, arr, Items, nil, cons, Props, get, has,
}
use intern_notifs.Session.Digest.{ValueRef, ApplicationFieldDraft}
use intern_notifs.Session.Machine.{
  SessionEvent, review_approved, verification_completed, submission_confirmed,
}
use intern_notifs.Session.Request.{
  short, parse_value_ref, parse_preview, parse_field, parse_items, parse_fields, parse_typed,
  parse_session_event,
}

-- The events that only the signed-in user may send.
abbrev pub is_user_event : SessionEvent → Bool
is_user_event (review_approved _) = true
is_user_event (verification_completed _) = true
is_user_event (submission_confirmed _) = true
is_user_event _ = false

typed-is_user_event :
    (type : String) (o : Props) (e : SessionEvent)
    → parse_typed type o false ≡ ok e
    → is_user_event e ≡ false
unfolding parse_typed
typed-is_user_event type o e h = ground arith

-- A request that is not controlled by the user never yields an approval, the completion of a
-- verification or the confirmation of a submission.
pub parse_session_event-is_user_event :
    (raw : Option Value) (e : SessionEvent)
    → parse_session_event raw false ≡ ok e
    → is_user_event e ≡ false
unfolding parse_session_event
parse_session_event-is_user_event none e h = cc
parse_session_event-is_user_event (some (obj o)) e h = elim (Option-cases (as_str (get "type" o))) [
  | inl p ↦ ground arith
  | inr (type, p) ↦ typed-is_user_event type o e (ground arith)
]
parse_session_event-is_user_event (some v) e h = ground arith

-- A field plan as the checks leave it: a key that is not blank, and texts of bounded length.
pub record IsBounded (f : ApplicationFieldDraft) : Type 0 where
  pub key_named : is_blank (units f.key) ≡ false
  pub key_short : length (units f.key) ≤ 160
  pub label_short : length (units f.label) ≤ 300
  pub preview_short : (p : String) → f.masked_preview ≡ some p → length (units p) ≤ 200

-- The items that carry no raw answer.
abbrev pub NoRaw : Items → Type 0
NoRaw nil = Unit
NoRaw (cons (obj o) vs) = (has "value" o ≡ false) × (has "rawValue" o ≡ false) × NoRaw vs
NoRaw (cons _ vs) = ⊥

abbrev pub stored_ref : Option ValueRef → Option Props
stored_ref none = none
stored_ref (some r) = some r.stored

abbrev ref_of : Option Value → Option Props
ref_of (some (obj o)) = some o
ref_of _ = none

-- The value references of items, as they came.
abbrev pub refs : Items → List (Option Props)
refs nil = []
refs (cons (obj o) vs) = ref_of (get "valueRef" o) ∷ refs vs
refs (cons _ vs) = none ∷ refs vs

parse_value_ref-ref_of :
    (v : Option Value) (r : Option ValueRef) → parse_value_ref v ≡ ok r → stored_ref r ≡ ref_of v
unfolding parse_value_ref
parse_value_ref-ref_of v r h = ground arith

parse_preview-short :
    (v : Option Value) (r : Option String) (p : String)
    → parse_preview v ≡ ok r
    → r ≡ some p
    → length (units p) ≤ 200
unfolding parse_preview
parse_preview-short v r p h e = ground arith

-- What a field plan that was accepted says of the object that it was read from.
record Accepted (o : Props) (f : ApplicationFieldDraft) : Type 0 where
  key_named : is_blank (units f.key) ≡ false
  key_short : length (units f.key) ≤ 160
  label_short : length (units f.label) ≤ 300
  preview_from : parse_preview (get "maskedPreview" o) ≡ ok f.masked_preview
  ref_from : parse_value_ref (get "valueRef" o) ≡ ok f.value_ref
  no_value : has "value" o ≡ false
  no_raw_value : has "rawValue" o ≡ false

parse_field-Accepted :
    (o : Props) (f : ApplicationFieldDraft) → parse_field (obj o) ≡ ok f → Accepted o f
unfolding parse_field short
parse_field-Accepted o f h = ground arith

Accepted-IsBounded : (o : Props) (f : ApplicationFieldDraft) → Accepted o f → IsBounded f
Accepted-IsBounded o f a = record {
  key_named = a.key_named;
  key_short = a.key_short;
  label_short = a.label_short;
  preview_short = λ p e. parse_preview-short _ _ p a.preview_from e;
}

items-IsBounded :
    (items : Items) (fields : List ApplicationFieldDraft)
    → parse_items items ≡ ok fields
    → All IsBounded fields
      × NoRaw items
      × (map (λ f. stored_ref f.value_ref) fields ≡ refs items)
      × (length fields ≡ items_length items)
unfolding parse_items
items-IsBounded nil fields h = ground arith
items-IsBounded (cons (obj o) vs) fields h =
    let (f, p, h') = both_ok _ _ h in
    let (rest, q, h'') = both_ok _ _ h' in
    let a = parse_field-Accepted o f p in
    let (bounded, clean, whole, sized) = items-IsBounded vs rest q in
    let built : f ∷ rest ≡ fields = cc in
    rw (← built) (
      (
        (Accepted-IsBounded o f a, bounded),
        (a.no_value, a.no_raw_value, clean),
        rw (parse_value_ref-ref_of _ _ a.ref_from)
            (ap (λ xs. ref_of (get "valueRef" o) ∷ xs) whole),
        omega (arith, sized),
      ))
items-IsBounded (cons v vs) fields h = unfold parse_field in absurd (cc h)

-- Every field plan of an accepted list has a key that is not blank and of at most 160 code units, a
-- label of at most 300 and a masked preview of at most 200; there are at most 200 of them, one for
-- each item, and no item that they were read from has itself a property `value` or `rawValue`. The
-- value reference of each is the object that came, whole: of any size, with whatever else it holds.
pub parse_fields-IsBounded :
    (items : Items) (fields : List ApplicationFieldDraft)
    → parse_fields (some (arr items)) ≡ ok fields
    → All IsBounded fields
      × NoRaw items
      × (map (λ f. stored_ref f.value_ref) fields ≡ refs items)
      × (length fields ≡ items_length items)
      × (length fields ≤ 200)
unfolding parse_fields
parse_fields-IsBounded items fields h =
    let (bounded, clean, whole, sized) = items-IsBounded items fields (ground arith) in
    (bounded, clean, whole, sized, ground arith)
