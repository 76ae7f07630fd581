-- ===== src/Session/Request.antt =====
-- src/api.ts: `parseFields` and `parseSessionEvent`, the checks on an event that comes in as JSON.
pub mod Laws
pub mod Examples
use intern_notifs.Base.{
  ℕ, zero, suc, ◌+◌, String, Bool, true, false, not, ◌&&◌, Option, none, some, List, [], ◌∷◌, leb,
  Result, ok, err, ◌>>=◌, checked, ok_or, units, length, is_blank, str_eq, if◌then◌else◌, is_some,
}
use intern_notifs.Base.Json.{
  Value, null, other_num, bool, num, str, arr, obj, Items, nil, cons, Props, get, has, as_str,
  as_bool, items_length,
}
use intern_notifs.Session.Digest.{
  Classification, standard, sensitive, voluntary_self_identification, Confidence, exact, inferred,
  unknown, ValueSource, profile, reusable_answer, document, ValueRef, ApplicationFieldDraft,
}
use intern_notifs.Session.Machine.{
  VerificationReason, captcha, mfa, email, identity, portal_login, other, user, SessionEvent, start,
  cancel, fill_completed, answers_updated, review_approved, verification_completed,
  submission_confirmed, verification_required, fail,
}

pub data RequestError : Type 0 where
  too_many_fields field_not_object field_invalid raw_value value_ref_invalid preview_invalid :
      RequestError
  event_required reason_invalid message_required user_required event_unsupported : RequestError
  event_id_required expected_version_invalid : RequestError

-- `[…].includes(value)`, with the member that was found.
member : {A : Type 0} → List (String × A) → Option String → Option A
member _ none = none
member [] (some s) = none
member ((name, a) ∷ rest) (some s) = if str_eq name s then some a else member rest (some s)

abbrev classifications : List (String × Classification)
classifications =
    ("standard", standard)
    ∷ ("sensitive", sensitive)
    ∷ ("voluntary-self-identification", voluntary_self_identification)
    ∷ []

abbrev confidences : List (String × Confidence)
confidences = ("exact", exact) ∷ ("inferred", inferred) ∷ ("unknown", unknown) ∷ []

abbrev sources : List (String × ValueSource)
sources =
    ("profile", profile)
    ∷ ("reusable-answer", reusable_answer)
    ∷ ("document", document)
    ∷ ("user", ValueSource.user)
    ∷ []

abbrev reasons : List (String × VerificationReason)
reasons =
    ("captcha", captcha)
    ∷ ("mfa", mfa)
    ∷ ("email", email)
    ∷ ("identity", identity)
    ∷ ("portal-login", portal_login)
    ∷ ("other", other)
    ∷ []

-- `typeof s === 'string' && s.length <= n`
short : ℕ → String → Bool
short n s = leb (length (units s)) n

parse_value_ref : Option Value → Result RequestError (Option ValueRef)
unfolding member
parse_value_ref none = ok none
parse_value_ref (some (obj o)) = do
  source ← ok_or (member sources (as_str (get "source" o))) value_ref_invalid
  key ← ok_or (as_str (get "key" o)) value_ref_invalid
  ok (some (record { source = source; key = key; stored = o }))
parse_value_ref (some _) = err value_ref_invalid

parse_preview : Option Value → Result RequestError (Option String)
unfolding short
parse_preview none = ok none
parse_preview (some (str s)) = if short 200 s then ok (some s) else err preview_invalid
parse_preview (some _) = err preview_invalid

parse_field : Value → Result RequestError ApplicationFieldDraft
parse_field (obj o) = do
  key ← ok_or (as_str (get "key" o)) field_invalid
  fits ← checked (not (is_blank (units key)) && short 160 key) field_invalid
  label ← ok_or (as_str (get "label" o)) field_invalid
  fits ← checked (short 300 label) field_invalid
  required ← ok_or (as_bool (get "required" o)) field_invalid
  resolved ← ok_or (as_bool (get "resolved" o)) field_invalid
  classification ← ok_or (member classifications (as_str (get "classification" o))) field_invalid
  confidence ← ok_or (member confidences (as_str (get "confidence" o))) field_invalid
  fits ← checked (not (has "value" o) && not (has "rawValue" o)) raw_value
  value_ref ← parse_value_ref (get "valueRef" o)
  preview ← parse_preview (get "maskedPreview" o)
  ok (record {
    key = key;
    label = label;
    required = required;
    resolved = resolved;
    classification = classification;
    confidence = confidence;
    value_ref = value_ref;
    masked_preview = preview;
  })
parse_field _ = err field_not_object

-- `value.map(…)`
pub parse_items : Items → Result RequestError (List ApplicationFieldDraft)
parse_items nil = ok []
parse_items (cons v vs) = do field ← parse_field v; fields ← parse_items vs; ok (field ∷ fields)

pub parse_fields : Option Value → Result RequestError (List ApplicationFieldDraft)
parse_fields (some (arr items)) =
    if leb (items_length items) 200 then parse_items items else err too_many_fields
parse_fields _ = err too_many_fields

parse_failure : Option Value → Result RequestError SessionEvent
parse_failure (some (str message)) =
    if is_blank (units message) then err message_required else ok (fail (units message))
parse_failure _ = err message_required

-- The `switch` on `event.type`.
parse_typed : String → Props → Bool → Result RequestError SessionEvent
unfolding parse_failure
parse_typed type o user_controlled =
    if str_eq type "start"
    then ok start
    else if str_eq type "cancel"
    then ok cancel
    else if str_eq type "fill-completed"
    then (do fields ← parse_fields (get "fields" o); ok (fill_completed fields))
    else if str_eq type "answers-updated"
    then (do fields ← parse_fields (get "fields" o); ok (answers_updated fields))
    else if str_eq type "verification-required"
    then (do
      reason ← ok_or (member reasons (as_str (get "reason" o))) reason_invalid
      ok (verification_required reason))
    else if str_eq type "fail"
    then parse_failure (get "message" o)
    else if str_eq type "review-approved"
    then (do controlled ← checked user_controlled user_required; ok (review_approved user))
    else if str_eq type "verification-completed"
    then (do controlled ← checked user_controlled user_required; ok (verification_completed user))
    else if str_eq type "submission-confirmed"
    then (do controlled ← checked user_controlled user_required; ok (submission_confirmed user))
    else err event_unsupported

pub parse_session_event : Option Value → Bool → Result RequestError SessionEvent
unfolding parse_typed
parse_session_event (some (obj o)) user_controlled = elim (as_str (get "type" o)) [
  | none ↦ err event_unsupported
  | some type ↦ parse_typed type o user_controlled
]
parse_session_event _ user_controlled = err event_required
