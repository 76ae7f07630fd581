-- ===== src/Dlq/Message.antt =====
-- cloudflare/dlq-operations.ts: what a message of a dead-letter queue says. `parse_json` and
-- `stringify` are those of `JSON`, `sha` is SHA-256, `text_of` is `String`, and `trim` is that of texts.
use intern_notifs.Base.{
  String, Bool, true, false, ◌&&◌, ◌||◌, not, Option, none, some, [], ◌∷◌, get_or, is_some, str_eq,
  if◌then◌else◌, Result, err, ok, ◌>>=◌, checked, ◌==◌,
}
use intern_notifs.Base.Sets.{template}
use intern_notifs.Base.Json.{Value, str, obj, Props, get, as_str, as_bool, as_num, end}
use intern_notifs.Dlq.Plan.{
  DlqName, gmail, destination_verification, PeekedMessage, DlqError, body_invalid,
  catalog_without_source, gmail_invalid, verification_invalid,
}

pub record Texts : Type 0 where
  pub parse_json : String → Option Value
  pub stringify : Value → String
  pub sha : String → String
  pub text_of : Option Value → String
  pub trim : String → String

pub record ParsedMessage : Type 0 where
  pub parsed_body : Props
  pub serialized : String
  pub parsed_hash : String
  pub parsed_key : String
  pub parsed_source : Option String
  pub parsed_job : Option String

abbrev object_of : Value → Result DlqError Props
object_of (obj o) = ok o
object_of _ = err body_invalid

abbrev given : Option String → Bool
given o = not (str_eq (get_or o "") "")

abbrev filled : Option String → Option String
filled o = if given o then o else none

abbrev text_or_absent : String → Props → Bool
text_or_absent key o = elim (get key o) [ none ↦ true | some v ↦ is_some (as_str (some v)) ]

abbrev flag_or_absent : String → Props → Bool
flag_or_absent key o = elim (get key o) [ none ↦ true | some v ↦ is_some (as_bool (some v)) ]

abbrev version_one : Props → Bool
version_one o = elim (as_num (get "version" o)) [ none ↦ false | some n ↦ n == 1 ]

-- `value && typeof value === 'object'`, where a list is an object too.
abbrev is_object : Option Value → Bool
is_object (some (obj o)) = true
is_object (some (Value.arr items)) = true
is_object _ = false

module _ (texts : Texts) where
  unfoldable pub parse_body : Value → Result DlqError Props
  parse_body (str s) = elim (texts.parse_json s) [ none ↦ err body_invalid | some v ↦ object_of v ]
  parse_body v = object_of v

  abbrev gmail_valid : Props → Bool
  gmail_valid o =
      given (as_str (get "userId" o))
      && version_one o
      && (str_eq (texts.text_of (get "mode" o)) "initial"
          || str_eq (texts.text_of (get "mode" o)) "history")
      && is_some (as_str (get "requestedAt" o))
      && text_or_absent "pageToken" o
      && text_or_absent "startHistoryId" o
      && flag_or_absent "advanceChecks" o

  abbrev verification_valid : Props → Bool
  verification_valid o =
      given (as_str (get "jobId" o))
      && given (as_str (get "sourceId" o))
      && version_one o
      && is_some (as_str (get "externalId" o))
      && is_some (as_str (get "candidateUrl" o))
      && is_object (get "providerIdentity" o)
      && is_some (as_str (get "reason" o))
      && is_some (as_str (get "queuedAt" o))

  -- The checks of each kind of queue.
  abbrev checked_for : DlqName → Props → Result DlqError Bool
  checked_for gmail o = checked (gmail_valid o) gmail_invalid
  checked_for destination_verification o = checked (verification_valid o) verification_invalid
  checked_for _ o = checked (given (as_str (get "sourceId" o))) catalog_without_source

  unfoldable pub parse_message : DlqName → Value → Result DlqError ParsedMessage
  parse_message name value = do
    o ← parse_body value
    valid ← checked_for name o
    ok (record {
      parsed_body = o;
      serialized = texts.stringify (obj o);
      parsed_hash = texts.sha (texts.stringify (obj o));
      parsed_key =
          get_or (as_str (get "sourceId" o))
            (get_or (as_str (get "userId" o)) (get_or (as_str (get "jobId" o)) "undefined"));
      parsed_source = filled (as_str (get "sourceId" o));
      parsed_job = filled (as_str (get "jobId" o));
    })

  -- A message that cannot be read can still be discarded.
  unfoldable pub discardable_message : DlqName → PeekedMessage → ParsedMessage
  discardable_message name m = elim (parse_message name m.body) [
    | ok parsed ↦ parsed
    | err _ ↦ record {
      parsed_body = end;
      serialized = texts.stringify m.body;
      parsed_hash = texts.sha (texts.stringify m.body);
      parsed_key = template ("unattributed:" ∷ m.id ∷ []);
      parsed_source = none;
      parsed_job = none;
    }
  ]
