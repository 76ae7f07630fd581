-- ===== src/Session/Request/Examples.antt =====
-- The checks on an incoming event at concrete inputs.
use intern_notifs.Base.{
  ◌≤◌, ◌≡◌, refl, String, true, false, none, some, List, [], ◌∷◌, ok, err, All, map, length, units,
  is_blank,
}
use intern_notifs.Base.Json.{
  Value, bool, str, arr, obj, Items, nil, cons, Props, end, prop, get, items_length,
}
use intern_notifs.Session.Digest.{ApplicationFieldDraft, standard, exact, profile}
use intern_notifs.Session.Machine.{cancel}
use intern_notifs.Session.Request.{
  user_required, raw_value, member, short, parse_value_ref, parse_preview, parse_field, parse_items,
  parse_fields, parse_failure, parse_typed, parse_session_event,
}
use intern_notifs.Session.Request.Laws.{IsBounded, NoRaw, stored_ref, refs, parse_fields-IsBounded}

unfoldable pub request_opened : Unit {0}
unfolding member short parse_value_ref parse_preview parse_field parse_items parse_fields
    parse_failure parse_typed parse_session_event get units is_blank
request_opened = tt

-- An object with a type alone.
abbrev pub typed : String → Value
typed type = obj (prop "type" (str type) end)

cancel_parses : parse_session_event (some (typed "cancel")) false ≡ ok cancel
unfolding request_opened
cancel_parses = refl

approval_refused : parse_session_event (some (typed "review-approved")) false ≡ err user_required
unfolding request_opened
approval_refused = refl

abbrev item : Props → Value
item more = obj (
    prop "key" (str "email") (
      prop "label" (str "Email") (
        prop "required" (bool true) (
          prop "resolved" (bool false)
            (prop "classification" (str "standard") (prop "confidence" (str "exact") more))))))

-- A reference with something else beside its source and its key.
abbrev reference : Props
reference =
    prop "source" (str "profile") (prop "key" (str "email") (prop "value" (str "jo@acme.test") end))

abbrev items : Items
items = cons (item (prop "valueRef" (obj reference) end)) nil

abbrev parsed : List ApplicationFieldDraft
parsed =
    record {
      key = "email";
      label = "Email";
      required = true;
      resolved = false;
      classification = standard;
      confidence = exact;
      value_ref = some (record { source = profile; key = "email"; stored = reference });
      masked_preview = none;
    }
    ∷ []

items_parse : parse_fields (some (arr items)) ≡ ok parsed
unfolding request_opened
items_parse = refl

raw_refused :
    parse_fields (some (arr (cons (item (prop "value" (str "x") end)) nil))) ≡ err raw_value
unfolding request_opened
raw_refused = refl

parse_fields-IsBounded_example :
    All IsBounded parsed
    × NoRaw items
    × (map (λ f. stored_ref f.value_ref) parsed ≡ refs items)
    × (length parsed ≡ items_length items)
    × (length parsed ≤ 200)
parse_fields-IsBounded_example = parse_fields-IsBounded items parsed items_parse
