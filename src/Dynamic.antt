-- ===== src/Dynamic.antt =====
-- What the services ask of dynamic values: a key of a dictionary, and `str` of a value.
use kerislab.Models.Payload.{Value, Items, Payload}
use kerislab.Prelude.{
  Bool, String, Option, false, none, true, if◌then◌else◌, not, ◌==◌, some, zero, List, ◌∷◌, [],
}
use kerislab.Exec.{Exec, pure, asks}
use kerislab.Prelude.Int.{pos}

-- `payload.get(name)`
unfoldable pub payload_get : String → Payload → Option Value
payload_get name Payload.end = none
payload_get name (Payload.field key value rest) =
    if key == name then some value else payload_get name rest

-- `bool(value)`
unfoldable pub is_truthy : Value → Bool
is_truthy Value.null = false
is_truthy (Value.bool b) = b
is_truthy (Value.num (pos zero)) = false
is_truthy (Value.num _) = true
is_truthy (Value.str text) = not (text == "")
is_truthy (Value.arr Items.nil) = false
is_truthy (Value.arr _) = true
is_truthy (Value.obj Payload.end) = false
is_truthy (Value.obj _) = true

-- `str(value)`; the text of what is no text is the environment's
unfoldable pub text_of : Value → Exec String
text_of (Value.str text) = pure text
text_of value = asks (λ env. env.show_value value)

-- `bool(text)` of a text that may be None
abbrev pub is_given : Option String → Bool
is_given none = false
is_given (some text) = not (text == "")

-- `d[name] = value`
unfoldable pub payload_set : String → Value → Payload → Payload
payload_set name value Payload.end = Payload.field name value Payload.end
payload_set name value (Payload.field key old rest) =
    if key == name
    then Payload.field key value rest
    else Payload.field key old (payload_set name value rest)

-- `d.pop(name, ...)`, without the value
unfoldable pub payload_remove : String → Payload → Payload
payload_remove name Payload.end = Payload.end
payload_remove name (Payload.field key value rest) =
    if key == name then rest else Payload.field key value (payload_remove name rest)

-- `{**d, **e}`
unfoldable pub payload_update : Payload → Payload → Payload
payload_update d Payload.end = d
payload_update d (Payload.field key value rest) = payload_update (payload_set key value d) rest

-- `d.get(name, default)`
abbrev pub value_or : Option Value → Value → Value
value_or none default = default
value_or (some value) default = value

abbrev pub payload_get_or : String → Value → Payload → Value
payload_get_or name default payload = value_or (payload_get name payload) default

-- a list of texts as a list of values
unfoldable pub text_items : List String → Items
text_items [] = Items.nil
text_items (text ∷ texts) = Items.cons (Value.str text) (text_items texts)
