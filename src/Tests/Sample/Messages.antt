-- ===== src/Tests/Sample/Messages.antt =====
-- A small JSON and its messages, for runs of the model.
use text.Mathlib.Text.{◌==◌ as str_eq}
use nexus_relay.Prelude.{
  suc, String, ◌&◌, decimal, Option, none, some, List, [], ◌∷◌, ◌≡◌, refl, ap, ℤ, pos, negsuc,
  if◌then◌else◌,
}
use nexus_relay.External.Json.{Json, RpcParams, map, nothing}

mutual
  pub data Value : Type 0 where
    null : Value
    str : String → Value
    object : Fields → Value

  pub data Fields : Type 0 where
    end : Fields
    field : String → Value → Fields → Fields

abbrev pub to_fields : List (String × Value) → Fields
to_fields [] = end
to_fields ((k, v) ∷ r) = field k v (to_fields r)

abbrev pub from_fields : Fields → List (String × Value)
from_fields end = []
from_fields (field k v r) = (k, v) ∷ from_fields r

pub from_fields-to_fields : (l : List (String × Value)) → from_fields (to_fields l) ≡ l
from_fields-to_fields [] = refl
from_fields-to_fields ((k, v) ∷ r) = ap (λ l. (k, v) ∷ l) (from_fields-to_fields r)

pub data RpcError : Type 0 where
  custom : ℤ → String → Option Value → RpcError
  method_not_found invalid_params parse_error : RpcError

pub data JsonRpc : Type 0 where
  request : ℤ → String → Value → JsonRpc
  bare_request : ℤ → String → JsonRpc
  success : ℤ → Value → JsonRpc
  error : ℤ → RpcError → JsonRpc

abbrev pub params_of : Value → RpcParams Value
params_of (object fields) = map (from_fields fields)
params_of _ = nothing

abbrev pub id_of : JsonRpc → Option ℤ
id_of (request z m v) = some z
id_of (bare_request z m) = some z
id_of (success z v) = some z
id_of (error z e) = some z

abbrev pub method_of : JsonRpc → Option String
method_of (request z m v) = some m
method_of (bare_request z m) = some m
method_of _ = none

abbrev pub message_params : JsonRpc → Option (RpcParams Value)
message_params (request z m v) = some (params_of v)
message_params _ = none

abbrev pub text_of : Value → Option String
text_of (str s) = some s
text_of _ = none

-- Texts without characters to escape.
abbrev quoted : String → String
quoted s = "\"" & s & "\""

abbrev comma : Fields → String
comma end = ""
comma (field k v r) = ","

abbrev mutual
  value_text : Value → String
  value_text null = "null"
  value_text (str s) = quoted s
  value_text (object fields) = "{" & fields_text fields & "}"

  fields_text : Fields → String
  fields_text end = ""
  fields_text (field k v r) = quoted k & ":" & value_text v & comma r & fields_text r

abbrev int_text : ℤ → String
int_text (pos n) = decimal n
int_text (negsuc n) = "-" & decimal (suc n)

abbrev error_parts : RpcError → ℤ × String × Option Value
error_parts (custom code message more) = (code, message, more)
error_parts method_not_found = (negsuc 32600, "Method not found", none)
error_parts invalid_params = (negsuc 32601, "Invalid params", none)
error_parts parse_error = (negsuc 32699, "Parse error", none)

abbrev data_text : Option Value → String
data_text none = ""
data_text (some v) = ",\"data\":" & value_text v

abbrev error_text : RpcError → String
error_text e =
    let (code, message, more) = error_parts e in
    "{\"code\":" & int_text code & ",\"message\":" & quoted message & data_text more & "}"

abbrev framed : String → ℤ → String
framed body id = "{\"jsonrpc\":\"2.0\"," & body & ",\"id\":" & int_text id & "}"

abbrev pub json_text : JsonRpc → String
json_text (request z m v) = framed ("\"method\":" & quoted m & ",\"params\":" & value_text v) z
json_text (bare_request z m) = framed ("\"method\":" & quoted m) z
json_text (success z v) = framed ("\"result\":" & value_text v) z
json_text (error z e) = framed ("\"error\":" & error_text e) z

-- "ping", "hello" and "follow" are the only texts that are JSON-RPC.
abbrev pub ping_request : JsonRpc
ping_request = request (pos 7) "publish" (object (field "ping" null end))

abbrev pub hello_request : JsonRpc
hello_request = request (pos 8) "publish" (
    object (field "any" (object (field "topic" (str "t") (field "content" (str "hello") end))) end))

abbrev pub follow_request : JsonRpc
follow_request = request (pos 9) "subscribe" (object (field "address" (str "addr1") end))

abbrev pub sample_json : Json
sample_json = record {
  Value = Value;
  string = str;
  null = null;
  object = λ fields. object (to_fields fields);
  index = λ v k. null;
  as_array = λ v. none;
  string_from_value = text_of;
  RpcId = ℤ;
  num = λ z. z;
  as_num = λ z. some z;
  id_to_value = λ z. null;
  RpcError = RpcError;
  rpc_error = custom;
  invalid_request_code = negsuc 32599;
  method_not_found = method_not_found;
  invalid_params = invalid_params;
  parse_error = parse_error;
  JsonRpc = JsonRpc;
  parse = λ s.
      if str_eq s "ping"
      then some ping_request
      else if str_eq s "hello"
      then some hello_request
      else if str_eq s "follow"
      then some follow_request
      else none;
  to_string = json_text;
  get_id = id_of;
  get_method = method_of;
  get_params = message_params;
  success = success;
  error = error;
  request_with_params = request;
}
