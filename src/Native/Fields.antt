-- ===== src/Native/Fields.antt =====
-- `build_stream_fields` of poc/native-kill-restart/store.py: the fields of the entry of an outbox row.
-- `json.loads` and `str(v)` are parameters; a payload that is JSON but no object raises.
use event_driven_trading_led.Base.{String, ◌≡◌, Option, none, some}
use event_driven_trading_led.Base.Exec.{Result, ok, bind_result}
use event_driven_trading_led.Risk.Json.{
  Value, Fields, null, bool, num, str, arr, obj, get, get_field,
}
use event_driven_trading_led.Risk.Wire.{StreamFields}

module _ {F : Type 0} (show : Value F → String) where
  -- the version of a document; None and a missing key leave the default
  version_of : Value F → String
  version_of null = "1"
  version_of (bool b) = show (bool b)
  version_of (num x) = show (num x)
  version_of (str s) = show (str s)
  version_of (arr xs) = show (arr xs)
  version_of (obj fs) = show (obj fs)

  schema_version_of : Option (Value F) → Result String
  schema_version_of none = ok "1"
  schema_version_of (some node) = bind_result (get "schema_version" node) λ v. ok (version_of v)

  build_stream_fields : (String → Option (Value F)) → String → String → Result StreamFields
  build_stream_fields loads event_type payload =
      bind_result (schema_version_of (loads payload)) λ version.
        ok (record { event_type = event_type; schema_version = version; event = payload })

  -- The fields of a row whose payload is a JSON object: the payload as it is, with its version.
  build_stream_fields-obj :
      (loads : String → Option (Value F)) (event_type payload : String) (fs : Fields F)
      → loads payload ≡ some (obj fs)
      → build_stream_fields loads event_type payload
        ≡ ok (record {
          event_type = event_type;
          schema_version = version_of (get_field "schema_version" fs);
          event = payload;
        })
  unfolding build_stream_fields schema_version_of
  build_stream_fields-obj loads event_type payload fs read = rw read
