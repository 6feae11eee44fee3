-- ===== src/Serialization.antt =====
-- The dispatch over serialization formats of dbos/_serialization.py. The three codecs (portable
-- JSON, pickle, and the one that the application configures) are parameters: they call the json and
-- pickle libraries or application code, and may raise.
pub mod Roundtrip
use dbos_workload.Prelude.{
  String, Bool, true, false, not, ◌&&◌, Option, none, some, ◌==◌, compares_text, compares_option,
  is_some, if◌then◌else◌,
}
use dbos_workload.Transaction.{Result, ok, err, type_error}

pub record Codec (V : Type 0) : Type 0 where
  pub serialize : V → Result String
  pub deserialize : String → Result V

-- `null` is Python's None as a value; `own` is the configured serializer, called `own_name`.
pub record Serializers (V : Type 0) : Type 0 where
  pub null : V
  pub portable : Codec V
  pub default : Codec V
  pub own : Codec V
  pub own_name : String

pub data Format : Type 0 where
  portable native default : Format

abbrev pub portable_name : String
portable_name = "portable_json"

abbrev pub default_name : String
default_name = "py_pickle"

module _ {V : Type 0} (s : Serializers V) where
  pub serialization_for_type : Option Format → String
  serialization_for_type (some Format.portable) = portable_name
  serialization_for_type (some Format.native) = default_name
  serialization_for_type _ = s.own_name

  -- The pair that a successful `serialize` makes with the name of its format.
  abbrev pub tagged : String → Result String → Result (String × String)
  tagged name (ok text) = ok (text, name)
  tagged name (err e) = err e

  unfoldable pub serialize_value_as : V → Option String → Result (String × String)
  serialize_value_as v serialization =
      if serialization == some portable_name
      then tagged portable_name (s.portable.serialize v)
      else if serialization == some default_name
      then tagged default_name (s.default.serialize v)
      else if is_some serialization && not (serialization == some s.own_name)
      then err type_error
      else tagged s.own_name (s.own.serialize v)

  unfoldable pub serialize_value : V → Option Format → Result (String × String)
  unfolding serialize_value_as serialization_for_type
  serialize_value v format = serialize_value_as v (some (serialization_for_type format))

  unfoldable pub deserialize_value : Option String → Option String → Result V
  deserialize_value none serialization = ok s.null
  deserialize_value (some text) serialization =
      if serialization == some portable_name
      then s.portable.deserialize text
      else if serialization == some default_name
      then s.default.deserialize text
      else if is_some serialization && not (serialization == some s.own_name)
      then err type_error
      else s.own.deserialize text
