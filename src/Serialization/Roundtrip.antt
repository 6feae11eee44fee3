-- ===== src/Serialization/Roundtrip.antt =====
-- A value read back in the format that it was written in.
use dbos_workload.Prelude.{
  String, ◌≡◌, Option, none, some, compares_text, compares_option, arith, eq_iff, eq_refl,
}
use dbos_workload.Transaction.{ok}
use dbos_workload.Serialization.{
  Codec, Serializers, Format, portable_name, default_name, serialize_value_as, serialize_value,
  deserialize_value, serialization_for_type,
}

-- The codec reads back what it writes of `v`.
abbrev pub ReadsBack : {V : Type 0} → Codec V → V → Type 0
ReadsBack c v = (text : String) → c.serialize v ≡ ok text → c.deserialize text ≡ ok v

-- Each of the three codecs reads back what it writes of `v`.
pub record AllReadBack {V : Type 0} (s : Serializers V) (v : V) : Type 0 where
  pub portable : ReadsBack s.portable v
  pub default : ReadsBack s.default v
  pub own : ReadsBack s.own v

-- A configured serializer that bears the name of a built-in one writes as that one does.
pub record NamesAgree {V : Type 0} (s : Serializers V) (v : V) : Type 0 where
  pub portable : s.own_name ≡ portable_name → s.own.serialize v ≡ s.portable.serialize v
  pub default : s.own_name ≡ default_name → s.own.serialize v ≡ s.default.serialize v

module _ {V : Type 0} (s : Serializers V) (v : V) (back : AllReadBack s v) where
  -- What is written is read back under the format that was asked for.
  pub deserialize_value_as_asked :
      (serialization : Option String) (written : String × String)
      → serialize_value_as s v serialization ≡ ok written
      → deserialize_value s (some written.0) serialization ≡ ok v
  unfolding serialize_value_as deserialize_value
  deserialize_value_as_asked serialization (text, name) h =
      ground (arith, back.portable text, back.default text, back.own text)

module _ {V : Type 0} (s : Serializers V) (v : V) (back : AllReadBack s v)
    (agree : NamesAgree s v) where
  -- What `serialize_value_as` writes, in any requested format that it accepts, is read back by
  -- `deserialize_value` under the name that was written beside it, if each codec reads back what
  -- it writes of the value, and a configured serializer named like a built-in one writes like it.
  pub deserialize_value-serialize_value_as :
      (serialization : Option String) (text name : String)
      → serialize_value_as s v serialization ≡ ok (text, name)
      → deserialize_value s (some text) (some name) ≡ ok v
  unfolding serialize_value_as deserialize_value
  deserialize_value-serialize_value_as serialization text name h = ground (
    arith,
    agree.portable,
    agree.default,
    back.portable text,
    back.default text,
    back.own text,
    eq_refl name,
    eq_iff name portable_name,
    eq_iff name default_name,
    eq_iff name s.own_name,
  )

  pub deserialize_value-serialize_value :
      (format : Option Format) (text name : String)
      → serialize_value s v format ≡ ok (text, name)
      → deserialize_value s (some text) (some name) ≡ ok v
  unfolding serialize_value
  deserialize_value-serialize_value format text name h =
      deserialize_value-serialize_value_as (some (serialization_for_type s format)) text name h

  -- Where no format is asked for, none has to be named to read it.
  pub deserialize_value-own :
      (text name : String)
      → serialize_value s v none ≡ ok (text, name)
      → deserialize_value s (some text) none ≡ ok v
  unfolding serialize_value serialize_value_as deserialize_value serialization_for_type
  deserialize_value-own text name h = ground (
    arith,
    agree.portable,
    agree.default,
    back.portable text,
    back.default text,
    back.own text,
    eq_refl s.own_name,
    eq_iff s.own_name portable_name,
    eq_iff s.own_name default_name,
  )
