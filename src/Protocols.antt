-- ===== src/Protocols.antt =====
-- internal/protocols/protocols.go: the names of the protocols and their configuration. package yaml is
-- met as the decoded nodes that it hands over.
pub mod Laws
use peerkit.Prelude.{
  ℕ, Bool, true, false, ◌&&◌, ◌||◌, not, Option, none, some, List, [], ◌∷◌, Text, codes, text_eq,
  to_lower, trim_space, length, ◌==◌, if◌then◌else◌,
}
use peerkit.Int.{ℤ, pos, ltb_ℤ}
use peerkit.Float.{FloatOps}

abbrev pub base_flooding : Text
base_flooding = codes "base_flooding"

abbrev pub duplicate_aware_flooding : Text
duplicate_aware_flooding = codes "duplicate_aware_flooding"

abbrev pub idontwant_flooding : Text
idontwant_flooding = codes "idontwant_flooding"

abbrev pub hop_wave_name : Text
hop_wave_name = codes "hopwave"

pub record HopWaveConfig (F : Type 0) : Type 0 where
  pub i : ℤ
  pub f : F

pub record Config (F : Type 0) : Type 0 where
  pub name : Text
  pub hop_wave : Option (HopWaveConfig F)

pub data Error : Type 0 where
  unsupported_protocol hop_wave_missing hop_wave_i hop_wave_f : Error
  protocol_kind decode_protocol mapping_without_hop_wave only_hop_wave : Error

unfoldable pub normalize : Text → Text
normalize value =
    let lowered = to_lower (trim_space value) in
    if text_eq lowered [] then base_flooding else lowered

-- `none` is a nil error.
unfoldable pub validate : Text → Option Error
validate value =
    let name = normalize value in
    if text_eq name base_flooding
      || (text_eq name duplicate_aware_flooding
          || (text_eq name idontwant_flooding || text_eq name hop_wave_name))
    then none
    else some unsupported_protocol

unfoldable pub uses_duplicate_neighbor_suppression : Text → Bool
uses_duplicate_neighbor_suppression value = text_eq (normalize value) duplicate_aware_flooding

unfoldable pub uses_idontwant : Text → Bool
uses_idontwant value = text_eq (normalize value) idontwant_flooding

module _ {F : Type 0} where
  unfoldable pub protocol_name : Config F → Text
  protocol_name c = normalize c.name

  unfoldable pub is_hop_wave : Config F → Bool
  unfolding protocol_name
  is_hop_wave c = text_eq (protocol_name c) hop_wave_name

  unfoldable pub normalize_config : Config F → Config F
  normalize_config c =
      let name = normalize c.name in
      record { name = name; hop_wave = if text_eq name hop_wave_name then c.hop_wave else none }

  unfoldable pub new : Text → Config F
  unfolding normalize_config
  new value = normalize_config (record { name = value; hop_wave = none })

  module _ ⦃fl : FloatOps F⦄ where
    unfoldable pub validate_hop_wave : Option (HopWaveConfig F) → Option Error
    validate_hop_wave none = some hop_wave_missing
    validate_hop_wave (some h) =
        if ltb_ℤ h.i (pos 1)
        then some hop_wave_i
        else (if fl.le h.f (fl.of_int 0) || fl.lt (fl.of_int 1) h.f then some hop_wave_f else none)

    validate_normal : Config F → Option Error → Option Error
    unfolding validate_hop_wave
    validate_normal c (some e) = some e
    validate_normal c none =
        if not (text_eq c.name hop_wave_name) then none else validate_hop_wave c.hop_wave

    unfoldable pub validate_config : Config F → Option Error
    unfolding validate_normal normalize_config
    validate_config c =
        let normal = normalize_config c in validate_normal normal (validate normal.name)

-- A yaml.Node: a scalar with its tag and value; a mapping with the values of its content (keys and
-- values in turn) and what `node.Decode(&wrapper)` gives, `none` for an error; or another kind.
pub data YamlNode (F : Type 0) : Type 0 where
  scalar : Text → Text → YamlNode F
  mapping : List Text → Option (Option (HopWaveConfig F)) → YamlNode F
  other : YamlNode F

pub data Decoded (F : Type 0) : Type 0 where
  ok : Config F → Decoded F
  err : Error → Decoded F

abbrev pub str_tag : Text
str_tag = codes "!!str"

first_is : List Text → Text → Bool
first_is [] t = false
first_is (k ∷ ks) t = text_eq k t

module _ {F : Type 0} where
  decode_wrapper : List Text → Option (Option (HopWaveConfig F)) → Decoded F
  unfolding first_is
  decode_wrapper content none = err decode_protocol
  decode_wrapper content (some none) = err mapping_without_hop_wave
  decode_wrapper content (some (some h)) =
      if not (length content == 2) || not (first_is content hop_wave_name)
      then err only_hop_wave
      else ok (record { name = hop_wave_name; hop_wave = some h })

  -- `none` is a nil node.
  unfoldable pub unmarshal_yaml : Option (YamlNode F) → Decoded F
  unfolding decode_wrapper new
  unmarshal_yaml none = ok (new [])
  unmarshal_yaml (some (scalar tag value)) =
      if not (text_eq tag str_tag) && not (text_eq tag [])
      then err protocol_kind
      else ok (new value)
  unmarshal_yaml (some (mapping content decoded)) = decode_wrapper content decoded
  unmarshal_yaml (some other) = err protocol_kind

-- What MarshalYAML hands to the encoder: a string, or the struct with the one field hopwave.
pub data YamlValue (F : Type 0) : Type 0 where
  string : Text → YamlValue F
  wrapper : Option (HopWaveConfig F) → YamlValue F

module _ {F : Type 0} where
  unfoldable pub marshal_yaml : Config F → YamlValue F
  unfolding normalize_config
  marshal_yaml c =
      let normal = normalize_config c in
      if not (text_eq normal.name hop_wave_name)
      then string normal.name
      else wrapper normal.hop_wave
