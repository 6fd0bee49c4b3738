-- ===== src/Protocols/Laws.antt =====
-- Normal forms, validity and the YAML form of a protocol configuration.
use peerkit.Prelude.{
  ◌≡◌, refl, ◌⊎◌, inl, inr, ◌↔◌, true, false, Option, none, some, [], ◌∷◌, Text, text_eq,
  text_eq_iff, to_lower-trim_space_idem, to_lower, trim_space, trim_left, is_space, lower_byte,
  arith, Bool-cases, if◌then◌else◌, ◌∙◌, sym,
}
use peerkit.Int.{pos, ltb_ℤ}
use peerkit.Float.{FloatOps}
use peerkit.Protocols.{
  base_flooding, duplicate_aware_flooding, idontwant_flooding, hop_wave_name, HopWaveConfig, Config,
  normalize, validate, normalize_config, validate_config, validate_hop_wave, protocol_name,
  is_hop_wave, YamlNode, scalar, mapping, YamlValue, string, wrapper, str_tag, unmarshal_yaml,
  marshal_yaml, ok,
}

normalize_base : normalize base_flooding ≡ base_flooding
unfolding normalize to_lower trim_space text_eq trim_left is_space lower_byte
normalize_base = refl

normalize_blank :
    (value : Text)
    → text_eq (to_lower (trim_space value)) [] ≡ true
    → normalize value ≡ base_flooding
unfolding normalize
normalize_blank value e = rw e

normalize_other :
    (value : Text)
    → text_eq (to_lower (trim_space value)) [] ≡ false
    → normalize value ≡ to_lower (trim_space value)
unfolding normalize
normalize_other value e = rw e

-- Normalizing a name twice is normalizing it once.
pub normalize_idem : (value : Text) → normalize (normalize value) ≡ normalize value
normalize_idem value = elim (Bool-cases (text_eq (to_lower (trim_space value)) [])) [
  | inl e ↦ rw (normalize_blank value e) normalize_base
  | inr e ↦
      let same = to_lower-trim_space_idem value in
      rw (normalize_other value e)
        (normalize_other (to_lower (trim_space value)) (rw same e) ∙ same)
]

-- The four names that are accepted, after normalization.
pub validate_names :
    (value : Text)
    → (validate value ≡ none) ↔ (
        (normalize value ≡ base_flooding)
        ⊎ ((normalize value ≡ duplicate_aware_flooding)
            ⊎ ((normalize value ≡ idontwant_flooding) ⊎ (normalize value ≡ hop_wave_name))))
unfolding validate
validate_names value = ground (
  arith,
  text_eq_iff (normalize value) base_flooding,
  text_eq_iff (normalize value) duplicate_aware_flooding,
  text_eq_iff (normalize value) idontwant_flooding,
  text_eq_iff (normalize value) hop_wave_name,
)

module _ {F : Type 0} where
  -- Normalizing a configuration twice is normalizing it once, keeps its protocol name, and keeps its
  -- HopWave parameters if the protocol is HopWave and drops them if not.
  pub normalize_config_idem :
      (c : Config F)
      → (normalize_config (normalize_config c) ≡ normalize_config c)
        × (protocol_name (normalize_config c) ≡ protocol_name c)
        × ((normalize_config c).hop_wave ≡ (if is_hop_wave c then c.hop_wave else none))
  unfolding normalize_config is_hop_wave protocol_name
  normalize_config_idem c =
      (ground (arith, normalize_idem c.name), normalize_idem c.name, ground arith)

  -- The configurations that may run.
  pub data IsRunnable ⦃fl : FloatOps F⦄ (c : Config F) : Type 0 where
    base : normalize c.name ≡ base_flooding → IsRunnable c
    duplicate_aware : normalize c.name ≡ duplicate_aware_flooding → IsRunnable c
    idontwant : normalize c.name ≡ idontwant_flooding → IsRunnable c
    hop_wave :
        (h : HopWaveConfig F)
        → normalize c.name ≡ hop_wave_name
        → c.hop_wave ≡ some h
        → ltb_ℤ h.i (pos 1) ≡ false
        → fl.le h.f (fl.of_int 0) ≡ false
        → fl.lt (fl.of_int 1) h.f ≡ false
        → IsRunnable c

  module _ ⦃fl : FloatOps F⦄ where
    hop_wave_valid :
        (o : Option (HopWaveConfig F))
        → validate_hop_wave o ≡ none
        → (h : HopWaveConfig F) × (o ≡ some h)
          × (ltb_ℤ h.i (pos 1) ≡ false)
          × (fl.le h.f (fl.of_int 0) ≡ false)
          × (fl.lt (fl.of_int 1) h.f ≡ false)
    unfolding validate_hop_wave
    hop_wave_valid none e = cc
    hop_wave_valid (some h) e = (h, refl, ground arith, ground arith, ground arith)

    validate_plain :
        (c : Config F)
        → text_eq (normalize c.name) hop_wave_name ≡ false
        → validate_config c ≡ validate (normalize c.name)
    unfolding validate_config
    validate_plain c e = ground arith

    validate_as_hop_wave :
        (c : Config F)
        → normalize c.name ≡ hop_wave_name
        → validate_config c ≡ validate_hop_wave c.hop_wave
    unfolding validate_config
    validate_as_hop_wave c e =
        let valid =
          (validate_names (normalize c.name)).1 (inr (inr (inr (normalize_idem c.name ∙ e)))) in
        ground (arith, valid, text_eq_iff (normalize c.name) hop_wave_name)

-- What the YAML encoder and decoder do with the two forms of value that MarshalYAML gives: a protocol
-- name comes back as a string scalar, and the struct as a mapping with its one key, decoded.
pub record Yaml (F : Type 0) : Type 0 where
  pub node_of : YamlValue F → YamlNode F
  pub node_of-string : (t : Text) → validate t ≡ none → node_of (string t) ≡ scalar str_tag t
  pub node_of-wrapper :
      (h : HopWaveConfig F)
      → (value : Text) × (node_of (wrapper (some h))
          ≡ mapping (hop_wave_name ∷ value ∷ []) (some (some h)))

module _ {F : Type 0} ⦃fl : FloatOps F⦄ (y : Yaml F) where
  round_trip_plain :
      (c : Config F)
      → validate_config c ≡ none
      → text_eq (normalize c.name) hop_wave_name ≡ false
      → unmarshal_yaml (some (y.node_of (marshal_yaml c))) ≡ ok (normalize_config c)
  unfolding marshal_yaml unmarshal_yaml text_eq
  round_trip_plain c v plain =
      let name = y.node_of-string (normalize c.name) (sym (validate_plain c plain) ∙ v) in
      rw (plain, marshal_yaml, name) (ground (arith, normalize_idem c.name))

  round_trip_hop_wave :
      (c : Config F)
      → validate_config c ≡ none
      → text_eq (normalize c.name) hop_wave_name ≡ true
      → unmarshal_yaml (some (y.node_of (marshal_yaml c))) ≡ ok (normalize_config c)
  unfolding marshal_yaml unmarshal_yaml text_eq
  round_trip_hop_wave c v hop =
      let name = (text_eq_iff (normalize c.name) hop_wave_name).0 hop in
      let (h, o, _, _, _) = hop_wave_valid c.hop_wave (sym (validate_as_hop_wave c name) ∙ v) in
      let (value, node) = y.node_of-wrapper h in rw (hop, marshal_yaml, o, node) (ground arith)

  -- A configuration that is accepted, written as YAML and read again is its normal form.
  pub unmarshal_yaml-marshal_yaml :
      (c : Config F)
      → validate_config c ≡ none
      → unmarshal_yaml (some (y.node_of (marshal_yaml c))) ≡ ok (normalize_config c)
  unmarshal_yaml-marshal_yaml c v = elim (Bool-cases (text_eq (normalize c.name) hop_wave_name)) [
    | inl hop ↦ round_trip_hop_wave c v hop
    | inr plain ↦ round_trip_plain c v plain
  ]
