-- ===== src/FlowHelpers/Addresses.antt =====
-- HexString and ValidateAddress (flow_helpers/flow_helpers.go).
use flow_wallet_api.Prelude.{
  ◌≡◌, refl, sym, ap, ◌∙◌, ◌⊎◌, inl, inr, true, ◌++◌, Text, has_prefix, has_prefix-append, arith,
  Bool-cases,
}
use flow_wallet_api.Errors.{ok, ok_inj}
use flow_wallet_api.FlowHelpers.{Sdk, hex_prefix, hex_string, format_address, validate_address}

-- Every text that HexString returns starts with 0x, is the text that it was given or this text
-- behind 0x, and is left alone by a second HexString.
hex_string_lem :
    (s : Text)
    → (has_prefix (hex_string s) hex_prefix ≡ true)
      × ((hex_string s ≡ s) ⊎ (hex_string s ≡ hex_prefix ++ s))
      × (hex_string (hex_string s) ≡ hex_string s)
unfolding hex_string
hex_string_lem s = elim (Bool-cases (has_prefix s hex_prefix)) [
  | inl e ↦ rw e (e, inl refl, rw e refl)
  | inr e ↦ let there = has_prefix-append hex_prefix s in rw e (there, inr refl, rw there refl)
]

module _ {Address : Type 0} (sdk : Sdk Address) where
  format_address_lem : (a : Address) → format_address sdk a ≡ hex_prefix ++ sdk.address_hex a
  unfolding hex_string
  format_address_lem a = rw (sdk.hex_has_no_prefix a) refl

  -- What ValidateAddress has found where it succeeds.
  pub validated :
      (x y : Text)
      → validate_address sdk x ≡ ok y
      → (sdk.is_valid (sdk.hex_to_address x) ≡ true)
        × (y ≡ format_address sdk (sdk.hex_to_address x))
  unfolding validate_address
  validated x y h = elim (Bool-cases (sdk.is_valid (sdk.hex_to_address x))) [
    | inl e ↦ (e, sym (ok_inj (sym (rw e refl) ∙ h)))
    | inr e ↦ ground arith
  ]

  pub valid_ok :
      (x : Text)
      → sdk.is_valid (sdk.hex_to_address x) ≡ true
      → validate_address sdk x ≡ ok (format_address sdk (sdk.hex_to_address x))
  unfolding validate_address
  valid_ok x valid = rw valid refl

  -- The address that ValidateAddress returns starts with 0x, names the address that it was given,
  -- which is valid, and validates to itself.
  pub validate_address_stable :
      (x y : Text)
      → validate_address sdk x ≡ ok y
      → (has_prefix y hex_prefix ≡ true)
        × (sdk.hex_to_address y ≡ sdk.hex_to_address x)
        × (sdk.is_valid (sdk.hex_to_address y) ≡ true)
        × (validate_address sdk y ≡ ok y)
  validate_address_stable x y h =
      let (valid, written) = validated x y h in
      let a = sdk.hex_to_address x in
      let spelled : y ≡ hex_prefix ++ sdk.address_hex a = written ∙ format_address_lem a in
      let same : sdk.hex_to_address y ≡ a = ap sdk.hex_to_address spelled ∙ sdk.hex_round_trip a in
      (
        rw spelled (has_prefix-append hex_prefix (sdk.address_hex a)),
        same,
        ap sdk.is_valid same ∙ valid,
        valid_ok y (ap sdk.is_valid same ∙ valid)
            ∙ ap ok (ap (format_address sdk) same ∙ sym written),
      )
