-- ===== src/Templates/Events.antt =====
-- Deposit events (templates/events.go) and TokenFromEvent (templates/service.go).
use flow_wallet_api.Prelude.{
  ◌≡◌, refl, sym, ap, ◌∙◌, Bool, false, ◌||◌, some, List, [], ◌∷◌, ◌++◌, arith, Text, bytes,
  text_eq_refl, ◌==◌,
}
use mathlib.Core.List.{append_assoc, append-nil}
use flow_wallet_api.Errors.{ok}
use flow_wallet_api.FlowHelpers.{Sdk, format_address, validate_address}
use flow_wallet_api.FlowHelpers.Addresses.{validated, valid_ok}
use flow_wallet_api.Templates.{
  Token, basic_token, token_type_string, event_type, deposit_name_from_token_type, trim_prefix,
  deposit_event_type_from_token, split_from, split, TokenStore, checked_token, token_from_parts,
  token_from_event,
}

-- A text without a dot.
abbrev pub has_dot : Text → Bool
has_dot [] = false
has_dot (c ∷ s) = (c == 46) || has_dot s

split_from_dot :
    (part s rest : Text)
    → has_dot s ≡ false
    → split_from part (s ++ (46 ∷ rest)) ≡ (part ++ s) ∷ split_from [] rest
split_from_dot part [] rest h = ap (λ p. p ∷ split_from [] rest) (sym (append-nil part))
split_from_dot part (c ∷ s) rest h =
    let plain : (c == 46) ≡ false = ground arith in
    let after : has_dot s ≡ false = ground arith in
    rw (plain, split_from)
      (split_from_dot (part ++ (c ∷ [])) s rest after
        ∙ ap (λ p. p ∷ split_from [] rest) (append_assoc part (c ∷ []) s))

-- An event's type splits into its four parts, whatever its name is without dots.
split-event_type :
    (address name event : Text)
    → has_dot address ≡ false
    → has_dot name ≡ false
    → split (event_type address name event) ≡ bytes "A" ∷ address ∷ name ∷ split_from [] event
unfolding split event_type
split-event_type address name event a n =
    ap (λ l. bytes "A" ∷ l)
      (split_from_dot [] address (name ++ (46 ∷ event)) a
        ∙ ap (λ l. address ∷ l) (split_from_dot [] name event n))

module _ {W A : Type 0} (store : TokenStore W) (sdk : Sdk A)
    (token_code : Token → Text → Text) where
  same_address :
      (x y z : Text)
      → sdk.hex_to_address z ≡ sdk.hex_to_address x
      → validate_address sdk x ≡ ok y
      → validate_address sdk z ≡ ok y
  same_address x y z same h =
      let (valid, written) = validated sdk x y h in
      valid_ok sdk z (ap sdk.is_valid same ∙ valid)
      ∙ ap ok (ap (format_address sdk) same ∙ sym written)

  checked_token_ok :
      (token : Token) (y name : Text) (w : W)
      → (store.get_by_name name w).0 ≡ ok token
      → validate_address sdk token.address ≡ ok y
      → checked_token store sdk token_code y name w ≡ (ok token, (store.get_by_name name w).1)
  unfolding checked_token
  checked_token_ok token y name w found valid =
      rw (found, checked_token) (rw (valid, text_eq_refl y) refl)

  parts_ok :
      (token : Token) (bare y : Text) (event : List Text) (w : W)
      → validate_address sdk bare ≡ ok y
      → (store.get_by_name token.name w).0 ≡ ok token
      → validate_address sdk token.address ≡ ok y
      → token_from_parts store sdk token_code (bytes "A" ∷ bare ∷ token.name ∷ event) w
        ≡ some (ok token, (store.get_by_name token.name w).1)
  unfolding token_from_parts
  parts_ok token bare y event w read found valid =
      rw (read, token_from_parts) (ap some (checked_token_ok token y token.name w found valid))

  -- TokenFromEvent, on the event type that DepositEventTypeFromToken makes of a registered token
  -- with a valid address, returns this token and does not panic, if name and bare address have no
  -- dots and the SDK reads the address with and without its 0x.
  pub token_from_event-deposit :
      (token : Token) (y : Text) (w : W)
      → has_dot (trim_prefix token.address (bytes "0x")) ≡ false
      → has_dot token.name ≡ false
      → sdk.hex_to_address (trim_prefix token.address (bytes "0x"))
        ≡ sdk.hex_to_address token.address
      → validate_address sdk token.address ≡ ok y
      → (store.get_by_name token.name w).0 ≡ ok token
      → token_from_event store sdk token_code (deposit_event_type_from_token (basic_token token)) w
        ≡ some (ok token, (store.get_by_name token.name w).1)
  unfolding token_from_event deposit_event_type_from_token
  token_from_event-deposit token y w a n prefixed valid found =
      let bare = trim_prefix token.address (bytes "0x") in
      let event = deposit_name_from_token_type (token_type_string token.token_type) in
      ap (λ parts. token_from_parts store sdk token_code parts w)
        (split-event_type bare token.name event a n)
      ∙ parts_ok token bare y (split_from [] event) w
          (same_address token.address y bare prefixed valid) found valid
