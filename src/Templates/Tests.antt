-- ===== src/Templates/Tests.antt =====
-- Examples for templates/: a registry whose world is the map of the tokens enabled at run time.
use flow_wallet_api.Prelude.{
  ◌≡◌, refl, Bool, true, false, Option, none, some, [], ◌++◌, ◌||◌, Text, bytes, text_eq, to_lower,
  has_prefix,
}
use flow_wallet_api.Errors.{record_not_found, ok, err}
use flow_wallet_api.FlowHelpers.{Sdk, validate_address}
use flow_wallet_api.Templates.{
  ft, Token, basic_token, deposit_event_type_from_token, TokenTable, token_store, token_from_event,
}
use flow_wallet_api.Templates.Events.{token_from_event-deposit}

abbrev World : Type 0
World = Text → Option Token

abbrev table : TokenTable World
table = record {
  create = λ t w. (none, w);
  find = λ t w. (ok [], w);
  first = λ id w. (err record_not_found, w);
  first_named = λ name w. (err record_not_found, w);
  delete = λ id w. (none, w);
  temp = λ w. w;
  put_temp = λ m w. m;
  all_temp = λ w. [];
  put_temp_reads = λ m w. refl;
}

abbrev fusd : Token
fusd = record {
  id = 0;
  name = bytes "FUSD";
  name_lower_case = bytes "fusd";
  address = bytes "0x1";
  setup = [];
  transfer = [];
  balance = [];
  token_type = ft;
}

abbrev empty : World
empty name = none

abbrev registered : World
registered = (token_store table).insert_temp fusd empty

-- A chain with two addresses, 1 and another.
abbrev address_of : Text → Bool
address_of t = text_eq t (bytes "1") || text_eq t (bytes "0x1")

abbrev hex_of : Bool → Text
hex_of true = bytes "1"
hex_of false = bytes "2"

address_round_trip : (a : Bool) → address_of (bytes "0x" ++ hex_of a) ≡ a
unfolding text_eq
address_round_trip true = refl
address_round_trip false = refl

hex_of_plain : (a : Bool) → has_prefix (hex_of a) (bytes "0x") ≡ false
unfolding has_prefix
hex_of_plain true = refl
hex_of_plain false = refl

abbrev sdk : Sdk Bool
sdk = record {
  hex_to_address = address_of;
  address_hex = hex_of;
  is_valid = λ a. a;
  decode_hex = λ t. none;
  id_hex = λ b. [];
  hex_round_trip = address_round_trip;
  hex_has_no_prefix = hex_of_plain;
}

token_from_event-deposit_example :
    token_from_event
      (token_store table)
      sdk
      (λ t code. code)
      (deposit_event_type_from_token (basic_token fusd))
      registered
    ≡ some (ok fusd, registered)
unfolding token_store validate_address text_eq has_prefix to_lower
token_from_event-deposit_example =
    token_from_event-deposit (token_store table) sdk (λ t code. code) fusd (bytes "0x1") registered
      refl refl refl refl refl
