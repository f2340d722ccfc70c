-- ===== src/FlowHelpers/Tests.antt =====
-- Examples for flow_helpers/flow_helpers.go.
use flow_wallet_api.Prelude.{
  ℕ, suc, ◌≡◌, refl, Bool, true, false, Option, none, some, [], ◌∷◌, ◌++◌, Text, bytes, has_prefix,
  text_eq, ltb, ◌||◌, ◌==◌, if◌then◌else◌,
}
use flow_wallet_api.Errors.{GoError, net_error, Result, ok, err}
use flow_wallet_api.FlowHelpers.{
  Sdk, hex_prefix, validate_address, sealed, other_status, TransactionResult, Client, on_answer,
  wait_for_seal,
}
use flow_wallet_api.FlowHelpers.Addresses.{validate_address_stable}
use flow_wallet_api.FlowHelpers.Waiting.{Pending, here, there, wait_for_seal_ends}

-- An SDK with two addresses: 1, which is valid, and another.
abbrev address_of : Text → Bool
address_of t = text_eq t (bytes "1") || text_eq t (bytes "0x1")

abbrev hex_of : Bool → Text
hex_of true = bytes "1"
hex_of false = bytes "2"

address_round_trip : (a : Bool) → address_of (bytes "0x" ++ hex_of a) ≡ a
unfolding text_eq
address_round_trip true = refl
address_round_trip false = refl

hex_of_plain : (a : Bool) → has_prefix (hex_of a) (bytes "0x") ≡ false
unfolding has_prefix
hex_of_plain true = refl
hex_of_plain false = refl

abbrev sdk : Sdk Bool
sdk = record {
  hex_to_address = address_of;
  address_hex = hex_of;
  is_valid = λ a. a;
  decode_hex = λ t. none;
  id_hex = λ b. [];
  hex_round_trip = address_round_trip;
  hex_has_no_prefix = hex_of_plain;
}

validate_address_stable_example :
    (has_prefix (bytes "0x1") hex_prefix ≡ true)
    × (address_of (bytes "0x1") ≡ address_of (bytes "1"))
    × (address_of (bytes "0x1") ≡ true)
    × (validate_address sdk (bytes "0x1") ≡ ok (bytes "0x1"))
unfolding validate_address text_eq has_prefix
validate_address_stable_example = validate_address_stable sdk (bytes "1") (bytes "0x1") refl

-- The client counts its calls: the third answer is a sealed transaction, and from the fifth on its
-- deadline has passed.
abbrev answer : ℕ → Result (TransactionResult ℕ)
answer n =
    if n == 2
    then ok (record { status = sealed; error = none; events = 7 ∷ [] })
    else if ltb n 4
    then ok (record { status = other_status 1; error = none; events = [] })
    else err (net_error (bytes "deadline"))

abbrev client : Client ℕ ℕ ℕ
client = record {
  get_transaction = λ id n. (none, n);
  get_transaction_result = λ id n. (answer n, suc n);
  send_transaction = λ tx n. (none, n);
  latest_block_id = λ n. (ok [], n);
  execute_script = λ code arguments n. (ok [], n);
  sleep = λ n. n;
}

abbrev sealed_result : TransactionResult ℕ
sealed_result = record { status = sealed; error = none; events = 7 ∷ [] }

two-Pending : Pending client [] 2 0 2
unfolding on_answer
two-Pending = there refl (there refl here)

-- From the fourth call on, one more round and the deadline has passed.
deadline : (v : ℕ) → Pending client [] 1 3 v → (e : GoError) × (answer v ≡ err e)
unfolding on_answer
deadline _ (there p here) = (net_error (bytes "deadline"), refl)

wait_for_seal_ends_example :
    (a : Option (TransactionResult ℕ) × Option GoError) × ((wait_for_seal client 2 [] 3).0 ≡ some a)
wait_for_seal_ends_example = wait_for_seal_ends client [] 1 3 deadline
