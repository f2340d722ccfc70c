-- ===== src/Templates.antt =====
-- templates/: the registry of tokens, and the events of deposits. gorm and the Flow SDK are parameters, and so
-- is TokenCode, which rewrites Cadence code with package regexp.
pub mod Enabled
pub mod Events
pub mod Registry
pub mod Tests
use flow_wallet_api.Prelude.{
  ℕ, ◌≡◌, Bool, true, false, not, ◌&&◌, ◌||◌, Option, none, some, List, [], ◌∷◌, ◌++◌, Text, bytes,
  text_eq, has_prefix, to_lower, contains, drop, length, get_elem?, ◌==◌, if◌then◌else◌,
}
use flow_wallet_api.Errors.{GoError, plain, error_text, Result, ok, err}
use flow_wallet_api.FlowHelpers.{Sdk, validate_address}

pub data TokenType : Type 0 where
  not_specified ft nft : TokenType

-- TokenType.String
unfoldable pub token_type_string : TokenType → Text
token_type_string not_specified = bytes "NotSpecified"
token_type_string ft = bytes "FT"
token_type_string nft = bytes "NFT"

-- The switch in TypeFromText.
unfoldable pub lower_token_type : Text → TokenType
lower_token_type t =
    if text_eq t (bytes "ft") then ft else if text_eq t (bytes "nft") then nft else not_specified

-- TypeFromText
unfoldable pub type_from_text : Text → TokenType
unfolding lower_token_type
type_from_text t = lower_token_type (to_lower t)

pub record Token : Type 0 where
  pub id : ℕ
  pub name : Text
  pub name_lower_case : Text
  pub address : Text
  pub setup : Text
  pub transfer : Text
  pub balance : Text
  pub token_type : TokenType

pub record BasicToken : Type 0 where
  pub id : ℕ
  pub name : Text
  pub address : Text
  pub token_type : TokenType

-- Token.BasicToken
abbrev pub basic_token : Token → BasicToken
basic_token t = record { id = t.id; name = t.name; address = t.address; token_type = t.token_type }

-- EventType
unfoldable pub event_type : Text → Text → Text → Text
event_type address token_name event_name =
    bytes "A." ++ (address ++ (bytes "." ++ (token_name ++ (bytes "." ++ event_name))))

-- DepositNameFromTokenType
abbrev pub deposit_name_from_token_type : Text → Text
deposit_name_from_token_type t =
    if text_eq t (bytes "FT")
    then bytes "TokensDeposited"
    else if text_eq t (bytes "NFT")
    then bytes "Deposit"
    else []

-- strings.TrimPrefix
abbrev pub trim_prefix : Text → Text → Text
trim_prefix s prefix = if has_prefix s prefix then drop (length prefix) s else s

-- DepositEventTypeFromToken
unfoldable pub deposit_event_type_from_token : BasicToken → Text
unfolding event_type
deposit_event_type_from_token t =
    event_type (trim_prefix t.address (bytes "0x")) t.name
      (deposit_name_from_token_type (token_type_string t.token_type))

-- strings.Split(s, "."), with the text before the next dot in `part`.
abbrev pub split_from : Text → Text → List Text
split_from part [] = part ∷ []
split_from part (c ∷ s) =
    if c == 46 then part ∷ split_from [] s else split_from (part ++ (c ∷ [])) s

unfoldable pub split : Text → List Text
split s = split_from [] s

-- The interface Store of templates/store.go.
pub record TokenStore (W : Type 0) : Type 0 where
  pub insert : Token → W → Option GoError × W
  pub list : TokenType → W → Result (List BasicToken) × W
  pub get_by_id : ℕ → W → Result Token × W
  pub get_by_name : Text → W → Result Token × W
  pub remove : ℕ → W → Option GoError × W
  pub insert_temp : Token → W → W

-- What GormStore calls on *gorm.DB, and its field tempStore as a part of the world. `first_named` is WHERE
-- LOWER(name) LIKE LOWER(@name), `all_temp` the range over the map, in any order.
pub record TokenTable (W : Type 0) : Type 0 where
  pub create : Token → W → Option GoError × W
  pub find : TokenType → W → Result (List BasicToken) × W
  pub first : ℕ → W → Result Token × W
  pub first_named : Text → W → Result Token × W
  pub delete : ℕ → W → Option GoError × W
  pub temp : W → Text → Option Token
  pub put_temp : (Text → Option Token) → W → W
  pub all_temp : W → List Token
  pub put_temp_reads : (m : Text → Option Token) (w : W) → temp (put_temp m w) ≡ m

abbrev same_type : TokenType → TokenType → Bool
same_type not_specified not_specified = true
same_type ft ft = true
same_type nft nft = true
same_type _ _ = false

-- The loop over tempStore in List.
abbrev listed : TokenType → List Token → List BasicToken
listed t [] = []
listed t (k ∷ ks) =
    if same_type t not_specified || same_type k.token_type t
    then basic_token k ∷ listed t ks
    else listed t ks

module _ {W : Type 0} (t : TokenTable W) where
  -- GormStore.List
  list_tokens : TokenType → W → Result (List BasicToken) × W
  list_tokens type w =
      let (r, w') = t.find type w in
      elim r [ err e ↦ (err e, w') | ok found ↦ (ok (found ++ listed type (t.all_temp w)), w') ]

  -- GormStore.GetByName
  find_by_name : Text → W → Result Token × W
  find_by_name name w = elim (t.temp w (to_lower name)) [
    | some token ↦ (ok token, w)
    | none ↦ t.first_named name w
  ]

  -- GormStore.InsertTemp
  put_token : Token → W → W
  put_token token w =
      t.put_temp (λ k. if text_eq k (to_lower token.name) then some token else t.temp w k) w

  -- GormStore
  unfoldable pub token_store : TokenStore W
  unfolding list_tokens find_by_name put_token
  token_store = record {
    insert = t.create;
    list = list_tokens;
    get_by_id = t.first;
    get_by_name = find_by_name;
    remove = t.delete;
    insert_temp = put_token;
  }

-- The error of TokenFromEvent where the addresses differ.
abbrev pub addresses_differ : Text → Text → Text → GoError
addresses_differ name from_event from_database = plain (
    bytes "addresses do not match for "
    ++ (name
        ++ (bytes ", from event: "
            ++ (from_event ++ (bytes ", from database: " ++ from_database)))))

module _ {W A : Type 0} (store : TokenStore W) (sdk : Sdk A)
    (token_code : Token → Text → Text) where
  -- AddToken, with the token as it leaves it.
  unfoldable pub add_token : Token → W → Option GoError × Token × W
  add_token t w = elim (validate_address sdk t.address) [
    | err e ↦ (some e, t, w)
    | ok address ↦
        let t₁ = record t { address = address } in
        let t₂ = record t₁ { setup = token_code t₁ t₁.setup } in
        let t₃ = record t₂ { transfer = token_code t₂ t₂.transfer } in
        let t₄ = record t₃ { balance = token_code t₃ t₃.balance } in
        if text_eq t.name []
        then (some (plain (bytes "not a valid name: \"\"")), t₁, w)
        else (let (e, w') = store.insert t₄ w in (e, t₄, w'))
  ]

  -- TokenFromEvent, once the event's address is read.
  checked_token : Text → Text → W → Result Token × W
  checked_token event_address name w =
      let (r, w') = store.get_by_name name w in
      elim r [
        | err e ↦ (err e, w')
        | ok token ↦ elim (validate_address sdk token.address) [
          | err e ↦ (err e, w')
          | ok address ↦
              if not (text_eq event_address address)
              then (err (addresses_differ token.name event_address address), w')
              else (ok token, w')
        ]
      ]

  -- TokenFromEvent, of the parts of the event's type; none where an index is out of range, which
  -- panics.
  token_from_parts : List Text → W → Option (Result Token × W)
  token_from_parts parts w = elim (get_elem? parts 1) [
    | none ↦ none
    | some address ↦ elim (validate_address sdk address) [
      | err e ↦ some (err e, w)
      | ok event_address ↦ elim (get_elem? parts 2) [
        | none ↦ none
        | some name ↦ some (checked_token event_address name w)
      ]
    ]
  ]

  -- TokenFromEvent, of an event by its type.
  pub token_from_event : Text → W → Option (Result Token × W)
  token_from_event event w = token_from_parts (split event) w
