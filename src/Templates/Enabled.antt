-- ===== src/Templates/Enabled.antt =====
-- parseEnabledTokens and NewService (templates/service.go): the tokens that the configuration enables. The map of
-- tokens is a list of its entries, whose order stands for the one in which Go ranges over it; the code of the three
-- templates is a parameter.
use flow_wallet_api.Prelude.{
  ◌≡◌, refl, Option, none, some, List, [], ◌∷◌, ◌++◌, Text, bytes, text_eq, text_eq_refl, to_lower,
  contains, ◌==◌, if◌then◌else◌, inl, inr, Bool-cases,
}
use flow_wallet_api.Errors.{error_text, ok, err}
use flow_wallet_api.Call.{Run, returned, panicked}
use flow_wallet_api.Templates.{Token, TokenStore, not_specified, ft}

-- strings.Split at a colon.
colon_split_from : Text → Text → List Text
colon_split_from part [] = part ∷ []
colon_split_from part (c ∷ s) =
    if c == 58 then part ∷ colon_split_from [] s else colon_split_from (part ++ (c ∷ [])) s

abbrev Tokens : Type 0
Tokens = List (Text × Token)

-- enabledTokens[key] = token
put_enabled : Text → Token → Tokens → Tokens
put_enabled key token [] = (key, token) ∷ []
put_enabled key token ((k, t) ∷ ts) =
    let rest = put_enabled key token ts in if text_eq k key then (k, token) ∷ ts else (k, t) ∷ rest

-- enabledTokens[key]
enabled_at : Text → Tokens → Option Token
enabled_at key [] = none
enabled_at key ((k, t) ∷ ts) = if text_eq k key then some t else enabled_at key ts

abbrev named : Text → Text → Text → Token
named name address name_lower_case = record {
  id = 0;
  name = name;
  name_lower_case = name_lower_case;
  address = address;
  setup = [];
  transfer = [];
  balance = [];
  token_type = not_specified;
}

-- The token that one entry describes; none is the panic of an entry without a colon.
unfoldable enabled_token : List Text → Option Token
enabled_token [] = none
enabled_token (name ∷ []) = none
enabled_token (name ∷ address ∷ []) = some (named name address [])
enabled_token (name ∷ address ∷ lower ∷ rest) = some (named name address lower)

-- The loop of parseEnabledTokens: the map so far, and the entries that are left.
parse_from : Tokens → List Text → Option Tokens
parse_from ts [] = some ts
parse_from ts (s ∷ ss) = elim (enabled_token (colon_split_from [] s)) [
  | none ↦ none
  | some t ↦ parse_from (put_enabled (to_lower t.name) t ts) ss
]

-- parseEnabledTokens
unfoldable parse_enabled_tokens : List Text → Option Tokens
unfolding parse_from
parse_enabled_tokens = parse_from []

module _ {W : Type 0} (store : TokenStore W)
    (setup_code transfer_code balance_code : Token → Text) where
  -- What NewService stores in memory for an enabled token.
  with_code : Token → Token
  with_code t =
      let typed = record t { token_type = ft } in
      let with_setup = record typed { setup = setup_code typed } in
      let with_transfer = record with_setup { transfer = transfer_code with_setup } in
      record with_transfer { balance = balance_code with_transfer }

  -- The loop of NewService.
  add_enabled : Tokens → W → Run W (Unit {0})
  add_enabled [] w = returned tt w
  add_enabled ((k, t) ∷ ts) w =
      let (found, w') = store.get_by_name t.name w in
      let skipped = add_enabled ts w' in
      let added = add_enabled ts (store.insert_temp (with_code t) w') in
      elim found [
        | ok old ↦ skipped
        | err e ↦ if contains (error_text e) (bytes "record not found") then added else panicked w'
      ]

  -- NewService
  new_template_service : List Text → W → Run W (Unit {0})
  new_template_service enabled w = elim (parse_enabled_tokens enabled) [
    | none ↦ panicked w
    | some ts ↦ add_enabled ts w
  ]

-- A token that is put under a key is found under it, whatever was there before.
enabled_at-put_enabled :
    (key : Text) (token : Token) (ts : Tokens)
    → enabled_at key (put_enabled key token ts) ≡ some token
unfolding enabled_at put_enabled
enabled_at-put_enabled key token [] = rw (text_eq_refl key) refl
enabled_at-put_enabled key token ((k, t) ∷ ts) = elim (Bool-cases (text_eq k key)) [
  | inl same ↦ rw same (rw same refl)
  | inr other ↦ rw other (rw other (enabled_at-put_enabled key token ts))
]
