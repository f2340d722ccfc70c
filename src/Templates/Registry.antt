-- ===== src/Templates/Registry.antt =====
-- The tokens that are enabled at run time (templates/store_gorm.go, templates/types.go).
use flow_wallet_api.Prelude.{
  ◌≡◌, refl, ap, ◌∙◌, false, some, Text, text_eq, text_eq_refl, to_lower, if◌then◌else◌,
}
use flow_wallet_api.Errors.{ok}
use flow_wallet_api.Templates.{
  TokenType, not_specified, ft, nft, token_type_string, type_from_text, Token, TokenTable,
  find_by_name, put_token, token_store,
}

find_by_name_found :
    {W : Type 0} (t : TokenTable W) (token : Token) (name : Text) (w : W)
    → t.temp w (to_lower name) ≡ some token
    → find_by_name t name w ≡ (ok token, w)
unfolding find_by_name
find_by_name_found t token name w found = rw (found, find_by_name) refl

-- A token that InsertTemp has stored is found by GetByName under its name in any spelling of
-- capitals, before the database is asked, and the entries for other names stay as they were.
insert_temp-get_by_name :
    {W : Type 0} (t : TokenTable W) (token : Token) (w : W)
    → ((name : Text)
        → to_lower name ≡ to_lower token.name
        → (token_store t).get_by_name name ((token_store t).insert_temp token w)
          ≡ (ok token, (token_store t).insert_temp token w))
      × ((name : Text)
          → text_eq (to_lower name) (to_lower token.name) ≡ false
          → t.temp ((token_store t).insert_temp token w) (to_lower name) ≡ t.temp w (to_lower name))
unfolding token_store
insert_temp-get_by_name t token w =
    let m = λ (k : Text). if text_eq k (to_lower token.name) then some token else t.temp w k in
    (
      λ name same.
          let found : t.temp (put_token t token w) (to_lower name) ≡ some token =
            ap (λ f. f (to_lower name)) (t.put_temp_reads m w)
            ∙ rw (same, text_eq_refl (to_lower token.name)) refl in
          find_by_name_found t token name (put_token t token w) found,
      λ name other. ap (λ f. f (to_lower name)) (t.put_temp_reads m w) ∙ rw other refl,
    )

-- TypeFromText returns a token type for every text with the same lower-case form as the type's
-- String.
type_from_text-token_type_string :
    (t : TokenType) (s : Text) → to_lower s ≡ to_lower (token_type_string t) → type_from_text s ≡ t
unfolding type_from_text token_type_string to_lower text_eq
type_from_text-token_type_string not_specified s h = rw h refl
type_from_text-token_type_string ft s h = rw h refl
type_from_text-token_type_string nft s h = rw h refl
