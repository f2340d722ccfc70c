-- ===== src/Handlers/Templates.antt =====
-- handlers/templates.go and handlers/templates_func.go: the HTTP handlers for the registry of tokens.
use flow_wallet_api.Prelude.{ℕ, Option, none, some, List, Text, bytes}
use flow_wallet_api.Errors.{GoError, Result, ok, err}
use flow_wallet_api.Templates.{TokenType, Token, BasicToken}
use flow_wallet_api.Handlers.Writing.{
  Writer, write, write_error, HttpRequest, var, respond, with_body, refuse_with,
}

-- The interface templates.Service, as the handlers call it. AddToken returns the token as it leaves it.
pub record TemplateService (W : Type 0) : Type 0 where
  pub add_token : Token → W → Option GoError × Token × W
  pub list_tokens : TokenType → W → Result (List BasicToken) × W
  pub get_token_by_id : ℕ → W → Result Token × W
  pub get_token_by_name : Text → W → Result Token × W
  pub remove_token : ℕ → W → Option GoError × W

-- The JSON of requests and responses, and strconv.ParseUint.
pub record TemplateJson : Type 0 where
  pub decode : Text → Result Token
  pub token : Token → Text
  pub tokens : List BasicToken → Text
  pub number : ℕ → Text
  pub parse_uint : Text → Result ℕ

module _ {W : Type 0} (service : TemplateService W) (json : TemplateJson) where
  -- AddTokenFunc, once the token is decoded.
  add_decoded : Writer → Token → W → Writer × W
  add_decoded rw t w =
      let (e, t', w') = service.add_token (record t { id = 0 }) w in
      elim e [ some x ↦ (write_error x rw, w') | none ↦ (write 201 (json.token t') rw, w') ]

  -- AddTokenFunc
  unfoldable pub add_token_func : HttpRequest → W → Writer → Writer × W
  unfolding add_decoded
  add_token_func r w rw = with_body json.decode r (refuse_with rw) (add_decoded rw) w

  -- MakeListTokensFunc
  pub make_list_tokens_func : TokenType → W → Writer → Writer × W
  make_list_tokens_func t w = respond 200 json.tokens (service.list_tokens t w)

  -- The two look-ups of GetTokenFunc.
  token_by : Result ℕ → Text → W → Result Token × W
  token_by (ok id) name = service.get_token_by_id id
  token_by (err e) name = service.get_token_by_name name

  -- GetTokenFunc
  pub get_token_func : HttpRequest → W → Writer → Writer × W
  get_token_func r w =
      let name = var r (bytes "id_or_name") in
      respond 200 json.token (token_by (json.parse_uint name) name w)

  -- RemoveTokenFunc
  pub remove_token_func : HttpRequest → W → Writer → Writer × W
  remove_token_func r w rw = elim (json.parse_uint (var r (bytes "id"))) [
    | err e ↦ (write_error e rw, w)
    | ok id ↦
        let (e, w') = service.remove_token id w in
        elim e [ some x ↦ (write_error x rw, w') | none ↦ (write 200 (json.number id) rw, w') ]
  ]
