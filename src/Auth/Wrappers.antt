-- ===== src/Auth/Wrappers.antt =====
-- The wrappers `auth` and `mcpAuth` of http.go, over the token lookup `token`.
use cloudpanel_gateway.Auth.Policy.{Domain, domain}
use Prim.Native.Char.{code}
use cloudpanel_gateway.Base.{
  Table, ℕ, zero, suc, ◌+◌, String, ◌≡◌, ◌↔◌, ◌⊎◌, inl, inr, Bool, true, false, not, ◌&&◌, ◌||◌,
  Option, none, some, List, map, arith, str_eq, starts_with, eq_iff, leb, ◌==◌, if◌then◌else◌,
  Bool-cases, Option-cases, Bytes, codes, bytes_eq, any, Result, is_ok, ok, err,
}
use cloudpanel_gateway.Auth.Scopes.{has_scope}
use cloudpanel_gateway.Auth.Tokens.{Row, Token, authenticate}

-- `unicode.IsSpace`
is_space : ℕ → Bool
is_space c =
    (leb 9 c && leb c 13)
    || c == 32
    || c == 0x85
    || c == 0xa0
    || c == 0x1680
    || (leb 0x2000 c && leb c 0x200a)
    || c == 0x2028
    || c == 0x2029
    || c == 0x202f
    || c == 0x205f
    || c == 0x3000

trim_left : String → String
trim_left String.[] = String.[]
trim_left (String.◌∷◌ c s) =
    let rest = trim_left s in if is_space (code c) then rest else String.◌∷◌ c s

trim_right : String → String
trim_right String.[] = String.[]
trim_right (String.◌∷◌ c s) =
    let rest = trim_right s in
    if is_space (code c) && str_eq rest "" then rest else String.◌∷◌ c rest

-- `strings.TrimSpace(s)`
unfoldable pub trim_space : String → String
unfolding trim_left trim_right is_space
trim_space s = trim_right (trim_left s)

drop_chars : ℕ → String → String
drop_chars zero s = s
drop_chars (suc n) String.[] = String.[]
drop_chars (suc n) (String.◌∷◌ c s) = drop_chars n s

-- What a wrapper did: an error was written, or the next handler was called with the token.
pub data Reply : Type 0 where
  json_error : ℕ → String → Reply
  served : Token → Reply

-- The part of the server that the wrappers change: the counter of denials.
pub record Served : Type 0 where
  pub reply : Reply
  pub denied : ℕ

abbrev lower_byte : ℕ → ℕ
lower_byte c = if leb b'A' c && leb c b'Z' then c + 32 else c

-- `strings.EqualFold(a, b)` of host names in ASCII
unfoldable pub equal_fold : String → String → Bool
equal_fold a b = bytes_eq (map lower_byte (codes a)) (map lower_byte (codes b))

module _ (digest : String → Bytes) (now : ℕ) (rows : List Row) where
  -- `token(r)`, of the header `Authorization`
  unfoldable pub token : String → Result (Token × List Row)
  unfolding trim_space drop_chars
  token header =
      if starts_with header "Bearer "
      then authenticate digest now (trim_space (drop_chars 7 header)) rows
      else err "missing bearer token"

  -- `auth(next, scope)`, with both its tests as they stand
  unfoldable pub auth_token : ℕ → String → Result (Token × List Row) → Served
  auth_token denied scope (err e) = record {
    reply = json_error 401 "unauthorized";
    denied = denied + 1;
  }
  auth_token denied scope (ok (t, rows')) =
      if not (has_scope t.scopes scope) && not (str_eq scope "")
      then record { reply = json_error 401 "unauthorized"; denied = denied + 1 }
      else if not (str_eq scope "") && not (has_scope t.scopes scope)
      then record { reply = json_error 403 "insufficient scope"; denied = denied + 1 }
      else record { reply = served t; denied = denied }

  auth_token_served :
      (denied : ℕ) (scope : String) (found : Result (Token × List Row)) (t : Token)
      → ((auth_token denied scope found).reply ≡ served t)
      → ((rows' : List Row) × (found ≡ ok (t, rows'))
          × ((has_scope t.scopes scope ≡ true) ⊎ (scope ≡ "")))
  unfolding auth_token
  auth_token_served denied scope (ok (u, rows')) t h =
      (rows', ground arith, ground (arith, eq_iff scope ""))
  auth_token_served denied scope (err e) t h = cc

  auth_token_passes :
      (denied : ℕ) (scope : String) (found : Result (Token × List Row)) (t : Token)
      (rows' : List Row)
      → found ≡ ok (t, rows')
      → (has_scope t.scopes scope ≡ true) ⊎ (scope ≡ "")
      → (auth_token denied scope found).reply ≡ served t
  unfolding auth_token
  auth_token_passes denied scope found t rows' e h = rw e (ground (arith, eq_iff scope ""))

  unfoldable pub auth : ℕ → String → String → Served
  unfolding auth_token token
  auth denied scope header = auth_token denied scope (token header)

  -- A handler runs, with a given token, exactly when the header authenticates that token and it has
  -- the wanted scope, or no scope is wanted.
  pub auth_served :
      (denied : ℕ) (scope header : String) (t : Token)
      → ((auth denied scope header).reply ≡ served t) ↔ (
          (rows' : List Row) × (token header ≡ ok (t, rows'))
          × ((has_scope t.scopes scope ≡ true) ⊎ (scope ≡ "")))
  unfolding auth
  auth_served denied scope header t = (
    auth_token_served denied scope (token header) t,
    λ w. auth_token_passes denied scope (token header) t w.0 w.1 w.2,
  )

  -- Every request that is not served is answered 401 and counted once. So a valid token that lacks
  -- the scope is answered 401 as well, and the answer 403 of the second test is never given.
  pub auth_refused :
      (denied : ℕ) (scope header message : String) (code : ℕ)
      → (auth denied scope header).reply ≡ json_error code message
      → (code ≡ 401) × (message ≡ "unauthorized") × ((auth denied scope header).denied ≡ denied + 1)
  unfolding auth auth_token
  auth_refused denied scope header message code h = ground arith

  -- `validMCPOrigin`: `host_of` is the lower-case host name of the origin, if it parses as a URL.
  unfoldable pub valid_mcp_origin :
      (String → Option String) → List String → Table Domain → String → Bool
  unfolding domain equal_fold
  valid_mcp_origin host_of allowed_hosts domains origin =
      if str_eq origin "" then true else elim (host_of origin) [
        | none ↦ false
        | some host ↦
            str_eq host "localhost"
            || str_eq host "127.0.0.1"
            || any (equal_fold host) allowed_hosts
            || is_ok (domain host domains)
      ]

  origin_cases :
      (host_of : String → Option String) (allowed_hosts : List String) (domains : Table Domain)
      (origin : String)
      → valid_mcp_origin host_of allowed_hosts domains origin ≡ true
      → (origin ≡ "")
        ⊎ ((host : String) × (host_of origin ≡ some host)
            × ((host ≡ "localhost")
                ⊎ (host ≡ "127.0.0.1")
                ⊎ (any (equal_fold host) allowed_hosts ≡ true)
                ⊎ (is_ok (domain host domains) ≡ true)))
  unfolding valid_mcp_origin
  origin_cases host_of allowed_hosts domains origin h = elim (Option-cases (host_of origin)) [
    | inl no_host ↦ inl (ground (arith, eq_iff origin ""))
    | inr (host, e) ↦ elim (Bool-cases (str_eq origin "")) [
      | inl empty ↦ inl ((eq_iff origin "").0 empty)
      | inr other ↦ inr (
        host,
        e,
        ground (arith, eq_iff origin "", eq_iff host "localhost", eq_iff host "127.0.0.1"),
      )
    ]
  ]

  -- `mcpAuth(next)`
  unfoldable pub mcp_token : ℕ → Result (Token × List Row) → Served
  mcp_token denied (err e) = record { reply = json_error 401 "unauthorized"; denied = denied + 1 }
  mcp_token denied (ok (t, rows')) = record { reply = served t; denied = denied }

  unfoldable pub mcp_auth :
      (String → Option String) → List String → Table Domain → ℕ → String → String → Served
  unfolding mcp_token
  mcp_auth host_of allowed_hosts domains denied origin header =
      if not (valid_mcp_origin host_of allowed_hosts domains origin)
      then record { reply = json_error 403 "invalid origin"; denied = denied + 1 }
      else mcp_token denied (token header)

  mcp_token_served :
      (denied : ℕ) (found : Result (Token × List Row)) (t : Token)
      → (mcp_token denied found).reply ≡ served t
      → (rows' : List Row) × (found ≡ ok (t, rows'))
  unfolding mcp_token
  mcp_token_served denied (ok (u, rows')) t h = (rows', ground arith)
  mcp_token_served denied (err e) t h = cc

  -- The MCP endpoint runs only for a token that authenticates, and a browser reaches it only from an
  -- origin whose host is the local machine, an allowed host, or a domain that the gateway stores.
  pub mcp_auth_served :
      (host_of : String → Option String) (allowed_hosts : List String) (domains : Table Domain)
      (denied : ℕ) (origin header : String) (t : Token)
      → (mcp_auth host_of allowed_hosts domains denied origin header).reply ≡ served t
      → ((rows' : List Row) × (token header ≡ ok (t, rows')))
        × ((origin ≡ "")
            ⊎ ((host : String) × (host_of origin ≡ some host)
                × ((host ≡ "localhost")
                    ⊎ (host ≡ "127.0.0.1")
                    ⊎ (any (equal_fold host) allowed_hosts ≡ true)
                    ⊎ (is_ok (domain host domains) ≡ true))))
  unfolding mcp_auth
  mcp_auth_served host_of allowed_hosts domains denied origin header t h = (
    mcp_token_served denied (token header) t (ground arith),
    origin_cases host_of allowed_hosts domains origin (ground arith),
  )
