-- ===== src/Auth/Tests.antt =====
-- Runs of the token operations, the policy and the wrappers.
use cloudpanel_gateway.Auth.Policy.{Domain, permits-set_policy, domain-store_domain}
unfoldable use cloudpanel_gateway.Auth.Policy.{allowed, permits, set_policy, store_domain, domain}
unfoldable use cloudpanel_gateway.Auth.Scopes.{has_scope}
use cloudpanel_gateway.Auth.Tokens.{Row, Token, new_row}
unfoldable use cloudpanel_gateway.Auth.Tokens.{
  by_digest, set_revoked, revoke_token, authenticate, admit, scan_token, is_inactive, insert_row,
  clashes, create_token, touch,
}
use cloudpanel_gateway.Auth.Tokens.Revocation.{use_token, revoke, calls, authenticate-revoke_token}
use cloudpanel_gateway.Auth.Tokens.Issue.{authenticate-create_token}
use cloudpanel_gateway.Auth.Wrappers.{
  served, auth_served, auth_refused, mcp_auth, mcp_token, valid_mcp_origin, mcp_auth_served,
  equal_fold,
}
unfoldable use cloudpanel_gateway.Auth.Wrappers.{trim_space, token, auth, auth_token}
use cloudpanel_gateway.Base.{
  Table, lookup, ℕ, ◌+◌, String, ◌≡◌, refl, ◌↔◌, ◌⊎◌, Bool, true, false, Option, none, some, List,
  [], ◌∷◌, str_eq, if◌then◌else◌, rfc3339, Bytes, codes, any, is_ok, ok,
}

abbrev raw_token : String
raw_token = "cp_live_1"

abbrev test_digest : String → Bytes
test_digest s = codes s

abbrev row : Row
row = new_row test_digest 7 "ci" ("site:read" ∷ []) none raw_token "tok_1"

abbrev rows : List Row
rows = row ∷ []

abbrev rows_after : List Row
rows_after = record row { revoked_at = some 0 } ∷ []

authenticate-revoke_token_example :
    is_ok (
      authenticate test_digest 9 raw_token
        (calls test_digest (use_token 8 raw_token ∷ revoke 8 "tok_1" ∷ []) rows_after))
    ≡ false
unfolding by_digest revoke_token set_revoked
authenticate-revoke_token_example =
    authenticate-revoke_token test_digest 8 9 raw_token rows rows_after row
      (use_token 8 raw_token ∷ revoke 8 "tok_1" ∷ []) refl refl

abbrev issued : Token
issued = record {
  id = "tok_1";
  label = "ci";
  scopes = "site:read" ∷ [];
  expires_at = none;
  revoked = false;
  last_used_at = none;
  created_at = 7;
}

authenticate-create_token_example :
    (u : Token) × (authenticate test_digest 9 raw_token rows
      ≡ ok (u, touch (rfc3339 9) "tok_1" rows))
    × (u.id ≡ "tok_1")
    × (u.scopes ≡ "site:read" ∷ [])
unfolding create_token insert_row clashes
authenticate-create_token_example =
    authenticate-create_token test_digest 7 9 "ci" ("site:read" ∷ []) none raw_token "tok_1" [] rows
      issued raw_token refl refl tt

abbrev policy : Table Bool
policy = ("db.delete", true) ∷ []

permits-set_policy_example :
    (permits (allowed none (set_policy "db.delete" false policy) "db.delete") ≡ true) ↔ (
      (Path (Option String) none none)
      × (((Path String "db.delete" "db.delete") × (Path Bool false true))
          ⊎ ((Path String "db.delete" "db.delete" → ⊥) × (lookup "db.delete" policy ≡ some true))))
permits-set_policy_example = permits-set_policy none policy "db.delete" "db.delete" false

abbrev domains : Table Domain
domains = ("a.test", record { site_user = "old"; secret = 1 ∷ []; created_at = 3 }) ∷ []

domain-store_domain_example :
    domain "a.test" (store_domain 5 "a.test" "new" "secret" domains)
    ≡ (if str_eq "a.test" "a.test" then ok ("new", []) else domain "a.test" domains)
domain-store_domain_example = domain-store_domain 5 "a.test" "a.test" "new" "secret" domains

auth_served_example :
    ((auth test_digest 9 rows 0 "site:read" "Bearer cp_live_1").reply ≡ served (scan_token row)) ↔ (
      (rows' : List Row) × (token test_digest 9 rows "Bearer cp_live_1"
        ≡ ok (scan_token row, rows'))
      × ((has_scope (scan_token row).scopes "site:read" ≡ true) ⊎ (Path String "site:read" "")))
auth_served_example =
    auth_served test_digest 9 rows 0 "site:read" "Bearer cp_live_1" (scan_token row)

auth_refused_example :
    (Path ℕ 401 401)
    × (Path String "unauthorized" "unauthorized")
    × ((auth test_digest 9 rows 0 "site:write" "Bearer cp_live_1").denied ≡ 0 + 1)
unfolding auth auth_token token authenticate admit by_digest scan_token is_inactive has_scope
    trim_space
auth_refused_example =
    auth_refused test_digest 9 rows 0 "site:write" "Bearer cp_live_1" "unauthorized" 401 refl

abbrev host_of : String → Option String
host_of origin = some "localhost"

mcp_auth_served_example :
    ((rows' : List Row) × (token test_digest 9 rows "Bearer cp_live_1"
        ≡ ok (scan_token row, rows')))
    × ((Path String "http://localhost" "")
        ⊎ ((host : String) × (host_of "http://localhost" ≡ some host)
            × ((host ≡ "localhost")
                ⊎ (host ≡ "127.0.0.1")
                ⊎ (any (equal_fold host) [] ≡ true)
                ⊎ (is_ok (domain host domains) ≡ true))))
unfolding mcp_auth mcp_token valid_mcp_origin equal_fold token authenticate admit by_digest
    scan_token is_inactive has_scope trim_space
mcp_auth_served_example =
    mcp_auth_served test_digest 9 rows host_of [] domains 0 "http://localhost" "Bearer cp_live_1"
      (scan_token row) refl
