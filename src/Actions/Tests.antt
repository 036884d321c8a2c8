-- ===== src/Actions/Tests.antt =====
-- A run of the check of an action.
use cloudpanel_gateway.Actions.{ActionSpec, Library, spec}
unfoldable use cloudpanel_gateway.Actions.{
  actions, argument, validate_action, validate_spec, check_required, check_arguments,
  check_argument, optional_arguments,
}
unfoldable use cloudpanel_gateway.Names.{validate_domain, fold_case}
use cloudpanel_gateway.Actions.Accepted.{ArgumentOk}
use cloudpanel_gateway.Auth.Tokens.{Token}
unfoldable use cloudpanel_gateway.Auth.Scopes.{has_scope}
use cloudpanel_gateway.Routes.{post}
use cloudpanel_gateway.Actions.Handler.{action-sent}
unfoldable use cloudpanel_gateway.Actions.Handler.{action, execute_action, checked, called}
use cloudpanel_gateway.Base.{
  Table, lookup, String, ◌≡◌, refl, true, false, none, some, [], ◌∷◌, ◌++◌, Bytes, codes, bytes_eq,
  All, ok, err,
}

abbrev library : Library
library = record {
  is_blank = λ v. bytes_eq v [];
  scan_int = λ v. none;
  parse_url = λ v. none;
  abs = λ v. some v;
}

abbrev arguments : Table Bytes
arguments = ("domainName", codes "shop.test") ∷ []

abbrev delete_site : ActionSpec
delete_site = spec "site.delete" "site:delete" "sites:write" ("domainName" ∷ []) false false

abbrev operator : Token
operator = record {
  id = "tok_1";
  label = "ops";
  scopes = "sites:write" ∷ [];
  expires_at = none;
  revoked = false;
  last_used_at = none;
  created_at = 7;
}

action-sent_example :
    (post ≡ post)
    × Path String "site.delete" "site.delete"
    × (ok arguments ≡ ok arguments)
    × ((a : ActionSpec) × (lookup "site.delete" actions ≡ some a)
        × (has_scope operator.scopes a.scope ≡ true)
        × All (λ k. bytes_eq (argument k arguments) [] ≡ false) a.required
        × All
            (ArgumentOk library (a.required ++ optional_arguments "site.delete") (codes "/a"))
            arguments)
unfolding action execute_action checked called has_scope validate_action validate_spec
    check_required check_arguments check_argument argument actions lookup optional_arguments
    validate_domain fold_case
action-sent_example =
    action-sent library (codes "/a") (λ n xs. err "helper unavailable") operator post "site.delete"
      (ok arguments) ("site.delete", arguments) refl
