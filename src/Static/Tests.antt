-- ===== src/Static/Tests.antt =====
-- A run of the routing update.
use cloudpanel_gateway.Static.{
  StaticRequest, StaticSettings, update_routing, get_routing, marker, fallback_head, fallback_tail,
}
unfoldable use cloudpanel_gateway.Static.{
  insert_fallback, patch_unmanaged, patch_spa_fallback, static_revision, commit_update,
  execute_routing, routing_of, check_static, after_check, execute_static,
}
unfoldable use cloudpanel_gateway.Names.{validate_domain, fold_case}
use cloudpanel_gateway.Static.Readback.{execute_static_readback}
use cloudpanel_gateway.Base.{◌≡◌, refl, true, none, some, ◌∷◌, ◌++◌, Bytes, codes, take, ok}

abbrev first_bytes : Bytes → Bytes
first_bytes b = take 12 b

abbrev enable : StaticRequest
enable = record {
  operation = update_routing;
  domain = codes "shop.test";
  spa_fallback = true;
  if_match_revision = codes "shop.test" ++ 0 ∷ codes "lo";
}

abbrev before : Bytes
before = codes "location / { }"

abbrev updated : Bytes
updated = codes "location / {" ++ (fallback_head ++ marker ++ (fallback_tail ++ codes " }"))

abbrev settings : StaticSettings
settings = record {
  domain = codes "shop.test";
  spa_fallback = true;
  revision = codes "shop.test" ++ 0 ∷ codes "lo";
}

execute_static_readback_example :
    execute_static first_bytes
      (ok (codes "static"))
      none
      (record enable { operation = get_routing })
      (some updated)
    ≡ (ok settings, some updated)
unfolding execute_static after_check routing_of check_static execute_routing commit_update
    static_revision patch_spa_fallback patch_unmanaged insert_fallback validate_domain fold_case
execute_static_readback_example =
    execute_static_readback first_bytes (ok (codes "static")) none enable (some before)
      (some updated) settings refl refl refl
