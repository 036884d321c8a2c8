-- ===== src/Deployment/Tests.antt =====
-- Runs of a deployment into a directory that exists.
unfoldable use cloudpanel_gateway.Names.{validate_domain, fold_case}
unfoldable use cloudpanel_gateway.Paths.{join_path, is_abs, clean_parts, dir_of, clean}
unfoldable use cloudpanel_gateway.Uploads.Cleanup.{cleanup, clean_uploads, remove_due, keep_live}
unfoldable use cloudpanel_gateway.Auth.Policy.{allowed, permits}
use cloudpanel_gateway.Uploads.{Artifact, artifact}
use cloudpanel_gateway.Routes.Requests.{DeployRequest}
use cloudpanel_gateway.Deployment.{Machine, Tree, directory, DeploymentResult}
unfoldable use cloudpanel_gateway.Deployment.{plan, deploy_artifact, beside, stage_of, old_of}
use cloudpanel_gateway.Deployment.Swap.{IsFresh}
use cloudpanel_gateway.Deployment.Placed.{IsSwapped}
use cloudpanel_gateway.Deployment.Deployed.{
  IsPlanned, deploy_artifact_failed, deploy_artifact-IsSwapped,
}
use cloudpanel_gateway.Base.{
  lookup, ℕ, ◌≡◌, refl, true, false, none, some, [], ◌∷◌, if◌then◌else◌, Bytes, codes, bytes_eq, ok,
}

abbrev site : Bytes
site = codes "/home/u/htdocs/shop.test"

abbrev target : Bytes
target = codes "/home/u/htdocs/shop.test/www"

abbrev stored : Artifact
stored = record {
  id = "art_1";
  path = artifact "art_1";
  sha256 = [];
  size = 10;
  owner_token_id = "tok_1";
  created_at = 1;
  expires_at = 100;
}

abbrev machine : Machine ℕ
machine = record {
  site_type = ok "php";
  policy_fault = none;
  policy = ("file.deploy_artifact", true) ∷ [];
  cleaned_at = 1;
  clean = record {
    query_artifacts = none;
    delete_artifacts = none;
    query_uploads = none;
    delete_uploads = none;
  };
  uploads = record { uploads = []; artifacts = ("art_1", stored) ∷ []; files = λ n. none };
  query_artifact = none;
  root = ok site;
  eval_symlinks = λ p. some p;
  stat = none;
  safety = ok "backup_1";
  stage_id = codes "s";
  mkdir = none;
  extract = ok (3, 7);
  chown = none;
  chown_tree = none;
  old_id = codes "o";
  rename_old = none;
  rename_stage = none;
  rename_back = none;
}

abbrev request : DeployRequest
request = record {
  domain = codes "shop.test";
  artifact_id = "art_1";
  target_dir = codes "www";
  replace = true;
  confirm = true;
  owner_token_id = "tok_1";
  root = false;
  static_site = false;
}

abbrev tree : Tree ℕ
tree p = if bytes_eq p target then some (directory 1) else none

abbrev broken : Machine ℕ
broken = record machine { rename_stage = some "no space left on device" }

abbrev result : DeploymentResult
result = record {
  domain = codes "shop.test";
  artifact_id = "art_1";
  digest = [];
  target_dir = codes "www";
  files = 3;
  replaced = true;
  safety_backup_id = none;
}

machine-IsFresh : IsFresh machine target tree
unfolding stage_of old_of beside dir_of join_path clean clean_parts is_abs
machine-IsFresh = record {
  stage_apart = refl;
  old_apart = refl;
  target_apart = refl;
  old_free = refl;
}

broken-IsFresh : IsFresh broken target tree
unfolding stage_of old_of beside dir_of join_path clean clean_parts is_abs
broken-IsFresh = record {
  stage_apart = refl;
  old_apart = refl;
  target_apart = refl;
  old_free = refl;
}

deploy_artifact-IsSwapped_example :
    IsPlanned machine 1 request tree false stored target true
    × IsSwapped machine target 3 (deploy_artifact machine 1 request tree).1
unfolding cleanup clean_uploads remove_due keep_live plan deploy_artifact validate_domain fold_case
    lookup allowed permits join_path clean clean_parts is_abs dir_of
deploy_artifact-IsSwapped_example =
    deploy_artifact-IsSwapped machine 1 request tree (deploy_artifact machine 1 request tree).1
      false stored target true none result refl machine-IsFresh refl

deploy_artifact_failed_example :
    (deploy_artifact broken 1 request tree).1 target ≡ some (directory 1)
unfolding cleanup clean_uploads remove_due keep_live plan deploy_artifact validate_domain fold_case
    lookup allowed permits join_path clean clean_parts is_abs stage_of beside dir_of
deploy_artifact_failed_example =
    deploy_artifact_failed broken 1 request tree (deploy_artifact broken 1 request tree).1 false
      stored target true none "no space left on device" refl broken-IsFresh refl refl target refl
