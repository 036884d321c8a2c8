-- ===== src/Deployment.antt =====
-- The deployment of an artifact: `deployArtifact` and `containedTarget` of
-- internal/gateway/operations.go. The directories below the site are a function from their paths; what
-- a directory holds is any type `D`. The archive that is unpacked (`extractZIP`) gives the content
-- of the staging directory, or an error. Each call of the file system takes its error from a record.
pub mod Swap
pub mod Placed
pub mod Deployed
mod Tests
use cloudpanel_gateway.Auth.Policy.{permits, allowed}
use cloudpanel_gateway.Names.{validate_domain}
use cloudpanel_gateway.Routes.Requests.{DeployRequest}
use cloudpanel_gateway.Paths.{clean, is_abs, join_path, dir_of, dot, dotdot}
use cloudpanel_gateway.Uploads
use cloudpanel_gateway.Uploads.{Artifact}
use cloudpanel_gateway.Uploads.Cleanup.{CleanupFaults}
unfoldable use cloudpanel_gateway.Uploads.Cleanup.{cleanup}
use cloudpanel_gateway.Base.{
  Table, lookup, ℕ, String, Bool, true, false, not, ◌&&◌, ◌||◌, Option, none, some, List, [], ◌∷◌,
  ◌++◌, str_eq, ltb, if◌then◌else◌, from_rfc3339, Bytes, codes, bytes_eq, has_prefix, contains,
  split, length, Result, refuse_if, ◌>>=◌, ◌>>◌, ok, err,
}

-- `filepath.EvalSymlinks(parent)` of a target whose parent must exist
unfoldable pub real_parent : Bytes → Bytes → Option Bytes → Result Bytes
real_parent root target none = err "target parent must exist"
real_parent root target (some real) =
    if not (bytes_eq real root) && not (has_prefix real (root ++ b'/' ∷ []))
    then err "target escapes site root"
    else ok target

-- `containedTarget(root, rel, true)`
unfoldable pub contained_target : (Bytes → Option Bytes) → Bytes → Bytes → Result Bytes
unfolding real_parent
contained_target eval_symlinks root rel =
    if is_abs rel || contains rel (b'\\' ∷ [])
    then err "target_dir must be a relative POSIX path"
    else if bytes_eq (clean rel) dot
        || bytes_eq (clean rel) dotdot
        || has_prefix (clean rel) (codes "../")
    then err "invalid target_dir"
    else real_parent root (join_path root (clean rel))
        (eval_symlinks (dir_of (join_path root (clean rel))))

-- What stands at a path: a directory with its content, or something else.
pub data Node (D : Type 0) : Type 0 where
  directory : D → Node D
  no_directory : Node D

abbrev pub Tree : Type 0 → Type 0
Tree D = Bytes → Option (Node D)

unfoldable pub put_node : {D : Type 0} → Bytes → Option (Node D) → Tree D → Tree D
put_node path node tree other = if bytes_eq path other then node else tree other

-- The answers of the machine, in the order of the calls.
pub record Machine (D : Type 0) : Type 0 where
  pub site_type : Result String
  pub policy_fault : Option String
  pub policy : Table Bool
  pub cleaned_at : ℕ
  pub clean : CleanupFaults
  pub uploads : Uploads.Store
  pub query_artifact : Option String
  pub root : Result Bytes
  pub eval_symlinks : Bytes → Option Bytes
  pub stat : Option String
  pub safety : Result String
  pub stage_id : Bytes
  pub mkdir : Option String
  pub extract : Result (ℕ × D)
  pub chown : Option String
  pub chown_tree : Option String
  pub old_id : Bytes
  pub rename_old : Option String
  pub rename_stage : Option String
  pub rename_back : Option String

pub record DeploymentResult : Type 0 where
  pub domain : Bytes
  pub artifact_id : String
  pub digest : Bytes
  pub target_dir : Bytes
  pub files : ℕ
  pub replaced : Bool
  pub safety_backup_id : Option String

-- `filepath.Base(p)` of a clean path without a slash at its end
abbrev pub last_part : List Bytes → Bytes
last_part [] = []
last_part (p ∷ []) = p
last_part (p ∷ q ∷ parts) = last_part (q ∷ parts)

-- `filepath.Join(filepath.Dir(target), prefix+filepath.Base(target)+"-"+randomArtifactID())`
unfoldable pub beside : String → Bytes → Bytes → Bytes
beside prefix target id =
    join_path (dir_of target) (codes prefix ++ last_part (split b'/' target) ++ b'-' ∷ id)

module _ {D : Type 0} (m : Machine D) where
  unfoldable pub stage_of : Bytes → Bytes
  unfolding beside
  stage_of target = beside ".cpgw-stage-" target m.stage_id

  unfoldable pub old_of : Bytes → Bytes
  unfolding beside
  old_of target = beside ".cpgw-old-" target m.old_id

  -- `os.Rename(from, to)` of what stands at `from`
  abbrev pub rename : Bytes → Bytes → Tree D → Tree D
  rename from to tree = put_node to (tree from) (put_node from none tree)

  -- `os.Rename(old, target)`, with its answer
  unfoldable pub put_back : Option String → Tree D → Bytes → Tree D
  put_back (some e) tree target = tree
  put_back none tree target = rename (old_of target) target tree

  -- `os.RemoveAll(stage)`, deferred
  abbrev pub remove_stage : Bytes → Tree D → Tree D
  remove_stage target tree = put_node (stage_of target) none tree

  -- `os.Rename(stage, target)`, with its answer: the old directory is put back when it fails, and
  -- removed otherwise.
  unfoldable pub move_stage : Option String → Bool → Bytes → Tree D → Option String × Tree D
  unfolding put_back put_node
  move_stage (some e) true target tree = (some e, put_back m.rename_back tree target)
  move_stage (some e) false target tree = (some e, tree)
  move_stage none true target tree =
      (none, put_node (old_of target) none (rename (stage_of target) target tree))
  move_stage none false target tree = (none, rename (stage_of target) target tree)

  -- `os.Rename(target, old)`, with its answer
  unfoldable pub move_old : Option String → Bytes → Tree D → Option String × Tree D
  unfolding move_stage put_node
  move_old (some e) target tree = (some e, tree)
  move_old none target tree =
      move_stage m.rename_stage true target (rename target (old_of target) tree)

  -- The swap: the old directory out of the way, and the staging directory in its place
  unfoldable pub swap : Bool → Bytes → Tree D → Option String × Tree D
  unfolding move_old
  swap true target tree = move_old m.rename_old target tree
  swap false target tree = move_stage m.rename_stage false target tree

  -- What is returned after the swap; the staging directory goes.
  unfoldable pub swapped : ℕ → Bytes → Option String × Tree D → Result ℕ × Tree D
  swapped count target (some e, tree) = (err e, remove_stage target tree)
  swapped count target (none, tree) = (ok count, remove_stage target tree)

  -- The change of the owner, with its answers, and the swap
  unfoldable pub owned :
      Option String → Option String → ℕ × D → Bool → Bytes → Tree D → Result ℕ × Tree D
  unfolding swapped swap put_node
  owned (some e) chowned made exists target tree = (err e, remove_stage target tree)
  owned none (some e) made exists target tree = (err e, remove_stage target tree)
  owned none none (count, content) exists target tree =
      swapped count target
        (swap exists target (put_node (stage_of target) (some (directory content)) tree))

  -- `extractZIP(a.Path, stage)`, with its answer
  unfoldable pub extracted : Result (ℕ × D) → Bool → Bytes → Tree D → Result ℕ × Tree D
  unfolding owned
  extracted (err e) exists target tree = (err e, remove_stage target tree)
  extracted (ok made) exists target tree = owned m.chown m.chown_tree made exists target tree

  -- `os.Mkdir(stage, 0700)`, with its answer
  unfoldable pub made_stage : Option String → Bool → Bytes → Tree D → Result ℕ × Tree D
  unfolding extracted
  made_stage (some e) exists target tree = (err e, tree)
  made_stage none exists target tree = extracted m.extract exists target tree

  unfoldable pub staged : Bool → Bytes → Tree D → Result ℕ × Tree D
  unfolding made_stage
  staged exists target tree = made_stage m.mkdir exists target tree

  -- Whether something stands at the target, after `os.Stat`
  unfoldable pub target_exists : Bytes → Tree D → Result Bool
  target_exists target tree = elim m.stat [
    | some e ↦ err e
    | none ↦ elim (tree target) [
      | none ↦ ok false
      | some no_directory ↦ err "target exists but is not a directory"
      | some (directory content) ↦ ok true
    ]
  ]

  abbrev static_kind : Result String → Result Bool
  static_kind site_type = site_type >>= λ type.
      refuse_if (not (str_eq type "static"))
        "static release deployment requires a CloudPanel static site"
      >> ok true

  -- `r.Static`: the site has to be a static one, and the deployment is one of its root.
  unfoldable pub kind : DeployRequest → Result Bool
  kind r = if r.static_site then static_kind m.site_type else ok r.root

  abbrev pub policy_of : Bool → String
  policy_of root = if root then "file.deploy_root" else "file.deploy_artifact"

  abbrev pub foreign_owner : DeployRequest → Artifact → Bool
  foreign_owner r a =
      not (str_eq r.owner_token_id "") && not (str_eq a.owner_token_id r.owner_token_id)

  -- With the answer of `s.Artifact(r.ArtifactID)`: the artifact's end and its owner
  unfoldable pub owned_artifact : ℕ → DeployRequest → Option Artifact → Result Artifact
  owned_artifact now r none = err "unknown or expired artifact"
  owned_artifact now r (some a) = do
    refuse_if (ltb (from_rfc3339 a.expires_at) now) "artifact expired"
    refuse_if (foreign_owner r a) "artifact is not owned by this token"
    ok a

  -- The tables of artifacts and uploads after `CleanupArtifacts(time.Now())`, whose error is dropped
  unfoldable pub cleaned : Uploads.Store
  unfolding cleanup
  cleaned = (cleanup m.clean m.cleaned_at m.uploads).1

  -- `s.Artifact(id)`
  unfoldable pub artifact_of : String → Option Artifact
  unfolding cleaned
  artifact_of id = elim m.query_artifact [ some e ↦ none | none ↦ lookup id cleaned.artifacts ]

  -- The target of the deployment
  unfoldable pub target_of : Bool → DeployRequest → Bytes → Result Bytes
  unfolding contained_target
  target_of root r base =
      if not root
      then contained_target m.eval_symlinks base r.target_dir
      else refuse_if (not r.replace || not r.confirm)
          "root deployment requires replace=true and confirm=true"
        >> ok base

  -- What is known before anything changes.
  abbrev pub Plan : Type 0
  Plan = Bool × Artifact × Bytes × Bool × Option String

  unfoldable pub safety_backup : Bool → Result (Option String)
  safety_backup root = if root then (m.safety >>= λ id. ok (some id)) else ok none

  -- The checks ahead of the cleanup
  unfoldable pub admitted : DeployRequest → Result Bool
  unfolding validate_domain kind permits allowed
  admitted r = do
    validate_domain r.domain
    refuse_if (str_eq r.artifact_id "" || ltb 100 (length (codes r.artifact_id)))
        "invalid artifact ID"
    root ← kind r
    refuse_if (not root && bytes_eq r.target_dir []) "target_dir is required"
    refuse_if (not (permits (allowed m.policy_fault m.policy (policy_of root))))
        "operation disabled by server policy"
    ok root

  unfoldable pub plan : ℕ → DeployRequest → Tree D → Result Plan
  unfolding admitted owned_artifact artifact_of target_of target_exists safety_backup
  plan now r tree = do
    root ← admitted r
    a ← owned_artifact now r (artifact_of r.artifact_id)
    base ← m.root
    target ← target_of root r base
    exists ← target_exists target tree
    refuse_if (exists && (not r.replace || not r.confirm))
        "existing target requires replace=true and confirm=true"
    safety ← safety_backup root
    ok (root, a, target, exists, safety)

  abbrev pub deployed : DeployRequest → Plan → Result ℕ × Tree D → Result DeploymentResult × Tree D
  deployed r p (err e, tree) = (err e, tree)
  deployed r (root, a, target, exists, safety) (ok count, tree) = (
    ok (record {
      domain = r.domain;
      artifact_id = a.id;
      digest = a.sha256;
      target_dir = if root then b'/' ∷ [] else r.target_dir;
      files = count;
      replaced = exists;
      safety_backup_id = safety;
    }),
    tree,
  )

  unfoldable pub execute_plan :
      DeployRequest → Tree D → Result Plan → Result DeploymentResult × Tree D
  unfolding staged
  execute_plan r tree (err e) = (err e, tree)
  execute_plan r tree (ok (root, a, target, exists, safety)) =
      deployed r (root, a, target, exists, safety) (staged exists target tree)

  -- The tables of artifacts and uploads when `deployArtifact` returns
  unfoldable pub uploads_left : DeployRequest → Uploads.Store
  unfolding admitted cleaned
  uploads_left r = elim (admitted r) [ err e ↦ m.uploads | ok root ↦ cleaned ]

  -- `deployArtifact(c, s, r)`
  unfoldable pub deploy_artifact : ℕ → DeployRequest → Tree D → Result DeploymentResult × Tree D
  unfolding execute_plan plan
  deploy_artifact now r tree = execute_plan r tree (plan now r tree)
