-- ===== src/Deployment/Deployed.antt =====
-- What a deployment requires, and what it leaves when it fails.
use mathlib.Core.Path.{subst}
use cloudpanel_gateway.Uploads.{Artifact}
use cloudpanel_gateway.Uploads.Cleanup.{cleanup}
use cloudpanel_gateway.Auth.Policy.{permits, allowed, permits_only_enabled}
use cloudpanel_gateway.Routes.Requests.{DeployRequest}
use cloudpanel_gateway.Deployment.{
  admitted, artifact_of, cleaned, Machine, Tree, stage_of, deployed, owned_artifact,
  validate_domain, policy_of, target_of, target_exists, foreign_owner, plan, kind, safety_backup,
  Plan, DeploymentResult,
}
unfoldable use cloudpanel_gateway.Deployment.{
  admitted, artifact_of, cleaned, kind, plan, execute_plan, deploy_artifact, staged,
}
use cloudpanel_gateway.Deployment.Swap.{IsFresh, staged_failed}
use cloudpanel_gateway.Deployment.Placed.{IsSwapped, staged-IsSwapped}
use cloudpanel_gateway.Base.{
  lookup, ℕ, ◌≤◌, String, ◌≡◌, refl, sym, ap, ◌∙◌, ◌⊎◌, inl, inr, Bool, true, false, not, ◌&&◌,
  ◌||◌, Option, none, some, [], arith, str_eq, eq_iff, ltb, Option-cases, from_rfc3339, Bytes,
  codes, bytes_eq, length, Result, is_ok, refuse_if->>-eq-ok, ok-injective, >>=-eq-ok, ok, err,
}

module _ {D : Type 0} (m : Machine D) (now : ℕ) (r : DeployRequest) (tree : Tree D) (root : Bool)
    (a : Artifact) (target : Bytes) (exists : Bool) (safety : Option String) where
  deployed_failed :
      (e : String) (after : Tree D) (w : Result ℕ × Tree D)
      → deployed m r (root, a, target, exists, safety) w ≡ (err e, after)
      → w ≡ (err e, after)
  deployed_failed e after (err k, t) h = cc
  deployed_failed e after (ok count, t) h = cc

-- When `deployArtifact` fails after its checks, in whatever call of the file system, every path but
-- the staging directory holds what it held: an old directory is back at the target. The staging path
-- and the path for the old directory are new, and the renaming back does not fail.
pub deploy_artifact_failed :
    {D : Type 0} (m : Machine D) (now : ℕ) (r : DeployRequest) (tree after : Tree D) (root : Bool)
    (a : Artifact) (target : Bytes) (exists : Bool) (safety : Option String) (e : String)
    → plan m now r tree ≡ ok (root, a, target, exists, safety)
    → IsFresh m target tree
    → m.rename_back ≡ none
    → deploy_artifact m now r tree ≡ (err e, after)
    → (p : Bytes) → bytes_eq (stage_of m target) p ≡ false
    → after p ≡ tree p
unfolding deploy_artifact execute_plan
deploy_artifact_failed m now r tree after root a target exists safety e known fresh back h p q =
    staged_failed m target tree fresh back e after exists
      (deployed_failed m now r tree root a target exists safety e after
        (staged m exists target tree) (rw known at h))
      p q

-- What the checks of a deployment passed.
pub record IsPlanned {D : Type 0} (m : Machine D) (now : ℕ) (r : DeployRequest) (tree : Tree D)
    (root : Bool) (a : Artifact) (target : Bytes) (exists : Bool) : Type 0 where
  pub valid : is_ok (validate_domain r.domain) ≡ true
  pub static_root : r.static_site ≡ true → (m.site_type ≡ ok "static") × (root ≡ true)
  pub asked_root : r.static_site ≡ false → root ≡ r.root
  pub answered : m.policy_fault ≡ none
  pub root_enabled : root ≡ true → lookup "file.deploy_root" m.policy ≡ some true
  pub part_enabled : root ≡ false → lookup "file.deploy_artifact" m.policy ≡ some true
  pub found : lookup r.artifact_id (cleanup m.clean m.cleaned_at m.uploads).1.artifacts ≡ some a
  pub live : now ≤ from_rfc3339 a.expires_at
  pub owner : (r.owner_token_id ≡ "") ⊎ (a.owner_token_id ≡ r.owner_token_id)
  pub base : Bytes
  pub base_of : m.root ≡ ok base
  pub place : target_of m root r base ≡ ok target
  pub seen : target_exists m target tree ≡ ok exists
  pub overwrite : (exists ≡ false) ⊎ ((r.replace ≡ true) × (r.confirm ≡ true))

module _ {D : Type 0} (m : Machine D) (now : ℕ) (r : DeployRequest) where
  owned_artifact-ok :
      (found : Option Artifact) (a : Artifact)
      → owned_artifact m now r found ≡ ok a
      → (found ≡ some a)
        × (now ≤ from_rfc3339 a.expires_at)
        × ((r.owner_token_id ≡ "") ⊎ (a.owner_token_id ≡ r.owner_token_id))
  unfolding owned_artifact
  owned_artifact-ok none a h = cc
  owned_artifact-ok (some b) a h =
      let (live, c) =
        refuse_if->>-eq-ok (ltb (from_rfc3339 b.expires_at) now) "artifact expired" _ a h in
      let (own, d) =
        refuse_if->>-eq-ok (foreign_owner m r b) "artifact is not owned by this token" (ok b) a c in
      subst
        (λ x.
          (some b ≡ some x)
          × (now ≤ from_rfc3339 (Artifact.expires_at x))
          × ((r.owner_token_id ≡ "") ⊎ (Artifact.owner_token_id x ≡ r.owner_token_id)))
        (ok-injective d)
        (
          refl,
          ground (arith, live),
          ground (arith, own, eq_iff r.owner_token_id "", eq_iff b.owner_token_id r.owner_token_id),
        )

  artifact_of-some :
      (id : String) (a : Artifact)
      → artifact_of m id ≡ some a
      → lookup id (cleanup m.clean m.cleaned_at m.uploads).1.artifacts ≡ some a
  unfolding artifact_of cleaned
  artifact_of-some id a h = elim (Option-cases m.query_artifact) [
    | inr (e, p) ↦ absurd (missing (rw (p, artifact_of) at h))
    | inl p ↦ rw (p, artifact_of) at h
  ]
    where
      missing : none ≡ some a → ⊥
      missing q = cc

  kind-ok :
      (root : Bool)
      → kind m r ≡ ok root
      → (r.static_site ≡ true → (m.site_type ≡ ok "static") × (root ≡ true))
        × (r.static_site ≡ false → root ≡ r.root)
  unfolding kind
  kind-ok root h = (
    λ yes_static.
        let (type, known, k) = >>=-eq-ok m.site_type _ (rw (yes_static, kind) at h) in
        let (static, j) =
          refuse_if->>-eq-ok (not (str_eq type "static"))
            "static release deployment requires a CloudPanel static site" (ok true) root k in
        (known ∙ ap ok (is_static type static), sym (ok-injective j)),
    λ no_static. sym (ok-injective (rw (no_static, kind) at h)),
  )
    where
      is_static : (type : String) → not (str_eq type "static") ≡ false → type ≡ "static"
      is_static type e = ground (arith, eq_iff type "static")

  permitted-enabled :
      (root : Bool)
      → permits (allowed m.policy_fault m.policy (policy_of m root)) ≡ true
      → (m.policy_fault ≡ none)
        × (root ≡ true → lookup "file.deploy_root" m.policy ≡ some true)
        × (root ≡ false → lookup "file.deploy_artifact" m.policy ≡ some true)
  permitted-enabled true h =
      let (answered, enabled) = permits_only_enabled m.policy_fault m.policy "file.deploy_root" h in
      (answered, λ e. enabled, λ e. cc)
  permitted-enabled false h =
      let (answered, enabled) =
        permits_only_enabled m.policy_fault m.policy "file.deploy_artifact" h in
      (answered, λ e. cc, λ e. enabled)

  admitted-ok :
      (root : Bool)
      → admitted m r ≡ ok root
      → (is_ok (validate_domain r.domain) ≡ true)
        × (kind m r ≡ ok root)
        × (permits (allowed m.policy_fault m.policy (policy_of m root)) ≡ true)
  unfolding admitted
  admitted-ok root h =
      let (_, valid, h1) = >>=-eq-ok (validate_domain r.domain) _ h in
      let (_, h2) =
        refuse_if->>-eq-ok (str_eq r.artifact_id "" || ltb 100 (length (codes r.artifact_id)))
          "invalid artifact ID" _ _ h1 in
      let (root', kind_of, h3) = >>=-eq-ok (kind m r) _ h2 in
      let (_, h4) =
        refuse_if->>-eq-ok (not root' && bytes_eq r.target_dir []) "target_dir is required" _ _
          h3 in
      let (allowed_, h5) =
        refuse_if->>-eq-ok (not (permits (allowed m.policy_fault m.policy (policy_of m root'))))
          "operation disabled by server policy" _ _ h4 in
      subst
        (λ x.
          (is_ok (validate_domain r.domain) ≡ true)
          × (kind m r ≡ ok x)
          × (permits (allowed m.policy_fault m.policy (policy_of m x)) ≡ true))
        (ok-injective h5) (rw valid refl, kind_of, ground (arith, allowed_))

  plan-IsPlanned :
      (tree : Tree D) (root : Bool) (a : Artifact) (target : Bytes) (exists : Bool)
      (safety : Option String)
      → plan m now r tree ≡ ok (root, a, target, exists, safety)
      → IsPlanned m now r tree root a target exists
  unfolding plan
  plan-IsPlanned tree root a target exists safety h =
      let (root', fit, h5) = >>=-eq-ok (admitted m r) _ h in
      let (a', owned, h6) = >>=-eq-ok (owned_artifact m now r (artifact_of m r.artifact_id)) _ h5 in
      let (valid, kind_of, permitted) = admitted-ok root' fit in
      let (static_root, asked_root) = kind-ok root' kind_of in
      let (answered, root_enabled, part_enabled) = permitted-enabled root' permitted in
      let (base, base_of, h7) = >>=-eq-ok m.root _ h6 in
      let (target', place, h8) = >>=-eq-ok (target_of m root' r base) _ h7 in
      let (exists', seen, h9) = >>=-eq-ok (target_exists m target' tree) _ h8 in
      let (over, h10) =
        refuse_if->>-eq-ok (exists' && (not r.replace || not r.confirm))
          "existing target requires replace=true and confirm=true" _ _ h9 in
      let (safety', saved, h11) = >>=-eq-ok (safety_backup m root') _ h10 in
      let (found, live, owner) = owned_artifact-ok (artifact_of m r.artifact_id) a' owned in
      subst (λ (p : Plan m). IsPlanned m now r tree p.0 p.1 p.2 p.3) (ok-injective h11)
        (record {
          valid = valid;
          static_root = static_root;
          asked_root = asked_root;
          answered = answered;
          root_enabled = root_enabled;
          part_enabled = part_enabled;
          found = artifact_of-some r.artifact_id a' found;
          live = live;
          owner = owner;
          base = base;
          base_of = base_of;
          place = place;
          seen = seen;
          overwrite = confirmed exists' r.replace r.confirm over;
        })
    where
      confirmed :
          (x y z : Bool) → (x && (not y || not z)) ≡ false → (x ≡ false) ⊎ ((y ≡ true) × (z ≡ true))
      confirmed x y z e = ground arith

deployed-ok :
    {D : Type 0} (m : Machine D) (r : DeployRequest) (p : Plan m) (w : Result ℕ × Tree D)
    (res : DeploymentResult) (after : Tree D)
    → deployed m r p w ≡ (ok res, after)
    → w ≡ (ok res.files, after)
deployed-ok m r p (err k, t) res after h = cc
deployed-ok m r (root, a, target, exists, safety) (ok count, t) res after h = cc

-- A deployment that succeeds had the policy `file.deploy_root` enabled for the root of a site, which
-- is always the target of a static site's, and `file.deploy_artifact` for another directory; the
-- artifact is the one with the requested id that the cleanup left, it had not expired, and its owner
-- is the one of the request, if the request names one; where something stood at the target, `replace`
-- and `confirm` were set. The target then holds exactly what was unpacked, with the number of its
-- files. The paths of the staging directory and of the old directory are new.
pub deploy_artifact-IsSwapped :
    {D : Type 0} (m : Machine D) (now : ℕ) (r : DeployRequest) (tree after : Tree D) (root : Bool)
    (a : Artifact) (target : Bytes) (exists : Bool) (safety : Option String)
    (res : DeploymentResult)
    → plan m now r tree ≡ ok (root, a, target, exists, safety)
    → IsFresh m target tree
    → deploy_artifact m now r tree ≡ (ok res, after)
    → IsPlanned m now r tree root a target exists × IsSwapped m target res.files after
unfolding deploy_artifact execute_plan
deploy_artifact-IsSwapped m now r tree after root a target exists safety res known fresh h = (
  plan-IsPlanned m now r tree root a target exists safety known,
  staged-IsSwapped m target tree fresh exists res.files after (
      deployed-ok m r (root, a, target, exists, safety) (staged m exists target tree) res after
        (rw known at h)),
)
