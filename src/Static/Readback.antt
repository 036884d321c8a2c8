-- ===== src/Static/Readback.antt =====
-- What a later read says of an update.
use mathlib.Core.Path.{subst}
use cloudpanel_gateway.Static.{
  patch_spa_fallback, marker, insert_fallback, patch_managed, needle, patch_unmanaged,
  fallback_head, fallback_tail, execute_routing, commit_update, StaticRequest, read_settings,
  StaticSettings, update_routing, static_revision, execute_static, after_check, routing_of,
  check_static, get_routing,
}
use cloudpanel_gateway.Base.{
  ℕ, ◌+◌, String, ◌≡◌, refl, sym, ap, ◌∙◌, inl, inr, true, false, not, ◌||◌, Option, none, some, [],
  ◌∷◌, ◌++◌, arith, Bool-cases, Option-cases, if-eq-else, Bytes, codes, bytes_eq, has_prefix,
  has_prefix-append, index_of, contains, length, take, drop, Result, Result-cases, ok, err,
}

prefix-contains : (s t : Bytes) → has_prefix s t ≡ true → contains s t ≡ true
prefix-contains [] t h = rw (h, contains, index_of) refl
prefix-contains (c ∷ s) t h = rw (h, contains, index_of) refl

cons-contains : (c : ℕ) (s t : Bytes) → contains s t ≡ true → contains (c ∷ s) t ≡ true
cons-contains c s t h = elim (Bool-cases (has_prefix (c ∷ s) t)) [
  | inl e ↦ prefix-contains (c ∷ s) t e
  | inr e ↦ elim (Option-cases (index_of s t)) [
    | inl n ↦ absurd (missing n)
    | inr (k, n) ↦ rw (e, n, contains, index_of) refl
  ]
]
  where
    none_found : index_of s t ≡ none → contains s t ≡ false
    none_found n = rw (n, contains) refl

    missing : index_of s t ≡ none → ⊥
    missing n = cc (h, none_found n)

index_of-contains : (s t : Bytes) (n : ℕ) → index_of s t ≡ some n → contains s t ≡ true
index_of-contains s t n h = rw (h, contains) refl

contains-middle : (a t b : Bytes) → contains (a ++ t ++ b) t ≡ true
contains-middle [] t b = prefix-contains (t ++ b) t (has_prefix-append t b)
contains-middle (c ∷ a) t b = cons-contains c (a ++ t ++ b) t (contains-middle a t b)

contains-inner : (a h t b : Bytes) → contains (a ++ (h ++ t ++ b)) t ≡ true
contains-inner [] h t b = contains-middle h t b
contains-inner (c ∷ a) h t b = cons-contains c (a ++ (h ++ t ++ b)) t (contains-inner a h t b)

managed-same :
    (vhost updated : Bytes) (start : ℕ)
    → patch_managed vhost true start ≡ ok updated
    → vhost ≡ updated
unfolding patch_managed
managed-same vhost updated start h = elim (Option-cases (index_of (drop start vhost) (10 ∷ []))) [
  | inl n ↦ ground (arith, n, h)
  | inr (line, n) ↦ elim (Option-cases (index_of (drop (line + (start + 1)) vhost) (10 ∷ []))) [
    | inl m ↦ ground (arith, n, m, h)
    | inr (try_line, m) ↦ ground (arith, n, m, h)
  ]
]

inserted-contains :
    (vhost updated : Bytes) (idx : ℕ)
    → insert_fallback vhost idx ≡ ok updated
    → contains updated marker ≡ true
unfolding insert_fallback
inserted-contains vhost updated idx h =
    elim (Option-cases (index_of (drop idx vhost) (codes "}"))) [
      | inl n ↦ absurd (closed n)
      | inr (block, n) ↦
          subst (λ x. contains x marker ≡ true) (text block n)
            (contains-inner (take (idx + length needle) vhost) fallback_head marker
              (fallback_tail ++ drop (idx + length needle) vhost))
    ]
  where
    closed : index_of (drop idx vhost) (codes "}") ≡ none → ⊥
    closed n = ground (arith, n, h)

    text :
        (block : ℕ)
        → index_of (drop idx vhost) (codes "}") ≡ some block
        → (take (idx + length needle) vhost
            ++ (fallback_head ++ marker ++ (fallback_tail ++ drop (idx + length needle) vhost)))
          ≡ updated
    text block n = ground (arith, n, h)

patched-contains :
    (vhost updated : Bytes)
    → patch_spa_fallback vhost true ≡ ok updated
    → contains updated marker ≡ true
unfolding patch_spa_fallback patch_unmanaged
patched-contains vhost updated h = elim (Option-cases (index_of vhost marker)) [
  | inl n ↦ elim (Option-cases (index_of vhost needle)) [
    | inl m ↦ absurd (nowhere n m)
    | inr (idx, m) ↦ inserted-contains vhost updated idx (inserted n idx m)
  ]
  | inr (start, n) ↦
      subst (λ x. contains x marker ≡ true) (managed-same vhost updated start (managed start n))
        (index_of-contains vhost marker start n)
]
  where
    nowhere : index_of vhost marker ≡ none → index_of vhost needle ≡ none → ⊥
    nowhere n m = ground (arith, n, m, h)

    inserted :
        index_of vhost marker ≡ none
        → (idx : ℕ) → index_of vhost needle ≡ some idx
        → insert_fallback vhost idx ≡ ok updated
    inserted n idx m = ground (arith, n, m, h)

    managed :
        (start : ℕ)
        → index_of vhost marker ≡ some start
        → patch_managed vhost true start ≡ ok updated
    managed start n = ground (arith, n, h)

patched_update :
    (mac : Bytes → Bytes) (r : StaticRequest) (commit : Option String) (content : Bytes)
    (patched : Result Bytes) (settings : StaticSettings) (vhost : Option Bytes)
    → commit_update mac commit r content patched ≡ (ok settings, vhost)
    → (updated : Bytes) × (patched ≡ ok updated)
      × (vhost ≡ some updated)
      × (record {
        domain = r.domain;
        spa_fallback = r.spa_fallback;
        revision = static_revision mac r.domain updated;
      }
          ≡ settings)
unfolding commit_update
patched_update mac r commit content (err e) settings vhost h = cc
patched_update mac r (some e) content (ok updated) settings vhost h = cc
patched_update mac r none content (ok updated) settings vhost h =
    (updated, refl, ground arith, ground arith)

routing_readback :
    (mac : Bytes → Bytes) (commit : Option String) (r : StaticRequest) (content : Bytes)
    (settings : StaticSettings) (vhost : Option Bytes)
    → r.spa_fallback ≡ true
    → execute_routing update_routing mac commit r content ≡ (ok settings, vhost)
    → (updated : Bytes) × (vhost ≡ some updated) × (read_settings mac r.domain updated ≡ settings)
unfolding execute_routing read_settings commit_update
routing_readback mac commit r content settings vhost enabled h =
    let (updated, p, v, same) =
      patched_update mac r commit content (patch_spa_fallback content r.spa_fallback) settings vhost
        (if-eq-else
          (bytes_eq r.if_match_revision []
            || not (bytes_eq r.if_match_revision (static_revision mac r.domain content)))
          _ _ (λ e. cc) h).1 in
    (
      updated,
      v,
      rw
          (patched-contains content updated
            (subst (λ b. patch_spa_fallback content b ≡ ok updated) enabled p))
          (rw enabled at same),
    )

updated_vhost :
    (mac : Bytes → Bytes) (commit : Option String) (r : StaticRequest) (vhost vhost' : Option Bytes)
    (settings : StaticSettings)
    → r.operation ≡ update_routing
    → r.spa_fallback ≡ true
    → routing_of mac commit r vhost ≡ (ok settings, vhost')
    → (updated : Bytes) × (vhost' ≡ some updated) × (read_settings mac r.domain updated ≡ settings)
unfolding routing_of
updated_vhost mac commit r none vhost' settings op enabled h = cc
updated_vhost mac commit r (some content) vhost' settings op enabled h =
    routing_readback mac commit r content settings vhost' enabled
      (subst (λ o. execute_routing o mac commit r content ≡ (ok settings, vhost')) op h)

read_back :
    (mac : Bytes → Bytes) (commit : Option String) (r : StaticRequest) (vhost : Option Bytes)
    (settings : StaticSettings)
    → ((updated : Bytes) × (vhost ≡ some updated) × (read_settings mac r.domain updated ≡ settings))
    → routing_of mac commit (record r { operation = get_routing }) vhost ≡ (ok settings, vhost)
unfolding routing_of execute_routing
read_back mac commit r vhost settings (updated, v, same) = rw (v, same) refl

-- When a request that enables the fallback succeeds, a read of the routing that follows gives the
-- very settings that the request returned: the fallback shown as enabled, under the new revision.
pub execute_static_readback :
    (mac : Bytes → Bytes) (site_type : Result Bytes) (commit : Option String) (r : StaticRequest)
    (vhost vhost' : Option Bytes) (settings : StaticSettings)
    → r.operation ≡ update_routing
    → r.spa_fallback ≡ true
    → execute_static mac site_type commit r vhost ≡ (ok settings, vhost')
    → execute_static mac site_type commit (record r { operation = get_routing }) vhost'
      ≡ (ok settings, vhost')
unfolding execute_static after_check routing_of check_static execute_routing
execute_static_readback mac site_type commit r vhost vhost' settings op enabled h =
    elim (Result-cases (check_static site_type r)) [
      | inl (_, e) ↦ after e (
          read_back mac commit r vhost' settings
            (updated_vhost mac commit r vhost vhost' settings op enabled (before e)))
      | inr (m, e) ↦ absurd (refused m e)
    ]
  where
    before :
        check_static site_type r ≡ ok tt → routing_of mac commit r vhost ≡ (ok settings, vhost')
    before e = sym (ap (λ c. after_check mac commit r vhost c) e) ∙ h

    after :
        check_static site_type r ≡ ok tt
        → routing_of mac commit (record r { operation = get_routing }) vhost'
          ≡ (ok settings, vhost')
        → after_check mac commit
            (record r { operation = get_routing })
            vhost'
            (check_static site_type r)
          ≡ (ok settings, vhost')
    after e k =
        ap (λ c. after_check mac commit (record r { operation = get_routing }) vhost' c) e ∙ k

    refused : (m : String) → check_static site_type r ≡ err m → ⊥
    refused m e = cc (sym (ap (λ c. after_check mac commit r vhost c) e) ∙ h)
