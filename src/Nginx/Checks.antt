-- ===== src/Nginx/Checks.antt =====
-- What the checks ahead of the writes of `commitNginxVhost` hand on.
use mathlib.Core.Path.{subst}
use cloudpanel_gateway.Nginx.{NginxCommitRequest, Nginx, NginxFaults, max_content}
unfoldable use cloudpanel_gateway.Names.{validate_domain}
unfoldable use cloudpanel_gateway.Nginx.{
  current_vhost, ensure_cache, checked, check_request, check_global, with_cache,
}
use cloudpanel_gateway.Base.{
  String, ◌≡◌, refl, ap, ◌∙◌, inl, inr, true, false, not, ◌||◌, Option, none, some, arith, ltb,
  ◌==◌, Bool-cases, Bytes, length, refuse_if->>-eq-ok, ok-injective, >>=-eq-ok, ok,
}

-- The files are those of the state `s`.
abbrev pub IsKept : Nginx → Nginx → Type 0
IsKept s t = (t.vhost ≡ s.vhost) × (t.global ≡ s.global)

current_vhost-answer : (o : Option Bytes) (b : Bytes) → current_vhost o ≡ ok b → o ≡ some b
unfolding current_vhost
current_vhost-answer none b h = cc
current_vhost-answer (some c) b h = cc

ensure_cache-IsKept : (o : Option String) (s t : Nginx) → ensure_cache o s ≡ ok t → IsKept s t
unfolding ensure_cache
ensure_cache-IsKept (some e) s t h = cc
ensure_cache-IsKept none s t h = subst (λ x. IsKept s x) (same h) (refl, refl)
  where
    same : ok (record s { cache_path = true }) ≡ ok t → record s { cache_path = true } ≡ t
    same k = cc

with_cache-IsKept :
    (f : NginxFaults) (req : NginxCommitRequest) (s t : Nginx)
    → with_cache f req s ≡ ok t
    → IsKept s t
unfolding with_cache
with_cache-IsKept f req s t h = elim (Bool-cases (not req.ensure_pagespeed_cache_path)) [
  | inl e ↦ subst (λ x. IsKept s x) (same (kept e)) (refl, refl)
  | inr e ↦ ensure_cache-IsKept f.cache s t (made e)
]
  where
    kept : not req.ensure_pagespeed_cache_path ≡ true → ok s ≡ ok t
    kept e = ground arith

    same : ok s ≡ ok t → s ≡ t
    same k = cc

    made : not req.ensure_pagespeed_cache_path ≡ false → ensure_cache f.cache s ≡ ok t
    made e = ground arith

-- What the checks hand on: the vhost of before, and a state with the files of before.
pub checked-IsKept :
    (global_config : Bytes → Option Bytes) (f : NginxFaults) (req : NginxCommitRequest)
    (s t : Nginx) (before : Bytes)
    → checked global_config f req s ≡ ok (before, t)
    → (s.vhost ≡ some before) × IsKept s t
unfolding checked check_request with_cache
checked-IsKept global_config f req s t before h =
    let (b, e₁, h₁) = >>=-eq-ok (check_request req s) _ h in
    let (_, _, h₂) = >>=-eq-ok (check_global global_config f.read_global req s.global) _ h₁ in
    let (u, e₂, h₃) = >>=-eq-ok (with_cache f req s) _ h₂ in
    (
      there b e₁ ∙ ap (λ x. some x) (ap first (ok-injective h₃)),
      subst (λ x. IsKept s x) (ap second (ok-injective h₃)) (with_cache-IsKept f req s u e₂),
    )
  where
    first : Bytes × Nginx → Bytes
    first p = p.0

    second : Bytes × Nginx → Nginx
    second p = p.1

    there : (b : Bytes) → check_request req s ≡ ok b → s.vhost ≡ some b
    there b e =
        let (_, k₁) = refuse_if->>-eq-ok (not (req.version == 1)) _ _ _ e in
        let (_, _, k₂) = >>=-eq-ok (validate_domain req.domain) _ k₁ in
        let (_, k₃) =
          refuse_if->>-eq-ok
            (length req.content == 0
              || ltb max_content (length req.content)
              || ltb max_content (length req.global_content))
            _ _ _ k₂ in
        current_vhost-answer s.vhost b k₃
