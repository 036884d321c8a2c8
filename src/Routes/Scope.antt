-- ===== src/Routes/Scope.antt =====
-- What a request of the helper had to pass.
use cloudpanel_gateway.Cron.Runner.{
  CronRequest, Operation, cron_list, cron_create, cron_update, cron_delete,
}
use cloudpanel_gateway.Routes.{
  Method, get, post, patch, delete_method, other_method, may, needed_scope, empty_request, answer,
}
unfoldable use cloudpanel_gateway.Routes.{decode_cron_request, send, with_job, dispatch, site_cron}
unfoldable use cloudpanel_gateway.Names.{validate_domain}
use cloudpanel_gateway.Auth.Tokens.{Token}
use cloudpanel_gateway.Base.{
  ℕ, ◌+◌, String, ◌≡◌, refl, sym, ap, inl, inr, Bool, true, false, not, ◌||◌, Option, none, some,
  List, [], ◌∷◌, arith, ◌==◌, if◌then◌else◌, Bool-cases, Bytes, codes, bytes_eq, bytes_eq→≡, Result,
  is_ok, ok-injective, >>=-eq-ok, ok, err,
}

some-injective : (a b : CronRequest) → some a ≡ some b → a ≡ b
some-injective a b h = cc

module _ (helper : CronRequest → Bool) (denied : ℕ) (sent : CronRequest) where
  send-sent : (o : Result CronRequest) → (send helper denied o).sent ≡ some sent → o ≡ ok sent
  unfolding send
  send-sent (err e) h = cc
  send-sent (ok q) h = elim (Bool-cases (helper q)) [
    | inl e ↦ ap (λ x. ok x) (some-injective q sent (rw (e, send) at h))
    | inr e ↦ ap (λ x. ok x) (some-injective q sent (rw (e, send) at h))
  ]

  module _ (decode : CronRequest → Result CronRequest) where
    decoded_domain :
        (q : CronRequest)
        → (send helper denied (decode_cron_request decode q)).sent ≡ some sent
        → sent.domain ≡ q.domain
    unfolding decode_cron_request
    decoded_domain q h =
        let (body, _, e) = >>=-eq-ok (decode q) _ (send-sent (decode_cron_request decode q) h) in
        sym (ap (λ x. CronRequest.domain x) (ok-injective e))

    job_domain :
        (operation : Operation) (id : Option ℕ) (q : CronRequest)
        → (with_job decode helper denied operation id q).sent ≡ some sent
        → sent.domain ≡ q.domain
    unfolding with_job
    job_domain operation none q h = cc
    job_domain operation (some id) q h = elim (Bool-cases (id == 0)) [
      | inl e ↦ absurd (unsent (rw (e, with_job) at h))
      | inr e ↦
          decoded_domain (record q { operation = operation; job_id = id }) (rw (e, with_job) at h)
    ]
      where
        unsent : (answer 404 denied).sent ≡ some sent → ⊥
        unsent k = cc

    dispatch_domain :
        (parse_int : Bytes → Option ℕ) (method : Method) (rest : List Bytes) (q : CronRequest)
        → (dispatch parse_int decode helper denied method rest q).sent ≡ some sent
        → sent.domain ≡ q.domain
    unfolding dispatch
    dispatch_domain parse_int get [] q h = sym (
        ap (λ x. CronRequest.domain x)
          (ok-injective (send-sent (ok (record q { operation = cron_list })) h)))
    dispatch_domain parse_int post [] q h = decoded_domain (record q { operation = cron_create }) h
    dispatch_domain parse_int patch (id ∷ []) q h = job_domain cron_update (parse_int id) q h
    dispatch_domain parse_int delete_method (id ∷ []) q h =
        job_domain cron_delete (parse_int id) q h
    dispatch_domain parse_int get (a ∷ rest) q h = cc
    dispatch_domain parse_int post (a ∷ rest) q h = cc
    dispatch_domain parse_int patch [] q h = cc
    dispatch_domain parse_int patch (a ∷ b ∷ rest) q h = cc
    dispatch_domain parse_int delete_method [] q h = cc
    dispatch_domain parse_int delete_method (a ∷ b ∷ rest) q h = cc
    dispatch_domain parse_int other_method rest q h = cc

-- The request's operation is a list exactly for the scope that the method needs.
abbrev pub job_scope : Operation → String
job_scope cron_list = "cron:read"
job_scope _ = "cron:write"

module _ (helper : CronRequest → Bool) (denied : ℕ) (sent : CronRequest)
    (decode : CronRequest → Result CronRequest) where
  decoded_operation :
      (q : CronRequest)
      → (send helper denied (decode_cron_request decode q)).sent ≡ some sent
      → sent.operation ≡ q.operation
  unfolding decode_cron_request
  decoded_operation q h =
      let (body, _, e) =
        >>=-eq-ok (decode q) _ (send-sent helper denied sent (decode_cron_request decode q) h) in
      sym (ap (λ x. CronRequest.operation x) (ok-injective e))

  job_operation :
      (operation : Operation) (id : Option ℕ) (q : CronRequest)
      → (with_job decode helper denied operation id q).sent ≡ some sent
      → sent.operation ≡ operation
  unfolding with_job
  job_operation operation none q h = cc
  job_operation operation (some id) q h =
      cases (id == 0) (decoded_operation (record q { operation = operation; job_id = id })) h
    where
      cases :
          (b : Bool)
          → ((send helper denied (
                  decode_cron_request decode
                    (record q { operation = operation; job_id = id }))).sent
                ≡ some sent
              → sent.operation ≡ operation)
          → (if b
              then answer 404 denied
              else send helper denied (
                  decode_cron_request decode
                    (record q { operation = operation; job_id = id }))).sent
            ≡ some sent
          → sent.operation ≡ operation
      cases true f k = cc
      cases false f k = f k

  pub dispatch_operation :
      (parse_int : Bytes → Option ℕ) (method : Method) (rest : List Bytes) (q : CronRequest)
      → (dispatch parse_int decode helper denied method rest q).sent ≡ some sent
      → job_scope sent.operation ≡ needed_scope method
  unfolding dispatch
  dispatch_operation parse_int get [] q h =
      rw
        (sym (
          ap (λ x. CronRequest.operation x)
            (ok-injective
              (send-sent helper denied sent (ok (record q { operation = cron_list })) h))))
        refl
  dispatch_operation parse_int post [] q h =
      rw (decoded_operation (record q { operation = cron_create }) h) refl
  dispatch_operation parse_int patch (id ∷ []) q h =
      rw (job_operation cron_update (parse_int id) q h) refl
  dispatch_operation parse_int delete_method (id ∷ []) q h =
      rw (job_operation cron_delete (parse_int id) q h) refl
  dispatch_operation parse_int get (a ∷ rest) q h = cc
  dispatch_operation parse_int post (a ∷ rest) q h = cc
  dispatch_operation parse_int patch [] q h = cc
  dispatch_operation parse_int patch (a ∷ b ∷ rest) q h = cc
  dispatch_operation parse_int delete_method [] q h = cc
  dispatch_operation parse_int delete_method (a ∷ b ∷ rest) q h = cc
  dispatch_operation parse_int other_method rest q h = cc

-- The helper is sent a cron request only below `cron-jobs` of a valid domain, only for a token with
-- the scope `cron:read`, for a GET, or `cron:write`, for any other method, and only for that domain,
-- whatever the body names.
pub site_cron_sent :
    (parse_int : Bytes → Option ℕ) (decode : CronRequest → Result CronRequest)
    (helper : CronRequest → Bool) (denied : ℕ) (token : Option Token) (method : Method)
    (name area : Bytes) (rest : List Bytes) (sent : CronRequest)
    → (site_cron parse_int decode helper denied token method (name ∷ area ∷ rest)).sent ≡ some sent
    → (area ≡ codes "cron-jobs")
      × (is_ok (validate_domain name) ≡ true)
      × (may token method ≡ true)
      × (sent.domain ≡ name)
unfolding site_cron
site_cron_sent parse_int decode helper denied token method name area rest sent h =
    elim (Bool-cases lost) [
      | inl e ↦ absurd (unsent (rw (e, site_cron) at h))
      | inr e ↦ elim (Bool-cases (not (may token method))) [
        | inl k ↦ absurd (unsent_denied (rw (e, k, site_cron) at h))
        | inr k ↦ (
          bytes_eq→≡ area (codes "cron-jobs") (ground (arith, e)),
          ground (arith, e),
          ground (arith, k),
          dispatch_domain helper denied sent decode parse_int method rest (empty_request name)
              (rw (e, k, site_cron) at h),
        )
      ]
    ]
  where
    lost : Bool
    lost = not (bytes_eq area (codes "cron-jobs")) || not (is_ok (validate_domain name))

    unsent : (answer 404 denied).sent ≡ some sent → ⊥
    unsent k = cc

    unsent_denied : (answer 403 (denied + 1)).sent ≡ some sent → ⊥
    unsent_denied k = cc

pub site_cron_operation :
    (parse_int : Bytes → Option ℕ) (decode : CronRequest → Result CronRequest)
    (helper : CronRequest → Bool) (denied : ℕ) (token : Option Token) (method : Method)
    (name area : Bytes) (rest : List Bytes) (sent : CronRequest)
    → (site_cron parse_int decode helper denied token method (name ∷ area ∷ rest)).sent ≡ some sent
    → job_scope sent.operation ≡ needed_scope method
unfolding site_cron
site_cron_operation parse_int decode helper denied token method name area rest sent h =
    cases (not (bytes_eq area (codes "cron-jobs")) || not (is_ok (validate_domain name)))
      (not (may token method)) h
  where
    cases :
        (a b : Bool)
        → (if a
            then answer 404 denied
            else if b
            then answer 403 (denied + 1)
            else dispatch parse_int decode helper denied method rest (empty_request name)).sent
          ≡ some sent
        → job_scope sent.operation ≡ needed_scope method
    cases true b k = cc
    cases false true k = cc
    cases false false k =
        dispatch_operation helper denied sent decode parse_int method rest (empty_request name) k
