-- ===== src/Auth/Tokens/Revocation.antt =====
-- Revocation is final: no later operation of the store makes a revoked token pass again.
use cloudpanel_gateway.Base.{
  ℕ, String, ◌≡◌, Bool, true, false, Option, none, some, List, [], ◌∷◌, arith, eq_refl, rfc3339,
  Bytes, Result, is_ok, ok, err,
}
use cloudpanel_gateway.Auth.Tokens.{
  Row, Token, is_some, by_digest, revoke_token, authenticate, create_token, admit, new_row, touch,
}
use cloudpanel_gateway.Auth.Tokens.Rows.{by_digest-append, by_digest-set_revoked, by_digest-touch}

-- A digest finds a row, and that row is revoked.
abbrev found_revoked : Option Row → Bool
found_revoked none = false
found_revoked (some r) = is_some r.revoked_at

abbrev pub is_revoked : Bytes → List Row → Bool
is_revoked d rows = found_revoked (by_digest d rows)

-- A call of the store that writes the table.
pub data Call : Type 0 where
  create : ℕ → String → List String → Option ℕ → Result String → Result String → Call
  revoke : ℕ → String → Call
  use_token : ℕ → String → Call

-- The table after a call, whatever it answers.
abbrev after {ℓ} : {A : Type ℓ} → (A → List Row) → Result A → List Row → List Row
after f (ok a) rows = f a
after f (err e) rows = rows

module _ (digest : String → Bytes) where
  pub call : Call → List Row → List Row
  call (create now label scopes expires raw id) rows =
      after (λ (a : (Token × String) × List Row). a.1)
        (create_token digest now label scopes expires raw id rows) rows
  call (revoke now id) rows = after (λ (a : List Row). a) (revoke_token now id rows) rows
  call (use_token now raw) rows =
      after (λ (a : Token × List Row). a.1) (authenticate digest now raw rows) rows

  pub calls : List Call → List Row → List Row
  calls [] rows = rows
  calls (c ∷ cs) rows = calls cs (call c rows)

  create-is_revoked :
      (d : Bytes) (now : ℕ) (label : String) (scopes : List String) (expires : Option ℕ)
      (raw id : Result String) (rows : List Row)
      → is_revoked d rows ≡ true
      → is_revoked d (call (create now label scopes expires raw id) rows) ≡ true
  unfolding call create_token
  create-is_revoked d now label scopes expires (ok raw) (ok id) rows h =
      ground (arith, by_digest-append d (new_row digest now label scopes expires raw id) rows)
  create-is_revoked d now label scopes expires (ok raw) (err e) rows h = ground arith
  create-is_revoked d now label scopes expires (err e) id rows h = ground arith

  touch-is_revoked :
      (d : Bytes) (now : ℕ) (id : String) (rows : List Row)
      → is_revoked d rows ≡ true
      → is_revoked d (touch now id rows) ≡ true
  touch-is_revoked d now id rows h = ground (arith, by_digest-touch d now id rows)

  admit-is_revoked :
      (d : Bytes) (now : ℕ) (rows : List Row) (found : Option Row)
      → is_revoked d rows ≡ true
      → is_revoked d (after (λ (a : Token × List Row). a.1) (admit digest now rows found) rows)
        ≡ true
  unfolding admit
  admit-is_revoked d now rows none h = h
  admit-is_revoked d now rows (some r) h =
      ground (arith, touch-is_revoked d (rfc3339 now) r.id rows)

  call-is_revoked :
      (d : Bytes) (c : Call) (rows : List Row)
      → is_revoked d rows ≡ true
      → is_revoked d (call c rows) ≡ true
  unfolding call revoke_token authenticate
  call-is_revoked d (create now label scopes expires raw id) rows h =
      create-is_revoked d now label scopes expires raw id rows h
  call-is_revoked d (revoke now id) rows h =
      ground (arith, by_digest-set_revoked d (rfc3339 now) id rows)
  call-is_revoked d (use_token now raw) rows h =
      ground (arith, admit-is_revoked d now rows (by_digest (digest raw) rows))

  calls-is_revoked :
      (d : Bytes) (cs : List Call) (rows : List Row)
      → is_revoked d rows ≡ true
      → is_revoked d (calls cs rows) ≡ true
  unfolding calls
  calls-is_revoked d [] rows h = h
  calls-is_revoked d (c ∷ cs) rows h =
      calls-is_revoked d cs (call c rows) (call-is_revoked d c rows h)

  revoke-is_revoked :
      (now : ℕ) (raw : String) (rows rows' : List Row) (r : Row)
      → by_digest (digest raw) rows ≡ some r
      → revoke_token now r.id rows ≡ ok rows'
      → is_revoked (digest raw) rows' ≡ true
  unfolding revoke_token
  revoke-is_revoked now raw rows rows' r found done =
      ground (arith, eq_refl r.id, by_digest-set_revoked (digest raw) (rfc3339 now) r.id rows)

  -- Once `RevokeToken` has succeeded for the id of a raw token's row, `Authenticate` of that raw
  -- token is an error after every later sequence of calls, at every later time.
  pub authenticate-revoke_token :
      (now later : ℕ) (raw : String) (rows rows' : List Row) (r : Row) (cs : List Call)
      → by_digest (digest raw) rows ≡ some r
      → revoke_token now r.id rows ≡ ok rows'
      → is_ok (authenticate digest later raw (calls cs rows')) ≡ false
  unfolding authenticate admit
  authenticate-revoke_token now later raw rows rows' r cs found done =
      let dead =
        calls-is_revoked (digest raw) cs rows'
          (revoke-is_revoked now raw rows rows' r found done) in
      ground arith
