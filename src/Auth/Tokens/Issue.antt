-- ===== src/Auth/Tokens/Issue.antt =====
-- A token that was issued passes until it expires, with the scopes that it was given.
use cloudpanel_gateway.Base.{
  ℕ, ◌≤◌, String, ◌≡◌, refl, true, false, Option, none, some, List, arith, starts_with, rfc3339,
  from_rfc3339, Bytes, bytes_eq_refl, ok,
}
use cloudpanel_gateway.Auth.Tokens.{
  Row, Token, insert_row, by_digest, scan_token, is_inactive, admit, authenticate, new_row,
  create_token, touch, map_time,
}
use cloudpanel_gateway.Auth.Tokens.Rows.{by_digest-append, by_digest_of_fresh}

module _ (digest : String → Bytes) where
  insert-found :
      (r : Row) (rows rows' : List Row)
      → insert_row r rows ≡ ok rows'
      → by_digest r.digest rows' ≡ some r
  unfolding insert_row
  insert-found r rows rows' h =
      ground
        (arith, by_digest-append r.digest r rows, by_digest_of_fresh r rows, bytes_eq_refl r.digest)

  create-found :
      (now : ℕ) (label : String) (scopes : List String) (expires : Option ℕ) (raw id : String)
      (rows rows' : List Row) (t : Token) (shown : String)
      → create_token digest now label scopes expires (ok raw) (ok id) rows ≡ ok ((t, shown), rows')
      → (by_digest (digest raw) rows' ≡ some (new_row digest now label scopes expires raw id))
        × (shown ≡ raw)
        × (t.id ≡ id)
  unfolding create_token
  create-found now label scopes expires raw id rows rows' t shown h =
      let put = insert-found (new_row digest now label scopes expires raw id) rows in
      (ground (arith, put rows'), ground arith, ground arith)

  -- The stored expiry, in whole seconds, has not passed.
  abbrev pub NotExpired : ℕ → Option ℕ → Type 0
  NotExpired now none = Unit
  NotExpired now (some t) = now ≤ from_rfc3339 (rfc3339 t)

  NotExpired-active :
      (now : ℕ) (r : Row) (expires : Option ℕ)
      → r.revoked_at ≡ none
      → r.expires_at ≡ map_time rfc3339 expires
      → NotExpired now expires
      → is_inactive now (scan_token r) ≡ false
  unfolding is_inactive scan_token
  NotExpired-active now r none e f h = ground arith
  NotExpired-active now r (some t) e f h = ground arith

  -- If `CreateToken` succeeds, then a raw token of the issued form authenticates while its stored
  -- expiry has not passed, as the token with that id and exactly the scopes that were given.
  pub authenticate-create_token :
      (now later : ℕ) (label : String) (scopes : List String) (expires : Option ℕ) (raw id : String)
      (rows rows' : List Row) (t : Token) (shown : String)
      → create_token digest now label scopes expires (ok raw) (ok id) rows ≡ ok ((t, shown), rows')
      → starts_with raw "cp_live_" ≡ true
      → NotExpired later expires
      → (u : Token) × (authenticate digest later shown rows'
          ≡ ok (u, touch (rfc3339 later) id rows'))
        × (u.id ≡ t.id)
        × (u.scopes ≡ scopes)
  unfolding authenticate admit scan_token
  authenticate-create_token now later label scopes expires raw id rows rows' t shown h p live =
      let (found, same, named) =
        create-found now label scopes expires raw id rows rows' t shown h in
      let r = new_row digest now label scopes expires raw id in
      let active = NotExpired-active later r expires refl refl live in
      (scan_token r, ground arith, ground arith, refl)
