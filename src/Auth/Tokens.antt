-- ===== src/Auth/Tokens.antt =====
-- The `tokens` table of core.go: `CreateToken`, `ListTokens`, `RevokeToken`, `Authenticate`. The
-- digest of a raw token (HMAC-SHA256 under the pepper) is the argument `digest`; the two random
-- identifiers of `CreateToken` and the time are arguments as well.
pub mod Rows
pub mod Revocation
pub mod Issue
use cloudpanel_gateway.Base.{
  ℕ, ◌+◌, String, len, Bool, true, false, not, ◌&&◌, ◌||◌, Option, none, some, List, [], ◌∷◌, ◌++◌,
  map, str_eq, starts_with, ltb, ◌==◌, if◌then◌else◌, rfc3339, from_rfc3339, Bytes, bytes_eq,
  Result, refuse_if, ◌>>=◌, ◌>>◌, ok, err,
}

-- A row of the table `tokens`. The stored scopes are the list that was encoded as JSON.
pub record Row : Type 0 where
  pub id : String
  pub label : String
  pub digest : Bytes
  pub scopes : List String
  pub expires_at : Option ℕ
  pub revoked_at : Option ℕ
  pub last_used_at : Option ℕ
  pub created_at : ℕ

pub record Token : Type 0 where
  pub id : String
  pub label : String
  pub scopes : List String
  pub expires_at : Option ℕ
  pub revoked : Bool
  pub last_used_at : Option ℕ
  pub created_at : ℕ

abbrev pub is_some {ℓ} : {A : Type ℓ} → Option A → Bool
is_some none = false
is_some (some a) = true

abbrev pub map_time : (ℕ → ℕ) → Option ℕ → Option ℕ
map_time f none = none
map_time f (some t) = some (f t)

-- `scanToken`: the stored times are whole seconds.
unfoldable pub scan_token : Row → Token
scan_token r = record {
  id = r.id;
  label = r.label;
  scopes = r.scopes;
  expires_at = map_time from_rfc3339 r.expires_at;
  revoked = is_some r.revoked_at;
  last_used_at = map_time from_rfc3339 r.last_used_at;
  created_at = from_rfc3339 r.created_at;
}

-- `digest BLOB NOT NULL UNIQUE` and `id TEXT PRIMARY KEY`: the insertion is refused if a row has
-- either.
unfoldable pub clashes : Row → List Row → Bool
clashes r [] = false
clashes r (q ∷ rows) = str_eq q.id r.id || bytes_eq q.digest r.digest || clashes r rows

unfoldable pub insert_row : Row → List Row → Result (List Row)
unfolding clashes
insert_row r rows = if clashes r rows then err "UNIQUE constraint failed" else ok (rows ++ r ∷ [])

-- `SELECT … FROM tokens WHERE digest=?`, the first row
unfoldable pub by_digest : Bytes → List Row → Option Row
by_digest d [] = none
by_digest d (r ∷ rows) = if bytes_eq r.digest d then some r else by_digest d rows

-- `UPDATE tokens SET revoked_at=? WHERE id=? AND revoked_at IS NULL`, with the rows affected
unfoldable pub set_revoked : ℕ → String → List Row → List Row × ℕ
set_revoked now id [] = ([], 0)
set_revoked now id (r ∷ rows) =
    let (rest, n) = set_revoked now id rows in
    if str_eq r.id id && not (is_some r.revoked_at)
    then (record r { revoked_at = some now } ∷ rest, n + 1)
    else (r ∷ rest, n)

-- `UPDATE tokens SET last_used_at=? WHERE id=?`
unfoldable pub touch : ℕ → String → List Row → List Row
touch now id [] = []
touch now id (r ∷ rows) =
    (if str_eq r.id id then record r { last_used_at = some now } else r) ∷ touch now id rows

-- `ListTokens`: every row, newest first. Rows of one second stay in the order of the table.
insert_newest : Row → List Row → List Row
insert_newest r [] = r ∷ []
insert_newest r (q ∷ rows) =
    let rest = insert_newest r rows in
    if ltb r.created_at q.created_at then q ∷ rest else r ∷ q ∷ rows

by_created_at_desc : List Row → List Row
unfolding insert_newest
by_created_at_desc [] = []
by_created_at_desc (r ∷ rows) = insert_newest r (by_created_at_desc rows)

unfoldable pub list_tokens : List Row → List Token
unfolding by_created_at_desc scan_token
list_tokens rows = map scan_token (by_created_at_desc rows)

-- `RevokeToken(id)`
unfoldable pub revoke_token : ℕ → String → List Row → Result (List Row)
unfolding set_revoked
revoke_token now id rows =
    let (rows', n) = set_revoked (rfc3339 now) id rows in
    if n == 0 then err "active token not found" else ok rows'

-- `t.Revoked || (t.ExpiresAt != nil && time.Now().After(*t.ExpiresAt))`
unfoldable pub is_expired : ℕ → Option ℕ → Bool
is_expired now none = false
is_expired now (some t) = ltb t now

unfoldable pub is_inactive : ℕ → Token → Bool
unfolding is_expired
is_inactive now t = t.revoked || is_expired now t.expires_at

module _ (digest : String → Bytes) where
  -- What `Authenticate` does with the row that it found.
  unfoldable pub admit : ℕ → List Row → Option Row → Result (Token × List Row)
  unfolding scan_token is_inactive touch
  admit now rows none = err "invalid bearer token"
  admit now rows (some r) =
      let t = scan_token r in
      if is_inactive now t
      then err "inactive bearer token"
      else ok (t, touch (rfc3339 now) t.id rows)

  -- `Authenticate(raw)`
  unfoldable pub authenticate : ℕ → String → List Row → Result (Token × List Row)
  unfolding admit by_digest
  authenticate now raw rows =
      if starts_with raw "cp_live_"
      then admit now rows (by_digest (digest raw) rows)
      else err "invalid bearer token"

  -- The row of a new token: its digest, never the token itself.
  abbrev pub new_row : ℕ → String → List String → Option ℕ → String → String → Row
  new_row now label scopes expires raw id = record {
    id = id;
    label = label;
    digest = digest raw;
    scopes = scopes;
    expires_at = map_time rfc3339 expires;
    revoked_at = none;
    last_used_at = none;
    created_at = rfc3339 now;
  }

  -- `CreateToken(label, scopes, expires)`: the raw token is returned once. `raw` and `id` are the
  -- two results of `newID`.
  unfoldable pub create_token :
      ℕ
      → String
      → List String
      → Option ℕ
      → Result String
      → Result String
      → List Row
      → Result ((Token × String) × List Row)
  unfolding insert_row
  create_token now label scopes expires raw id rows = do
    refuse_if (ltb (len label) 1 || ltb 80 (len label)) "label must be 1-80 characters"
    raw ← raw
    id ← id
    rows' ← insert_row (new_row now label scopes expires raw id) rows
    ok (
      (
        record {
          id = id;
          label = label;
          scopes = scopes;
          expires_at = expires;
          revoked = false;
          last_used_at = none;
          created_at = now;
        },
        raw,
      ),
      rows',
    )
