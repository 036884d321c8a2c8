-- ===== src/Auth/Tokens/Rows.antt =====
-- What the statements on the `tokens` table do to the row of a digest.
use cloudpanel_gateway.Base.{
  ℕ, String, ◌≡◌, refl, false, not, ◌&&◌, Option, none, some, List, [], ◌∷◌, ◌++◌, arith, str_eq,
  if◌then◌else◌, Bytes, bytes_eq,
}
use cloudpanel_gateway.Auth.Tokens.{Row, is_some, clashes, by_digest, set_revoked, touch}

-- An inserted row is found by its digest, and the others stay what they were.
pub by_digest-append :
    (d : Bytes) (r : Row) (rows : List Row)
    → by_digest d (rows ++ r ∷ []) ≡ elim (by_digest d rows) [
      | none ↦ if bytes_eq r.digest d then some r else none
      | some q ↦ some q
    ]
unfolding by_digest
by_digest-append d r [] = refl
by_digest-append d r (q ∷ rows) = ground (arith, by_digest-append d r rows)

pub by_digest_of_fresh :
    (r : Row) (rows : List Row) → clashes r rows ≡ false → by_digest r.digest rows ≡ none
unfolding by_digest clashes
by_digest_of_fresh r [] h = refl
by_digest_of_fresh r (q ∷ rows) h = ground (arith, by_digest_of_fresh r rows)

-- What an update of single rows makes of the row that is found.
abbrev pub touched : ℕ → String → Row → Row
touched now id r = if str_eq r.id id then record r { last_used_at = some now } else r

abbrev pub revoked : ℕ → String → Row → Row
revoked now id r =
    if str_eq r.id id && not (is_some r.revoked_at) then record r { revoked_at = some now } else r

abbrev pub map_found : (Row → Row) → Option Row → Option Row
map_found f none = none
map_found f (some r) = some (f r)

pub by_digest-touch :
    (d : Bytes) (now : ℕ) (id : String) (rows : List Row)
    → by_digest d (touch now id rows) ≡ map_found (touched now id) (by_digest d rows)
unfolding by_digest touch
by_digest-touch d now id [] = refl
by_digest-touch d now id (r ∷ rows) = ground (arith, by_digest-touch d now id rows)

pub by_digest-set_revoked :
    (d : Bytes) (now : ℕ) (id : String) (rows : List Row)
    → by_digest d (set_revoked now id rows).0 ≡ map_found (revoked now id) (by_digest d rows)
unfolding by_digest set_revoked
by_digest-set_revoked d now id [] = refl
by_digest-set_revoked d now id (r ∷ rows) = ground (arith, by_digest-set_revoked d now id rows)
