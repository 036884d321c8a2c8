-- ===== src/Settings.antt =====
-- internal/gateway/settings.go: `mutateSiteWithCommit` with the commit and the rollback of
-- `mutateSite`, which change CloudPanel's database and a vhost together. `db_update` is the change
-- that a caller makes inside the transaction, `patch` the one it makes to the vhost.
pub mod Rollback
mod Tests
use cloudpanel_gateway.Base.{String, Option, none, some, Bytes, Result, ok, err}

-- The commit of the vhost is a request over a socket. It may fail before the vhost is replaced, or
-- after it: the answer is lost, or the rollback on the other side failed. `replaced` has what then
-- stands there.
pub data CommitFault : Type 0 where
  unchanged : String → CommitFault
  replaced : String → Bytes → CommitFault

-- What fails: the start and the commit of the transaction, `CallNginxCommit` with the new content,
-- and, with its error dropped, with the old one.
pub record MutateFaults : Type 0 where
  pub begin : Option String
  pub commit : Option CommitFault
  pub tx_commit : Option String
  pub rollback : Option String

pub record SiteState (D : Type 0) : Type 0 where
  pub db : D
  pub vhost : Option Bytes

module _ {D : Type 0} where
  -- `tx.Commit()` of the database `db`, with the new vhost in place
  unfoldable pub commit_tx :
      MutateFaults → D → Bytes → Bytes → SiteState D → Result (Unit {0}) × SiteState D
  commit_tx f db before after s = elim f.tx_commit [
    | none ↦ (ok tt, record { db = db; vhost = some after })
    | some e ↦ elim f.rollback [
      | none ↦ (err e, record s { vhost = some before })
      | some _ ↦ (err e, record s { vhost = some after })
    ]
  ]

  unfoldable pub commit_vhost :
      MutateFaults → Bytes → Bytes → SiteState D → Result D → Result (Unit {0}) × SiteState D
  unfolding commit_tx
  commit_vhost f before after s (err e) = (err e, s)
  commit_vhost f before after s (ok db) = elim f.commit [
    | some (unchanged e) ↦ (err e, s)
    | some (replaced e left) ↦ (err e, record s { vhost = some left })
    | none ↦ commit_tx f db before after s
  ]

  unfoldable pub mutate_patched :
      MutateFaults
      → (D → Result D)
      → Bytes
      → SiteState D
      → Result Bytes
      → Result (Unit {0}) × SiteState D
  unfolding commit_vhost
  mutate_patched f db_update before s (err e) = (err e, s)
  mutate_patched f db_update before s (ok after) = elim f.begin [
    | some e ↦ (err e, s)
    | none ↦ commit_vhost f before after s (db_update s.db)
  ]

  unfoldable pub mutate_vhost :
      MutateFaults
      → (D → Result D)
      → (Bytes → Result Bytes)
      → SiteState D
      → Option Bytes
      → Result (Unit {0}) × SiteState D
  unfolding mutate_patched
  mutate_vhost f db_update patch s none = (err "CloudPanel vhost not found", s)
  mutate_vhost f db_update patch s (some before) =
      mutate_patched f db_update before s (patch before)

  -- `mutateSiteWithCommit(ctx, c, db, site, dbUpdate, patch, commit, rollback)`
  unfoldable pub mutate_site :
      MutateFaults
      → (D → Result D)
      → (Bytes → Result Bytes)
      → SiteState D
      → Result (Unit {0}) × SiteState D
  unfolding mutate_vhost
  mutate_site f db_update patch s = mutate_vhost f db_update patch s s.vhost
