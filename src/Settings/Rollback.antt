-- ===== src/Settings/Rollback.antt =====
-- Both changes of `mutateSiteWithCommit`, or neither.
use mathlib.Core.Path.{subst}
use cloudpanel_gateway.Settings.{MutateFaults, SiteState, CommitFault, unchanged, replaced}
unfoldable use cloudpanel_gateway.Settings.{
  commit_tx, commit_vhost, mutate_patched, mutate_vhost, mutate_site,
}
use cloudpanel_gateway.Base.{
  String, ◌≡◌, refl, sym, inl, inr, Option, none, some, Option-cases, Bytes, Result, ok, err,
}

-- No error of the commit comes after the vhost was replaced.
abbrev pub NotReplaced : Option CommitFault → Type 0
NotReplaced none = Unit
NotReplaced (some (unchanged e)) = Unit
NotReplaced (some (replaced e left)) = ⊥

module _ {D : Type 0} where
  -- An error leaves the state as it was; otherwise both changes were made.
  pub data IsAtomic (db_update : D → Result D) (patch : Bytes → Result Bytes) (s : SiteState D)
      : Result (Unit {0}) × SiteState D → Type 0 where
    undone : (e : String) → IsAtomic db_update patch s (err e, s)
    done :
        (before after : Bytes) (db : D)
        → s.vhost ≡ some before
        → patch before ≡ ok after
        → db_update s.db ≡ ok db
        → IsAtomic db_update patch s (ok tt, record { db = db; vhost = some after })

  module _ (f : MutateFaults) (db_update : D → Result D) (patch : Bytes → Result Bytes)
      (s : SiteState D) (back : f.rollback ≡ none) (answered : NotReplaced f.commit) where
    commit_tx-IsAtomic :
        (before after : Bytes) (db : D)
        → s.vhost ≡ some before
        → patch before ≡ ok after
        → db_update s.db ≡ ok db
        → IsAtomic db_update patch s (commit_tx f db before after s)
    unfolding commit_tx
    commit_tx-IsAtomic before after db v p d = elim (Option-cases f.tx_commit) [
      | inl e ↦ rw (e, commit_tx) (done before after db v p d)
      | inr (m, e) ↦ rw (e, back, commit_tx, sym v) (undone m)
    ]

    commit_vhost-IsAtomic :
        (before after : Bytes) (o : Result D)
        → s.vhost ≡ some before
        → patch before ≡ ok after
        → db_update s.db ≡ o
        → IsAtomic db_update patch s (commit_vhost f before after s o)
    unfolding commit_vhost
    commit_vhost-IsAtomic before after (err e) v p d = undone e
    commit_vhost-IsAtomic before after (ok db) v p d = elim (Option-cases f.commit) [
      | inl e ↦ rw (e, commit_vhost) (commit_tx-IsAtomic before after db v p d)
      | inr (unchanged m, e) ↦ rw (e, commit_vhost) (undone m)
      | inr (replaced m left, e) ↦ absurd (subst NotReplaced e answered)
    ]

    patched-IsAtomic :
        (before : Bytes) (o : Result Bytes)
        → s.vhost ≡ some before
        → patch before ≡ o
        → IsAtomic db_update patch s (mutate_patched f db_update before s o)
    unfolding mutate_patched
    patched-IsAtomic before (err e) v p = undone e
    patched-IsAtomic before (ok after) v p = elim (Option-cases f.begin) [
      | inl e ↦
          rw (e, mutate_patched) (commit_vhost-IsAtomic before after (db_update s.db) v p refl)
      | inr (m, e) ↦ rw (e, mutate_patched) (undone m)
    ]

    vhost-IsAtomic :
        (o : Option Bytes)
        → s.vhost ≡ o
        → IsAtomic db_update patch s (mutate_vhost f db_update patch s o)
    unfolding mutate_vhost
    vhost-IsAtomic none v = undone "CloudPanel vhost not found"
    vhost-IsAtomic (some before) v = patched-IsAtomic before (patch before) v refl

    -- If the old vhost can be put back after the transaction fails, and no error of the Nginx commit
    -- comes after the vhost was replaced, then a change of a site either fails and leaves the
    -- database and the vhost as they were, or succeeds with both the database change and the patch.
    pub mutate_site-IsAtomic : IsAtomic db_update patch s (mutate_site f db_update patch s)
    unfolding mutate_site
    mutate_site-IsAtomic = vhost-IsAtomic s.vhost refl
