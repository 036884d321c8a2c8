-- ===== src/Backups/Retention/Quota.antt =====
-- The deletion of the oldest backups until the rest is within the quota.
use cloudpanel_gateway.Zip.{lt_int64}
use cloudpanel_gateway.Backups.Retention.{Backup, Store, Faults, backup_quota, sub_int64, Pruned}
unfoldable use cloudpanel_gateway.Backups.Retention.{
  delete_id, remove, removing, within_quota, shrink,
}
use cloudpanel_gateway.Backups.Retention.Listing.{
  size_of, DistinctIds, Apart, In-delete_id, size_of-delete_id,
}
use cloudpanel_gateway.Base.{
  ℕ, ◌+◌, ◌-◌, ◌≤◌, ◌<◌, String, ◌≡◌, refl, sym, inl, inr, Option, none, some, List, [], ◌∷◌, arith,
  str_eq, Option-cases, elim_both, Bytes, all, All, In,
}

pub remove-none :
    (f : Faults) (b : Backup) (s s' : Store)
    → remove f b s ≡ (none, s')
    → s'.backups ≡ delete_id b.id s.backups
unfolding remove
remove-none f b s s' h = elim (Option-cases (f.delete_row b.id)) [
  | inl e ↦ deleted (rw (e, remove) at h)
  | inr (m, e) ↦ absurd (refused (rw (e, remove) at h))
]
  where
    deleted :
        {files : Bytes → Option Bytes}
        → Path
            (Option String × Store)
            (none, record s { backups = delete_id b.id s.backups; files = files })
            (none, s')
        → s'.backups ≡ delete_id b.id s.backups
    deleted k = cc

    refused :
        {m : String} {files : Bytes → Option Bytes}
        → Path (Option String × Store) (some m, record s { files = files }) (none, s')
        → ⊥
    refused k = cc

-- Rows of a store, each once.
abbrev pub AllIn : List Backup → List Backup → Type 0
AllIn rows all = All (λ b. In b all) rows

pub AllIn-delete_id :
    (b : Backup) (rows all : List Backup)
    → Apart b rows
    → AllIn rows all
    → AllIn rows (delete_id b.id all)
AllIn-delete_id b [] all a h = tt
AllIn-delete_id b (c ∷ rows) all (n, a) (m, h) =
    (In-delete_id b.id c all m (λ e. n (sym e)), AllIn-delete_id b rows all a h)

-- The bound that `total` keeps while the oldest backups go.
pub record Bounded (active : List Backup) (total : ℕ) (s : Store) : Type 0 where
  pub distinct : DistinctIds active
  pub present : AllIn active s.backups
  pub stored : size_of s.backups ≤ total
  pub listed : size_of active ≤ total
  pub no_wrap : total < 9_223_372_036_854_775_808

Bounded-kept :
    (b : Backup) (older : List Backup) (total : ℕ) (s : Store)
    → Bounded (b ∷ older) total s
    → Bounded older total s
Bounded-kept b older total s h = record {
  distinct = h.distinct.1;
  present = h.present.1;
  stored = h.stored;
  listed = omega (arith, h.listed);
  no_wrap = h.no_wrap;
}

Bounded-removed :
    (b : Backup) (older : List Backup) (total : ℕ) (s s' : Store)
    → Bounded (b ∷ older) total s
    → s'.backups ≡ delete_id b.id s.backups
    → Bounded older (sub_int64 total b.encrypted_size) s'
Bounded-removed b older total s s' h e = record {
  distinct = h.distinct.1;
  present = rw e (AllIn-delete_id b older s.backups h.distinct.0 h.present.1);
  stored = rw (e, less) (omega (arith, freed, h.stored));
  listed = rw less (omega (arith, h.listed));
  no_wrap = rw less (omega (arith, h.no_wrap));
}
  where
    freed : b.encrypted_size + size_of (delete_id b.id s.backups) ≤ size_of s.backups
    freed = size_of-delete_id b s.backups h.present.0

    less : sub_int64 total b.encrypted_size ≡ total - b.encrypted_size
    less = omega (arith, h.listed, h.no_wrap)

-- A run that ends without an error leaves no more than the quota.
unfoldable pub Fits : Pruned → Type 0
Fits p = p.error ≡ none → size_of p.store.backups ≤ backup_quota

module _ (f : Faults) where
  within_quota-Fits :
      (removed total : ℕ) (s : Store)
      → size_of s.backups ≤ total
      → total < 9_223_372_036_854_775_808
      → Fits (within_quota f removed total s)
  unfolding Fits within_quota
  within_quota-Fits removed total s h k e = ground arith

  pub removing-Fits :
      (b : Backup) (removed : ℕ) (s : Store) (next : Store → Pruned)
      → ((s' : Store) → s'.backups ≡ delete_id b.id s.backups → Fits (next s'))
      → Fits (removing removed next (remove f b s))
  unfolding Fits removing
  removing-Fits b removed s next again = cases (remove f b s) refl
    where
      cases : (w : Option String × Store) → remove f b s ≡ w → Fits (removing removed next w)
      cases (some m, s') e k = cc
      cases (none, s') e k = again s' (remove-none f b s s' e) k

  pub shrink-Fits :
      (active : List Backup) (removed total : ℕ) (s : Store)
      → Bounded active total s
      → Fits (shrink f active removed total s)
  unfolding shrink
  shrink-Fits [] removed total s h = within_quota-Fits removed total s h.stored h.no_wrap
  shrink-Fits (b ∷ older) removed total s h =
      elim_both Fits (lt_int64 backup_quota total) _ _
        (λ k. within_quota-Fits removed total s h.stored h.no_wrap)
        (λ k.
          elim_both Fits (str_eq b.status "completed") _ _
            (λ j. shrink-Fits older removed total s (Bounded-kept b older total s h))
            (λ j. removing-Fits b removed s _ (λ s' e.
              shrink-Fits older (removed + 1) (sub_int64 total b.encrypted_size) s'
                (Bounded-removed b older total s s' h e))))
