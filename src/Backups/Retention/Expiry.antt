-- ===== src/Backups/Retention/Expiry.antt =====
-- What a run of `prune_backups` without an error leaves.
use mathlib.Core.Path.{subst}
use cloudpanel_gateway.Backups.Retention.Quota.{
  AllIn, AllIn-delete_id, Fits, remove-none, Bounded, shrink-Fits,
}
use cloudpanel_gateway.Zip.{lt_int64}
use cloudpanel_gateway.Backups.Retention.{
  Backup, Store, Faults, Pruned, backup_quota, sub_int64, delete_id, add_int64, newest_first,
  prune_backups, expire,
}
unfoldable use cloudpanel_gateway.Backups.Retention.{remove, removing, within_quota, shrink}
use cloudpanel_gateway.Backups.Retention.Listing.{
  delete_id-In, DistinctIds, size_of, Apart, delete_id-ne, size_of-delete_id,
  DistinctIds-newest_first, All-newest_first, In-newest_first, size_of-newest_first,
}
use cloudpanel_gateway.Base.{
  ℕ, ◌+◌, ◌≤◌, ◌<◌, String, ◌≡◌, refl, sym, ap, ◌⊎◌, inl, inr, Option, none, some, List, [], ◌∷◌,
  arith, str_eq, ltb, ltb→lt, Option-cases, elim_both, from_rfc3339, all, All, In, All-In,
}

-- No row is added.
Within : List Backup → Pruned → Type 0
Within rows p = (c : Backup) → In c p.store.backups → In c rows

removing-Within :
    (f : Faults) (b : Backup) (removed : ℕ) (s : Store) (next : Store → Pruned)
    → ((s' : Store) → Within s'.backups (next s'))
    → Within s.backups (removing removed next (remove f b s))
unfolding Within removing remove
removing-Within f b removed s next again = elim (Option-cases (f.delete_row b.id)) [
  | inl e ↦ rw (e, remove) (λ c h. delete_id-In b.id c s.backups (again _ c h))
  | inr (m, e) ↦ rw (e, remove) (λ c h. h)
]

shrink-Within :
    (f : Faults) (active : List Backup) (removed total : ℕ) (s : Store)
    → Within s.backups (shrink f active removed total s)
unfolding Within shrink within_quota
shrink-Within f [] removed total s = λ c h. h
shrink-Within f (b ∷ older) removed total s =
    elim_both (Within s.backups) (lt_int64 backup_quota total) _ _ (λ k c h. h)
      (λ k.
        elim_both (Within s.backups) (str_eq b.status "completed") _ _
          (λ j. shrink-Within f older removed total s)
          (λ j.
            removing-Within f b removed s _
              (λ s'. shrink-Within f older (removed + 1) (sub_int64 total b.encrypted_size) s')))

-- The backups are expired at `now` that the table says so of, in whole seconds.
abbrev pub Alive : ℕ → Backup → Type 0
Alive now b = now < from_rfc3339 b.expires_at

-- What is left within the quota, and not expired.
pub record IsPruned (now : ℕ) (before after : List Backup) : Type 0 where
  pub within_quota : size_of after ≤ backup_quota
  pub alive : (c : Backup) → In c after → Alive now c
  pub kept : (c : Backup) → In c after → In c before

-- The loop over the listing, with the rows that it has still to see and those that it keeps.
record Listed (now : ℕ) (all active : List Backup) (total : ℕ) (s : Store) : Type 0 where
  distinct : DistinctIds all
  active_distinct : DistinctIds active
  apart : All (λ b. Apart b active) all
  present : AllIn all s.backups
  active_present : AllIn active s.backups
  alive : (c : Backup) → In c active → Alive now c
  covered : (c : Backup) → In c s.backups → In c all ⊎ In c active
  counted : total ≡ size_of active
  stored : size_of s.backups ≤ size_of active + size_of all
  no_wrap : size_of active + size_of all < 9_223_372_036_854_775_808

Apart-cons :
    (b : Backup) (all active : List Backup)
    → Apart b all
    → All (λ c. Apart c active) all
    → All (λ c. Apart c (b ∷ active)) all
Apart-cons b [] active n h = tt
Apart-cons b (c ∷ all) active (m, n) (a, h) = (((λ e. m (sym e)), a), Apart-cons b all active n h)

Listed-kept :
    (now : ℕ) (b : Backup) (all active : List Backup) (total : ℕ) (s : Store)
    → Alive now b
    → Listed now (b ∷ all) active total s
    → Listed now all (b ∷ active) (add_int64 total b.encrypted_size) s
Listed-kept now b all active total s a l = record {
  distinct = l.distinct.1;
  active_distinct = (l.apart.0, l.active_distinct);
  apart = Apart-cons b all active l.distinct.0 l.apart.1;
  present = l.present.1;
  active_present = (l.present.0, l.active_present);
  alive = λ c h. alive c h;
  covered = λ c h. shift c (l.covered c h);
  counted = omega (arith, l.counted, l.no_wrap);
  stored = omega (arith, l.stored);
  no_wrap = omega (arith, l.no_wrap);
}
  where
    alive : (c : Backup) → In c (b ∷ active) → Alive now c
    alive c (inl e) = subst (Alive now) e a
    alive c (inr h) = l.alive c h

    shift : (c : Backup) → In c (b ∷ all) ⊎ In c active → In c all ⊎ In c (b ∷ active)
    shift c (inl (inl e)) = inr (inl e)
    shift c (inl (inr h)) = inl h
    shift c (inr h) = inr (inr h)

Listed-removed :
    (now : ℕ) (b : Backup) (all active : List Backup) (total : ℕ) (s s' : Store)
    → Listed now (b ∷ all) active total s
    → s'.backups ≡ delete_id b.id s.backups
    → Listed now all active total s'
Listed-removed now b all active total s s' l e = record {
  distinct = l.distinct.1;
  active_distinct = l.active_distinct;
  apart = l.apart.1;
  present = rw e (AllIn-delete_id b all s.backups l.distinct.0 l.present.1);
  active_present = rw e (AllIn-delete_id b active s.backups l.apart.0 l.active_present);
  alive = l.alive;
  covered = λ c h. shift c (rw e at h) (l.covered c (delete_id-In b.id c s.backups (rw e at h)));
  counted = l.counted;
  stored = rw e (omega (arith, l.stored, size_of-delete_id b s.backups l.present.0));
  no_wrap = omega (arith, l.no_wrap);
}
  where
    shift :
        (c : Backup)
        → In c (delete_id b.id s.backups)
        → In c (b ∷ all) ⊎ In c active
        → In c all ⊎ In c active
    shift c h (inl (inl k)) =
        absurd (delete_id-ne b.id c s.backups h (ap (λ d. Backup.id d) (sym k)))
    shift c h (inl (inr k)) = inl k
    shift c h (inr k) = inr k

-- A run that ends without an error leaves what is meant.
Prunes : ℕ → List Backup → Pruned → Type 0
Prunes now before p = p.error ≡ none → IsPruned now before p.store.backups

Listed-end :
    (f : Faults) (now : ℕ) (active : List Backup) (removed total : ℕ) (s : Store)
    → Listed now [] active total s
    → Prunes now s.backups (shrink f active removed total s)
unfolding Prunes Fits Within
Listed-end f now active removed total s l e = record {
  within_quota = shrink-Fits f active removed total s bounded e;
  alive = λ c h. alive c (l.covered c (shrink-Within f active removed total s c h));
  kept = shrink-Within f active removed total s;
}
  where
    bounded : Bounded active total s
    bounded = record {
      distinct = l.active_distinct;
      present = l.active_present;
      stored = omega (arith, l.stored, l.counted);
      listed = omega (arith, l.counted);
      no_wrap = omega (arith, l.no_wrap, l.counted);
    }

    alive : (c : Backup) → In c [] ⊎ In c active → Alive now c
    alive c (inl h) = absurd h
    alive c (inr h) = l.alive c h

removing-Prunes :
    (f : Faults) (now : ℕ) (b : Backup) (removed : ℕ) (s : Store) (next : Store → Pruned)
    → ((s' : Store) → s'.backups ≡ delete_id b.id s.backups → Prunes now s'.backups (next s'))
    → Prunes now s.backups (removing removed next (remove f b s))
unfolding Prunes removing
removing-Prunes f now b removed s next again = cases (remove f b s) refl
  where
    cases :
        (w : Option String × Store)
        → remove f b s ≡ w
        → Prunes now s.backups (removing removed next w)
    cases (some m, s') e k = cc
    cases (none, s') e k =
        let same = remove-none f b s s' e in
        let p = again s' same k in
        record {
          within_quota = p.within_quota;
          alive = p.alive;
          kept = λ c h. delete_id-In b.id c s.backups (rw same at (p.kept c h));
        }

expire-Prunes :
    (f : Faults) (now : ℕ) (all : List Backup) (removed total : ℕ) (active : List Backup)
    (s : Store)
    → Listed now all active total s
    → Prunes now s.backups (expire f now all removed total active s)
unfolding expire
expire-Prunes f now [] removed total active s l = Listed-end f now active removed total s l
expire-Prunes f now (b ∷ all) removed total active s l =
    elim_both (Prunes now s.backups) (ltb now (from_rfc3339 b.expires_at)) _ _
      (λ k. removing-Prunes f now b removed s _ (λ s' e.
        expire-Prunes f now all (removed + 1) total active s'
          (Listed-removed now b all active total s s' l e)))
      (λ k.
        expire-Prunes f now all removed (add_int64 total b.encrypted_size) (b ∷ active) s
          (Listed-kept now b all active total s (ltb→lt now (from_rfc3339 b.expires_at) k) l))

started :
    (now : ℕ) (s : Store)
    → DistinctIds s.backups
    → size_of s.backups < 9_223_372_036_854_775_808
    → Listed now (newest_first s.backups) [] 0 s
started now s d h = record {
  distinct = DistinctIds-newest_first s.backups d;
  active_distinct = tt;
  apart = All-newest_first (λ b. Unit) s.backups (All-In (λ b. Unit) s.backups (λ b k. tt));
  present =
      All-newest_first (λ b. In b s.backups) s.backups
        (All-In (λ b. In b s.backups) s.backups (λ b k. k));
  active_present = tt;
  alive = λ c k. absurd k;
  covered = λ c k. inl (In-newest_first c s.backups k);
  counted = refl;
  stored = omega (arith, size_of-newest_first s.backups);
  no_wrap = omega (arith, size_of-newest_first s.backups, h);
}

-- When `pruneBackups` returns no error, the backups that are left take at most 10 GiB, none of them
-- is expired at that time, and each of them was there before. The ids are distinct, as a primary key
-- is, and the sizes add up to less than 2^63.
pub prune_backups-IsPruned :
    (f : Faults) (now : ℕ) (s : Store)
    → DistinctIds s.backups
    → size_of s.backups < 9_223_372_036_854_775_808
    → (prune_backups f now s).error ≡ none
    → IsPruned now s.backups (prune_backups f now s).store.backups
unfolding prune_backups Prunes
prune_backups-IsPruned f now s d h e = elim (Option-cases f.query) [
  | inl k ↦
      rw (k, prune_backups)
        (expire-Prunes f now (newest_first s.backups) 0 0 [] s (started now s d h)
          (rw (k, prune_backups) at e))
  | inr (m, k) ↦ absurd (unread (rw (k, prune_backups) at e))
]
  where
    unread : {m : String} → some m ≡ none → ⊥
    unread k = cc
