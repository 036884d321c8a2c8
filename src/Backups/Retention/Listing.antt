-- ===== src/Backups/Retention/Listing.antt =====
-- The rows of a listing: the newest first, each row once.
use mathlib.Core.Path.{subst}
use cloudpanel_gateway.Backups.Retention.{Backup, insert_newest}
unfoldable use cloudpanel_gateway.Backups.Retention.{newest_first, delete_id}
use cloudpanel_gateway.Base.{
  ℕ, ◌+◌, ◌≤◌, String, ◌≡◌, refl, sym, ap, ◌∙◌, ◌≢◌, inl, inr, Bool, true, false, List, [], ◌∷◌,
  arith, str_eq, eq_iff, leb, if◌then◌else◌, if_both, All, In,
}

-- The storage that rows take.
abbrev pub size_of : List Backup → ℕ
size_of [] = 0
size_of (b ∷ rows) = b.encrypted_size + size_of rows

abbrev pub Apart : Backup → List Backup → Type 0
Apart b = All (λ c. b.id ≢ c.id)

-- No two rows have the same id.
abbrev pub DistinctIds : List Backup → Type 0
DistinctIds [] = Unit
DistinctIds (b ∷ rows) = Apart b rows × DistinctIds rows

size_of-insert_newest :
    (b : Backup) (rows : List Backup)
    → size_of (insert_newest b rows) ≡ b.encrypted_size + size_of rows
size_of-insert_newest b [] = refl
size_of-insert_newest b (c ∷ rows) = ground (arith, size_of-insert_newest b rows)

pub size_of-newest_first : (rows : List Backup) → size_of (newest_first rows) ≡ size_of rows
unfolding newest_first
size_of-newest_first [] = refl
size_of-newest_first (b ∷ rows) =
    omega (arith, size_of-insert_newest b (newest_first rows), size_of-newest_first rows)

-- What holds of a row and of the rows holds of them in their order.
All-insert_newest :
    (P : Backup → Type 0) (b : Backup) (rows : List Backup)
    → P b
    → All P rows
    → All P (insert_newest b rows)
All-insert_newest P b [] p h = (p, tt)
All-insert_newest P b (c ∷ rows) p (q, h) =
    if_both (All P) (leb c.created_at b.created_at) _ _ (λ e. (p, (q, h)))
      (λ e. (q, All-insert_newest P b rows p h))

pub All-newest_first :
    (P : Backup → Type 0) (rows : List Backup) → All P rows → All P (newest_first rows)
unfolding newest_first
All-newest_first P [] h = tt
All-newest_first P (b ∷ rows) (p, h) =
    All-insert_newest P b (newest_first rows) p (All-newest_first P rows h)

DistinctIds-insert_newest :
    (b : Backup) (rows : List Backup)
    → Apart b rows
    → DistinctIds rows
    → DistinctIds (insert_newest b rows)
DistinctIds-insert_newest b [] a h = (tt, tt)
DistinctIds-insert_newest b (c ∷ rows) (n, a) (m, h) =
    if_both DistinctIds (leb c.created_at b.created_at) _ _ (λ e. ((n, a), (m, h)))
      (λ e. (
        All-insert_newest (λ d. c.id ≢ d.id) b rows (λ k. n (sym k)) m,
        DistinctIds-insert_newest b rows a h,
      ))

pub DistinctIds-newest_first :
    (rows : List Backup) → DistinctIds rows → DistinctIds (newest_first rows)
unfolding newest_first
DistinctIds-newest_first [] h = tt
DistinctIds-newest_first (b ∷ rows) (a, h) =
    DistinctIds-insert_newest b (newest_first rows) (All-newest_first (λ c. b.id ≢ c.id) rows a)
      (DistinctIds-newest_first rows h)

In-insert_newest-here : (b : Backup) (rows : List Backup) → In b (insert_newest b rows)
In-insert_newest-here b [] = inl refl
In-insert_newest-here b (c ∷ rows) =
    if_both (In b) (leb c.created_at b.created_at) _ _ (λ e. inl refl)
      (λ e. inr (In-insert_newest-here b rows))

In-insert_newest : (b c : Backup) (rows : List Backup) → In c rows → In c (insert_newest b rows)
In-insert_newest b c [] h = absurd h
In-insert_newest b c (d ∷ rows) (inl e) =
    if_both (In c) (leb d.created_at b.created_at) _ _ (λ k. inr (inl e)) (λ k. inl e)
In-insert_newest b c (d ∷ rows) (inr h) =
    if_both (In c) (leb d.created_at b.created_at) _ _ (λ k. inr (inr h))
      (λ k. inr (In-insert_newest b c rows h))

pub In-newest_first : (c : Backup) (rows : List Backup) → In c rows → In c (newest_first rows)
unfolding newest_first
In-newest_first c [] h = absurd h
In-newest_first c (b ∷ rows) (inl e) =
    subst (λ d. In d (insert_newest b (newest_first rows))) e
      (In-insert_newest-here b (newest_first rows))
In-newest_first c (b ∷ rows) (inr h) =
    In-insert_newest b c (newest_first rows) (In-newest_first c rows h)

-- A deletion keeps the rows with other ids, adds none, and frees what its row takes.
pub In-delete_id :
    (id : String) (c : Backup) (rows : List Backup)
    → In c rows
    → c.id ≢ id
    → In c (delete_id id rows)
unfolding delete_id
In-delete_id id c [] h n = absurd h
In-delete_id id c (b ∷ rows) (inl e) n =
    if_both (In c) (str_eq b.id id) _ _
      (λ k. absurd (n (ap (λ d. Backup.id d) (sym e) ∙ (eq_iff b.id id).0 k))) (λ k. inl e)
In-delete_id id c (b ∷ rows) (inr h) n =
    if_both (In c) (str_eq b.id id) _ _ (λ k. In-delete_id id c rows h n)
      (λ k. inr (In-delete_id id c rows h n))

pub delete_id-In :
    (id : String) (c : Backup) (rows : List Backup) → In c (delete_id id rows) → In c rows
unfolding delete_id
delete_id-In id c [] h = absurd h
delete_id-In id c (b ∷ rows) h = either (str_eq b.id id) (λ k. delete_id-In id c rows k) h
  where
    either :
        (t : Bool)
        → (In c (delete_id id rows) → In c rows)
        → In c (if t then delete_id id rows else b ∷ delete_id id rows)
        → In c (b ∷ rows)
    either true again k = inr (again k)
    either false again (inl e) = inl e
    either false again (inr k) = inr (again k)

delete_id_smaller : (id : String) (rows : List Backup) → size_of (delete_id id rows) ≤ size_of rows
unfolding delete_id
delete_id_smaller id [] = omega arith
delete_id_smaller id (b ∷ rows) = ground (arith, delete_id_smaller id rows)

pub size_of-delete_id :
    (b : Backup) (rows : List Backup)
    → In b rows
    → b.encrypted_size + size_of (delete_id b.id rows) ≤ size_of rows
unfolding delete_id
size_of-delete_id b [] h = absurd h
size_of-delete_id b (c ∷ rows) (inl e) =
    ground (arith, delete_id_smaller b.id rows, eq_iff c.id b.id, e)
size_of-delete_id b (c ∷ rows) (inr h) = ground (arith, size_of-delete_id b rows h)

pub delete_id-ne :
    (id : String) (c : Backup) (rows : List Backup) → In c (delete_id id rows) → c.id ≢ id
unfolding delete_id
delete_id-ne id c [] h = absurd h
delete_id-ne id c (b ∷ rows) h = either (str_eq b.id id) refl (λ k. delete_id-ne id c rows k) h
  where
    either :
        (t : Bool)
        → str_eq b.id id ≡ t
        → (In c (delete_id id rows) → c.id ≢ id)
        → In c (if t then delete_id id rows else b ∷ delete_id id rows)
        → c.id ≢ id
    either true e again k = again k
    either false e again (inl k) = ground (arith, eq_iff b.id id, e, k)
    either false e again (inr k) = again k
