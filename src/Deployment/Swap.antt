-- ===== src/Deployment/Swap.antt =====
-- What a swap of directories that fails leaves.
use cloudpanel_gateway.Deployment.{
  Machine, Tree, Node, rename, swap, move_old, move_stage, put_back, staged, swapped, owned,
  extracted, made_stage, directory,
}
unfoldable use cloudpanel_gateway.Deployment.{put_node, stage_of, old_of}
use cloudpanel_gateway.Base.{
  ℕ, String, ◌≡◌, refl, sym, ap, ◌∙◌, inl, inr, Bool, true, false, Option, none, some, Bool-cases,
  Bytes, bytes_eq, bytes_eq→≡, bytes_eq_refl, Result, ok, err,
}

-- The three paths of a deployment are apart, and nothing stands where the old directory goes.
pub record IsFresh {D : Type 0} (m : Machine D) (target : Bytes) (tree : Tree D) : Type 0 where
  pub stage_apart : bytes_eq (stage_of m target) target ≡ false
  pub old_apart : bytes_eq (old_of m target) (stage_of m target) ≡ false
  pub target_apart : bytes_eq (old_of m target) target ≡ false
  pub old_free : tree (old_of m target) ≡ none

module _ {D : Type 0} (m : Machine D) (target : Bytes) (tree : Tree D) where
  -- Every path but the staging directory holds what it held.
  pub record IsKept (after : Tree D) : Type 0 where
    pub kept : (p : Bytes) → bytes_eq (stage_of m target) p ≡ false → after p ≡ tree p

  pub put_node-hit :
      (p q : Bytes) (n : Option (Node D)) (t : Tree D) → bytes_eq p q ≡ true → put_node p n t q ≡ n
  unfolding put_node
  put_node-hit p q n t e = rw (e, put_node) refl

  pub put_node-other :
      (p q : Bytes) (n : Option (Node D)) (t : Tree D)
      → bytes_eq p q ≡ false
      → put_node p n t q ≡ t q
  unfolding put_node
  put_node-other p q n t e = rw (e, put_node) refl

  removed_stage-IsKept :
      (after : Tree D)
      → ((p : Bytes) → bytes_eq (stage_of m target) p ≡ false → after p ≡ tree p)
      → IsKept (put_node (stage_of m target) none after)
  removed_stage-IsKept after h = record {
    kept = λ p e. put_node-other (stage_of m target) p none after e ∙ h p e;
  }

  -- The old directory is back at its place.
  renamed_back :
      (n : Option (Node D)) (p : Bytes)
      → IsFresh m target tree
      → bytes_eq (stage_of m target) p ≡ false
      → rename m
          (old_of m target)
          target
          (rename m target (old_of m target) (put_node (stage_of m target) n tree))
          p
        ≡ tree p
  renamed_back n p f e = elim (Bool-cases (bytes_eq target p)) [
    | inl k ↦
        put_node-hit target p _ _ k
        ∙ put_node-hit (old_of m target) (old_of m target) _ _ (bytes_eq_refl (old_of m target))
        ∙ put_node-other (stage_of m target) target n tree f.stage_apart
        ∙ ap tree (bytes_eq→≡ target p k)
    | inr k ↦ elim (Bool-cases (bytes_eq (old_of m target) p)) [
      | inl j ↦
          put_node-other target p _ _ k
          ∙ put_node-hit (old_of m target) p _ _ j
          ∙ sym f.old_free
          ∙ ap tree (bytes_eq→≡ (old_of m target) p j)
      | inr j ↦
          put_node-other target p _ _ k
          ∙ put_node-other (old_of m target) p _ _ j
          ∙ put_node-other (old_of m target) p _ _ j
          ∙ put_node-other target p _ _ k
          ∙ put_node-other (stage_of m target) p n tree e
    ]
  ]

  Unchanged : Tree D → Type 0
  Unchanged after = (p : Bytes) → bytes_eq (stage_of m target) p ≡ false → after p ≡ tree p

  module _ (fresh : IsFresh m target tree) (n : Option (Node D)) (e : String) (after : Tree D) where
    staged_tree : Tree D
    staged_tree = put_node (stage_of m target) n tree

    left :
        (k : String) (t : Tree D)
        → Unchanged t
        → Path (Option String × Tree D) (some k, t) (some e, after)
        → Unchanged after
    unfolding Unchanged
    left k t c g p q = sym (ap (λ z. z.1 p) g) ∙ c p q

    staged-Unchanged : Unchanged staged_tree
    unfolding Unchanged staged_tree
    staged-Unchanged p q = put_node-other (stage_of m target) p n tree q

    move_stage_failed :
        (r b : Option String)
        → b ≡ none
        → m.rename_back ≡ b
        → move_stage m r true target (rename m target (old_of m target) staged_tree)
          ≡ (some e, after)
        → Unchanged after
    unfolding move_stage put_back Unchanged staged_tree
    move_stage_failed none b z y g = cc
    move_stage_failed (some k) (some c) z y g = cc
    move_stage_failed (some k) none z y g =
        left k _
          (λ p q.
            ap (λ w. put_back m w (rename m target (old_of m target) staged_tree) target p) y
            ∙ renamed_back n p fresh q)
          g

    move_old_failed :
        (r : Option String)
        → m.rename_back ≡ none
        → move_old m r target staged_tree ≡ (some e, after)
        → Unchanged after
    unfolding move_old
    move_old_failed (some k) b g = left k staged_tree staged-Unchanged g
    move_old_failed none b g = move_stage_failed m.rename_stage none refl b g

    move_new_failed :
        (r : Option String)
        → move_stage m r false target staged_tree ≡ (some e, after)
        → Unchanged after
    unfolding move_stage
    move_new_failed (some k) g = left k staged_tree staged-Unchanged g
    move_new_failed none g = cc

    swap_failed :
        (exists : Bool)
        → m.rename_back ≡ none
        → swap m exists target staged_tree ≡ (some e, after)
        → Unchanged after
    unfolding swap
    swap_failed true b g = move_old_failed m.rename_old b g
    swap_failed false b g = move_new_failed m.rename_stage g

  module _ (fresh : IsFresh m target tree) (b : m.rename_back ≡ none) (e : String)
      (after : Tree D) where
    without_stage :
        (t : Tree D)
        → Unchanged t
        → {k : String}
        → Path (Result ℕ × Tree D) (err k, put_node (stage_of m target) none t) (err e, after)
        → Unchanged after
    unfolding Unchanged
    without_stage t c {k} g p q =
        sym (ap (λ z. z.1 p) g) ∙ put_node-other (stage_of m target) p none t q ∙ c p q

    unchanged : Unchanged tree
    unfolding Unchanged
    unchanged p q = refl

    swapped_failed :
        (count : ℕ) (n : Option (Node D)) (exists : Bool) (w : Option String × Tree D)
        → swap m exists target (put_node (stage_of m target) n tree) ≡ w
        → swapped m count target w ≡ (err e, after)
        → Unchanged after
    unfolding swapped staged_tree
    swapped_failed count n exists (some k, t) h g =
        without_stage t (swap_failed fresh n k t exists b h) g
    swapped_failed count n exists (none, t) h g = cc

    owned_failed :
        (c d : Option String) (made : ℕ × D) (exists : Bool)
        → owned m c d made exists target tree ≡ (err e, after)
        → Unchanged after
    unfolding owned
    owned_failed (some k) d made exists g = without_stage tree unchanged g
    owned_failed none (some k) made exists g = without_stage tree unchanged g
    owned_failed none none (count, content) exists g =
        swapped_failed count (some (directory content)) exists _ refl g

    extracted_failed :
        (x : Result (ℕ × D)) (exists : Bool)
        → extracted m x exists target tree ≡ (err e, after)
        → Unchanged after
    unfolding extracted
    extracted_failed (err k) exists g = without_stage tree unchanged g
    extracted_failed (ok made) exists g = owned_failed m.chown m.chown_tree made exists g

    made_stage_failed :
        (d : Option String) (exists : Bool)
        → made_stage m d exists target tree ≡ (err e, after)
        → Unchanged after
    unfolding made_stage Unchanged
    made_stage_failed (some k) exists g p q = sym (ap (λ (z : Result ℕ × Tree D). z.1 p) g)
    made_stage_failed none exists g p q = extracted_failed m.extract exists g p q

    pub staged_failed :
        (exists : Bool)
        → staged m exists target tree ≡ (err e, after)
        → (p : Bytes) → bytes_eq (stage_of m target) p ≡ false
        → after p ≡ tree p
    unfolding staged Unchanged
    staged_failed exists g p q = made_stage_failed m.mkdir exists g p q
