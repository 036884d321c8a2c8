-- ===== src/Deployment/Placed.antt =====
-- What a swap of directories that succeeds leaves.
use cloudpanel_gateway.Deployment.{
  Machine, Tree, directory, rename, put_node, stage_of, old_of, move_stage, move_old, swap, swapped,
  owned, extracted, made_stage, staged,
}
use cloudpanel_gateway.Deployment.Swap.{IsFresh, put_node-hit, put_node-other}
use cloudpanel_gateway.Base.{
  ℕ, String, ◌≡◌, refl, sym, ap, ◌∙◌, inl, inr, Bool, true, false, Option, none, some, arith,
  Bool-cases, Bytes, bytes_eq, bytes_eq→≡, bytes_eq_refl, Result, ok, err,
}

-- What stands at the target after a deployment that succeeds.
pub record IsSwapped {D : Type 0} (m : Machine D) (target : Bytes) (count : ℕ) (after : Tree D)
    : Type 0 where
  pub content : D
  pub unpacked : m.extract ≡ ok (count, content)
  pub placed : after target ≡ some (directory content)

bytes_eq_sym : (a b : Bytes) → bytes_eq a b ≡ false → bytes_eq b a ≡ false
bytes_eq_sym a b h = elim (Bool-cases (bytes_eq b a)) [
  | inr e ↦ e
  | inl e ↦ absurd (differs (rw (bytes_eq→≡ b a e) at h))
]
  where
    differs : bytes_eq a a ≡ false → ⊥
    differs k = ground (arith, bytes_eq_refl a)

module _ {D : Type 0} (m : Machine D) (target : Bytes) (tree : Tree D)
    (fresh : IsFresh m target tree) (content : D) where
  with_stage : Tree D
  with_stage = put_node (stage_of m target) (some (directory content)) tree

  Placed : Tree D → Type 0
  Placed after = after target ≡ some (directory content)

  move_stage-Placed :
      (r : Option String) (exists : Bool) (t after : Tree D)
      → t (stage_of m target) ≡ some (directory content)
      → move_stage m r exists target t ≡ (none, after)
      → Placed after
  unfolding move_stage Placed
  move_stage-Placed (some k) true t after c h = cc
  move_stage-Placed (some k) false t after c h = cc
  move_stage-Placed none true t after c h =
      sym (ap (λ (z : Option String × Tree D). z.1 target) h)
      ∙ put_node-other m target tree (old_of m target) target none
          (rename m (stage_of m target) target t) fresh.target_apart
      ∙ put_node-hit m target tree target target (t (stage_of m target))
          (put_node (stage_of m target) none t) (bytes_eq_refl target)
      ∙ c
  move_stage-Placed none false t after c h =
      sym (ap (λ (z : Option String × Tree D). z.1 target) h)
      ∙ put_node-hit m target tree target target (t (stage_of m target))
          (put_node (stage_of m target) none t) (bytes_eq_refl target)
      ∙ c

  stage_holds : with_stage (stage_of m target) ≡ some (directory content)
  unfolding with_stage
  stage_holds =
      put_node-hit m target tree (stage_of m target) (stage_of m target) _ _
        (bytes_eq_refl (stage_of m target))

  move_old-Placed :
      (r : Option String) (after : Tree D)
      → move_old m r target with_stage ≡ (none, after)
      → Placed after
  unfolding move_old
  move_old-Placed (some k) after h = cc
  move_old-Placed none after h =
      move_stage-Placed m.rename_stage true (rename m target (old_of m target) with_stage) after
        (put_node-other m target tree (old_of m target) (stage_of m target) (with_stage target)
            (put_node target none with_stage) fresh.old_apart
          ∙ put_node-other m target tree target (stage_of m target) none with_stage
              (bytes_eq_sym (stage_of m target) target fresh.stage_apart)
          ∙ stage_holds)
        h

  swap-Placed :
      (exists : Bool) (after : Tree D)
      → swap m exists target with_stage ≡ (none, after)
      → Placed after
  unfolding swap
  swap-Placed true after h = move_old-Placed m.rename_old after h
  swap-Placed false after h = move_stage-Placed m.rename_stage false with_stage after stage_holds h

  swapped-Placed :
      (exists : Bool) (count files : ℕ) (w : Option String × Tree D) (after : Tree D)
      → swap m exists target with_stage ≡ w
      → swapped m count target w ≡ (ok files, after)
      → (count ≡ files) × Placed after
  unfolding swapped Placed
  swapped-Placed exists count files (some k, t) after e h = cc
  swapped-Placed exists count files (none, t) after e h = (
    cc,
    sym (ap (λ (z : Result ℕ × Tree D). z.1 target) h)
        ∙ put_node-other m target tree (stage_of m target) target none t fresh.stage_apart
        ∙ swap-Placed exists t e,
  )

module _ {D : Type 0} (m : Machine D) (target : Bytes) (tree : Tree D)
    (fresh : IsFresh m target tree) (exists : Bool) (files : ℕ) (after : Tree D) where
  owned-IsSwapped :
      (c d : Option String) (made : ℕ × D)
      → m.extract ≡ ok made
      → owned m c d made exists target tree ≡ (ok files, after)
      → IsSwapped m target files after
  unfolding owned with_stage Placed
  owned-IsSwapped (some k) d made e h = cc
  owned-IsSwapped none (some k) made e h = cc
  owned-IsSwapped none none (count, content) e h =
      let (same, placed) =
        swapped-Placed m target tree fresh content exists count files _ after refl h in
      record { content = content; unpacked = rw (sym same) e; placed = placed }

  extracted-IsSwapped :
      (x : Result (ℕ × D))
      → m.extract ≡ x
      → extracted m x exists target tree ≡ (ok files, after)
      → IsSwapped m target files after
  unfolding extracted
  extracted-IsSwapped (err k) e h = cc
  extracted-IsSwapped (ok made) e h = owned-IsSwapped m.chown m.chown_tree made e h

  made_stage-IsSwapped :
      (d : Option String)
      → made_stage m d exists target tree ≡ (ok files, after)
      → IsSwapped m target files after
  unfolding made_stage
  made_stage-IsSwapped (some k) h = cc
  made_stage-IsSwapped none h = extracted-IsSwapped m.extract refl h

  pub staged-IsSwapped :
      staged m exists target tree ≡ (ok files, after) → IsSwapped m target files after
  unfolding staged
  staged-IsSwapped h = made_stage-IsSwapped m.mkdir h
