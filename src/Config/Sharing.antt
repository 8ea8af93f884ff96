-- ===== src/Config/Sharing.antt =====
-- common/config_loader.h, getPath: its first step assigns to a copy of config_, and copies of a node
-- refer to the same node.
use my_taskflow_system.Common.{◌≡◌, ap, ◌∙◌, Option, none, some, [], ◌∷◌, Text}
use my_taskflow_system.Config.Loader.{Yaml, path_parts, walk, get_path}

-- What yaml-cpp's assignment does: both sides refer to the same node afterwards, reading a child
-- keeps that, and nodes that are the same have the same children.
pub record Sharing (Y : Yaml) : Type 1 where
  pub Same : Y.Memory → Y.Node → Y.Node → Type 0
  pub assign_law :
      (n k n' : Y.Node) (m m' : Y.Memory) → Y.assign n k m ≡ (some n', m') → Same m' n k
  pub child_law :
      (n k j : Y.Node) (key : Text) (m : Y.Memory) → Same m n k → Same (Y.child j key m).1 n k
  pub same_law :
      (n k : Y.Node) (key : Text) (m : Y.Memory) → Same m n k → Y.child n key m ≡ Y.child k key m

module _ (Y : Yaml) (sharing : Sharing Y) where
  open Y use {Memory, Node}

  walk-two :
      (config k n' : Node) (part key : Text) (m m1 m2 : Memory)
      → Y.child config part m ≡ (some k, m1)
      → Y.assign config k m1 ≡ (some n', m2)
      → walk Y config (part ∷ key ∷ []) m ≡ Y.child n' key m2
  unfolding walk
  walk-two config k n' part key m m1 m2 below moved =
      ap
        (λ (r : Option Node × Memory). elim r.0 as (λ _. Option Node × Memory) [
          | none ↦ (none, r.1)
          | some n ↦ (elim (Y.assign config n r.1).0 as (λ _. Option Node × Memory) [
            | none ↦ (none, (Y.assign config n r.1).1)
            | some n'' ↦ Y.child n'' key (Y.assign config n r.1).1
          ])
        ])
        below
      ∙ ap
          (λ (r : Option Node × Memory). elim r.0 as (λ _. Option Node × Memory) [
            | none ↦ (none, r.1)
            | some n'' ↦ Y.child n'' key r.1
          ])
          moved

  -- After getPath has read a key of two parts, config_ no longer refers to the root of the file: its
  -- children are those of the node that the first part led to, so the first part of the next key
  -- is looked up inside of that node. The first part has a child, and its assignment succeeds.
  pub get_path_moves :
      {A : Type 0} (conv : Node → Memory → Option A) (config k n' : Node) (path part key : Text)
      (otherwise : A) (m m1 m2 : Memory)
      → path_parts path ≡ part ∷ key ∷ []
      → Y.child config part m ≡ (some k, m1)
      → Y.assign config k m1 ≡ (some n', m2)
      → let after = (get_path Y conv config path otherwise m).1 in
        (next : Text) → Y.child config next after ≡ Y.child k next after
  unfolding get_path
  get_path_moves conv config k n' path part key otherwise m m1 m2 parts below moved next =
      let same = sharing.assign_law config k n' m1 m2 moved in
      let kept = sharing.child_law config k n' key m2 same in
      rw (parts, walk-two config k n' part key m m1 m2 below moved)
        (sharing.same_law config k next (Y.child n' key m2).1 kept)
