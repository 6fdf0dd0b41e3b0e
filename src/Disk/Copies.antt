-- ===== src/Disk/Copies.antt =====
-- What a whole copy leaves.
use mathlib.Core.Path.{subst}
use rustdesk_server_demo.Prelude.{
  ℕ, ◌≡◌, ◌≢◌, refl, sym, ap, ◌∙◌, Option, none, some, String, length, get_elem?, if◌then◌else◌,
  arith,
}
use rustdesk_server_demo.Prelude.HashMap
use rustdesk_server_demo.Prelude.HashMap.{get-insert, str_ne}
use rustdesk_server_demo.Disk.{
  Inode, Disk, new_file, inode_of, lookup, create_at, create, append_to, whole, content,
  copy_opened, copy, Tidy,
}
use rustdesk_server_demo.Disk.Laws.{get-create}
use rustdesk_server_demo.Disk.Keeps.{create-Tidy, append_to-Tidy}
use rustdesk_server_demo.Disk.Moved.{create_self, create_other, append_to_self, append_to_other}

missing-absurd : (i : Inode) → none ≢ some i
missing-absurd i e = ground arith

get-create_other :
    (d : Disk) (q p : String) → q ≢ p → HashMap.get (create d q).1.names p ≡ HashMap.get d.names p
unfolding create
get-create_other d q p differ = by_name (HashMap.get d.names q)
  where
    by_name : (o : Option ℕ) → HashMap.get (create_at d q o).1.names p ≡ HashMap.get d.names p
    by_name none =
        get-insert d.names q p (length d.inodes)
        ∙ ap (λ b. if b then some (length d.inodes) else HashMap.get d.names p) (str_ne q p differ)
    by_name (some h) = refl

module _ (d : Disk) (tidy : Tidy d) (from to : String) (i : Inode) (there : lookup d from ≡ some i)
    (apart : to ≢ from) where
  named : (h : ℕ) × (HashMap.get d.names from ≡ some h)
  unfolding lookup
  named = by_name (HashMap.get d.names from) refl
    where
      by_name :
          (o : Option ℕ)
          → HashMap.get d.names from ≡ o
          → (h : ℕ) × (HashMap.get d.names from ≡ some h)
      by_name none e = absurd (missing-absurd i (sym (ap (inode_of d) e) ∙ there))
      by_name (some h) e = (h, e)

  -- The source is as it was when it is read.
  source : (h : ℕ) → HashMap.get d.names from ≡ some h → get_elem? (create d to).1.inodes h ≡ some i
  unfolding lookup
  source h e =
      sym (ap (inode_of (create d to).1) (get-create_other d to from apart ∙ e))
      ∙ create_other d tidy to from apart
      ∙ there

  copy_lem : copy whole d from to ≡ append_to (create d to).1 (create d to).0 i.bytes
  unfolding copy
  copy_lem =
      let (h, e) = named in
      ap (λ o. copy_opened whole d o to) e
      ∙ ap (λ o. append_to (create d to).1 (create d to).0 (content o)) (source h e)

  pub copy-Tidy : Tidy (copy whole d from to)
  copy-Tidy = subst Tidy (sym copy_lem) (append_to-Tidy (create d to).1 (create-Tidy d tidy to) _ _)

  pub copy_target :
      lookup (copy whole d from to) to ≡ some (record { bytes = i.bytes; mtime = none })
  copy_target =
      ap (λ e. lookup e to) copy_lem
      ∙ append_to_self (create d to).1 (create-Tidy d tidy to) to (create d to).0 i.bytes new_file
          (get-create d tidy to) (create_self d tidy to)

  pub copy_other : (p : String) → to ≢ p → lookup (copy whole d from to) p ≡ lookup d p
  copy_other p differ =
      ap (λ e. lookup e p) copy_lem
      ∙ append_to_other (create d to).1 (create-Tidy d tidy to) to p (create d to).0 i.bytes
          (get-create d tidy to) differ
      ∙ create_other d tidy to p differ
