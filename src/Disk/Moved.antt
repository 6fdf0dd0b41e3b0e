-- ===== src/Disk/Moved.antt =====
-- A file that is renamed and then dated.
use mathlib.Core.Option
use rustdesk_server_demo.Prelude.{
  ℕ, ◌≡◌, ◌≢◌, refl, ap, ◌∙◌, Bool, true, false, Option, none, some, String, List, ◌∷◌,
  if◌then◌else◌,
}
use rustdesk_server_demo.Prelude.HashMap
use rustdesk_server_demo.Prelude.HashMap.{str_refl, str_ne}
use rustdesk_server_demo.Disk.{
  Inode, Disk, new_file, inode_of, lookup, create, append_to, extended, rename, dated, set_mtime,
  create_dir_all, Tidy,
}
use rustdesk_server_demo.Disk.Laws.{
  lookup-create, lookup-append_to, lookup-rename, lookup-set_mtime,
}
use rustdesk_server_demo.Disk.Keeps.{rename-Tidy, set_mtime-Tidy}

abbrev pub moved : Disk → String → String → ℕ → Disk
moved d from to t = set_mtime (rename d from to) to t

module _ (d : Disk) (tidy : Tidy d) (from to : String) (t : ℕ) where
  pub moved-Tidy : Tidy (moved d from to t)
  moved-Tidy = set_mtime-Tidy (rename d from to) (rename-Tidy d tidy from to) to t

  same_if : (b : Bool) (o p : Option Inode) → o ≡ p → (if b then o else p) ≡ p
  same_if true o p e = e
  same_if false o p e = refl

  pub moved-other : (p : String) → from ≢ p → to ≢ p → lookup (moved d from to t) p ≡ lookup d p
  moved-other p not_from not_to =
      lookup-set_mtime (rename d from to) (rename-Tidy d tidy from to) to p t
      ∙ rw (str_ne to p not_to) (
          lookup-rename d from to p
          ∙ rw (str_ne to p not_to) (rw (str_ne from p not_from) (same_if _ _ _ refl)))

  pub moved_to :
      (h : ℕ) (i : Inode)
      → HashMap.get d.names from ≡ some h
      → lookup d from ≡ some i
      → lookup (moved d from to t) to ≡ some (dated t i)
  moved_to h i named there =
      lookup-set_mtime (rename d from to) (rename-Tidy d tidy from to) to to t
      ∙ rw (str_refl to) (ap (Option.map (dated t)) renamed)
    where
      renamed : lookup (rename d from to) to ≡ some i
      renamed = lookup-rename d from to to ∙ rw (str_refl to) (rw named there)

module _ (d : Disk) (tidy : Tidy d) where
  pub create_self : (p : String) → lookup (create d p).1 p ≡ some new_file
  create_self p = lookup-create d tidy p p ∙ rw (str_refl p) refl

  pub create_other : (q p : String) → q ≢ p → lookup (create d q).1 p ≡ lookup d p
  create_other q p differ = lookup-create d tidy q p ∙ rw (str_ne q p differ) refl

  pub append_to_self :
      (p : String) (h : ℕ) (bytes : List ℕ) (i : Inode)
      → HashMap.get d.names p ≡ some h
      → lookup d p ≡ some i
      → lookup (append_to d h bytes) p ≡ some (extended bytes i)
  append_to_self p h bytes i named there =
      lookup-append_to d tidy p p h bytes named
      ∙ rw (str_refl p) (ap (Option.map (extended bytes)) there)

  pub append_to_other :
      (q p : String) (h : ℕ) (bytes : List ℕ)
      → HashMap.get d.names q ≡ some h
      → q ≢ p
      → lookup (append_to d h bytes) p ≡ lookup d p
  append_to_other q p h bytes named differ =
      lookup-append_to d tidy q p h bytes named ∙ rw (str_ne q p differ) refl

pub lookup-create_dir_all : (d : Disk) (q p : String) → lookup (create_dir_all d q) p ≡ lookup d p
unfolding lookup create_dir_all
lookup-create_dir_all d q p = by_name (HashMap.get d.names p)
  where
    by_name : (o : Option ℕ) → inode_of (record d { dirs = q ∷ d.dirs }) o ≡ inode_of d o
    by_name none = refl
    by_name (some h) = refl

pub names-append_to : (d : Disk) (h : ℕ) (bytes : List ℕ) → (append_to d h bytes).names ≡ d.names
unfolding append_to
names-append_to d h bytes = refl
