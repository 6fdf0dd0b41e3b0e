-- ===== src/Disk/Keeps.antt =====
-- Every operation of a disk keeps it tidy.
use rustdesk_server_demo.Prelude.{
  ℕ, ◌≡◌, refl, Option, none, some, String, List, [], ◌∷◌, eq_iff, length, length-append, arith,
}
use rustdesk_server_demo.Prelude.HashMap
use rustdesk_server_demo.Prelude.HashMap.{get-insert, get-remove}
use rustdesk_server_demo.Disk.{
  Inode, Disk, new_file, modify, create_at, create, append_to, rename_at, rename, dated,
  set_mtime_at, set_mtime, remove_name, create_dir_all, Tidy,
}
use rustdesk_server_demo.Disk.Laws.{length-modify}

module _ (d : Disk) (tidy : Tidy d) where
  modified-Tidy : (h : ℕ) (f : Inode → Inode) → Tidy (record d { inodes = modify d.inodes h f })
  modified-Tidy h f = record {
    in_range = λ p j named. omega (arith, tidy.in_range p j named, length-modify d.inodes h f);
    one_name = tidy.one_name;
  }

  pub append_to-Tidy : (h : ℕ) (bytes : List ℕ) → Tidy (append_to d h bytes)
  unfolding append_to
  append_to-Tidy h bytes = modified-Tidy h _

  pub create_dir_all-Tidy : (p : String) → Tidy (create_dir_all d p)
  unfolding create_dir_all
  create_dir_all-Tidy p = record { in_range = tidy.in_range; one_name = tidy.one_name }

  pub set_mtime-Tidy : (p : String) (t : ℕ) → Tidy (set_mtime d p t)
  unfolding set_mtime
  set_mtime-Tidy p t = by_name (HashMap.get d.names p)
    where
      by_name : (o : Option ℕ) → Tidy (set_mtime_at d t o)
      by_name none = tidy
      by_name (some h) = modified-Tidy h (dated t)

  pub remove_name-Tidy : (p : String) → Tidy (remove_name d p)
  unfolding remove_name
  remove_name-Tidy p = record {
    in_range = λ q h named. ground (arith, get-remove d.names p q, tidy.in_range q h);
    one_name = λ q r h named named'.
        ground (arith, get-remove d.names p q, get-remove d.names p r, tidy.one_name q r h);
  }

  pub create-Tidy : (p : String) → Tidy (create d p).1
  unfolding create
  create-Tidy p = by_name (HashMap.get d.names p)
    where
      by_name : (o : Option ℕ) → Tidy (create_at d p o).1
      by_name (some h) = modified-Tidy h _
      by_name none = record {
        in_range = λ q h named. ground (
          arith,
          get-insert d.names p q (length d.inodes),
          tidy.in_range q h,
          length-append d.inodes (new_file ∷ []),
        );
        one_name = λ q r h named named'. ground (
          arith,
          get-insert d.names p q (length d.inodes),
          get-insert d.names p r (length d.inodes),
          eq_iff p q,
          eq_iff p r,
          tidy.in_range q h,
          tidy.in_range r h,
          tidy.one_name q r h,
        );
      }

  pub rename-Tidy : (from to : String) → Tidy (rename d from to)
  unfolding rename
  rename-Tidy from to = by_name _ refl
    where
      by_name : (o : Option ℕ) → HashMap.get d.names from ≡ o → Tidy (rename_at d from to o)
      by_name none e = tidy
      by_name (some h) e = record {
        in_range = λ q j named. ground (
          arith,
          get-insert (HashMap.remove d.names from) to q h,
          get-remove d.names from q,
          tidy.in_range q j,
          tidy.in_range from j,
        );
        one_name = λ q r j named named'. ground (
          arith,
          get-insert (HashMap.remove d.names from) to q h,
          get-insert (HashMap.remove d.names from) to r h,
          get-remove d.names from q,
          get-remove d.names from r,
          eq_iff to q,
          eq_iff to r,
          eq_iff from q,
          eq_iff from r,
          tidy.one_name q r j,
          tidy.one_name q from j,
          tidy.one_name from r j,
        );
      }
