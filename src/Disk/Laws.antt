-- ===== src/Disk/Laws.antt =====
-- The operations of a disk as laws of `lookup`, and that they keep it tidy.
use mathlib.Core.Option
use rustdesk_server_demo.Prelude.{
  ℕ, zero, suc, ◌<◌, ◌≡◌, refl, sym, ap, ◌∙◌, true, Bool-cases, inl, inr, Option, none, some,
  is_some, String, List, [], ◌∷◌, ◌++◌, str_eq, eq_iff, ◌==◌, if◌then◌else◌, length, get_elem?,
  get_elem?-some, arith,
}
use rustdesk_server_demo.Prelude.HashMap
use rustdesk_server_demo.Prelude.HashMap.{HashMap, get-insert, get-remove}
use rustdesk_server_demo.Disk.{
  Inode, Disk, new_file, modify, inode_of, lookup, create_at, create, extended, append_to,
  rename_at, rename, dated, set_mtime_at, set_mtime, Tidy,
}

get_elem?-modify :
    (is : List Inode) (h j : ℕ) (f : Inode → Inode)
    → get_elem? (modify is h f) j
      ≡ (if h == j then Option.map f (get_elem? is j) else get_elem? is j)
unfolding modify
get_elem?-modify [] h j f = ground arith
get_elem?-modify (i ∷ is) zero zero f = refl
get_elem?-modify (i ∷ is) zero (suc j) f = ground arith
get_elem?-modify (i ∷ is) (suc h) zero f = ground arith
get_elem?-modify (i ∷ is) (suc h) (suc j) f = get_elem?-modify is h j f ∙ ground arith

pub length-modify :
    (is : List Inode) (h : ℕ) (f : Inode → Inode) → length (modify is h f) ≡ length is
unfolding modify
length-modify [] h f = refl
length-modify (i ∷ is) zero f = refl
length-modify (i ∷ is) (suc h) f = ap suc (length-modify is h f)

get_elem?-last : (is : List Inode) (i : Inode) → get_elem? (is ++ i ∷ []) (length is) ≡ some i
get_elem?-last [] i = refl
get_elem?-last (j ∷ is) i = get_elem?-last is i

get_elem?-before :
    (is js : List Inode) (h : ℕ) → h < length is → get_elem? (is ++ js) h ≡ get_elem? is h
get_elem?-before [] js h lt = absurd (omega arith)
get_elem?-before (i ∷ is) js zero lt = refl
get_elem?-before (i ∷ is) js (suc h) lt = get_elem?-before is js h (omega arith)

-- Equal names have equal values.
get_same :
    {V : Type 0} (m : HashMap V) (q p : String)
    → str_eq q p ≡ true
    → HashMap.get m p ≡ HashMap.get m q
get_same m q p e = ap (HashMap.get m) (sym ((eq_iff q p).0 e))

module _ (d : Disk) (tidy : Tidy d) where
  -- A change of one inode is seen under its one name.
  at_modified :
      (q p : String) (h : ℕ) (f : Inode → Inode)
      → HashMap.get d.names q ≡ some h
      → (o : Option ℕ) → HashMap.get d.names p ≡ o
      → inode_of (record d { inodes = modify d.inodes h f }) o
        ≡ (if str_eq q p then Option.map f (inode_of d o) else inode_of d o)
  at_modified q p h f named none e = ground arith
  at_modified q p h f named (some j) e =
      get_elem?-modify d.inodes h j f ∙ ground (arith, eq_iff q p, tidy.one_name q p h named)

  pub lookup-append_to :
      (q p : String) (h : ℕ) (bytes : List ℕ)
      → HashMap.get d.names q ≡ some h
      → lookup (append_to d h bytes) p
        ≡ (if str_eq q p then Option.map (extended bytes) (lookup d p) else lookup d p)
  unfolding lookup append_to
  lookup-append_to q p h bytes named = at_modified q p h (extended bytes) named _ refl

  pub lookup-set_mtime :
      (q p : String) (t : ℕ)
      → lookup (set_mtime d q t) p
        ≡ (if str_eq q p then Option.map (dated t) (lookup d p) else lookup d p)
  unfolding lookup set_mtime
  lookup-set_mtime q p t = by_name _ refl
    where
      by_name :
          (o : Option ℕ)
          → HashMap.get d.names q ≡ o
          → inode_of (set_mtime_at d t o) (HashMap.get (set_mtime_at d t o).names p) ≡ (
              if str_eq q p
              then Option.map (dated t) (inode_of d (HashMap.get d.names p))
              else inode_of d (HashMap.get d.names p))
      by_name none e = elim (Bool-cases (str_eq q p)) [
        | inl same ↦ rw (get_same d.names q p same ∙ e) (ground arith)
        | inr other ↦ rw other refl
      ]
      by_name (some h) e = at_modified q p h (dated t) e _ refl

  pub lookup-create :
      (q p : String) → lookup (create d q).1 p ≡ (if str_eq q p then some new_file else lookup d p)
  unfolding lookup create
  lookup-create q p = by_name _ refl
    where
      before :
          (o : Option ℕ)
          → HashMap.get d.names p ≡ o
          → inode_of (create_at d q none).1 o ≡ inode_of d o
      before none e = refl
      before (some j) e = get_elem?-before d.inodes (new_file ∷ []) j (tidy.in_range p j e)

      by_name :
          (o : Option ℕ)
          → HashMap.get d.names q ≡ o
          → inode_of (create_at d q o).1 (HashMap.get (create_at d q o).1.names p)
            ≡ (if str_eq q p then some new_file else inode_of d (HashMap.get d.names p))
      by_name none e =
          rw (get-insert d.names q p (length d.inodes)) (elim (Bool-cases (str_eq q p)) [
            | inl same ↦ rw same (get_elem?-last d.inodes new_file)
            | inr other ↦ rw other (before (HashMap.get d.names p) refl)
          ])
      by_name (some h) e =
          at_modified q p h (λ i. new_file) e _ refl ∙ elim (Bool-cases (str_eq q p)) [
            | inl same ↦
                let (i, there) = get_elem?-some d.inodes h (tidy.in_range q h e) in
                rw (same, get_same d.names q p same ∙ e, there) refl
            | inr other ↦ rw other refl
          ]

  pub get-create : (q : String) → HashMap.get (create d q).1.names q ≡ some (create d q).0
  unfolding create
  get-create q = by_name _ refl
    where
      by_name :
          (o : Option ℕ)
          → HashMap.get d.names q ≡ o
          → HashMap.get (create_at d q o).1.names q ≡ some (create_at d q o).0
      by_name none e = ground (arith, get-insert d.names q q (length d.inodes), eq_iff q q)
      by_name (some h) e = e

-- The old name is gone if it was there and is another.
pub lookup-rename :
    (d : Disk) (from to p : String)
    → lookup (rename d from to) p ≡ (
        if is_some (HashMap.get d.names from)
        then (if str_eq to p then lookup d from else if str_eq from p then none else lookup d p)
        else lookup d p)
unfolding lookup rename
lookup-rename d from to p = by_name _ refl
  where
    by_name :
        (o : Option ℕ)
        → HashMap.get d.names from ≡ o
        → inode_of (rename_at d from to o) (HashMap.get (rename_at d from to o).names p) ≡ (
            if is_some o
            then (if str_eq to p
                then inode_of d o
                else if str_eq from p
                then none
                else inode_of d (HashMap.get d.names p))
            else inode_of d (HashMap.get d.names p))
    by_name none e = refl
    by_name (some h) e =
        rw (get-insert (HashMap.remove d.names from) to p h)
          (rw (get-remove d.names from p) (ground arith))
