-- ===== src/Config/Paths/Restore.antt =====
-- `import` of what `save_tmp` returned, by another user's process: both configurations are taken over.
use mathlib.Core.Path.{subst}
use text.Mathlib.TextLemmas.{append_assoc}
use rustdesk_server_demo.Prelude.{
  ◌≡◌, refl, sym, ap, ◌∙◌, Bool, true, false, ◌||◌, ◌⊎◌, inl, inr, some, String, ◌<>◌, str_eq,
  eq_iff, arith,
}
use rustdesk_server_demo.Disk
use rustdesk_server_demo.Disk.{Inode, Disk, lookup, Copying, whole, Tidy}
use rustdesk_server_demo.Config.Paths.Chain.{
  Touches, copy_of, Names, taken, at_new, at_new2, elsewhere,
}
use rustdesk_server_demo.Config.Paths.Dirs.{
  IsAt, main, main2, saved, saved2, file_lem, file_2_lem, replace-saved, mains-ne, saved-main,
  saved2-main, saved2-main2, saved-saved2,
}
use rustdesk_server_demo.Config.Paths.{User, file_, file, replace_toml, save_tmp, import}
use rustdesk_server_demo.Config.Paths.Texts.{contains_toml}

save_tmp_lem :
    (user : User) (dir : String) (at : IsAt user dir) (disk : Disk)
    → save_tmp user whole whole disk ≡ (
      saved dir,
      Disk.copy whole (Disk.copy whole disk (main2 dir) (saved2 dir)) (main dir) (saved dir),
    )
unfolding save_tmp file
save_tmp_lem user dir at disk =
    ap
      (λ q. (
        file_ user "" <> "_tmp",
        Disk.copy whole (Disk.copy whole disk q (q <> "_tmp")) (file_ user "")
            (file_ user "" <> "_tmp"),
      ))
      (file_2_lem user dir at)
    ∙ ap
        (λ p. (
          p <> "_tmp",
          Disk.copy whole (Disk.copy whole disk (main2 dir) (main2 dir <> "_tmp")) p (p <> "_tmp"),
        ))
        (file_lem user dir at)
    ∙ ap
        (λ q. (
          main dir <> "_tmp",
          Disk.copy whole (Disk.copy whole disk (main2 dir) q) (main dir) (main dir <> "_tmp"),
        ))
        (append_assoc dir "/RustDesk2.toml" "_tmp")
    ∙ ap (λ p. (p, Disk.copy whole (Disk.copy whole disk (main2 dir) (saved2 dir)) (main dir) p))
        (append_assoc dir "/RustDesk.toml" "_tmp")

import_lem :
    (user : User) (dir : String) (at : IsAt user dir) (old : String)
    (plain : contains_toml old ≡ false) (touch : Disk → Disk) (disk : Disk)
    → import user touch whole whole (saved old) disk
      ≡ Disk.copy whole
          (Disk.copy whole (touch disk) (saved old) (main dir))
          (saved2 old)
          (main2 dir)
unfolding import
import_lem user dir at old plain touch disk =
    ap
      (λ p.
        Disk.copy whole (Disk.copy whole (touch disk) (saved old) p) (replace_toml 0 (saved old))
          (file_ user "2"))
      (file_lem user dir at)
    ∙ ap
        (λ q.
          Disk.copy whole (Disk.copy whole (touch disk) (saved old) (main dir)) q (file_ user "2"))
        (replace-saved old plain)
    ∙ ap (Disk.copy whole (Disk.copy whole (touch disk) (saved old) (main dir)) (saved2 old))
        (file_2_lem user dir at)

-- What `import` makes of what `save_tmp` returned, when no copy fails.
abbrev pub imported : User → (Disk → Disk) → String × Disk → Disk
imported user touch (from, d) = import user touch whole whole from d

-- The names under which the two write, by the directories of their users.
abbrev pub is_written : String → String → String → Bool
is_written da db q =
    str_eq (saved2 da) q || (str_eq (saved da) q || (str_eq (main db) q || str_eq (main2 db) q))

module _ (a b : User) (da db : String) (at_a : IsAt a da) (at_b : IsAt b db)
    (plain : contains_toml da ≡ false) (touch : Disk → Disk) (touches : Touches touch (main db))
    (disk : Disk) (tidy : Tidy disk) (i i2 : Inode) (there : lookup disk (main da) ≡ some i)
    (there2 : lookup disk (main2 da) ≡ some i2) where
  abbrev names : Names
  names = record {
    main = main da;
    main2 = main2 da;
    saved = saved da;
    saved2 = saved2 da;
    new = main db;
    new2 = main2 db;
    saved2-main2 = λ e. saved2-main2 da da (sym e);
    saved2-main = λ e. saved2-main da da (sym e);
    saved-main = λ e. saved-main da da (sym e);
    saved-saved2 = saved-saved2 da;
    new-saved = saved-main da db;
    new-saved2 = saved2-main da db;
    new2-saved2 = saved2-main2 da db;
    new2-new = mains-ne db db;
  }

  abbrev end : Disk
  end = taken names touch touches disk tidy i i2 there there2

  end_lem : imported b touch (save_tmp a whole whole disk) ≡ end
  end_lem =
      ap (imported b touch) (save_tmp_lem a da at_a disk) ∙ import_lem b db at_b da plain touch _

  kept : (q : String) → (lookup end q ≡ lookup disk q) ⊎ (is_written da db q ≡ true)
  kept q = by_test (is_written da db q) refl
    where
      by_test :
          (w : Bool)
          → is_written da db q ≡ w
          → (lookup end q ≡ lookup disk q) ⊎ (is_written da db q ≡ true)
      by_test true e = inr e
      by_test false e = inl (
          elsewhere names touch touches disk tidy i i2 there there2 q
            (λ same. ground (arith, eq_iff (saved2 da) q))
            (λ same. ground (arith, eq_iff (saved da) q))
            (λ same. ground (arith, eq_iff (main db) q))
            (λ same. ground (arith, eq_iff (main2 db) q)))

  -- What `import` by one user of the path that `save_tmp` of another returned leaves when no copy fails:
  -- the files of the importing user's two configurations have the contents of the other's, and no other
  -- name is changed but those of the two saved copies. Both users have a directory, the other's without
  -- `.toml` in its path and with both files there, no two names of the disk share a file, and the load
  -- before the copies keeps that and changes at most the file of the first configuration.
  pub import-save_tmp :
      (lookup (imported b touch (save_tmp a whole whole disk)) (file b) ≡ some (copy_of i))
      × (lookup (imported b touch (save_tmp a whole whole disk)) (file_ b "2") ≡ some (copy_of i2))
      × ((q : String)
          → (lookup (imported b touch (save_tmp a whole whole disk)) q ≡ lookup disk q)
            ⊎ (is_written da db q ≡ true))
  import-save_tmp = (
    ap (λ d. lookup d (file b)) end_lem
        ∙ ap (lookup end) (file_lem b db at_b)
        ∙ at_new names touch touches disk tidy i i2 there there2,
    ap (λ d. lookup d (file_ b "2")) end_lem
        ∙ ap (lookup end) (file_2_lem b db at_b)
        ∙ at_new2 names touch touches disk tidy i i2 there there2,
    λ q.
        subst (λ d. (lookup d q ≡ lookup disk q) ⊎ (is_written da db q ≡ true)) (sym end_lem)
          (kept q),
  )
