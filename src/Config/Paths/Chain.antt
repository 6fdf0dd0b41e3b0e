-- ===== src/Config/Paths/Chain.antt =====
-- The four copies of `save_tmp` and `import`, with what happens between them, at any names.
use rustdesk_server_demo.Prelude.{◌≡◌, ◌≢◌, ◌∙◌, none, some, String}
use rustdesk_server_demo.Disk
use rustdesk_server_demo.Disk.{Inode, Disk, lookup, whole, Tidy}
use rustdesk_server_demo.Disk.Copies.{copy-Tidy, copy_target, copy_other}

-- What a load of the configuration at a path may do.
pub record Touches (touch : Disk → Disk) (p : String) : Type 0 where
  pub tidy : (d : Disk) → Tidy d → Tidy (touch d)
  pub other : (d : Disk) → Tidy d → (q : String) → p ≢ q → lookup (touch d) q ≡ lookup d q

abbrev pub copy_of : Inode → Inode
copy_of i = record { bytes = i.bytes; mtime = none }

-- The names of the four copies.
pub record Names : Type 0 where
  pub main : String
  pub main2 : String
  pub saved : String
  pub saved2 : String
  pub new : String
  pub new2 : String
  pub saved2-main2 : saved2 ≢ main2
  pub saved2-main : saved2 ≢ main
  pub saved-main : saved ≢ main
  pub saved-saved2 : saved ≢ saved2
  pub new-saved : new ≢ saved
  pub new-saved2 : new ≢ saved2
  pub new2-saved2 : new2 ≢ saved2
  pub new2-new : new2 ≢ new

module _ (n : Names) (touch : Disk → Disk) (touches : Touches touch n.new) (disk : Disk)
    (tidy : Tidy disk) (i i2 : Inode) (there : lookup disk n.main ≡ some i)
    (there2 : lookup disk n.main2 ≡ some i2) where
  abbrev d1 : Disk
  d1 = Disk.copy whole disk n.main2 n.saved2

  abbrev d2 : Disk
  d2 = Disk.copy whole d1 n.main n.saved

  abbrev d3 : Disk
  d3 = touch d2

  abbrev d4 : Disk
  d4 = Disk.copy whole d3 n.saved n.new

  abbrev pub taken : Disk
  taken = Disk.copy whole d4 n.saved2 n.new2

  tidy1 : Tidy d1
  tidy1 = copy-Tidy disk tidy n.main2 n.saved2 i2 there2 n.saved2-main2

  at_main1 : lookup d1 n.main ≡ some i
  at_main1 =
      copy_other disk tidy n.main2 n.saved2 i2 there2 n.saved2-main2 n.main n.saved2-main ∙ there

  tidy2 : Tidy d2
  tidy2 = copy-Tidy d1 tidy1 n.main n.saved i at_main1 n.saved-main

  at_saved3 : lookup d3 n.saved ≡ some (copy_of i)
  at_saved3 =
      touches.other d2 tidy2 n.saved n.new-saved
      ∙ copy_target d1 tidy1 n.main n.saved i at_main1 n.saved-main

  at_saved2_3 : lookup d3 n.saved2 ≡ some (copy_of i2)
  at_saved2_3 =
      touches.other d2 tidy2 n.saved2 n.new-saved2
      ∙ copy_other d1 tidy1 n.main n.saved i at_main1 n.saved-main n.saved2 n.saved-saved2
      ∙ copy_target disk tidy n.main2 n.saved2 i2 there2 n.saved2-main2

  tidy3 : Tidy d3
  tidy3 = touches.tidy d2 tidy2

  tidy4 : Tidy d4
  tidy4 = copy-Tidy d3 tidy3 n.saved n.new (copy_of i) at_saved3 n.new-saved

  at_saved2_4 : lookup d4 n.saved2 ≡ some (copy_of i2)
  at_saved2_4 =
      copy_other d3 tidy3 n.saved n.new (copy_of i) at_saved3 n.new-saved n.saved2 n.new-saved2
      ∙ at_saved2_3

  pub at_new : lookup taken n.new ≡ some (copy_of i)
  at_new =
      copy_other d4 tidy4 n.saved2 n.new2 (copy_of i2) at_saved2_4 n.new2-saved2 n.new n.new2-new
      ∙ copy_target d3 tidy3 n.saved n.new (copy_of i) at_saved3 n.new-saved

  pub at_new2 : lookup taken n.new2 ≡ some (copy_of i2)
  at_new2 = copy_target d4 tidy4 n.saved2 n.new2 (copy_of i2) at_saved2_4 n.new2-saved2

  pub elsewhere :
      (q : String)
      → n.saved2 ≢ q
      → n.saved ≢ q
      → n.new ≢ q
      → n.new2 ≢ q
      → lookup taken q ≡ lookup disk q
  elsewhere q no_saved2 no_saved no_new no_new2 =
      copy_other d4 tidy4 n.saved2 n.new2 (copy_of i2) at_saved2_4 n.new2-saved2 q no_new2
      ∙ copy_other d3 tidy3 n.saved n.new (copy_of i) at_saved3 n.new-saved q no_new
      ∙ touches.other d2 tidy2 q no_new
      ∙ copy_other d1 tidy1 n.main n.saved i at_main1 n.saved-main q no_saved
      ∙ copy_other disk tidy n.main2 n.saved2 i2 there2 n.saved2-main2 q no_saved2
