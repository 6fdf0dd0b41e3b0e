-- ===== src/Config/Paths/Dirs.antt =====
-- The files of the configuration in a directory, and their names.
use rustdesk_server_demo.Prelude.{
  ◌≡◌, ◌≢◌, refl, sym, ap, ◌∙◌, false, ◌||◌, some, some_inj, String, ◌<>◌, str_eq, eq_iff,
  if◌then◌else◌, arith,
}
use rustdesk_server_demo.Prelude.Strings.{is_empty}
use rustdesk_server_demo.Transfer.Paths.{path_join, is_absolute, ends_in_slash, last_slash}
use rustdesk_server_demo.Config.Peers.Names.{file_stem}
use rustdesk_server_demo.Config.Paths.{
  User, patch, path_in, path, extended, after_last_slash, with_extension, file_, file, replace_toml,
}
use rustdesk_server_demo.Config.Paths.Texts.{
  after_last_slash-append, last_slash-append, contains_toml, replace_toml-append,
}

-- The directory of the user's configuration: not empty, and without a slash at its end.
pub record IsAt (user : User) (dir : String) : Type 0 where
  pub found : String
  pub config_dir : user.config_dir ≡ some found
  pub patched : patch user found ≡ dir
  pub ends_in_name : (is_empty dir || ends_in_slash dir) ≡ false

abbrev pub main : String → String
main dir = dir <> "/RustDesk.toml"

abbrev pub main2 : String → String
main2 dir = dir <> "/RustDesk2.toml"

abbrev pub saved : String → String
saved dir = dir <> "/RustDesk.toml_tmp"

abbrev pub saved2 : String → String
saved2 dir = dir <> "/RustDesk2.toml_tmp"

-- Paths that end in different names differ.
pub paths-ne :
    (s t a b n m : String)
    → after_last_slash a ≡ some n
    → after_last_slash b ≡ some m
    → str_eq n m ≡ false
    → (s <> a) ≢ (t <> b)
paths-ne s t a b n m ha hb differ same =
    let names = some_inj n m (
      sym (after_last_slash-append s a n ha)
      ∙ ap after_last_slash same
      ∙ after_last_slash-append t b m hb) in
    ground (arith, eq_iff n m)

module _ (user : User) (dir : String) (at : IsAt user dir) where
  path_lem : (name : String) → is_absolute name ≡ false → path user name ≡ dir <> ("/" <> name)
  unfolding path path_join
  path_lem name relative =
      ap (path_in user name) at.config_dir
      ∙ ap (λ d. path_join d name) at.patched
      ∙ ap
          (λ b.
            if b
            then name
            else if is_empty dir || ends_in_slash dir
            then dir <> name
            else dir <> ("/" <> name))
          relative
      ∙ ap (λ b. if b then dir <> name else dir <> ("/" <> name)) at.ends_in_name

  pub file_lem : file user ≡ main dir
  unfolding file file_ with_extension after_last_slash last_slash is_absolute file_stem
  file_lem =
      ap with_extension (path_lem "RustDesk" refl)
      ∙ ap (λ o. extended (dir <> "/RustDesk") o (after_last_slash (dir <> "/RustDesk")))
          (last_slash-append dir "/RustDesk" refl)
      ∙ ap (extended (dir <> "/RustDesk") (some dir))
          (after_last_slash-append dir "/RustDesk" "RustDesk" refl)

  pub file_2_lem : file_ user "2" ≡ main2 dir
  unfolding file_ with_extension after_last_slash last_slash is_absolute file_stem
  file_2_lem =
      ap with_extension (path_lem "RustDesk2" refl)
      ∙ ap (λ o. extended (dir <> "/RustDesk2") o (after_last_slash (dir <> "/RustDesk2")))
          (last_slash-append dir "/RustDesk2" refl)
      ∙ ap (extended (dir <> "/RustDesk2") (some dir))
          (after_last_slash-append dir "/RustDesk2" "RustDesk2" refl)

-- The name that `import` makes of the first file's is that of the second.
pub replace-saved :
    (dir : String) → contains_toml dir ≡ false → replace_toml 0 (saved dir) ≡ saved2 dir
unfolding replace_toml
replace-saved dir plain = replace_toml-append dir "RustDesk.toml_tmp" plain

-- The names of the files of one directory, and those of two.
pub mains-ne : (a b : String) → main2 b ≢ main a
unfolding after_last_slash
mains-ne a b = paths-ne b a "/RustDesk2.toml" "/RustDesk.toml" _ _ refl refl refl

pub saved-main : (a b : String) → main b ≢ saved a
unfolding after_last_slash
saved-main a b = paths-ne b a "/RustDesk.toml" "/RustDesk.toml_tmp" _ _ refl refl refl

pub saved2-main : (a b : String) → main b ≢ saved2 a
unfolding after_last_slash
saved2-main a b = paths-ne b a "/RustDesk.toml" "/RustDesk2.toml_tmp" _ _ refl refl refl

pub saved2-main2 : (a b : String) → main2 b ≢ saved2 a
unfolding after_last_slash
saved2-main2 a b = paths-ne b a "/RustDesk2.toml" "/RustDesk2.toml_tmp" _ _ refl refl refl

pub saved-saved2 : (a : String) → saved a ≢ saved2 a
unfolding after_last_slash
saved-saved2 a = paths-ne a a "/RustDesk.toml_tmp" "/RustDesk2.toml_tmp" _ _ refl refl refl
