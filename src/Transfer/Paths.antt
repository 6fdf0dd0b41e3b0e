-- ===== src/Transfer/Paths.antt =====
-- The paths of libs/hbb_common/src/fs.rs, on Unix: what it uses of `Path`, and its tests on names. A
-- `PathBuf` that is made of texts is one, so that `get_string` and `get_path` are the identity.
use Prim.Native.Char.{Char, char}
use Prim.Native.String.{[] as empty, ◌∷◌ as cons}
use rustdesk_server_demo.Prelude.{
  Bool, false, ◌&&◌, ◌||◌, Option, none, some, String, ◌<>◌, ◌≡◌, refl, str_eq, if◌then◌else◌,
}
use rustdesk_server_demo.Prelude.Strings.{is_empty, char_eq, dot}

abbrev pub slash : Char
slash = char 0x2F tt

abbrev pub get_string : String → String
get_string path = path

abbrev pub get_path : String → String
get_path path = path

unfoldable pub is_absolute : String → Bool
is_absolute empty = false
is_absolute (cons c s) = char_eq c slash

unfoldable pub ends_in_slash : String → Bool
ends_in_slash empty = false
ends_in_slash (cons c s) = ends_in_slash s || (is_empty s && char_eq c slash)

-- `Path::join`.
unfoldable pub path_join : String → String → String
unfolding is_absolute ends_in_slash is_empty
path_join path name =
    if is_absolute name
    then name
    else if is_empty path || ends_in_slash path
    then path <> name
    else path <> ("/" <> name)

-- Without the slashes at its end.
unfoldable pub strip_slashes : String → String
unfolding is_empty
strip_slashes empty = ""
strip_slashes (cons c s) =
    let rest = strip_slashes s in if is_empty rest && char_eq c slash then "" else cons c rest

abbrev pub before_slash : Char → String → Option String → Option String
before_slash c s (some head) = some (cons c head)
before_slash c s none = if char_eq c slash then some "" else none

-- The text before the last slash.
unfoldable pub last_slash : String → Option String
last_slash empty = none
last_slash (cons c s) = before_slash c s (last_slash s)

abbrev parent_of : Option String → String
parent_of none = ""
parent_of (some head) = let path = strip_slashes head in if is_empty path then "/" else path

-- `Path::parent`, of a path without `.` in it.
unfoldable pub parent : String → Option String
unfolding strip_slashes last_slash is_empty
parent path =
    let short = strip_slashes path in
    if is_empty short then none else some (parent_of (last_slash short))

abbrev pub after_dot : Char → String → Option String → Option String
after_dot c s (some ext) = some ext
after_dot c s none = if char_eq c dot then some s else none

-- The text after the last dot.
unfoldable pub after_last_dot : String → Option String
after_last_dot empty = none
after_last_dot (cons c s) = after_dot c s (after_last_dot s)

abbrev text_or_empty : Option String → String
text_or_empty none = ""
text_or_empty (some ext) = ext

unfoldable pub get_ext : String → String
unfolding after_last_dot
get_ext name = text_or_empty (after_last_dot name)

unfoldable pub is_compressed_file : String → Bool
unfolding get_ext
is_compressed_file name =
    let ext = get_ext name in
    str_eq ext "xz"
    || str_eq ext "gz"
    || str_eq ext "zip"
    || str_eq ext "7z"
    || str_eq ext "rar"
    || str_eq ext "bz2"
    || str_eq ext "tgz"
    || str_eq ext "png"
    || str_eq ext "jpg"

parent_run : parent "/a//b/" ≡ some "/a"
unfolding parent
parent_run = refl

parent_of_root_run : parent "/" ≡ none
unfolding parent
parent_of_root_run = refl

join_run : path_join "/a" "b" ≡ "/a/b"
unfolding path_join
join_run = refl

get_ext_run : get_ext "x.tar.gz" ≡ "gz"
unfolding get_ext
get_ext_run = refl
