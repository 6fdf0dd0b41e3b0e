-- ===== src/Version/Runs.antt =====
-- Runs of `get_version_from_url`, and its theorem at a concrete name.
use rustdesk_server_demo.Prelude.{ℕ, ◌≡◌, refl, List, [], ◌∷◌}
use rustdesk_server_demo.Version.{get_version_from_url}
use rustdesk_server_demo.Version.Names.{version, get_version_from_url-version}

-- "a-1.2.exe" and "a-1.2".
abbrev with_extension : List ℕ
with_extension = 0x61 ∷ 0x2D ∷ 0x31 ∷ 0x2E ∷ 0x32 ∷ 0x2E ∷ 0x65 ∷ 0x78 ∷ 0x65 ∷ []

abbrev bare : List ℕ
bare = 0x61 ∷ 0x2D ∷ 0x31 ∷ 0x2E ∷ 0x32 ∷ []

get_version_from_url-version_example : get_version_from_url with_extension ≡ version with_extension
get_version_from_url-version_example = get_version_from_url-version with_extension

with_extension_run : get_version_from_url with_extension ≡ 0x31 ∷ 0x2E ∷ 0x32 ∷ []
unfolding get_version_from_url
with_extension_run = refl

bare_run : get_version_from_url bare ≡ 0x31 ∷ 0x2E ∷ 0x32 ∷ []
unfolding get_version_from_url
bare_run = refl
