-- ===== src/FramedStream/Reflection.antt =====
-- What `set_key` makes of the two directions of a stream.
use rustdesk_server_demo.Prelude.{◌≡◌, Option, none, some}
use rustdesk_server_demo.Prelude.Endian.{Endian}
use rustdesk_server_demo.Codec
use rustdesk_server_demo.FramedStream.{SecretBox, Secured, FramedStream}

module _ (box : SecretBox) (e : Endian) where
  open box use {Key}

  -- Nothing was opened under the key.
  abbrev Unopened : Key → Option (Secured Key) → Type 0
  Unopened key none = ⊥
  Unopened key (some s) = (key ≡ s.key) × (0 ≡ s.received)
