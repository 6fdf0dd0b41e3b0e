-- ===== src/Lib.antt =====
-- rustdesk-server-demo: a rendezvous and relay server for remote desktops, and the library
-- hbb_common that it shares with the clients.
--
-- Clients register an id over UDP. A client that wants to reach another asks over TCP; the server
-- sends the other a relay request over UDP and keeps the stream. The other answers over TCP, the
-- server tells the kept stream, and both connect to the relay port, where bytes are passed on.
--
-- * src/main.rs is `Rendezvous`: `Rendezvous/Message` has the messages of
--   libs/hbb_common/protos/rendezvous.proto, `Rendezvous/Server` the state of `main` and its loops. Each
--   `await` is a phase and each thing that can end one is an event, so that an interleaving of the
--   outside is a list of events. `handle_udp` and the arms of `main` keep their names. The generated
--   parser is a parameter. `Registry`, `Relay`, `Waits`, `Busy` and `Rounds` hold the proofs.
-- * libs/hbb_common/src/bytes_codec.rs is `Codec`, with the operations of `BytesCodec` under their names;
--   a `BytesMut` is a list of bytes, `usize` has 64 bits. `Codec/Header` and `Codec/Frame` describe a frame in
--   arithmetic, `Codec/Stream` a reader that gets its bytes in pieces.
-- * libs/hbb_common/src/tcp.rs is `FramedStream`. The secretbox of sodiumoxide is the record `SecretBox`
--   with its documented laws; the answers of the socket and what the framed reader yields are arguments.
--   `FramedStream/Connect` has `new` and `new_listener`, `Tries` and `Connecting` the proofs about `new`.
-- * libs/hbb_common/src/udp.rs is `FramedSocket`; what the socket answers and yields are arguments.
-- * libs/hbb_common/src/quic.rs is `Quic`: the answers of quinn are arguments, and the loop of a connection and
--   its handlers take their steps as events. `Quic/Receives` is about what the caller receives.
-- * `new_socket` and `to_socket_addr` of libs/hbb_common/src/lib.rs are `Sockets`: each call of the system or of the
--   resolver goes into a history with its answer, and a `System` answers by the history so far. `Sockets/Quiet` and `Sockets/Calls` have lemmas.
-- * `AddrMangle` of libs/hbb_common/src/lib.rs is `AddrMangle`; the clock, the byte order and whether the build
--   checks for overflow are arguments.
-- * `get_version_from_url` of the same file is `Version`; a text is the list of its code points. `Version/Names`
--   describes it by the last dash and the last dot.
-- * libs/hbb_common/src/config.rs is `Config`: the state is `CONFIG`, `CONFIG2` and `ONLINE` with the two
--   files and a count of failed stores. `Config/Setters`, `Config/Generate` and `Config/Servers` have the
--   operations under their names, `Config/Calls` sequences of them, one call after another; `import` is not among them. `Config/Race` has two
--   threads in `get_password`, which take turns at its locks. `Config/Laws`, `Config/Stable`, `Config/Latency`,
--   `Config/Listing`, `Config/Restart` and `Config/Reload` hold the proofs. confy is the record `Confy`; random
--   numbers, the MAC address, new keys and the resolver of names are arguments. A `HashMap` is a list of
--   entries, which stands for any order of iteration.
-- * `PeerConfig` of the same file is `Config/Peers`: the directory of the peers is a map from names to files
--   with the times of their last stores, confy is the record `ConfyPath`, the sort and which files the system
--   removes are parameters, and ids
--   are names without a slash. `Names` has what the code uses of `Path`, `Stores`, `Sweep` and `Forgets` hold
--   the proofs.
-- * The paths of the same file, `save_tmp` and `import` are `Config/Paths`, on Linux: what the system says of
--   the user is the record `User`, the files are those of `Disk`, with `std::fs::copy` in it. `Texts`, `Dirs` and
--   `Chain` have the lemmas for `Restore`.
-- * libs/hbb_common/src/compress.rs is `Compress`; zstd is the record `Zstd`.
-- * libs/hbb_common/src/fs.rs is `Transfer`, with the messages of libs/hbb_common/protos/message.proto that it
--   makes in `Transfer/Messages`. `Transfer/Read`, `Transfer/Write`, `Transfer/Jobs` and `Transfer/Listing` have the
--   functions under their names; `Transfer/Paths` has what they use of `Path`, on Unix. The files are the
--   names and inodes of `Disk`, and which calls the system refuses, how short its reads are and what it
--   says of directories are arguments (the records `Os`). Writes go to the end of an inode, two spellings
--   of a path are two names, and nobody else changes the disk. A write of tokio may be in flight when the time
--   of its file is set (`settled`), and then takes it back; that it fails after `write_all` has returned is left out. `Transfer/Chunks`,
--   `Packed`, `Sender`, `Sending`, `Gives` and `Ends` are about the calls of `read`, `Receiver`, `Received` and `Writes` about
--   those of `write`, `EndToEnd` about both. `Transfer/Trees` describes a tree of directories,
--   `TreeSteps` and `TreeFiles` its listing.
--
-- The functions recurse on their input, but for three that have fuel. The printing of numbers in
-- `Prelude/Strings` has 20 digits, enough for 64 bits. The loop of `read` has one round more than its
-- buffer has bytes, since each round but the last fills one or more. The listing of a directory has as
-- much as the caller gives, and any above the depth of the tree is enough.
--
-- Not modelled: the branches of config.rs and fs.rs for systems other than Linux and the functions of fs.rs
-- that only call the system; gen_version of lib.rs, which writes a file of the source; of quic.rs the
-- configuration of the endpoint; and the build script.
mod Prelude
pub mod Codec
pub mod AddrMangle
pub mod Sockets
pub mod Version
pub mod Config
pub mod Compress
pub mod Disk
pub mod Transfer
pub mod FramedStream
pub mod FramedSocket
pub mod Quic
pub mod Rendezvous
