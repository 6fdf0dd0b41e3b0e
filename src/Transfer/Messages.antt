-- ===== src/Transfer/Messages.antt =====
-- The messages of libs/hbb_common/protos/message.proto about files, and the functions of fs.rs that make
-- them. Of `Message` only the variants about files are here.
use rustdesk_server_demo.Prelude.{Bool, String, List}
use rustdesk_server_demo.Prelude.Int.{ℤ}
use rustdesk_server_demo.Transfer.{FileEntry, FileTransferBlock}

pub record FileDirectory : Type 0 where
  pub id : ℤ
  pub path : String
  pub entries : List FileEntry

pub record FileTransferError : Type 0 where
  pub id : ℤ
  pub error : String
  pub file_num : ℤ

pub record FileTransferDone : Type 0 where
  pub id : ℤ
  pub file_num : ℤ

pub record FileTransferSendRequest : Type 0 where
  pub id : ℤ
  pub path : String
  pub include_hidden : Bool

pub record FileTransferReceiveRequest : Type 0 where
  pub id : ℤ
  pub path : String
  pub files : List FileEntry

pub data FileResponse : Type 0 where
  dir : FileDirectory → FileResponse
  block : FileTransferBlock → FileResponse
  error : FileTransferError → FileResponse
  done : FileTransferDone → FileResponse

-- The two actions that fs.rs makes.
pub data FileAction : Type 0 where
  send : FileTransferSendRequest → FileAction
  receive : FileTransferReceiveRequest → FileAction

pub data Message : Type 0 where
  file_action : FileAction → Message
  file_response : FileResponse → Message

abbrev pub new_error : ℤ → String → ℤ → Message
new_error id err file_num =
    file_response (error (record { id = id; error = err; file_num = file_num }))

abbrev pub new_dir : ℤ → List FileEntry → Message
new_dir id files = file_response (dir (record { id = id; path = ""; entries = files }))

abbrev pub new_block : FileTransferBlock → Message
new_block b = file_response (block b)

abbrev pub new_receive : ℤ → String → List FileEntry → Message
new_receive id path files = file_action (receive (record { id = id; path = path; files = files }))

abbrev pub new_send : ℤ → String → Bool → Message
new_send id path include_hidden =
    file_action (send (record { id = id; path = path; include_hidden = include_hidden }))

abbrev pub new_done : ℤ → ℤ → Message
new_done id file_num = file_response (done (record { id = id; file_num = file_num }))
