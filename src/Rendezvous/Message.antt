-- ===== src/Rendezvous/Message.antt =====
-- libs/hbb_common/protos/rendezvous.proto: the messages that the server reads and writes. Each field
-- that a message leaves out has its default. The kinds that it neither reads nor writes are one
-- constructor with the number of their field.
use rustdesk_server_demo.Prelude.Int.{ℤ}
use rustdesk_server_demo.Prelude.{ℕ, Bool, false, String, Option, none, some, List, []}

pub data NatType : Type 0 where
  unknown_nat asymmetric symmetric : NatType

pub record RegisterPeer : Type 0 where
  pub id : String
  pub serial : ℤ

pub record RegisterPeerResponse : Type 0 where
  pub request_pk : Bool

pub record PunchHoleRequest : Type 0 where
  pub id : String
  pub nat_type : NatType

pub record RegisterPk : Type 0 where
  pub id : String
  pub uuid : List ℕ
  pub pk : List ℕ

-- `Result` of `RegisterPkResponse`; the default is the value that the wire leaves out, 0.
pub data PkResult : Type 0 where
  unset ok uuid_mismatch : PkResult

pub record RegisterPkResponse : Type 0 where
  pub result : PkResult

pub record RequestRelay : Type 0 where
  pub id : String
  pub uuid : String
  pub socket_addr : List ℕ
  pub relay_server : String
  pub secure : Bool

pub data RelayUnion : Type 0 where
  id : String → RelayUnion
  pk : List ℕ → RelayUnion

pub record RelayResponse : Type 0 where
  pub socket_addr : List ℕ
  pub uuid : String
  pub relay_server : String
  pub union : Option RelayUnion

pub data Union : Type 0 where
  register_peer : RegisterPeer → Union
  register_peer_response : RegisterPeerResponse → Union
  punch_hole_request : PunchHoleRequest → Union
  register_pk : RegisterPk → Union
  register_pk_response : RegisterPkResponse → Union
  request_relay : RequestRelay → Union
  relay_response : RelayResponse → Union
  other_kind : ℕ → Union

pub record RendezvousMessage : Type 0 where
  pub union : Option Union

abbrev pub default_request_relay : RequestRelay
default_request_relay = record {
  id = "";
  uuid = "";
  socket_addr = [];
  relay_server = "";
  secure = false;
}

abbrev pub default_relay_response : RelayResponse
default_relay_response = record { socket_addr = []; uuid = ""; relay_server = ""; union = none }

-- `RendezvousMessage::new()` and a setter of its union.
abbrev pub message : Union → RendezvousMessage
message u = record { union = some u }
