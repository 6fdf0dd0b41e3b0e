-- ===== src/FramedSocket/Runs.antt =====
-- A host with two addresses, on a system that refuses to listen.
use rustdesk_server_demo.Prelude.{◌≡◌, refl, Bool, true, false, some, [], ◌∷◌}
use rustdesk_server_demo.AddrMangle.{SocketAddr, v4}
use rustdesk_server_demo.Sockets.{
  Call, socket, set_reuse_port, set_reuse_address, from_std, bind, listen, bind_host, refused,
  asked, resolved, stream, ipv4, system, err, System, new_socket,
}
use rustdesk_server_demo.FramedStream.Connect.{new_listener}
use rustdesk_server_demo.FramedSocket.{new_reuse}
use rustdesk_server_demo.FramedSocket.Bound.{Bound, listener_calls, datagram_calls, first_address}

abbrev one : SocketAddr
one = v4 (10 ∷ 0 ∷ 0 ∷ 1 ∷ []) 21116

abbrev two : SocketAddr
two = v4 (10 ∷ 0 ∷ 0 ∷ 2 ∷ []) 21116

abbrev takes : Call → Bool
takes (listen backlog) = false
takes (socket d t) = true
takes set_reuse_port = true
takes set_reuse_address = true
takes from_std = true
takes (bind addr) = true
takes (bind_host t host) = true

abbrev deaf : System
deaf = record {
  accepts = λ seen call. takes call;
  resolves = λ seen host. some (one ∷ two ∷ []);
  replies = λ seen local remote. refused;
}

first_address_example :
    Bound listener_calls "h" (some (one ∷ two ∷ [])) [] (new_listener deaf "h" true [])
    × Bound datagram_calls "h" (some (one ∷ two ∷ [])) [] (new_reuse deaf "h" [])
first_address_example = first_address deaf "h" []

listener_run : new_listener deaf "h" true [] ≡ (
  err system,
  resolved "h" (some (one ∷ two ∷ []))
      ∷ asked (socket ipv4 stream) true
      ∷ asked set_reuse_port true
      ∷ asked set_reuse_address true
      ∷ asked (bind one) true
      ∷ asked (listen 128) false
      ∷ [],
)
unfolding new_listener new_socket
listener_run = refl
