-- ===== src/Socket.antt =====
-- The socket layer of socket/: the objects, the maps between them (`SocketManager` of
-- socket/include/socket_manager.h), and what its functions do to them. An object is held by an address in a
-- heap, so that a use of a deleted one shows.
pub mod Action
pub mod Manager
pub mod Points
pub mod Sockets
pub mod Links
pub mod Deleting
pub mod Forgetting
pub mod Closing
pub mod Errors
pub mod Dispatch
pub mod Setup
pub mod Connected
pub mod Creating
pub mod Accepting
pub mod Steps
pub mod Reading
pub mod Failing
pub mod Refusals
pub mod Servers
mod Tests
use simple_module.Base.{ℕ, Bool, List, Option, ◌≡◌, ◌≤◌, ◌++◌, length}
use simple_module.Base.Outcome.{Outcome}
use simple_module.Base.Dict.{Dict}

-- `clsPeerPoint`; its `bufferevent` is what libevent keeps of the descriptor.
pub record PeerPoint : Type 0 where
  pub vfd : ℕ
  pub vfd_type : ℕ
  pub status : ℕ

-- `clsServerSocket`, with the address of the packet object, if it has one. `_MaxNumber` is always 1024.
pub record ServerSocket : Type 0 where
  pub vfd : ℕ
  pub port : ℕ
  pub packet_class : Option ℕ

-- `clsClientSocket`; `vfd` is the pattern of an `int`.
pub record ClientSocket : Type 0 where
  pub ip : List ℕ
  pub port : ℕ
  pub vfd : ℕ
  pub packet_class : Option ℕ

-- `SERVER_TYPE` and `CLIENT_TYPE`
abbrev pub server_type : ℕ
server_type = 1

abbrev pub client_type : ℕ
client_type = 2

abbrev pub recv_block_size : ℕ
recv_block_size = 1024

-- The numbers of `SocketError` in socket/include/socket_exception.h.
pub data ErrNo : Type 0 where
  server_create_err client_create_err conn_err read_data_err write_data_err : ErrNo
  clear_err server_create_peer_err : ErrNo

-- What `_ErrMsg` points to: a literal of the program, or the text of a `std::string` that has been destroyed.
pub data ErrMsg : Type 0 where
  literal freed : ErrMsg

pub record SocketError : Type 0 where
  pub vfd : ℕ
  pub err_no : ErrNo
  pub err_msg : ErrMsg

-- The constructor from a literal, and that from a `std::string` by value, whose `c_str()` it keeps.
abbrev pub socket_error : ℕ → ErrNo → SocketError
socket_error vfd err_no = record { vfd = vfd; err_no = err_no; err_msg = literal }

abbrev pub socket_error_string : ℕ → ErrNo → SocketError
socket_error_string vfd err_no = record { vfd = vfd; err_no = err_no; err_msg = freed }

-- What the code asks of the system and of libevent, in order.
pub data Event : Type 0 where
  opened closed reading listening : ℕ → Event
  wrote : ℕ → List ℕ → Event

-- The callbacks of `PacketInterface`, on objects of type `S`. What they write by `PacketOnWrite` is returned,
-- and written when they have returned.
pub record PacketInterface (S : Type 0) : Type 0 where
  pub packet_on_read : S → ℕ → List ℕ → Outcome (S × Bool × List (ℕ × List ℕ))
  pub packet_on_error : S → ℕ → Outcome (S × Bool × List (ℕ × List ℕ))
  pub packet_on_connect : S → ℕ → Outcome (S × Bool × List (ℕ × List ℕ))

-- What libevent does with the bytes of a descriptor: whether it takes those to be written, and how
-- `bufferevent_read` cuts those that have come. The laws are what its documentation says of it.
pub record Libevent : Type 0 where
  pub bufferevent_write : ℕ → List ℕ → Bool
  pub bufferevent_read : List ℕ → ℕ → List ℕ × List ℕ
  pub read_all :
      (input : List ℕ) (size : ℕ)
      → (bufferevent_read input size).0 ++ (bufferevent_read input size).1 ≡ input
  pub read_size : (input : List ℕ) (size : ℕ) → length (bufferevent_read input size).0 ≤ size
  pub read_some :
      (input : List ℕ) (size : ℕ)
      → 1 ≤ size
      → 1 ≤ length input
      → 1 ≤ length (bufferevent_read input size).0

-- The members of the `SocketManager`, the objects, and what has been asked of the system so far, the last
-- first.
pub record World (S : Type 0) : Type 0 where
  pub server_obj_list : Dict ℕ
  pub client_obj_list : Dict ℕ
  pub peer_obj_list : Dict ℕ
  pub peer_vfd2server_obj : Dict ℕ
  pub peer_vfd2client_obj : Dict ℕ
  pub peer_heap : Dict PeerPoint
  pub server_heap : Dict ServerSocket
  pub client_heap : Dict ClientSocket
  pub packet_heap : Dict S
  pub next : ℕ
  pub trace : List Event
