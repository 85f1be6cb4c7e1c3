-- ===== src/Func.antt =====
-- The packet objects of client_func.h and server_func.h, which encrypt and cut into bags, and the plain ones
-- of socket/include/simple_client_func.h and socket/include/simple_server_func.h, as callbacks of the socket
-- layer. A text is the list of its codes; printing is left out.
pub mod Greeting
mod Tests
use simple_module.Base.{
  ℕ, Bool, true, false, Option, none, some, List, [], ◌∷◌, ◌++◌, ltb, if◌then◌else◌, length,
}
use simple_module.Base.Outcome.{Outcome, done, ◌>>=◌}
use simple_module.Cipher.{SimpleXor}
use simple_module.MyBuf.Memory.{Allocator}
use simple_module.Packet.{
  Encryptor, PacketDecrypt, encrypt_packet, decrypt_packet, new_packet_decrypt,
}
use simple_module.Socket.{PacketInterface}

-- `SimplePacketFunc` and `SimpleServerFunc`, which have the same members.
pub record PacketFunc : Type 0 where
  pub encrypt_obj : Encryptor
  pub decrypt_obj : PacketDecrypt

-- The constructor, with two fresh ciphers, and with what is not initialised as an argument.
abbrev pub new_packet_func : Allocator → SimpleXor → SimpleXor → ℕ → PacketFunc
new_packet_func al x y bag_len = record {
  encrypt_obj = some x;
  decrypt_obj = new_packet_decrypt al (some y) bag_len;
}

abbrev pub conn_ok : List ℕ
conn_ok = 99 ∷ 111 ∷ 110 ∷ 110 ∷ 32 ∷ 111 ∷ 107 ∷ 33 ∷ []

abbrev pub two_msg : List ℕ
two_msg =
    84 ∷ 114 ∷ 121 ∷ 32 ∷ 116 ∷ 111 ∷ 32 ∷ 83 ∷ 101 ∷ 110 ∷ 100 ∷ 32 ∷ 116 ∷ 119 ∷ 111 ∷ 32 ∷ 109
    ∷ 115 ∷ 103 ∷ 33 ∷ []

abbrev pub hello_world : List ℕ
hello_world = 72 ∷ 101 ∷ 108 ∷ 108 ∷ 111 ∷ 32 ∷ 87 ∷ 111 ∷ 114 ∷ 108 ∷ 100 ∷ []

abbrev pub another_msg : List ℕ
another_msg = 97 ∷ 110 ∷ 111 ∷ 116 ∷ 104 ∷ 101 ∷ 114 ∷ 32 ∷ 77 ∷ 115 ∷ 103 ∷ 33 ∷ []

-- A callback's writes are collected; it gives them back with its object and its result.
abbrev pub Writes : Type 0
Writes = List (ℕ × List ℕ)

abbrev pub if_any : ℕ → List ℕ → Writes
if_any vfd out = if ltb 0 (length out) then (vfd, out) ∷ [] else []

module _ (al : Allocator) (rand : ℕ) where
  -- `WriteData`; `random()`, which is called once at most, gives `rand`.
  unfoldable pub write_message : PacketFunc → ℕ → List ℕ → PacketFunc × Writes
  write_message f vfd buf =
      let (e, out) = encrypt_packet f.encrypt_obj rand buf in
      (record f { encrypt_obj = e }, if_any vfd out)

  -- `PacketOnConnect` with its two messages.
  unfoldable pub greet : List ℕ → List ℕ → PacketFunc → ℕ → Outcome (PacketFunc × Bool × Writes)
  unfolding write_message
  greet first second f vfd =
      let (f', out) = write_message f vfd first in
      let (f2, out2) = write_message f' vfd second in done (f2, true, out ++ out2)

  unfoldable pub read_block_of : PacketFunc → ℕ → List ℕ → Outcome (PacketFunc × Bool × Writes)
  read_block_of f vfd buf =
      decrypt_packet al f.decrypt_obj buf >>= λ r. done (record f { decrypt_obj = r.0 }, true, [])

  abbrev pub client_func : PacketInterface PacketFunc
  client_func = record {
    packet_on_read = read_block_of;
    packet_on_error = λ f vfd. done (f, true, []);
    packet_on_connect = greet conn_ok two_msg;
  }

  abbrev pub server_func : PacketInterface PacketFunc
  server_func = record {
    packet_on_read = read_block_of;
    packet_on_error = λ f vfd. done (f, true, []);
    packet_on_connect = greet hello_world another_msg;
  }

-- The objects of socket/include, which have no members.
abbrev pub simple_client_func : PacketInterface (Unit {0})
simple_client_func = record {
  packet_on_read = λ f vfd buf. done (f, true, []);
  packet_on_error = λ f vfd. done (f, true, []);
  packet_on_connect = λ f vfd. done (f, true, (vfd, conn_ok) ∷ []);
}

abbrev pub simple_server_func : PacketInterface (Unit {0})
simple_server_func = record {
  packet_on_read = λ f vfd buf. done (f, true, []);
  packet_on_error = λ f vfd. done (f, true, []);
  packet_on_connect = λ f vfd. done (f, true, (vfd, hello_world) ∷ []);
}
