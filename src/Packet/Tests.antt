-- ===== src/Packet/Tests.antt =====
-- Runs of both ends, and the theorems at concrete inputs.
use simple_module.Base.{
  ℕ, ◌≡◌, refl, List, [], ◌∷◌, ◌++◌, arith, some, none, true, replicate, concat, append-nil,
}
use simple_module.Cipher.{
  SimpleXor, new_simple_xor, next_seed, fill_dic, set_seed, xmake, xmake_all, encrypt,
}
use simple_module.MyBuf.Heap.{heap}
use simple_module.Packet.{
  PacketDecrypt, new_packet_decrypt, encrypt_packet, bag_process, bag_fuel, decrypt_packet,
}
use simple_module.Packet.Frames.{frames, frames_prefix}
use simple_module.Packet.Rounds.{IsReady}
use simple_module.Packet.Bags.{Drained, bag_process-Drained}
use simple_module.Packet.Receive.{IsSound, Received, decrypt_packet-Received}
use simple_module.Packet.Session.{send_all, receive_all, Paid}
use simple_module.Packet.EndToEnd.{receive_all-send_all_plain, receive_all-send_all}

abbrev fresh : PacketDecrypt
fresh = new_packet_decrypt heap none 77

-- A length that has been read, and one byte of two.
abbrev waiting : PacketDecrypt
waiting = record {
  decrypt_buf = record {
    buf_size = 8;
    block = 2 ∷ 0 ∷ 0 ∷ 0 ∷ 5 ∷ 0 ∷ 0 ∷ 0 ∷ [];
    head = 4;
    tail = 5;
  };
  bag_len = 2;
  bag_flag = true;
  encryptor = none;
}

waiting-IsReady : IsReady waiting
waiting-IsReady = record { valid = omega arith; bytes = omega arith; len = omega arith }

waiting-IsSound : IsSound waiting
waiting-IsSound = record { ready = waiting-IsReady; backed = omega arith }

abbrev hello : List ℕ
hello = b'h' ∷ b'i' ∷ []

abbrev block1 : List ℕ
block1 = 2 ∷ 0 ∷ 0 ∷ 0 ∷ b'h' ∷ []

abbrev block2 : List ℕ
block2 = b'i' ∷ 2 ∷ 0 ∷ []

abbrev block3 : List ℕ
block3 = 0 ∷ 0 ∷ b'h' ∷ b'i' ∷ []

sent : concat (block1 ∷ block2 ∷ block3 ∷ []) ≡ send_all none 0 (hello ∷ hello ∷ [])
unfolding send_all encrypt_packet
sent = refl

bag_process-Drained_example : Drained waiting (bag_process (bag_fuel waiting) waiting)
bag_process-Drained_example = bag_process-Drained waiting waiting-IsReady

decrypt_packet-Received_example :
    Received waiting (6 ∷ 1 ∷ 0 ∷ []) (decrypt_packet heap waiting (6 ∷ 1 ∷ 0 ∷ []))
decrypt_packet-Received_example =
    decrypt_packet-Received heap waiting (6 ∷ 1 ∷ 0 ∷ []) waiting-IsSound (omega arith)
      (omega arith)

receive_all-send_all_plain_example :
    Paid (hello ∷ hello ∷ []) (receive_all heap fresh (block1 ∷ block2 ∷ block3 ∷ []))
receive_all-send_all_plain_example =
    receive_all-send_all_plain heap 0 77 (hello ∷ hello ∷ []) (block1 ∷ block2 ∷ block3 ∷ []) 2
      (replicate 1024 0) refl (omega arith) sent (omega arith) (omega arith) (omega arith)
      (omega arith)

frames_prefix_example :
    (rest : List (List ℕ)) × (hello ∷ [] ≡ (hello ∷ []) ++ rest) × ([] ≡ frames rest)
frames_prefix_example =
    frames_prefix (hello ∷ []) (hello ∷ []) [] (omega arith) (omega arith)
      (append-nil (frames (hello ∷ [])))

abbrev sender : SimpleXor
sender = new_simple_xor 7 9

abbrev receiver : SimpleXor
receiver = new_simple_xor 200 0

abbrev coded1 : List ℕ
coded1 = 120 ∷ 86 ∷ 52 ∷ 18 ∷ 5 ∷ []

abbrev coded2 : List ℕ
coded2 = 223 ∷ 210 ∷ 252 ∷ 147 ∷ []

abbrev coded3 : List ℕ
coded3 = 187 ∷ 30 ∷ 95 ∷ 66 ∷ 250 ∷ 129 ∷ 71 ∷ []

coded :
    concat (coded1 ∷ coded2 ∷ coded3 ∷ []) ≡ send_all (some sender) 0x12345678 (hello ∷ hello ∷ [])
unfolding send_all encrypt_packet encrypt set_seed fill_dic next_seed xmake_all xmake
coded = refl

receive_all-send_all_example :
    Paid (hello ∷ hello ∷ []) (
      receive_all heap (new_packet_decrypt heap (some receiver) 77) (coded1 ∷ coded2 ∷ coded3 ∷ []))
receive_all-send_all_example =
    receive_all-send_all heap sender receiver 0x12345678 77 hello (hello ∷ []) coded1
      (coded2 ∷ coded3 ∷ []) 2 (replicate 1024 0) (record { no_seed = refl; size = refl })
      (record { no_seed = refl; size = refl }) (omega arith) refl (omega arith) (omega arith) coded
      (omega arith) (omega arith) (omega arith) (omega arith)
