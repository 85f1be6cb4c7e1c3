-- ===== src/Func/Tests.antt =====
-- A server's object greets two peers.
use simple_module.Base.{◌≡◌, refl, true, some, [], ◌∷◌, ◌++◌, length, replicate, append-nil, arith}
use simple_module.Base.Word.{le_bytes}
use simple_module.Cipher.{SimpleXor, new_simple_xor, xmake_all, set_seed}
use simple_module.Cipher.RoundTrip.{IsUnseeded}
use simple_module.MyBuf.Heap.{heap}
use simple_module.Packet.{new_packet_decrypt}
use simple_module.Packet.Session.{receive_all, Paid}
use simple_module.Func.{
  PacketFunc, new_packet_func, Writes, write_message, greet, hello_world, another_msg,
}
use simple_module.Func.Greeting.{written, greeting, greeting-Paid, connect_twice}

abbrev cipher : SimpleXor
cipher = new_simple_xor 3 0

cipher-IsUnseeded : IsUnseeded cipher
cipher-IsUnseeded = record { no_seed = refl; size = refl }

abbrev object : PacketFunc
object = new_packet_func heap cipher cipher 77

abbrev object1 : PacketFunc
object1 = (write_message heap 7 (write_message heap 7 object 6 hello_world).0 6 another_msg).0

abbrev writes1 : Writes
writes1 =
    (write_message heap 7 object 6 hello_world).1
    ++ (write_message heap 7 (write_message heap 7 object 6 hello_world).0 6 another_msg).1

abbrev object2 : PacketFunc
object2 = (write_message heap 7 (write_message heap 7 object1 8 hello_world).0 8 another_msg).0

abbrev writes2 : Writes
writes2 =
    (write_message heap 7 object1 8 hello_world).1
    ++ (write_message heap 7 (write_message heap 7 object1 8 hello_world).0 8 another_msg).1

connect_twice_example :
    (written writes1 ≡ le_bytes 4 7 ++ (xmake_all (set_seed cipher 7) greeting).1)
    × (length (written writes1) ≡ 35)
    × ((y : SimpleXor) × (object1.encrypt_obj ≡ some y)
        × (y.seed_flag ≡ true)
        × (written writes2 ≡ (xmake_all y greeting).1))
    × (length (written writes2) ≡ 31)
unfolding greet
connect_twice_example =
    connect_twice heap 7 cipher cipher 77 6 8 object1 object2 true true writes1 writes2 refl refl
      refl

length_first : length (written writes1) ≡ 35
unfolding greet
length_first =
    (connect_twice heap 7 cipher cipher 77 6 8 object1 object2 true true writes1 writes2 refl refl
      refl).1

greeting-Paid_example :
    Paid
      (hello_world ∷ another_msg ∷ [])
      (receive_all heap (new_packet_decrypt heap (some cipher) 78) (written writes1 ∷ []))
unfolding greet
greeting-Paid_example =
    greeting-Paid heap 7 cipher cipher cipher 77 78 6 object1 true writes1 (written writes1) []
      (replicate 1024 0) cipher-IsUnseeded cipher-IsUnseeded (omega arith) refl (omega arith) refl
      (omega (arith, length_first)) (append-nil (written writes1)) (omega (arith, length_first))
