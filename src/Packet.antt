-- ===== src/Packet.antt =====
-- encrypt/packet_process.cpp and encrypt/include/packet_process.h: a message is sent as a bag, its
-- length in four bytes and then its bytes, through a cipher if there is one; the receiver collects
-- what comes in a `MyBuf` and hands on each bag that is complete. `Vfd` is passed along unused.
pub mod Frames
pub mod Rounds
pub mod Bags
pub mod Receive
pub mod Session
pub mod EndToEnd
mod Tests
use simple_module.Base.{
  ℕ, zero, suc, ◌+◌, ◌*◌, Bool, true, false, Option, none, some, List, [], ◌∷◌, ◌++◌, ltb,
  if◌then◌else◌, length, take,
}
use simple_module.Base.Word.{le_bytes, le_value}
use simple_module.Base.Outcome.{Outcome, done, stuck, ◌>>=◌}
use simple_module.Cipher.{SimpleXor, encrypt, decrypt}
use simple_module.Cipher.RoundTrip.{output}
use simple_module.MyBuf.{MyBuf, new_my_buf, insert_data, get_buf_data, get_buf_head, get_buf_len}
use simple_module.MyBuf.Memory.{Allocator}

-- `_EncryptClass`, null or the only subclass of `clsEncrypt` that there is.
abbrev pub Encryptor : Type 0
Encryptor = Option SimpleXor

abbrev pub run_encrypt : Encryptor → ℕ → List ℕ → Encryptor × List ℕ
run_encrypt none rand tmp = (none, tmp)
run_encrypt (some x) rand tmp = let (x', out) = encrypt x rand tmp in (some x', out)

-- With `RealLen` the length of the list returned; `rand` is what `random()` returns, if it is called.
unfoldable pub encrypt_packet : Encryptor → ℕ → List ℕ → Encryptor × List ℕ
encrypt_packet e rand buf = run_encrypt e rand (le_bytes 4 (length buf) ++ buf)

pub record PacketDecrypt : Type 0 where
  pub decrypt_buf : MyBuf
  pub bag_len : ℕ
  pub bag_flag : Bool
  pub encryptor : Encryptor

-- The default of `MyBuf(int BufSize=1024)`.
abbrev pub default_buf_size : ℕ
default_buf_size = 1024

-- `_BagLen` is not initialised, and comes as an argument.
abbrev pub new_packet_decrypt : Allocator → Encryptor → ℕ → PacketDecrypt
new_packet_decrypt al e bag_len = record {
  decrypt_buf = new_my_buf al default_buf_size;
  bag_len = bag_len;
  bag_flag = false;
  encryptor = e;
}

-- The body of the loop of `BagProcess` while no length is known, and while one is.
unfoldable pub read_len : PacketDecrypt → PacketDecrypt
read_len d = record d {
  decrypt_buf = (get_buf_data d.decrypt_buf 4).0;
  bag_len = le_value (take 4 (get_buf_head d.decrypt_buf));
  bag_flag = true;
}

unfoldable pub read_bag : PacketDecrypt → PacketDecrypt × List ℕ
read_bag d =
    let (b, bytes, real_len) = get_buf_data d.decrypt_buf d.bag_len in
    (record d { decrypt_buf = b; bag_flag = false }, bytes)

abbrev pub deliver :
    List ℕ → Outcome (PacketDecrypt × List (List ℕ)) → Outcome (PacketDecrypt × List (List ℕ))
deliver bag r = r >>= λ t. done (t.0, bag ∷ t.1)

-- `BagProcess`, with the bags that it prints.
unfoldable pub bag_process : ℕ → PacketDecrypt → Outcome (PacketDecrypt × List (List ℕ))
bag_process zero d = stuck
bag_process (suc fuel) d =
    let n = get_buf_len d.decrypt_buf in
    let after_len = bag_process fuel (read_len d) in
    let after_bag = deliver (read_bag d).1 (bag_process fuel (read_bag d).0) in
    if d.bag_flag
    then (if ltb n d.bag_len then done (d, []) else after_bag)
    else (if ltb n 4 then done (d, []) else after_len)

-- Each round takes four bytes or ends a bag.
abbrev pub bag_fuel : PacketDecrypt → ℕ
bag_fuel d = 2 * get_buf_len d.decrypt_buf + 2

abbrev pub run_decrypt : Encryptor → List ℕ → Encryptor × List ℕ
run_decrypt none buf = (none, buf)
run_decrypt (some x) buf = let (x', out) = decrypt x buf in (some x', output out)

unfoldable pub receive : Allocator → PacketDecrypt → List ℕ → Outcome PacketDecrypt
receive al d [] = done d
receive al d (c ∷ cs) = do
  r ← insert_data al d.decrypt_buf (c ∷ cs)
  done (record d { decrypt_buf = r.0 })

unfoldable pub decrypt_packet :
    Allocator → PacketDecrypt → List ℕ → Outcome (PacketDecrypt × List (List ℕ))
unfolding receive
decrypt_packet al d buf = do
  let r = run_decrypt d.encryptor buf
  d' ← receive al (record d { encryptor = r.0 }) r.1
  bag_process (bag_fuel d') d'
