-- ===== src/Packet/EndToEnd.antt =====
-- A sender and a receiver as client_func.h and server_func.h make them: a fresh `SimpleXOR` at each
-- end, every message through `EncryptPacket`, every block through `DecryptPacket`.
use simple_module.Base.{
  ℕ, ◌^◌, ◌≤◌, ◌<◌, ◌≡◌, refl, sym, ap, subst, ◌∙◌, inl, none, some, Option, List, [], ◌∷◌, ◌++◌,
  arith, length, take, drop, concat, map, All, length-drop,
}
use simple_module.Base.Word.{IsBytes, le_value}
use simple_module.Cipher.{SimpleXor, set_seed, encrypt, decrypt}
use simple_module.Cipher.Stream.{length-xmake_all}
use simple_module.Cipher.RoundTrip.{
  IsUnseeded, encrypt_all, output, decrypt_all, decrypt_all-encrypt_all,
}
use simple_module.MyBuf.{or_null}
use simple_module.MyBuf.Memory.{Allocator}
use simple_module.Packet.{Encryptor, encrypt_packet, default_buf_size, new_packet_decrypt}
use simple_module.Packet.Frames.{frame, frames}
use simple_module.Packet.Session.{
  send_all, receive_all, plain_all, Fits, Owed, Paid, receive_all-Paid,
}

-- Sending messages is encrypting their frames.
send_all-encrypt_all :
    (x : SimpleXor) (r : ℕ) (ms : List (List ℕ))
    → send_all (some x) r ms ≡ (encrypt_all x r (map frame ms)).1
unfolding send_all encrypt_all encrypt_packet frame
send_all-encrypt_all x r [] = refl
send_all-encrypt_all x r (m ∷ ms) =
    ap (◌++◌ (encrypt x r (frame m)).1) (send_all-encrypt_all (encrypt x r (frame m)).0 r ms)

send_all-frames : (r : ℕ) (ms : List (List ℕ)) → send_all none r ms ≡ frames ms
unfolding send_all encrypt_packet frames frame
send_all-frames r [] = refl
send_all-frames r (m ∷ ms) = ap (◌++◌ (frame m)) (send_all-frames r ms)

concat-frame : (ms : List (List ℕ)) → concat (map frame ms) ≡ frames ms
unfolding frames
concat-frame [] = refl
concat-frame (m ∷ ms) = ap (◌++◌ (frame m)) (concat-frame ms)

plain_all-decrypt_all :
    (y : SimpleXor) (cs : List (List ℕ)) → concat (plain_all (some y) cs) ≡ (decrypt_all y cs).1
unfolding plain_all decrypt_all
plain_all-decrypt_all y [] = refl
plain_all-decrypt_all y (c ∷ cs) =
    ap (◌++◌ (output (decrypt y c).1)) (plain_all-decrypt_all (decrypt y c).0 cs)

plain_all-none : (cs : List (List ℕ)) → plain_all none cs ≡ cs
unfolding plain_all
plain_all-none [] = refl
plain_all-none (c ∷ cs) = ap (◌∷◌ c) (plain_all-none cs)

-- The cipher hands on no more bytes than it was given.
length-output-le : (y : SimpleXor) (c : List ℕ) → length (output (decrypt y c).1) ≤ length c
unfolding decrypt
length-output-le y c = ground (
  arith,
  length-xmake_all y c,
  length-xmake_all (set_seed y (le_value (take 4 c))) (drop 4 c),
  length-drop 4 c,
)

plain_all-Fits :
    (y : SimpleXor) (cs : List (List ℕ)) (size bound : ℕ)
    → All (Fits size bound) cs
    → All (Fits size bound) (plain_all (some y) cs)
unfolding plain_all
plain_all-Fits y [] size bound h = tt
plain_all-Fits y (c ∷ cs) size bound h =
    (omega (arith, h.0, length-output-le y c), plain_all-Fits (decrypt y c).0 cs size bound h.1)

-- A receiver as its constructor leaves it, when `malloc` has given it its buffer.
new_packet_decrypt-Owed :
    (al : Allocator) (e : Encryptor) (bag_len : ℕ) (block : List ℕ) (stream : List ℕ)
    (ms : List (List ℕ)) (bound : ℕ)
    → al.malloc default_buf_size ≡ some block
    → bag_len < 2 ^ 32
    → stream ≡ frames ms
    → All IsBytes ms
    → All (λ m. length m ≤ bound) ms
    → bound < 2 ^ 32
    → Owed (new_packet_decrypt al e bag_len) stream ms bound
new_packet_decrypt-Owed al e bag_len block stream ms bound memory word whole bytes bounded small =
    let size : length (or_null (al.malloc default_buf_size)) ≡ default_buf_size =
      ap (λ (o : Option (List ℕ)). length (or_null o)) memory
      ∙ al.malloc_size default_buf_size block memory in
    record {
      sound = record {
        ready = record {
          valid = record {
            ordered = omega arith;
            in_block = omega arith;
            in_size = omega arith;
            positive = omega arith;
          };
          bytes = tt;
          len = word;
        };
        backed = omega (arith, size);
      };
      partial = inl (omega arith);
      rest = whole;
      bytes = bytes;
      bounded = bounded;
      small = small;
    }

-- Without a cipher: wherever the transport cuts the stream of what was sent, the receiver gets just
-- the messages, in order, if its buffer was allocated and no block is longer than what `_BufSize`
-- leaves beside the longest message and three bytes.
pub receive_all-send_all_plain :
    (al : Allocator) (r bag_len : ℕ) (ms cs : List (List ℕ)) (bound : ℕ) (block : List ℕ)
    → al.malloc default_buf_size ≡ some block
    → bag_len < 2 ^ 32
    → concat cs ≡ send_all none r ms
    → All IsBytes ms
    → All (λ m. length m ≤ bound) ms
    → bound < 2 ^ 32
    → All (Fits default_buf_size bound) cs
    → Paid ms (receive_all al (new_packet_decrypt al none bag_len) cs)
receive_all-send_all_plain al r bag_len ms cs bound block memory word cut bytes bounded small fits =
    receive_all-Paid al (new_packet_decrypt al none bag_len) cs ms bound
      (new_packet_decrypt-Owed al none bag_len block (concat (plain_all none cs)) ms bound memory
        word (ap concat (plain_all-none cs) ∙ cut ∙ send_all-frames r ms) bytes bounded small)
      (subst (All (Fits default_buf_size bound)) (sym (plain_all-none cs)) fits)

-- With an unseeded cipher at each end: wherever the transport cuts the stream of what was sent, the
-- receiver gets just the messages, in order, if the first block has at least four bytes, `random()`
-- gave a word, the receiver's buffer was allocated, and no block is longer than what `_BufSize` leaves
-- beside the longest message and three bytes.
pub receive_all-send_all :
    (al : Allocator) (x y : SimpleXor) (r bag_len : ℕ) (m : List ℕ) (ms : List (List ℕ))
    (c : List ℕ) (cs : List (List ℕ)) (bound : ℕ) (block : List ℕ)
    → IsUnseeded x
    → IsUnseeded y
    → r < 2 ^ 32
    → al.malloc default_buf_size ≡ some block
    → bag_len < 2 ^ 32
    → 4 ≤ length c
    → concat (c ∷ cs) ≡ send_all (some x) r (m ∷ ms)
    → All IsBytes (m ∷ ms)
    → All (λ n. length n ≤ bound) (m ∷ ms)
    → bound < 2 ^ 32
    → All (Fits default_buf_size bound) (c ∷ cs)
    → Paid (m ∷ ms) (receive_all al (new_packet_decrypt al (some y) bag_len) (c ∷ cs))
receive_all-send_all al x y r bag_len m ms c cs bound block u v seed memory word long cut bytes
      bounded small fits =
    receive_all-Paid al (new_packet_decrypt al (some y) bag_len) (c ∷ cs) (m ∷ ms) bound
      (new_packet_decrypt-Owed al (some y) bag_len block (concat (plain_all (some y) (c ∷ cs)))
        (m ∷ ms) bound memory word
        (plain_all-decrypt_all y (c ∷ cs)
          ∙ decrypt_all-encrypt_all x y r (frame m) (map frame ms) c cs u v seed long
              (cut ∙ send_all-encrypt_all x r (m ∷ ms))
          ∙ concat-frame (m ∷ ms))
        bytes bounded small)
      (plain_all-Fits y (c ∷ cs) default_buf_size bound fits)
