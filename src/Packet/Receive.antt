-- ===== src/Packet/Receive.antt =====
-- One call of `DecryptPacket`: decrypt, insert, process, on a buffer that need not grow.
use simple_module.Base.{
  ℕ, ◌+◌, ◌≤◌, ◌≡◌, refl, sym, ap, subst, ◌∙◌, Bool, true, false, List, [], ◌∷◌, ◌++◌, arith,
  length, All, All-append, append_assoc, append-nil,
}
use simple_module.Base.Word.{IsByte, IsBytes, le_bytes}
use simple_module.Base.Outcome.{Outcome, done}
use simple_module.MyBuf.{get_buf_len}
use simple_module.MyBuf.Memory.{Allocator}
use simple_module.MyBuf.Queue.{IsBacked, contents}
use simple_module.MyBuf.Insert.{insert_data-Appended}
use simple_module.Packet.{PacketDecrypt, run_decrypt, receive, decrypt_packet}
use simple_module.Packet.Frames.{frames, IsShort, IsPartial}
use simple_module.Packet.Rounds.{view, pending, IsReady}
use simple_module.Packet.Bags.{bag_process-Drained}

-- The buffer is in order and as large as it says it is.
pub record IsSound (d : PacketDecrypt) : Type 0 where
  pub ready : IsReady d
  pub backed : IsBacked d.decrypt_buf

record Filled (d : PacketDecrypt) (plain : List ℕ) (r : Outcome PacketDecrypt) : Type 0 where
  after : PacketDecrypt
  returns : r ≡ done after
  sound : IsSound after
  same_view : view after ≡ view d ++ plain
  same_size : after.decrypt_buf.buf_size ≡ d.decrypt_buf.buf_size
  same_encryptor : after.encryptor ≡ d.encryptor

pending-append : (f : Bool) (n : ℕ) (xs ys : List ℕ) → pending f n (xs ++ ys) ≡ pending f n xs ++ ys
pending-append true n xs ys = sym (append_assoc (le_bytes 4 n) xs ys)
pending-append false n xs ys = refl

receive-Filled :
    (al : Allocator) (d : PacketDecrypt) (plain : List ℕ)
    → IsSound d
    → IsBytes plain
    → get_buf_len d.decrypt_buf + length plain ≤ d.decrypt_buf.buf_size
    → Filled d plain (receive al d plain)
unfolding receive
receive-Filled al d [] s h fits = record {
  after = d;
  returns = refl;
  sound = s;
  same_view = sym (append-nil (view d));
  same_size = refl;
  same_encryptor = refl;
}
receive-Filled al d (x ∷ xs) s h fits =
    let (a, size, backed) = insert_data-Appended al (x ∷ xs) s.ready.valid s.backed fits in
    record {
      after = record d { decrypt_buf = a.after };
      returns = rw a.returns refl;
      sound = record {
        ready = record {
          valid = a.valid;
          bytes =
              subst IsBytes (sym a.holds)
                (All-append IsByte (contents d.decrypt_buf) (x ∷ xs) s.ready.bytes h);
          len = s.ready.len;
        };
        backed = backed;
      };
      same_view =
          ap (pending d.bag_flag d.bag_len) a.holds
          ∙ pending-append d.bag_flag d.bag_len (contents d.decrypt_buf) (x ∷ xs);
      same_size = size;
      same_encryptor = refl;
    }

-- What one call of `DecryptPacket` comes to.
pub record Received (d : PacketDecrypt) (buf : List ℕ) (r : Outcome (PacketDecrypt × List (List ℕ)))
    : Type 0 where
  pub after : PacketDecrypt
  pub bags : List (List ℕ)
  pub returns : r ≡ done (after, bags)
  pub exact : frames bags ++ view after ≡ view d ++ (run_decrypt d.encryptor buf).1
  pub short : All IsShort bags
  pub partial : IsPartial (view after)
  pub sound : IsSound after
  pub same_size : after.decrypt_buf.buf_size ≡ d.decrypt_buf.buf_size
  pub encryptor_after : after.encryptor ≡ (run_decrypt d.encryptor buf).0

-- If what the cipher makes of a block fits the buffer beside what is kept, `DecryptPacket` returns,
-- hands on the bags that have become complete, in order and byte for byte, and keeps the rest.
pub decrypt_packet-Received :
    (al : Allocator) (d : PacketDecrypt) (buf : List ℕ)
    → IsSound d
    → IsBytes (run_decrypt d.encryptor buf).1
    → get_buf_len d.decrypt_buf + length (run_decrypt d.encryptor buf).1 ≤ d.decrypt_buf.buf_size
    → Received d buf (decrypt_packet al d buf)
unfolding decrypt_packet
decrypt_packet-Received al d buf s h fits =
    let (e, plain) = run_decrypt d.encryptor buf in
    let d' = record d { encryptor = e } in
    let sound : IsSound d' = record {
      ready = record { valid = s.ready.valid; bytes = s.ready.bytes; len = s.ready.len };
      backed = s.backed;
    } in
    let f = receive-Filled al d' plain sound h fits in
    let t = bag_process-Drained f.after f.sound.ready in
    record {
      after = t.after;
      bags = t.bags;
      returns = rw f.returns t.returns;
      exact = t.exact ∙ f.same_view;
      short = t.short;
      partial = t.partial;
      sound = record {
        ready = t.ready;
        backed =
            omega (arith, f.sound.backed, t.same_size, ap (λ (x : List ℕ). length x) t.same_block);
      };
      same_size = t.same_size ∙ f.same_size;
      encryptor_after = t.same_encryptor ∙ f.same_encryptor;
    }
