-- ===== src/Packet/Session.antt =====
-- Both ends together: `WriteData` of client_func.h and server_func.h sends each message by one
-- `EncryptPacket`, `PacketOnRead` gives each block that arrives to one `DecryptPacket`.
use simple_module.Base.{
  ℕ, ◌+◌, ◌^◌, ◌≤◌, ◌<◌, ◌≡◌, refl, sym, ap, subst, ◌∙◌, Bool, true, false, List, [], ◌∷◌, ◌++◌,
  arith, length, concat, All, All-append, append_assoc, append-nil,
}
use mathlib.Core.Path.{subst₂}
use simple_module.Base.Word.{IsByte, IsBytes, le_bytes, le_bytes-IsBytes}
use simple_module.Base.Outcome.{Outcome, done, ◌>>=◌}
use simple_module.MyBuf.{get_buf_len}
use simple_module.MyBuf.Memory.{Allocator}
use simple_module.MyBuf.Queue.{contents, length-contents}
use simple_module.Packet.{Encryptor, encrypt_packet, PacketDecrypt, run_decrypt, decrypt_packet}
use simple_module.Packet.Frames.{
  frame, frames, IsShort, IsPartial, frames_prefix, partial_bound, partial_frames,
}
use simple_module.Packet.Rounds.{view, pending}
use simple_module.Packet.Receive.{IsSound, decrypt_packet-Received}

-- All that one end sends for the messages.
unfoldable pub send_all : Encryptor → ℕ → List (List ℕ) → List ℕ
send_all e rand [] = []
send_all e rand (m ∷ ms) = let (e', out) = encrypt_packet e rand m in out ++ send_all e' rand ms

-- All the bags that the other end gets of the blocks that arrive.
unfoldable pub receive_all :
    Allocator → PacketDecrypt → List (List ℕ) → Outcome (PacketDecrypt × List (List ℕ))
receive_all al d [] = done (d, [])
receive_all al d (c ∷ cs) = do
  r ← decrypt_packet al d c
  rs ← receive_all al r.0 cs
  done (rs.0, r.1 ++ rs.1)

-- What the cipher makes of the blocks.
unfoldable pub plain_all : Encryptor → List (List ℕ) → List (List ℕ)
plain_all e [] = []
plain_all e (c ∷ cs) = let (e', p) = run_decrypt e c in p ∷ plain_all e' cs

-- Blocks that are short beside the buffer, when no message is longer than `bound`: with what is kept
-- of one bag, three bytes of its length at most besides the message, they fit.
abbrev pub Fits : ℕ → ℕ → List ℕ → Type 0
Fits size bound block = length block + bound + 3 ≤ size

IsBytes-left : (xs ys : List ℕ) → IsBytes (xs ++ ys) → IsBytes xs
IsBytes-left [] ys h = tt
IsBytes-left (x ∷ xs) ys h = (h.0, IsBytes-left xs ys h.1)

IsBytes-right : (xs ys : List ℕ) → IsBytes (xs ++ ys) → IsBytes ys
IsBytes-right [] ys h = h
IsBytes-right (x ∷ xs) ys h = IsBytes-right xs ys h.1

frames-IsBytes : (ms : List (List ℕ)) → All IsBytes ms → IsBytes (frames ms)
unfolding frames frame
frames-IsBytes [] h = tt
frames-IsBytes (m ∷ ms) h =
    All-append IsByte (frame m) (frames ms)
      (All-append IsByte (le_bytes 4 (length m)) m (le_bytes-IsBytes 4 (length m)) h.0)
      (frames-IsBytes ms h.1)

All-suffix {κ} : (P : List ℕ → Type κ) (xs ys : List (List ℕ)) → All P (xs ++ ys) → All P ys
All-suffix P [] ys h = h
All-suffix P (x ∷ xs) ys h = All-suffix P xs ys h.1

All-IsShort :
    (ms : List (List ℕ)) (bound : ℕ)
    → bound < 2 ^ 32
    → All (λ m. length m ≤ bound) ms
    → All IsShort ms
All-IsShort [] bound k h = tt
All-IsShort (m ∷ ms) bound k h = (omega (arith, h.0), All-IsShort ms bound k h.1)

-- The messages that a receiver is owed, given what it keeps and what is still to come.
pub record Owed (d : PacketDecrypt) (stream : List ℕ) (ms : List (List ℕ)) (bound : ℕ)
    : Type 0 where
  pub sound : IsSound d
  pub partial : IsPartial (view d)
  pub rest : view d ++ stream ≡ frames ms
  pub bytes : All IsBytes ms
  pub bounded : All (λ m. length m ≤ bound) ms
  pub small : bound < 2 ^ 32

length-pending : (f : Bool) (n : ℕ) (xs : List ℕ) → length xs ≤ length (pending f n xs)
length-pending true n xs = omega arith
length-pending false n xs = omega arith

-- What is kept leaves room for a block that fits.
Owed-room :
    {d : PacketDecrypt} {stream : List ℕ} {ms : List (List ℕ)} {bound : ℕ} (block : List ℕ)
    → Owed d stream ms bound
    → Fits d.decrypt_buf.buf_size bound block
    → get_buf_len d.decrypt_buf + length block ≤ d.decrypt_buf.buf_size
Owed-room {d} {stream} {ms} {bound} block o fits = omega (
  arith,
  fits,
  partial_bound (view d) stream ms bound o.partial o.rest o.bounded o.small,
  length-pending d.bag_flag d.bag_len (contents d.decrypt_buf),
  length-contents o.sound.ready.valid,
)

-- All the messages owed come out, in order, and nothing is kept.
pub record Paid (ms : List (List ℕ)) (r : Outcome (PacketDecrypt × List (List ℕ))) : Type 0 where
  pub after : PacketDecrypt
  pub returns : r ≡ done (after, ms)
  pub empty : view after ≡ []

pub receive_all-Paid :
    (al : Allocator) (d : PacketDecrypt) (cs ms : List (List ℕ)) (bound : ℕ)
    → Owed d (concat (plain_all d.encryptor cs)) ms bound
    → All (Fits d.decrypt_buf.buf_size bound) (plain_all d.encryptor cs)
    → Paid ms (receive_all al d cs)
unfolding receive_all plain_all
receive_all-Paid al d [] ms bound o fits =
    let whole : view d ≡ frames ms = sym (append-nil (view d)) ∙ o.rest in
    let none_left : ms ≡ [] =
      partial_frames ms (All-IsShort ms bound o.small o.bounded)
        (subst IsPartial whole o.partial) in
    record {
      after = d;
      returns = ap (λ x. done (d, x)) (sym none_left);
      empty = whole ∙ ap frames none_left ∙ unfold frames in refl;
    }
receive_all-Paid al d (c ∷ cs) ms bound o fits =
    let (e, plain) = run_decrypt d.encryptor c in
    let rest = concat (plain_all e cs) in
    let plain_bytes : IsBytes plain = IsBytes-left plain rest (
      IsBytes-right (view d) (plain ++ rest)
        (subst IsBytes (sym o.rest) (frames-IsBytes ms o.bytes))) in
    let t = decrypt_packet-Received al d c o.sound plain_bytes (Owed-room plain o fits.0) in
    let (left, split, owed) =
      frames_prefix t.bags ms (view t.after ++ rest) t.short
        (All-IsShort ms bound o.small o.bounded)
        (sym (append_assoc (frames t.bags) (view t.after) rest)
          ∙ ap (λ x. x ++ rest) t.exact
          ∙ append_assoc (view d) plain rest
          ∙ o.rest) in
    let r =
      receive_all-Paid al t.after cs left bound
        (record {
          sound = t.sound;
          partial = t.partial;
          rest = rw t.encryptor_after owed;
          bytes = All-suffix IsBytes t.bags left (subst (All IsBytes) split o.bytes);
          bounded =
              All-suffix (λ m. length m ≤ bound) t.bags left
                (subst (All (λ m. length m ≤ bound)) split o.bounded);
          small = o.small;
        })
        (subst₂ (λ (n : ℕ) (x : Encryptor). All (Fits n bound) (plain_all x cs)) (sym t.same_size)
          (sym t.encryptor_after) fits.1) in
    record {
      after = r.after;
      returns = rw (t.returns, r.returns) (ap (λ x. done (r.after, x)) (sym split));
      empty = r.empty;
    }
