-- ===== src/Func/Greeting.antt =====
-- What `PacketOnConnect` of client_func.h and server_func.h writes.
use simple_module.Base.{
  ℕ, suc, ◌^◌, ◌≤◌, ◌<◌, ◌≡◌, refl, sym, ap, ◌∙◌, Bool, true, false, Option, none, some, List, [],
  ◌∷◌, ◌++◌, ltb, length, concat, All, if◌then◌else◌, append-nil, append_assoc, length-append,
  Bool-cases, ap₂, inl, inr, arith,
}
use simple_module.Base.Word.{le_bytes, length-le_bytes}
use simple_module.Base.Outcome.{Outcome, done}
use simple_module.Cipher.{SimpleXor, encrypt, xmake_all, set_seed}
use simple_module.Cipher.Stream.{length-xmake_all, seed_flag-xmake_all}
use simple_module.Cipher.RoundTrip.{IsUnseeded, encrypt_all, encrypt_all_first, encrypt_all_seeded}
use simple_module.MyBuf.Memory.{Allocator}
use simple_module.Packet.{encrypt_packet, new_packet_decrypt, default_buf_size}
use simple_module.Packet.Session.{send_all, receive_all, Fits, Paid}
use simple_module.Packet.EndToEnd.{receive_all-send_all}
use simple_module.Func.{
  PacketFunc, new_packet_func, Writes, if_any, write_message, greet, server_func, hello_world,
  another_msg,
}

-- The bytes of some writes.
abbrev pub written : Writes → List ℕ
written [] = []
written (w ∷ ws) = w.1 ++ written ws

-- The two framed messages of a server.
abbrev pub greeting : List ℕ
greeting =
    (le_bytes 4 (length hello_world) ++ hello_world)
    ++ (le_bytes 4 (length another_msg) ++ another_msg ++ [])

-- The two branches of `Encrypt`.
abbrev encrypt_by : SimpleXor → ℕ → List ℕ → Bool → SimpleXor × List ℕ
encrypt_by x r bs seeded =
    if seeded
    then xmake_all x bs
    else ((xmake_all (set_seed x r) bs).0, le_bytes 4 r ++ (xmake_all (set_seed x r) bs).1)

encrypt-branch :
    (x : SimpleXor) (r : ℕ) (bs : List ℕ) (b : Bool)
    → x.seed_flag ≡ b
    → encrypt x r bs ≡ encrypt_by x r bs b
unfolding encrypt
encrypt-branch x r bs b e = ap (encrypt_by x r bs) e

set_seed_flag : (x : SimpleXor) (r : ℕ) → (set_seed x r).seed_flag ≡ true
unfolding set_seed
set_seed_flag x r = refl

-- The cipher is seeded after each message.
seed_flag-encrypt : (x : SimpleXor) (r : ℕ) (bs : List ℕ) → (encrypt x r bs).0.seed_flag ≡ true
seed_flag-encrypt x r bs = elim (Bool-cases x.seed_flag) [
  | inl e ↦
      ap (λ (t : SimpleXor × List ℕ). t.0.seed_flag) (encrypt-branch x r bs true e)
      ∙ seed_flag-xmake_all x bs
      ∙ e
  | inr e ↦
      ap (λ (t : SimpleXor × List ℕ). t.0.seed_flag) (encrypt-branch x r bs false e)
      ∙ seed_flag-xmake_all (set_seed x r) bs
      ∙ set_seed_flag x r
]

written-if_any : (vfd : ℕ) (out : List ℕ) → written (if_any vfd out) ≡ out
written-if_any vfd [] = refl
written-if_any vfd (b ∷ bs) = rw (positive) (append-nil (b ∷ bs))
  where
    positive : ltb 0 (suc (length bs)) ≡ true
    positive = ground arith

written-append : (us ws : Writes) → written (us ++ ws) ≡ written us ++ written ws
written-append [] ws = refl
written-append (u ∷ us) ws =
    ap (◌++◌ u.1) (written-append us ws) ∙ sym (append_assoc u.1 (written us) (written ws))

abbrev writes_of : Outcome (PacketFunc × Bool × Writes) → List ℕ
writes_of (done r) = written r.2
writes_of _ = []

abbrev cipher_of : Outcome (PacketFunc × Bool × Writes) → Option SimpleXor
cipher_of (done r) = r.0.encrypt_obj
cipher_of _ = none

module _ (al : Allocator) (rand : ℕ) where
  greet-send_all :
      (first second : List ℕ) (f : PacketFunc) (vfd : ℕ)
      → writes_of (greet al rand first second f vfd)
        ≡ send_all f.encrypt_obj rand (first ∷ second ∷ [])
  unfolding greet send_all
  greet-send_all first second f vfd =
      let out = (encrypt_packet f.encrypt_obj rand first).1 in
      let out2 = (encrypt_packet (encrypt_packet f.encrypt_obj rand first).0 rand second).1 in
      written-append (if_any vfd out) (if_any vfd out2)
      ∙ ap₂ ◌++◌ (written-if_any vfd out) (written-if_any vfd out2 ∙ sym (append-nil out2))

  -- What a fresh server object writes to the peer that connects: wherever the transport cuts it, a fresh
  -- receiver with an unseeded cipher gets just the two messages, if the first block has at least four bytes,
  -- `random()` gave a word, the receiver's buffer was allocated, and no block is longer than what 1024 bytes
  -- leave beside twelve bytes and three.
  pub greeting-Paid :
      (x x' y : SimpleXor) (junk bag_len vfd : ℕ) (f : PacketFunc) (b : Bool) (ws : Writes)
      (c : List ℕ) (cs : List (List ℕ)) (block : List ℕ)
      → IsUnseeded x
      → IsUnseeded y
      → rand < 2 ^ 32
      → al.malloc default_buf_size ≡ some block
      → bag_len < 2 ^ 32
      → (server_func al rand).packet_on_connect (new_packet_func al x x' junk) vfd ≡ done (f, b, ws)
      → 4 ≤ length c
      → concat (c ∷ cs) ≡ written ws
      → All (Fits default_buf_size 12) (c ∷ cs)
      → Paid
          (hello_world ∷ another_msg ∷ [])
          (receive_all al (new_packet_decrypt al (some y) bag_len) (c ∷ cs))
  greeting-Paid x x' y junk bag_len vfd f b ws c cs block u v seed memory word connects long cut
        fits =
      receive_all-send_all al x y rand bag_len hello_world (another_msg ∷ []) c cs 12 block u v seed
        memory word long
        (cut
          ∙ sym (ap writes_of connects)
          ∙ greet-send_all hello_world another_msg (new_packet_func al x x' junk) vfd)
        (omega arith) (omega arith) (omega arith) fits

  -- The messages as they are framed.
  framed : List ℕ → List ℕ
  framed m = le_bytes 4 (length m) ++ m

  send_all-encrypt_all :
      (x : SimpleXor) (first second : List ℕ)
      → send_all (some x) rand (first ∷ second ∷ [])
        ≡ (encrypt_all x rand (framed first ∷ framed second ∷ [])).1
  unfolding send_all encrypt_packet encrypt_all framed
  send_all-encrypt_all x first second = refl

  -- The object of a server whose cipher has no seed yet: the first peer that connects is sent 35 bytes, the four
  -- of the seed and then the two framed messages under the key of that seed; the second one is sent 31, which are the
  -- two framed messages under the key as the first peer's left it, with no seed, since all peers share a cipher.
  pub connect_twice :
      (x x' : SimpleXor) (junk u v : ℕ) (f g : PacketFunc) (b d : Bool) (ws zs : Writes)
      → x.seed_flag ≡ false
      → (server_func al rand).packet_on_connect (new_packet_func al x x' junk) u ≡ done (f, b, ws)
      → (server_func al rand).packet_on_connect f v ≡ done (g, d, zs)
      → (written ws ≡ le_bytes 4 rand ++ (xmake_all (set_seed x rand) greeting).1)
        × (length (written ws) ≡ 35)
        × ((y : SimpleXor) × (f.encrypt_obj ≡ some y)
            × (y.seed_flag ≡ true)
            × (written zs ≡ (xmake_all y greeting).1))
        × (length (written zs) ≡ 31)
  unfolding greet write_message encrypt_packet framed
  connect_twice x x' junk u v f g b d ws zs fresh first second =
      let x1 = (encrypt x rand (le_bytes 4 11 ++ hello_world)).0 in
      let x2 = (encrypt x1 rand (le_bytes 4 12 ++ another_msg)).0 in
      let same : some x2 ≡ f.encrypt_obj = ap cipher_of first in
      let seeded = seed_flag-encrypt x1 rand (le_bytes 4 12 ++ another_msg) in
      let bytes : written ws ≡ le_bytes 4 rand ++ (xmake_all (set_seed x rand) greeting).1 =
        sym (ap writes_of first)
        ∙ greet-send_all hello_world another_msg (new_packet_func al x x' junk) u
        ∙ send_all-encrypt_all x hello_world another_msg
        ∙ encrypt_all_first x rand (framed hello_world) (framed another_msg ∷ []) fresh in
      let later : written zs ≡ (xmake_all x2 greeting).1 =
        sym (ap writes_of second)
        ∙ greet-send_all hello_world another_msg f v
        ∙ ap (λ e. send_all e rand (hello_world ∷ another_msg ∷ [])) (sym same)
        ∙ send_all-encrypt_all x2 hello_world another_msg
        ∙ ap (λ (t : SimpleXor × List ℕ). t.1)
            (encrypt_all_seeded x2 rand (framed hello_world ∷ framed another_msg ∷ []) seeded) in
      (
        bytes,
        ap length bytes
            ∙ omega (
              arith,
              length-append (le_bytes 4 rand) (xmake_all (set_seed x rand) greeting).1,
              length-le_bytes 4 rand,
              length-xmake_all (set_seed x rand) greeting,
            ),
        (x2, sym same, seeded, later),
        ap length later ∙ length-xmake_all x2 greeting,
      )
