-- ===== src/Packet/Rounds.antt =====
-- The two rounds of `BagProcess`, as steps on the bytes received and not yet handed on.
use simple_module.Base.{
  ℕ, ◌+◌, ◌*◌, ◌^◌, ◌≤◌, ◌<◌, min, ◌≡◌, refl, sym, ap, ap₂, ◌∙◌, Bool, true, false, List, [], ◌++◌,
  arith, length, take, append_assoc, length-take, length-drop, take-append-drop, All-take, All-drop,
  subst, if◌then◌else◌,
}
use simple_module.Base.Word.{IsByte, IsBytes, le_bytes, le_value, le_bytes-le_value, le_value-lt4}
use simple_module.MyBuf.{MyBuf, get_buf_len, get_buf_data}
use simple_module.MyBuf.Queue.{IsValid, contents, length-contents}
use simple_module.MyBuf.Insert.{Taken, get_buf_data-Taken}
use simple_module.Packet.{PacketDecrypt, read_len, read_bag}
use simple_module.Packet.Frames.{frame, IsShort}

-- The bytes received and not yet handed on: those of a length that has been read count.
abbrev pub pending : Bool → ℕ → List ℕ → List ℕ
pending true bag_len bytes = le_bytes 4 bag_len ++ bytes
pending false bag_len bytes = bytes

abbrev pub view : PacketDecrypt → List ℕ
view d = pending d.bag_flag d.bag_len (contents d.decrypt_buf)

pub record IsReady (d : PacketDecrypt) : Type 0 where
  pub valid : IsValid d.decrypt_buf
  pub bytes : IsBytes (contents d.decrypt_buf)
  pub len : d.bag_len < 2 ^ 32

-- What falls with each round.
unfoldable pub measure : PacketDecrypt → ℕ
measure d = 2 * get_buf_len d.decrypt_buf + (if d.bag_flag then 1 else 0)

-- Reading `k` bytes that are there, off a buffer that is ready.
module _ (d : PacketDecrypt) (v : IsReady d) (k : ℕ) (enough : k ≤ get_buf_len d.decrypt_buf) where
  abbrev rest : MyBuf
  rest = (get_buf_data d.decrypt_buf k).0

  taken : Taken d.decrypt_buf k (get_buf_data d.decrypt_buf k)
  taken =
      subst (λ (n : ℕ). Taken d.decrypt_buf n (get_buf_data d.decrypt_buf k))
        {x = min k (get_buf_len d.decrypt_buf)} (omega arith) (get_buf_data-Taken k v.valid)

  rest-len : get_buf_len rest + k ≡ get_buf_len d.decrypt_buf
  rest-len = omega (
    arith,
    ap (λ (x : List ℕ). length x) taken.holds,
    length-contents taken.valid,
    length-contents v.valid,
    length-drop k (contents d.decrypt_buf),
  )

  rest-IsBytes : IsBytes (contents rest)
  rest-IsBytes =
      subst IsBytes (sym taken.holds) (All-drop IsByte k (contents d.decrypt_buf) v.bytes)

  front-len : length (take k (contents d.decrypt_buf)) ≡ k
  front-len = omega (arith, length-take k (contents d.decrypt_buf), length-contents v.valid)

  front-rest : take k (contents d.decrypt_buf) ++ contents rest ≡ contents d.decrypt_buf
  front-rest =
      ap (◌++◌ (take k (contents d.decrypt_buf))) taken.holds
      ∙ take-append-drop k (contents d.decrypt_buf)

-- One round of the loop, from `d` to `after`, that hands on the bytes `out` of the stream.
pub record Round (d after : PacketDecrypt) (out : List ℕ) : Type 0 where
  pub ready : IsReady after
  pub same_view : out ++ view after ≡ view d
  pub less : measure after < measure d
  pub same_size : after.decrypt_buf.buf_size ≡ d.decrypt_buf.buf_size
  pub same_block : after.decrypt_buf.block ≡ d.decrypt_buf.block
  pub same_encryptor : after.encryptor ≡ d.encryptor

-- A round that reads a length.
pub read_len-Round :
    (d : PacketDecrypt)
    → IsReady d
    → d.bag_flag ≡ false
    → 4 ≤ get_buf_len d.decrypt_buf
    → Round d (read_len d) []
unfolding read_len measure
read_len-Round d v flag enough = record {
  ready = record {
    valid = (taken d v 4 enough).valid;
    bytes = rest-IsBytes d v 4 enough;
    len = le_value-lt4 head (front-len d v 4 enough) head_bytes;
  };
  same_view =
      ap (λ x. x ++ contents (rest d v 4 enough))
        (ap (λ k. le_bytes k (le_value head)) (sym (front-len d v 4 enough))
          ∙ le_bytes-le_value head head_bytes)
      ∙ front-rest d v 4 enough
      ∙ ap (λ f. pending f d.bag_len (contents d.decrypt_buf)) (sym flag);
  less = omega (arith, rest-len d v 4 enough);
  same_size = (taken d v 4 enough).same_size;
  same_block = (taken d v 4 enough).same_block;
  same_encryptor = refl;
}
  where
    head : List ℕ
    head = take 4 (contents d.decrypt_buf)

    head_bytes : IsBytes head
    head_bytes = All-take IsByte 4 (contents d.decrypt_buf) v.bytes

-- A round that ends a bag, with a length that fits the four bytes.
pub read_bag-Round :
    (d : PacketDecrypt)
    → IsReady d
    → d.bag_flag ≡ true
    → d.bag_len ≤ get_buf_len d.decrypt_buf
    → Round d (read_bag d).0 (frame (read_bag d).1) × IsShort (read_bag d).1
unfolding read_bag measure
read_bag-Round d v flag enough = (
  record {
    ready = record {
      valid = (taken d v d.bag_len enough).valid;
      bytes = rest-IsBytes d v d.bag_len enough;
      len = v.len;
    };
    same_view =
        ap (λ bs. frame bs ++ contents after) (taken d v d.bag_len enough).bytes
        ∙ unfold frame in
          append_assoc (le_bytes 4 (length front)) front (contents after)
          ∙ ap₂ (λ n x. le_bytes 4 n ++ x) (front-len d v d.bag_len enough)
              (front-rest d v d.bag_len enough)
          ∙ ap (λ f. pending f d.bag_len (contents d.decrypt_buf)) (sym flag);
    less =
        omega (
          arith,
          rest-len d v d.bag_len enough,
          ap {B = ℕ} (λ (f : Bool). if f then 1 else 0) flag,
        );
    same_size = (taken d v d.bag_len enough).same_size;
    same_block = (taken d v d.bag_len enough).same_block;
    same_encryptor = refl;
  },
  subst IsShort (sym (taken d v d.bag_len enough).bytes)
      (omega (arith, front-len d v d.bag_len enough, v.len)),
)
  where
    front : List ℕ
    front = take d.bag_len (contents d.decrypt_buf)

    after : MyBuf
    after = rest d v d.bag_len enough
