-- ===== src/Packet/Bags.antt =====
-- `BagProcess` of encrypt/packet_process.cpp whole: the bags that it hands on and the rest that it keeps.
use simple_module.Base.{
  ℕ, zero, suc, ◌<◌, ◌≡◌, refl, sym, ap, ◌∙◌, ◌⊎◌, inl, inr, Bool, true, false, List, [], ◌∷◌, ◌++◌,
  arith, All, append_assoc, subst, ltb, le→ltb, lt→ltb, lt_or_le, Bool-cases, if◌then◌else◌,
}
use simple_module.Base.Word.{le_value-le_bytes4}
use simple_module.Base.Outcome.{Outcome, done}
use simple_module.MyBuf.{get_buf_len}
use simple_module.MyBuf.Queue.{contents, length-contents}
use simple_module.Packet.{PacketDecrypt, read_len, read_bag, deliver, bag_process, bag_fuel}
use simple_module.Packet.Frames.{frame, frames, IsShort, IsPartial}
use simple_module.Packet.Rounds.{
  view, pending, IsReady, measure, Round, read_len-Round, read_bag-Round,
}

-- What a run of the loop comes to: it returns, the bags and what is kept make up what there was, no
-- bag that is complete is kept, and the buffer's block and `_BufSize` are as they were.
pub record Drained (d : PacketDecrypt) (r : Outcome (PacketDecrypt × List (List ℕ))) : Type 0 where
  pub after : PacketDecrypt
  pub bags : List (List ℕ)
  pub returns : r ≡ done (after, bags)
  pub exact : frames bags ++ view after ≡ view d
  pub short : All IsShort bags
  pub partial : IsPartial (view after)
  pub ready : IsReady after
  pub same_size : after.decrypt_buf.buf_size ≡ d.decrypt_buf.buf_size
  pub same_block : after.decrypt_buf.block ≡ d.decrypt_buf.block
  pub same_encryptor : after.encryptor ≡ d.encryptor

-- A loop that has stopped without handing anything on.
stop-Drained :
    (d : PacketDecrypt) {r : Outcome (PacketDecrypt × List (List ℕ))}
    → IsReady d
    → r ≡ done (d, [])
    → IsPartial (view d)
    → Drained d r
unfolding frames
stop-Drained d v e p = record {
  after = d;
  bags = [];
  returns = e;
  exact = refl;
  short = tt;
  partial = p;
  ready = v;
  same_size = refl;
  same_block = refl;
  same_encryptor = refl;
}

after_len-Drained :
    (d d' : PacketDecrypt) {r : Outcome (PacketDecrypt × List (List ℕ))}
    → Round d d' []
    → Drained d' r
    → Drained d r
after_len-Drained d d' b t = record {
  after = t.after;
  bags = t.bags;
  returns = t.returns;
  exact = t.exact ∙ b.same_view;
  short = t.short;
  partial = t.partial;
  ready = t.ready;
  same_size = t.same_size ∙ b.same_size;
  same_block = t.same_block ∙ b.same_block;
  same_encryptor = t.same_encryptor ∙ b.same_encryptor;
}

after_bag-Drained :
    (d d' : PacketDecrypt) (bag : List ℕ) {r : Outcome (PacketDecrypt × List (List ℕ))}
    → Round d d' (frame bag)
    → IsShort bag
    → Drained d' r
    → Drained d (deliver bag r)
unfolding frames
after_bag-Drained d d' bag b short t = record {
  after = t.after;
  bags = bag ∷ t.bags;
  returns = ap (deliver bag) t.returns;
  exact =
      append_assoc (frame bag) (frames t.bags) (view t.after)
      ∙ ap (◌++◌ (frame bag)) t.exact
      ∙ b.same_view;
  short = (short, t.short);
  partial = t.partial;
  ready = t.ready;
  same_size = t.same_size ∙ b.same_size;
  same_block = t.same_block ∙ b.same_block;
  same_encryptor = t.same_encryptor ∙ b.same_encryptor;
}

-- The loop, by what it finds.
bag_process-suc :
    (fuel : ℕ) (d : PacketDecrypt) (f : Bool)
    → d.bag_flag ≡ f
    → bag_process (suc fuel) d ≡ (
        if f
        then (if ltb (get_buf_len d.decrypt_buf) d.bag_len
            then done (d, [])
            else deliver (read_bag d).1 (bag_process fuel (read_bag d).0))
        else (if ltb (get_buf_len d.decrypt_buf) 4
            then done (d, [])
            else bag_process fuel (read_len d)))
unfolding bag_process
bag_process-suc fuel d f e =
    ap
      (λ (g : Bool).
        if g
        then (if ltb (get_buf_len d.decrypt_buf) d.bag_len
            then done (d, [])
            else deliver (read_bag d).1 (bag_process fuel (read_bag d).0))
        else (if ltb (get_buf_len d.decrypt_buf) 4
            then done (d, [])
            else bag_process fuel (read_len d)))
      e

few_for_bag :
    (d : PacketDecrypt)
    → IsReady d
    → d.bag_flag ≡ true
    → get_buf_len d.decrypt_buf < d.bag_len
    → IsPartial (view d)
few_for_bag d v flag few =
    subst (λ (f : Bool). IsPartial (pending f d.bag_len (contents d.decrypt_buf))) (sym flag)
      (inr (omega (arith, length-contents v.valid, le_value-le_bytes4 d.bag_len v.len)))

few_for_len :
    (d : PacketDecrypt)
    → IsReady d
    → d.bag_flag ≡ false
    → get_buf_len d.decrypt_buf < 4
    → IsPartial (view d)
few_for_len d v flag few =
    subst (λ (f : Bool). IsPartial (pending f d.bag_len (contents d.decrypt_buf))) (sym flag)
      (inl (omega (arith, length-contents v.valid)))

bag_process-Drained_fuel :
    (fuel : ℕ) (d : PacketDecrypt) → IsReady d → measure d < fuel → Drained d (bag_process fuel d)
bag_process-Drained_fuel zero d v m = absurd (omega arith)
bag_process-Drained_fuel (suc fuel) d v m = elim (Bool-cases d.bag_flag) [
  | inl flag ↦
      rw (bag_process-suc fuel d true flag) (elim (lt_or_le (get_buf_len d.decrypt_buf) d.bag_len) [
        | inl few ↦
            stop-Drained d v (rw (lt→ltb (get_buf_len d.decrypt_buf) d.bag_len few) refl)
              (few_for_bag d v flag few)
        | inr enough ↦
            let (b, short) = read_bag-Round d v flag enough in
            rw (le→ltb (get_buf_len d.decrypt_buf) d.bag_len enough) (
              after_bag-Drained d (read_bag d).0 (read_bag d).1 b short
                (bag_process-Drained_fuel fuel (read_bag d).0 b.ready (omega (arith, b.less))))
      ])
  | inr flag ↦
      rw (bag_process-suc fuel d false flag) (elim (lt_or_le (get_buf_len d.decrypt_buf) 4) [
        | inl few ↦
            stop-Drained d v (rw (lt→ltb (get_buf_len d.decrypt_buf) 4 few) refl)
              (few_for_len d v flag few)
        | inr enough ↦
            let b = read_len-Round d v flag enough in
            rw (le→ltb (get_buf_len d.decrypt_buf) 4 enough) (
              after_len-Drained d (read_len d) b
                (bag_process-Drained_fuel fuel (read_len d) b.ready (omega (arith, b.less))))
      ])
]

-- The loop of `BagProcess` ends, hands on the bags that are complete, in order, and keeps the rest.
pub bag_process-Drained : (d : PacketDecrypt) → IsReady d → Drained d (bag_process (bag_fuel d) d)
bag_process-Drained d v = bag_process-Drained_fuel (bag_fuel d) d v (enough (Bool-cases d.bag_flag))
  where
    enough : (d.bag_flag ≡ true) ⊎ (d.bag_flag ≡ false) → measure d < bag_fuel d
    enough h = unfold measure in ground arith
