-- ===== src/Cipher/RoundTrip.antt =====
-- A whole conversation: one cipher encrypts the messages in turn, the transport cuts the stream where
-- it likes, and another cipher decrypts the pieces as they come (`WriteData` and `PacketOnRead` of
-- client_func.h and server_func.h each call one of the two).
use simple_module.Base.{
  ℕ, ◌+◌, ◌^◌, ◌≤◌, ◌<◌, ◌≡◌, refl, sym, ap, ◌∙◌, true, false, Option, none, some, List, [], ◌∷◌,
  ◌++◌, arith, length, take, drop, concat, length-append, length-drop, take-append, drop-append,
  take-append_self, drop-append_self, le→ltb, lt→ltb, Bool-cases, inl, inr, All-append,
}
use simple_module.Base.Word.{
  IsByte, IsBytes, le_bytes, le_value, length-le_bytes, le_value-le_bytes4, le_bytes-IsBytes,
}
use simple_module.Cipher.{SimpleXor, dic_size, set_seed, xmake_all, encrypt, decrypt}
use simple_module.Cipher.Keys.{dic-set_seed, keys-IsBytes}
use simple_module.Cipher.Stream.{
  SameKey, xmake_all-append, seed_flag-xmake_all, length-xmake_all, xmake_all_undo,
  xmake_all-IsBytes,
}

-- A cipher whose dictionary is the array of `DIC_SIZE` bytes that its constructor makes.
pub record IsUnseeded (x : SimpleXor) : Type 0 where
  pub no_seed : x.seed_flag ≡ false
  pub size : length x.dic ≡ dic_size

-- All the bytes that one cipher sends for the messages, in order.
unfoldable pub encrypt_all : SimpleXor → ℕ → List (List ℕ) → SimpleXor × List ℕ
encrypt_all x rand [] = (x, [])
encrypt_all x rand (m ∷ ms) =
    let (x', os) = encrypt x rand m in let (x'', ps) = encrypt_all x' rand ms in (x'', os ++ ps)

-- What a call of `Decrypt` hands on: nothing for the null pointer.
abbrev pub output : Option (List ℕ) → List ℕ
output none = []
output (some bs) = bs

unfoldable pub decrypt_all : SimpleXor → List (List ℕ) → SimpleXor × List ℕ
decrypt_all y [] = (y, [])
decrypt_all y (c ∷ cs) =
    let (y', o) = decrypt y c in let (y'', ps) = decrypt_all y' cs in (y'', output o ++ ps)

encrypt_seeded :
    (x : SimpleXor) (r : ℕ) (m : List ℕ) → x.seed_flag ≡ true → encrypt x r m ≡ xmake_all x m
unfolding encrypt
encrypt_seeded x r m s = rw s refl

decrypt_seeded :
    (y : SimpleXor) (c : List ℕ)
    → y.seed_flag ≡ true
    → decrypt y c ≡ ((xmake_all y c).0, some (xmake_all y c).1)
unfolding decrypt
decrypt_seeded y c s = rw s refl

pub encrypt_all_seeded :
    (x : SimpleXor) (r : ℕ) (ms : List (List ℕ))
    → x.seed_flag ≡ true
    → encrypt_all x r ms ≡ xmake_all x (concat ms)
unfolding encrypt_all
encrypt_all_seeded x r [] s = unfold xmake_all in refl
encrypt_all_seeded x r (m ∷ ms) s =
    rw
      (
        encrypt_seeded x r m s,
        encrypt_all_seeded (xmake_all x m).0 r ms (seed_flag-xmake_all x m ∙ s),
      )
      (sym (xmake_all-append x m (concat ms)))

decrypt_all_seeded :
    (y : SimpleXor) (cs : List (List ℕ))
    → y.seed_flag ≡ true
    → decrypt_all y cs ≡ xmake_all y (concat cs)
unfolding decrypt_all
decrypt_all_seeded y [] s = unfold xmake_all in refl
decrypt_all_seeded y (c ∷ cs) s =
    rw (decrypt_seeded y c s, decrypt_all_seeded (xmake_all y c).0 cs (seed_flag-xmake_all y c ∙ s))
      (sym (xmake_all-append y c (concat cs)))

-- The first message is preceded by the seed; all of them are one run of the loop.
pub encrypt_all_first :
    (x : SimpleXor) (r : ℕ) (m : List ℕ) (ms : List (List ℕ))
    → x.seed_flag ≡ false
    → (encrypt_all x r (m ∷ ms)).1 ≡ le_bytes 4 r ++ (xmake_all (set_seed x r) (m ++ concat ms)).1
unfolding encrypt_all encrypt set_seed
encrypt_all_first x r m ms s =
    rw
      (
        s,
        encrypt_all_seeded (xmake_all (set_seed x r) m).0 r ms
            (seed_flag-xmake_all (set_seed x r) m),
      )
      (ap (λ (t : SimpleXor × List ℕ). le_bytes 4 r ++ t.1)
        (sym (xmake_all-append (set_seed x r) m (concat ms))))

-- A first piece of four bytes or more gives the seed; all pieces are one run of the loop.
decrypt_all_first :
    (y : SimpleXor) (c : List ℕ) (cs : List (List ℕ))
    → y.seed_flag ≡ false
    → 4 ≤ length c
    → (decrypt_all y (c ∷ cs)).1
      ≡ (xmake_all (set_seed y (le_value (take 4 c))) (drop 4 c ++ concat cs)).1
unfolding decrypt_all decrypt set_seed
decrypt_all_first y c cs s long =
    rw
      (
        s,
        le→ltb (length c) 4 long,
        decrypt_all_seeded (xmake_all (set_seed y (le_value (take 4 c))) (drop 4 c)).0 cs
            (seed_flag-xmake_all (set_seed y (le_value (take 4 c))) (drop 4 c)),
      )
      (ap (λ (t : SimpleXor × List ℕ). t.1)
        (sym (xmake_all-append (set_seed y (le_value (take 4 c))) (drop 4 c) (concat cs))))

-- After `SetSeed` with one seed, two ciphers agree, whatever they held.
set_seed-SameKey :
    (x y : SimpleXor) (s : ℕ) → IsUnseeded x → IsUnseeded y → SameKey (set_seed x s) (set_seed y s)
set_seed-SameKey x y s u v = record {
  dic = dic-set_seed x s u.size ∙ sym (dic-set_seed y s v.size);
  place = unfold set_seed in refl;
}

-- What one unseeded cipher sends for a list of messages, another unseeded cipher turns back into
-- their bytes, wherever the stream is cut, if the first piece has at least four bytes.
pub decrypt_all-encrypt_all :
    (x y : SimpleXor) (r : ℕ) (m : List ℕ) (ms : List (List ℕ)) (c : List ℕ) (cs : List (List ℕ))
    → IsUnseeded x
    → IsUnseeded y
    → r < 2 ^ 32
    → 4 ≤ length c
    → concat (c ∷ cs) ≡ (encrypt_all x r (m ∷ ms)).1
    → (decrypt_all y (c ∷ cs)).1 ≡ concat (m ∷ ms)
decrypt_all-encrypt_all x y r m ms c cs u v word long cut =
    decrypt_all_first y c cs v.no_seed long
    ∙ ap (λ (w : ℕ). (xmake_all (set_seed y w) (drop 4 c ++ concat cs)).1) seed
    ∙ ap (λ (bs : List ℕ). (xmake_all (set_seed y r) bs).1) body
    ∙ (xmake_all_undo (set_seed x r) (set_seed y r) (m ++ concat ms) (set_seed-SameKey x y r u v)).1
  where
    sent : List ℕ
    sent = (xmake_all (set_seed x r) (m ++ concat ms)).1

    stream : c ++ concat cs ≡ le_bytes 4 r ++ sent
    stream = cut ∙ encrypt_all_first x r m ms u.no_seed

    seed : le_value (take 4 c) ≡ r
    seed =
        ap le_value (
          sym (take-append 4 c (concat cs) long)
          ∙ ap (take 4) stream
          ∙ take-append_self 4 (le_bytes 4 r) sent (length-le_bytes 4 r))
        ∙ le_value-le_bytes4 r word

    body : drop 4 c ++ concat cs ≡ sent
    body =
        sym (drop-append 4 c (concat cs) long)
        ∙ ap (drop 4) stream
        ∙ drop-append_self 4 (le_bytes 4 r) sent (length-le_bytes 4 r)

-- For a cipher with no seed yet, a first piece of fewer than four bytes before one of at least four is
-- lost: what follows is decrypted as if it came first, and the bytes that come out are fewer by the length
-- of the piece than those of the stream in which the two come as one.
pub decrypt_all_short :
    (y : SimpleXor) (c d : List ℕ) (cs : List (List ℕ))
    → IsUnseeded y
    → length c < 4
    → 4 ≤ length d
    → (decrypt_all y (c ∷ d ∷ cs) ≡ decrypt_all y (d ∷ cs))
      × (length (decrypt_all y (c ∷ d ∷ cs)).1 + length c
          ≡ length (decrypt_all y ((c ++ d) ∷ cs)).1)
decrypt_all_short y c d cs v short long = (skip, rw skip sizes)
  where
    skip : decrypt_all y (c ∷ d ∷ cs) ≡ decrypt_all y (d ∷ cs)
    skip = unfold decrypt_all decrypt in rw (v.no_seed, lt→ltb (length c) 4 short) refl

    run_length :
        (b : List ℕ)
        → 4 ≤ length b
        → length (decrypt_all y (b ∷ cs)).1 + 4 ≡ length b + length (concat cs)
    run_length b h =
        let body = drop 4 b ++ concat cs in
        let x = set_seed y (le_value (take 4 b)) in
        omega (
          arith,
          ap (λ (t : List ℕ). length t) (decrypt_all_first y b cs v.no_seed h),
          length-xmake_all x body,
          length-append (drop 4 b) (concat cs),
          length-drop 4 b,
        )

    sizes : length (decrypt_all y (d ∷ cs)).1 + length c ≡ length (decrypt_all y ((c ++ d) ∷ cs)).1
    sizes = omega (
      arith,
      run_length d long,
      run_length (c ++ d) (omega (arith, length-append c d)),
      length-append c d,
    )

-- A seeded cipher or an unseeded one, both send bytes, if they are given bytes.
encrypt-IsBytes :
    (x : SimpleXor) (r : ℕ) (m : List ℕ)
    → length x.dic ≡ dic_size
    → IsBytes x.dic
    → IsBytes m
    → IsBytes (encrypt x r m).1
unfolding set_seed
encrypt-IsBytes x r m size d h = elim (Bool-cases x.seed_flag) [
  | inl s ↦ rw (encrypt_seeded x r m s) (xmake_all-IsBytes x m d h)
  | inr s ↦
      unfold encrypt in
      rw s (
        All-append IsByte (le_bytes 4 r) (xmake_all (set_seed x r) m).1 (le_bytes-IsBytes 4 r) (
          xmake_all-IsBytes (set_seed x r) m (rw (dic-set_seed x r size) (keys-IsBytes dic_size r))
            h))
]
