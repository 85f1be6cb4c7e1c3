-- ===== src/Cipher/Tests.antt =====
-- Runs of the cipher, and its theorems at concrete inputs.
use simple_module.Base.{ℕ, ◌+◌, ◌-◌, ◌^◌, ◌≡◌, refl, List, [], ◌∷◌, arith, length, none, concat}
use simple_module.Cipher.{
  SimpleXor, new_simple_xor, next_seed, fill_dic, set_seed, xmake, xmake_all, encrypt, decrypt,
}
use simple_module.Cipher.RoundTrip.{
  IsUnseeded, encrypt_all, decrypt_all, decrypt_all-encrypt_all, decrypt_all_short,
}

abbrev sender : SimpleXor
sender = new_simple_xor 7 9

abbrev receiver : SimpleXor
receiver = new_simple_xor 200 0

sender-IsUnseeded : IsUnseeded sender
sender-IsUnseeded = record { no_seed = refl; size = refl }

receiver-IsUnseeded : IsUnseeded receiver
receiver-IsUnseeded = record { no_seed = refl; size = refl }

abbrev hello : List ℕ
hello = b'h' ∷ b'e' ∷ b'l' ∷ b'l' ∷ b'o' ∷ []

abbrev seed : ℕ
seed = 0x12345678

-- Two messages of one conversation, cut after the first byte that follows the seed.
abbrev first_block : List ℕ
first_block = 120 ∷ 86 ∷ 52 ∷ 18 ∷ 111 ∷ []

abbrev second_block : List ℕ
second_block = 186 ∷ 190 ∷ 144 ∷ 148 ∷ 186 ∷ 121 ∷ 51 ∷ 46 ∷ 149 ∷ []

sent : concat (first_block ∷ second_block ∷ []) ≡ (encrypt_all sender seed (hello ∷ hello ∷ [])).1
unfolding encrypt_all encrypt set_seed fill_dic next_seed xmake_all xmake
sent = refl

-- A negative `int` is shifted with its sign: -8 is followed by -73.
next_seed_negative : next_seed (2 ^ 32 - 8) ≡ 2 ^ 32 - 73
unfolding next_seed
next_seed_negative = refl

too_short : (decrypt receiver (1 ∷ 2 ∷ 3 ∷ [])).1 ≡ none
unfolding decrypt
too_short = refl

decrypt_all-encrypt_all_example :
    (decrypt_all receiver (first_block ∷ second_block ∷ [])).1 ≡ concat (hello ∷ hello ∷ [])
decrypt_all-encrypt_all_example =
    decrypt_all-encrypt_all sender receiver seed hello (hello ∷ []) first_block (second_block ∷ [])
      sender-IsUnseeded receiver-IsUnseeded (omega arith) (omega arith) sent

decrypt_all_short_example :
    (decrypt_all receiver ((120 ∷ 86 ∷ []) ∷ second_block ∷ [])
      ≡ decrypt_all receiver (second_block ∷ []))
    × (length (decrypt_all receiver ((120 ∷ 86 ∷ []) ∷ second_block ∷ [])).1 + 2
        ≡ length (decrypt_all receiver ((120 ∷ 86 ∷ second_block) ∷ [])).1)
decrypt_all_short_example =
    decrypt_all_short receiver (120 ∷ 86 ∷ []) second_block [] receiver-IsUnseeded (omega arith)
      (omega arith)
