-- ===== src/Contracts/CanonicalHash/Sha256.antt =====
-- `sha256Hex` of packages/contracts/src/canonical-hash.ts. Words are numbers below 2 ^ 32; the
-- source's signed intermediate results are reduced by `>>> 0` to the same words.
use Prim.Native.Nat.{bit_and, bit_or, bit_xor}
use Prim.Native.String
use liminal_engine.Prelude.{
  ℕ, zero, suc, ◌+◌, ◌-◌, ◌*◌, ◌/◌, ◌%◌, ◌^◌, ltb, String, ◌≡◌, refl, List, [], ◌∷◌, ◌++◌, length,
  if◌then◌else◌,
}

abbrev word : ℕ
word = 2 ^ 32

abbrev get_or : List ℕ → ℕ → ℕ → ℕ
get_or [] i d = d
get_or (x ∷ xs) zero d = x
get_or (x ∷ xs) (suc i) d = get_or xs i d

abbrev replicate : ℕ → ℕ → List ℕ
replicate zero a = []
replicate (suc n) a = a ∷ replicate n a

-- `TextEncoder.encode`: UTF-8.
abbrev utf8_code : ℕ → List ℕ
utf8_code c =
    if ltb c 0x80
    then c ∷ []
    else if ltb c 0x800
    then (0xc0 + c / 64) ∷ (0x80 + c % 64) ∷ []
    else if ltb c 0x10000
    then (0xe0 + c / 4096) ∷ (0x80 + c / 64 % 64) ∷ (0x80 + c % 64) ∷ []
    else (0xf0 + c / 262144) ∷ (0x80 + c / 4096 % 64) ∷ (0x80 + c / 64 % 64) ∷ (0x80 + c % 64) ∷ []

abbrev encode : List ℕ → List ℕ
encode [] = []
encode (c ∷ s) = utf8_code c ++ encode s

-- `((n + 9 + 63) >> 6) << 6`
unfoldable pub padded_length : ℕ → ℕ
padded_length n = (n + 9 + 63) / 64 * 64

abbrev big_endian : ℕ → List ℕ
big_endian w = (w / 2 ^ 24 % 256) ∷ (w / 2 ^ 16 % 256) ∷ (w / 2 ^ 8 % 256) ∷ (w % 256) ∷ []

-- The message, the byte 0x80, zeros, and the length in bits as two words.
unfoldable pub pad : List ℕ → List ℕ
unfolding padded_length
pad bytes =
    let bit_length = length bytes * 8 in
    bytes
    ++ 0x80 ∷ replicate (padded_length (length bytes) - length bytes - 9) 0
    ++ big_endian (bit_length / word)
    ++ big_endian (bit_length % word)

abbrev right_rotate : ℕ → ℕ → ℕ
right_rotate x n = bit_or (x / 2 ^ n) (x * 2 ^ (32 - n) % word)

abbrev xor3 : ℕ → ℕ → ℕ → ℕ
xor3 a b c = bit_xor (bit_xor a b) c

-- w[i] for 16 ≤ i < 64
next_word : List ℕ → ℕ → ℕ
next_word w i =
    let w15 = get_or w (i - 15) 0 in
    let w2 = get_or w (i - 2) 0 in
    let s0 = xor3 (right_rotate w15 7) (right_rotate w15 18) (w15 / 2 ^ 3) in
    let s1 = xor3 (right_rotate w2 17) (right_rotate w2 19) (w2 / 2 ^ 10) in
    (get_or w (i - 16) 0 + s0 + get_or w (i - 7) 0 + s1) % word

schedule : ℕ → ℕ → List ℕ → List ℕ
schedule zero i w = w
schedule (suc rounds) i w = schedule rounds (i + 1) (w ++ next_word w i ∷ [])

sha256_k : List ℕ
sha256_k =
    0x428a2f98 ∷ 0x71374491 ∷ 0xb5c0fbcf ∷ 0xe9b5dba5 ∷ 0x3956c25b ∷ 0x59f111f1 ∷ 0x923f82a4
    ∷ 0xab1c5ed5 ∷ 0xd807aa98 ∷ 0x12835b01 ∷ 0x243185be ∷ 0x550c7dc3 ∷ 0x72be5d74 ∷ 0x80deb1fe
    ∷ 0x9bdc06a7 ∷ 0xc19bf174 ∷ 0xe49b69c1 ∷ 0xefbe4786 ∷ 0x0fc19dc6 ∷ 0x240ca1cc ∷ 0x2de92c6f
    ∷ 0x4a7484aa ∷ 0x5cb0a9dc ∷ 0x76f988da ∷ 0x983e5152 ∷ 0xa831c66d ∷ 0xb00327c8 ∷ 0xbf597fc7
    ∷ 0xc6e00bf3 ∷ 0xd5a79147 ∷ 0x06ca6351 ∷ 0x14292967 ∷ 0x27b70a85 ∷ 0x2e1b2138 ∷ 0x4d2c6dfc
    ∷ 0x53380d13 ∷ 0x650a7354 ∷ 0x766a0abb ∷ 0x81c2c92e ∷ 0x92722c85 ∷ 0xa2bfe8a1 ∷ 0xa81a664b
    ∷ 0xc24b8b70 ∷ 0xc76c51a3 ∷ 0xd192e819 ∷ 0xd6990624 ∷ 0xf40e3585 ∷ 0x106aa070 ∷ 0x19a4c116
    ∷ 0x1e376c08 ∷ 0x2748774c ∷ 0x34b0bcb5 ∷ 0x391c0cb3 ∷ 0x4ed8aa4a ∷ 0x5b9cca4f ∷ 0x682e6ff3
    ∷ 0x748f82ee ∷ 0x78a5636f ∷ 0x84c87814 ∷ 0x8cc70208 ∷ 0x90befffa ∷ 0xa4506ceb ∷ 0xbef9a3f7
    ∷ 0xc67178f2 ∷ []

-- The working variables a to h, and the digest words h0 to h7.
record State : Type 0 where
  a : ℕ
  b : ℕ
  c : ℕ
  d : ℕ
  e : ℕ
  f : ℕ
  g : ℕ
  h : ℕ

round : ℕ → ℕ → State → State
round k w s =
    let s1 = xor3 (right_rotate s.e 6) (right_rotate s.e 11) (right_rotate s.e 25) in
    let ch = bit_xor (bit_and s.e s.f) (bit_and (bit_xor s.e 0xffffffff) s.g) in
    let temp1 = (s.h + s1 + ch + k + w) % word in
    let s0 = xor3 (right_rotate s.a 2) (right_rotate s.a 13) (right_rotate s.a 22) in
    let maj = xor3 (bit_and s.a s.b) (bit_and s.a s.c) (bit_and s.b s.c) in
    let temp2 = (s0 + maj) % word in
    record {
      a = (temp1 + temp2) % word;
      b = s.a;
      c = s.b;
      d = s.c;
      e = (s.d + temp1) % word;
      f = s.e;
      g = s.f;
      h = s.g;
    }

rounds : List ℕ → List ℕ → State → State
rounds [] ws s = s
rounds (k ∷ ks) [] s = s
rounds (k ∷ ks) (w ∷ ws) s = rounds ks ws (round k w s)

add_state : State → State → State
add_state s t = record {
  a = (s.a + t.a) % word;
  b = (s.b + t.b) % word;
  c = (s.c + t.c) % word;
  d = (s.d + t.d) % word;
  e = (s.e + t.e) % word;
  f = (s.f + t.f) % word;
  g = (s.g + t.g) % word;
  h = (s.h + t.h) % word;
}

-- `view.getUint32` of each four bytes.
words : List ℕ → List ℕ
words (x ∷ y ∷ z ∷ u ∷ bytes) = (x * 2 ^ 24 + y * 2 ^ 16 + z * 2 ^ 8 + u) ∷ words bytes
words _ = []

take : ℕ → List ℕ → List ℕ
take zero xs = []
take (suc n) [] = []
take (suc n) (x ∷ xs) = x ∷ take n xs

drop : ℕ → List ℕ → List ℕ
drop zero xs = xs
drop (suc n) [] = []
drop (suc n) (x ∷ xs) = drop n xs

-- The loop over the blocks of sixteen words.
blocks : ℕ → List ℕ → State → State
blocks zero ws s = s
blocks (suc n) ws s =
    blocks n (drop 16 ws) (add_state s (rounds sha256_k (schedule 48 16 (take 16 ws)) s))

initial : State
initial = record {
  a = 0x6a09e667;
  b = 0xbb67ae85;
  c = 0x3c6ef372;
  d = 0xa54ff53a;
  e = 0x510e527f;
  f = 0x9b05688c;
  g = 0x1f83d9ab;
  h = 0x5be0cd19;
}

abbrev hex_digit : ℕ → String
hex_digit n = String.slice "0123456789abcdef" n (n + 1)

-- `value.toString(16).padStart(8, "0")`
hex_digits : ℕ → ℕ → String
hex_digits zero x = ""
hex_digits (suc n) x = String.◌++◌ (hex_digits n (x / 16)) (hex_digit (x % 16))

unfoldable pub sha256_hex : List ℕ → String
unfolding pad next_word schedule sha256_k round rounds add_state words take drop blocks initial
    hex_digits
sha256_hex input =
    let padded = pad (encode input) in
    let s = blocks (length padded / 64) (words padded) initial in
    String.◌++◌ (hex_digits 8 s.a) (
      String.◌++◌ (hex_digits 8 s.b) (
        String.◌++◌ (hex_digits 8 s.c) (
          String.◌++◌ (hex_digits 8 s.d) (
            String.◌++◌ (hex_digits 8 s.e) (
              String.◌++◌ (hex_digits 8 s.f)
                (String.◌++◌ (hex_digits 8 s.g) (hex_digits 8 s.h)))))))

abc :
    sha256_hex (b'a' ∷ b'b' ∷ b'c' ∷ [])
    ≡ "ba7816bf8f01cfea414140de5dae2223b00361a396177a9cb410ff61f20015ad"
unfolding sha256_hex
abc = refl
