-- ===== src/Cache/Hex.antt =====
-- daemon/src/cache/key.rs, `hex_encode`, `hex_decode` and `hex_value`: bytes as the text of a cache
-- key. A text is the list of its bytes.
use Prim.Native.Nat.{bit_or}
use import_lens.Prelude.{
  ℕ, ℕ_discrete, In, here, there, all, all-get, zero, suc, ◌+◌, ◌-◌, ◌*◌, ◌/◌, ◌%◌, ◌<◌, ◌≡◌, refl,
  List, [], ◌∷◌, Option, none, some, Bool, true, false, ◌&&◌, arith, leb, ◌==◌, if◌then◌else◌, All,
  codes, length,
}

infixl 5 ◌>>=◌
abbrev pub ◌>>=◌ {ℓ κ} : {A : Type ℓ} {B : Type κ} → Option A → (A → Option B) → Option B
none >>= f = none
some a >>= f = f a

-- The table `HEX`; the source indexes it below 16 only.
hex_table : List ℕ
hex_table = codes "0123456789abcdef"

byte_at : List ℕ → ℕ → ℕ
byte_at [] i = 0
byte_at (x ∷ xs) zero = x
byte_at (x ∷ xs) (suc i) = byte_at xs i

unfoldable pub hex_encode : List ℕ → List ℕ
unfolding hex_table byte_at
hex_encode [] = []
hex_encode (byte ∷ bytes) =
    byte_at hex_table (byte / 16) ∷ byte_at hex_table (byte % 16) ∷ hex_encode bytes

unfoldable pub hex_value : ℕ → Option ℕ
hex_value byte =
    if leb b'0' byte && leb byte b'9'
    then some (byte - b'0')
    else if leb b'a' byte && leb byte b'f'
    then some (byte - b'a' + 10)
    else if leb b'A' byte && leb byte b'F'
    then some (byte - b'A' + 10)
    else none

hex_pair : ℕ → ℕ → Option ℕ
hex_pair high low = do h ← hex_value high; l ← hex_value low; some (bit_or (h * 16 % 256) l)

-- The chunks of two, collected into an `Option`.
decode_chunks : List ℕ → Option (List ℕ)
decode_chunks (high ∷ low ∷ rest) = do
  byte ← hex_pair high low
  bytes ← decode_chunks rest
  some (byte ∷ bytes)
decode_chunks _ = some []

unfoldable pub hex_decode : List ℕ → Option (List ℕ)
unfolding decode_chunks hex_pair hex_value
hex_decode encoded = if length encoded % 2 == 0 then decode_chunks encoded else none

-- The bytes below a bound, to test each of them by evaluation.
bytes_below : ℕ → List ℕ
bytes_below zero = []
bytes_below (suc n) = n ∷ bytes_below n

In-bytes_below : (n x : ℕ) → x < n → In x (bytes_below n)
unfolding bytes_below
In-bytes_below zero x lt = absurd (omega arith)
In-bytes_below (suc n) x lt = elim (ℕ_discrete x n) [
  | yes e ↦ here e
  | no d ↦ there (In-bytes_below n x (omega arith))
]

reads_back : ℕ → Bool
reads_back x = elim (hex_pair (byte_at hex_table (x / 16)) (byte_at hex_table (x % 16))) [
  | none ↦ false
  | some y ↦ y == x
]

reads_back_table : all reads_back (bytes_below 256) ≡ true
unfolding bytes_below reads_back hex_pair hex_value hex_table byte_at
reads_back_table = refl

reads_back_sound :
    (x : ℕ) (o : Option ℕ) → (elim o [ none ↦ false | some y ↦ y == x ]) ≡ true → o ≡ some x
reads_back_sound x none h = cc
reads_back_sound x (some y) h = ground arith

hex_pair_byte :
    (x : ℕ) → x < 256 → hex_pair (byte_at hex_table (x / 16)) (byte_at hex_table (x % 16)) ≡ some x
unfolding reads_back
hex_pair_byte x h =
    reads_back_sound x _
      (all-get reads_back (bytes_below 256) reads_back_table (In-bytes_below 256 x h))

even_length-encode : (bytes : List ℕ) → length (hex_encode bytes) % 2 ≡ 0
unfolding hex_encode
even_length-encode [] = refl
even_length-encode (b ∷ bs) = omega (arith, even_length-encode bs)

decode_chunks-encode :
    (bytes : List ℕ) → All (λ b. b < 256) bytes → decode_chunks (hex_encode bytes) ≡ some bytes
unfolding decode_chunks hex_encode
decode_chunks-encode [] h = refl
decode_chunks-encode (b ∷ bs) h = ground (arith, hex_pair_byte b h.0, decode_chunks-encode bs h.1)

-- What is encoded reads back as the same bytes.
pub hex_decode-encode :
    (bytes : List ℕ) → All (λ b. b < 256) bytes → hex_decode (hex_encode bytes) ≡ some bytes
unfolding hex_decode
hex_decode-encode bytes h = ground (arith, even_length-encode bytes, decode_chunks-encode bytes h)
