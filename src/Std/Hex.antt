-- ===== src/Std/Hex.antt =====
-- `encoding/hex`: what edb/core/key.go and edb/server/server.go use of it.
use edgelessdb.Prelude.{
  ℕ, ◌+◌, ◌-◌, ◌*◌, ◌/◌, ◌%◌, ◌<◌, ◌≡◌, refl, Bool, ◌&&◌, Option, none, some, [], ◌∷◌, arith, Bytes,
  All, leb, ltb, length, if◌then◌else◌,
}

digit : ℕ → ℕ
digit n = if ltb n 10 then b'0' + n else b'a' + (n - 10)

-- `hex.EncodeToString`
unfoldable pub encode_to_string : Bytes → Bytes
unfolding digit
encode_to_string [] = []
encode_to_string (b ∷ bs) = digit (b / 16) ∷ digit (b % 16) ∷ encode_to_string bs

between : ℕ → ℕ → ℕ → Bool
between lo hi c = leb lo c && leb c hi

from_digit : ℕ → Option ℕ
unfolding between
from_digit c =
    if between b'0' b'9' c
    then some (c - b'0')
    else if between b'a' b'f' c
    then some (c - b'a' + 10)
    else if between b'A' b'F' c
    then some (c - b'A' + 10)
    else none

pair : Option ℕ → Option ℕ → Option Bytes → Option Bytes
pair (some hi) (some lo) (some bs) = some ((hi * 16 + lo) ∷ bs)
pair _ _ _ = none

-- `hex.DecodeString`; `none` stands for its two errors, a byte that is no digit and an odd length.
unfoldable pub decode_string : Bytes → Option Bytes
unfolding from_digit pair
decode_string [] = some []
decode_string (_ ∷ []) = none
decode_string (a ∷ b ∷ s) = pair (from_digit a) (from_digit b) (decode_string s)

from_digit-digit : (n : ℕ) → n < 16 → from_digit (digit n) ≡ some n
unfolding from_digit digit
from_digit-digit n h = ground arith

-- Decoding undoes encoding on bytes.
pub decode_string-encode_to_string :
    (bs : Bytes) → All (λ b. b < 256) bs → decode_string (encode_to_string bs) ≡ some bs
unfolding encode_to_string decode_string
decode_string-encode_to_string [] h = refl
decode_string-encode_to_string (b ∷ bs) h =
    rw
      (
        from_digit-digit (b / 16) (omega arith),
        from_digit-digit (b % 16) (omega arith),
        decode_string-encode_to_string bs h.1,
      )
      (ground arith)

pub length-encode_to_string : (bs : Bytes) → length (encode_to_string bs) ≡ 2 * length bs
unfolding encode_to_string
length-encode_to_string [] = refl
length-encode_to_string (b ∷ bs) = omega (arith, length-encode_to_string bs)
