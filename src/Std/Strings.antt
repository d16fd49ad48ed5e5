-- ===== src/Std/Strings.antt =====
-- `strings` and `strconv`: searching, joining and printing.
use edgelessdb.Prelude.{
  ℕ, zero, suc, ◌+◌, ◌/◌, ◌%◌, Bool, true, false, ◌&&◌, ◌||◌, List, [], ◌∷◌, ◌++◌, Bytes, ltb, ◌==◌,
  if◌then◌else◌,
}

-- `strings.IndexByte(s, c) >= 0`
unfoldable pub contains_byte : ℕ → Bytes → Bool
contains_byte c [] = false
contains_byte c (x ∷ s) = x == c || contains_byte c s

unfoldable pub starts_with : Bytes → Bytes → Bool
starts_with s [] = true
starts_with [] (_ ∷ _) = false
starts_with (x ∷ s) (y ∷ p) = x == y && starts_with s p

-- `strings.Contains`
unfoldable pub contains : Bytes → Bytes → Bool
unfolding starts_with
contains [] p = starts_with [] p
contains (x ∷ s) p = starts_with (x ∷ s) p || contains s p

-- `strings.TrimPrefix`
after_prefix : Bytes → Bytes → Bytes
after_prefix s [] = s
after_prefix [] (_ ∷ _) = []
after_prefix (_ ∷ s) (_ ∷ p) = after_prefix s p

unfoldable pub trim_prefix : Bytes → Bytes → Bytes
unfolding starts_with after_prefix
trim_prefix s p = if starts_with s p then after_prefix s p else s

-- `strings.Join`
unfoldable pub join : List Bytes → Bytes → Bytes
join [] sep = []
join (s ∷ []) sep = s
join (s ∷ t ∷ ts) sep = s ++ (sep ++ join (t ∷ ts) sep)

-- The decimal digits of a number, on fuel: a number has fewer digits than its successor.
decimal : ℕ → ℕ → Bytes → Bytes
decimal zero n out = out
decimal (suc f) n out =
    let more = decimal f (n / 10) ((b'0' + n % 10) ∷ out) in
    if ltb n 10 then (b'0' + n) ∷ out else more

-- `strconv.Itoa` on a number that is not negative.
unfoldable pub itoa : ℕ → Bytes
unfolding decimal
itoa n = decimal (suc n) n []
