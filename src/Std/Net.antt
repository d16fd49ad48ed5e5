-- ===== src/Std/Net.antt =====
-- `net.SplitHostPort` and `net.JoinHostPort`.
use edgelessdb.Prelude.{
  ℕ, ◌≡◌, false, not, ◌&&◌, ◌||◌, Option, none, some, [], ◌∷◌, ◌++◌, arith, Bytes, ◌==◌,
  if◌then◌else◌, Bool-cases, inl, inr,
}
use edgelessdb.Std.Strings.{contains_byte}

-- The text before the first `c` and the text behind it.
put_front : ℕ → Option (Bytes × Bytes) → Option (Bytes × Bytes)
put_front x none = none
put_front x (some (s, t)) = some (x ∷ s, t)

split_first : ℕ → Bytes → Option (Bytes × Bytes)
unfolding put_front
split_first c [] = none
split_first c (x ∷ s) = if x == c then some ([], s) else put_front x (split_first c s)

-- A bracketed host ends at the first `]`, which exactly one colon and the port must follow.
close_bracket : Option (Bytes × Bytes) → Option (Bytes × Bytes)
unfolding contains_byte
close_bracket none = none
close_bracket (some (host, [])) = none
close_bracket (some (host, c ∷ port)) =
    if c == b':'
      && not (
          contains_byte b':' port
          || contains_byte b'[' host
          || contains_byte b'[' port
          || contains_byte b']' port)
    then some (host, port)
    else none

-- Without brackets there is exactly one colon, and no bracket anywhere.
one_colon : Option (Bytes × Bytes) → Option (Bytes × Bytes)
unfolding contains_byte
one_colon none = none
one_colon (some (host, port)) =
    if contains_byte b':' port
      || contains_byte b'[' host
      || contains_byte b']' host
      || contains_byte b'[' port
      || contains_byte b']' port
    then none
    else some (host, port)

-- `net.SplitHostPort`; `none` stands for its errors, whose text nothing reads.
unfoldable pub split_host_port : Bytes → Option (Bytes × Bytes)
unfolding split_first close_bracket one_colon
split_host_port [] = none
split_host_port (c ∷ s) =
    if c == b'[' then close_bracket (split_first b']' s) else one_colon (split_first b':' (c ∷ s))

-- `net.JoinHostPort`
unfoldable pub join_host_port : Bytes × Bytes → Bytes
unfolding contains_byte
join_host_port (host, port) =
    if contains_byte b':' host then b'[' ∷ (host ++ (b']' ∷ b':' ∷ port)) else host ++ (b':' ∷ port)

split_first-append :
    (c : ℕ) (s t : Bytes) → contains_byte c s ≡ false → split_first c (s ++ (c ∷ t)) ≡ some (s, t)
unfolding split_first contains_byte
split_first-append c [] t h = ground arith
split_first-append c (x ∷ s) t h = ground (arith, split_first-append c s t)

-- No bracket occurs in the text.
abbrev pub IsPlain : Bytes → Type 0
IsPlain s = (contains_byte b'[' s ≡ false) × (contains_byte b']' s ≡ false)

-- Splitting undoes joining, for a host and a port with no brackets and a port with no colon.
pub split_host_port-join_host_port :
    (host port : Bytes)
    → IsPlain host
    → IsPlain port
    → contains_byte b':' port ≡ false
    → split_host_port (join_host_port (host, port)) ≡ some (host, port)
unfolding split_host_port join_host_port
split_host_port-join_host_port [] port h p c = ground arith
split_host_port-join_host_port (x ∷ host) port h p c =
    elim (Bool-cases (contains_byte b':' (x ∷ host))) [
      | inl six ↦ rw six (rw (split_first-append b']' (x ∷ host) (b':' ∷ port) h.1) (ground arith))
      | inr four ↦ rw four (ground (arith, split_first-append b':' (x ∷ host) port four))
    ]
