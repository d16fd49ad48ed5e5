-- ===== src/Std/FilePath.antt =====
-- `path/filepath` on Unix: `Clean`, `Join` and `IsAbs`.
use edgelessdb.Prelude.{
  Bool, false, ◌||◌, List, [], ◌∷◌, Bytes, text, bytes_eq, is_empty, ◌==◌, if◌then◌else◌,
}
use edgelessdb.Std.Strings.{join}

unfoldable pub is_abs : Bytes → Bool
is_abs [] = false
is_abs (c ∷ _) = c == b'/'

-- The parts of a path between its slashes; `part` holds the last one, backwards.
reverse_onto : Bytes → Bytes → Bytes
reverse_onto [] out = out
reverse_onto (x ∷ s) out = reverse_onto s (x ∷ out)

split_slash : Bytes → Bytes → List Bytes
unfolding reverse_onto
split_slash [] part = reverse_onto part [] ∷ []
split_slash (c ∷ s) part =
    let here = reverse_onto part [] ∷ split_slash s [] in
    let more = split_slash s (c ∷ part) in if c == b'/' then here else more

-- `..` takes the last part back, stays at the root, and is kept at the start of a relative path.
up : Bool → List Bytes → List Bytes
unfolding bytes_eq text
up rooted [] = if rooted then [] else text ".." ∷ []
up rooted (p ∷ parts) = if bytes_eq p (text "..") then text ".." ∷ p ∷ parts else parts

-- The parts that remain, last one first.
clean_parts : Bool → List Bytes → List Bytes → List Bytes
unfolding bytes_eq text up
clean_parts rooted [] done = done
clean_parts rooted (p ∷ parts) done = clean_parts rooted parts (
    if is_empty p || bytes_eq p (text ".")
    then done
    else if bytes_eq p (text "..")
    then up rooted done
    else p ∷ done)

reverse_parts : List Bytes → List Bytes → List Bytes
reverse_parts [] out = out
reverse_parts (p ∷ parts) out = reverse_parts parts (p ∷ out)

or_dot : Bytes → Bytes
unfolding text
or_dot [] = text "."
or_dot (c ∷ s) = c ∷ s

-- `filepath.Clean`
unfoldable pub clean : Bytes → Bytes
unfolding is_abs split_slash clean_parts reverse_parts or_dot join text
clean path =
    let rooted = is_abs path in
    let parts = reverse_parts (clean_parts rooted (split_slash path []) []) [] in
    let body = join parts (text "/") in if rooted then b'/' ∷ body else or_dot body

-- `filepath.Join`: leading empty elements are passed over, and nothing is joined to nothing.
unfoldable pub join_path : List Bytes → Bytes
unfolding clean join text
join_path [] = []
join_path ([] ∷ elems) = join_path elems
join_path ((c ∷ s) ∷ elems) = clean (join ((c ∷ s) ∷ elems) (text "/"))
