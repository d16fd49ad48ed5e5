-- ===== src/Std/Tests.antt =====
-- Runs of the library functions on the inputs of Go's own tests and of the program.
use edgelessdb.Prelude.{◌≡◌, refl, none, some, [], ◌∷◌, text}
use edgelessdb.Std.Hex.{encode_to_string, decode_string}
use edgelessdb.Std.Base64.{encode}
use edgelessdb.Std.Strings.{trim_prefix, itoa}
use edgelessdb.Std.FilePath.{clean, join_path}
use edgelessdb.Std.Net.{split_host_port, join_host_port}

hex_run : decode_string (encode_to_string (text "Az")) ≡ some (text "Az")
unfolding decode_string encode_to_string text
hex_run = refl

hex_odd : decode_string (text "abc") ≡ none
unfolding decode_string text
hex_odd = refl

base64_run : encode (text "hello") ≡ text "aGVsbG8="
unfolding encode text
base64_run = refl

itoa_run : itoa 3306 ≡ text "3306"
unfolding itoa text
itoa_run = refl

clean_runs :
    (clean (text "/a/../../b//c/.") ≡ text "/b/c")
    × (clean (text "../x/..") ≡ text "..")
    × (clean (text "a/..") ≡ text ".")
    × (join_path ([] ∷ text "data" ∷ text "#rocksdb" ∷ []) ≡ text "data/#rocksdb")
unfolding clean join_path text
clean_runs = (refl, refl, refl, refl)

contains_run : trim_prefix (text "/edg/hostfs/log") (text "/edg/hostfs") ≡ text "/log"
unfolding trim_prefix text
contains_run = refl

split_runs :
    (split_host_port (text "[::1]:80") ≡ some (text "::1", text "80"))
    × (split_host_port (text "::1") ≡ none)
    × (split_host_port (text "addr:") ≡ some (text "addr", []))
    × (join_host_port (text "::1", text "80") ≡ text "[::1]:80")
unfolding split_host_port join_host_port text
split_runs = (refl, refl, refl, refl)
