-- ===== src/Db/Util/Address.antt =====
-- `splitHostPort` (edb/db/util.go) on addresses of every form.
use edgelessdb.Prelude.{
  ℕ, Bool-cases, inl, inr, ◌≡◌, ◌≢◌, refl, false, Option, none, some, Bytes, [], ◌∷◌, text,
  is_empty,
}
use edgelessdb.Std.Net
use edgelessdb.Std.Net.{IsPlain, split_host_port-join_host_port}
use edgelessdb.Std.Strings.{contains_byte}
use edgelessdb.Db.Util.{fill_in, split_host_port, any_address}

any_address_nonempty : any_address ≢ []
unfolding text
any_address_nonempty e = cc

fill_in_nonempty :
    (address port : Bytes) (parts : Option (Bytes × Bytes))
    → address ≢ []
    → port ≢ []
    → ((fill_in address port parts).0 ≢ []) × ((fill_in address port parts).1 ≢ [])
fill_in_nonempty address port none a p = (a, p)
fill_in_nonempty address port (some ([], [])) a p = (any_address_nonempty, p)
fill_in_nonempty address port (some ([], c ∷ s)) a p = (any_address_nonempty, λ e. cc)
fill_in_nonempty address port (some (c ∷ s, [])) a p = ((λ e. cc), p)
fill_in_nonempty address port (some (c ∷ s, d ∷ t)) a p = ((λ e. cc), (λ e. cc))

-- Whatever the address, there is a host, and a port, if there is a default port.
pub split_host_port_nonempty :
    (address port : Bytes)
    → port ≢ []
    → ((split_host_port address port).0 ≢ []) × ((split_host_port address port).1 ≢ [])
unfolding split_host_port
split_host_port_nonempty [] port p = (any_address_nonempty, p)
split_host_port_nonempty (c ∷ s) port p =
    fill_in_nonempty (c ∷ s) port (Net.split_host_port (c ∷ s)) (λ e. cc) p

joined_nonempty : (c : ℕ) (s port : Bytes) → is_empty (Net.join_host_port (c ∷ s, port)) ≡ false
unfolding Net.join_host_port
joined_nonempty c s port = elim (Bool-cases (contains_byte b':' (c ∷ s))) [
  | inl six ↦ rw six
  | inr four ↦ rw four
]

-- A host and a port that `net.JoinHostPort` has joined are split again, whatever the default port:
-- if neither is empty or holds a bracket, and the port holds no colon.
pub split_host_port-join_host_port_lem :
    (host port fallback : Bytes)
    → host ≢ []
    → port ≢ []
    → IsPlain host
    → IsPlain port
    → contains_byte b':' port ≡ false
    → split_host_port (Net.join_host_port (host, port)) fallback ≡ (host, port)
unfolding split_host_port
split_host_port-join_host_port_lem [] port fallback h p hp pp c = absurd (h refl)
split_host_port-join_host_port_lem (x ∷ s) [] fallback h p hp pp c = absurd (p refl)
split_host_port-join_host_port_lem (x ∷ s) (d ∷ t) fallback h p hp pp c =
    rw (joined_nonempty x s (d ∷ t), split_host_port-join_host_port (x ∷ s) (d ∷ t) hp pp c) refl
