-- ===== src/Core/Initialize.antt =====
-- `Initialize` (edb/core/core.go): the recovery key that it hands out.
use edgelessdb.Prelude.{
  ℕ, inl, inr, Bool, ◌≡◌, ◌∙◌, refl, ap, arith, true, false, Option, none, some, [], ◌∷◌, Bytes,
  String,
}
use edgelessdb.World.{
  World, Config, Host, recovery, initialized, PublicKey, rsa_public, other_public, ok, on_ok, val,
  tick, after, from_option, from_result, decode_recovery_key_failed,
}
use edgelessdb.Db.Interface.{Database}
use edgelessdb.Core.States.{lock, defer_unlock, locked, unlocked, set_core}
use edgelessdb.Core.Key.Progress.{must_init_master_key-Keeps}
use edgelessdb.Core.Key.Start.{must_init_master_key_state}
use edgelessdb.Core.Lifecycle.{
  encrypt_for, encrypt_recovery_key, fresh_core, new_core, initialize, schedule_restart,
}
use edgelessdb.Core.Recovery.{defer_unlock-eq_ok}

-- What `Initialize` gives for a recovery key of the manifest: nothing for an empty one, and else the
-- encryption of the master key for the RSA key in it.
abbrev pub IsRecoveryFor : Host → Bytes → Bytes → Option Bytes → Type 0
IsRecoveryFor h [] master_key c = c ≡ none
IsRecoveryFor h (x ∷ pem) master_key c =
    (block : Bytes) × (modulus : Bytes) × (draw : ℕ) × (ciphertext : Bytes) × (h.pem_decode
        (x ∷ pem)
      ≡ some block)
    × (h.parse_pkix block ≡ val (rsa_public modulus))
    × (h.encrypt_oaep draw modulus master_key ≡ val ciphertext)
    × (c ≡ some ciphertext)

module _ (h : Host) {D : Type 0} where
  encrypt_for-eq_ok :
      (public : PublicKey) (key : Bytes) (c : Option Bytes) (w v : World D)
      → encrypt_for h public key w ≡ ok c v
      → (modulus : Bytes) × (draw : ℕ) × (ciphertext : Bytes) × (public ≡ rsa_public modulus)
        × (h.encrypt_oaep draw modulus key ≡ val ciphertext)
        × (c ≡ some ciphertext)
  encrypt_for-eq_ok other_public key c w v e = cc
  encrypt_for-eq_ok (rsa_public modulus) key c w v e =
      on_ok (from_result (h.encrypt_oaep w.os.ticks modulus key)) _ _ e
        λ ct u e1 r1. (modulus, w.os.ticks, ct, refl, ground arith, cc)

  encrypt_recovery_key-eq_ok :
      (key pem : Bytes) (c : Option Bytes) (w v : World D)
      → encrypt_recovery_key h key pem w ≡ ok c v
      → IsRecoveryFor h pem key c
  unfolding encrypt_recovery_key
  encrypt_recovery_key-eq_ok key [] c w v e = cc
  encrypt_recovery_key-eq_ok key (x ∷ pem) c w v e =
      on_ok (from_option decode_recovery_key_failed (h.pem_decode (x ∷ pem))) _ w e λ block u e1 r1.
        on_ok (from_result (h.parse_pkix block)) _ u r1 λ public u2 e2 r2.
          let (modulus, draw, ct, kind, made, given) = encrypt_for-eq_ok public key c u2 v r2 in
          let parsed : h.parse_pkix block ≡ val public = ground arith in
          (block, modulus, draw, ct, ground arith, rw kind at parsed, made, given)

module _ (root_ca_var : String) (h : Host) {D : Type 0} (db : Database D) where
  -- An `Initialize` that returned no error has scheduled the restart and given the mutex back, and
  -- the database has returned no error for the manifest. What it hands out is the master key that
  -- the node had, encrypted for the manifest's recovery key, which is an RSA key; and nothing if
  -- the manifest has an empty recovery key.
  pub initialize_lem :
      (manifest : Bytes) (c : Option Bytes) (w w' : World D)
      → initialize root_ca_var h db manifest w ≡ ok c w'
      → (pem : Bytes) × (h.json_recovery manifest ≡ val pem)
        × IsRecoveryFor h pem w.core.master_key c
        × ((before : World D) × (after : World D) × (db.initialize manifest before ≡ ok tt after))
        × (w'.os.restart_due ≡ true)
        × (w'.core.locked ≡ false)
  unfolding initialize
  initialize_lem manifest c w w' e =
      on_ok (from_result (h.json_recovery manifest)) _ w e λ pem w1 e1 r1.
        on_ok (encrypt_recovery_key h w1.core.master_key pem) _ w1 r1 λ c' w2 e2 r2.
          on_ok lock _ w2 r2 λ _ w3 e3 r3.
            let (v, body, free) = defer_unlock-eq_ok _ c w3 w' r3 in
            on_ok (db.initialize manifest) _ w3 body λ _ w4 e4 r4.
              let s1 : w1 ≡ w = ground arith in
              let same : c' ≡ c = cc in
              let s5 : v.os.restart_due ≡ true = ground arith in
              (
                pem,
                ground arith,
                rw (same, s1) at (encrypt_recovery_key-eq_ok h w1.core.master_key pem c' w1 w2 e2),
                (w3, w4, e4),
                ap (λ (u : World D). u.os.restart_due) free ∙ s5,
                ap (λ (u : World D). u.core.locked) free,
              )

  new_core_unlocked :
      (config : Config) (marble : Bool) (u v : World D)
      → new_core h config marble u ≡ ok tt v
      → v.core.locked ≡ false
  unfolding new_core
  new_core_unlocked config marble u v made =
      ap (λ x. x.0)
        (rw made at ((must_init_master_key-Keeps h).kept (set_core (fresh_core config marble) u)))

  recovering_key :
      (config : Config) (marble : Bool) (u v : World D)
      → new_core h config marble u ≡ ok tt v
      → v.core.state ≡ recovery
      → v.core.master_key ≡ []
  unfolding new_core
  recovering_key config marble u v made waiting =
      elim (must_init_master_key_state h (set_core (fresh_core config marble) u) v made) [
        | inl (up, _) ↦ clash up
        | inr (_, same) ↦ same
      ]
    where
      clash : v.core.state ≡ initialized → v.core.master_key ≡ []
      clash up = cc

  -- A node that has entered recovery applies a manifest all the same: if the manifest's recovery key
  -- is a PEM block with an RSA key that encrypts the empty string, and the database applies the
  -- manifest, then `Initialize` returns no error, has scheduled the restart and given the mutex back,
  -- and hands out that encryption of no bytes at all as the recovery key.
  pub initialize-new_core :
      (config : Config) (marble : Bool) (manifest : Bytes) (x : ℕ) (pem block modulus c : Bytes)
      (u v w : World D)
      → new_core h config marble u ≡ ok tt v
      → v.core.state ≡ recovery
      → h.json_recovery manifest ≡ val (x ∷ pem)
      → h.pem_decode (x ∷ pem) ≡ some block
      → h.parse_pkix block ≡ val (rsa_public modulus)
      → h.encrypt_oaep v.os.ticks modulus [] ≡ val c
      → db.initialize manifest (locked (after (tick v))) ≡ ok tt w
      → initialize root_ca_var h db manifest v ≡ ok (some c) (unlocked (after (schedule_restart w)))
  unfolding initialize encrypt_recovery_key lock defer_unlock
  initialize-new_core config marble manifest x pem block modulus c u v w made waiting read decoded
        parsed encrypted applied =
      let free : v.core.locked ≡ false = new_core_unlocked config marble u v made in
      let none_yet : v.core.master_key ≡ [] = recovering_key config marble u v made waiting in
      ground arith
