-- ===== src/Local/Hashing.antt =====
-- A hash that local/password.go writes, read back.
use porte.Base.{
  ℕ, String, List, [], ◌∷◌, Bool, true, not, ◌&&◌, some, ◌≡◌, refl, ap, ◌∙◌, string_eq, nat_eq,
  ◌==◌, length, arith,
}
use Prim.Native.Char.{code}
use porte.Base.Strings.{split_at, append}
use porte.Local.Password.{
  Crypto, costs, key_length, argon2_version, prefix, same_bytes, hash_password, verify_password,
}

-- No character of the text has the code.
abbrev pub lacks : ℕ → String → Bool
lacks c String.[] = true
lacks c (String.◌∷◌ x s) = not (code x == c) && lacks c s

split_at-append :
    (c : ℕ) (s t : String)
    → lacks c s ≡ true
    → split_at c (append s t) ≡ (append s (split_at c t).0, (split_at c t).1)
unfolding split_at append
split_at-append c String.[] t h = refl
split_at-append c (String.◌∷◌ x s) t h = ground (arith, split_at-append c s t)

split_at-lacks : (c : ℕ) (s : String) → lacks c s ≡ true → split_at c s ≡ (s, [])
unfolding split_at
split_at-lacks c String.[] h = refl
split_at-lacks c (String.◌∷◌ x s) h = ground (arith, split_at-lacks c s)

split_prefix :
    (t : String)
    → split_at b'$' (append prefix t)
      ≡ ("", "argon2id" ∷ "v=19" ∷ "m=65536,t=3,p=2" ∷ (split_at b'$' t).0 ∷ (split_at b'$' t).1)
unfolding split_at append
split_prefix t = refl

-- Base64 reads the bytes back, and writes no dollar sign.
pub record IsReadable (c : Crypto) (bytes : List ℕ) : Type 0 where
  pub back : c.decode (c.encode bytes) ≡ some bytes
  pub plain : lacks b'$' (c.encode bytes) ≡ true

-- What the two scanners read out of the constant part of a hash.
pub record IsScanned (c : Crypto) : Type 0 where
  pub version : c.scan_version "v=19" ≡ some argon2_version
  pub settings : c.scan_costs "m=65536,t=3,p=2" ≡ some costs

same_bytes_refl : (bytes : List ℕ) → same_bytes bytes bytes ≡ true
same_bytes_refl [] = refl
same_bytes_refl (x ∷ xs) = ground (arith, same_bytes_refl xs)

pub append-nil : (s : String) → append s "" ≡ s
unfolding append
append-nil String.[] = refl
append-nil (String.◌∷◌ x s) = ap (String.◌∷◌ x) (append-nil s)

split_hash :
    (salt key : String)
    → lacks b'$' salt ≡ true
    → lacks b'$' key ≡ true
    → split_at b'$' (append prefix (append salt (append "$" key)))
      ≡ ("", "argon2id" ∷ "v=19" ∷ "m=65536,t=3,p=2" ∷ salt ∷ key ∷ [])
unfolding split_at append
split_hash salt key hs hk =
    split_prefix (append salt (append "$" key))
    ∙ rw
        (split_at-append b'$' salt (append "$" key) hs, split_at-lacks b'$' key hk, append-nil salt)
        refl

-- A password verifies against the hash that was made of it: base64 reads the salt and the key back
-- and writes no dollar sign, the scanners read the constant part, and a key has the length asked for.
pub verify_password-hash_password :
    (c : Crypto) (password : String) (salt : List ℕ)
    → IsScanned c
    → IsReadable c salt
    → IsReadable c (c.id_key password salt costs key_length)
    → length (c.id_key password salt costs key_length) ≡ key_length
    → (hash : String) × (hash_password c password (some salt) ≡ some hash)
      × (verify_password c password hash ≡ true)
unfolding hash_password verify_password
verify_password-hash_password c password salt scanned readable key_readable sized =
    let key = c.id_key password salt costs key_length in
    (
      append prefix (append (c.encode salt) (append "$" (c.encode key))),
      refl,
      rw
          (
            split_hash (c.encode salt) (c.encode key) readable.plain key_readable.plain,
            scanned.version,
            scanned.settings,
            readable.back,
            key_readable.back,
            sized,
          )
          (same_bytes_refl key),
    )
