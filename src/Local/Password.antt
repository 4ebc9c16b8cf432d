-- ===== src/Local/Password.antt =====
-- local/password.go. Argon2, base64 and fmt's scanner are parameters, as is the random salt; a byte
-- slice is a list of numbers.
use porte.Base.{
  ℕ, ◌%◌, String, List, [], ◌∷◌, Bool, true, false, not, ◌&&◌, Option, none, some, string_eq,
  nat_eq, ◌==◌, if◌then◌else◌, length,
}
use porte.Base.Strings.{split_at, append}

pub record Costs : Type 0 where
  pub memory : ℕ
  pub iterations : ℕ
  pub parallelism : ℕ

-- What the package takes from its libraries: argon2.IDKey by password, salt, costs and key length,
-- base64.RawStdEncoding, and fmt.Sscanf with the two layouts `v=%d` and `m=%d,t=%d,p=%d`.
pub record Crypto : Type 0 where
  pub id_key : String → List ℕ → Costs → ℕ → List ℕ
  pub encode : List ℕ → String
  pub decode : String → Option (List ℕ)
  pub scan_version : String → Option ℕ
  pub scan_costs : String → Option Costs

abbrev pub costs : Costs
costs = record { memory = 65536; iterations = 3; parallelism = 2 }

abbrev pub key_length : ℕ
key_length = 32

abbrev pub argon2_version : ℕ
argon2_version = 19

abbrev pub prefix : String
prefix = "$argon2id$v=19$m=65536,t=3,p=2$"

abbrev pub same_bytes : List ℕ → List ℕ → Bool
same_bytes [] [] = true
same_bytes (x ∷ xs) (y ∷ ys) = x == y && same_bytes xs ys
same_bytes _ _ = false

module _ (c : Crypto) where
  unfoldable pub hash_password : String → Option (List ℕ) → Option String
  hash_password password none = none
  hash_password password (some salt) = some (
      append prefix
        (append (c.encode salt) (append "$" (c.encode (c.id_key password salt costs key_length)))))

  -- The key of the right length for the stored one, from the password and the stored settings.
  abbrev matches : String → Option Costs → Option (List ℕ) → Option (List ℕ) → Bool
  matches password (some settings) (some salt) (some want) =
      same_bytes (c.id_key password salt settings (length want % 4294967296)) want
  matches password _ _ _ = false

  abbrev verify_parts : String → List String → Bool
  verify_parts password (scheme ∷ version ∷ settings ∷ salt ∷ key ∷ []) =
      if not (scheme == "argon2id") then false else elim (c.scan_version version) [
        | none ↦ false
        | some v ↦
            if not (v == argon2_version)
            then false
            else matches password (c.scan_costs settings) (c.decode salt) (c.decode key)
      ]
  verify_parts password _ = false

  unfoldable pub verify_password : String → String → Bool
  unfolding split_at
  verify_password password encoded = verify_parts password (split_at b'$' encoded).1
