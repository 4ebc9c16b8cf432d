-- ===== src/Pg/Sealing.antt =====
-- pg/sealer.go: the sealing of the tokens that porte_identities keeps. AES-GCM under the key that HKDF
-- derives from a secret, hex, base64 and the random nonce are parameters. Strings are Go's byte
-- strings.
pub mod Opening
use porte.Base.{
  ℕ, zero, suc, ◌+◌, ◌-◌, ◌/◌, ◌≤◌, ◌<◌, String, List, [], ◌∷◌, ◌++◌, Bool, true, false, not, ◌&&◌,
  ◌||◌, Option, none, some, ◌≡◌, ◌≢◌, refl, sym, ap, ◌∙◌, subst, ◌↔◌, ◌⊎◌, inl, inr, Memᴰ,
  string_eq, nat_eq, ◌==◌, beq_iff, beq_refl, ltb, leb, if◌then◌else◌, Bool-cases, Option-cases,
  length, All, keep, tally, map, arith, tests, first, any, amend,
}
use Prim.Native.String.{len}
use porte.Base.Strings.{GoStrings, split_at, append, cut_prefix}
use porte.Pg.Tables.{TokenSet}

-- The first n bytes and the rest, none where there are fewer.
unfoldable pub cut_at : ℕ → String → Option (String × String)
cut_at zero s = some ("", s)
cut_at (suc n) String.[] = none
cut_at (suc n) (String.◌∷◌ x s) = elim (cut_at n s) [
  | none ↦ none
  | some (front, back) ↦ some (String.◌∷◌ x front, back)
]

-- cipher.AEAD, the associated data given: a nonce and a plaintext are sealed, a nonce and a ciphertext
-- opened.
pub record Aead : Type 0 where
  pub nonce_size : ℕ
  pub seal_under : String → String → String
  pub open_under : String → String → Option String

-- The codecs and the derivation of a cipher from a secret, none where it fails.
pub record Codecs : Type 0 where
  pub strings : GoStrings
  pub decode_hex : String → Option String
  pub decode_base64 : String → Option String
  pub encode_url : String → String
  pub decode_url : String → Option String
  pub new_aead : String → Option Aead

pub data SealError : Type 0 where
  no_secret no_sealer bad_size no_cipher bad_secret token_unreadable no_entropy index_out_of_range :
      SealError

pub data Sealed {ℓ} (A : Type ℓ) : Type ℓ where
  ok : A → Sealed A
  err : SealError → Sealed A

-- A sealer's ciphers, newest first; the nil sealer is none.
abbrev pub TokenSealer : Type 0
TokenSealer = List Aead

abbrev pub sealed_prefix : String
sealed_prefix = "pv1:"

abbrev pub secret_size : ℕ
secret_size = 32

module _ (io : Codecs) where
  unfoldable pub add_ciphers : List String → Sealed TokenSealer
  add_ciphers [] = ok []
  add_ciphers (secret ∷ secrets) =
      let rest = add_ciphers secrets in
      if not (len secret == secret_size) then err bad_size else elim (io.new_aead secret) [
        | none ↦ err no_cipher
        | some aead ↦ elim rest [ ok aeads ↦ ok (aead ∷ aeads) | err e ↦ err e ]
      ]

  unfoldable pub new_token_sealer : List String → Sealed TokenSealer
  unfolding add_ciphers
  new_token_sealer [] = err no_secret
  new_token_sealer (secret ∷ secrets) = add_ciphers (secret ∷ secrets)

  abbrev right_size : Option String → Bool
  right_size none = false
  right_size (some secret) = len secret == secret_size

  unfoldable pub decode_secret : String → Option String
  decode_secret text =
      if right_size (io.decode_hex text)
      then io.decode_hex text
      else if right_size (io.decode_base64 text)
      then io.decode_base64 text
      else none

  unfoldable pub decode_secrets : List String → Option (List String)
  unfolding decode_secret
  decode_secrets [] = some []
  decode_secrets (part ∷ parts) =
      let rest = decode_secrets parts in
      elim (decode_secret (io.strings.trim_space part)) [
        | none ↦ none
        | some secret ↦ elim rest [ none ↦ none | some secrets ↦ some (secret ∷ secrets) ]
      ]

  unfoldable pub parse_token_sealer : String → Sealed (Option TokenSealer)
  unfolding decode_secrets new_token_sealer split_at
  parse_token_sealer text =
      let spec = io.strings.trim_space text in
      let (part, parts) = split_at b',' spec in
      if spec == "" then ok none else elim (decode_secrets (part ∷ parts)) [
        | none ↦ err bad_secret
        | some secrets ↦ elim (new_token_sealer secrets) [
          | ok aeads ↦ ok (some aeads)
          | err e ↦ err e
        ]
      ]

  -- The nonce is the random bytes, none when there are none to be had.
  unfoldable pub seal : Option TokenSealer → Option String → String → Sealed String
  unfolding append
  seal none random plain = ok plain
  seal (some aeads) random plain = if plain == "" then ok plain else elim aeads [
    | [] ↦ err index_out_of_range
    | aead ∷ _ ↦ elim random [
      | none ↦ err no_entropy
      | some bytes ↦
          ok (append sealed_prefix (io.encode_url (append bytes (aead.seal_under bytes plain))))
    ]
  ]

  -- The loop over the keys: the plaintext, and whether the first key of all opened it.
  unfoldable pub open_with : List Aead → Bool → String → Sealed (String × Bool)
  unfolding cut_at
  open_with [] is_first raw = err token_unreadable
  open_with (aead ∷ aeads) is_first raw =
      let rest = open_with aeads false raw in
      elim (cut_at aead.nonce_size raw) [
        | none ↦ err token_unreadable
        | some (nonce, text) ↦ elim (aead.open_under nonce text) [
          | some opened ↦ ok (opened, is_first)
          | none ↦ rest
        ]
      ]

  unfoldable pub open_stored : Option TokenSealer → String → Sealed (String × Bool)
  unfolding cut_prefix open_with
  open_stored sealer stored = elim (cut_prefix sealed_prefix stored) [
    | none ↦ ok (stored, false)
    | some body ↦ elim sealer [
      | none ↦ err token_unreadable
      | some aeads ↦ elim (io.decode_url body) [
        | none ↦ err token_unreadable
        | some raw ↦ open_with aeads true raw
      ]
    ]
  ]

  -- What a read gives for a stored value: a value that no key opens is absent.
  unfoldable pub opened : Option TokenSealer → String → String
  unfolding open_stored
  opened sealer stored = elim (open_stored sealer stored) [
    | ok (plain, current) ↦ plain
    | err e ↦ ""
  ]

  unfoldable pub open_tokens : Option TokenSealer → TokenSet → TokenSet
  unfolding opened
  open_tokens sealer t = record t {
    access_token = opened sealer t.access_token;
    refresh_token = opened sealer t.refresh_token;
  }

  unfoldable pub seal_tokens :
      Option TokenSealer → Option String → Option String → TokenSet → Sealed (String × String)
  unfolding seal
  seal_tokens sealer first_nonce second_nonce t = elim (seal sealer first_nonce t.access_token) [
    | err e ↦ err e
    | ok access ↦ elim (seal sealer second_nonce t.refresh_token) [
      | err e ↦ err e
      | ok refresh ↦ ok (access, refresh)
    ]
  ]
