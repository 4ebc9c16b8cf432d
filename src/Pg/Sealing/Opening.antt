-- ===== src/Pg/Sealing/Opening.antt =====
-- What a sealed token reads back as.
use porte.Base.{
  ℕ, zero, suc, String, List, [], ◌∷◌, ◌++◌, Bool, true, false, ◌&&◌, Option, none, some, ◌≡◌, ◌≢◌,
  refl, sym, ap, ◌∙◌, inl, inr, string_eq, nat_eq, beq_iff, Option-cases, All, arith,
}
use Prim.Native.Char.{Char}
use porte.Base.Strings.{append, cut_prefix, cut_prefix-append}
use porte.Pg.Sealing.{cut_at, Aead, Codecs, ok, sealed_prefix, seal, open_with, open_stored}

-- What is decoded is what was encoded.
abbrev pub IsCodec : Codecs → Type 0
IsCodec io = (s : String) → io.decode_url (io.encode_url s) ≡ some s

-- What the cipher sealed under a nonce, it opens under it.
abbrev pub IsCipher : Aead → Type 0
IsCipher k = (bytes plain : String) → k.open_under bytes (k.seal_under bytes plain) ≡ some plain

-- As many bytes as a nonce of the cipher has.
abbrev pub IsNonce : Aead → String → Type 0
IsNonce k bytes = cut_at k.nonce_size bytes ≡ some (bytes, "")

-- A key under which what another one sealed does not open.
abbrev pub IsOther : Aead → String → String → Aead → Type 0
IsOther key bytes plain k =
    (k.nonce_size ≡ key.nonce_size) × (k.open_under bytes (key.seal_under bytes plain) ≡ none)

abbrev pub is_nil : List Aead → Bool
is_nil [] = true
is_nil (k ∷ ks) = false

tail_of : String → String
tail_of String.[] = ""
tail_of (String.◌∷◌ x s) = s

has_text : String → Bool
has_text String.[] = false
has_text (String.◌∷◌ x s) = true

front_of : Option (String × String) → String
front_of none = ""
front_of (some (front, back)) = front

back_of : Option (String × String) → String
back_of none = ""
back_of (some (front, back)) = back

abbrev pushed : Char → Option (String × String) → Option (String × String)
pushed x none = none
pushed x (some (front, back)) = some (String.◌∷◌ x front, back)

cut_at-append :
    (n : ℕ) (s t : String) → cut_at n s ≡ some (s, "") → cut_at n (append s t) ≡ some (s, t)
unfolding cut_at append tail_of has_text front_of back_of
cut_at-append zero String.[] t e = refl
cut_at-append zero (String.◌∷◌ x s) t e =
    absurd (let apart = ap (λ o. has_text (front_of o)) e in ground arith)
cut_at-append (suc n) String.[] t e = absurd (cc)
cut_at-append (suc n) (String.◌∷◌ x s) t e = elim (Option-cases (cut_at n s)) [
  | inl shorter ↦ absurd (ground arith)
  | inr ((front, back), cut) ↦
      let split : ◌≡◌ {A = Option (String × String)} (some (String.◌∷◌ x front, back))
          (some (String.◌∷◌ x s, "")) =
        sym (ap (pushed x) cut) ∙ e in
      let first : front ≡ s = ap (λ o. tail_of (front_of o)) split in
      let last : back ≡ "" = ap back_of split in
      let whole : cut_at n s ≡ some (s, "") =
        cut ∙ ap (λ f. some (f, back)) first ∙ ap (λ b. some (s, b)) last in
      ap (pushed x) (cut_at-append n s t whole)
]

open_with-append :
    (io : Codecs) (newer older : List Aead) (key : Aead) (is_first : Bool) (bytes plain : String)
    → IsCipher key
    → IsNonce key bytes
    → All (IsOther key bytes plain) newer
    → open_with io (newer ++ key ∷ older) is_first (append bytes (key.seal_under bytes plain))
      ≡ ok (plain, is_first && is_nil newer)
unfolding open_with
open_with-append io [] older key is_first bytes plain c n others =
    ground (arith, cut_at-append key.nonce_size bytes (key.seal_under bytes plain) n, c bytes plain)
open_with-append io (k ∷ newer) older key is_first bytes plain c n ((size, silent), others) =
    let cut : cut_at k.nonce_size (append bytes (key.seal_under bytes plain))
        ≡ some (bytes, key.seal_under bytes plain) =
      ap (λ w. cut_at w (append bytes (key.seal_under bytes plain))) size
      ∙ cut_at-append key.nonce_size bytes (key.seal_under bytes plain) n in
    ground (arith, open_with-append io newer older key false bytes plain c n others)

module _ (io : Codecs) where
  seal-stored :
      (key : Aead) (retired : List Aead) (bytes plain stored : String)
      → plain ≢ ""
      → seal io (some (key ∷ retired)) (some bytes) plain ≡ ok stored
      → stored ≡ append sealed_prefix (io.encode_url (append bytes (key.seal_under bytes plain)))
  unfolding seal
  seal-stored key retired bytes plain stored text e = ground (arith, beq_iff plain "")

  -- A rotation loses no token: what a sealer seals under its first key, which opens what it seals, opens
  -- to the same text under every list of keys that still has that key, whatever keys that do not open it
  -- were put in front and whichever were dropped behind it. It is current exactly while no newer key is
  -- there.
  pub open_stored-seal :
      (newer retired older : List Aead) (key : Aead) (bytes plain stored : String)
      → IsCodec io
      → IsCipher key
      → IsNonce key bytes
      → plain ≢ ""
      → All (IsOther key bytes plain) newer
      → seal io (some (key ∷ retired)) (some bytes) plain ≡ ok stored
      → open_stored io (some (newer ++ key ∷ older)) stored ≡ ok (plain, is_nil newer)
  unfolding open_stored
  open_stored-seal newer retired older key bytes plain stored codec cipher fit text others e =
      let raw = append bytes (key.seal_under bytes plain) in
      let body : cut_prefix sealed_prefix stored ≡ some (io.encode_url raw) =
        ap (cut_prefix sealed_prefix) (seal-stored key retired bytes plain stored text e)
        ∙ cut_prefix-append sealed_prefix (io.encode_url raw) in
      ground
        (arith, codec raw, open_with-append io newer older key true bytes plain cipher fit others)
