-- ===== src/Pg/Resealing/Tests.antt =====
-- Runs of the sealer and of a reseal at concrete inputs.
use porte.Base.{
  ℕ, String, [], ◌∷◌, Bool, true, false, ◌&&◌, ◌||◌, Option, none, some, ◌≡◌, refl, ap, ◌∙◌, subst,
  ◌⊎◌, inl, inr, string_eq, nat_eq, ◌==◌, beq_iff, ltb, if◌then◌else◌, Bool-cases, map, arith,
}
use Prim.Native.Char.{code}
use text.Mathlib.TextEquality.{Char-path}
use porte.Base.{text_ne}
use porte.Base.Strings.{append, cut_prefix, cut_prefix-append}
use porte.Pg.Tables.{StoredIdentity, Tables}
use porte.Pg.Sealing.{Aead, Codecs, TokenSealer, ok, cut_at, seal, open_stored, open_with}
use porte.Pg.Sealing.Opening.{IsCipher, open_stored-seal}
use porte.Pg.Resealing.{
  Draws, row_of, in_order, place, take, token_batch, reseal_rows, reseal_from, reseal_identities,
  reseal_row, reseal_value,
}
use porte.Pg.Resealing.Sorting.{IsOrder}
use porte.Pg.Resealing.Batches.{AreNonces}
use porte.Pg.Resealing.Reading.{AreReady, as_read, as_read-reseal_rows}
use porte.Pg.Resealing.Paging.{reseal_identities_ends}
use porte.Pg.Resealing.Idempotence.{reseal_again}

-- Texts by the codes of their characters.
text_below : String → String → Bool
text_below String.[] String.[] = false
text_below String.[] (String.◌∷◌ y t) = true
text_below (String.◌∷◌ x s) String.[] = false
text_below (String.◌∷◌ x s) (String.◌∷◌ y t) =
    let rest = text_below s t in
    if ltb (code x) (code y) then true else if ltb (code y) (code x) then false else rest

text_below_irreflexive : (s : String) → text_below s s ≡ false
unfolding text_below
text_below_irreflexive String.[] = refl
text_below_irreflexive (String.◌∷◌ x s) = ground (arith, text_below_irreflexive s)

text_below_trans :
    (s t u : String) → text_below s t ≡ true → text_below t u ≡ true → text_below s u ≡ true
unfolding text_below
text_below_trans String.[] String.[] u a b = absurd (cc)
text_below_trans String.[] (String.◌∷◌ y t) String.[] a b = absurd (cc)
text_below_trans String.[] (String.◌∷◌ y t) (String.◌∷◌ z u) a b = refl
text_below_trans (String.◌∷◌ x s) String.[] u a b = absurd (cc)
text_below_trans (String.◌∷◌ x s) (String.◌∷◌ y t) String.[] a b = absurd (cc)
text_below_trans (String.◌∷◌ x s) (String.◌∷◌ y t) (String.◌∷◌ z u) a b =
    ground (arith, text_below_trans s t u)

text_below_total : (s t : String) → (s ≡ t) ⊎ ((text_below s t ≡ true) ⊎ (text_below t s ≡ true))
unfolding text_below
text_below_total String.[] String.[] = inl refl
text_below_total String.[] (String.◌∷◌ y t) = inr (inl refl)
text_below_total (String.◌∷◌ x s) String.[] = inr (inr refl)
text_below_total (String.◌∷◌ x s) (String.◌∷◌ y t) = elim (text_below_total s t) [
  | inl e ↦ elim (Bool-cases (code x == code y)) [
    | inl c ↦
        let same : x ≡ y = Char-path x y ((beq_iff (code x) (code y)).0 c) in
        inl (ap (λ k. String.◌∷◌ k s) same ∙ ap (String.◌∷◌ y) e)
    | inr c ↦ inr (ground arith)
  ]
  | inr d ↦ inr (ground arith)
]

abbrev below : String × String → String × String → Bool
below (p, s) (q, t) = text_below p q || (p == q && text_below s t)

below-IsOrder : IsOrder below
below-IsOrder = (
  (λ (p, s). ground (arith, text_below_irreflexive p, text_below_irreflexive s)),
  (λ (p, s) (q, t) (r, u) a b. ground (
    arith,
    text_below_trans p q r,
    text_below_trans s t u,
    beq_iff p q,
    beq_iff q r,
    beq_iff p r,
  )),
  (λ (p, s) (q, t) n. elim (text_below_total p q) [
    | inr d ↦ ground arith
    | inl e ↦ elim (text_below_total s t) [
      | inr d ↦ ground (arith, beq_iff p q, beq_iff q p)
      | inl f ↦ absurd (n (ap (λ x. (x, s)) e ∙ ap (λ x. (q, x)) f))
    ]
  ]),
)

abbrev cipher_of : String → Aead
cipher_of mark = record {
  nonce_size = 1;
  seal_under = λ bytes plain. append mark plain;
  open_under = λ bytes text. cut_prefix mark text;
}

-- Secrets of any size, and codecs that change nothing.
abbrev io : Codecs
io = record {
  strings = record {
    to_lower = λ s. s;
    trim_space = λ s. s;
    append = append;
    equal_fold = λ s t. s == t;
  };
  decode_hex = λ s. none;
  decode_base64 = λ s. some s;
  encode_url = λ s. s;
  decode_url = λ s. some s;
  new_aead = λ s. some (cipher_of s);
}

abbrev current : Aead
current = cipher_of "S"

abbrev retired : Aead
retired = cipher_of "T"

current-IsCipher : IsCipher current
current-IsCipher bytes plain = cut_prefix-append "S" plain

abbrev draws : Draws
draws = record { for_access = λ row. some "n"; for_refresh = λ row. some "n" }

draws-AreNonces : AreNonces current draws
unfolding cut_at
draws-AreNonces row = (("n", refl, refl), ("n", refl, refl))

current-IsReady : AreReady (current ∷ retired ∷ []) draws
unfolding cut_at
current-IsReady row =
    ((current-IsCipher, λ bytes e. fits bytes e), (current-IsCipher, λ bytes e. fits bytes e))
  where
    drawn_of : Option String → String
    drawn_of none = ""
    drawn_of (some s) = s

    fits : (bytes : String) → some "n" ≡ some bytes → cut_at 1 bytes ≡ some (bytes, "")
    fits bytes e = subst (λ b. cut_at 1 b ≡ some (b, "")) (ap drawn_of e) refl

-- One token in the clear, one under the retired key.
abbrev ada : StoredIdentity
ada = record {
  user_id = 1;
  provider = "oidc";
  subject = "ada";
  password_hash = "";
  tokens = record { access_token = "tok"; refresh_token = "pv1:mTold"; expiry = 0 };
  roles = [];
  roles_synced_at = 0;
  synced_at = 0;
}

abbrev before : Tables
before = record {
  users = [];
  identities = ada ∷ [];
  sessions = [];
  codes = [];
  links = [];
  next_user = 1;
  next_session = 1;
  has_codes = true;
  has_links = true;
}

abbrev after : Tables
after = record before {
  identities =
      record ada {
        tokens = record { access_token = "pv1:nStok"; refresh_token = "pv1:nSold"; expiry = 0 };
      }
      ∷ [];
}

abbrev ring : Option TokenSealer
ring = some (current ∷ retired ∷ [])

reseal_run : reseal_identities io ring draws below 2 before ≡ some (ok (after, 1))
unfolding reseal_identities reseal_from token_batch in_order place take reseal_rows reseal_row
    reseal_value open_stored open_with cut_at cut_prefix seal append text_below
reseal_run = refl

reseal_again_example : reseal_identities io ring draws below 2 after ≡ some (ok (after, 0))
reseal_again_example =
    reseal_again below below-IsOrder io (λ s. refl) current current-IsCipher (retired ∷ []) draws
      draws draws-AreNonces 2 before after 1 (tt, tt) reseal_run

reseal_identities_ends_example :
    (r : Tables × ℕ) × (reseal_identities io ring draws below 2 before ≡ some (ok r))
reseal_identities_ends_example =
    reseal_identities_ends below io (current ∷ retired ∷ []) draws 2 before below-IsOrder
      (omega arith)

as_read-reseal_rows_example :
    map
      (as_read io (current ∷ retired ∷ []))
      (reseal_rows io ring draws before (row_of ada ∷ row_of ada ∷ [])).0.identities
    ≡ map (as_read io (current ∷ retired ∷ [])) before.identities
as_read-reseal_rows_example =
    as_read-reseal_rows io (λ s. refl) (current ∷ retired ∷ []) draws current-IsReady before
      (row_of ada ∷ row_of ada ∷ [])

open_stored-seal_example : open_stored io ring "pv1:mTold" ≡ ok ("old", false)
unfolding cut_at seal append cut_prefix
open_stored-seal_example =
    open_stored-seal io (current ∷ []) [] [] retired "m" "old" "pv1:mTold" (λ s. refl)
      (λ bytes plain. cut_prefix-append "T" plain) refl (text_ne "old" "" refl) ((refl, refl), tt)
      refl
