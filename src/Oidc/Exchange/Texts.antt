-- ===== src/Oidc/Exchange/Texts.antt =====
-- The text that a mobile code is stored under: the code, a colon and the challenge.
use porte.Base.{ℕ, ◌+◌, String, ◌≡◌, refl, ap, suc, string_eq, nat_eq, arith}
use porte.Base.Strings.{append}
use porte.Oidc.Callback.{bound_code}

pub append-left : (a s t : String) → append a s ≡ append a t → s ≡ t
unfolding append
append-left String.[] s t e = e
append-left (String.◌∷◌ x a) s t e = append-left a s t (ground arith)

-- The number of bytes.
abbrev pub size : String → ℕ
size String.[] = 0
size (String.◌∷◌ x s) = suc (size s)

size-append : (s t : String) → size (append s t) ≡ size s + size t
unfolding append
size-append String.[] t = omega arith
size-append (String.◌∷◌ x s) t = ground (arith, size-append s t)

tail_of : String → String
tail_of String.[] = String.[]
tail_of (String.◌∷◌ x s) = s

-- Two texts with the same ending, in length, begin with the same text.
append-right : (a b s t : String) → append a s ≡ append b t → size s ≡ size t → (a ≡ b) × (s ≡ t)
unfolding append tail_of
append-right String.[] String.[] s t e n = (refl, e)
append-right String.[] (String.◌∷◌ y b) s t e n =
    let long : size s ≡ suc (size (append b t)) = ap size e in
    absurd (ground (arith, size-append b t))
append-right (String.◌∷◌ x a) String.[] s t e n =
    let long : suc (size (append a s)) ≡ size t = ap size e in
    absurd (ground (arith, size-append a s))
append-right (String.◌∷◌ x a) (String.◌∷◌ y b) s t e n =
    let (same, rest) = append-right a b s t (ap tail_of e) n in (ground arith, rest)

pub bound_code-inj :
    (sent code other challenge : String)
    → size other ≡ size challenge
    → bound_code sent other ≡ bound_code code challenge
    → (sent ≡ code) × (other ≡ challenge)
bound_code-inj sent code other challenge n e =
    let (same, rest) =
      append-right sent code (append ":" other) (append ":" challenge) e
        (ground (arith, size-append ":" other, size-append ":" challenge)) in
    (same, append-left ":" other challenge rest)
