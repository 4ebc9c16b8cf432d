-- ===== src/MagicLink/Memory/Keyed.antt =====
-- Hashes that differ from row to row, through every write of the reference store.
use porte.Base.{
  ℕ, String, List, [], ◌∷◌, ◌++◌, Bool, false, some, ◌≡◌, refl, ◌∙◌, inl, inr, string_eq, nat_eq,
  ◌==◌, beq_iff, Bool-cases, Option-cases, keep, arith, any, amend,
}
use porte.Base.{any-append}
use porte.Pg.Tables.{MagicLink}
use porte.MagicLink.Memory.{Row, is_spendable, spend}
use porte.MagicLink.Memory.Rows.{IsKeyed}

pub any-amend_hash :
    (hash : String) (at : ℕ) (p : Row → Bool) (rows : List Row)
    → any (λ t. t.link.token_hash == hash) (amend p (λ r. record r { consumed_at = at }) rows)
      ≡ any (λ t. t.link.token_hash == hash) rows
any-amend_hash hash at p [] = refl
any-amend_hash hash at p (r ∷ rows) = ground (arith, any-amend_hash hash at p rows)

pub amend-IsKeyed :
    (at : ℕ) (p : Row → Bool) (rows : List Row)
    → IsKeyed rows
    → IsKeyed (amend p (λ r. record r { consumed_at = at }) rows)
amend-IsKeyed at p [] h = tt
amend-IsKeyed at p (r ∷ rows) (alone, h) = elim (Bool-cases (p r)) [
  | inl e ↦ rw e (any-amend_hash r.link.token_hash at p rows ∙ alone, amend-IsKeyed at p rows h)
  | inr e ↦ rw e (any-amend_hash r.link.token_hash at p rows ∙ alone, amend-IsKeyed at p rows h)
]

pub snoc-IsKeyed :
    (link : MagicLink) (rows : List Row)
    → any (λ r. r.link.token_hash == link.token_hash) rows ≡ false
    → IsKeyed rows
    → IsKeyed (rows ++ record { link = link; consumed_at = 0 } ∷ [])
snoc-IsKeyed link [] new h = (refl, tt)
snoc-IsKeyed link (r ∷ rows) new (alone, h) = (
  ground (
    arith,
    any-append (λ t. t.link.token_hash == r.link.token_hash) rows
        (record { link = link; consumed_at = 0 } ∷ []),
    beq_iff r.link.token_hash link.token_hash,
    beq_iff link.token_hash r.link.token_hash,
  ),
  snoc-IsKeyed link rows (ground arith) h,
)

pub any-keep_hash :
    (hash : String) (p : Row → Bool) (rows : List Row)
    → any (λ t. t.link.token_hash == hash) rows ≡ false
    → any (λ t. t.link.token_hash == hash) (keep p rows) ≡ false
any-keep_hash hash p [] h = refl
any-keep_hash hash p (r ∷ rows) h = ground (arith, any-keep_hash hash p rows)

pub keep-IsKeyed : (p : Row → Bool) (rows : List Row) → IsKeyed rows → IsKeyed (keep p rows)
keep-IsKeyed p [] h = tt
keep-IsKeyed p (r ∷ rows) (alone, h) = elim (Bool-cases (p r)) [
  | inl e ↦ rw e (any-keep_hash r.link.token_hash p rows alone, keep-IsKeyed p rows h)
  | inr e ↦ rw e (keep-IsKeyed p rows h)
]

pub any-spend_hash :
    (hash other : String) (now : ℕ) (rows rows' : List Row) (user : ℕ)
    → spend hash now rows ≡ some (rows', user)
    → any (λ t. t.link.token_hash == other) rows' ≡ any (λ t. t.link.token_hash == other) rows
unfolding spend
any-spend_hash hash other now [] rows' user e = absurd (cc)
any-spend_hash hash other now (r ∷ rows) rows' user e =
    elim (Bool-cases (is_spendable hash now r)) [
      | inl here ↦
          let written : rows' ≡ record r { consumed_at = now } ∷ rows = ground arith in
          rw written refl
      | inr there ↦ elim (Option-cases (spend hash now rows)) [
        | inl unspent ↦ absurd (ground arith)
        | inr ((rest, u), spent) ↦
            let written : rows' ≡ r ∷ rest = ground arith in
            let same = any-spend_hash hash other now rows rest u spent in rw written (ground arith)
      ]
    ]

pub spend-IsKeyed :
    (hash : String) (now : ℕ) (rows rows' : List Row) (user : ℕ)
    → spend hash now rows ≡ some (rows', user)
    → IsKeyed rows
    → IsKeyed rows'
unfolding spend
spend-IsKeyed hash now [] rows' user e h = absurd (cc)
spend-IsKeyed hash now (r ∷ rows) rows' user e (alone, h) =
    elim (Bool-cases (is_spendable hash now r)) [
      | inl here ↦
          let written : rows' ≡ record r { consumed_at = now } ∷ rows = ground arith in
          rw written (alone, h)
      | inr there ↦ elim (Option-cases (spend hash now rows)) [
        | inl unspent ↦ absurd (ground arith)
        | inr ((rest, u), spent) ↦
            let written : rows' ≡ r ∷ rest = ground arith in
            rw written (
              any-spend_hash hash r.link.token_hash now rows rest u spent ∙ alone,
              spend-IsKeyed hash now rows rest u spent h,
            )
      ]
    ]
