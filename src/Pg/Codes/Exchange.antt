-- ===== src/Pg/Codes/Exchange.antt =====
-- The exchange of a login code, LoginCodeStore.Consume, and its replay.
use porte.Base.{
  ℕ, String, List, [], ◌∷◌, false, none, some, ◌≡◌, refl, inl, inr, string_eq, nat_eq, ◌==◌,
  beq_iff, Bool-cases, Option-cases, arith, first, amend,
}
use porte.Pg.Tables.{LoginCode, CodeRow, Tables, code_consumed, ok, err, is_null}
use porte.Base.{first-holds}
use porte.Pg.Codes.{unspent, consume}

spent_codes :
    (hash : String) (now : ℕ) (rows : List CodeRow)
    → first (unspent hash) (amend (unspent hash) (λ r. record r { consumed_at = some now }) rows)
      ≡ none
spent_codes hash now [] = refl
spent_codes hash now (r ∷ rows) = ground (arith, spent_codes hash now rows)

replayed :
    (hash : String) (now : ℕ) (rows : List CodeRow) (row : CodeRow)
    → first (unspent hash) rows ≡ some row
    → (r : CodeRow) × (first
          (λ s. s.code.code_hash == hash)
          (amend (unspent hash) (λ s. record s { consumed_at = some now }) rows)
        ≡ some r)
      × (is_null r.consumed_at ≡ false)
replayed hash now [] row e = absurd (cc)
replayed hash now (r ∷ rows) row e = elim (Bool-cases (r.code.code_hash == hash)) [
  | inl here ↦ elim (Option-cases r.consumed_at) [
    | inl null ↦ (record r { consumed_at = some now }, ground arith, refl)
    | inr (t, set) ↦ (r, ground arith, ground arith)
  ]
  | inr there ↦ let (s, f, n) = replayed hash now rows row (ground arith) in (s, ground arith, n)
]

-- An exchange answers the code that was stored and spends it: presented again, at any time, the
-- code is recognised as spent.
pub consume_replayed :
    (db db' : Tables) (hash : String) (code : LoginCode) (now later : ℕ)
    → consume db hash now ≡ ok (db', code)
    → (code.code_hash ≡ hash) × (consume db' hash later ≡ err code_consumed)
unfolding consume
consume_replayed db db' hash code now later e =
    elim (Option-cases (first (unspent hash) db.codes)) [
      | inl none_left ↦ absurd (ground arith)
      | inr (row, found) ↦
          let (r, again, set) = replayed hash now db.codes row found in
          let gone = spent_codes hash now db.codes in
          let held = first-holds (unspent hash) db.codes row found in
          (ground (arith, beq_iff row.code.code_hash hash), ground arith)
    ]
