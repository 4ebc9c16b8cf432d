-- ===== src/Pg/Resealing/Covering.antt =====
-- The batches of a reseal, taken together, reach every identity.
use porte.Base.{
  String, List, ◌∷◌, Bool, true, false, ◌&&◌, some, ◌≡◌, refl, sym, ap, ◌∙◌, subst, ◌⊎◌, inl, inr,
  Memᴰ, string_eq, nat_eq, beq_iff, ltb, Bool-cases, length, All, keep, map, arith,
}
use porte.Base.{ltb→lt, Memᴰ-keep, All-Memᴰ}
use porte.Pg.Tables.{StoredIdentity, Tables}
use porte.Pg.Sealing.{Aead, Codecs}
use porte.Pg.Sealing.Opening.{IsCodec, IsCipher}
use porte.Pg.Resealing.{
  TokenRow, Draws, key_of, row_of, has_token, last_of, reseal_batch, in_order, take, token_batch,
  reseal_rows,
}
use porte.Pg.Resealing.Sorting.{
  IsOrder, IsKeyed, All-in_order, All-take, Memᴰ-in_order, in_order-IsSorted, IsSorted-IsKeyed,
  take-IsSorted, take_or_below, take_all,
}
use porte.Pg.Resealing.Settling.{IsSettled, IsDone, empty-IsSettled}
use porte.Pg.Resealing.Batches.{identity_key, IsFresh, AreNonces, All-both, reseal_rows-IsDone}
use porte.Pg.Resealing.Paging.{keys_of, All-keep, reseal_rows-keys_of}
use porte.Pg.Resealing.Distinct.{
  AreDistinct, All-map, All-unmap, All-of-Memᴰ, Memᴰ-map, apart, rows-IsFresh, keep-IsKeyed,
}

module _ (below : String × String → String × String → Bool) (order : IsOrder below) where
  token_batch-IsKeyed :
      (db : Tables) (after : TokenRow)
      → AreDistinct (keys_of db.identities)
      → IsKeyed (token_batch below db after)
  unfolding token_batch
  token_batch-IsKeyed db after h = IsSorted-IsKeyed below order _ (
      take-IsSorted below order reseal_batch _
        (in_order-IsSorted below order _ (keep-IsKeyed _ db.identities h)))

  token_batch-IsFresh :
      (db : Tables) (after : TokenRow)
      → AreDistinct (keys_of db.identities)
      → All (IsFresh db.identities) (token_batch below db after)
  unfolding token_batch
  token_batch-IsFresh db after h = All-take _ reseal_batch _ (
      All-in_order below order _ _ (
        All-keep _ _ _ (map row_of db.identities) (λ r f e. f)
          (All-map (IsFresh db.identities) row_of db.identities (rows-IsFresh db.identities h))))

  -- An identity with a token after the last batch is in this one, or after the end of it.
  token_batch_or_below :
      (db : Tables) (after : TokenRow) (i : StoredIdentity)
      → AreDistinct (keys_of db.identities)
      → Memᴰ i db.identities
      → below (key_of after) (identity_key i) ≡ true
      → has_token (row_of i) ≡ true
      → let rows = token_batch below db after in
        Memᴰ (row_of i) rows
        ⊎ ((ltb (length rows) reseal_batch ≡ false)
            × (below (key_of (last_of after rows)) (identity_key i) ≡ true))
  unfolding token_batch
  token_batch_or_below db after i h m later t =
      let p : TokenRow → Bool = λ row. below (key_of after) (key_of row) && has_token row in
      let pool = keep p (map {A = StoredIdentity} row_of db.identities) in
      let sorted = in_order-IsSorted below order pool (keep-IsKeyed p db.identities h) in
      let there : Memᴰ (row_of i) (in_order below pool) =
        Memᴰ-in_order below order pool (
          Memᴰ-keep p (map row_of db.identities) (Memᴰ-map row_of db.identities m)
            (ground arith)) in
      let rows = take reseal_batch (in_order below pool) in
      elim (Bool-cases (ltb (length rows) reseal_batch)) [
        | inl short ↦ inl (
            subst (Memᴰ (row_of i))
              (sym (
                take_all reseal_batch (in_order below pool)
                  (ltb→lt (length rows) reseal_batch short)))
              there)
        | inr full ↦ elim (take_or_below below order 199 (in_order below pool) after sorted there) [
          | inl found ↦ inl found
          | inr later ↦ inr (full, later)
        ]
      ]

module _ (below : String × String → String × String → Bool) (order : IsOrder below) (io : Codecs)
    (codec : IsCodec io) (key : Aead) (cipher : IsCipher key) (older : List Aead) where
  -- A key that earlier batches passed, or one of an identity that keeps no token.
  abbrev WasDone : String × String → TokenRow → List StoredIdentity → String × String → Type 0
  WasDone start last ids k =
      ((below start k ≡ true) × (below (key_of last) k ≡ false))
      ⊎ ((j : StoredIdentity) × Memᴰ j ids × (identity_key j ≡ k) × (has_token (row_of j) ≡ false))

  WasDone-IsDone :
      (start : String × String) (last : TokenRow) (ids : List StoredIdentity)
      → AreDistinct (keys_of ids)
      → All
          (λ i.
            (below start (identity_key i) ≡ true) × (below (key_of last) (identity_key i) ≡ false)
            → IsDone io codec key cipher older i)
          ids
      → (i : StoredIdentity) → Memᴰ i ids
      → WasDone start last ids (identity_key i)
      → IsDone io codec key cipher older i
  WasDone-IsDone start last ids distinct done i m (inl x) = All-Memᴰ _ ids done m x
  WasDone-IsDone start last ids distinct done i m (inr (j, there, same, bare)) =
      let row : row_of i ≡ row_of j =
        All-Memᴰ (λ x. identity_key x ≡ identity_key j → row_of x ≡ row_of j) ids
          (All-Memᴰ (λ x. IsFresh ids (row_of x)) ids (rows-IsFresh ids distinct) there) m
          (sym same) in
      let access : i.tokens.access_token ≡ "" =
        ap (λ r. r.access) row ∙ (beq_iff j.tokens.access_token "").0 (ground arith) in
      let refresh : i.tokens.refresh_token ≡ "" =
        ap (λ r. r.refresh) row ∙ (beq_iff j.tokens.refresh_token "").0 (ground arith) in
      (
        subst (IsSettled io codec key cipher older) (sym access)
            (empty-IsSettled io codec key cipher older),
        subst (IsSettled io codec key cipher older) (sym refresh)
            (empty-IsSettled io codec key cipher older),
      )

  reached :
      (start : String × String) (db : Tables) (last : TokenRow)
      → AreDistinct (keys_of db.identities)
      → (i : StoredIdentity) → Memᴰ i db.identities
      → (below start (identity_key i) ≡ true)
        × ((ltb (length (token_batch below db last)) reseal_batch ≡ true)
            ⊎ (below (key_of (last_of last (token_batch below db last))) (identity_key i) ≡ false))
      → WasDone start last db.identities (identity_key i)
        ⊎ ((row : TokenRow) × Memᴰ row (token_batch below db last) × (identity_key i ≡ key_of row))
  reached start db last distinct i m (s, c) =
      elim (Bool-cases (below (key_of last) (identity_key i))) [
        | inr before ↦ inl (inl (s, before))
        | inl later ↦ elim (Bool-cases (has_token (row_of i))) [
          | inr bare ↦ inl (inr (i, m, refl, bare))
          | inl held ↦ elim (token_batch_or_below below order db last i distinct m later held) [
            | inl member ↦ inr (row_of i, member, refl)
            | inr (full, beyond) ↦ elim c [
              | inl short ↦ absurd (apart (sym short ∙ full))
              | inr within ↦ absurd (apart (sym beyond ∙ within))
            ]
          ]
        ]
      ]

  module _ (draws : Draws) (nonces : AreNonces key draws) where
    -- After a batch, every identity up to its end is done, when those up to its start were.
    pub batch-IsDone :
        (start : String × String) (db : Tables) (last : TokenRow)
        → AreDistinct (keys_of db.identities)
        → All
            (λ i.
              (below start (identity_key i) ≡ true) × (below (key_of last) (identity_key i) ≡ false)
              → IsDone io codec key cipher older i)
            db.identities
        → let rows = token_batch below db last in
          All
            (λ i.
              (below start (identity_key i) ≡ true)
                × ((ltb (length rows) reseal_batch ≡ true)
                    ⊎ (below (key_of (last_of last rows)) (identity_key i) ≡ false))
              → IsDone io codec key cipher older i)
            (reseal_rows io (some (key ∷ older)) draws db rows).0.identities
    batch-IsDone start db last distinct done =
        let rows = token_batch below db last in
        let ids = db.identities in
        let later : All
            (λ k.
              (below start k ≡ true)
                × ((ltb (length rows) reseal_batch ≡ true)
                    ⊎ (below (key_of (last_of last rows)) k ≡ false))
              → WasDone start last ids k ⊎ ((row : TokenRow) × Memᴰ row rows × (k ≡ key_of row)))
            (keys_of ids) =
          All-map _ identity_key ids (All-of-Memᴰ _ ids (reached start db last distinct)) in
        let ids' = (reseal_rows io (some (key ∷ older)) draws db rows).0.identities in
        All-both _ _ _ ids' (λ i d f x. d (f x))
          (reseal_rows-IsDone io codec key cipher older draws nonces (WasDone start last ids) db
            rows (token_batch-IsKeyed below order db last distinct)
            (token_batch-IsFresh below order db last distinct)
            (All-of-Memᴰ _ ids (WasDone-IsDone start last ids distinct done)))
          (All-unmap _ identity_key ids' (
            subst (All _)
              (sym (reseal_rows-keys_of below order io (some (key ∷ older)) draws db rows)) later))
