-- ===== src/Oidc/Jwt/Refetching.antt =====
-- How often the key set is asked for.
use porte.Base.{
  ℕ, suc, ◌+◌, ◌≤◌, ◌<◌, String, List, [], ◌∷◌, true, false, Option, some, ◌≡◌, refl, sym, ap, ◌∙◌,
  subst, ◌⊎◌, inl, inr, string_eq, nat_eq, Bool-cases, Option-cases, All, arith,
}
use porte.Oidc.Jwt.{
  Jwk, PublicKey, Codec, Verifier, min_refetch_interval, ttl, is_stale, held, index_keys,
  take_refetch_slot, fetch, key,
}

-- One lookup of a key: the key id, what the provider would answer, and the time.
pub record Lookup : Type 0 where
  pub kid : String
  pub answer : Option (List Jwk)
  pub now : ℕ

module _ (c : Codec) where
  abbrev pub lookups : Verifier → List Lookup → Verifier
  lookups v [] = v
  lookups v (l ∷ rest) = lookups (key c v l.kid l.answer l.now).0 rest

  -- A set is held that stays fresh for the half minute from a time.
  abbrev pub IsCached : ℕ → Verifier → Type 0
  IsCached start v =
      ((keys : List (String × PublicKey)) × (v.keys ≡ some keys))
      × (start + min_refetch_interval ≤ v.fetched_at + ttl v)
      × (min_refetch_interval ≤ ttl v)

  abbrev pub IsWithin : ℕ → List Lookup → Type 0
  IsWithin start calls = All (λ l. (start ≤ l.now) × (l.now < start + min_refetch_interval)) calls

  -- The slot was taken within the half minute.
  abbrev IsTaken : ℕ → Verifier → Type 0
  IsTaken start v = (at : ℕ) × (v.refetched_at ≡ some at) × (start ≤ at)

  current :
      (v : Verifier) (start now : ℕ)
      → IsCached start v
      → now < start + min_refetch_interval
      → is_stale v now ≡ false
  current v start now ((keys, there), span, long) early = ground arith

  -- With the slot taken, a lookup within the half minute asks for nothing.
  taken_key :
      (v : Verifier) (start : ℕ) (l : Lookup)
      → IsCached start v
      → IsTaken start v
      → l.now < start + min_refetch_interval
      → (key c v l.kid l.answer l.now).0 ≡ v
  unfolding key take_refetch_slot
  taken_key v start l cached (at, there, since) early =
      let fresh = current v start l.now cached early in
      elim (Option-cases (held c v l.kid)) [
        | inr (k, found) ↦ ground arith
        | inl missing ↦ ground arith
      ]

  taken_lookups :
      (v : Verifier) (start : ℕ) (calls : List Lookup)
      → IsCached start v
      → IsTaken start v
      → IsWithin start calls
      → lookups v calls ≡ v
  taken_lookups v start [] cached taken within = refl
  taken_lookups v start (l ∷ rest) cached taken ((late, early), within) =
      let same = taken_key v start l cached taken early in
      ap (λ u. lookups u rest) same ∙ taken_lookups v start rest cached taken within

  slot_taken :
      (v : Verifier) (now : ℕ)
      → (take_refetch_slot v now).1 ≡ true
      → (take_refetch_slot v now).0 ≡ record v { refetched_at = some now }
  unfolding take_refetch_slot
  slot_taken v now h = elim (Option-cases v.refetched_at) [
    | inl never ↦ ground arith
    | inr (at, there) ↦ ground arith
  ]

  -- A lookup leaves the verifier alone, or takes the slot for one fetch.
  key_step :
      (v : Verifier) (start : ℕ) (l : Lookup)
      → IsCached start v
      → (start ≤ l.now) × (l.now < start + min_refetch_interval)
      → let v' = (key c v l.kid l.answer l.now).0 in
        (v' ≡ v) ⊎ (IsCached start v' × IsTaken start v' × (v'.fetches ≡ suc v.fetches))
  unfolding key take_refetch_slot fetch
  key_step v start l cached (late, early) =
      let fresh = current v start l.now cached early in
      elim (Option-cases (held c v l.kid)) [
        | inr (k, found) ↦ inl (ground arith)
        | inl missing ↦ elim (Bool-cases (take_refetch_slot v l.now).1) [
          | inr spent ↦ elim (Option-cases v.refetched_at) [
            | inl never ↦ absurd (ground arith)
            | inr (at, there) ↦ inl (ground arith)
          ]
          | inl taken ↦
              let slot : (take_refetch_slot v l.now).0 ≡ record v { refetched_at = some l.now } =
                slot_taken v l.now taken in
              elim (Option-cases l.answer) [
                | inl failed ↦
                    let made : (key c v l.kid l.answer l.now).0
                        ≡ record v { refetched_at = some l.now; fetches = suc v.fetches } =
                      ground arith in
                    let (there, span, long) = cached in
                    inr (subst Took (sym made) ((there, span, long), (l.now, refl, late), refl))
                | inr (set, answered) ↦
                    let made : (key c v l.kid l.answer l.now).0 ≡ record v {
                      refetched_at = some l.now;
                      keys = some (index_keys c [] set);
                      fetched_at = l.now;
                      fetches = suc v.fetches;
                    } =
                      ground arith in
                    let (there, span, long) = cached in
                    inr (
                      subst Took (sym made) (
                        ((index_keys c [] set, refl), ground arith, long),
                        (l.now, refl, late),
                        refl,
                      ))
              ]
        ]
      ]
    where
      Took : Verifier → Type 0
      Took u = IsCached start u × IsTaken start u × (u.fetches ≡ suc v.fetches)

  -- A flood of tokens with unknown keys does not become a flood of requests: with a key set at hand
  -- that stays fresh, the lookups of half a minute, whatever key ids they name and whatever the
  -- provider answers, ask for the set once at most. The cache lifetime is half a minute at least.
  pub lookups_capped :
      (v : Verifier) (start : ℕ) (calls : List Lookup)
      → IsCached start v
      → IsWithin start calls
      → (lookups v calls).fetches ≤ v.fetches + 1
  lookups_capped v start [] cached within = ground arith
  lookups_capped v start (l ∷ rest) cached (in_time, within) =
      elim (key_step v start l cached in_time) [
        | inl same ↦
            let stays = lookups_capped v start rest cached within in
            subst (λ u. (lookups u rest).fetches ≤ v.fetches + 1) (sym same) stays
        | inr (cached', taken, counted) ↦
            let v' = (key c v l.kid l.answer l.now).0 in
            let quiet = taken_lookups v' start rest cached' taken within in
            subst (λ u. u.fetches ≤ v.fetches + 1) (sym quiet) (ground arith)
      ]
