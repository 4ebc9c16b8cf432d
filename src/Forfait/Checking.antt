-- ===== src/Forfait/Checking.antt =====
-- Which additions a plan allows, and which snapshot a store ends with.
use porte.Base.{
  ℕ, ◌+◌, ◌<◌, String, List, [], ◌∷◌, ◌++◌, true, ◌||◌, ◌≡◌, refl, sym, ap, ◌∙◌, subst, ◌↔◌, ◌⊎◌,
  inl, inr, string_eq, nat_eq, ◌==◌, leb, if◌then◌else◌, Bool-cases, All, arith,
}
use porte.Base.Int.{
  ℤ, pos, negsuc, ◌-ℤ◌, ◌≤ℤ◌, ltb_ℤ, wrap64, wrap64_id, half_range, IsInt64, sub_ℕ,
}
use porte.Forfait.Store.{
  Scope, Snapshot, Store, Libraries, unlimited, index_scopes, accepts, apply, ceiling, allowed,
  over, check,
}

-- The subtraction of a count from a ceiling stays in range.
room : (t a : ℕ) → t < half_range → a < half_range → wrap64 (pos t -ℤ pos a) ≡ sub_ℕ t a
unfolding ◌-ℤ◌
room t a ht ha = elim (Bool-cases (leb a t)) [
  | inl fits ↦ rw (wrap64_id (pos t -ℤ pos a) (ground arith)) (ground arith)
  | inr short ↦ rw (wrap64_id (pos t -ℤ pos a) (ground arith)) (ground arith)
]

check_under :
    (s : Store) (sc : Scope) (key : String) (used adding t : ℕ)
    → adding < half_range
    → t < half_range
    → ceiling s sc key ≡ pos t
    → check s sc key (pos used) (pos adding)
      ≡ (if adding == 0 || leb (used + adding) t then allowed else over key (pos t))
unfolding check
check_under s sc key used adding t ha ht e = let exact = room t adding ht ha in ground arith

check_free :
    (s : Store) (sc : Scope) (key : String) (used adding n : ℕ)
    → n ≡ 0
    → ceiling s sc key ≡ negsuc n
    → check s sc key (pos used) (pos adding) ≡ allowed
unfolding check
check_free s sc key used adding n z e = ground arith

ℤ-cases : (a : ℤ) → ((n : ℕ) × (a ≡ pos n)) ⊎ ((n : ℕ) × (a ≡ negsuc n))
ℤ-cases (pos n) = inl (n, refl)
ℤ-cases (negsuc n) = inr (n, refl)

fits_iff :
    (key : String) (used adding t : ℕ)
    → ((if adding == 0 || leb (used + adding) t then allowed else over key (pos t)) ≡ allowed)
      ↔ ((adding ≡ 0) ⊎ (pos t ≡ unlimited) ⊎ (pos (used + adding) ≤ℤ pos t))
fits_iff key used adding t = (λ h. ground arith, λ h. ground arith)

-- The 64-bit subtraction of Check never overflows: for counts and a ceiling in the range of an
-- int64, the ceiling at least -1, Check allows an addition exactly when it adds nothing, the ceiling
-- is unlimited, or the exact sum of both counts is at most the ceiling.
pub check_exact :
    (s : Store) (sc : Scope) (key : String) (used adding : ℕ)
    → used < half_range
    → adding < half_range
    → IsInt64 (ceiling s sc key)
    → unlimited ≤ℤ ceiling s sc key
    → (check s sc key (pos used) (pos adding) ≡ allowed)
      ↔ ((adding ≡ 0) ⊎ (ceiling s sc key ≡ unlimited) ⊎ (pos (used + adding) ≤ℤ ceiling s sc key))
check_exact s sc key used adding hu ha range least = elim (ℤ-cases (ceiling s sc key)) [
  | inl (t, e) ↦
      subst
        (λ c.
          (check s sc key (pos used) (pos adding) ≡ allowed)
          ↔ ((adding ≡ 0) ⊎ (c ≡ unlimited) ⊎ (pos (used + adding) ≤ℤ c)))
        (sym e)
        (rw (check_under s sc key used adding t ha (ground arith) e) (fits_iff key used adding t))
  | inr (n, e) ↦
      let z : n ≡ 0 = ground arith in
      (λ h. inr (inl (e ∙ ap negsuc z)), λ h. check_free s sc key used adding n z e)
]

module _ (lib : Libraries) where
  -- The store after snapshots in the order of their arrival.
  unfoldable pub applies : Store → List Snapshot → Store
  applies s [] = s
  applies s (snap ∷ snaps) = applies (apply lib s snap) snaps

  abbrev pub IsOlder : Snapshot → Snapshot → Type 0
  IsOlder snap other = ltb_ℤ other.revision snap.revision ≡ true

  apply-older :
      (s : Store) (snap other : Snapshot)
      → ltb_ℤ s.revision snap.revision ≡ true
      → IsOlder snap other
      → (ltb_ℤ (apply lib s other).revision snap.revision ≡ true)
        × ((apply lib s other).features ≡ s.features)
        × ((apply lib s other).defaults ≡ s.defaults)
  unfolding apply
  apply-older s snap other h o = elim (Bool-cases (accepts s other.version other.revision)) [
    | inl newer ↦ (ground arith, ground arith, ground arith)
    | inr stale ↦ (ground arith, ground arith, ground arith)
  ]

  applies-older :
      (s : Store) (snap : Snapshot) (snaps : List Snapshot)
      → ltb_ℤ s.revision snap.revision ≡ true
      → All (IsOlder snap) snaps
      → (ltb_ℤ (applies s snaps).revision snap.revision ≡ true)
        × ((applies s snaps).features ≡ s.features)
        × ((applies s snaps).defaults ≡ s.defaults)
  unfolding applies
  applies-older s snap [] h o = (h, refl, refl)
  applies-older s snap (x ∷ xs) h o =
      let (a, b, c) = apply-older s snap x h o.0 in
      let (d, e, f) = applies-older (apply lib s x) snap xs a o.1 in (d, e ∙ b, f ∙ c)

  applies_stale :
      (s : Store) (snap : Snapshot) (snaps : List Snapshot)
      → s.revision ≡ snap.revision
      → All (IsOlder snap) snaps
      → applies s snaps ≡ s
  unfolding applies apply accepts
  applies_stale s snap [] e o = refl
  applies_stale s snap (x ∷ xs) e o =
      let later = applies_stale s snap xs e o.1 in
      let stays : apply lib s x ≡ s = ground arith in ap (λ t. applies t xs) stays ∙ later

  applies-append :
      (s : Store) (xs ys : List Snapshot) → applies s (xs ++ ys) ≡ applies (applies s xs) ys
  unfolding applies
  applies-append s [] ys = refl
  applies-append s (x ∷ xs) ys = applies-append (apply lib s x) xs ys

  -- The order of arrival does not matter: of snapshots of which one has the highest revision, above 0
  -- and above what the store held, the store ends with that one's entitlements, filtered by its
  -- features, whatever came before it and after it.
  pub applies_newest :
      (s : Store) (snap : Snapshot) (before late : List Snapshot)
      → ltb_ℤ (pos 0) snap.revision ≡ true
      → ltb_ℤ s.revision snap.revision ≡ true
      → All (IsOlder snap) before
      → All (IsOlder snap) late
      → applies s (before ++ snap ∷ late) ≡ record s {
        spaces = index_scopes lib s.features snap.spaces [];
        people = index_scopes lib s.features snap.people [];
        version = snap.version;
        revision = snap.revision;
      }
  unfolding applies apply accepts
  applies_newest s snap before late positive newer o p =
      let (a, b, c) = applies-older s snap before newer o in
      let mid = applies s before in
      let taken : Store = record mid {
        spaces = index_scopes lib mid.features snap.spaces [];
        people = index_scopes lib mid.features snap.people [];
        version = snap.version;
        revision = snap.revision;
      } in
      let accepted : apply lib mid snap ≡ taken = ground arith in
      applies-append s before (snap ∷ late)
      ∙ ap (λ t. applies t late) accepted
      ∙ applies_stale taken snap late refl p
      ∙ rw (b, c) refl
