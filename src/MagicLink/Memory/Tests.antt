-- ===== src/MagicLink/Memory/Tests.antt =====
-- A run of the reference store against the links of the database.
use porte.Base.{ℕ, String, false, List, [], ◌∷◌, true, ◌≡◌, refl, arith}
use porte.Pg.Tables.{MagicLink, Tables, ok, err, not_found}
use porte.MagicLink.Memory.{Memory, new_memory, create, consume, spend, count_since, delete_expired}
use porte.MagicLink.Memory.Refinement.{
  Call, creates, consumes, counts, sweeps, answered, counted, nothing, pg_run, memory_run,
  pg_run-memory_run,
}

abbrev link : String → ℕ → MagicLink
link hash at = record { token_hash = hash; user_id = 1; created_at = at; expires_at = 60; ip = "" }

abbrev empty : Tables
empty = record {
  users = [];
  identities = [];
  sessions = [];
  codes = [];
  links = [];
  next_user = 2;
  next_session = 1;
  has_codes = false;
  has_links = true;
}

-- The second link ends the first, and is spent once.
abbrev calls : List Call
calls =
    creates (link "a" 1)
    ∷ creates (link "b" 2)
    ∷ consumes "a" 3
    ∷ consumes "b" 4
    ∷ consumes "b" 5
    ∷ counts (record { user_id = 1; ip = "" }) 2
    ∷ sweeps 70
    ∷ sweeps 200
    ∷ []

abbrev seen : Memory
seen = record { rows = [] }

no_rows : new_memory ≡ seen
unfolding new_memory
no_rows = refl

memory_seen :
    memory_run seen calls
    ≡ nothing
      ∷ nothing
      ∷ answered (err not_found)
      ∷ answered (ok 1)
      ∷ answered (err not_found)
      ∷ counted 1
      ∷ counted 2
      ∷ counted 0
      ∷ []
unfolding memory_run create consume spend count_since delete_expired
memory_seen = refl

pg_run-memory_run_example : pg_run empty calls ≡ memory_run seen calls
unfolding create consume spend
pg_run-memory_run_example =
    pg_run-memory_run empty seen calls (refl, tt)
      (
        (refl, ground arith),
        (
          (refl, ground arith),
          (ground arith, (ground arith, (ground arith, (tt, (tt, (tt, tt)))))),
        ),
      )
