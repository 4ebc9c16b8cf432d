-- ===== src/Pg/Tables.antt =====
-- The rows of porte/pg and the errors of its statements: pg/pg.go's schema, session.go, magiclink.go
-- and identity.go. A transaction is one function of the tables: the advisory locks order the
-- transactions that touch one account, and a failed one leaves the tables as they were. A session's
-- null expiry is 0, Go's zero time, as nullTime and scanSession translate it. A statement that the database itself refuses for another reason than
-- a unique column (a lost connection, say) is not modelled.
use porte.Base.{
  ℕ, String, List, Bool, true, false, ◌&&◌, Option, none, some, string_eq, nat_eq, ◌==◌, first,
}

-- One row of porte_users.
pub record User : Type 0 where
  pub id : ℕ
  pub email : String
  pub email_verified : Bool
  pub name : String
  pub avatar_url : String
  pub avatar_source : String
  pub locale : String

pub record TokenSet : Type 0 where
  pub access_token : String
  pub refresh_token : String
  pub expiry : ℕ

pub record StoredIdentity : Type 0 where
  pub user_id : ℕ
  pub provider : String
  pub subject : String
  pub password_hash : String
  pub tokens : TokenSet
  pub roles : List String
  pub roles_synced_at : ℕ
  pub synced_at : ℕ

pub record Session : Type 0 where
  pub id : ℕ
  pub token_hash : String
  pub user_id : ℕ
  pub label : String
  pub created_at : ℕ
  pub last_used_at : ℕ
  pub expires_at : ℕ
  pub provider : String
  pub subject : String
  pub issued_by : ℕ

pub record LoginCode : Type 0 where
  pub code_hash : String
  pub user_id : ℕ
  pub expires_at : ℕ
  pub provider : String
  pub subject : String

-- A code with the stamp of its exchange, null until then.
pub record CodeRow : Type 0 where
  pub code : LoginCode
  pub consumed_at : Option ℕ

pub record MagicLink : Type 0 where
  pub token_hash : String
  pub user_id : ℕ
  pub created_at : ℕ
  pub expires_at : ℕ
  pub ip : String

-- A link with the stamp of its use or of its supersession, null until then.
pub record LinkRow : Type 0 where
  pub link : MagicLink
  pub consumed_at : Option ℕ

-- `next_user` and `next_session` are the sequences of the two serial columns. `has_codes` and
-- `has_links` say whether the app's schema has the two optional tables.
pub record Tables : Type 0 where
  pub users : List User
  pub identities : List StoredIdentity
  pub sessions : List Session
  pub codes : List CodeRow
  pub links : List LinkRow
  pub next_user : ℕ
  pub next_session : ℕ
  pub has_codes : Bool
  pub has_links : Bool

pub data Failure : Type 0 where
  not_found code_consumed no_email duplicate moved refused_unverified refused_linked : Failure

pub data Outcome {ℓ} (A : Type ℓ) : Type ℓ where
  ok : A → Outcome A
  err : Failure → Outcome A

-- `if err != nil { return …, err }` between two statements.
infixl 5 ◌>>=◌
abbrev pub ◌>>=◌ {ℓ κ} : {A : Type ℓ} {B : Type κ} → Outcome A → (A → Outcome B) → Outcome B
err failure >>= next = err failure
ok value >>= next = next value

abbrev pub of_provider : String → String → StoredIdentity → Bool
of_provider provider subject i = i.provider == provider && i.subject == subject

-- SELECT … FROM porte_identities WHERE provider = $1 AND subject = $2
unfoldable pub identity_of : Tables → String → String → Option StoredIdentity
identity_of db provider subject = first (of_provider provider subject) db.identities

-- SELECT … FROM porte_users WHERE email = $1
unfoldable pub user_by_email : Tables → String → Option User
user_by_email db email = first (λ u. u.email == email) db.users

abbrev pub is_null : Option ℕ → Bool
is_null none = true
is_null (some t) = false
