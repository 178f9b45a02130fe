-- ===== src/Store/Tables.antt =====
-- internal/client/store/store.go (the schema of `migrate`) and the row types beside the accessors.
-- A table is the list of its rows, oldest first. An instant is the number of seconds that its
-- RFC 3339 text in UTC stands for, so that text order is the order of the numbers. An id is the
-- row id, and 0 is no row's.
use trasker.Prelude.{
  ℕ, suc, ◌≤◌, ◌≡◌, refl, Bool, false, Option, List, [], ◌∷◌, String, leb, ◌==◌, if◌then◌else◌, any,
  arith,
}
use trasker.Prelude.Int.{ℤ}

pub record FocusEvent : Type 0 where
  pub id : ℕ
  pub app_name : String
  pub window_title : String
  pub started_at : ℕ
  pub ended_at : Option ℕ
  pub duration_s : Option ℤ
  pub is_idle : Bool
  pub created_at : ℕ

pub record Tag : Type 0 where
  pub id : ℕ
  pub name : String
  pub color : String
  pub created_at : ℕ

-- The values of `event_tags.source`.
pub data Source : Type 0 where
  manual cascade auto_rule : Source

pub record EventTag : Type 0 where
  pub event_id : ℕ
  pub tag_id : ℕ
  pub source : Source
  pub cascade_from : Option ℕ

pub record Note : Type 0 where
  pub id : ℕ
  pub anchor_event : ℕ
  pub text : String
  pub created_at : ℕ
  pub cascade_applied : Bool

-- The values that the code compares `submissions.status` with or writes there.
pub data Status : Type 0 where
  pending confirmed sent : Status

pub record Submission : Type 0 where
  pub id : ℕ
  pub server_id : Option String
  pub submitted_at : ℕ
  pub status : Status
  pub retry_count : ℕ
  pub last_retry : Option ℕ

pub record SubmissionEvent : Type 0 where
  pub submission_id : ℕ
  pub event_id : ℕ

pub record AutoSubmitConfig : Type 0 where
  pub interval_hours : ℕ
  pub enabled_at : Option ℕ
  pub last_run : Option ℕ

pub record Db : Type 0 where
  pub focus_events : List FocusEvent
  pub tags : List Tag
  pub event_tags : List EventTag
  pub notes : List Note
  pub submissions : List Submission
  pub submission_events : List SubmissionEvent
  -- The row with id 1, if there is one.
  pub auto_submit_config : Option AutoSubmitConfig
  pub auto_submit_tags : List ℕ
  -- Whether the connection of the pool that inserts a row which refers to an event enforces foreign
  -- keys: store.New sets the pragma on one connection only.
  pub enforces : ℕ → Bool

pub data DbError : Type 0 where
  foreign_key unique not_found : DbError

-- The id of a new row of an INTEGER PRIMARY KEY: one more than the largest.
module _ {ℓ} {A : Type ℓ} (key : A → ℕ) where
  unfoldable pub next_rowid : List A → ℕ
  next_rowid [] = 1
  next_rowid (r ∷ rs) = let n = next_rowid rs in if leb n (key r) then suc (key r) else n

  unfoldable pub has_row : ℕ → List A → Bool
  has_row i = any (λ r. key r == i)

  -- Every row's id is below the next one.
  pub next_rowid-fresh : (rs : List A) (i : ℕ) → next_rowid rs ≤ i → has_row i rs ≡ false
  unfolding next_rowid has_row
  next_rowid-fresh [] i h = refl
  next_rowid-fresh (r ∷ rs) i h = ground (arith, next_rowid-fresh rs i)

-- `UPDATE … WHERE id = i`.
unfoldable pub update_where {ℓ} : {A : Type ℓ} → (A → Bool) → (A → A) → List A → List A
update_where p f [] = []
update_where p f (r ∷ rs) = (if p r then f r else r) ∷ update_where p f rs
