-- ===== src/Layout/Local.antt =====
-- internal/client/layout/store.go: the client's table layout_snapshots. An instant is the number of
-- seconds that its RFC 3339 text in UTC stands for; the JSON of a row stands for the windows that it
-- encodes.
use trasker.Prelude.{
  ℕ, zero, suc, ◌+◌, Bool, not, ◌&&◌, Option, none, some, List, [], ◌∷◌, ◌++◌, String, ltb, leb,
  ◌==◌, filter, count, take, is_some,
}
use trasker.Prelude.Int.{ℤ, pos, negsuc}
use trasker.Prelude.Sort.{sort_by}
use trasker.Store.Tables.{next_rowid, update_where}
use trasker.Layout.Snapshots.{Window}

pub record Row : Type 0 where
  pub id : ℕ
  pub captured_at : ℕ
  pub windows : List Window
  pub windows_hash : String
  pub synced_at : Option ℕ
  pub retry_count : ℕ
  pub last_retry : Option ℕ
  pub created_at : ℕ

unfoldable pub insert_row : ℕ → ℕ → List Window → String → List Row → List Row × ℕ
insert_row now captured_at windows hash rows =
    let id = next_rowid (λ r. r.id) rows in
    (
      rows
          ++ record {
            id = id;
            captured_at = captured_at;
            windows = windows;
            windows_hash = hash;
            synced_at = none;
            retry_count = 0;
            last_retry = none;
            created_at = now;
          }
            ∷ [],
      id,
    )

abbrev pub is_unsynced : Row → Bool
is_unsynced r = not (is_some r.synced_at)

-- `WHERE synced_at IS NULL ORDER BY captured_at ASC`.
unfoldable pub pending_rows : List Row → List Row
pending_rows rows = sort_by (λ r. r.captured_at) (filter is_unsynced rows)

-- A limit that is not positive is none.
abbrev pub limited : ℤ → List Row → List Row
limited (pos zero) rows = rows
limited (pos (suc n)) rows = take (suc n) rows
limited (negsuc n) rows = rows

unfoldable pub list_pending : ℤ → List Row → List Row
unfolding pending_rows
list_pending limit rows = limited limit (pending_rows rows)

unfoldable pub mark_synced : ℕ → ℕ → List Row → List Row
mark_synced id synced_at rows =
    update_where (λ r. r.id == id) (λ r. record r { synced_at = some synced_at; last_retry = none })
      rows

unfoldable pub bump_retry : ℕ → ℕ → ℕ → List Row → List Row
bump_retry id retry_count now rows =
    update_where (λ r. r.id == id)
      (λ r. record r { retry_count = retry_count; last_retry = some now }) rows

unfoldable pub list_in_range : ℕ → ℕ → List Row → List Row
list_in_range from to rows =
    sort_by (λ r. r.captured_at) (filter (λ r. leb from r.captured_at && leb r.captured_at to) rows)

-- `captured_at < now - retention`.
abbrev pub is_old : ℕ → ℕ → Row → Bool
is_old now retention r = ltb (r.captured_at + retention) now

-- The rows that stay, and how many went.
unfoldable pub prune : ℕ → ℕ → List Row → List Row × ℕ
prune now retention rows =
    (filter (λ r. not (is_old now retention r)) rows, count (is_old now retention) rows)
