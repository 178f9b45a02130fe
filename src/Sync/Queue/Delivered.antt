-- ===== src/Sync/Queue/Delivered.antt =====
-- Which submissions a pass of the queue confirms.
use mathlib.Core.List.{Memᴰ}
use trasker.Prelude.{
  ℕ, ◌≡◌, refl, ◌∙◌, Option, some, none, sym, subst, false, ◌⊎◌, inl, inr, List, [], ◌∷◌, String,
  ◌==◌, Result, ok, All, arith,
}
use trasker.Store.Tables.{confirmed, Submission, Db, update_where}
use trasker.Sync.Entries.{TimesheetEntry, load_submission_entries}
use trasker.Sync.Aggregate.{aggregate}
use trasker.Sync.Auth.{SyncError}
use trasker.Sync.Queue.{
  World, list_due_submissions, update_status, settle, process_one, process_all, process_pending,
}
use trasker.Sync.Queue.Outcomes.{
  Rows, sent_entries, Evolves, Passed, process_one-Passed, process_all-Passed, load-frame,
}

-- The submission has no entries, or the server takes the ones that it has.
abbrev pub Accepted : World → Db → ℕ → Type 0
Accepted w db id =
    (load_submission_entries id db ≡ [])
    ⊎ ((sid : String) × (w.server id (sent_entries w db id) ≡ ok sid))

abbrev pub IsConfirmed : ℕ → Db → Type 0
IsConfirmed id db = All (λ r. r.id ≡ id → r.status ≡ confirmed) db.submissions

confirmed_rows :
    (id : ℕ) (sid : Option String) (rows : List Submission)
    → All
        (λ r. r.id ≡ id → r.status ≡ confirmed)
        (update_where
          (λ s. s.id == id)
          (λ s. record s { status = confirmed; server_id = sid })
          rows)
unfolding update_where
confirmed_rows id sid [] = tt
confirmed_rows id sid (r ∷ rows) = (ground arith, confirmed_rows id sid rows)

Rows-All {ℓ} :
    {A : Type ℓ} (P : A → A → Type 0) (Q : A → Type 0) (xs ys : List A)
    → ((x y : A) → P x y → Q x → Q y)
    → Rows P xs ys
    → All Q xs
    → All Q ys
Rows-All P Q [] [] f p q = tt
Rows-All P Q [] (y ∷ ys) f p q = absurd p
Rows-All P Q (x ∷ xs) [] f p q = absurd p
Rows-All P Q (x ∷ xs) (y ∷ ys) f p q = (f x y p.0 q.0, Rows-All P Q xs ys f p.1 q.1)

-- A row that is confirmed stays so.
Passed-IsConfirmed :
    (w : World) (id : ℕ) (db db' : Db) → Passed w db db' → IsConfirmed id db → IsConfirmed id db'
Passed-IsConfirmed w id db db' p q =
    subst (λ (d : Db). IsConfirmed id d) (sym p.store)
      (Rows-All _ _ db.submissions p.rows (λ x y e k. row x y e k) p.evolved q)
  where
    row :
        (x y : Submission)
        → Evolves w db x y
        → (x.id ≡ id → x.status ≡ confirmed)
        → y.id ≡ id
        → y.status ≡ confirmed
    row x y (i, t, inl (s, n)) k h = s ∙ k (sym i ∙ h)
    row x y (i, t, inr (s, n)) k h = s

update_status-IsConfirmed :
    (id : ℕ) (sid : Option String) (db : Db) → IsConfirmed id (update_status id confirmed sid db)
unfolding update_status
update_status-IsConfirmed id sid db = confirmed_rows id sid db.submissions

settle-IsConfirmed :
    (now : ℕ) (s : Submission) (db : Db) (r : Result SyncError String) (sid : String)
    → r ≡ ok sid
    → IsConfirmed s.id (settle now s r db)
unfolding settle
settle-IsConfirmed now s db r sid e =
    subst (λ x. IsConfirmed s.id (settle now s x db)) (sym e)
      (update_status-IsConfirmed s.id (some sid) db)

process_one-IsConfirmed :
    (w : World) (s : Submission) (db : Db)
    → Accepted w db s.id
    → IsConfirmed s.id (process_one w s db)
unfolding process_one
process_one-IsConfirmed w s db a = go (load_submission_entries s.id db) refl a
  where
    go :
        (l : List TimesheetEntry)
        → load_submission_entries s.id db ≡ l
        → Accepted w db s.id
        → IsConfirmed s.id (elim l as (λ x. Db) [
          | [] ↦ update_status s.id confirmed none db
          | e ∷ es ↦ settle (w.clock s.id) s (w.server s.id (aggregate w.shuffle (e ∷ es))) db
        ])
    go [] e a = update_status-IsConfirmed s.id none db
    go (x ∷ xs) e (inl n) = absurd (let z = sym e ∙ n in cc)
    go (x ∷ xs) e (inr (sid, k)) =
        settle-IsConfirmed (w.clock s.id) s db _ sid
          (subst (λ l. w.server s.id (aggregate w.shuffle l) ≡ ok sid) e k)

-- What a submission has to send is in tables that the pass leaves alone.
Accepted-Passed :
    (w : World) (id : ℕ) (db db' : Db) → Passed w db db' → Accepted w db id → Accepted w db' id
Accepted-Passed w id db db' p a =
    subst (λ (d : Db). Accepted w d id) (sym p.store)
      (subst (λ l. (l ≡ []) ⊎ ((sid : String) × (w.server id (aggregate w.shuffle l) ≡ ok sid)))
        (sym (load-frame db p.rows id)) a)

process_all-IsConfirmed :
    (w : World) (s : Submission) (ss : List Submission) (db : Db)
    → ((i : ℕ) → w.ended i ≡ false)
    → Memᴰ s ss
    → Accepted w db s.id
    → IsConfirmed s.id (process_all w ss db)
unfolding process_all
process_all-IsConfirmed w s [] db n m a = elim m [ ]
process_all-IsConfirmed w s (x ∷ xs) db n (Memᴰ.head e) a = rw (n x.id) (
    Passed-IsConfirmed w s.id _ _ (process_all-Passed w xs (process_one w x db))
      (subst (λ y. IsConfirmed s.id (process_one w y db)) e (process_one-IsConfirmed w s db a)))
process_all-IsConfirmed w s (x ∷ xs) db n (Memᴰ.tail m) a = rw (n x.id) (
    process_all-IsConfirmed w s xs (process_one w x db) n m
      (Accepted-Passed w s.id db _ (process_one-Passed w x db) a))

-- In a pass during which the context does not end, a submission that is due, and that has no entries
-- or whose aggregated entries the server takes, is confirmed, whatever the server answers to the
-- others.
pub process_pending-IsConfirmed :
    (w : World) (now : ℕ) (s : Submission) (db : Db)
    → ((i : ℕ) → w.ended i ≡ false)
    → Memᴰ s (list_due_submissions now db)
    → Accepted w db s.id
    → IsConfirmed s.id (process_pending w now db)
unfolding process_pending
process_pending-IsConfirmed w now s db n m a =
    process_all-IsConfirmed w s (list_due_submissions now db) db n m a
