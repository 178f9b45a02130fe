-- ===== src/Sync/Queue/Outcomes.antt =====
-- What a pass of the queue does to the submissions.
use trasker.Prelude.{
  ℕ, ◌≡◌, refl, ◌∙◌, sym, subst, ap, ◌⊎◌, inl, inr, List, [], ◌∷◌, String, ◌==◌, if_elim, none,
  some, Result, ok, err, ==_iff,
}
use trasker.Store.Tables.{confirmed, Submission, Db, update_where}
use trasker.Sync.Entries.{TimesheetEntry, load_submission_entries}
use trasker.Sync.Aggregate.{aggregate}
use trasker.Sync.Auth.{SyncError, is_permanent}
use trasker.Sync.Queue.{
  World, list_due_submissions, update_status, bump_retry, settle, process_one, process_all,
  process_pending,
}

-- Two tables with related rows, one to one and in order.
abbrev pub Rows {ℓ} : {A : Type ℓ} → (A → A → Type 0) → List A → List A → Type 0
Rows P [] [] = Unit
Rows P (x ∷ xs) (y ∷ ys) = P x y × Rows P xs ys
Rows P _ _ = ⊥

Rows-refl {ℓ} : {A : Type ℓ} (P : A → A → Type 0) (xs : List A) → ((x : A) → P x x) → Rows P xs xs
Rows-refl P [] r = tt
Rows-refl P (x ∷ xs) r = (r x, Rows-refl P xs r)

Rows-trans {ℓ} :
    {A : Type ℓ} (P : A → A → Type 0) (xs ys zs : List A)
    → ((x y z : A) → P x y → P y z → P x z)
    → Rows P xs ys
    → Rows P ys zs
    → Rows P xs zs
Rows-trans P [] [] [] t p q = tt
Rows-trans P [] [] (z ∷ zs) t p q = q
Rows-trans P [] (y ∷ ys) zs t p q = elim p [ ]
Rows-trans P (x ∷ xs) [] zs t p q = elim p [ ]
Rows-trans P (x ∷ xs) (y ∷ ys) [] t p q = q
Rows-trans P (x ∷ xs) (y ∷ ys) (z ∷ zs) t p q = (t x y z p.0 q.0, Rows-trans P xs ys zs t p.1 q.1)

-- The entries that the queue sends for a submission.
abbrev pub sent_entries : World → Db → ℕ → List TimesheetEntry
sent_entries w db id = aggregate w.shuffle (load_submission_entries id db)

-- Why a row may become confirmed: it has no entries, or the server has taken them under the id
-- that is noted.
abbrev pub Confirmed : World → Db → Submission → Submission → Type 0
Confirmed w db r r' =
    (r'.status ≡ confirmed)
    × (((load_submission_entries r.id db ≡ []) × (r'.server_id ≡ none))
        ⊎ ((sid : String) × (w.server r.id (sent_entries w db r.id) ≡ ok sid)
            × (r'.server_id ≡ some sid)))

-- How a row may come out of a pass.
abbrev pub Evolves : World → Db → Submission → Submission → Type 0
Evolves w db r r' =
    (r'.id ≡ r.id)
    × (r'.submitted_at ≡ r.submitted_at)
    × (((r'.status ≡ r.status) × (r'.server_id ≡ r.server_id)) ⊎ Confirmed w db r r')

Evolves-refl : (w : World) (db : Db) (r : Submission) → Evolves w db r r
Evolves-refl w db r = (refl, refl, inl (refl, refl))

Confirmed-id :
    (w : World) (db : Db) (x y z : Submission)
    → y.id ≡ x.id
    → Confirmed w db y z
    → Confirmed w db x z
Confirmed-id w db x y z e (s, inl (l, n)) =
    (s, inl (subst (λ i. load_submission_entries i db ≡ []) e l, n))
Confirmed-id w db x y z e (s, inr (sid, k, n)) =
    (s, inr (sid, subst (λ i. w.server i (sent_entries w db i) ≡ ok sid) e k, n))

Evolves-trans :
    (w : World) (db : Db) (x y z : Submission)
    → Evolves w db x y
    → Evolves w db y z
    → Evolves w db x z
Evolves-trans w db x y z (i, t, c) (i', t', inr d) =
    (i' ∙ i, t' ∙ t, inr (Confirmed-id w db x y z i d))
Evolves-trans w db x y z (i, t, inl (s, n)) (i', t', inl (s', n')) =
    (i' ∙ i, t' ∙ t, inl (s' ∙ s, n' ∙ n))
Evolves-trans w db x y z (i, t, inr (s, inl (l, n))) (i', t', inl (s', n')) =
    (i' ∙ i, t' ∙ t, inr (s' ∙ s, inl (l, n' ∙ n)))
Evolves-trans w db x y z (i, t, inr (s, inr (sid, k, n))) (i', t', inl (s', n')) =
    (i' ∙ i, t' ∙ t, inr (s' ∙ s, inr (sid, k, n' ∙ n)))

-- What a pass, or a part of it, has done to the store.
pub record Passed (w : World) (db db' : Db) : Type 0 where
  pub rows : List Submission
  pub store : db' ≡ record db { submissions = rows }
  pub evolved : Rows (Evolves w db) db.submissions rows

-- An update by id whose effect on a row of that id is allowed.
update-Rows :
    (w : World) (db : Db) (id : ℕ) (f : Submission → Submission) (rows : List Submission)
    → ((r : Submission) → r.id ≡ id → Evolves w db r (f r))
    → Rows (Evolves w db) rows (update_where (λ s. s.id == id) f rows)
unfolding update_where
update-Rows w db id f [] h = tt
update-Rows w db id f (r ∷ rows) h = (
  if_elim (Evolves w db r) (r.id == id) _ _ (λ p. h r ((==_iff r.id id).0 p))
      (λ _. Evolves-refl w db r),
  update-Rows w db id f rows h,
)

settle-Passed :
    (w : World) (s : Submission) (db : Db) (a : Result SyncError String)
    → w.server s.id (sent_entries w db s.id) ≡ a
    → Passed w db (settle (w.clock s.id) s a db)
unfolding settle update_status bump_retry
settle-Passed w s db (ok sid) k = record {
  rows = _;
  store = refl;
  evolved = update-Rows w db s.id _ db.submissions λ r e. (
    refl,
    refl,
    inr (refl, inr (sid, subst (λ i. w.server i (sent_entries w db i) ≡ ok sid) (sym e) k, refl)),
  );
}
settle-Passed w s db (err x) k =
    if_elim (Passed w db) (is_permanent x) _ _
      (λ _. record {
        rows = db.submissions;
        store = refl;
        evolved = Rows-refl _ db.submissions (Evolves-refl w db);
      })
      (λ _. record {
        rows = _;
        store = refl;
        evolved = update-Rows w db s.id _ db.submissions λ r e. (refl, refl, inl (refl, refl));
      })

pub process_one-Passed : (w : World) (s : Submission) (db : Db) → Passed w db (process_one w s db)
unfolding process_one update_status
process_one-Passed w s db = go (load_submission_entries s.id db) refl
  where
    go :
        (l : List TimesheetEntry)
        → load_submission_entries s.id db ≡ l
        → Passed w db (elim l [
          | [] ↦ update_status s.id confirmed none db
          | e ∷ es ↦ settle (w.clock s.id) s (w.server s.id (aggregate w.shuffle (e ∷ es))) db
        ])
    go [] k = record {
      rows = _;
      store = refl;
      evolved = update-Rows w db s.id _ db.submissions λ r e. (
        refl,
        refl,
        inr (refl, inl (subst (λ i. load_submission_entries i db ≡ []) (sym e) k, refl)),
      );
    }
    go (e ∷ es) k = settle-Passed w s db _ (ap (λ l. w.server s.id (aggregate w.shuffle l)) k)

-- The entries of a submission are read from other tables.
pub load-frame :
    (db : Db) (rows : List Submission) (i : ℕ)
    → load_submission_entries i (record db { submissions = rows }) ≡ load_submission_entries i db
unfolding load_submission_entries
load-frame db rows i = refl

Evolves-frame :
    (w : World) (db : Db) (rows : List Submission) (r r' : Submission)
    → Evolves w (record db { submissions = rows }) r r'
    → Evolves w db r r'
Evolves-frame w db rows r r' (i, t, inl u) = (i, t, inl u)
Evolves-frame w db rows r r' (i, t, inr (s, inl (l, n))) =
    (i, t, inr (s, inl (sym (load-frame db rows r.id) ∙ l, n)))
Evolves-frame w db rows r r' (i, t, inr (s, inr (sid, k, n))) = (
  i,
  t,
  inr (
    s,
    inr (
      sid,
      subst (λ l. w.server r.id (aggregate w.shuffle l) ≡ ok sid) (load-frame db rows r.id) k,
      n,
    ),
  ),
)

Rows-mono {ℓ} :
    {A : Type ℓ} (P Q : A → A → Type 0) (xs ys : List A)
    → ((x y : A) → P x y → Q x y)
    → Rows P xs ys
    → Rows Q xs ys
Rows-mono P Q [] [] f h = tt
Rows-mono P Q [] (y ∷ ys) f h = h
Rows-mono P Q (x ∷ xs) [] f h = h
Rows-mono P Q (x ∷ xs) (y ∷ ys) f h = (f x y h.0, Rows-mono P Q xs ys f h.1)

Passed-trans :
    (w : World) (db db' db'' : Db) → Passed w db db' → Passed w db' db'' → Passed w db db''
Passed-trans w db db' db'' p q = record {
  rows = q.rows;
  store = q.store ∙ ap (λ (d : Db). record d { submissions = q.rows }) p.store;
  evolved = Rows-trans _ db.submissions p.rows q.rows (Evolves-trans w db) p.evolved (
      Rows-mono _ _ p.rows q.rows (Evolves-frame w db p.rows)
        (subst (λ (d : Db). Rows (Evolves w d) d.submissions q.rows) p.store q.evolved));
}

unchanged : (w : World) (db : Db) → Passed w db db
unchanged w db = record {
  rows = db.submissions;
  store = refl;
  evolved = Rows-refl _ db.submissions (Evolves-refl w db);
}

pub process_all-Passed :
    (w : World) (ss : List Submission) (db : Db) → Passed w db (process_all w ss db)
unfolding process_all
process_all-Passed w [] db = unchanged w db
process_all-Passed w (s ∷ ss) db =
    if_elim (Passed w db) (w.ended s.id) _ _ (λ _. unchanged w db)
      (λ _.
        Passed-trans w db _ _ (process_one-Passed w s db)
          (process_all-Passed w ss (process_one w s db)))

-- A pass of the queue, whatever the server answers and wherever the context ends: only the table of
-- submissions changes, row for row; no row changes its id or its time; and a row that becomes
-- confirmed has no entries to send, or the server has accepted its aggregated entries under the id
-- that the row notes.
pub process_pending-Passed :
    (w : World) (now : ℕ) (db : Db) → Passed w db (process_pending w now db)
unfolding process_pending
process_pending-Passed w now db = process_all-Passed w (list_due_submissions now db) db
