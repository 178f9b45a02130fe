-- ===== src/Layout/Exchange/Batches.antt =====
-- What a batch is made of, and what updates of single rows keep.
use mathlib.Core.List.{Memᴰ}
use trasker.Prelude.{
  ℕ, zero, suc, String, ◌≡◌, ◌≢◌, sym, ap, ◌∙◌, subst, inl, inr, Bool, true, false, ◌&&◌, none,
  some, List, [], ◌∷◌, ◌++◌, ltb, ==_iff, if_elim, Bool-cases, All, All-append, All-mono,
  All-filter, All-mem, All-get, filter, take, length, arith,
}
use trasker.Prelude.Sort.{sort_by-All}
use trasker.Store.Tables.{update_where, has_row, next_rowid-fresh}
use trasker.Layout.Snapshots.{Window}
use trasker.Layout.Local.{Row, is_unsynced, pending_rows, insert_row, mark_synced, bump_retry}
use trasker.Layout.Syncer.{is_due, list_due_snapshots, batch}

All-take {ℓ κ} : {A : Type ℓ} (P : A → Type κ) (n : ℕ) (xs : List A) → All P xs → All P (take n xs)
All-take P zero xs h = tt
All-take P (suc n) [] h = tt
All-take P (suc n) (x ∷ xs) h = (h.0, All-take P n xs h.1)

filtered {ℓ κ} :
    {A : Type ℓ} (P : A → Type κ) (p : A → Bool) (xs : List A) → All P xs → All P (filter p xs)
filtered P p xs h = All-mono _ _ (filter p xs) (λ x k. k.1) (All-filter P p xs h)

-- A batch has rows of the table.
pub batch-mem : (size now : ℕ) (rows : List Row) → All (λ r. Memᴰ r rows) (batch size now rows)
unfolding batch list_due_snapshots pending_rows
batch-mem size now rows =
    elim (Bool-cases (ltb 0 size && ltb size (length (list_due_snapshots now rows)))) [
      | inl e ↦ rw e (All-take _ size _ due)
      | inr e ↦ rw e (due)
    ]
  where
    due : All (λ r. Memᴰ r rows) (list_due_snapshots now rows)
    due =
        filtered _ (is_due now) _
          (sort_by-All (λ r. r.captured_at) _ _ (filtered _ is_unsynced rows (All-mem rows)))

pub update-All {κ} :
    (P : Row → Type κ) (p : Row → Bool) (f : Row → Row) (rows : List Row)
    → ((r : Row) → p r ≡ true → P r → P (f r))
    → All P rows
    → All P (update_where p f rows)
unfolding update_where
update-All P p f [] k h = tt
update-All P p f (r ∷ rows) k h =
    (if_elim P (p r) _ _ (λ e. k r e h.0) (λ _. h.0), update-All P p f rows k h.1)

-- No two rows have one id.
abbrev pub DistinctIds : List Row → Type 0
DistinctIds [] = Unit
DistinctIds (r ∷ rows) = All (λ s. s.id ≢ r.id) rows × DistinctIds rows

pub distinct-eq :
    (rows : List Row) (a b : Row)
    → DistinctIds rows
    → Memᴰ a rows
    → Memᴰ b rows
    → a.id ≡ b.id
    → a ≡ b
distinct-eq [] a b d m n e = elim m [ ]
distinct-eq (r ∷ rows) a b d (Memᴰ.head x) (Memᴰ.head y) e = x ∙ sym y
distinct-eq (r ∷ rows) a b d (Memᴰ.head x) (Memᴰ.tail n) e =
    absurd (All-get _ rows b d.0 n (sym e ∙ ap (λ (z : Row). z.id) x))
distinct-eq (r ∷ rows) a b d (Memᴰ.tail m) (Memᴰ.head y) e =
    absurd (All-get _ rows a d.0 m (e ∙ ap (λ (z : Row). z.id) y))
distinct-eq (r ∷ rows) a b d (Memᴰ.tail m) (Memᴰ.tail n) e = distinct-eq rows a b d.1 m n e

pub update-DistinctIds :
    (p : Row → Bool) (f : Row → Row) (rows : List Row)
    → ((r : Row) → (f r).id ≡ r.id)
    → DistinctIds rows
    → DistinctIds (update_where p f rows)
unfolding update_where
update-DistinctIds p f [] k h = tt
update-DistinctIds p f (r ∷ rows) k h = (
  if_elim (λ (x : Row). All (λ s. s.id ≢ x.id) (update_where p f rows)) (p r) _ _
      (λ _. subst (λ i. All (λ s. s.id ≢ i) (update_where p f rows)) (sym (k r)) others)
      (λ _. others),
  update-DistinctIds p f rows k h.1,
)
  where
    others : All (λ s. s.id ≢ r.id) (update_where p f rows)
    others = update-All (λ s. s.id ≢ r.id) p f rows (λ s _ n e. n (sym (k s) ∙ e)) h.0

pub filter-DistinctIds :
    (p : Row → Bool) (rows : List Row) → DistinctIds rows → DistinctIds (filter p rows)
filter-DistinctIds p [] h = tt
filter-DistinctIds p (r ∷ rows) h =
    if_elim DistinctIds (p r) _ _ (λ _. (filtered _ p rows h.0, filter-DistinctIds p rows h.1))
      (λ _. filter-DistinctIds p rows h.1)

no_row : (i : ℕ) (rows : List Row) → has_row (λ r. r.id) i rows ≡ false → All (λ s. s.id ≢ i) rows
unfolding has_row
no_row i [] h = tt
no_row i (r ∷ rows) h = (λ e. absurd (ground (arith, e)), no_row i rows (ground arith))

snoc-DistinctIds :
    (rows : List Row) (x : Row)
    → All (λ s. s.id ≢ x.id) rows
    → DistinctIds rows
    → DistinctIds (rows ++ x ∷ [])
snoc-DistinctIds [] x n h = (tt, tt)
snoc-DistinctIds (r ∷ rows) x n h =
    (All-append _ rows (x ∷ []) h.0 ((λ e. n.0 (sym e)), tt), snoc-DistinctIds rows x n.1 h.1)

pub insert-DistinctIds :
    (now at : ℕ) (windows : List Window) (hash : String) (rows : List Row)
    → DistinctIds rows
    → DistinctIds (insert_row now at windows hash rows).0
unfolding insert_row
insert-DistinctIds now at windows hash rows h =
    snoc-DistinctIds rows _
      (no_row _ rows (next_rowid-fresh (λ (r : Row). r.id) rows _ (omega arith))) h

-- What the updates by id make of a property of all rows.
module _ {κ} (P : Row → Type κ) (id : ℕ) (rows : List Row) where
  pub mark-All :
      (t : ℕ)
      → ((r : Row) → r.id ≡ id → P r → P (record r { synced_at = some t; last_retry = none }))
      → All P rows
      → All P (mark_synced id t rows)
  unfolding mark_synced
  mark-All t f h = update-All P _ _ rows (λ r e k. f r ((==_iff r.id id).0 e) k) h

  pub bump-All :
      (n t : ℕ)
      → ((r : Row) → P r → P (record r { retry_count = n; last_retry = some t }))
      → All P rows
      → All P (bump_retry id n t rows)
  unfolding bump_retry
  bump-All n t f h = update-All P _ _ rows (λ r _ k. f r k) h
