-- ===== src/Layout/Exchange/Once.antt =====
-- Every snapshot that the client holds for synced has been on the server, which has none twice.
use mathlib.Core.List.{Memᴰ}
use trasker.Prelude.{
  ℕ, ◌+◌, ◌≡◌, ◌≢◌, refl, sym, ap, Bool, List, [], ◌∷◌, ◌++◌, map, not, if_elim, All, All-append,
  All-mono, All-filter, All-mem, Result, ok, err,
}
use trasker.Store.Tables.{next_rowid}
use trasker.Sync.Auth.{SyncError, is_permanent}
use trasker.Layout.Snapshots.{LayoutSnapshot}
use trasker.Layout.Ingest.Retried.{OncePerKey, layout_ingest-OncePerKey}
use trasker.Layout.Downsample.Keys.{sweep-OncePerKey}
use trasker.Layout.Exchange.Marks.{
  request, OnServer, SyncedStored, Tied, mark-SyncedStored, mark-Tied, mark-DistinctIds,
  bump-DistinctIds,
}
use trasker.Layout.Local.{Row, insert_row, is_old, prune}
use trasker.Layout.Syncer.{
  payload, batch, Phase, idle, posting, marking, bumping, start, settle, update_next,
}
use trasker.Layout.Exchange.{
  Setup, Net, deliver, Both, Event, listed, answered, updated, captured, pruned, swept, requested,
  arrived, started, replied, happen, run, in_flight,
}
use trasker.Layout.Exchange.Batches.{
  batch-mem, DistinctIds, distinct-eq, filter-DistinctIds, insert-DistinctIds, bump-All,
}
use trasker.Layout.Exchange.Answers.{
  Registered, success, deliver-OncePerKey, OnServer-more, OnServer-now,
}

-- What is known of the batch that the syncer holds: a row of the table with the id of one of the
-- batch has its snapshot, and what is being marked has been on the server.
abbrev pub Holding : ℕ → List LayoutSnapshot → List Row → Phase → Type 0
Holding d history rows idle = Unit
Holding d history rows (posting due) = All (Tied rows) due
Holding d history rows (marking t due) = All (λ f. Tied rows f × OnServer d history f) due
Holding d history rows (bumping due) = Unit

-- The client and the server agree: no row is held for synced whose snapshot the server has not had,
-- the server has none twice, and the client's ids are those of a primary key.
pub record Agree (d : ℕ) (b : Both) : Type 0 where
  pub synced : All (SyncedStored d b.history) b.rows
  pub once : OncePerKey b.snaps
  pub ids : DistinctIds b.rows
  pub holding : Holding d b.history b.rows b.phase

-- No snapshot that is captured gets the id of a row of a batch that the syncer holds.
abbrev pub FreshId : Event → Both → Type 0
FreshId (captured now at windows hash) b =
    All (λ f. f.id ≢ next_rowid (λ r. r.id) b.rows) (in_flight b.phase)
FreshId _ b = Unit

abbrev pub FreshIds : Setup → List Event → Both → Type 0
unfolding happen
FreshIds s [] b = Unit
FreshIds s (e ∷ es) b = FreshId e b × FreshIds s es (happen s e b)

tied : (rows due : List Row) → DistinctIds rows → All (λ f. Memᴰ f rows) due → All (Tied rows) due
tied rows due i m =
    All-mono _ _ due
      (λ f n. All-mono _ _ rows (λ r k e. ap request (distinct-eq rows r f i k n e)) (All-mem rows))
      m

-- The updates of a batch.
paired :
    (d : ℕ) (history : List LayoutSnapshot) (rows due : List Row)
    → All (Tied rows) due
    → All (OnServer d history) due
    → All (λ f. Tied rows f × OnServer d history f) due
paired d history rows [] t o = tt
paired d history rows (f ∷ due) t o = ((t.0, o.0), paired d history rows due t.1 o.1)

settle-Holding :
    (d now : ℕ) (history : List LayoutSnapshot) (rows due : List Row)
    (a : Result SyncError (Unit {0}))
    → All (Tied rows) due
    → (a ≡ ok tt → All (OnServer d history) due)
    → Holding d history rows (settle now due a)
unfolding settle
settle-Holding d now history rows due (ok u) t f = paired d history rows due t (f refl)
settle-Holding d now history rows due (err e) t f =
    if_elim (Holding d history rows) (is_permanent e) _ _ (λ _. tt) (λ _. tt)

Holding-more :
    (d : ℕ) (snaps history : List LayoutSnapshot) (rows : List Row) (p : Phase)
    → Holding d history rows p
    → Holding d (snaps ++ history) rows p
Holding-more d snaps history rows idle h = tt
Holding-more d snaps history rows (posting due) h = h
Holding-more d snaps history rows (marking t due) h =
    All-mono _ _ due (λ f k. (k.0, OnServer-more d snaps history f k.1)) h
Holding-more d snaps history rows (bumping due) h = tt

arrived-Agree :
    (d : ℕ) (snaps : List LayoutSnapshot) (b : Both)
    → OncePerKey snaps
    → Agree d b
    → Agree d (arrived snaps b)
arrived-Agree d snaps b o h = record {
  synced = All-mono _ _ b.rows (λ r k e. OnServer-more d snaps b.history r (k e)) h.synced;
  once = o;
  ids = h.ids;
  holding = Holding-more d snaps b.history b.rows b.phase h.holding;
}

module _ (s : Setup) (d : ℕ) where
  started-Agree : (now : ℕ) (b : Both) (p : Phase) → Agree d b → Agree d (started s now p b)
  unfolding started start
  started-Agree now b idle h = record {
    synced = h.synced;
    once = h.once;
    ids = h.ids;
    holding = go (batch s.batch_size now b.rows) (batch-mem s.batch_size now b.rows);
  }
    where
      go :
          (due : List Row)
          → All (λ f. Memᴰ f b.rows) due
          → Holding d b.history b.rows
              (elim due as (λ _. Phase) [ [] ↦ idle | r ∷ rs ↦ posting (r ∷ rs) ])
      go [] m = tt
      go (r ∷ rs) m = tied b.rows (r ∷ rs) h.ids m
  started-Agree now b (posting due) h = h
  started-Agree now b (marking t due) h = h
  started-Agree now b (bumping due) h = h

  replied-Agree :
      (net : Net) (now : ℕ) (b : Both) (p : Phase)
      → Registered s d
      → Holding d b.history b.rows p
      → Agree d b
      → Agree d (replied s net now p b)
  unfolding replied
  replied-Agree net now b idle reg k h = h
  replied-Agree net now b (posting due) reg k h =
      let snaps = (deliver s net b.snaps (map payload due)).0 in
      let a =
        arrived-Agree d snaps b (deliver-OncePerKey s net b.snaps (map payload due) h.once) h in
      record {
        synced = a.synced;
        once = a.once;
        ids = a.ids;
        holding = settle-Holding d now (snaps ++ b.history) b.rows due _ k (λ e.
            All-mono _ _ due (λ f o. OnServer-now d snaps b.history f o)
              (success s d net b.snaps due reg e));
      }
  replied-Agree net now b (marking t due) reg k h = h
  replied-Agree net now b (bumping due) reg k h = h

  updated-Agree :
      (fails : Bool) (now : ℕ) (b : Both) (p : Phase)
      → Holding d b.history b.rows p
      → Agree d b
      → let r = update_next fails now p b.rows in Agree d (record b { phase = r.0; rows = r.1 })
  unfolding update_next
  updated-Agree fails now b idle k h = record {
    synced = h.synced;
    once = h.once;
    ids = h.ids;
    holding = tt;
  }
  updated-Agree fails now b (posting due) k h = record {
    synced = h.synced;
    once = h.once;
    ids = h.ids;
    holding = k;
  }
  updated-Agree fails now b (marking t []) k h = record {
    synced = h.synced;
    once = h.once;
    ids = h.ids;
    holding = tt;
  }
  updated-Agree fails now b (bumping []) k h = record {
    synced = h.synced;
    once = h.once;
    ids = h.ids;
    holding = tt;
  }
  updated-Agree fails now b (marking t (f ∷ due)) k h =
      if_elim (λ l. Agree d (record b { phase = marking t due; rows = l })) fails _ _
        (λ _. record { synced = h.synced; once = h.once; ids = h.ids; holding = k.1 })
        (λ _. record {
          synced = mark-SyncedStored d b.history t b.rows f k.0.0 k.0.1 h.synced;
          once = h.once;
          ids = mark-DistinctIds f.id t b.rows h.ids;
          holding = All-mono _ _ due (λ g n. (mark-Tied f.id t b.rows g n.0, n.1)) k.1;
        })
  updated-Agree fails now b (bumping (f ∷ due)) k h =
      if_elim (λ l. Agree d (record b { phase = bumping due; rows = l })) fails _ _
        (λ _. record { synced = h.synced; once = h.once; ids = h.ids; holding = tt })
        (λ _. record {
          synced =
              bump-All (SyncedStored d b.history) f.id b.rows (f.retry_count + 1) now (λ r x. x)
                h.synced;
          once = h.once;
          ids = bump-DistinctIds f.id (f.retry_count + 1) now b.rows h.ids;
          holding = tt;
        })

-- A change of the rows that leaves the ones of the batch.
Holding-rows :
    (d : ℕ) (history : List LayoutSnapshot) (rows rows' : List Row) (p : Phase)
    → All (λ f. Tied rows f → Tied rows' f) (in_flight p)
    → Holding d history rows p
    → Holding d history rows' p
Holding-rows d history rows rows' idle m h = tt
Holding-rows d history rows rows' (posting []) m h = tt
Holding-rows d history rows rows' (posting (f ∷ due)) m h =
    (m.0 h.0, Holding-rows d history rows rows' (posting due) m.1 h.1)
Holding-rows d history rows rows' (marking t []) m h = tt
Holding-rows d history rows rows' (marking t (f ∷ due)) m h =
    ((m.0 h.0.0, h.0.1), Holding-rows d history rows rows' (marking t due) m.1 h.1)
Holding-rows d history rows rows' (bumping due) m h = tt

happen-Agree :
    (s : Setup) (d : ℕ) (e : Event) (b : Both)
    → Registered s d
    → FreshId e b
    → Agree d b
    → Agree d (happen s e b)
unfolding happen insert_row prune
happen-Agree s d (listed now) b reg n h = started-Agree s d now b b.phase h
happen-Agree s d (answered net now) b reg n h = replied-Agree s d net now b b.phase reg h.holding h
happen-Agree s d (updated fails now) b reg n h = updated-Agree s d fails now b b.phase h.holding h
happen-Agree s d (captured now at windows hash) b reg n h = record {
  synced = All-append _ b.rows _ h.synced ((λ e. absurd (cc)), tt);
  once = h.once;
  ids = insert-DistinctIds now at windows hash b.rows h.ids;
  holding =
      Holding-rows d b.history b.rows (insert_row now at windows hash b.rows).0 b.phase
        (All-mono _ _ (in_flight b.phase)
          (λ f m t. All-append _ b.rows _ t ((λ e. absurd (m (sym e))), tt)) n)
        h.holding;
}
happen-Agree s d (pruned now retention) b reg n h = record {
  synced = All-mono _ _ _ (λ r k. k.1) (All-filter _ _ b.rows h.synced);
  once = h.once;
  ids = filter-DistinctIds _ b.rows h.ids;
  holding =
      Holding-rows d b.history b.rows (prune now retention b.rows).0 b.phase
        (All-mono _ _ (in_flight b.phase)
          (λ f m t.
            All-mono _ _ _ (λ r k. k.1) (All-filter _ (λ r. not (is_old now retention r)) b.rows t))
          (All-mem (in_flight b.phase)))
        h.holding;
}
happen-Agree s d (swept f g now) b reg n h = record {
  synced = h.synced;
  once = sweep-OncePerKey f g now b.snaps h.once;
  ids = h.ids;
  holding = h.holding;
}
happen-Agree s d (requested faults g caller body) b reg n h =
    arrived-Agree d _ b (layout_ingest-OncePerKey faults g caller body s.db b.snaps h.once) h

-- The steps of the syncer, over a network that loses requests and answers and a server that fails,
-- with captures, prunes, the sweeps of the server and requests of other clients or late ones between
-- any two of them: if the client's device is registered, both tables agree at first, and no
-- snapshot is captured under the id of a row of a batch that the syncer holds, they agree at the
-- end: the server has had each snapshot that the client holds for synced, and it has none twice.
pub run-Agree :
    (s : Setup) (d : ℕ) (es : List Event) (b : Both)
    → Registered s d
    → FreshIds s es b
    → Agree d b
    → Agree d (run s es b)
unfolding run
run-Agree s d [] b reg n h = h
run-Agree s d (e ∷ es) b reg n h =
    run-Agree s d es (happen s e b) reg n.1 (happen-Agree s d e b reg n.0 h)
