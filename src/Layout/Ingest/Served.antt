-- ===== src/Layout/Ingest/Served.antt =====
-- What the dashboard's handlers answer with.
use mathlib.Core.List.{Memᴰ}
use trasker.Prelude.{
  ℕ, ◌≡◌, ◌≤◌, refl, subst, ◌⊎◌, inl, inr, Bool, true, false, Option, none, some, List, [], ◌∷◌,
  ◌==◌, ==_iff, ltb, Bool-cases, Option-cases, find, find-mem, All, All-mono, ok, arith,
}
use trasker.Server.Tables.{Device, ServerDb}
use trasker.Server.Http.{Caller}
use trasker.Server.Http.Steps.{bind_ok, check_ok, present_ok, stored_ok, present_last}
use trasker.Server.Devices.{get_device_by_id}
use trasker.Layout.Snapshots.{LayoutSnapshot, latest, is_at_or_before, get_snapshot_at}
use trasker.Layout.Ingest.{
  Faults, probe_schema, authorize_device_for_user, authorized_device, layout_at,
}

-- The row, no other that passes being later.
abbrev pub Latest : (LayoutSnapshot → Bool) → List LayoutSnapshot → LayoutSnapshot → Type 0
Latest p rows s =
    Memᴰ s rows × (p s ≡ true) × All (λ r. p r ≡ true → r.captured_at ≤ s.captured_at) rows

latest-cases :
    (p : LayoutSnapshot → Bool) (rows : List LayoutSnapshot)
    → ((latest p rows ≡ none) × All (λ r. p r ≡ false) rows)
      ⊎ ((s : LayoutSnapshot) × (latest p rows ≡ some s) × Latest p rows s)
unfolding latest
latest-cases p [] = inl (refl, tt)
latest-cases p (r ∷ rows) = elim (Bool-cases (p r)) [
  | inl e ↦ elim (latest-cases p rows) [
    | inl (n, a) ↦ inr (
      r,
      rw (e, n),
      (
        Memᴰ.head refl,
        e,
        ((λ _. omega arith), All-mono _ _ rows (λ x h k. absurd (ground (arith, h, k))) a),
      ),
    )
    | inr (s, n, (m, k, a)) ↦ elim (Bool-cases (ltb r.captured_at s.captured_at)) [
      | inl b ↦ inr (s, rw (e, n, b), (Memᴰ.tail m, k, ((λ _. ground arith), a)))
      | inr b ↦ inr (
        r,
        rw (e, n, b),
        (
          Memᴰ.head refl,
          e,
          ((λ _. omega arith), All-mono _ _ rows (λ x h t. ground (arith, h t)) a),
        ),
      )
    ]
  ]
  | inr e ↦ elim (latest-cases p rows) [
    | inl (n, a) ↦ inl (rw (e, n), (e, a))
    | inr (s, n, (m, k, a)) ↦
        inr (s, rw (e, n), (Memᴰ.tail m, k, ((λ t. absurd (ground arith)), a)))
  ]
]

-- Why the answer may be shown: it is the latest row by then of a device of the caller's.
pub record Served (caller : Caller) (t_param : Option ℕ) (db : ServerDb)
    (rows : List LayoutSnapshot) (s : LayoutSnapshot) : Type 0 where
  pub user : ℕ
  pub device : Device
  pub t : ℕ
  pub authenticated : caller.user_id ≡ some user
  pub asked : t_param ≡ some t
  pub known : Memᴰ device db.devices
  pub owned : device.user_id ≡ user
  pub of_device : s.device_id ≡ device.id
  pub stored : Memᴰ s rows
  pub in_time : s.captured_at ≤ t
  pub newest :
      All (λ r. r.device_id ≡ device.id → r.captured_at ≤ t → r.captured_at ≤ s.captured_at) rows

find_device :
    (fails : Bool) (i : ℕ) (db : ServerDb) (d : Device)
    → get_device_by_id fails i db ≡ ok d
    → Memᴰ d db.devices
unfolding get_device_by_id
find_device fails i db d h = elim (Option-cases (find (λ d. d.id == i) db.devices)) [
  | inl e ↦ absurd (ground (arith, h, e))
  | inr (x, e) ↦ (find-mem (λ (d : Device). d.id == i) db.devices d (ground (arith, h, e))).0
]

at_or_before :
    (device_id t : ℕ) (r : LayoutSnapshot)
    → is_at_or_before device_id t r ≡ true
    → (r.device_id ≡ device_id) × (r.captured_at ≤ t)
unfolding is_at_or_before
at_or_before device_id t r h = ground arith

at_or_before_back :
    (device_id t : ℕ) (r : LayoutSnapshot)
    → r.device_id ≡ device_id
    → r.captured_at ≤ t
    → is_at_or_before device_id t r ≡ true
unfolding is_at_or_before
at_or_before_back device_id t r h k = ground arith

snapshot_at-Latest :
    (device_id t : ℕ) (rows : List LayoutSnapshot) (s : LayoutSnapshot)
    → get_snapshot_at device_id t rows ≡ some s
    → Latest (is_at_or_before device_id t) rows s
unfolding get_snapshot_at
snapshot_at-Latest device_id t rows s h = elim (latest-cases (is_at_or_before device_id t) rows) [
  | inl (n, a) ↦ absurd (ground (arith, n))
  | inr (x, n, l) ↦ subst (Latest (is_at_or_before device_id t) rows) (ground (arith, n)) l
]

authorized :
    (fails : Bool) (i u : ℕ) (db : ServerDb) (d : Device)
    → authorize_device_for_user fails i u db ≡ ok d
    → Memᴰ d db.devices × (d.user_id ≡ u)
unfolding authorize_device_for_user
authorized fails i u db d h =
    let (x, e, k) = stored_ok (get_device_by_id fails i db) _ _ _ d h in
    let (o, k') = check_ok (x.user_id == u) 403 _ _ d k in
    let y : x ≡ d = ground (arith, k') in
    let m = find_device fails i db x e in
    (
      subst (λ z. Memᴰ z db.devices) y m,
      subst (λ (z : Device). z.user_id ≡ u) y ((==_iff x.user_id u).0 o),
    )

authorized_caller :
    (faults : Faults) (caller : Caller) (device_param : Option ℕ) (db : ServerDb) (d : Device)
    → authorized_device faults caller device_param db ≡ ok d
    → (u : ℕ) × (caller.user_id ≡ some u) × Memᴰ d db.devices × (d.user_id ≡ u)
unfolding authorized_device probe_schema
authorized_caller faults caller device_param db d h =
    let (u, e, k) = present_ok caller.user_id 401 _ _ d h in
    let (i, e', k') = present_ok device_param 400 _ _ d k in
    let (m, o) = authorized faults.lookup i u db d (ground (arith, k')) in (u, e, m, o)

-- The dashboard is shown a snapshot only if its device is one of the caller's own, and then the
-- newest of that device that is not after the instant asked for.
pub layout_at-Served :
    (faults : Faults) (read_fails : Bool) (caller : Caller) (device_param t_param : Option ℕ)
    (db : ServerDb) (rows : List LayoutSnapshot) (s : LayoutSnapshot)
    → layout_at faults read_fails caller device_param t_param db rows ≡ ok s
    → Served caller t_param db rows s
unfolding layout_at
layout_at-Served faults read_fails caller device_param t_param db rows s h =
    let (d, e, k) = bind_ok (authorized_device faults caller device_param db) _ s h in
    let (t, e', k') = present_ok t_param 400 _ _ s k in
    let (_, k'') = check_ok _ 500 _ _ s k' in
    let (m, p, a) = snapshot_at-Latest d.id t rows s (present_last _ 404 _ s k'') in
    let (u, c, md, o) = authorized_caller faults caller device_param db d e in
    let (i, b) = at_or_before d.id t s p in
    record {
      user = u;
      device = d;
      t = t;
      authenticated = c;
      asked = e';
      known = md;
      owned = o;
      of_device = i;
      stored = m;
      in_time = b;
      newest = All-mono _ _ rows (λ r f x y. f (at_or_before_back d.id t r x y)) a;
    }
