-- ===== src/Server/Login/Changed.antt =====
-- A password that was changed.
use trasker.Prelude.{
  ℕ, ◌≡◌, refl, sym, ap, ◌∙◌, subst, inl, inr, Bool, true, false, not, ◌&&◌, Option, some, List, [],
  ◌∷◌, String, str_eq, ltb, ◌==◌, if◌then◌else◌, Bool-cases, Option-cases, find, find-mem, ok,
  arith,
}
use trasker.Store.Tables.{update_where}
use trasker.Server.Tables.{User, ServerDb}
use trasker.Server.Http.{Caller, is_set}
use trasker.Server.Http.Steps.{check_ok, present_ok, answered_then, answered_ok}
use trasker.Server.Users.{
  get_user_by_id, get_user_by_email, update_user, with_password, update_user_password,
}
use trasker.Server.Login.{Crypto, ChangeReq, local_login, change_password}

-- What an update of some rows makes of a search that it does not disturb.
find-update {ℓ} :
    {A : Type ℓ} (p q : A → Bool) (f : A → A) (xs : List A) (a : A)
    → ((x : A) → p (f x) ≡ p x)
    → find p xs ≡ some a
    → q a ≡ true
    → find p (update_where q f xs) ≡ some (f a)
unfolding update_where
find-update p q f [] a k h t = absurd (cc)
find-update p q f (x ∷ xs) a k h t = elim (Bool-cases (p x)) [
  | inl e ↦
      let y : x ≡ a = ground (arith, h, e) in
      subst (λ z. find p ((if q z then f z else z) ∷ update_where q f xs) ≡ some (f a)) (sym y)
        (first t (k a ∙ ap p (sym y) ∙ e))
  | inr e ↦ other (find-update p q f xs a k (ground (arith, h, e)) t) e
]
  where
    first :
        q a ≡ true
        → p (f a) ≡ true
        → find p ((if q a then f a else a) ∷ update_where q f xs) ≡ some (f a)
    first t e = rw (t, e)

    other :
        find p (update_where q f xs) ≡ some (f a)
        → p x ≡ false
        → find p ((if q x then f x else x) ∷ update_where q f xs) ≡ some (f a)
    other r e = elim (Bool-cases (q x)) [ inl w ↦ rw (w, k x, e) r | inr w ↦ rw (w, e) r ]

by_id :
    (fails : Bool) (id : ℕ) (db : ServerDb) (u : User)
    → get_user_by_id fails id db ≡ ok u
    → (find (λ r. r.id == id) db.users ≡ some u)
unfolding get_user_by_id
by_id true id db u h = absurd (cc)
by_id false id db u h = elim (Option-cases (find (λ r. r.id == id) db.users)) [
  | inl e ↦ absurd (ground (arith, h, e))
  | inr (x, e) ↦ ground (arith, h, e)
]

by_email :
    (email : String) (db : ServerDb) (u : User)
    → get_user_by_email false email db ≡ ok u
    → (find (λ r. str_eq r.email email) db.users ≡ some u)
unfolding get_user_by_email
by_email email db u h = elim (Option-cases (find (λ r. str_eq r.email email) db.users)) [
  | inl e ↦ absurd (ground (arith, h, e))
  | inr (x, e) ↦ ground (arith, h, e)
]

-- What a change of a password has done.
pub record Changed (c : Crypto) (now id : ℕ) (password : String) (db db' : ServerDb) (u : User)
    : Type 0 where
  pub old : User
  pub hash : String
  pub was : find (λ r. r.id == id) db.users ≡ some old
  pub allowed : is_set password ≡ true
  pub hashed : c.hash password ≡ some hash
  pub is : u ≡ with_password now hash old
  pub stored :
      db' ≡ record db { users = update_where (λ r. r.id == id) (with_password now hash) db.users }

updated_password :
    (fails : Bool) (now id : ℕ) (hash : String) (db db' : ServerDb) (u : User)
    → update_user_password fails now id hash db ≡ ok (db', u)
    → (old : User) × (find (λ r. r.id == id) db.users ≡ some old)
      × (u ≡ with_password now hash old)
      × (db'
          ≡ record db { users = update_where (λ r. r.id == id) (with_password now hash) db.users })
unfolding update_user_password update_user
updated_password true now id hash db db' u h = absurd (cc)
updated_password false now id hash db db' u h =
    elim (Option-cases (find (λ r. r.id == id) db.users)) [
      | inl e ↦ absurd (ground (arith, h, e))
      | inr (x, e) ↦ (x, e, ground (arith, h, e), ground (arith, h, e))
    ]

same_user : (o : Option ℕ) (i j : ℕ) → o ≡ some i → o ≡ some j → i ≡ j
same_user o i j h k = ground (arith, h, k)

-- Of a successful request.
changed :
    (c : Crypto) (gf uf : Bool) (now id : ℕ) (caller : Caller) (req : ChangeReq) (db db' : ServerDb)
    (u : User)
    → caller.user_id ≡ some id
    → change_password c gf uf now caller (some req) db ≡ ok (db', u)
    → Changed c now id req.new_password db db' u
unfolding change_password
changed c gf uf now id caller req db db' u k h =
    let (i, e1, h1) = present_ok caller.user_id 401 _ _ (db', u) h in
    let (e2, h2) =
      check_ok (is_set req.new_password && not (ltb (c.byte_length req.new_password) 8)) 400 _ _
        (db', u) h1 in
    let (x, e3, h3) = answered_then (get_user_by_id gf i db) 500 _ _ (db', u) h2 in
    let (o, e4, h4) = present_ok x.password_hash 400 _ _ (db', u) h3 in
    let (e5, h5) = check_ok (c.matches o req.current_password) 401 _ _ (db', u) h4 in
    let (n, e6, h6) = present_ok (c.hash req.new_password) 500 _ _ (db', u) h5 in
    let y : i ≡ id = same_user caller.user_id i id e1 k in
    let (old, a, b, d) = updated_password uf now id n db db' u (
      subst (λ j. update_user_password uf now j n db ≡ ok (db', u)) y
        (answered_ok (update_user_password uf now i n db) 500 _ (db', u) h6)) in
    record {
      old = old;
      hash = n;
      was = a;
      allowed = ground (arith, e2);
      hashed = e6;
      is = b;
      stored = d;
    }

login_ok :
    (c : Crypto) (email password : String) (db : ServerDb) (u : User) (hash token : String)
    → find (λ r. str_eq r.email email) db.users ≡ some u
    → u.password_hash ≡ some hash
    → c.matches hash password ≡ true
    → is_set email ≡ true
    → is_set password ≡ true
    → c.issue u.id u.email u.role ≡ some token
    → local_login c false (some (record { email = email; password = password })) db ≡ ok (token, u)
unfolding local_login get_user_by_email
login_ok c email password db u hash token f h m se sp t = rw (se, sp, f, h, m, t)

-- After a successful change of the password the user need change it no more. If bcrypt takes a
-- password for the hash it made of it, the user's e-mail is not empty and leads to the user, and the
-- issuer makes a token, the user then logs in with the new password.
pub login-change_password :
    (c : Crypto) (gf uf : Bool) (now id : ℕ) (caller : Caller) (req : ChangeReq) (db db' : ServerDb)
    (old u : User) (token : String)
    → ((password hash : String) → c.hash password ≡ some hash → c.matches hash password ≡ true)
    → caller.user_id ≡ some id
    → get_user_by_id false id db ≡ ok old
    → get_user_by_email false old.email db ≡ ok old
    → is_set old.email ≡ true
    → change_password c gf uf now caller (some req) db ≡ ok (db', u)
    → c.issue u.id u.email u.role ≡ some token
    → (u.force_password_change ≡ false)
      × (local_login c false (some (record { email = old.email; password = req.new_password })) db'
          ≡ ok (token, u))
unfolding with_password
login-change_password c gf uf now id caller req db db' old u token bcrypt k hi he se h t =
    let v = changed c gf uf now id caller req db db' u k h in
    let o : v.old ≡ old = ground (arith, v.was, by_id false id db old hi) in
    let is : u ≡ with_password now v.hash old =
      subst (λ x. u ≡ with_password now v.hash x) o v.is in
    let m = find-mem (λ (r : User). r.id == id) db.users old (by_id false id db old hi) in
    let users = update_where (λ (r : User). r.id == id) (with_password now v.hash) db.users in
    let f : find (λ r. str_eq r.email old.email) users ≡ some (with_password now v.hash old) =
      find-update (λ (r : User). str_eq r.email old.email) (λ (r : User). r.id == id)
        (with_password now v.hash) db.users old (λ x. refl) (by_email old.email db old he) m.1 in
    (
      ap (λ (x : User). x.force_password_change) is,
      login_ok c old.email req.new_password db' u v.hash token
          (ap (λ (d : ServerDb). find (λ r. str_eq r.email old.email) d.users) v.stored
            ∙ f
            ∙ ap some (sym is))
          (ap (λ (x : User). x.password_hash) is) (bcrypt req.new_password v.hash v.hashed) se
          v.allowed t,
    )
