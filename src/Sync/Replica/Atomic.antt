-- ===== src/Sync/Replica/Atomic.antt =====
-- sqlitersync/replica.go: what the file on disk holds until ORIGIN_TXN.
pub mod Page
pub mod Begin
pub mod Loop
pub mod Side
use go_sqlite_rsync.Common.{
  ℕ, zero, suc, ◌+◌, ◌≡◌, ◌≢◌, ◌⊎◌, inl, inr, refl, sym, ap, subst, ◌∙◌, Bool, true, false,
  Bool-cases, Option, none, some, List, ◌==◌, if◌then◌else◌, arith,
}
use go_sqlite_rsync.Common.Act.{Result, ok, err, bind, pure, raise, ◌>>=◌, ◌>>◌, modify, gets}
use go_sqlite_rsync.Sync.Run.{
  Rsync, Run, RunError, Database, DbError, nil_pointer, or_driver, call, or_report, change, run,
  prepare, reading, writing,
}
use go_sqlite_rsync.Sync.Run.Keeps.{Keeps}
use go_sqlite_rsync.Sync.Replica.Untouched.{Standing, standing, stable}

-- From where `P` holds, `m` leaves the file on disk as it is, and ends where `Q` holds unless it fails.
pub record Leaves {A : Type 0} (P Q : Standing → Type 0) (m : Run A) : Type 0 where
  pub saved : (s : Rsync) → P (standing s) → (m s).1.db.saved ≡ s.db.saved
  pub ends : (s : Rsync) → P (standing s) → (a : A) → (m s).0 ≡ ok a → Q (standing (m s).1)

pub Leaves-Keeps :
    {A : Type 0} {P : Standing → Type 0} (m : Run A) → Keeps standing m → Leaves P P m
Leaves-Keeps {A} {P} m k = record {
  saved = λ s p. ap (λ v. v.saved) (k.at s);
  ends = λ s p a e. subst P (sym (k.at s)) p;
}

pub Leaves-bind :
    {A B : Type 0} {P Q R : Standing → Type 0} (m : Run A) (k : A → Run B)
    → Leaves P Q m
    → ((a : A) → Leaves Q R (k a))
    → Leaves P R (m >>= k)
Leaves-bind {A} {B} {P} {Q} {R} m k hm hk = record {
  saved = λ s p. saved s (m s) (hm.saved s p) (hm.ends s p);
  ends = λ s p. ends (m s) (hm.ends s p);
}
  where
    saved :
        (s : Rsync) (r : Result RunError A × Rsync)
        → r.1.db.saved ≡ s.db.saved
        → ((a : A) → r.0 ≡ ok a → Q (standing r.1))
        → (bind r k).1.db.saved ≡ s.db.saved
    saved s (ok a, s') e q = (hk a).saved s' (q a refl) ∙ e
    saved s (err x, s') e q = e

    ends :
        (r : Result RunError A × Rsync)
        → ((a : A) → r.0 ≡ ok a → Q (standing r.1))
        → (b : B) → (bind r k).0 ≡ ok b
        → R (standing (bind r k).1)
    ends (ok a, s') q b e = (hk a).ends s' (q a refl) b e
    ends (err x, s') q b e = absurd (ground (arith, e))

pub Leaves-if :
    {A : Type 0} {P Q : Standing → Type 0} (b : Bool) (m n : Run A)
    → (b ≡ true → Leaves P Q m)
    → (b ≡ false → Leaves P Q n)
    → Leaves P Q (if b then m else n)
Leaves-if true m n hm hn = hm refl
Leaves-if false m n hm hn = hn refl

pub Leaves-raise :
    {A : Type 0} {P Q : Standing → Type 0} (e : RunError) → Leaves {A = A} P Q (raise e)
Leaves-raise e = record { saved = λ s p. refl; ends = λ s p a x. absurd (ground (arith, x)) }

pub Leaves-then :
    {A : Type 0} {P Q R : Standing → Type 0} (m : Run A)
    → Leaves P Q m
    → ((v : Standing) → Q v → R v)
    → Leaves P R m
Leaves-then m h w = record { saved = h.saved; ends = λ s p a e. w _ (h.ends s p a e) }

pub Leaves-from :
    {A : Type 0} {P Q R : Standing → Type 0} (m : Run A)
    → ((v : Standing) → P v → Q v)
    → Leaves Q R m
    → Leaves P R m
Leaves-from m w h = record { saved = λ s p. h.saved s (w _ p); ends = λ s p. h.ends s (w _ p) }

-- The rest knows what a field holds that it reads.
pub Leaves-gets :
    {A B : Type 0} {P Q : Standing → Type 0} (f : Standing → A) (k : A → Run B)
    → ((a : A) → Leaves (λ v. P v × (f v ≡ a)) Q (k a))
    → Leaves P Q (gets (λ s. f (standing s)) >>= k)
Leaves-gets f k h = record {
  saved = λ s p. (h (f (standing s))).saved s (p, refl);
  ends = λ s p. (h (f (standing s))).ends s (p, refl);
}

-- What stands between two messages: an open database is in a transaction, and pIns needs one.
pub record Safe (v : Standing) : Type 0 where
  pub in_transaction : v.db_open ≡ true → v.in_transaction ≡ true
  pub db_open : v.has_insert ≡ true → v.db_open ≡ true

pub record Writing (v : Standing) : Type 0 where
  pub in_transaction : v.in_transaction ≡ true
  pub db_open : v.db_open ≡ true

pub Writing-Safe : (v : Standing) → Writing v → Safe v
Writing-Safe v w = record { in_transaction = λ e. w.in_transaction; db_open = λ e. w.db_open }
