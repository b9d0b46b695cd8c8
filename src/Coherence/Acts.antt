-- ===== src/Coherence/Acts.antt =====
-- How a transaction acts on the view of one order while it leaves the others alone (`Acts`), and what
-- that keeps.
use digital_store.Prelude.{
  ℕ, ◌==◌, if◌then◌else◌, Bool, true, false, ◌≡◌, sym, ap, ◌∙◌, arith, subst, Bool-cases, inl, inr,
}
use digital_store.Model.{Db, Tx, Result, ok, err, Error, pure, raise, exec, ◌>>=◌}
use digital_store.Model.View.{View, view, on}
use digital_store.Coherence.Invariant.{Memory, Tabled, Coupled, Coherent}
use digital_store.Coherence.Keeps.{OnOk, OnOk-ok, OnOk-err, OnOk-map, OnOk-bind, Keeps}

-- If `m` commits, it has changed the view of order `id` by `f` and no other view.
pub record Acts {A : Type 0} (id : ℕ) (f : View → View) (m : Tx A) : Type 0 where
  pub at : (db : Db) (k : ℕ) → OnOk (λ a db'. view k db' ≡ on id k f (view k db)) (m db)

pub on-on :
    (id k : ℕ) (f g : View → View) (v : View) → on id k g (on id k f v) ≡ on id k (λ w. g (f w)) v
on-on id k f g v = ground arith

module _ {id : ℕ} where
  pub Acts-exec :
      (f : View → View) (s : Db → Db)
      → ((db : Db) (k : ℕ) → view k (s db) ≡ on id k f (view k db))
      → Acts id f (exec s)
  Acts-exec f s h = record { at = λ db k. OnOk-ok (h db k) }

  pub Acts-pure : {A : Type 0} (a : A) → Acts id (λ v. v) (pure a)
  Acts-pure a = record { at = λ db k. OnOk-ok (ground arith) }

  pub Acts-raise : {A : Type 0} (f : View → View) (e : Error) → Acts id f (raise {A = A} e)
  Acts-raise f e = record { at = λ db k. OnOk-err }

  pub Acts-bind :
      {A B : Type 0} (f g : View → View) (m : Tx A) (n : A → Tx B)
      → Acts id f m
      → ((a : A) → Acts id g (n a))
      → Acts id (λ v. g (f v)) (m >>= n)
  Acts-bind f g m n hm hn = record {
    at = λ db k.
        OnOk-bind (λ a db'. view k db' ≡ on id k f (view k db))
          (λ b db'. view k db' ≡ on id k (λ v. g (f v)) (view k db)) m n db (hm.at db k)
          λ a db' e.
            OnOk-map (n a db') ((hn a).at db' k)
              λ b db'' e'. e' ∙ ap (on id k g) e ∙ on-on id k f g (view k db);
  }

  pub Acts-if :
      {A : Type 0} (b : Bool) (f g : View → View) (m n : Tx A)
      → Acts id f m
      → Acts id g n
      → Acts id (λ v. if b then f v else g v) (if b then m else n)
  Acts-if true f g m n hm hn = hm
  Acts-if false f g m n hm hn = hn

  pub Acts-if-raise :
      {A : Type 0} (b : Bool) (f : View → View) (m : Tx A) (e : Error)
      → Acts id f m
      → Acts id f (if b then m else raise e)
  Acts-if-raise true f m e hm = hm
  Acts-if-raise false f m e hm = record { at = λ db k. OnOk-err }

-- A database that differs from a coherent one in the view of order `id` alone, and there in a
-- coupled one, is coherent. What is remembered of the other orders stays.
pub Coherent-on :
    {known known' : ℕ → Memory} {db db' : Db} (id : ℕ) (f : View → View)
    → Coherent known db
    → Tabled db'
    → ((k : ℕ) → view k db' ≡ on id k f (view k db))
    → Coupled (known' id) (f (view id db))
    → ((k : ℕ) → (id == k) ≡ false → known' k ≡ known k)
    → Coherent known' db'
Coherent-on {known} {known'} {db} {db'} id f c kd e here there = record {
  keyed = kd;
  coupled = λ k. subst (Coupled (known' k)) (sym (e k)) (coupled-on k);
}
  where
    coupled-on : (k : ℕ) → Coupled (known' k) (on id k f (view k db))
    coupled-on k = elim (Bool-cases (id == k)) [
      | inl same ↦ rw same (
          subst (λ i. Coupled (known' i) (f (view i db))) (let q : id ≡ k = ground arith in q) here)
      | inr other ↦ rw (other, there k other) (c.coupled k)
    ]

-- A transaction that reads the view of one order and then acts on it, and takes a coupled view to
-- a coupled view, keeps the database coherent.
module _ {A R : Type 0} (id : ℕ) (read : View → R) (f : R → View → View) (m : R → Tx A) where
  pub Keeps-read :
      ((r : R) → Acts id (f r) (m r))
      → ((n : Memory) (v : View) → Coupled n v → Coupled n (f (read v) v))
      → ((r : R) → Keeps Tabled (m r))
      → {known : ℕ → Memory} → Keeps (Coherent known) (λ db. m (read (view id db)) db)
  Keeps-read acts coupled keyed {known} = record {
    at = λ db c.
        let r : R = read (view id db) in
        go db c (m r db) (λ k. (acts r).at db k) ((keyed r).at db c.keyed);
  }
    where
      coupled-on :
          (db : Db)
          → Coherent known db
          → (k : ℕ) → Coupled (known k) (on id k (f (read (view id db))) (view k db))
      coupled-on db c k = elim (Bool-cases (id == k)) [
        | inl same ↦ rw same (
            subst (λ i. Coupled (known k) (f (read (view i db)) (view k db))) (sym (ground arith))
              (coupled (known k) (view k db) (c.coupled k)))
        | inr other ↦ rw other (c.coupled k)
      ]

      go :
          (db : Db)
          → Coherent known db
          → (r : Result (A × Db))
          → ((k : ℕ) → OnOk (λ a db'. view k db' ≡ on id k (f (read (view id db))) (view k db)) r)
          → OnOk (λ a db'. Tabled db') r
          → OnOk (λ a db'. Coherent known db') r
      go db c (ok (a, db')) e kd = record {
        holds = record {
          keyed = kd.holds;
          coupled = λ k. subst (Coupled (known k)) (sym (e k).holds) (coupled-on db c k);
        };
      }
      go db c (err e) _ _ = record { holds = tt }
