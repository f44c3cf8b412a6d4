-- ===== src/World/Collection/Laws.antt =====
-- The operations of a collection are parameters, and the laws are what the documentation of the
-- package mongoose says of them. Any call may throw. What a collection holds is a list; in which
-- order `find` returns its matches is left open, so its law counts them.
use operator_registry_contro.Prelude.{
  ℕ, ◌<◌, ◌≡◌, Bool, true, ◌&&◌, not, Option, none, some, List, [], ◌∷◌, ◌++◌, Text, Result, ok,
  filter, count,
}

-- `updateOne(filter, { $set }, { upsert })`: it changes one match; if there is none, it inserts the
-- fresh document of an upsert.
pub data Updated {D : Type 0} (p : D → Bool) (f : D → D) (fresh : Option D) (ds ds' : List D)
    : Type 0 where
  changed :
      (before : List D) (d : D) (after : List D)
      → ds ≡ before ++ d ∷ after
      → p d ≡ true
      → ds' ≡ before ++ f d ∷ after
      → Updated p f fresh ds ds'
  inserted :
      (d : D) → count p ds ≡ 0 → fresh ≡ some d → ds' ≡ ds ++ d ∷ [] → Updated p f fresh ds ds'
  missed : count p ds ≡ 0 → fresh ≡ none → ds' ≡ ds → Updated p f fresh ds ds'

-- Updates of a `bulkWrite`, one after the other.
pub data UpdatedAll {D : Type 0} : List ((D → Bool) × (D → D)) → List D → List D → Type 0 where
  done : {ds : List D} → UpdatedAll [] ds ds
  next :
      {op : (D → Bool) × (D → D)} {ops : List ((D → Bool) × (D → D))} {ds ds' ds'' : List D}
      → Updated op.0 op.1 none ds ds'
      → UpdatedAll ops ds' ds''
      → UpdatedAll (op ∷ ops) ds ds''

-- A call returns its answer, the new outside and, if it writes, what the collection holds then.
pub record Collection (E D : Type 0) : Type 0 where
  pub find : (D → Bool) → List D → E → Result Text (List D) × E
  pub find_one : (D → Bool) → List D → E → Result Text (Option D) × E
  pub update_one :
      (D → Bool) → (D → D) → Option D → List D → E → Result Text (Unit {0}) × E × List D
  pub bulk_write : List ((D → Bool) × (D → D)) → List D → E → Result Text (Unit {0}) × E × List D
  pub create : D → List D → E → Result Text (Unit {0}) × E × List D
  pub delete_many : (D → Bool) → List D → E → Result Text ℕ × E × List D
  pub find_lem :
      (p : D → Bool) (ds : List D) (e : E) (rs : List D)
      → (find p ds e).0 ≡ ok rs
      → (q : D → Bool) → count q rs ≡ count (λ d. p d && q d) ds
  pub find_one_none :
      (p : D → Bool) (ds : List D) (e : E) → (find_one p ds e).0 ≡ ok none → count p ds ≡ 0
  pub find_one_some :
      (p : D → Bool) (ds : List D) (e : E) (d : D)
      → (find_one p ds e).0 ≡ ok (some d)
      → (p d ≡ true) × ((q : D → Bool) → q d ≡ true → 0 < count q ds)
  pub update_one_lem :
      (p : D → Bool) (f : D → D) (fresh : Option D) (ds : List D) (e : E)
      → (update_one p f fresh ds e).0 ≡ ok tt
      → Updated p f fresh ds (update_one p f fresh ds e).2
  pub bulk_write_lem :
      (ops : List ((D → Bool) × (D → D))) (ds : List D) (e : E)
      → (bulk_write ops ds e).0 ≡ ok tt
      → UpdatedAll ops ds (bulk_write ops ds e).2
  pub create_lem :
      (d : D) (ds : List D) (e : E) → (create d ds e).0 ≡ ok tt → (create d ds e).2 ≡ ds ++ d ∷ []
  pub delete_many_lem :
      (p : D → Bool) (ds : List D) (e : E) (n : ℕ)
      → (delete_many p ds e).0 ≡ ok n
      → ((delete_many p ds e).2 ≡ filter (λ d. not (p d)) ds) × (n ≡ count p ds)
