-- ===== src/World/Collection/Memory.antt =====
-- A collection in memory, whose calls never throw: it shows that the laws can be met.
use operator_registry_contro.Prelude.{
  ◌<◌, ◌≡◌, refl, sym, ap, inl, inr, Bool, true, false, ◌&&◌, not, Option, none, some, List, [],
  ◌∷◌, ◌++◌, ok, filter, count, if◌then◌else◌, Bool-cases, arith, ok-injective,
}
use operator_registry_contro.World.Collection.Laws.{
  Updated, changed, inserted, missed, UpdatedAll, done, next, Collection,
}

module _ {D : Type 0} where
  pub first : (D → Bool) → List D → Option D
  first p [] = none
  first p (d ∷ ds) = if p d then some d else first p ds

  inserts : Option D → List D
  inserts none = []
  inserts (some d) = d ∷ []

  pub update : (D → Bool) → (D → D) → Option D → List D → List D
  unfolding inserts
  update p f fresh [] = inserts fresh
  update p f fresh (d ∷ ds) = if p d then f d ∷ ds else d ∷ update p f fresh ds

  pub update_all : List ((D → Bool) × (D → D)) → List D → List D
  update_all [] ds = ds
  update_all ((p, f) ∷ ops) ds = update_all ops (update p f none ds)

  pub count-filter :
      (p q : D → Bool) (ds : List D) → count q (filter p ds) ≡ count (λ d. p d && q d) ds
  count-filter p q [] = refl
  count-filter p q (d ∷ ds) = ground (arith, count-filter p q ds)

  pub first-none : (p : D → Bool) (ds : List D) → first p ds ≡ none → count p ds ≡ 0
  unfolding first
  first-none p [] h = refl
  first-none p (d ∷ ds) h = ground (arith, first-none p ds)

  pub first-some :
      (p : D → Bool) (ds : List D) (d : D)
      → first p ds ≡ some d
      → (p d ≡ true) × ((q : D → Bool) → q d ≡ true → 0 < count q ds)
  unfolding first
  first-some p (c ∷ ds) d h = elim (Bool-cases (p c)) [
    | inl here ↦ (ground arith, λ q hq. ground arith)
    | inr there ↦
        let (holds, seen) = first-some p ds d (ground arith) in
        (holds, λ q hq. let below : 0 < count q ds = seen q hq in ground arith)
  ]
  first-some p [] d h = cc

  Updated-cons :
      {p : D → Bool} {f : D → D} {fresh : Option D} {ds ds' : List D} (c : D)
      → p c ≡ false
      → Updated p f fresh ds ds'
      → Updated p f fresh (c ∷ ds) (c ∷ ds')
  Updated-cons c miss (changed before d after e h e') =
      changed (c ∷ before) d after (ap (◌∷◌ c) e) h (ap (◌∷◌ c) e')
  Updated-cons c miss (inserted d none_match new e') = inserted d (ground arith) new (ap (◌∷◌ c) e')
  Updated-cons c miss (missed none_match no_new e') = missed (ground arith) no_new (ap (◌∷◌ c) e')

  pub update-Updated :
      (p : D → Bool) (f : D → D) (fresh : Option D) (ds : List D)
      → Updated p f fresh ds (update p f fresh ds)
  unfolding update
  update-Updated p f none [] = missed refl refl refl
  update-Updated p f (some d) [] = inserted d refl refl refl
  update-Updated p f fresh (d ∷ ds) = elim (Bool-cases (p d)) [
    | inl hit ↦ rw hit (changed [] d ds refl hit refl)
    | inr miss ↦ rw miss (Updated-cons d miss (update-Updated p f fresh ds))
  ]

  pub update_all-UpdatedAll :
      (ops : List ((D → Bool) × (D → D))) (ds : List D) → UpdatedAll ops ds (update_all ops ds)
  unfolding update_all
  update_all-UpdatedAll [] ds = done
  update_all-UpdatedAll ((p, f) ∷ ops) ds =
      next (update-Updated p f none ds) (update_all-UpdatedAll ops (update p f none ds))

unfoldable pub memory : {E D : Type 0} → Collection E D
unfolding first update update_all
memory = record {
  find = λ p ds e. (ok (filter p ds), e);
  find_one = λ p ds e. (ok (first p ds), e);
  update_one = λ p f fresh ds e. (ok tt, e, update p f fresh ds);
  bulk_write = λ ops ds e. (ok tt, e, update_all ops ds);
  create = λ d ds e. (ok tt, e, ds ++ d ∷ []);
  delete_many = λ p ds e. (ok (count p ds), e, filter (λ d. not (p d)) ds);
  find_lem = λ p ds e rs h q. rw (← ok-injective h) (count-filter p q ds);
  find_one_none = λ p ds e h. first-none p ds (ok-injective h);
  find_one_some = λ p ds e d h. first-some p ds d (ok-injective h);
  update_one_lem = λ p f fresh ds e h. update-Updated p f fresh ds;
  bulk_write_lem = λ ops ds e h. update_all-UpdatedAll ops ds;
  create_lem = λ d ds e h. refl;
  delete_many_lem = λ p ds e n h. (refl, sym (ok-injective h));
}
