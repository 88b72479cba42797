-- ===== src/Engine/Conflicts/Exactness.antt =====
-- The loops of `processSubmit` (engine.cpp:578-605) against a description without loops: what excludes
-- a transaction from being submitted beside another one.
use d3b.Base.{
  ◌≡◌, refl, ◌↔◌, ◌⊎◌, inl, inr, List, [], ◌∷◌, ◌++◌, none, some, ok, throws, Map, find, All, arith,
  Bool-cases, Option-cases, ok-injective, out_of_range, subst, ap, sym, ◌∙◌, some-injective,
}
use d3b.Types.{TransactionId}
use d3b.Engine.{Transaction, SubmitError, submit_constraint_conflict, submit_mutation_conflict}
use d3b.Engine.Conflicts.{any_rejects, any_rejected, check_other, find_conflict}
use d3b.Engine.Conflicts.Clashes.{Spares, any_rejects-Spares, any_rejected-Spares}

-- A submitted transaction with which `t` can be submitted.
pub Agrees : Map Transaction → Transaction → TransactionId → Type 0
Agrees active t id =
    (other : Transaction) × (find id active ≡ some other) × Spares other t × Spares t other

-- What one round of the loop says.
pub Answers : Transaction → Transaction → SubmitError → Type 0
Answers other t x =
    ((x ≡ submit_constraint_conflict) × ¬ Spares other t)
    ⊎ ((x ≡ submit_mutation_conflict) × Spares other t × ¬ Spares t other)

check_other_lem :
    (other t : Transaction)
    → ((check_other other t ≡ none) × Spares other t × Spares t other)
      ⊎ ((x : SubmitError) × (check_other other t ≡ some x) × Answers other t x)
unfolding check_other Answers
check_other_lem other t = elim (Bool-cases (any_rejects other.mutations t.constraints)) [
  | inl h ↦ inr (
    submit_constraint_conflict,
    ground (arith, h),
    inl (refl, λ s. cc (h, (any_rejects-Spares other t).1 s)),
  )
  | inr h ↦ elim (Bool-cases (any_rejected t.mutations other.constraints)) [
    | inl k ↦ inr (
      submit_mutation_conflict,
      ground (arith, h, k),
      inr (refl, (any_rejects-Spares other t).0 h, λ s. cc (k, (any_rejected-Spares t other).1 s)),
    )
    | inr k ↦
        inl (
          ground (arith, h, k),
          (any_rejects-Spares other t).0 h,
          (any_rejected-Spares t other).0 k,
        )
  ]
]

-- The three ways a round of the loop goes.
round_gone :
    (active : Map Transaction) (t : Transaction) (id : TransactionId) (ids : List TransactionId)
    → find id active ≡ none
    → find_conflict active t (id ∷ ids) ≡ throws out_of_range
unfolding find_conflict
round_gone active t id ids f = rw f refl

round_agrees :
    (active : Map Transaction) (t other : Transaction) (id : TransactionId)
    (ids : List TransactionId)
    → find id active ≡ some other
    → check_other other t ≡ none
    → find_conflict active t (id ∷ ids) ≡ find_conflict active t ids
unfolding find_conflict
round_agrees active t other id ids f n = ground (arith, f, n)

round_answers :
    (active : Map Transaction) (t other : Transaction) (id : TransactionId)
    (ids : List TransactionId) (x : SubmitError)
    → find id active ≡ some other
    → check_other other t ≡ some x
    → find_conflict active t (id ∷ ids) ≡ ok (some x)
unfolding find_conflict
round_answers active t other id ids x f n = ground (arith, f, n)

Answers-not_Spares :
    (other t : Transaction) (x : SubmitError)
    → Answers other t x
    → Spares other t
    → Spares t other
    → ⊥
unfolding Answers
Answers-not_Spares other t x (inl (_, n)) s s' = n s
Answers-not_Spares other t x (inr (_, _, n)) s s' = n s'

Agrees-inv :
    (active : Map Transaction) (t other : Transaction) (id : TransactionId)
    → find id active ≡ some other
    → Agrees active t id
    → Spares other t × Spares t other
unfolding Agrees
Agrees-inv active t other id f (o, g, s, s') =
    subst (λ o. Spares o t × Spares t o) (some-injective _ _ (sym g ∙ f)) (s, s')

-- The loop of `processSubmit` finds no conflict exactly when each submitted transaction is active,
-- pins no version for an id of a document that the new one modifies, and modifies no document with an
-- id for which the new one pins a version. Only the ids are compared, not the storages that they
-- belong to.
pub find_conflict-none_iff :
    (active : Map Transaction) (t : Transaction) (ids : List TransactionId)
    → (find_conflict active t ids ≡ ok none) ↔ All (Agrees active t) ids
unfolding Agrees find_conflict
find_conflict-none_iff active t [] = ((λ h. tt), (λ h. refl))
find_conflict-none_iff active t (id ∷ ids) = elim (Option-cases (find id active)) [
  | inl n ↦ ((λ h. cc (h, round_gone active t id ids n)), (λ a. cc (n, a.0.1)))
  | inr (other, f) ↦ elim (check_other_lem other t) [
    | inl (n, s, s') ↦
        let i = find_conflict-none_iff active t ids in
        let r = round_agrees active t other id ids f n in
        ((λ h. ((other, f, s, s'), i.0 (cc (h, r)))), (λ a. cc (i.1 a.1, r)))
    | inr (x, n, a) ↦ (
      (λ h. cc (h, round_answers active t other id ids x f n)),
      (λ b.
          let s = Agrees-inv active t other id f b.0 in
          absurd (Answers-not_Spares other t x a s.0 s.1)),
    )
  ]
]

-- Where the loop answers a conflict, it is that with the first submitted transaction that does not
-- agree: a constraint conflict if that one modifies a document with an id for which the new one pins a
-- version, and otherwise a mutation conflict, for the other way round. The two documents may be in
-- different storages.
pub find_conflict-some :
    (active : Map Transaction) (t : Transaction) (ids : List TransactionId) (x : SubmitError)
    → find_conflict active t ids ≡ ok (some x)
    → (before after : List TransactionId) × (id : TransactionId) × (other : Transaction) × (ids
        ≡ before ++ id ∷ after)
      × All (Agrees active t) before
      × (find id active ≡ some other)
      × Answers other t x
unfolding find_conflict Agrees
find_conflict-some active t [] x h = cc h
find_conflict-some active t (id ∷ ids) x h = elim (Option-cases (find id active)) [
  | inl n ↦ cc (h, round_gone active t id ids n)
  | inr (other, f) ↦ elim (check_other_lem other t) [
    | inl (n, s, s') ↦
        let (before, after, k, o, e, a, f', r) =
          find_conflict-some active t ids x (cc (h, round_agrees active t other id ids f n)) in
        (id ∷ before, after, k, o, ap (λ l. id ∷ l) e, ((other, f, s, s'), a), f', r)
    | inr (y, n, a) ↦ (
      [],
      ids,
      id,
      other,
      refl,
      tt,
      f,
      subst (Answers other t)
          (some-injective _ _ (ok-injective (cc (h, round_answers active t other id ids y f n)))) a,
    )
  ]
]
