-- ===== src/Engine/Conflicts/Clashes.antt =====
-- The inner loops of `processSubmit` (engine.cpp:582-604) and `compatible` (engine.cpp:294-301) as
-- statements about all pairs of a mutation and a constraint.
use d3b.Base.{
  ◌≡◌, refl, ◌↔◌, inl, inr, true, false, List, [], ◌∷◌, All, All-mono, arith, Bool-cases,
}
use d3b.Types.{
  Mutation, MutationType, type_none, type_insert, type_modify, Constraint, ConstraintType,
  type_unset, type_document_state,
}
use d3b.Engine.{Transaction}
use d3b.Engine.Conflicts.{
  compatible, rejects, any_rejects, rejected, any_rejected, is_modify, is_document_state,
}

-- A modification of a document with the id for which a constraint pins a version, in whichever storages
-- the two documents are.
pub Clash : Mutation → Constraint → Type 0
Clash m c =
    (c.type ≡ type_document_state)
    × (c.match_sequence_id ≡ true)
    × (m.type ≡ type_modify)
    × (m.document_id ≡ c.document_id)

-- No mutation of `a` clashes with a constraint of `b`.
pub Spares : Transaction → Transaction → Type 0
Spares a b = All (λ m. All (λ c. ¬ Clash m c) b.constraints) a.mutations

is_modify-eq : (type : MutationType) → is_modify type ≡ true → type ≡ type_modify
is_modify-eq type_none h = cc
is_modify-eq type_insert h = cc
is_modify-eq type_modify h = refl

is_document_state-eq :
    (type : ConstraintType) → is_document_state type ≡ true → type ≡ type_document_state
is_document_state-eq type_unset h = cc
is_document_state-eq type_document_state h = refl

compatible-Clash : (m : Mutation) (c : Constraint) → compatible m c ≡ false → Clash m c
unfolding compatible Clash
compatible-Clash m c h = ground (arith, is_modify-eq m.type, is_document_state-eq c.type, h)

Clash-compatible : (m : Mutation) (c : Constraint) → Clash m c → compatible m c ≡ false
unfolding compatible Clash
Clash-compatible m c (t, s, u, d) = rw (t, s, u) ground (arith, d)

compatible_iff : (m : Mutation) (c : Constraint) → (compatible m c ≡ true) ↔ (¬ Clash m c)
compatible_iff m c = (
  (λ h k. cc (h, Clash-compatible m c k)),
  (λ n. elim (Bool-cases (compatible m c)) [
    | inl h ↦ h
    | inr h ↦ absurd (n (compatible-Clash m c h))
  ]),
)

rejects_iff :
    (m : Mutation) (cs : List Constraint) → (rejects m cs ≡ false) ↔ All (λ c. ¬ Clash m c) cs
unfolding rejects
rejects_iff m [] = ((λ h. tt), (λ h. refl))
rejects_iff m (c ∷ cs) = elim (Bool-cases (compatible m c)) [
  | inl h ↦
      rw h
        ((λ r. ((compatible_iff m c).0 h, (rejects_iff m cs).0 r)), (λ a. (rejects_iff m cs).1 a.1))
  | inr h ↦ rw h ((λ r. cc r), (λ a. absurd (a.0 (compatible-Clash m c h))))
]

any_rejects_iff :
    (ms : List Mutation) (cs : List Constraint)
    → (any_rejects ms cs ≡ false) ↔ All (λ m. All (λ c. ¬ Clash m c) cs) ms
unfolding any_rejects
any_rejects_iff [] cs = ((λ h. tt), (λ h. refl))
any_rejects_iff (m ∷ ms) cs = elim (Bool-cases (rejects m cs)) [
  | inl h ↦ rw h ((λ r. cc r), (λ a. cc (h, (rejects_iff m cs).1 a.0)))
  | inr h ↦ rw h (
    (λ r. ((rejects_iff m cs).0 h, (any_rejects_iff ms cs).0 r)),
    (λ a. (any_rejects_iff ms cs).1 a.1),
  )
]

rejected_iff :
    (ms : List Mutation) (c : Constraint) → (rejected ms c ≡ false) ↔ All (λ m. ¬ Clash m c) ms
unfolding rejected
rejected_iff [] c = ((λ h. tt), (λ h. refl))
rejected_iff (m ∷ ms) c = elim (Bool-cases (compatible m c)) [
  | inl h ↦
      rw h (
        (λ r. ((compatible_iff m c).0 h, (rejected_iff ms c).0 r)),
        (λ a. (rejected_iff ms c).1 a.1),
      )
  | inr h ↦ rw h ((λ r. cc r), (λ a. absurd (a.0 (compatible-Clash m c h))))
]

-- The order of the loops does not matter.
All-swap {ℓ κ μ} :
    {A : Type ℓ} {B : Type κ} (R : A → B → Type μ) (xs : List A) (ys : List B)
    → All (λ x. All (R x) ys) xs
    → All (λ y. All (λ x. R x y) xs) ys
All-swap R xs [] h = tt
All-swap R xs (y ∷ ys) h =
    (All-mono _ _ xs (λ x a. a.0) h, All-swap R xs ys (All-mono _ _ xs (λ x a. a.1) h))

any_rejected_iff :
    (ms : List Mutation) (cs : List Constraint)
    → (any_rejected ms cs ≡ false) ↔ All (λ c. All (λ m. ¬ Clash m c) ms) cs
unfolding any_rejected
any_rejected_iff ms [] = ((λ h. tt), (λ h. refl))
any_rejected_iff ms (c ∷ cs) = elim (Bool-cases (rejected ms c)) [
  | inl h ↦ rw h ((λ r. cc r), (λ a. cc (h, (rejected_iff ms c).1 a.0)))
  | inr h ↦ rw h (
    (λ r. ((rejected_iff ms c).0 h, (any_rejected_iff ms cs).0 r)),
    (λ a. (any_rejected_iff ms cs).1 a.1),
  )
]

pub any_rejects-Spares :
    (a b : Transaction) → (any_rejects a.mutations b.constraints ≡ false) ↔ Spares a b
unfolding Spares
any_rejects-Spares a b = any_rejects_iff a.mutations b.constraints

pub any_rejected-Spares :
    (a b : Transaction) → (any_rejected a.mutations b.constraints ≡ false) ↔ Spares a b
unfolding Spares
any_rejected-Spares a b =
    let i = any_rejected_iff a.mutations b.constraints in
    ((λ h. All-swap _ _ _ (i.0 h)), (λ s. i.1 (All-swap _ _ _ s)))
