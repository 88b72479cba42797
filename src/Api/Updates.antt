-- ===== src/Api/Updates.antt =====
-- server.cpp:174-204 and 475-510 over engine.cpp:185-211: what the client is told of the documents that
-- it inserts.
use d3b.Base.{
  ℕ, ◌≡◌, sym, subst, ◌∙◌, ap, List, [], ◌∷◌, ◌++◌, some, ok, >>=-eq-ok, ok-injective, find,
  find-assign, arith, append_assoc, append_nil,
}
use d3b.Types.{Mutation}
use d3b.Engine.{Engine, Transaction}
use d3b.Engine.Transactions.{update_mutation, push_insert, push_mutation}
use d3b.Api.{PbMutation, parse_mutation}
use d3b.Api.Requests.{update_mutations}

push_insert-find :
    (id : ℕ) (m x : Mutation) (e e' : Engine) (t : Transaction)
    → push_insert id t m e ≡ ok (e', x)
    → find id e.active_transactions ≡ some t
    → find id e'.active_transactions ≡ some (record t { mutations = t.mutations ++ x ∷ [] })
unfolding push_insert push_mutation
push_insert-find id m x e e' t h f = ground (
  arith,
  h,
  f,
  find-assign id id (record t { mutations = t.mutations ++ x ∷ [] }) e.active_transactions,
)

update_mutation-find :
    (id : ℕ) (m x : Mutation) (e e' : Engine) (t : Transaction)
    → update_mutation id m e ≡ ok (e', x)
    → find id e.active_transactions ≡ some t
    → find id e'.active_transactions ≡ some (record t { mutations = t.mutations ++ x ∷ [] })
unfolding update_mutation push_mutation
update_mutation-find id m x e e' t h f = ground (
  arith,
  h,
  f,
  push_insert-find id m x e e' t,
  find-assign id id (record t { mutations = t.mutations ++ x ∷ [] }) e.active_transactions,
)

-- What the loop over the mutations of a request hands back, and so tells the client, is what the
-- transaction holds afterwards, behind what it held before, with the document ids that the engine
-- gave to inserts; the other fields of the transaction are as before.
pub update_mutations-find :
    (id : ℕ) (ms : List PbMutation) (xs : List Mutation) (e e' : Engine) (t : Transaction)
    → update_mutations id ms e ≡ ok (e', xs)
    → find id e.active_transactions ≡ some t
    → find id e'.active_transactions ≡ some (record t { mutations = t.mutations ++ xs })
unfolding update_mutations
update_mutations-find id [] xs e e' t h f =
    subst
      (λ (p : Engine × List Mutation).
        find id p.0.active_transactions ≡ some (record t { mutations = t.mutations ++ p.1 }))
      (ok-injective h)
      (f ∙ ap (λ l. some (record t { mutations = l })) (sym (append_nil t.mutations)))
update_mutations-find id (m ∷ ms) xs e e' t h f =
    let (y, _, g) = >>=-eq-ok (parse_mutation m e) _ h in
    let (p, i, k) = >>=-eq-ok (update_mutation id y e) _ g in
    let (q, j, l) = >>=-eq-ok (update_mutations id ms p.0) _ k in
    subst
      (λ (r : Engine × List Mutation).
        find id r.0.active_transactions ≡ some (record t { mutations = t.mutations ++ r.1 }))
      (ok-injective l)
      (update_mutations-find id ms q.1 p.0 q.0 (record t { mutations = t.mutations ++ p.1 ∷ [] }) j
          (update_mutation-find id y p.1 e p.0 t i f)
        ∙ ap (λ l. some (record t { mutations = l })) (append_assoc t.mutations (p.1 ∷ []) q.1))
