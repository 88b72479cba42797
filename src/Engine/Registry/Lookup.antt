-- ===== src/Engine/Registry/Lookup.antt =====
-- What `getStorage` finds after `createStorage` (engine.cpp:101-124).
use text.Mathlib.Text.{◌==◌ as str_eq}
use text.Mathlib.TextEquality.{eq_iff}
use d3b.Base.{
  ℕ, suc, ◌+◌, ◌≡◌, refl, sym, ◌∙◌, ap, true, List, [], ◌∷◌, ◌++◌, Option, none, some, ok,
  >>=-eq-ok, ok-injective, ℤ, pos, negsuc, minus_one, String, length, arith, Bool-cases, inl, inr,
}
use d3b.Storage.{FlexStorage, new_storage}
use d3b.Engine.{Engine}
use d3b.Engine.Registry.{
  index_from, index_of, get_storage, fresh, descriptor, has_driver, setup_storage, write_config,
  create_storage,
}

str_eq_refl : (k : String) → str_eq k k ≡ true
str_eq_refl k = (eq_iff k k).1 refl

module _ {D : Type 0} (name : D → String) where
  -- A driver that is added at the end is found where no other bears its name.
  index_from-new :
      (i : ℕ) (k : String) (ds : List (Option D)) (d : D)
      → name d ≡ k
      → index_from name i k ds ≡ minus_one
      → index_from name i k (ds ++ some d ∷ []) ≡ pos (i + length ds)
  unfolding index_from
  index_from-new i k [] d n h = rw (n, str_eq_refl k) (ap pos (omega arith))
  index_from-new i k (none ∷ ds) d n h = index_from-new (suc i) k ds d n h ∙ ap pos (omega arith)
  index_from-new i k (some x ∷ ds) d n h = elim (Bool-cases (str_eq (name x) k)) [
    | inl e ↦ cc (rw e at h)
    | inr e ↦ rw e (index_from-new (suc i) k ds d n (rw e at h) ∙ ap pos (omega arith))
  ]

  -- The others keep their index.
  index_from-old :
      (i j : ℕ) (k : String) (ds : List (Option D)) (p : Option D)
      → index_from name i k ds ≡ pos j
      → index_from name i k (ds ++ p ∷ []) ≡ pos j
  unfolding index_from
  index_from-old i j k [] p h = cc h
  index_from-old i j k (none ∷ ds) p h = index_from-old (suc i) j k ds p h
  index_from-old i j k (some x ∷ ds) p h = elim (Bool-cases (str_eq (name x) k)) [
    | inl e ↦ rw e (rw e at h)
    | inr e ↦ rw e (index_from-old (suc i) j k ds p (rw e at h))
  ]

  index_from-negsuc :
      (i j : ℕ) (k : String) (ds : List (Option D))
      → index_from name i k ds ≡ negsuc j
      → index_from name i k ds ≡ minus_one
  unfolding index_from
  index_from-negsuc i j k [] h = refl
  index_from-negsuc i j k (none ∷ ds) h = index_from-negsuc (suc i) j k ds h
  index_from-negsuc i j k (some x ∷ ds) h = elim (Bool-cases (str_eq (name x) k)) [
    | inl e ↦ cc (rw e at h)
    | inr e ↦ rw e (index_from-negsuc (suc i) j k ds (rw e at h))
  ]

fresh_lem : (z : ℤ) (o : Option String) (u : Unit {0}) → fresh z o ≡ ok u → (i : ℕ) × (z ≡ negsuc i)
unfolding fresh
fresh_lem (pos i) o u h = cc h
fresh_lem (negsuc i) o u h = (i, refl)

setup_storage_lem :
    (driver k : String) (e e' : Engine)
    → setup_storage driver k e ≡ ok e'
    → e'.storages ≡ e.storages ++ some (new_storage k) ∷ []
unfolding setup_storage
setup_storage_lem driver k e e' h = elim (Bool-cases (has_driver driver e.storage_drivers)) [
  | inl b ↦ ap (λ x. x.storages) (sym (ok-injective (rw b at h)))
  | inr b ↦ cc (rw b at h)
]

create_storage_lem :
    (driver k : String) (e e' : Engine)
    → create_storage driver k e ≡ ok e'
    → ((i : ℕ) × (get_storage e k ≡ negsuc i))
      × (e'.storages ≡ e.storages ++ some (new_storage k) ∷ [])
unfolding create_storage write_config
create_storage_lem driver k e e' h =
    let (u, f, g) =
      >>=-eq-ok (fresh (get_storage e k) (descriptor k e.disk.storage_descriptors)) _ h in
    let (x, s, w) = >>=-eq-ok (setup_storage driver k e) _ g in
    (
      fresh_lem _ _ u f,
      ap (λ y. y.storages) (sym (ok-injective w)) ∙ setup_storage_lem driver k e x s,
    )

new_storage-identifier : (k : String) → (new_storage k).identifier ≡ k
unfolding new_storage
new_storage-identifier k = refl

-- Where `createStorage` returns, `getStorage` finds the new storage at the end of the vector, which
-- starts with its null pointer: no storage bore the name before.
pub create_storage-get_storage :
    (driver k : String) (e e' : Engine) (rest : List (Option FlexStorage))
    → e.storages ≡ none ∷ rest
    → create_storage driver k e ≡ ok e'
    → get_storage e' k ≡ pos (length e.storages)
unfolding get_storage index_of
create_storage-get_storage driver k e e' rest n h =
    let ((i, g), s) = create_storage_lem driver k e e' h in
    rw (s, n)
      (index_from-new (λ x. x.identifier) 1 k rest (new_storage k) (new_storage-identifier k)
          (index_from-negsuc (λ x. x.identifier) 1 i k rest (rw n at g))
        ∙ ap pos (omega arith))

-- Where `createStorage` returns, `getStorage` finds every storage that it found before at the index
-- where it was; the vector starts with its null pointer.
pub create_storage-get_storage_old :
    (driver k j : String) (i : ℕ) (e e' : Engine) (rest : List (Option FlexStorage))
    → e.storages ≡ none ∷ rest
    → create_storage driver k e ≡ ok e'
    → get_storage e j ≡ pos i
    → get_storage e' j ≡ pos i
unfolding get_storage index_of
create_storage-get_storage_old driver k j i e e' rest n h l =
    rw ((create_storage_lem driver k e e' h).1, n)
      (index_from-old (λ x. x.identifier) 1 i j rest (some (new_storage k)) (rw n at l))
