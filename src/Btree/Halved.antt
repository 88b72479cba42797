-- ===== src/Btree/Halved.antt =====
-- btree.hpp:863-1011: the ranges and levels of all blocks after the block `n` is cut in two.
use d3b.Base.{
  ℕ, suc, ◌≤◌, ◌<◌, ◌≡◌, ◌≢◌, inl, inr, refl, ap, sym, ◌∙◌, Bool-cases, ◌==◌, if◌then◌else◌, arith,
}
use d3b.Btree.{BlkIndex, Btree}
use d3b.Btree.Balance.{with_level, IsBalanced}
use d3b.Btree.Ranges.{Ranges, cut, IsRange, low_new, high_cut}
use d3b.Btree.Sorted.{AreApart, IsSorted}

module _ {K : Type 0} {V : Type 0} (leaf_capacity inner_capacity : ℕ) (rank : K → ℕ)
    (fits : K → Type 0) (top : ℕ) (g : Ranges) (level : ℕ → ℕ) (t : Btree K V)
    (balanced : IsBalanced leaf_capacity inner_capacity level t)
    (sorted : IsSorted rank fits top g level t) (n : BlkIndex) (n0 : 0 < n)
    (n1 : n < t.num_blocks) where
  -- The block that had the range of `j` before the cut.
  abbrev origin : ℕ → ℕ
  origin j = if j == t.num_blocks then n else j

  module _ (sep : ℕ) (low : g.low n ≤ sep) (high : sep ≤ g.high n) where
    abbrev pub parted : Ranges
    parted = cut n t.num_blocks sep g

    abbrev pub new_level : ℕ → ℕ
    new_level = with_level t.num_blocks (level n) level

    origin_lem :
        (j : ℕ)
        → 0 < j
        → j < suc t.num_blocks
        → (0 < origin j)
          × (origin j < t.num_blocks)
          × (new_level j ≡ level (origin j))
          × (g.low (origin j) ≤ parted.low j)
          × (parted.high j ≤ g.high (origin j))
    origin_lem j j0 j1 = elim (Bool-cases (j == t.num_blocks)) [
      | inl e ↦ rw e (n0, n1, refl, low, omega arith)
      | inr e ↦ rw e (
        j0,
        ground (arith, e, j1),
        refl,
        omega arith,
        elim (Bool-cases (j == n)) [
          | inl e' ↦
              let same : j ≡ n = ground (arith, e') in rw e' (omega (arith, high, ap g.high same))
          | inr e' ↦ rw e' (omega arith)
        ],
      )
    ]

    halves_meet : (j k : ℕ) → j ≡ n → k ≡ t.num_blocks → parted.high j ≤ parted.low k
    halves_meet j k a b =
        let h =
          ap parted.high a ∙ high_cut n t.num_blocks sep g (λ z. absurd (omega (arith, z, n1))) in
        let l = ap parted.low b ∙ low_new n t.num_blocks sep g in omega (arith, h, l)

    pub parted-ranges :
        (j : ℕ) → 0 < j → j < suc t.num_blocks → IsRange parted j × (parted.high j ≤ top)
    parted-ranges j j0 j1 =
        let (o0, o1, l, lo, hi) = origin_lem j j0 j1 in
        (
          elim (Bool-cases (j == t.num_blocks)) [
            | inl e ↦ rw e high
            | inr e ↦
                let old = (sorted.ranges j j0 (ground (arith, e, j1))).0 in
                rw e (elim (Bool-cases (j == n)) [
                  | inl e' ↦
                      let same : j ≡ n = ground (arith, e') in
                      rw e' (omega (arith, low, ap g.low same))
                  | inr e' ↦ rw e' old
                ])
          ],
          omega (arith, hi, (sorted.ranges (origin j) o0 o1).1),
        )

    -- The halves lie side by side, and other blocks where the block that was cut did.
    pub parted-apart :
        (j k : ℕ)
        → 0 < j
        → j < suc t.num_blocks
        → 0 < k
        → k < suc t.num_blocks
        → new_level j ≡ new_level k
        → j ≢ k
        → AreApart parted j k
    parted-apart j k j0 j1 k0 k1 same o =
        let (a0, a1, la, loa, hia) = origin_lem j j0 j1 in
        let (b0, b1, lb, lob, hib) = origin_lem k k0 k1 in
        elim (Bool-cases (origin j == origin k)) [
          | inr e ↦
              elim (sorted.apart (origin j) (origin k) a0 a1 b0 b1 (sym la ∙ same ∙ lb)
                (λ z. absurd (ground (arith, z, e)))) [
                  | inl x ↦ inl (omega (arith, x, hia, lob))
                  | inr x ↦ inr (omega (arith, x, hib, loa))
                ]
          | inl e ↦
              let z : origin j ≡ origin k = ground (arith, e) in
              elim (Bool-cases (j == t.num_blocks)) [
                | inl ej ↦
                    let here : j ≡ t.num_blocks = ground (arith, ej) in
                    let other : k ≢ t.num_blocks = λ w. o (here ∙ sym w) in
                    let kn : k ≡ n = ground (arith, z, here, other) in inr (halves_meet k j kn here)
                | inr ej ↦
                    let there : j ≢ t.num_blocks = λ w. absurd (ground (arith, ej, w)) in
                    let kn : k ≡ t.num_blocks = ground (arith, z, there, o) in
                    let jn : j ≡ n = ground (arith, z, there, kn) in inl (halves_meet j k jn kn)
              ]
        ]

    pub parted-below : (j : ℕ) → 0 < j → j < suc t.num_blocks → new_level j ≤ level t.root_block
    parted-below j j0 j1 =
        let (o0, o1, l, lo, hi) = origin_lem j j0 j1 in
        omega (arith, l, sorted.below (origin j) o0 o1)
