-- ===== src/Fat32/Clusters/Chain.antt =====
-- `fat32_free_chain` ends on every chain, also on one that runs in a circle.
use thuban.Base.{
  ℕ, zero, suc, ◌+◌, ◌<◌, ◌≡◌, ◌≢◌, ◌⊎◌, refl, ap, sym, ◌∙◌, Bool, ◌&&◌, Option, some, ltb, leb,
  ◌==◌, ==_iff, arith, Bool-cases, inl, inr,
}
use mathlib.Core.Path.{subst}
use thuban.Fat32.{Fs, eoc_min, fat32_free_cluster, fat32_free_chain}
use thuban.Fat32.Table.{IsTable, InRange, Works}
use thuban.Fat32.Clusters.{
  used, used-le, used-clear, entry_of, Freed, entry-free_cluster, free_cluster-IsTable,
  free_chain-stops, free_chain-walks, free_chain-leaves,
}

module _ {D : Type 0} (blkdev_read : ℕ → D → Option (ℕ → ℕ) × D)
    (blkdev_write : ℕ → (ℕ → ℕ) → D → Bool × D) (content : D → ℕ → ℕ → ℕ) {sectors : ℕ}
    (w : Works blkdev_read blkdev_write content sectors) where
  abbrev at : Fs D → ℕ → ℕ
  at = entry_of blkdev_read blkdev_write content w

  abbrev without : ℕ → Fs D → Fs D
  without c fs = fat32_free_cluster blkdev_read blkdev_write c fs

  -- The clusters of the chain that begins at a cluster.
  pub data InChain (fs : Fs D) : ℕ → ℕ → Type 0 where
    here : {c : ℕ} → InRange fs c → InChain fs c c
    there : {c j : ℕ} → InRange fs c → InChain fs (at fs c) j → InChain fs c j

  -- The chain that begins at `c` is freed.
  pub record ChainFreed (c : ℕ) (fs g : Fs D) : Type 0 where
    pub table : IsTable sectors g
    pub total : g.total_clusters ≡ fs.total_clusters
    pub others : Freed blkdev_read blkdev_write content w fs g
    pub kept : (j : ℕ) → InRange fs j → ¬ InChain fs c j → at g j ≡ at fs j
    pub first : InRange fs c → at g c ≡ 0
    pub all : (j : ℕ) → InChain fs c j → at g j ≡ 0

  begins : (c j : ℕ) (fs : Fs D) → InChain fs c j → InRange fs c
  begins c j fs (here i) = i
  begins c j fs (there i _) = i

  unchanged : (c : ℕ) (fs : Fs D) → IsTable sectors fs → ¬ InRange fs c → ChainFreed c fs fs
  unchanged c fs t out = record {
    table = t;
    total = refl;
    others = λ j i. inr refl;
    kept = λ j i away. refl;
    first = λ i. absurd (out i);
    all = λ j i. absurd (out (begins c j fs i));
  }

  -- What freeing one cluster does.
  record OneFreed (c : ℕ) (fs g : Fs D) : Type 0 where
    table : IsTable sectors g
    total : g.total_clusters ≡ fs.total_clusters
    others : Freed blkdev_read blkdev_write content w fs g
    first : at g c ≡ 0
    rest : (j : ℕ) → InRange fs j → j ≢ c → at g j ≡ at fs j

  without-OneFreed :
      (c : ℕ) (fs : Fs D) → IsTable sectors fs → InRange fs c → OneFreed c fs (without c fs)
  without-OneFreed c fs t i =
      let (u, e) = free_cluster-IsTable blkdev_read blkdev_write content w fs c t i in
      record {
        table = u;
        total = e;
        others = λ j k. elim (Bool-cases (j == c)) [
          | inl same ↦
              inl
                (entry-free_cluster blkdev_read blkdev_write content w fs c j t i k ∙ rw same refl)
          | inr other ↦
              inr
                (entry-free_cluster blkdev_read blkdev_write content w fs c j t i k ∙ rw other refl)
        ];
        first = entry-free_cluster blkdev_read blkdev_write content w fs c c t i i ∙ ground arith;
        rest = λ j k ne.
            entry-free_cluster blkdev_read blkdev_write content w fs c j t i k ∙ ground (arith, ne);
      }

  -- A chain that begins with an entry 0 is one cluster.
  own : (c j : ℕ) (g : Fs D) → at g c ≡ 0 → InChain g c j → c ≡ j
  own c j g z (here i) = refl
  own c j g z (there i p) = absurd (ground (arith, z, (begins (at g c) j g p).0))

  -- A cluster of the chain from `x` is `c`, or is on a chain that does not need the entry of `c`.
  around :
      (fs g : Fs D) (c x j : ℕ)
      → OneFreed c fs g
      → InChain fs x j
      → (j ≡ c) ⊎ (InChain g x j ⊎ InChain g (at fs c) j)
  around fs g c x j r (here i) = inr (inl (here (i.0, omega (arith, i.1, r.total))))
  around fs g c x j r (there i p) = elim (around fs g c (at fs x) j r p) [
    | inl e ↦ inl e
    | inr (inr q) ↦ inr (inr q)
    | inr (inl q) ↦ elim (Bool-cases (x == c)) [
      | inl e ↦
          let same : x ≡ c = (==_iff x c).0 e in
          inr (inr (subst (λ (y : ℕ). InChain g (at fs y) j) same q))
      | inr e ↦
          let kept : at g x ≡ at fs x = r.rest x i (ground (arith, e)) in
          let k : InRange g x = (i.0, omega (arith, i.1, r.total)) in
          inr (inl (there k (subst (λ (y : ℕ). InChain g y j) (sym kept) q)))
    ]
  ]

  -- A cluster of a chain after `c` was freed was one before.
  still : (fs g : Fs D) (c x j : ℕ) → OneFreed c fs g → InChain g x j → InChain fs x j
  still fs g c x j r (here i) = here (i.0, omega (arith, i.1, r.total))
  still fs g c x j r (there i p) =
      let k : InRange fs x = (i.0, omega (arith, i.1, r.total)) in
      elim (Bool-cases (x == c)) [
        | inl e ↦
            let z : at g x ≡ 0 = ap (at g) ((==_iff x c).0 e) ∙ r.first in
            absurd (ground (arith, z, (begins (at g x) j g p).0))
        | inr e ↦ there k (
            subst (λ (y : ℕ). InChain fs y j) (r.rest x k (ground (arith, e)))
              (still fs g c (at g x) j r p))
      ]

  -- The cluster that is freed is on the chain.
  kept-without :
      (c j : ℕ) (fs : Fs D)
      → IsTable sectors fs
      → InRange fs c
      → InRange fs j
      → ¬ InChain fs c j
      → at (without c fs) j ≡ at fs j
  kept-without c j fs t i k away =
      (without-OneFreed c fs t i).rest j k
        (λ e. away (subst (λ (y : ℕ). InChain fs c y) (sym e) (here i)))

  last-ChainFreed :
      (c : ℕ) (fs : Fs D)
      → IsTable sectors fs
      → InRange fs c
      → at fs c ≡ 0
      → ChainFreed c fs (without c fs)
  last-ChainFreed c fs t i z =
      let one = without-OneFreed c fs t i in
      record {
        table = one.table;
        total = one.total;
        others = one.others;
        kept = λ j k away. kept-without c j fs t i k away;
        first = λ k. one.first;
        all = λ j p. elim (around fs (without c fs) c c j one p) [
          | inl e ↦ subst (λ (y : ℕ). at (without c fs) y ≡ 0) (sym e) one.first
          | inr (inl q) ↦
              subst (λ (y : ℕ). at (without c fs) y ≡ 0) (own c j (without c fs) one.first q)
                one.first
          | inr (inr q) ↦ absurd (ground (arith, z, (begins (at fs c) j (without c fs) q).0))
        ];
      }

  walk-ChainFreed :
      (c : ℕ) (fs g : Fs D)
      → IsTable sectors fs
      → InRange fs c
      → ChainFreed (at fs c) (without c fs) g
      → ChainFreed c fs g
  walk-ChainFreed c fs g t i r =
      let one = without-OneFreed c fs t i in
      let inside : (j : ℕ) → InRange fs j → InRange (without c fs) j =
        λ j k. (k.0, omega (arith, k.1, one.total)) in
      let freed : at g c ≡ 0 = elim (r.others c (inside c i)) [
        | inl z ↦ z
        | inr same ↦ same ∙ one.first
      ] in
      record {
        table = r.table;
        total = r.total ∙ one.total;
        others = λ j k. elim (r.others j (inside j k)) [
          | inl z ↦ inl z
          | inr same ↦ elim (one.others j k) [
            | inl z ↦ inl (same ∙ z)
            | inr kept ↦ inr (same ∙ kept)
          ]
        ];
        kept = λ j k away.
            r.kept j (inside j k)
              (λ p. away (there i (still fs (without c fs) c (at fs c) j one p)))
            ∙ kept-without c j fs t i k away;
        first = λ k. freed;
        all = λ j p. elim (around fs (without c fs) c c j one p) [
          | inl e ↦ subst (λ (y : ℕ). at g y ≡ 0) (sym e) freed
          | inr (inr q) ↦ r.all j q
          | inr (inl q) ↦ subst (λ (y : ℕ). at g y ≡ 0) (own c j (without c fs) one.first q) freed
        ];
      }

  -- One entry less is in use.
  used-without :
      (c : ℕ) (fs : Fs D)
      → IsTable sectors fs
      → InRange fs c
      → at fs c ≢ 0
      → used fs.total_clusters (at (without c fs)) + 1 ≡ used fs.total_clusters (at fs)
  used-without c fs t i ne =
      used-clear fs.total_clusters c (at fs) (at (without c fs))
        (λ k l.
          entry-free_cluster blkdev_read blkdev_write content w fs c (k + 2) t i
            (omega arith, omega (arith, l)))
        i.0 (omega (arith, i.1)) ne

  free_chain-used :
      (f c : ℕ) (fs : Fs D)
      → IsTable sectors fs
      → used fs.total_clusters (at fs) + 2 < f
      → (g : Fs D) × (fat32_free_chain blkdev_read blkdev_write f c fs ≡ some g) × ChainFreed c fs g
  free_chain-used zero c fs t l = absurd (omega arith)
  free_chain-used (suc zero) c fs t l = absurd (omega arith)
  free_chain-used (suc (suc f)) c fs t l = elim (Bool-cases (leb 2 c && ltb c eoc_min)) [
    | inr stop ↦ (
      fs,
      free_chain-stops blkdev_read blkdev_write content w (suc f) c fs stop,
      unchanged c fs t (λ i. ground (arith, stop, i.0, i.1, t.small)),
    )
    | inl go ↦ elim (Bool-cases (ltb c (fs.total_clusters + 2))) [
      | inr out ↦ (
        fs,
        free_chain-leaves blkdev_read blkdev_write content w f c fs t go (ground (arith, out)),
        unchanged c fs t (λ i. ground (arith, out, i.1)),
      )
      | inl inside ↦
          let i : InRange fs c = (ground (arith, go), ground (arith, inside)) in
          let step = free_chain-walks blkdev_read blkdev_write content w (suc f) c fs t i in
          elim (Bool-cases (at fs c == 0)) [
            | inl last ↦
                let z : at fs c ≡ 0 = (==_iff (at fs c) 0).0 last in
                (
                  without c fs,
                  step
                      ∙ ap (λ n. fat32_free_chain blkdev_read blkdev_write (suc f) n (without c fs))
                          z
                      ∙ free_chain-stops blkdev_read blkdev_write content w f 0 (without c fs) refl,
                  last-ChainFreed c fs t i z,
                )
            | inr more ↦
                let one = without-OneFreed c fs t i in
                let less = used-without c fs t i (ground (arith, more)) in
                let (g, q, r) = free_chain-used (suc f) (at fs c) (without c fs) one.table (
                  subst (λ n. used n (at (without c fs)) + 2 < suc f) (sym one.total)
                    (omega (arith, l, less))) in
                (g, step ∙ q, walk-ChainFreed c fs g t i r)
          ]
    ]
  ]

  -- On a device that works on its sectors, for a table on the device, without a cache, and with
  -- fuel above the number of clusters by 2: `fat32_free_chain` ends, also when the chain runs in a
  -- circle. Every cluster of the chain has the entry 0 afterwards, every other cluster keeps its
  -- entry, and the table keeps its clusters.
  pub fat32_free_chain-ChainFreed :
      (f c : ℕ) (fs : Fs D)
      → IsTable sectors fs
      → fs.total_clusters + 2 < f
      → (g : Fs D) × (fat32_free_chain blkdev_read blkdev_write f c fs ≡ some g) × ChainFreed c fs g
  fat32_free_chain-ChainFreed f c fs t l =
      free_chain-used f c fs t (omega (arith, l, used-le fs.total_clusters (at fs)))
