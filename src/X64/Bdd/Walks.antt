-- ===== src/X64/Bdd/Walks.antt =====
-- The walks of `lookup` of src/x64/bdd.c through a diagram whose variables grow along its edges.
use lfi_verifier.Prelude.{
  ℕ, zero, suc, ◌+◌, ◌≤◌, ◌<◌, ◌%◌, ◌/◌, ◌^◌, ◌-◌, ◌==◌, ap, get_or, ◌≡◌, ◌↔◌, inl, inr, refl, sym,
  ◌∙◌, none, some, some-injective, true, false, List, arith, Bool-cases, if◌then◌else◌,
}
use lfi_verifier.X64.Bdd.{BddNode, input_bit, lookup, bdd_nodes, entry, lfi_x86_bdd}

module _ (nodes : ℕ → BddNode) where
  -- A walk from a node to a result, one bit of the input at each node.
  pub data Walk (input : List ℕ) : BddNode → ℕ → Type 0 where
    result_hi :
        {n : BddNode} {r : ℕ}
        → input_bit input n.v ≡ true
        → n.terminal_hi ≡ true
        → r ≡ n.hi % 256
        → Walk input n r
    result_lo :
        {n : BddNode} {r : ℕ}
        → input_bit input n.v ≡ false
        → n.terminal_lo ≡ true
        → r ≡ n.lo % 256
        → Walk input n r
    go_hi :
        {n : BddNode} {r : ℕ}
        → input_bit input n.v ≡ true
        → n.terminal_hi ≡ false
        → Walk input (nodes n.hi) r
        → Walk input n r
    go_lo :
        {n : BddNode} {r : ℕ}
        → input_bit input n.v ≡ false
        → n.terminal_lo ≡ false
        → Walk input (nodes n.lo) r
        → Walk input n r

  module _ (fuel : ℕ) (n : BddNode) (input : List ℕ) where
    lookup_hi :
        input_bit input n.v ≡ true
        → lookup nodes (suc fuel) n input
          ≡ (if n.terminal_hi then some (n.hi % 256) else lookup nodes fuel (nodes n.hi) input)
    unfolding lookup
    lookup_hi b = rw (b, lookup)

    lookup_lo :
        input_bit input n.v ≡ false
        → lookup nodes (suc fuel) n input
          ≡ (if n.terminal_lo then some (n.lo % 256) else lookup nodes fuel (nodes n.lo) input)
    unfolding lookup
    lookup_lo b = rw (b, lookup)

  lookup-zero : (n : BddNode) (input : List ℕ) → lookup nodes zero n input ≡ none
  unfolding lookup
  lookup-zero n input = refl

  lookup-Walk :
      (fuel : ℕ) (n : BddNode) (input : List ℕ) (r : ℕ)
      → lookup nodes fuel n input ≡ some r
      → Walk input n r
  lookup-Walk zero n input r h = cc (lookup-zero n input)
  lookup-Walk (suc f) n input r h = elim (Bool-cases (input_bit input n.v)) [
    | inl b ↦ elim (Bool-cases n.terminal_hi) [
      | inl t ↦ result_hi b t (sym (some-injective _ _ (rw (lookup_hi f n input b, t) at h)))
      | inr t ↦ go_hi b t (lookup-Walk f (nodes n.hi) input r (rw (lookup_hi f n input b, t) at h))
    ]
    | inr b ↦ elim (Bool-cases n.terminal_lo) [
      | inl t ↦ result_lo b t (sym (some-injective _ _ (rw (lookup_lo f n input b, t) at h)))
      | inr t ↦ go_lo b t (lookup-Walk f (nodes n.lo) input r (rw (lookup_lo f n input b, t) at h))
    ]
  ]

  -- A node of a diagram of `count` nodes and `bound` variables: its edges lead to nodes with larger
  -- variables.
  pub record Fits (count bound : ℕ) (n : BddNode) : Type 0 where
    pub below : n.v < bound
    pub hi_edge : n.terminal_hi ≡ false → (n.hi < count) × (n.v < (nodes n.hi).v)
    pub lo_edge : n.terminal_lo ≡ false → (n.lo < count) × (n.v < (nodes n.lo).v)

  abbrev pub Ordered : ℕ → ℕ → Type 0
  Ordered count bound = (i : ℕ) → i < count → Fits count bound (nodes i)

  module _ (count bound : ℕ) (ordered : Ordered count bound) where
    lookup-Returns :
        (fuel : ℕ) (n : BddNode) (input : List ℕ)
        → Fits count bound n
        → bound ≤ fuel + n.v
        → (r : ℕ) × (lookup nodes fuel n input ≡ some r)
    lookup-Returns zero n input h l = absurd (omega (arith, h.below))
    lookup-Returns (suc f) n input h l = elim (Bool-cases (input_bit input n.v)) [
      | inl b ↦ elim (Bool-cases n.terminal_hi) [
        | inl t ↦ rw (lookup_hi f n input b, t) (_, refl)
        | inr t ↦
            let (k, m) = h.hi_edge t in
            rw (lookup_hi f n input b, t)
              (lookup-Returns f (nodes n.hi) input (ordered n.hi k) (omega arith))
      ]
      | inr b ↦ elim (Bool-cases n.terminal_lo) [
        | inl t ↦ rw (lookup_lo f n input b, t) (_, refl)
        | inr t ↦
            let (k, m) = h.lo_edge t in
            rw (lookup_lo f n input b, t)
              (lookup-Returns f (nodes n.lo) input (ordered n.lo k) (omega arith))
      ]
    ]

    Walk-lookup :
        (fuel : ℕ) (n : BddNode) (input : List ℕ) (r : ℕ)
        → Fits count bound n
        → bound ≤ fuel + n.v
        → Walk input n r
        → lookup nodes fuel n input ≡ some r
    Walk-lookup zero n input r h l w = absurd (omega (arith, h.below))
    Walk-lookup (suc f) n input r h l (result_hi b t e) = lookup_hi f n input b ∙ rw (t, e) refl
    Walk-lookup (suc f) n input r h l (result_lo b t e) = lookup_lo f n input b ∙ rw (t, e) refl
    Walk-lookup (suc f) n input r h l (go_hi b t w) =
        let (k, m) = h.hi_edge t in
        rw (lookup_hi f n input b, t)
          (Walk-lookup f (nodes n.hi) input r (ordered n.hi k) (omega arith) w)
    Walk-lookup (suc f) n input r h l (go_lo b t w) =
        let (k, m) = h.lo_edge t in
        rw (lookup_lo f n input b, t)
          (Walk-lookup f (nodes n.lo) input r (ordered n.lo k) (omega arith) w)

    -- The walk reads no bit from `bound` on.
    Walk-bits :
        (input input' : List ℕ)
        → ((v : ℕ) → v < bound → input_bit input v ≡ input_bit input' v)
        → (n : BddNode) (r : ℕ) → Fits count bound n
        → Walk input n r
        → Walk input' n r
    Walk-bits input input' e n r h (result_hi b t q) = result_hi (sym (e n.v h.below) ∙ b) t q
    Walk-bits input input' e n r h (result_lo b t q) = result_lo (sym (e n.v h.below) ∙ b) t q
    Walk-bits input input' e n r h (go_hi b t w) =
        go_hi (sym (e n.v h.below) ∙ b) t
          (Walk-bits input input' e (nodes n.hi) r (ordered n.hi (h.hi_edge t).0) w)
    Walk-bits input input' e n r h (go_lo b t w) =
        go_lo (sym (e n.v h.below) ∙ b) t
          (Walk-bits input input' e (nodes n.lo) r (ordered n.lo (h.lo_edge t).0) w)

same_bit :
    (input input' : List ℕ)
    → ((i : ℕ) → i < 15 → get_or input i 0 ≡ get_or input' i 0)
    → (v : ℕ) → v < 120
    → input_bit input v ≡ input_bit input' v
unfolding input_bit
same_bit input input' e v l = ap (λ b. b / 2 ^ (7 - v % 8) % 2 == 1) (e (v / 8) (omega arith))

module _ (lfi_bdd_data : List ℕ) (count bound : ℕ)
    (ordered : Ordered (bdd_nodes lfi_bdd_data) count bound) (fuel : ℕ) (enough : bound ≤ fuel)
    (inside : entry lfi_bdd_data < count) where
  -- On a table of `count` nodes whose entry is one of them and whose variables are below `bound` and
  -- grow along the edges, lfi_x86_bdd returns a length on every input, with fuel for `bound` nodes.
  pub lfi_x86_bdd_total :
      (input : List ℕ) → (r : ℕ) × (lfi_x86_bdd lfi_bdd_data fuel input ≡ some r)
  unfolding lfi_x86_bdd
  lfi_x86_bdd_total input =
      lookup-Returns (bdd_nodes lfi_bdd_data) count bound ordered fuel _ input
        (ordered (entry lfi_bdd_data) inside) (omega arith)

  -- On a table of `count` nodes whose entry is one of them and whose variables are below `bound` and
  -- grow along the edges, lfi_x86_bdd, with fuel for `bound` nodes, returns exactly the result at which
  -- the walk that the input's bits choose from the entry ends.
  pub lfi_x86_bdd_exact :
      (input : List ℕ) (r : ℕ)
      → (lfi_x86_bdd lfi_bdd_data fuel input ≡ some r)
        ↔ Walk (bdd_nodes lfi_bdd_data) input (bdd_nodes lfi_bdd_data (entry lfi_bdd_data)) r
  unfolding lfi_x86_bdd
  lfi_x86_bdd_exact input r = (
    lookup-Walk (bdd_nodes lfi_bdd_data) fuel _ input r,
    Walk-lookup (bdd_nodes lfi_bdd_data) count bound ordered fuel _ input r
        (ordered (entry lfi_bdd_data) inside) (omega arith),
  )

  -- On a table of `count` nodes whose entry is one of them and whose variables are below `bound`, which
  -- is at most 120, and grow along the edges, the result of lfi_x86_bdd, with fuel for `bound` nodes,
  -- depends on the first 15 bytes of the input alone.
  pub lfi_x86_bdd_prefix :
      bound ≤ 120
      → (input input' : List ℕ) → ((i : ℕ) → i < 15 → get_or input i 0 ≡ get_or input' i 0)
      → lfi_x86_bdd lfi_bdd_data fuel input ≡ lfi_x86_bdd lfi_bdd_data fuel input'
  lfi_x86_bdd_prefix m input input' e =
      let (r, h) = lfi_x86_bdd_total input in
      let w = (lfi_x86_bdd_exact input r).0 h in
      let w' =
        Walk-bits (bdd_nodes lfi_bdd_data) count bound ordered input input'
          (λ v l. same_bit input input' e v (omega arith)) _ r (ordered (entry lfi_bdd_data) inside)
          w in
      h ∙ sym ((lfi_x86_bdd_exact input' r).1 w')
