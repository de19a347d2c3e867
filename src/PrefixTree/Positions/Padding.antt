-- ===== src/PrefixTree/Positions/Padding.antt =====
-- prefix_tree.py: what the padding of a packed layout keeps.
use native.Mathlib.Nat.{add-mod, mod_self, mod-eq_of_lt, mod-lt}
use axrl.Prelude.{
  ℕ, ◌+◌, ◌-◌, ◌%◌, ◌<◌, ◌≡◌, refl, ap, sym, ◌∙◌, inl, inr, Bool, true, false, ◌||◌, List, [], ◌∷◌,
  ◌++◌, Bool-cases, ℕ-cases, length, length-append, length-replicate, replicate, take, arith, ◌==◌,
  if_cases,
}
use axrl.PrefixTree.Layout.{PrefixTreeNode, Layout}
use axrl.PrefixTree.Positions.{Padded, pad_to, extend_last, no_nodes, pad_layout}

-- The end of the last node.
abbrev pub last_end : List PrefixTreeNode → ℕ
last_end [] = 0
last_end (nd ∷ []) = nd.end
last_end (nd ∷ next ∷ nodes) = last_end (next ∷ nodes)

last_end-extend_last :
    (pad : ℕ) (nodes : List PrefixTreeNode)
    → no_nodes nodes ≡ false
    → last_end (extend_last pad nodes) ≡ last_end nodes + pad
unfolding extend_last
last_end-extend_last pad [] h = cc
last_end-extend_last pad (nd ∷ []) h = refl
last_end-extend_last pad (nd ∷ next ∷ nodes) h =
    last_end_cons nd pad next nodes ∙ last_end-extend_last pad (next ∷ nodes) refl
  where
    last_end_cons :
        (nd : PrefixTreeNode) (pad : ℕ) (next : PrefixTreeNode) (nodes : List PrefixTreeNode)
        → last_end (nd ∷ extend_last pad (next ∷ nodes)) ≡ last_end (extend_last pad (next ∷ nodes))
    last_end_cons nd pad next [] = refl
    last_end_cons nd pad next (more ∷ nodes) = refl

take-append_length {ℓ} : {A : Type ℓ} (xs ys : List A) → take (length xs) (xs ++ ys) ≡ xs
take-append_length [] ys = refl
take-append_length (x ∷ xs) ys = ap (◌∷◌ x) (take-append_length xs ys)

pad_to_lem :
    (total align : ℕ)
    → 0 < align
    → ((total + pad_to total align) % align ≡ 0) × (pad_to total align < align)
unfolding pad_to
pad_to_lem total align h =
    let m = mod-lt (align - total % align) h in
    let r = mod-lt total h in
    (
      elim (ℕ-cases (total % align)) [
        | inl z ↦
            let e : align - total % align ≡ align = omega (arith, z) in
            let none_left : (align - total % align) % align ≡ 0 =
              ap (λ n. n % align) e ∙ mod_self align in
            let same : total + 0 ≡ total = omega arith in
            ap (λ n. (total + n) % align) none_left ∙ (ap (λ n. n % align) same ∙ z)
        | inr (k, p) ↦
            let small : align - total % align < align = omega (arith, p, r) in
            let e = mod-eq_of_lt small in
            add-mod total ((align - total % align) % align) align
            ∙ (ap (λ n. (total % align + n % align) % align) e
                ∙ (ap (λ n. (total % align + n) % align) e
                    ∙ (ap (λ n. n % align) (full (total % align) align r) ∙ mod_self align)))
      ],
      m,
    )
  where
    full : (a b : ℕ) → a < b → a + (b - a) ≡ b
    full a b h = omega arith

-- Padding makes the length a multiple of the alignment with fewer tokens than the alignment: the
-- tokens of the trie stay in front, the packed tokens are as many as is said, and the last node
-- ends where they end. The trie has a node if it has a token, and its last node ends with them.
pub pad_layout-IsAligned :
    (trie : Layout) (align pad_token_id : ℕ)
    → 0 < align
    → (no_nodes trie.nodes ≡ true → length trie.packed ≡ 0)
    → last_end trie.nodes ≡ length trie.packed
    → ((pad_layout trie align pad_token_id).total_padded % align ≡ 0)
      × ((pad_layout trie align pad_token_id).total_padded < length trie.packed + align)
      × (length (pad_layout trie align pad_token_id).packed
          ≡ (pad_layout trie align pad_token_id).total_padded)
      × (last_end (pad_layout trie align pad_token_id).nodes
          ≡ (pad_layout trie align pad_token_id).total_padded)
      × (take (length trie.packed) (pad_layout trie align pad_token_id).packed ≡ trie.packed)
unfolding pad_layout
pad_layout-IsAligned trie align pad_token_id h empty ends =
    let total = length trie.packed in
    let pad = pad_to total align in
    let (aligned, short) = pad_to_lem total align h in
    if_cases (IsAligned total) ((pad == 0) || no_nodes trie.nodes)
      (λ unchanged.
        let z : pad ≡ 0 = no_pad pad aligned short unchanged in
        (
          aligned,
          omega (arith, short),
          omega (arith, z),
          omega (arith, ends, z),
          take_all trie.packed,
        ))
      (λ padded. (
        aligned,
        omega (arith, short),
        omega (
          arith,
          length-append trie.packed (replicate pad pad_token_id),
          length-replicate pad pad_token_id,
        ),
        omega (arith, last_end-extend_last pad trie.nodes (some_node (pad == 0) padded), ends),
        take-append_length trie.packed (replicate pad pad_token_id),
      ))
  where
    IsAligned : ℕ → Padded → Type 0
    IsAligned total p =
        (p.total_padded % align ≡ 0)
        × (p.total_padded < total + align)
        × (length p.packed ≡ p.total_padded)
        × (last_end p.nodes ≡ p.total_padded)
        × (take total p.packed ≡ trie.packed)

    some_node : (b : Bool) {c : Bool} → b || c ≡ false → c ≡ false
    some_node true e = cc
    some_node false e = e

    take_all : (xs : List ℕ) → take (length xs) xs ≡ xs
    take_all [] = refl
    take_all (x ∷ xs) = ap (◌∷◌ x) (take_all xs)

    no_pad :
        (pad : ℕ)
        → (length trie.packed + pad) % align ≡ 0
        → pad < align
        → (pad == 0) || no_nodes trie.nodes ≡ true
        → pad ≡ 0
    no_pad pad aligned short e = elim (Bool-cases (pad == 0)) [
      | inl z ↦ ground (arith, z)
      | inr some_pad ↦
          let nothing : no_nodes trie.nodes ≡ true = rw some_pad at e in
          let same : length trie.packed + pad ≡ pad = omega (arith, empty nothing) in
          sym (mod-eq_of_lt short) ∙ (ap (λ n. n % align) (sym same) ∙ aligned)
    ]
