-- ===== src/PrefixTree/Ranges/Shifted.antt =====
-- prefix_tree.py: a tree in the middle of a forest, its nodes shifted.
use axrl.Prelude.{
  ℕ, zero, suc, ◌+◌, ◌-◌, ◌≤◌, ◌≡◌, refl, ap, sym, ◌∙◌, Option, none, some, some-eq, Option-cases,
  Bool-cases, true, false, All, >>=-ok, inl, inr, List, [], ◌∷◌, ◌++◌, map, ok, >>=-eq-ok, ok-eq,
  length, length-append, length-map, get_elem?, get_elem?-append_left, get_elem?-lt, leb,
  if◌then◌else◌, arith, map-append,
}
use axrl.PrefixTree.Layout.{PrefixTreeNode, chain_up}
use axrl.PrefixTree.Ranges.{
  Range, looked_up, ancestor_range, own_range, ancestor_ranges, ranges_of, chain_len, len_up,
  compute_max_path_length, shift_parent, shift_node, shift_leaf, shift_range,
}

pub looked_up-eq-ok {ℓ} : {A : Type ℓ} (o : Option A) {a : A} → looked_up o ≡ ok a → o ≡ some a
looked_up-eq-ok none h = cc
looked_up-eq-ok (some b) h = ap some (ok-eq h)

get_elem?-append_right {ℓ} :
    {A : Type ℓ} (front back : List A) (i : ℕ)
    → get_elem? (front ++ back) (i + length front) ≡ get_elem? back i
get_elem?-append_right [] back i = let z : i + 0 ≡ i = omega arith in ap (get_elem? back) z
get_elem?-append_right (x ∷ front) back i =
    let z : i + suc (length front) ≡ suc (i + length front) = omega arith in
    ap (get_elem? (x ∷ (front ++ back))) z ∙ get_elem?-append_right front back i

get_elem?-map {ℓ κ} :
    {A : Type ℓ} {B : Type κ} (f : A → B) (xs : List A) (i : ℕ) {a : A}
    → get_elem? xs i ≡ some a
    → get_elem? (map f xs) i ≡ some (f a)
get_elem?-map f [] i h = cc
get_elem?-map f (x ∷ xs) zero h = ap (λ a. some (f a)) (some-eq h)
get_elem?-map f (x ∷ xs) (suc i) h = get_elem?-map f xs i h

-- The chain from a node, step by step.
chain_step :
    (f : ℕ) (nodes : List PrefixTreeNode) (n : ℕ) (nd : PrefixTreeNode) {up : List ℕ}
    → get_elem? nodes n ≡ some nd
    → chain_up f nodes nd.parent ≡ some up
    → chain_up (suc f) nodes (some n) ≡ some (n ∷ up)
unfolding chain_up
chain_step f nodes n nd e g = rw (e, chain_up) (rw g)

chain_up-cons :
    (f : ℕ) (nodes : List PrefixTreeNode) (n : ℕ) {chain : List ℕ}
    → chain_up (suc f) nodes (some n) ≡ some chain
    → (nd : PrefixTreeNode) × (up : List ℕ) × (get_elem? nodes n ≡ some nd)
      × (chain_up f nodes nd.parent ≡ some up)
      × (n ∷ up ≡ chain)
unfolding chain_up
chain_up-cons f nodes n h = elim (Option-cases (get_elem? nodes n)) [
  | inl e ↦ let h' = rw (e, chain_up) at h in cc
  | inr (nd, e) ↦ elim (Option-cases (chain_up f nodes nd.parent)) [
    | inl g ↦ let h' = rw (e, chain_up) at h in let h'' = rw g at h' in cc
    | inr (up, g) ↦ (nd, up, e, g, some-eq (sym (chain_step f nodes n nd e g) ∙ h))
  ]
]

abbrev pub shift_chain : ℕ → List ℕ → List ℕ
shift_chain off chain = map (λ n. n + off) chain

-- A path that has tokens ends at a node.
abbrev pub HasLeaf : Option ℕ × ℕ → Type 0
HasLeaf leaf = (n : ℕ) × (leaf.0 ≡ some n)

module _ (front own back : List PrefixTreeNode) (pos : ℕ) where
  abbrev pub off : ℕ
  off = length front

  -- The forest around the tree `own`.
  abbrev pub forest : List PrefixTreeNode
  forest = front ++ (map (shift_node pos off) own ++ back)

  get_elem?-forest :
      (n : ℕ) {nd : PrefixTreeNode}
      → get_elem? own n ≡ some nd
      → get_elem? forest (n + off) ≡ some (shift_node pos off nd)
  get_elem?-forest n e =
      let lt = get_elem?-lt own n e in
      get_elem?-append_right front (map (shift_node pos off) own ++ back) n
      ∙ (get_elem?-append_left (map (shift_node pos off) own) back n
            (omega (arith, lt, length-map own (shift_node pos off)))
          ∙ get_elem?-map (shift_node pos off) own n e)

  chain_up-forest :
      (f g : ℕ) (p : Option ℕ) {chain : List ℕ}
      → f ≤ g
      → chain_up f own p ≡ some chain
      → chain_up g forest (shift_parent off p) ≡ some (shift_chain off chain)
  unfolding chain_up
  chain_up-forest f g none le h = ap (λ c. some (shift_chain off c)) (some-eq h)
  chain_up-forest zero g (some n) le h = cc
  chain_up-forest (suc f) zero (some n) le h = absurd (omega arith)
  chain_up-forest (suc f) (suc g) (some n) le h =
      let (nd, up, e, c, same) = chain_up-cons f own n h in
      chain_step g forest (n + off) (shift_node pos off nd) (get_elem?-forest n e)
        (chain_up-forest f g nd.parent (omega arith) c)
      ∙ ap (λ c. some (shift_chain off c)) same

  ancestor_ranges-forest :
      (node : PrefixTreeNode) (chain : List ℕ) {ranges : List Range}
      → ancestor_ranges own node chain ≡ ok ranges
      → ancestor_ranges forest (shift_node pos off node) (shift_chain off chain)
        ≡ ok (map (shift_range pos) ranges)
  unfolding ancestor_ranges
  ancestor_ranges-forest node [] h = ap (λ r. ok (map (shift_range pos) r)) (ok-eq h)
  ancestor_ranges-forest node (a ∷ chain) h =
      let (an, e, h) = >>=-eq-ok (looked_up (get_elem? own a)) _ h in
      let (ranges, g, h) = >>=-eq-ok (ancestor_ranges own node chain) _ h in
      let e' = get_elem?-forest a (looked_up-eq-ok (get_elem? own a) e) in
      let more = ancestor_ranges-forest node chain g in
      >>=-ok (looked_up (get_elem? forest (a + off))) _ (ap looked_up e') (
        >>=-ok (ancestor_ranges forest (shift_node pos off node) (shift_chain off chain)) _ more
          (ap ok (shifted an ranges) ∙ ap (λ r. ok (map (shift_range pos) r)) (ok-eq h)))
    where
      shifted :
          (an : PrefixTreeNode) (ranges : List Range)
          → (if leb (an.end + pos) (an.start + pos)
              then map (shift_range pos) ranges
              else ancestor_range (shift_node pos off node) (shift_node pos off an)
                ∷ map (shift_range pos) ranges)
            ≡ map
                (shift_range pos)
                (if leb an.end an.start then ranges else ancestor_range node an ∷ ranges)
      shifted an ranges = elim (Bool-cases (leb an.end an.start)) [
        | inl y ↦
            let y' : leb (an.end + pos) (an.start + pos) ≡ true = ground (arith, y) in
            rw (y, y') refl
        | inr y ↦
            let y' : leb (an.end + pos) (an.start + pos) ≡ false = ground (arith, y) in
            rw (y, y') refl
      ]

  length-forest : length own ≤ length forest
  length-forest = omega (
    arith,
    length-append front (map (shift_node pos off) own ++ back),
    length-append (map (shift_node pos off) own) back,
    length-map own (shift_node pos off),
  )

  pub ranges_of-forest :
      (nodes : List PrefixTreeNode) {ranges : List Range}
      → ranges_of own nodes ≡ ok ranges
      → ranges_of forest (map (shift_node pos off) nodes) ≡ ok (map (shift_range pos) ranges)
  unfolding ranges_of
  ranges_of-forest [] h = ap (λ r. ok (map (shift_range pos) r)) (ok-eq h)
  ranges_of-forest (node ∷ nodes) h =
      let (chain, e, h) = >>=-eq-ok (looked_up (chain_up (length own) own node.parent)) _ h in
      let (ranges, g, h) = >>=-eq-ok (ancestor_ranges own node chain) _ h in
      let (rest, k, h) = >>=-eq-ok (ranges_of own nodes) _ h in
      let e' =
        chain_up-forest (length own) (length forest) node.parent length-forest
          (looked_up-eq-ok (chain_up (length own) own node.parent) e) in
      >>=-ok (looked_up (chain_up (length forest) forest (shift_parent off node.parent))) _
        (ap looked_up e')
        (>>=-ok (ancestor_ranges forest (shift_node pos off node) (shift_chain off chain)) _
          (ancestor_ranges-forest node chain g)
          (>>=-ok (ranges_of forest (map (shift_node pos off) nodes)) _ (ranges_of-forest nodes k) (
            ap ok (sym (map-append (shift_range pos) ranges (own_range node ∷ rest)))
            ∙ ap (λ r. ok (map (shift_range pos) r)) (ok-eq h))))

  chain_len-forest :
      (chain : List ℕ) {n : ℕ}
      → chain_len own chain ≡ ok n
      → chain_len forest (shift_chain off chain) ≡ ok n
  unfolding chain_len
  chain_len-forest [] h = h
  chain_len-forest (a ∷ chain) h =
      let (nd, e, h) = >>=-eq-ok (looked_up (get_elem? own a)) _ h in
      let (rest, g, h) = >>=-eq-ok (chain_len own chain) _ h in
      >>=-ok (looked_up (get_elem? forest (a + off))) _
        (ap looked_up (get_elem?-forest a (looked_up-eq-ok (get_elem? own a) e)))
        (>>=-ok (chain_len forest (shift_chain off chain)) _ (chain_len-forest chain g) (
          let w : nd.end + pos - (nd.start + pos) + rest ≡ nd.end - nd.start + rest = omega arith in
          ap ok w ∙ h))

  len_up-forest :
      (leaf : ℕ) {n : ℕ} → len_up own (some leaf) ≡ ok n → len_up forest (some (leaf + off)) ≡ ok n
  unfolding len_up
  len_up-forest leaf h =
      let (chain, e, h) = >>=-eq-ok (looked_up (chain_up (length own) own (some leaf))) _ h in
      >>=-ok (looked_up (chain_up (length forest) forest (some (leaf + off)))) _
        (ap looked_up (
          chain_up-forest (length own) (length forest) (some leaf) length-forest
            (looked_up-eq-ok (chain_up (length own) own (some leaf)) e)))
        (chain_len-forest chain h)

  -- Every path ends at a node.
  pub compute_max-forest :
      (leaves : List (Option ℕ × ℕ)) {n : ℕ}
      → All HasLeaf leaves
      → compute_max_path_length own leaves ≡ ok n
      → compute_max_path_length forest (map (shift_leaf off) leaves) ≡ ok n
  unfolding compute_max_path_length
  compute_max-forest [] ends h = h
  compute_max-forest ((none, l) ∷ leaves) ends h = cc
  compute_max-forest ((some leaf, l) ∷ leaves) ends h =
      let (n, e, h) = >>=-eq-ok (len_up own (some leaf)) _ h in
      let (m, g, h) = >>=-eq-ok (compute_max_path_length own leaves) _ h in
      >>=-ok (len_up forest (some (leaf + off))) _ (len_up-forest leaf e) (
        >>=-ok (compute_max_path_length forest (map (shift_leaf off) leaves)) _
          (compute_max-forest leaves ends.1 g) h)
