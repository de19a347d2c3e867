-- ===== src/PrefixTree/Layout/Emit.antt =====
-- prefix_tree.py: `to_packed_sequence` lays every path of the tree out.
use axrl.Prelude.{
  ℕ, zero, suc, ◌+◌, ◌≤◌, ◌<◌, ◌≡◌, ◌≢◌, ◌⊎◌, inl, inr, refl, ap, sym, ◌∙◌, Option, none, some,
  List, [], ◌∷◌, ◌++◌, length, get_elem?, set, arith, append_assoc, append-nil, length-append,
  length-set, get_elem?-append_last,
}
use axrl.PrefixTree.{Children, nil, child}
use axrl.PrefixTree.Paths.{Owns, Spells}
use axrl.PrefixTree.Layout.{PrefixTreeNode, Layout, set_leaves, emit_node, emit}
use axrl.PrefixTree.Layout.Reads.{Before, Reads, step, Reads-append}

-- No node of the tree is without tokens.
abbrev pub IsFull : Children → Type 0
IsFull nil = Unit
IsFull (child tokens owners kids rest) = (tokens ≢ []) × IsFull kids × IsFull rest

-- `path_to_leaf[i]` leads to a node that spells `front` and then a path of the tree.
pub record Found (front : List ℕ) (cs : Children) (s : Layout) (i : ℕ) : Type 0 where
  pub tail : List ℕ
  pub leaf : ℕ
  pub prefix_len : ℕ
  pub spells : Spells i cs tail
  pub stored : get_elem? s.path_to_leaf i ≡ some (some leaf, prefix_len)
  pub reads : Reads s.packed s.nodes (some leaf) (front ++ tail)

-- After a part of the layout: what was there is still there, tokens are added at the end, and each
-- path of `cs` is found; the other paths' entries are left alone.
pub record Emitted (front : List ℕ) (cs : Children) (s s' : Layout) : Type 0 where
  pub more : List ℕ
  pub later : List PrefixTreeNode
  pub packed_grows : s'.packed ≡ s.packed ++ more
  pub nodes_grow : s'.nodes ≡ s.nodes ++ later
  pub same_count : length s'.path_to_leaf ≡ length s.path_to_leaf
  pub found :
      (i : ℕ)
      → i < length s.path_to_leaf
      → Found front cs s' i
        ⊎ ((get_elem? s'.path_to_leaf i ≡ get_elem? s.path_to_leaf i)
            × ((q : List ℕ) → ¬ Spells i cs q))

Reads-Emitted :
    {front : List ℕ} {cs : Children} {s s' : Layout} {o : Option ℕ} {p : List ℕ}
    → Emitted front cs s s'
    → Reads s.packed s.nodes o p
    → Reads s'.packed s'.nodes o p
Reads-Emitted e r = rw (e.packed_grows, e.nodes_grow) (Reads-append e.more e.later r)

get_elem?-set :
    (l : List (Option ℕ × ℕ)) (o i : ℕ) (v : Option ℕ × ℕ)
    → i < length l
    → ((i ≡ o) × (get_elem? (set l o v) i ≡ some v))
      ⊎ ((i ≢ o) × (get_elem? (set l o v) i ≡ get_elem? l i))
get_elem?-set [] o i v h = elim h [ ]
get_elem?-set (x ∷ l) zero zero v h = inl (refl, refl)
get_elem?-set (x ∷ l) zero (suc i) v h = inr (λ e. omega arith, refl)
get_elem?-set (x ∷ l) (suc o) zero v h = inr (λ e. omega arith, refl)
get_elem?-set (x ∷ l) (suc o) (suc i) v h = elim (get_elem?-set l o i v (omega arith)) [
  | inl (e, f) ↦ inl (ap suc e, f)
  | inr (n, f) ↦ inr (λ e. n (omega arith), f)
]

length-set_leaves :
    (os : List ℕ) (leaf : Option ℕ × ℕ) (l : List (Option ℕ × ℕ))
    → length (set_leaves os leaf l) ≡ length l
unfolding set_leaves
length-set_leaves [] leaf l = refl
length-set_leaves (o ∷ os) leaf l = length-set_leaves os leaf (set l o leaf) ∙ length-set l o leaf

-- The entries of the owners are set, and no other.
set_leaves-get :
    (os : List ℕ) (leaf : Option ℕ × ℕ) (l : List (Option ℕ × ℕ)) (i : ℕ)
    → i < length l
    → (Owns i os × (get_elem? (set_leaves os leaf l) i ≡ some leaf))
      ⊎ ((¬ Owns i os) × (get_elem? (set_leaves os leaf l) i ≡ get_elem? l i))
unfolding set_leaves
set_leaves-get [] leaf l i h = inr (λ o. o, refl)
set_leaves-get (o ∷ os) leaf l i h =
    elim (set_leaves-get os leaf (set l o leaf) i (omega (arith, length-set l o leaf))) [
      | inl (m, e) ↦ inl (inr m, e)
      | inr (n, e) ↦ elim (get_elem?-set l o i leaf h) [
        | inl (e', f) ↦ inl (inl e', e ∙ f)
        | inr (n', f) ↦ inr (λ m. elim m [ inl e' ↦ n' e' | inr m' ↦ n m' ], e ∙ f)
      ]
    ]

module _ (front tokens owners : List ℕ) (parent : Option ℕ) (prefix_len : ℕ) (s : Layout)
    (full : tokens ≢ []) (low : Before parent (length s.nodes))
    (r : Reads s.packed s.nodes parent front) where
  abbrev s1 : Layout
  s1 = emit_node tokens owners parent prefix_len s

  -- The new node spells what its parent does and then its own tokens.
  emit_node-Reads : Reads s1.packed s1.nodes (some (length s.nodes)) (front ++ tokens)
  unfolding emit_node
  emit_node-Reads =
      step _ (get_elem?-append_last s.nodes _) low (Reads-append tokens _ r)
        (record {
          before = s.packed;
          after = [];
          parts = ap (λ u. s.packed ++ u) (sym (append-nil tokens));
          starts = refl;
          ends = length-append s.packed tokens;
        })
        full

  module _ (kids rest : Children) (s2 s3 : Layout) (ek : Emitted (front ++ tokens) kids s1 s2)
      (er : Emitted front rest s2 s3) where
    Found-here :
        (i : ℕ)
        → i < length s.path_to_leaf
        → Found front (child tokens owners kids rest) s3 i
          ⊎ ((get_elem? s3.path_to_leaf i ≡ get_elem? s.path_to_leaf i)
              × ((q : List ℕ) → ¬ Spells i (child tokens owners kids rest) q))
    unfolding emit_node
    Found-here i h = elim (er.found i (omega (arith, ek.same_count, count1))) [
      | inl f ↦ inl (record {
        tail = f.tail;
        leaf = f.leaf;
        prefix_len = f.prefix_len;
        spells = inr (inr f.spells);
        stored = f.stored;
        reads = f.reads;
      })
      | inr (e3, not_rest) ↦ elim (ek.found i (omega (arith, count1))) [
        | inl f ↦ inl (record {
          tail = tokens ++ f.tail;
          leaf = f.leaf;
          prefix_len = f.prefix_len;
          spells = inr (inl (f.tail, f.spells, refl));
          stored = e3 ∙ f.stored;
          reads = rw (sym (append_assoc front tokens f.tail)) (Reads-Emitted er f.reads);
        })
        | inr (e2, not_kids) ↦
            elim (set_leaves-get owners (some (length s.nodes), prefix_len) s.path_to_leaf i h) [
              | inl (o, e1) ↦ inl (record {
                tail = tokens;
                leaf = length s.nodes;
                prefix_len = prefix_len;
                spells = inl (o, refl);
                stored = e3 ∙ e2 ∙ e1;
                reads = Reads-Emitted er (Reads-Emitted ek emit_node-Reads);
              })
              | inr (not_owner, e1) ↦ inr (
                e3 ∙ e2 ∙ e1,
                λ q sp. elim sp [
                  | inl (o, _) ↦ not_owner o
                  | inr (inl (t, k, _)) ↦ not_kids t k
                  | inr (inr k) ↦ not_rest q k
                ],
              )
            ]
      ]
    ]
      where
        count1 : length s1.path_to_leaf ≡ length s.path_to_leaf
        count1 = length-set_leaves owners (some (length s.nodes), prefix_len) s.path_to_leaf

    Emitted-child : Emitted front (child tokens owners kids rest) s s3
    unfolding emit_node
    Emitted-child = record {
      more = tokens ++ (ek.more ++ er.more);
      later = s1_node ++ (ek.later ++ er.later);
      packed_grows = simp (er.packed_grows, ek.packed_grows, append_assoc);
      nodes_grow = simp (er.nodes_grow, ek.nodes_grow, append_assoc);
      same_count =
          er.same_count
          ∙ ek.same_count
          ∙ length-set_leaves owners (some (length s.nodes), prefix_len) s.path_to_leaf;
      found = Found-here;
    }
      where
        s1_node : List PrefixTreeNode
        s1_node =
            (record { start = length s.packed; end = length (s.packed ++ tokens); parent = parent })
            ∷ []

pub Before-mono : (o : Option ℕ) (m n : ℕ) → m ≤ n → Before o m → Before o n
Before-mono none m n h b = tt
Before-mono (some k) m n h b = omega arith

length-Emitted :
    {front : List ℕ} {cs : Children} {s s' : Layout}
    → Emitted front cs s s'
    → length s.nodes ≤ length s'.nodes
length-Emitted {s = s} e = omega (arith, ap length e.nodes_grow, length-append s.nodes e.later)

Reads-emit_node :
    (tokens owners : List ℕ) (parent : Option ℕ) (prefix_len : ℕ) (s : Layout) {o : Option ℕ}
    {p : List ℕ}
    → Reads s.packed s.nodes o p
    → Reads
        (emit_node tokens owners parent prefix_len s).packed
        (emit_node tokens owners parent prefix_len s).nodes
        o
        p
unfolding emit_node
Reads-emit_node tokens owners parent prefix_len s r = Reads-append tokens _ r

length-emit_node :
    (tokens owners : List ℕ) (parent : Option ℕ) (prefix_len : ℕ) (s : Layout)
    → length (emit_node tokens owners parent prefix_len s).nodes ≡ length s.nodes + 1
unfolding emit_node
length-emit_node tokens owners parent prefix_len s = length-append s.nodes _

pub emit-Emitted :
    (cs : Children) (front : List ℕ) (parent : Option ℕ) (prefix_len : ℕ) (s : Layout)
    → IsFull cs
    → Before parent (length s.nodes)
    → Reads s.packed s.nodes parent front
    → Emitted front cs s (emit cs parent prefix_len s)
unfolding emit
emit-Emitted nil front parent prefix_len s full low r = record {
  more = [];
  later = [];
  packed_grows = sym (append-nil s.packed);
  nodes_grow = sym (append-nil s.nodes);
  same_count = refl;
  found = λ i h. inr (refl, λ q sp. sp);
}
emit-Emitted (child tokens owners kids rest) front parent prefix_len s full low r =
    let s1 = emit_node tokens owners parent prefix_len s in
    let count = length-emit_node tokens owners parent prefix_len s in
    let s2 = emit kids (some (length s.nodes)) (prefix_len + length tokens) s1 in
    let ek =
      emit-Emitted kids (front ++ tokens) (some (length s.nodes)) (prefix_len + length tokens) s1
        full.1 (omega (arith, count))
        (emit_node-Reads front tokens owners parent prefix_len s full.0 low r) in
    Emitted-child front tokens owners parent prefix_len s full.0 low r kids rest s2 _ ek (
      emit-Emitted rest front parent prefix_len s2 full.2
        (Before-mono parent (length s.nodes) (length s2.nodes)
          (omega (arith, count, length-Emitted ek)) low)
        (Reads-Emitted ek (Reads-emit_node tokens owners parent prefix_len s r)))
