-- ===== src/PrefixTree/Layout/Reads.antt =====
-- prefix_tree.py: the tokens that the parents of a node spell.
use axrl.Prelude.{
  ℕ, ◌+◌, ◌<◌, ◌≡◌, ◌≢◌, ap, ◌∙◌, Option, none, some, List, [], ◌++◌, length, get_elem?,
  append_assoc, get_elem?-append_left, get_elem?-lt,
}
use axrl.PrefixTree.Layout.{PrefixTreeNode}

-- A node's index that stands before `n`, or none.
abbrev pub Before : Option ℕ → ℕ → Type 0
Before none n = Unit
Before (some m) n = m < n

-- The node covers the tokens `t` of the packed sequence.
pub record Covers (packed : List ℕ) (nd : PrefixTreeNode) (t : List ℕ) : Type 0 where
  pub before : List ℕ
  pub after : List ℕ
  pub parts : packed ≡ before ++ (t ++ after)
  pub starts : nd.start ≡ length before
  pub ends : nd.end ≡ nd.start + length t

-- From the root down to the node, the nodes cover the tokens `p`.
pub data Reads (packed : List ℕ) (nodes : List PrefixTreeNode) : Option ℕ → List ℕ → Type 0 where
  root : Reads packed nodes none []
  step :
      {n : ℕ} {p t : List ℕ} (nd : PrefixTreeNode)
      → get_elem? nodes n ≡ some nd
      → Before nd.parent n
      → Reads packed nodes nd.parent p
      → Covers packed nd t
      → t ≢ []
      → Reads packed nodes (some n) (p ++ t)

-- What is read stays when nodes and tokens are appended.
pub Reads-append :
    {packed : List ℕ} {nodes : List PrefixTreeNode} {o : Option ℕ} {p : List ℕ} (more : List ℕ)
    (later : List PrefixTreeNode)
    → Reads packed nodes o p
    → Reads (packed ++ more) (nodes ++ later) o p
Reads-append more later root = root
Reads-append {nodes = nodes} more later (step {n = n} {t = t} nd e b r c full) =
    step nd (get_elem?-append_left nodes later n (get_elem?-lt nodes n e) ∙ e) b
      (Reads-append more later r)
      (record {
        before = c.before;
        after = c.after ++ more;
        parts =
            ap (λ u. u ++ more) c.parts
            ∙ append_assoc c.before (t ++ c.after) more
            ∙ ap (λ u. c.before ++ u) (append_assoc t c.after more);
        starts = c.starts;
        ends = c.ends;
      })
      full
