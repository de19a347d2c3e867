-- ===== src/PrefixTree/Positions/Segments.antt =====
-- prefix_tree.py: what the segments of a path read.
use mathlib.Core.Path.{subst}
use axrl.Prelude.{
  ℕ, ◌+◌, ◌-◌, ◌≤◌, ◌<◌, ◌≡◌, refl, inl, inr, List, [], ◌∷◌, Bool-cases, ok, >>=-eq-ok, ok-eq, min,
  arith, ◌==◌, get_elem?, All, All-get_elem?, >>=-ok,
}
use axrl.PrefixTree.Layout.{PrefixTreeNode}
use axrl.PrefixTree.Ranges.{looked_up, chain_len}
use axrl.PrefixTree.Ranges.Shifted.{looked_up-eq-ok}
use axrl.PrefixTree.Positions.{Segment, segments_of}

-- Segments that follow one another in one path: they start at `read`, none is empty, and they stop
-- at `stop`.
abbrev pub Follow : ℕ → ℕ → List Segment → ℕ → Type 0
Follow path read [] stop = read ≡ stop
Follow path read (s ∷ segments) stop =
    (s.path_idx ≡ path)
    × (s.read_start ≡ read)
    × (0 < s.take)
    × Follow path (read + s.take) segments stop

-- The segments of a path's chain read the path from where it is without a gap, and stop at the end
-- of the path or of the chain, whichever comes first. Every node of the tree has a token, and those
-- of the chain are there, with `total` tokens together.
pub segments_of-Follow :
    (nodes : List PrefixTreeNode) (path path_len read total : ℕ) (chain : List ℕ)
    → read ≤ path_len
    → All (λ nd. nd.start < nd.end) nodes
    → chain_len nodes chain ≡ ok total
    → (segments : List Segment) × (segments_of nodes path path_len read chain ≡ ok segments)
      × Follow path read segments (min path_len (read + total))
unfolding segments_of chain_len
segments_of-Follow nodes path path_len read total [] le full h = ([], refl, omega (arith, ok-eq h))
segments_of-Follow nodes path path_len read total (n ∷ chain) le full h =
    let (nd, e, h) = >>=-eq-ok (looked_up (get_elem? nodes n)) _ h in
    let (later, g, h) = >>=-eq-ok (chain_len nodes chain) _ h in
    let some_token : nd.start < nd.end =
      All-get_elem? (λ nd. nd.start < nd.end) nodes n full
        (looked_up-eq-ok (get_elem? nodes n) e) in
    let width = ok-eq h in
    let taken = min (nd.end - nd.start) (path_len - read) in
    elim (Bool-cases (taken == 0)) [
      | inl z ↦ (
        [],
        >>=-ok (looked_up (get_elem? nodes n)) _ e (rw z refl),
        (let none_left : taken ≡ 0 = ground (arith, z) in omega (arith, none_left, some_token, le)),
      )
      | inr nz ↦
          let (rest, run, follow) =
            segments_of-Follow nodes path path_len (read + taken) later chain (omega (arith, le))
              full g in
          let stops : min path_len (read + taken + later) ≡ min path_len (read + total) =
            omega (arith, width, le) in
          (
            record { path_idx = path; write_start = nd.start; read_start = read; take = taken }
                ∷ rest,
            >>=-ok (looked_up (get_elem? nodes n)) _ e (rw (nz, run) refl),
            (refl, refl, ground (arith, nz), subst (Follow path (read + taken) rest) stops follow),
          )
    ]
