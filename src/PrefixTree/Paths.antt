-- ===== src/PrefixTree/Paths.antt =====
-- prefix_tree.py: which paths a tree holds, and what an insertion does to them.
use axrl.Prelude.{
  ℕ, zero, suc, ◌+◌, ◌≤◌, ◌≡◌, ◌↔◌, refl, ap, sym, ◌∙◌, ◌⊎◌, inl, inr, List, [], ◌∷◌, ◌++◌, length,
  take, drop, arith, take-append-drop, take_of_drop-nil, length-drop, append_assoc, ℕ-cases,
  List-cases,
}
use axrl.PrefixTree.{Children, nil, child, shared_len, Entry, split, insert}
use axrl.PrefixTree.Shared.{take-shared}
use axrl.PrefixTree.Steps.{split_whole, split_below, insert_next, insert_end, insert_below}

abbrev pub Owns : ℕ → List ℕ → Type 0
Owns i [] = ⊥
Owns i (o ∷ os) = (i ≡ o) ⊎ Owns i os

-- Path `i` ends in the tree below `cs`, and the tokens on the way to its node are `path`.
abbrev pub Spells : ℕ → Children → List ℕ → Type 0
Spells i nil path = ⊥
Spells i (child tokens owners kids rest) path =
    (Owns i owners × (path ≡ tokens))
    ⊎ ((tail : List ℕ) × Spells i kids tail × (path ≡ tokens ++ tail))
    ⊎ Spells i rest path

-- The tokens that the nodes of a tree hold.
unfoldable pub total : Children → ℕ
total nil = 0
total (child tokens owners kids rest) = length tokens + total kids + total rest

pub Owns-append : (j i : ℕ) (os : List ℕ) → Owns j os → Owns j (os ++ i ∷ [])
Owns-append j i [] h = elim h [ ]
Owns-append j i (o ∷ os) (inl e) = inl e
Owns-append j i (o ∷ os) (inr h) = inr (Owns-append j i os h)

pub Owns-append_self : (i : ℕ) (os : List ℕ) → Owns i (os ++ i ∷ [])
Owns-append_self i [] = inl refl
Owns-append_self i (o ∷ os) = inr (Owns-append_self i os)

pub Owns-append-inv : (j i : ℕ) (os : List ℕ) → Owns j (os ++ i ∷ []) → Owns j os ⊎ (j ≡ i)
Owns-append-inv j i [] (inl e) = inr e
Owns-append-inv j i [] (inr h) = elim h [ ]
Owns-append-inv j i (o ∷ os) (inl e) = inl (inl e)
Owns-append-inv j i (o ∷ os) (inr h) = elim (Owns-append-inv j i os h) [
  | inl m ↦ inl (inr m)
  | inr e ↦ inr e
]

-- A split changes no path.
module _ (j k : ℕ) (tokens owners : List ℕ) (kids rest : Children) (q : List ℕ) where
  abbrev c : Entry
  c = split k tokens owners kids

  module _ (x : ℕ) (xs : List ℕ) (d : drop k tokens ≡ x ∷ xs) where
    abbrev below : Children
    below = child (x ∷ xs) owners kids nil

    rejoin : take k tokens ++ (x ∷ xs) ≡ tokens
    rejoin = rw (← d) (take-append-drop k tokens)

    rejoin_tail : (tail : List ℕ) → take k tokens ++ ((x ∷ xs) ++ tail) ≡ tokens ++ tail
    rejoin_tail tail = sym (append_assoc (take k tokens) (x ∷ xs) tail) ∙ ap (λ t. t ++ tail) rejoin

    Spells-moved :
        Spells j (child tokens owners kids rest) q
        → Spells j (child (take k tokens) [] below rest) q
    Spells-moved (inl (o, e)) = inr (inl (x ∷ xs, inl (o, refl), e ∙ sym rejoin))
    Spells-moved (inr (inl (tail, s, e))) =
        inr (inl ((x ∷ xs) ++ tail, inr (inl (tail, s, refl)), e ∙ sym (rejoin_tail tail)))
    Spells-moved (inr (inr s)) = inr (inr s)

    Spells-moved-inv :
        Spells j (child (take k tokens) [] below rest) q
        → Spells j (child tokens owners kids rest) q
    Spells-moved-inv (inl (o, e)) = elim o [ ]
    Spells-moved-inv (inr (inl (t, inl (o, e'), e))) =
        inl (o, e ∙ ap (λ u. take k tokens ++ u) e' ∙ rejoin)
    Spells-moved-inv (inr (inl (t, inr (inl (tail, s, e')), e))) =
        inr (inl (tail, s, e ∙ ap (λ u. take k tokens ++ u) e' ∙ rejoin_tail tail))
    Spells-moved-inv (inr (inl (t, inr (inr s), e))) = elim s [ ]
    Spells-moved-inv (inr (inr s)) = inr (inr s)

  pub Spells-split :
      Spells j (child tokens owners kids rest) q ↔ Spells j (child c.tokens c.owners c.kids rest) q
  Spells-split = elim (List-cases (drop k tokens)) [
    | inl d ↦ rw (split_whole k tokens owners kids d) (λ h. h, λ h. h)
    | inr (x, xs, d) ↦
        rw (split_below k tokens owners kids d) (Spells-moved x xs d, Spells-moved-inv x xs d)
  ]

-- After a split at the shared length, the child's tokens are the front of the suffix.
split-tokens :
    (k : ℕ) (tokens owners : List ℕ) (kids : Children) (suffix : List ℕ)
    → shared_len tokens suffix ≡ k
    → (split k tokens owners kids).tokens ≡ take k suffix
split-tokens k tokens owners kids suffix e = elim (List-cases (drop k tokens)) [
  | inl d ↦
      rw (split_whole k tokens owners kids d)
        (sym (take_of_drop-nil k tokens d) ∙ take-shared tokens suffix e)
  | inr (x, xs, d) ↦ rw (split_below k tokens owners kids d) (take-shared tokens suffix e)
]

-- An insertion puts the new path into the tree.
pub insert-Spells_self :
    (f : ℕ) (cs : Children) (y : ℕ) (ys : List ℕ) (i : ℕ)
    → length (y ∷ ys) ≤ f
    → Spells i (insert f cs (y ∷ ys) i).0 (y ∷ ys)
insert-Spells_self zero cs y ys i h = absurd (omega arith)
insert-Spells_self (suc f) nil y ys i h = unfold insert in inl (inl refl, refl)
insert-Spells_self (suc f) (child tokens owners kids rest) y ys i h =
    elim (ℕ-cases (shared_len tokens (y ∷ ys))) [
      | inl e ↦
          rw (insert_next f tokens owners kids rest (y ∷ ys) i e)
            (inr (inr (insert-Spells_self (suc f) rest y ys i h)))
      | inr (k, e) ↦
          let front = split-tokens (suc k) tokens owners kids (y ∷ ys) e in
          elim (List-cases (drop (suc k) (y ∷ ys))) [
            | inl d ↦
                rw (insert_end f tokens owners kids rest (y ∷ ys) i e d)
                  (inl (Owns-append_self i _, sym (front ∙ take_of_drop-nil (suc k) (y ∷ ys) d)))
            | inr (z, zs, d) ↦ rw (insert_below f tokens owners kids rest (y ∷ ys) i e d) (
                inr (
                  inl (
                    z ∷ zs,
                    insert-Spells_self f _ z zs i (omega (arith, ap length d, length-drop k ys)),
                    sym (take-append-drop (suc k) (y ∷ ys))
                        ∙ (ap (λ u. take (suc k) (y ∷ ys) ++ u) d
                            ∙ ap (λ u. u ++ z ∷ zs) (sym front)),
                  )))
          ]
    ]

-- It keeps every path that the tree held.
pub insert-Spells :
    (f : ℕ) (cs : Children) (suffix : List ℕ) (i j : ℕ) (q : List ℕ)
    → Spells j cs q
    → Spells j (insert f cs suffix i).0 q
insert-Spells zero cs suffix i j q h = unfold insert in h
insert-Spells (suc f) nil suffix i j q h = elim h [ ]
insert-Spells (suc f) (child tokens owners kids rest) suffix i j q h =
    elim (ℕ-cases (shared_len tokens suffix)) [
      | inl e ↦ rw (insert_next f tokens owners kids rest suffix i e) (elim h [
        | inl m ↦ inl m
        | inr (inl m) ↦ inr (inl m)
        | inr (inr s) ↦ inr (inr (insert-Spells (suc f) rest suffix i j q s))
      ])
      | inr (k, e) ↦
          let h' = (Spells-split j (suc k) tokens owners kids rest q).0 h in
          elim (List-cases (drop (suc k) suffix)) [
            | inl d ↦
                rw (insert_end f tokens owners kids rest suffix i e d)
                  (elim h' [ inl (o, p) ↦ inl (Owns-append j i _ o, p) | inr m ↦ inr m ])
            | inr (z, zs, d) ↦ rw (insert_below f tokens owners kids rest suffix i e d) (elim h' [
              | inl m ↦ inl m
              | inr (inl (t, s, p)) ↦ inr (inl (t, insert-Spells f _ (z ∷ zs) i j t s, p))
              | inr (inr s) ↦ inr (inr s)
            ])
          ]
    ]

-- It adds nothing else.
pub insert-Spells-inv :
    (f : ℕ) (cs : Children) (suffix : List ℕ) (i j : ℕ) (q : List ℕ)
    → Spells j (insert f cs suffix i).0 q
    → Spells j cs q ⊎ ((j ≡ i) × (q ≡ suffix))
insert-Spells-inv zero cs suffix i j q h = inl (unfold insert in h)
insert-Spells-inv (suc f) nil suffix i j q h =
    let h' : Spells j (child suffix (i ∷ []) nil nil) q = unfold insert in h in
    elim h' [
      | inl (inl e, p) ↦ inr (e, p)
      | inl (inr o, p) ↦ elim o [ ]
      | inr (inl (t, s, p)) ↦ elim s [ ]
      | inr (inr s) ↦ elim s [ ]
    ]
insert-Spells-inv (suc f) (child tokens owners kids rest) suffix i j q h =
    elim (ℕ-cases (shared_len tokens suffix)) [
      | inl e ↦
          let h' : Spells j (child tokens owners kids (insert (suc f) rest suffix i).0) q =
            rw (insert_next f tokens owners kids rest suffix i e) at h in
          elim h' [
            | inl m ↦ inl (inl m)
            | inr (inl m) ↦ inl (inr (inl m))
            | inr (inr s) ↦ elim (insert-Spells-inv (suc f) rest suffix i j q s) [
              | inl s' ↦ inl (inr (inr s'))
              | inr new ↦ inr new
            ]
          ]
      | inr (k, e) ↦
          let front = split-tokens (suc k) tokens owners kids suffix e in
          let c = split (suc k) tokens owners kids in
          let back = (Spells-split j (suc k) tokens owners kids rest q).1 in
          elim (List-cases (drop (suc k) suffix)) [
            | inl d ↦
                let h' : Spells j (child c.tokens (c.owners ++ i ∷ []) c.kids rest) q =
                  rw (insert_end f tokens owners kids rest suffix i e d) at h in
                elim h' [
                  | inl (o, p) ↦ elim (Owns-append-inv j i _ o) [
                    | inl o' ↦ inl (back (inl (o', p)))
                    | inr new ↦ inr (new, p ∙ front ∙ take_of_drop-nil (suc k) suffix d)
                  ]
                  | inr m ↦ inl (back (inr m))
                ]
            | inr (z, zs, d) ↦
                let h' : Spells j (child c.tokens c.owners (insert f c.kids (z ∷ zs) i).0 rest) q =
                  rw (insert_below f tokens owners kids rest suffix i e d) at h in
                elim h' [
                  | inl m ↦ inl (back (inl m))
                  | inr (inl (t, s, p)) ↦ elim (insert-Spells-inv f c.kids (z ∷ zs) i j t s) [
                    | inl s' ↦ inl (back (inr (inl (t, s', p))))
                    | inr (new, et) ↦ inr (
                      new,
                      p
                          ∙ ap (λ u. c.tokens ++ u) (et ∙ sym d)
                          ∙ ap (λ u. u ++ drop (suc k) suffix) front
                          ∙ take-append-drop (suc k) suffix,
                    )
                  ]
                  | inr (inr s) ↦ inl (back (inr (inr s)))
                ]
          ]
    ]
