-- ===== src/Prelude/Dicts.antt =====
-- A Python dict with keys that are only compared, in insertion order: a list of pairs.
use Prim.Native.Nat.{ℕ, ◌+◌}
use mathlib.Core.Path.{◌≡◌, refl, ap, sym, ◌∙◌, subst}
use mathlib.Core.Logic.{inl, inr}
use mathlib.Core.Bool.{true, false}
use mathlib.Core.Option.{Option, none, some}
use mathlib.Core.List.{List, [], ◌∷◌}
use native.Mathlib.Omega.{arith}
use axrl.Prelude.Tests.{◌==◌, if◌then◌else◌, Bool-cases, some-eq}
use axrl.Prelude.Lists.{length, All}

module _ {ℓ} {Value : Type ℓ} where
  -- `d.get(key)`
  abbrev pub dict_get : List (ℕ × Value) → ℕ → Option Value
  dict_get [] key = none
  dict_get (entry ∷ d) key = if entry.0 == key then some entry.1 else dict_get d key

  -- `d[key] = value`
  abbrev pub dict_set : List (ℕ × Value) → ℕ → Value → List (ℕ × Value)
  dict_set [] key value = (key, value) ∷ []
  dict_set (entry ∷ d) key value =
      if entry.0 == key then (key, value) ∷ d else entry ∷ dict_set d key value

  -- What `d.pop(key, None)` leaves.
  abbrev pub dict_pop : List (ℕ × Value) → ℕ → List (ℕ × Value)
  dict_pop [] key = []
  dict_pop (entry ∷ d) key = if entry.0 == key then d else entry ∷ dict_pop d key

  pub dict_get-set_same :
      (d : List (ℕ × Value)) (key : ℕ) (value : Value)
      → dict_get (dict_set d key value) key ≡ some value
  dict_get-set_same [] key value = let e : (key == key) ≡ true = ground arith in rw e refl
  dict_get-set_same (entry ∷ d) key value = elim (Bool-cases (entry.0 == key)) [
    | inl e ↦ let s : (key == key) ≡ true = ground arith in rw (e, s) refl
    | inr e ↦ rw (e, e) (dict_get-set_same d key value)
  ]

  pub dict_get-set_other :
      (d : List (ℕ × Value)) (key other : ℕ) (value : Value)
      → (key == other) ≡ false
      → dict_get (dict_set d key value) other ≡ dict_get d other
  dict_get-set_other [] key other value n = rw n refl
  dict_get-set_other (entry ∷ d) key other value n = elim (Bool-cases (entry.0 == key)) [
    | inl e ↦ let o : (entry.0 == other) ≡ false = ground (arith, e, n) in rw (e, n, o) refl
    | inr e ↦ elim (Bool-cases (entry.0 == other)) [
      | inl o ↦ rw (e, o) refl
      | inr o ↦ rw (e, o) (dict_get-set_other d key other value n)
    ]
  ]

  pub length-dict_set_fresh :
      (d : List (ℕ × Value)) (key : ℕ) (value : Value)
      → dict_get d key ≡ none
      → length (dict_set d key value) ≡ length d + 1
  length-dict_set_fresh [] key value h = refl
  length-dict_set_fresh (entry ∷ d) key value h = elim (Bool-cases (entry.0 == key)) [
    | inl e ↦ let h' : some entry.1 ≡ none = rw e at h in cc
    | inr e ↦
        let h' : dict_get d key ≡ none = rw e at h in
        rw e (omega (arith, length-dict_set_fresh d key value h'))
  ]

  pub length-dict_pop :
      (d : List (ℕ × Value)) (key : ℕ) {value : Value}
      → dict_get d key ≡ some value
      → length (dict_pop d key) + 1 ≡ length d
  length-dict_pop [] key h = cc
  length-dict_pop (entry ∷ d) key {value = value} h = elim (Bool-cases (entry.0 == key)) [
    | inl e ↦ rw e (omega arith)
    | inr e ↦
        let h' : dict_get d key ≡ some value = rw e at h in
        rw e (omega (arith, length-dict_pop d key h'))
  ]

  -- What was written under a key is gone with it.
  pub dict_pop-set :
      (d : List (ℕ × Value)) (key : ℕ) (value : Value)
      → dict_pop (dict_set d key value) key ≡ dict_pop d key
  dict_pop-set [] key value = let s : (key == key) ≡ true = ground arith in rw s refl
  dict_pop-set (entry ∷ d) key value = elim (Bool-cases (entry.0 == key)) [
    | inl e ↦ let s : (key == key) ≡ true = ground arith in rw (e, s) refl
    | inr e ↦ rw (e, e) (ap (◌∷◌ entry) (dict_pop-set d key value))
  ]

  pub dict_get-pop_other :
      (d : List (ℕ × Value)) (key other : ℕ)
      → (key == other) ≡ false
      → dict_get (dict_pop d key) other ≡ dict_get d other
  dict_get-pop_other [] key other n = refl
  dict_get-pop_other (entry ∷ d) key other n = elim (Bool-cases (entry.0 == key)) [
    | inl e ↦ let o : (entry.0 == other) ≡ false = ground (arith, e, n) in rw (e, o) refl
    | inr e ↦ elim (Bool-cases (entry.0 == other)) [
      | inl o ↦ rw (e, o) refl
      | inr o ↦ rw (e, o) (dict_get-pop_other d key other n)
    ]
  ]

  -- No key stands twice.
  abbrev pub Distinct : List (ℕ × Value) → Type ℓ
  Distinct [] = Unit
  Distinct (entry ∷ d) = (dict_get d entry.0 ≡ none) × Distinct d

  pub Distinct-dict_set :
      (d : List (ℕ × Value)) (key : ℕ) (value : Value)
      → Distinct d
      → Distinct (dict_set d key value)
  Distinct-dict_set [] key value h = (refl, tt)
  Distinct-dict_set (entry ∷ d) key value h = elim (Bool-cases (entry.0 == key)) [
    | inl e ↦
        let same : entry.0 ≡ key = ground (arith, e) in rw e (ap (dict_get d) (sym same) ∙ h.0, h.1)
    | inr e ↦
        let other : (key == entry.0) ≡ false = ground (arith, e) in
        rw e (dict_get-set_other d key entry.0 value other ∙ h.0, Distinct-dict_set d key value h.1)
  ]

  pub dict_get-pop_same :
      (d : List (ℕ × Value)) (key : ℕ) → Distinct d → dict_get (dict_pop d key) key ≡ none
  dict_get-pop_same [] key h = refl
  dict_get-pop_same (entry ∷ d) key h = elim (Bool-cases (entry.0 == key)) [
    | inl e ↦ let same : key ≡ entry.0 = ground (arith, e) in rw e (ap (dict_get d) same ∙ h.0)
    | inr e ↦ rw (e, e) (dict_get-pop_same d key h.1)
  ]

  pub Distinct-dict_pop : (d : List (ℕ × Value)) (key : ℕ) → Distinct d → Distinct (dict_pop d key)
  Distinct-dict_pop [] key h = h
  Distinct-dict_pop (entry ∷ d) key h = elim (Bool-cases (entry.0 == key)) [
    | inl e ↦ rw e h.1
    | inr e ↦
        let other : (key == entry.0) ≡ false = ground (arith, e) in
        rw e (dict_get-pop_other d key entry.0 other ∙ h.0, Distinct-dict_pop d key h.1)
  ]

  -- What holds of every value, after a write and a removal.
  pub All-dict_set {κ} :
      (P : ℕ × Value → Type κ) (d : List (ℕ × Value)) (key : ℕ) (value : Value)
      → All P d
      → P (key, value)
      → All P (dict_set d key value)
  All-dict_set P [] key value h p = (p, tt)
  All-dict_set P (entry ∷ d) key value h p = elim (Bool-cases (entry.0 == key)) [
    | inl e ↦ rw e (p, h.1)
    | inr e ↦ rw e (h.0, All-dict_set P d key value h.1 p)
  ]

  pub All-dict_pop {κ} :
      (P : ℕ × Value → Type κ) (d : List (ℕ × Value)) (key : ℕ) → All P d → All P (dict_pop d key)
  All-dict_pop P [] key h = h
  All-dict_pop P (entry ∷ d) key h = elim (Bool-cases (entry.0 == key)) [
    | inl e ↦ rw e h.1
    | inr e ↦ rw e (h.0, All-dict_pop P d key h.1)
  ]

  pub All-dict_get {κ} :
      (P : ℕ × Value → Type κ) (d : List (ℕ × Value)) (key : ℕ) {value : Value}
      → All P d
      → dict_get d key ≡ some value
      → P (key, value)
  All-dict_get P [] key h e = cc
  All-dict_get P (entry ∷ d) key {value = value} h e = elim (Bool-cases (entry.0 == key)) [
    | inl same ↦
        let k : entry.0 ≡ key = ground (arith, same) in
        let e' : some entry.1 ≡ some value = rw same at e in
        subst P (ap (λ k. (k, entry.1)) k ∙ ap (λ v. (key, v)) (some-eq e')) h.0
    | inr other ↦ All-dict_get P d key h.1 (rw other at e)
  ]
