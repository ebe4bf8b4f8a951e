-- ===== src/Common/Lists.antt =====
-- Go slices as lists: length, membership by a predicate, and the first entry that passes a test.
use Prim.Native.Nat.{ℕ, suc, ◌+◌}
use mathlib.Core.Path.{◌≡◌, ap}
use mathlib.Core.Logic.{◌⊎◌, inl, inr}
use mathlib.Core.Bool.{Bool, true, false}
use mathlib.Core.Option.{Option, none, some}
use mathlib.Core.List.{List, [], ◌∷◌, ◌++◌}
use native.Mathlib.Omega.{arith}
use fabric8_jenkins_idler.Common.Tests.{if◌then◌else◌, Bool-cases}

module _ {ℓ} {A : Type ℓ} where
  abbrev pub length : List A → ℕ
  length [] = 0
  length (x ∷ xs) = suc (length xs)

  pub length-append : (xs ys : List A) → length (xs ++ ys) ≡ length xs + length ys
  length-append [] ys = omega arith
  length-append (x ∷ xs) ys = omega (arith, length-append xs ys)

  abbrev pub All {κ} : (A → Type κ) → List A → Type κ
  All P [] = Unit
  All P (x ∷ xs) = P x × All P xs

  pub All-mono {κ ν} :
      {P : A → Type κ} {Q : A → Type ν}
      → ((x : A) → P x → Q x)
      → (xs : List A) → All P xs
      → All Q xs
  All-mono f [] h = tt
  All-mono f (x ∷ xs) h = (f x h.0, All-mono f xs h.1)

  abbrev pub Any : (A → Type 0) → List A → Type 0
  Any P [] = ⊥
  Any P (x ∷ xs) = P x ⊎ Any P xs

  -- `for _, x := range xs { if test(x) { return x } }`
  abbrev pub find_first : (A → Bool) → List A → Option A
  find_first test [] = none
  find_first test (x ∷ xs) = if test x then some x else find_first test xs

  -- the entries that pass a test, in order
  abbrev pub select : (A → Bool) → List A → List A
  select test [] = []
  select test (x ∷ xs) = let rest = select test xs in if test x then x ∷ rest else rest

  -- `x` is the first entry that passes the test
  pub record IsFirst (test : A → Bool) (xs : List A) (x : A) : Type ℓ where
    pub before : List A
    pub behind : List A
    pub split : xs ≡ before ++ x ∷ behind
    pub passes : test x ≡ true
    pub others_fail : All (λ y. test y ≡ false) before

  pub find_first-IsFirst :
      (test : A → Bool) (xs : List A) (x : A) → find_first test xs ≡ some x → IsFirst test xs x
  find_first-IsFirst test [] x h = cc
  find_first-IsFirst test (y ∷ xs) x h = elim (Bool-cases (test y)) [
    | inl e ↦
        let same : y ≡ x = ground arith in
        record {
          before = [];
          behind = xs;
          split = rw same;
          passes = rw (← same) e;
          others_fail = tt;
        }
    | inr e ↦
        let rest = find_first-IsFirst test xs x (ground arith) in
        record {
          before = y ∷ rest.before;
          behind = rest.behind;
          split = ap (◌∷◌ y) rest.split;
          passes = rest.passes;
          others_fail = (e, rest.others_fail);
        }
  ]

  pub find_first-none :
      (test : A → Bool) (xs : List A) → find_first test xs ≡ none → All (λ y. test y ≡ false) xs
  find_first-none test [] h = tt
  find_first-none test (y ∷ xs) h = elim (Bool-cases (test y)) [
    | inl e ↦ absurd (ground arith)
    | inr e ↦ (e, find_first-none test xs (ground arith))
  ]
