-- ===== src/Condition/Combined.antt =====
-- How the map of conditions joins the answers of its conditions.
use mathlib.Core.List.{Perm, Permᴰ, append-nil, append_assoc}
use native.Mathlib.Nat.{le_trans}
use mathlib.Core.Logic.{∥∥₁_elim}
use fabric8_jenkins_idler.Common.{
  String, ◌≤◌, ◌≡◌, refl, sym, ap, subst, ◌∙◌, ◌⊎◌, inl, inr, [], ◌∷◌, ◌++◌, Option, none, some,
  arith, All, All-mono, Any, GoError,
}
use fabric8_jenkins_idler.Util.{MultiError, collect}
use fabric8_jenkins_idler.Model.{User}
use fabric8_jenkins_idler.Condition.Defs.{
  Action, no_action, rank, Target, user, other, Verdict, Condition, Conditions, Outside, eval_one,
  raise, eval_loop, eval,
}

pub Action-set : IsSet Action
Action-set = hlevel

module _ (o : Outside) (t : Target) where
  -- what one entry of the map answers
  abbrev pub verdict : String × Condition → Verdict
  verdict (name, c) = eval_one o name c t

  -- the errors of the conditions, in the order of the map
  abbrev pub errors_of : Conditions → MultiError
  errors_of [] = []
  errors_of (c ∷ cs) = collect (verdict c).1 [] ++ errors_of cs

  -- the greatest of the answers
  abbrev pub greatest : Conditions → Action
  greatest [] = no_action
  greatest (c ∷ cs) = raise (greatest cs) (verdict c).0

raise_bounds : (a b : Action) → (rank a ≤ rank (raise a b)) × (rank b ≤ rank (raise a b))
raise_bounds a b = ground arith

raise_choice : (a b : Action) → (raise a b ≡ a) ⊎ (raise a b ≡ b)
raise_choice a b = ground arith

raise_swap : (a b c : Action) → raise (raise a b) c ≡ raise (raise a c) b
raise_swap a b c = ground arith

raise_comm : (a b : Action) → raise a b ≡ raise b a
raise_comm a b = ground arith

raise_assoc : (a b c : Action) → raise (raise a b) c ≡ raise a (raise c b)
raise_assoc a b c = ground arith

raise_no_action : (a : Action) → raise no_action a ≡ a
raise_no_action a = ground arith

module _ (o : Outside) (t : Target) where
  loop_action :
      (cs : Conditions) (r : Action) (es : MultiError)
      → (eval_loop o t cs r es).0 ≡ raise r (greatest o t cs)
  unfolding eval_loop
  loop_action [] r es = ground arith
  loop_action (c ∷ cs) r es =
      loop_action cs (raise r (verdict o t c).0) (collect (verdict o t c).1 es)
      ∙ raise_assoc r (verdict o t c).0 (greatest o t cs)

  collect_end :
      (e : Option GoError) (es rest : MultiError)
      → collect e es ++ rest ≡ es ++ (collect e [] ++ rest)
  unfolding collect
  collect_end none es rest = refl
  collect_end (some e) es rest = append_assoc es (e ∷ []) rest

  loop_errors :
      (cs : Conditions) (r : Action) (es : MultiError)
      → (eval_loop o t cs r es).1 ≡ es ++ errors_of o t cs
  unfolding eval_loop
  loop_errors [] r es = sym (append-nil es)
  loop_errors (c ∷ cs) r es =
      loop_errors cs (raise r (verdict o t c).0) (collect (verdict o t c).1 es)
      ∙ collect_end (verdict o t c).1 es (errors_of o t cs)

  greatest_bound : (cs : Conditions) → All (λ c. rank (verdict o t c).0 ≤ rank (greatest o t cs)) cs
  greatest_bound [] = tt
  greatest_bound (c ∷ cs) = (
    (raise_bounds (greatest o t cs) (verdict o t c).0).1,
    All-mono (λ d h. le_trans h (raise_bounds (greatest o t cs) (verdict o t c).0).0) cs
        (greatest_bound cs),
  )

  -- `a` is an answer of the map
  abbrev pub Answers : Conditions → Action → Type 0
  Answers cs a = (a ≡ no_action) ⊎ Any (λ c. (verdict o t c).0 ≡ a) cs

  greatest_answer : (cs : Conditions) → Answers cs (greatest o t cs)
  greatest_answer [] = inl refl
  greatest_answer (c ∷ cs) = elim (raise_choice (greatest o t cs) (verdict o t c).0) [
    | inl e ↦
        subst (Answers (c ∷ cs)) (sym e)
          (elim (greatest_answer cs) [ inl n ↦ inl n | inr a ↦ inr (inr a) ])
    | inr e ↦ inr (inl (sym e))
  ]

  greatest_perm : {cs ds : Conditions} → Permᴰ cs ds → greatest o t cs ≡ greatest o t ds
  greatest_perm Permᴰ.nil = refl
  greatest_perm (Permᴰ.cons e p) = cc (e, greatest_perm p)
  greatest_perm (Permᴰ.swap {l = l} e f) =
      rw (e, f) (raise_swap (greatest o t l) (verdict o t _).0 (verdict o t _).0)
  greatest_perm (Permᴰ.trans p q) = greatest_perm p ∙ greatest_perm q

-- For a user the map answers with the greatest of its conditions' answers (no action where there is
-- none), and reports each condition's error, in the map's order.
pub eval_greatest :
    (o : Outside) (cs : Conditions) (u : User)
    → let r = eval o cs (user u) in
      All (λ c. rank (verdict o (user u) c).0 ≤ rank r.0) cs
      × Answers o (user u) cs r.0
      × (r.1 ≡ errors_of o (user u) cs)
unfolding eval
eval_greatest o cs u =
    rw (loop_action o (user u) cs no_action [], raise_no_action (greatest o (user u) cs))
      (
        greatest_bound o (user u) cs,
        greatest_answer o (user u) cs,
        loop_errors o (user u) cs no_action [],
      )

-- The action that the map answers with is the same for two orders of the same conditions, for a
-- user and for a value of another type. (Go visits a map in no fixed order.)
pub eval-perm :
    (o : Outside) (cs ds : Conditions) (t : Target) → Perm cs ds → (eval o cs t).0 ≡ (eval o ds t).0
unfolding eval
eval-perm o cs ds (other n) p = refl
eval-perm o cs ds (user u) p = ∥∥₁_elim p (Action-set _ _) λ q.
    loop_action o (user u) cs no_action []
    ∙ ap (raise no_action) (greatest_perm o (user u) q)
    ∙ sym (loop_action o (user u) ds no_action [])
