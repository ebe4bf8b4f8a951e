-- ===== src/UserIdler/Loop/Order.antt =====
-- The channel of a user idler: the users are received in the order in which they were sent.
use mathlib.Core.List.{append-nil, append_assoc}
use fabric8_jenkins_idler.Common.{
  ◌+◌, ltb, List, [], ◌∷◌, ◌++◌, some, length, length-append, OnSome, OnSome-if, OnSome-some, ◌≡◌,
  ◌∙◌, refl, sym, ap, subst, arith,
}
use fabric8_jenkins_idler.Model.{User}
use fabric8_jenkins_idler.UserIdler.Interfaces.{Services}
use fabric8_jenkins_idler.UserIdler.Defs.{reset_counters}
use fabric8_jenkins_idler.UserIdler.Requests.{check_idle_keeps_builds}
use fabric8_jenkins_idler.UserIdler.Loop.{
  Routine, Event, send, receive, timer, ticker, done, step, receive_first, run, buffer_size,
}
use fabric8_jenkins_idler.UserIdler.Loop.Laws.{receives, run-cons, received}

abbrev pub last_user : User → List User → User
last_user u [] = u
last_user u (v ∷ vs) = last_user v vs

-- the same user, but for the time of the last update and the idle status
abbrev pub SameBuilds : User → User → Type 0
SameBuilds u v =
    (u.active_build ≡ v.active_build) × (u.done_build ≡ v.done_build) × (u.name ≡ v.name)

last_user-SameBuilds :
    (u v : User) (us : List User) → SameBuilds u v → SameBuilds (last_user u us) (last_user v us)
last_user-SameBuilds u v [] h = h
last_user-SameBuilds u v (w ∷ us) h = (refl, refl, refl)

SameBuilds-trans : (u v w : User) → SameBuilds u v → SameBuilds v w → SameBuilds u w
SameBuilds-trans u v w (a, b, c) (a', b', c') = (a ∙ a', b ∙ b', c ∙ c')

last_user-append :
    (u : User) (us vs : List User) → last_user u (us ++ vs) ≡ last_user (last_user u us) vs
last_user-append u [] vs = refl
last_user-append u (w ∷ us) vs = last_user-append w us vs

-- the users that were put into the channel in a run, in order
abbrev pub users_sent : List Event → List User
users_sent [] = []
users_sent (send u ∷ es) = u ∷ users_sent es
users_sent (_ ∷ es) = users_sent es

users_sent-cons :
    (e : Event) (es : List Event) → users_sent (e ∷ es) ≡ users_sent (e ∷ []) ++ users_sent es
users_sent-cons (send u) es = refl
users_sent-cons _ es = refl

receives_first : (e : Event) (es : List Event) → receives (e ∷ es) ≡ receives (e ∷ []) + receives es
receives_first receive es = omega arith
receives_first _ es = omega arith

-- The users that a run received: the first of those that waited and of those that were sent. The rest
-- waits at the end, and the idler has the last one that was received, or else its own.
pub record IsReceived (r q : Routine) (es : List Event) : Type 0 where
  pub got : List User
  pub number : length got ≡ receives es
  pub order : r.queue ++ users_sent es ≡ got ++ q.queue
  pub up_to_date : SameBuilds q.machine.user (last_user r.machine.user got)

receive_first-IsReceived :
    (sv : Services) (r : Routine) (us : List User)
    → r.queue ≡ us
    → OnSome (λ p. IsReceived r p (receive ∷ [])) (receive_first sv us r)
receive_first-IsReceived sv r [] e = tt
receive_first-IsReceived sv r (u ∷ us) e = record {
  got = u ∷ [];
  number = refl;
  order = append-nil r.queue ∙ e;
  up_to_date = check_idle_keeps_builds sv (received sv r u);
}

step-IsReceived :
    (sv : Services) (r : Routine) (e : Event) → OnSome (λ p. IsReceived r p (e ∷ [])) (step sv r e)
unfolding step reset_counters
step-IsReceived sv r (send u) =
    OnSome-if _ (ltb (length r.queue) buffer_size) _ _
      (record { got = []; number = refl; order = refl; up_to_date = (refl, refl, refl) }) tt
step-IsReceived sv r receive =
    OnSome-if _ r.running _ _ (receive_first-IsReceived sv r r.queue refl) tt
step-IsReceived sv r timer =
    OnSome-if _ r.running _ _
      (OnSome-if _ r.armed _ _
        (record {
          got = [];
          number = refl;
          order = append-nil r.queue;
          up_to_date = check_idle_keeps_builds sv r.machine;
        })
        tt)
      tt
step-IsReceived sv r ticker =
    OnSome-if _ r.running _ _
      (record {
        got = [];
        number = refl;
        order = append-nil r.queue;
        up_to_date = (refl, refl, refl);
      })
      tt
step-IsReceived sv r done =
    OnSome-if _ r.running _ _
      (record {
        got = [];
        number = refl;
        order = append-nil r.queue;
        up_to_date = (refl, refl, refl);
      })
      tt

IsReceived-cons :
    (r p q : Routine) (e : Event) (es : List Event)
    → IsReceived r p (e ∷ [])
    → IsReceived p q es
    → IsReceived r q (e ∷ es)
IsReceived-cons r p q e es a b = record {
  got = a.got ++ b.got;
  number = omega (arith, length-append a.got b.got, a.number, b.number, receives_first e es);
  order =
      ap (λ us. r.queue ++ us) (users_sent-cons e es)
      ∙ sym (append_assoc r.queue (users_sent (e ∷ [])) (users_sent es))
      ∙ ap (λ us. us ++ users_sent es) a.order
      ∙ append_assoc a.got p.queue (users_sent es)
      ∙ ap (λ us. a.got ++ us) b.order
      ∙ sym (append_assoc a.got b.got q.queue);
  up_to_date = rw (last_user-append r.machine.user a.got b.got) (
      SameBuilds-trans q.machine.user (last_user p.machine.user b.got)
        (last_user (last_user r.machine.user a.got) b.got) b.up_to_date
        (last_user-SameBuilds p.machine.user (last_user r.machine.user a.got) b.got a.up_to_date));
}

-- In every run of the goroutine, the users that it received are as many as its receives, and they are
-- the first of those that waited in the channel at the start, followed by those that were sent, in that
-- order. The others wait in the channel at the end, in the same order: none is lost or received twice.
-- And the idler has the builds and the name of the last user that was received, or, if none was, those
-- that it had.
pub run-IsReceived :
    (sv : Services) (r q : Routine) (es : List Event) → run sv r es ≡ some q → IsReceived r q es
unfolding run
run-IsReceived sv r q [] h =
    let same : r ≡ q = cc in
    subst (λ q. IsReceived r q []) same
      (record {
        got = [];
        number = refl;
        order = append-nil r.queue;
        up_to_date = (refl, refl, refl);
      })
run-IsReceived sv r q (e ∷ es) h =
    let (p, moved, rest) = run-cons sv r q e es h in
    IsReceived-cons r p q e es
      (OnSome-some (λ p. IsReceived r p (e ∷ [])) (step sv r e) p (step-IsReceived sv r e) moved)
      (run-IsReceived sv p q es rest)
