-- ===== src/OpenshiftClient/Laws.antt =====
-- What a caller of the OpenShift client may rely on.
use mathlib.Core.List.{reverse, reverse-cons, append_assoc}
use fabric8_jenkins_idler.Common.{
  String, GoError, ◌<>◌, contains, nat_beq, true, false, not, List, [], ◌∷◌, ◌++◌, map, select,
  Result, ok, err, IsError, ◌≡◌, refl, sym, ap, subst, ◌∙◌, ◌⊎◌, inl, inr, Bool-cases, Result-cases,
  Option-cases,
}
use fabric8_jenkins_idler.Http.{Response}
use fabric8_jenkins_idler.OpenshiftClient.Requests.{
  no_body, Request, Server, request_url, check_status,
}
use fabric8_jenkins_idler.OpenshiftClient.Calls.{reset, delete_pods}

module _ (srv : Server) (api_url bearer_token namespace : String) where
  -- the DELETE request for a pod
  abbrev pub deletion : String → Request
  deletion pod = record {
    method = "DELETE";
    url = request_url api_url false namespace ("pods/" <> pod);
    authorization = "Bearer " <> bearer_token;
    watch = false;
    headers = [];
    body = no_body;
  }

  -- the GET request for the pods
  abbrev pub list_pods : Request
  list_pods = record {
    method = "GET";
    url = request_url api_url false namespace "pods";
    authorization = "Bearer " <> bearer_token;
    watch = false;
    headers = [];
    body = no_body;
  }

  -- the pods that Reset is to delete
  abbrev pub to_delete : List String → List String
  to_delete = select (λ pod. not (contains pod "deploy"))

  -- The requests are the deletions of the first pods to delete, in order; and all of them, unless
  -- there is an error.
  pub record Deletes (pods : List String) (before : List Request)
      (out : Result (Unit {0}) × List Request) : Type 0 where
    pub sent : List String
    pub unsent : List String
    pub split : to_delete pods ≡ sent ++ unsent
    pub requests : out.1 ≡ reverse (map deletion sent) ++ before
    pub complete : (unsent ≡ []) ⊎ IsError out.0

  abbrev after_pod : List String → List Request → Result (Unit {0}) × List Request
  after_pod pods before = delete_pods srv api_url bearer_token namespace pods before

  -- a pod to delete: no request could be made, or the request failed, or the loop goes on
  delete_one :
      (pod : String) (pods : List String) (before : List Request)
      → contains pod "deploy" ≡ false
      → ((e : GoError) × (after_pod (pod ∷ pods) before ≡ (err e, before)))
        ⊎ ((e : GoError) × (after_pod (pod ∷ pods) before ≡ (err e, deletion pod ∷ before)))
        ⊎ (after_pod (pod ∷ pods) before ≡ after_pod pods (deletion pod ∷ before))
  unfolding delete_pods
  delete_one pod pods before keep =
      elim (Option-cases
        (srv.new_request "DELETE" (request_url api_url false namespace ("pods/" <> pod)))) [
          | inr (e, bad) ↦ inl (e, rw (keep, bad))
          | inl good ↦
              elim (Result-cases
                (check_status (deletion pod) (srv.respond before (deletion pod)))) [
                  | inr (e, bad) ↦ inr (inl (e, rw (keep, good, bad)))
                  | inl (resp, fine) ↦ inr (inr (rw (keep, good, fine)))
                ]
        ]

  skipped :
      (pod : String) (pods : List String) (before : List Request)
      → contains pod "deploy" ≡ true
      → Deletes pods before (after_pod pods before)
      → Deletes (pod ∷ pods) before (after_pod (pod ∷ pods) before)
  unfolding delete_pods
  skipped pod pods before skip d =
      let same : after_pod (pod ∷ pods) before ≡ after_pod pods before = rw (skip, delete_pods) in
      subst (Deletes (pod ∷ pods) before) (sym same) (record {
        sent = d.sent;
        unsent = d.unsent;
        split = rw skip d.split;
        requests = d.requests;
        complete = d.complete;
      })

  one_more :
      (pod : String) (pods : List String) (before : List Request)
      {out : Result (Unit {0}) × List Request}
      → contains pod "deploy" ≡ false
      → Deletes pods (deletion pod ∷ before) out
      → Deletes (pod ∷ pods) before out
  one_more pod pods before keep d = record {
    sent = pod ∷ d.sent;
    unsent = d.unsent;
    split = rw keep (ap (◌∷◌ pod) d.split);
    requests =
        d.requests
        ∙ sym (
            ap (λ x. x ++ before) (reverse-cons (deletion pod) (map deletion d.sent))
            ∙ append_assoc (reverse (map deletion d.sent)) (deletion pod ∷ []) before);
    complete = d.complete;
  }

  stopped :
      (pods : List String) (before : List Request) (e : GoError)
      → Deletes pods before (err e, before)
  stopped pods before e = record {
    sent = [];
    unsent = to_delete pods;
    split = refl;
    requests = refl;
    complete = inr tt;
  }

  pub delete_pods-Deletes :
      (pods : List String) (before : List Request) → Deletes pods before (after_pod pods before)
  delete_pods-Deletes [] before =
      unfold delete_pods in
      record { sent = []; unsent = []; split = refl; requests = refl; complete = inl refl }
  delete_pods-Deletes (pod ∷ pods) before = elim (Bool-cases (contains pod "deploy")) [
    | inl skip ↦ skipped pod pods before skip (delete_pods-Deletes pods before)
    | inr keep ↦ elim (delete_one pod pods before keep) [
      | inl (e, r) ↦ subst (Deletes (pod ∷ pods) before) (sym r) (stopped (pod ∷ pods) before e)
      | inr (inl (e, r)) ↦ subst (Deletes (pod ∷ pods) before) (sym r) (record {
        sent = pod ∷ [];
        unsent = to_delete pods;
        split = rw keep;
        requests = refl;
        complete = inr tt;
      })
      | inr (inr r) ↦
          subst (Deletes (pod ∷ pods) before) (sym r)
            (one_more pod pods before keep (delete_pods-Deletes pods (deletion pod ∷ before)))
    ]
  ]

  -- After Reset, either it failed before it had a list of pods and sent at most the GET request for it;
  -- or it got a list, and after the GET request it sent DELETE requests for the first pods of the list
  -- whose names do not contain `deploy`, in the list's order, and for all of these if it returns nil.
  pub reset-Deletes :
      (before : List Request)
      → (IsError (reset srv api_url bearer_token namespace before).0
          × (((reset srv api_url bearer_token namespace before).1 ≡ before)
              ⊎ ((reset srv api_url bearer_token namespace before).1 ≡ list_pods ∷ before)))
        ⊎ ((resp : Response) × (b : String) × (pods : List String) × (srv.respond before list_pods
              ≡ ok resp)
            × (resp.body ≡ ok b)
            × (srv.decode_pods b ≡ ok pods)
            × Deletes pods (list_pods ∷ before) (reset srv api_url bearer_token namespace before))
  unfolding reset
  reset-Deletes before =
      elim (Option-cases (srv.new_request "GET" (request_url api_url false namespace "pods"))) [
        | inr (e, bad) ↦ inl (rw bad tt, inl (rw bad))
        | inl good ↦ elim (Result-cases (srv.respond before list_pods)) [
          | inr (e, bad) ↦ inl (rw (good, bad) tt, inr (rw (good, bad)))
          | inl (resp, answered) ↦ elim (Bool-cases (nat_beq resp.status_code 200)) [
            | inr refused ↦
                inl (rw (good, answered, refused) tt, inr (rw (good, answered, refused)))
            | inl fine ↦ elim (Result-cases resp.body) [
              | inr (e, bad) ↦
                  inl (rw (good, answered, fine, bad) tt, inr (rw (good, answered, fine, bad)))
              | inl (b, read) ↦ elim (Result-cases (srv.decode_pods b)) [
                | inr (e, bad) ↦ inl (
                  rw (good, answered, fine, read, bad) tt,
                  inr (rw (good, answered, fine, read, bad)),
                )
                | inl (pods, decoded) ↦ inr (
                  resp,
                  b,
                  pods,
                  answered,
                  read,
                  decoded,
                  rw (good, answered, fine, read, decoded)
                      (delete_pods-Deletes pods (list_pods ∷ before)),
                )
              ]
            ]
          ]
        ]
      ]
