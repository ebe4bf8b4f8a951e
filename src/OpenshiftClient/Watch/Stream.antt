-- ===== src/OpenshiftClient/Watch/Stream.antt =====
-- What the callback of a watch is handed: the wanted objects of the part of a stream that can be read.
use fabric8_jenkins_idler.Common.{
  String, GoError, ◌==◌, eq_iff, has_suffix, nat_beq, Option, none, some, arith, ◌≢◌, Bool, true,
  false, List, [], ◌∷◌, ◌++◌, Result, ok, IsError, map, select, ◌≡◌, refl, ap, ◌⊎◌, inl, inr, All,
  Bool-cases, Result-cases,
}
use fabric8_jenkins_idler.OpenshiftClient.Watch.{
  Read, ends, read_lines, keep, Connection, failed, opened, read_connection, watch, watch_builds,
  watch_deployment_configs,
}
use fabric8_jenkins_idler.Http.{status_ok}
use fabric8_jenkins_idler.Model.{Object, DcObject}

-- the errors that end a stream, by their texts
abbrev pub Ended : Option GoError → Type 0
Ended e = (e ≡ some "EOF") ⊎ (e ≡ some "unexpected EOF")

abbrev pub Open : Option GoError → Type 0
Open e = (e ≢ some "EOF") × (e ≢ some "unexpected EOF")

ends-Ended : (e : Option GoError) → ends e ≡ true → Ended e
ends-Ended none h = cc
ends-Ended (some e) h = elim (Bool-cases (e == "EOF")) [
  | inl is ↦ inl (ap some ((eq_iff e "EOF").0 is))
  | inr is_not ↦ inr (ap some ((eq_iff e "unexpected EOF").0 (ground (arith, is_not))))
]

ends-Open : (e : Option GoError) → ends e ≡ false → Open e
ends-Open e h = (λ is. cc (rw is at h), λ is. cc (rw is at h))

module _ {O : Type 0} (unmarshal : String → Result O) (wanted : O → Bool) where
  -- the next read, if there is one, ends the stream or is no object
  abbrev pub Stops : List Read → Type 0
  Stops [] = Unit
  Stops (r ∷ reads) = Ended r.error ⊎ IsError (unmarshal r.line)

  -- the reads up to the first that ends the stream or is no object, their objects, and of these the
  -- wanted ones
  pub record IsHanded (reads : List Read) (out : List O) : Type 0 where
    pub good : List Read
    pub rest : List Read
    pub objects : List O
    pub split : reads ≡ good ++ rest
    pub opened : All (λ r. Open r.error) good
    pub decoded : map (λ r. unmarshal r.line) good ≡ map ok objects
    pub stops : Stops rest
    pub handed : out ≡ select wanted objects

  nothing : (reads : List Read) → Stops reads → IsHanded reads []
  nothing reads s = record {
    good = [];
    rest = reads;
    objects = [];
    split = refl;
    opened = tt;
    decoded = refl;
    stops = s;
    handed = refl;
  }

  next_object :
      (r : Read) (reads : List Read) (o : O) {out : List O}
      → ends r.error ≡ false
      → unmarshal r.line ≡ ok o
      → IsHanded reads out
      → IsHanded (r ∷ reads) (keep unmarshal wanted (ok o) out)
  next_object r reads o open_ e h = record {
    good = r ∷ h.good;
    rest = h.rest;
    objects = o ∷ h.objects;
    split = ap (◌∷◌ r) h.split;
    opened = (ends-Open r.error open_, h.opened);
    decoded = rw (e, h.decoded);
    stops = h.stops;
    handed = rw h.handed;
  }

  read_lines-IsHanded : (reads : List Read) → IsHanded reads (read_lines unmarshal wanted reads)
  unfolding read_lines
  read_lines-IsHanded [] = nothing [] tt
  read_lines-IsHanded (r ∷ reads) = elim (Bool-cases (ends r.error)) [
    | inl e ↦ rw e (nothing (r ∷ reads) (inl (ends-Ended r.error e)))
    | inr e ↦ elim (Result-cases (unmarshal r.line)) [
      | inl (o, d) ↦ rw (e, d) (next_object r reads o e d (read_lines-IsHanded reads))
      | inr (x, d) ↦ rw (e, d) (nothing (r ∷ reads) (inr (rw d tt)))
    ]
  ]

  -- What the callback is handed of the connections, one after the other: nothing of a request without
  -- a response, or with a status that is not 200, and else what it is handed of the reads.
  abbrev pub AreHanded : List Connection → List O → Type 0
  AreHanded [] out = out ≡ []
  AreHanded (failed e ∷ cs) out = AreHanded cs out
  AreHanded (opened resp reads ∷ cs) out =
      ((resp.status_code ≢ 200) × AreHanded cs out)
      ⊎ ((resp.status_code ≡ 200)
          × ((of_reads : List O) × (rest : List O) × (out ≡ of_reads ++ rest)
              × IsHanded reads of_reads
              × AreHanded cs rest))

  watch-AreHanded : (cs : List Connection) → AreHanded cs (watch unmarshal wanted cs)
  unfolding watch read_connection
  watch-AreHanded [] = refl
  watch-AreHanded (failed e ∷ cs) = watch-AreHanded cs
  watch-AreHanded (opened resp reads ∷ cs) =
      elim (Bool-cases (nat_beq resp.status_code status_ok)) [
        | inl e ↦ inr (
          ground (arith, e),
          (
            read_lines unmarshal wanted reads,
            watch unmarshal wanted cs,
            rw e refl,
            read_lines-IsHanded reads,
            watch-AreHanded cs,
          ),
        )
        | inr e ↦ inl (ground (arith, e), rw e (watch-AreHanded cs))
      ]

-- The callbacks of WatchBuilds and of WatchDeploymentConfigs, for any connections: of each response
-- with status 200 they are handed, in the stream's order, the objects before the first read that comes
-- with the error `EOF` or `unexpected EOF` or that cannot be decoded, and of these exactly those whose
-- build strategy has the type, and those whose namespace has the suffix; and nothing of other responses
-- or of requests without one. A read with another error is handed on like any other.
pub watched-AreHanded :
    (decode_build : String → Result Object) (decode_dc : String → Result DcObject)
    (build_type suffix : String) (cs : List Connection)
    → AreHanded decode_build
        (λ o. o.object.spec.strategy.type == build_type)
        cs
        (watch_builds decode_build build_type cs)
      × AreHanded decode_dc
          (λ o. has_suffix o.object.metadata.namespace suffix)
          cs
          (watch_deployment_configs decode_dc suffix cs)
unfolding watch_builds watch_deployment_configs
watched-AreHanded decode_build decode_dc build_type suffix cs =
    (watch-AreHanded decode_build _ cs, watch-AreHanded decode_dc _ cs)
