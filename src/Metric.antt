-- ===== src/Metric.antt =====
-- metric: the durations of requests, as they are handed to Prometheus. A float64 is a type with a test
-- for zero; what prometheus.Register answers is a parameter.

use Prim.Native.Nat.{ℕ, zero, suc, ◌/◌, ◌%◌, ◌-◌}
use fabric8_jenkins_idler.Common.{
  String, GoError, ◌==◌, ◌<>◌, not, ◌&&◌, Bool, ℤ, pos, negsuc, eqb_ℤ, List, ◌∷◌, Option, none,
  some, ok, err, Attempt, gives, crashes, format_int, ◌≡◌, refl, if◌then◌else◌,
}

-- minus a natural number
abbrev negative : ℕ → ℤ
negative zero = pos 0
negative (suc n) = negsuc n

-- `(status - (status % 100)) / 100`, whose `%` and `/` of Go cut towards zero
unfoldable pub hundreds : ℤ → ℤ
hundreds (pos n) = pos ((n - n % 100) / 100)
hundreds (negsuc n) = negative ((suc n - suc n % 100) / 100)

-- codeVal
unfoldable pub code_val : ℤ → String
unfolding hundreds
code_val status = format_int (hundreds status) <> "xx"

pub code_val-ok : code_val (pos 200) ≡ "2xx"
unfolding code_val format_int
code_val-ok = refl

pub code_val-internal_server_error : code_val (pos 500) ≡ "5xx"
unfolding code_val format_int
code_val-internal_server_error = refl

-- what prometheus.Register returns: nil, an AlreadyRegisteredError with its collector, another error
pub data Registration (C : Type 0) : Type 0 where
  registered : Registration C
  existing : C → Registration C
  failed : GoError → Registration C

-- register, whose log panics
unfoldable pub register : {C : Type 0} → C → Registration C → Attempt C
register c registered = gives (ok c)
register c (existing other) = gives (ok other)
register c (failed e) = crashes "Failed to register the prometheus metric"

-- the assertion that a collector is a `*prometheus.HistogramVec`
abbrev found : {H : Type 0} → Option H → Attempt H
found (some h) = gives (ok h)
found none = crashes "interface conversion"

abbrev asserted : {C H : Type 0} → (C → Option H) → Attempt C → Attempt H
asserted histogram (gives (ok c)) = found (histogram c)
asserted histogram (gives (err e)) = gives (err e)
asserted histogram (crashes e) = crashes e

-- registerMetrics
unfoldable pub register_metrics :
    {C H : Type 0} → (H → C) → (C → Option H) → H → Registration C → Attempt H
unfolding register
register_metrics collector histogram req_duration r =
    asserted histogram (register (collector req_duration) r)

-- an observation, by its labels and its value
pub record Observation (F : Type 0) : Type 0 where
  pub service : String
  pub operation : String
  pub code : String
  pub elapsed_time : F

-- reportRequestDuration, with the observations so far, newest first
unfoldable pub report_request_duration :
    {F : Type 0}
    → (F → Bool)
    → String
    → String
    → ℤ
    → F
    → List (Observation F)
    → List (Observation F)
unfolding code_val
report_request_duration is_zero service operation code elapsed os =
    if not (service == "")
      && not (operation == "")
      && not (is_zero elapsed)
      && not (eqb_ℤ code (pos 0))
    then (record {
      service = service;
      operation = operation;
      code = code_val code;
      elapsed_time = elapsed;
    })
      ∷ os
    else os
