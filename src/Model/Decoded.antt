-- ===== src/Model/Decoded.antt =====
-- internal/model/openshift_objects.go: how the times of a build are read from JSON. The packages
-- encoding/json and time are arguments.
use Prim.Native.Char.{Char, code}
use Prim.Native.String.{[], ◌∷◌}
use Prim.Native.String.append
use fabric8_jenkins_idler.Common.{
  ℕ, String, ◌==◌, ◌<>◌, eq_iff, Time, nat_beq, Bool, true, false, ◌&&◌, Option, none, some, Result,
  ok, err, ◌>>=◌, ◌≡◌, ◌≢◌, ◌⊎◌, ◌↔◌, refl, sym, ap, ◌∙◌, inl, inr, arith, Bool-cases,
  if◌then◌else◌,
}
use fabric8_jenkins_idler.Model.Openshift.{Status}

unfoldable pub is_quote : Char → Bool
is_quote c = nat_beq (code c) 34

-- strings.Trim with the cutset of the double quote: from the left and from the right
unfoldable pub trim_left_quotes : String → String
unfolding is_quote
trim_left_quotes [] = []
trim_left_quotes (c ∷ s) = let rest = trim_left_quotes s in if is_quote c then rest else c ∷ s

unfoldable pub trim_right_quotes : String → String
unfolding is_quote
trim_right_quotes [] = []
trim_right_quotes (c ∷ s) =
    let rest = trim_right_quotes s in if is_quote c && rest == [] then [] else c ∷ rest

abbrev pub trim_quotes : String → String
trim_quotes s = trim_right_quotes (trim_left_quotes s)

-- BuildTime.UnmarshalJSON at an instant. `parse` is time.Parse with the layout RFC3339.
unfoldable pub unmarshal_build_time : Time → (String → Result Time) → String → Result Time
unfolding trim_left_quotes trim_right_quotes
unmarshal_build_time now parse b = if trim_quotes b == "" then ok now else parse (trim_quotes b)

-- a JSON object of a status: the fields that are there, the times as they are written
pub record StatusFields : Type 0 where
  pub phase : Option String
  pub start_timestamp : Option String
  pub completion_timestamp : Option String

abbrev field : Time → Time → (String → Result Time) → Option String → Result Time
field default now parse none = ok default
field default now parse (some b) = unmarshal_build_time now parse b

abbrev pub phase_of : Option String → String
phase_of none = ""
phase_of (some p) = p

-- Status.UnmarshalJSON: the fields that are not there are the defaults of `LStatus`. `clock` is the
-- instants of the calls of time.Now: those of the defaults, and those of the fields.
unfoldable pub unmarshal_status :
    (ℕ → Time) → (String → Result Time) → (String → Result StatusFields) → String → Result Status
unfolding unmarshal_build_time
unmarshal_status clock parse fields b = fields b >>= λ f.
    field (clock 0) (clock 2) parse f.start_timestamp >>= λ start.
    field (clock 1) (clock 3) parse f.completion_timestamp >>= λ completion. ok (record {
      phase = phase_of f.phase;
      start_timestamp = start;
      completion_timestamp = completion;
    })

unfoldable pub has_quote : String → Bool
unfolding is_quote
has_quote [] = false
has_quote (c ∷ s) = if is_quote c then true else has_quote s

-- a text as JSON, without anything to escape
abbrev pub quoted : String → String
quoted s = "\"" ∷ (s <> "\"")

if_false : (b x : Bool) → (if b then true else x) ≡ false → (b ≡ false) × (x ≡ false)
if_false true x h = cc
if_false false x h = (refl, h)

trim_left-cons : (c : Char) (s : String) → is_quote c ≡ false → trim_left_quotes (c ∷ s) ≡ c ∷ s
unfolding trim_left_quotes
trim_left-cons c s plain = ground arith

trim_right-cons :
    (c : Char) (s : String)
    → is_quote c ≡ false
    → trim_right_quotes (c ∷ s) ≡ c ∷ trim_right_quotes s
unfolding trim_right_quotes
trim_right-cons c s plain = ground arith

trim_left-quoted :
    (s : String) → has_quote s ≡ false → s ≢ "" → trim_left_quotes (quoted s) ≡ s <> "\""
unfolding trim_left_quotes has_quote
trim_left-quoted [] h e = absurd (e refl)
trim_left-quoted (c ∷ s) h e =
    let (plain, _) = if_false (is_quote c) (has_quote s) h in
    rw (append.cons c s "\"") (trim_left-cons c (s <> "\"") plain)

trim_right-quoted : (s : String) → has_quote s ≡ false → trim_right_quotes (s <> "\"") ≡ s
unfolding trim_right_quotes has_quote
trim_right-quoted [] h = refl
trim_right-quoted (c ∷ s) h =
    let (plain, rest) = if_false (is_quote c) (has_quote s) h in
    rw (append.cons c s "\"")
      (trim_right-cons c (s <> "\"") plain ∙ ap (λ t. c ∷ t) (trim_right-quoted s rest))

trim_quotes-quoted : (s : String) → has_quote s ≡ false → trim_quotes (quoted s) ≡ s
unfolding trim_left_quotes trim_right_quotes
trim_quotes-quoted s plain = elim (Bool-cases (s == "")) [
  | inl e ↦ rw ((eq_iff s "").0 e) refl
  | inr e ↦
      ap trim_right_quotes
        (trim_left-quoted s plain (λ is. absurd (ground (arith, e, (eq_iff s "").1 is))))
      ∙ trim_right-quoted s plain
]

-- The time of a field of JSON: a default where the field is not there, now where it is the empty text,
-- and else what time.Parse reads of the text.
abbrev pub IsTime : Time → Time → (String → Result Time) → Option String → Time → Type 0
IsTime default now parse none t = t ≡ default
IsTime default now parse (some s) t = ((s ≡ "") × (t ≡ now)) ⊎ ((s ≢ "") × (parse s ≡ ok t))

abbrev pub quoted_field : Option String → Option String
quoted_field none = none
quoted_field (some s) = some (quoted s)

abbrev pub NoQuote : Option String → Type 0
NoQuote none = Unit
NoQuote (some s) = has_quote s ≡ false

ok_time : (t u : Time) → ok t ≡ ok u → t ≡ u
ok_time t u h = cc

module _ (default now : Time) (parse : String → Result Time) where
  text_iff :
      (s : String) (t : Time)
      → ((if s == "" then ok now else parse s) ≡ ok t) ↔ IsTime default now parse (some s) t
  text_iff s t = elim (Bool-cases (s == "")) [
    | inl e ↦ (
      λ h. inl ((eq_iff s "").0 e, sym (ok_time now t (rw e at h))),
      λ h. elim h [
        | inl (_, is_now) ↦ rw e (ap ok (sym is_now))
        | inr (not_empty, _) ↦ absurd (not_empty ((eq_iff s "").0 e))
      ],
    )
    | inr e ↦ (
      λ h. inr (λ is. absurd (ground (arith, e, (eq_iff s "").1 is)), rw e at h),
      λ h. elim h [
        | inl (is, _) ↦ absurd (ground (arith, e, (eq_iff s "").1 is))
        | inr (_, read) ↦ rw e read
      ],
    )
  ]

  field_iff :
      (x : Option String) (t : Time)
      → NoQuote x
      → (field default now parse (quoted_field x) ≡ ok t) ↔ IsTime default now parse x t
  unfolding unmarshal_build_time
  field_iff none t plain = (λ h. sym (ok_time default t h), λ h. ap ok (sym h))
  field_iff (some s) t plain = rw (trim_quotes-quoted s plain) (text_iff s t)

ok_status : (s u : Status) → ok s ≡ ok u → s ≡ u
ok_status s u h = cc

times_iff :
    (x y : Result Time) (phase : String) (s : Status)
    → ((x >>= λ t.
          y >>= λ u. ok (record { phase = phase; start_timestamp = t; completion_timestamp = u }))
        ≡ ok s)
      ↔ ((s.phase ≡ phase) × (x ≡ ok s.start_timestamp) × (y ≡ ok s.completion_timestamp))
times_iff (ok t) (ok u) phase s = (
  λ h.
      let same = ok_status _ s h in
      (
        ap (λ v. v.phase) (sym same),
        ap (λ v. ok v.start_timestamp) same,
        ap (λ v. ok v.completion_timestamp) same,
      ),
  λ (a, b, c). rw (sym a, ok_time t s.start_timestamp b, ok_time u s.completion_timestamp c) refl,
)
times_iff (ok t) (err e) phase s = (λ h. cc, λ (a, b, c). cc)
times_iff (err e) y phase s = (λ h. cc, λ (a, b, c). cc)

-- How the status of a build is read from an object of JSON, whose texts are handed over in their double
-- quotes and hold none: UnmarshalJSON returns a status exactly if it has the phase of the object, or
-- the empty one, and its times are those of the fields: now, by a call of time.Now of its own, where
-- the field is not there or the text is empty, and else what time.Parse reads of the text. A text that
-- time.Parse refuses is an error.
pub unmarshal_status_iff :
    (clock : ℕ → Time) (parse : String → Result Time) (fields : String → Result StatusFields)
    (b : String) (phase start completion : Option String) (s : Status)
    → NoQuote start
    → NoQuote completion
    → fields b
      ≡ ok (record {
        phase = phase;
        start_timestamp = quoted_field start;
        completion_timestamp = quoted_field completion;
      })
    → (unmarshal_status clock parse fields b ≡ ok s) ↔ (
        (s.phase ≡ phase_of phase)
        × IsTime (clock 0) (clock 2) parse start s.start_timestamp
        × IsTime (clock 1) (clock 3) parse completion s.completion_timestamp)
unfolding unmarshal_status
unmarshal_status_iff clock parse fields b phase start completion s p q h =
    let first = field_iff (clock 0) (clock 2) parse start s.start_timestamp p in
    let second = field_iff (clock 1) (clock 3) parse completion s.completion_timestamp q in
    let (to, from) =
      times_iff (field (clock 0) (clock 2) parse (quoted_field start))
        (field (clock 1) (clock 3) parse (quoted_field completion)) (phase_of phase) s in
    rw h (
      λ e. let (named, started, ended) = to e in (named, first.0 started, second.0 ended),
      λ (named, started, ended). from (named, first.1 started, second.1 ended),
    )
