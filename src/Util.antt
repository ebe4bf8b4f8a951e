-- ===== src/Util.antt =====
-- internal/util: errors collected in a list, texts and slices, and the checks on settings.
pub mod Laws
use fabric8_jenkins_idler.Common.{
  String, GoError, Bool, true, false, ◌==◌, ◌&&◌, not, ◌<>◌, has_prefix, has_suffix, List, [], ◌∷◌,
  ◌++◌, Option, none, some, Result, ok, err, Attempt, gives, crashes, parse_bool, if◌then◌else◌,
}

-- MultiError by its field
abbrev pub MultiError : Type 0
MultiError = List GoError

unfoldable pub empty : MultiError → Bool
empty [] = true
empty (e ∷ m) = false

-- Collect appends an error that is not nil.
unfoldable pub collect : Option GoError → MultiError → MultiError
collect none m = m
collect (some e) m = m ++ e ∷ []

-- strings.Join(errors, "\n")
unfoldable pub join_lines : MultiError → String
join_lines [] = ""
join_lines (e ∷ []) = e
join_lines (e ∷ f ∷ m) = e <> ("\n" <> join_lines (f ∷ m))

-- ToError. `sprintf` is `fmt.Errorf` at the joined text with no operands.
unfoldable pub to_error : (String → String) → MultiError → Option GoError
unfolding join_lines
to_error sprintf [] = none
to_error sprintf (e ∷ m) = some (sprintf (join_lines (e ∷ m)))

-- EnsureSuffix
unfoldable pub ensure_suffix : String → String → String
ensure_suffix s suffix = if has_suffix s suffix then s else s <> suffix

-- Contains
unfoldable pub contains_string : List String → String → Bool
contains_string [] s = false
contains_string (elem ∷ list) s = if elem == s then true else contains_string list s

-- An `interface{}` that the checks take: a string, or a value of another type.
pub data Setting : Type 0 where
  str : String → Setting
  other : Setting

-- the panic of `value.(string)`
abbrev not_a_string : GoError
not_a_string = "interface conversion: interface {} is not string"

abbrev nil_or : Bool → GoError → Attempt (Unit {0})
nil_or true e = gives (ok tt)
nil_or false e = gives (err e)

-- IsInt. `atoi` is whether strconv.Atoi accepts the text.
unfoldable pub is_int : (String → Bool) → Setting → String → Attempt (Unit {0})
is_int atoi (str s) key = nil_or (atoi s) ("value for " <> (key <> " needs to be an integer"))
is_int atoi other key = crashes not_a_string

abbrev parses : Result Bool → Bool
parses (ok b) = true
parses (err e) = false

-- IsBool
unfoldable pub is_bool : Setting → String → Attempt (Unit {0})
is_bool (str s) key =
    nil_or (parses (parse_bool s)) ("value for " <> (key <> " needs to be an bool"))
is_bool other key = crashes not_a_string

-- IsNotEmpty
unfoldable pub is_not_empty : Setting → String → Option GoError
is_not_empty (str s) key =
    if s == "" then some ("value for " <> key <> " cannot be empty") else none
is_not_empty other key = some ("value for " <> key <> " needs to be a string")

-- IsURL. `parse_request_uri` is whether url.ParseRequestURI accepts the text.
unfoldable pub is_url : (String → Bool) → Setting → String → Option GoError
is_url parse_request_uri (str s) key =
    if not (has_prefix s "https://") && not (has_prefix s "http://")
    then some ("value for " <> key <> " needs to be a valid URL")
    else if parse_request_uri s
    then none
    else some ("value for " <> key <> " needs to be a valid URL")
is_url parse_request_uri other key = some ("value for " <> key <> " needs to be a string")
