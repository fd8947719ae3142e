-- ===== src/Breakpoints.antt =====
-- internal/breakpoints: manager.go and state.go. The manager's rules and the requests that are held.
-- Paused entries live on a heap, since `Pause` and `Resume` share a pointer to one. Each section
-- under the mutex is a function; `Pause` is `pause` up to its select and one of `pause_resumed` and
-- `pause_cancelled` from there. Channels of subscribers are numbers.
pub mod Rules
pub mod Matching
pub mod Evaluate
pub mod Pausing
mod Examples
use api_x.Base.{
  ℕ, suc, ◌+◌, Text, str, is_blank, Bool, true, false, ◌&&◌, ◌||◌, not, Option, none, some, List,
  [], ◌∷◌, ◌++◌, map, length, ◌==◌, ltb, if◌then◌else◌, any, is_empty, ◌⊎◌, inl, inr,
}
use api_x.Base.Int.{ℤ, pos, ltb_ℤ}
use api_x.Base.Strings.{text_eq, equal_fold, to_upper}
use api_x.Base.Maps.{Assoc, lookup, insert, delete}
use api_x.Header
use api_x.Header.{Header}
use api_x.Regex.{RegexLib}

pub data BreakpointState : Type 0 where
  paused resumed dropped responded expired : BreakpointState

pub record BreakpointRule : Type 0 where
  pub id : Text
  pub url_pattern : Text
  pub methods : List Text
  pub enabled : Bool
  pub label : Text
  pub header_name : Text
  pub header_value : Text
  pub body_pattern : Text
  pub status_codes : List ℤ

pub data ResumeAction : Type 0 where
  action_forward action_drop action_respond : ResumeAction

-- The requests and responses that a decision or an entry carries are only passed on.
pub record ResumeDecision (Msg : Type 0) : Type 0 where
  pub action : ResumeAction
  pub modified_request : Option Msg
  pub modified_response : Option Msg

-- `closed` tells whether `done` is closed.
pub record PausedEntry (Msg : Type 0) : Type 0 where
  pub request_id : Text
  pub breakpoint_id : Text
  pub request : Option Msg
  pub paused_at : ℕ
  pub state : BreakpointState
  pub closed : Bool
  pub decision : Option (ResumeDecision Msg)

-- `NewPausedEntry`, at a clock reading
abbrev pub new_paused_entry : {Msg : Type 0} → ℕ → Text → Text → Option Msg → PausedEntry Msg
new_paused_entry now request_id breakpoint_id req = record {
  request_id = request_id;
  breakpoint_id = breakpoint_id;
  request = req;
  paused_at = now;
  state = paused;
  closed = false;
  decision = none;
}

pub record Manager (lib : RegexLib) (Msg : Type 0) : Type 0 where
  pub rules : Assoc BreakpointRule
  pub compiled : Assoc lib.Regex
  pub body_re : Assoc lib.Regex
  pub paused_reqs : Assoc ℕ  -- the address of the entry
  pub heap : ℕ → PausedEntry Msg
  pub subscribers : List ℕ

-- The texts of the errors are left out.
pub data AddError : Type 0 where
  url_pattern_required url_pattern_too_long invalid_method invalid_url_pattern : AddError
  body_pattern_too_long invalid_body_pattern header_name_too_long : AddError
  header_value_too_long invalid_status_code : AddError

abbrev pub valid_http_methods : List Text
valid_http_methods =
    str "GET"
    ∷ str "POST"
    ∷ str "PUT"
    ∷ str "PATCH"
    ∷ str "DELETE"
    ∷ str "HEAD"
    ∷ str "OPTIONS"
    ∷ str "CONNECT"
    ∷ str "TRACE"
    ∷ []

unfoldable pub is_valid_method : Text → Bool
unfolding text_eq to_upper
is_valid_method m = any (text_eq (to_upper m)) valid_http_methods

abbrev is_status_code : ℤ → Bool
is_status_code c = not (ltb_ℤ c (pos 100) || ltb_ℤ (pos 599) c)

-- What `AddRule` compiles: the URL pattern, and the body pattern if there is one.
pub data Compiled (A : Type 0) : Type 0 where
  refused : AddError → Compiled A
  accepted : A → Option A → Compiled A

-- The checks of `AddRule` behind those of the two patterns.
unfoldable check_rest : {A : Type 0} → BreakpointRule → A → Option A → Compiled A
check_rest rule re body_re =
    if ltb 200 (length rule.header_name)
    then refused header_name_too_long
    else if ltb 1000 (length rule.header_value)
    then refused header_value_too_long
    else if any (λ c. not (is_status_code c)) rule.status_codes
    then refused invalid_status_code
    else accepted re body_re

unfoldable check_body : {A : Type 0} → Option A → BreakpointRule → A → Compiled A
unfolding check_rest
check_body body_re rule re =
    if is_blank rule.body_pattern
    then check_rest rule re none
    else if ltb 500 (length rule.body_pattern)
    then refused body_pattern_too_long
    else elim body_re [ none ↦ refused invalid_body_pattern | some b ↦ check_rest rule re (some b) ]

-- The checks of `AddRule`, in its order.
unfoldable pub check_rule : (lib : RegexLib) → BreakpointRule → Compiled lib.Regex
unfolding check_body is_valid_method
check_rule lib rule =
    if is_blank rule.url_pattern
    then refused url_pattern_required
    else if ltb 500 (length rule.url_pattern)
    then refused url_pattern_too_long
    else if any (λ m. not (is_valid_method m)) rule.methods
    then refused invalid_method
    else elim (lib.compile rule.url_pattern) [
      | none ↦ refused invalid_url_pattern
      | some re ↦ check_body (lib.compile rule.body_pattern) rule re
    ]

abbrev pub store_or_delete : {A : Type 0} → Text → Option A → Assoc A → Assoc A
store_or_delete id none m = delete id m
store_or_delete id (some v) m = insert id v m

-- The section under the mutex of `AddRule`.
abbrev pub add_checked :
    {lib : RegexLib} {Msg : Type 0}
    → Compiled lib.Regex
    → Text
    → BreakpointRule
    → Manager lib Msg
    → Manager lib Msg × (AddError ⊎ BreakpointRule)
add_checked (refused e) fresh rule m = (m, inl e)
add_checked (accepted re body_re) fresh rule m =
    let rule' = record rule { id = if is_blank rule.id then fresh else rule.id } in
    (
      record m {
        rules = insert rule'.id rule' m.rules;
        compiled = insert rule'.id re m.compiled;
        body_re = store_or_delete rule'.id body_re m.body_re;
      },
      inr rule',
    )

-- `AddRule`, where `fresh` is what `uuid.NewString` gives.
unfoldable pub add_rule :
    {lib : RegexLib} {Msg : Type 0}
    → Text
    → BreakpointRule
    → Manager lib Msg
    → Manager lib Msg × (AddError ⊎ BreakpointRule)
unfolding check_rule insert delete
add_rule {lib} fresh rule m = add_checked (check_rule lib rule) fresh rule m

abbrev pub remove_at :
    {lib : RegexLib} {Msg : Type 0}
    → Option BreakpointRule
    → Text
    → Manager lib Msg
    → Manager lib Msg × Bool
remove_at none id m = (m, false)
remove_at (some rule) id m = (
  record m {
    rules = delete id m.rules;
    compiled = delete id m.compiled;
    body_re = delete id m.body_re;
  },
  true,
)

-- `RemoveRule`; false is its error
unfoldable pub remove_rule :
    {lib : RegexLib} {Msg : Type 0} → Text → Manager lib Msg → Manager lib Msg × Bool
unfolding lookup delete
remove_rule id m = remove_at (lookup id m.rules) id m

-- `NewManager`
abbrev pub new_manager : {lib : RegexLib} {Msg : Type 0} → (ℕ → PausedEntry Msg) → Manager lib Msg
new_manager heap = record {
  rules = [];
  compiled = [];
  body_re = [];
  paused_reqs = [];
  heap = heap;
  subscribers = [];
}
