-- ===== src/Regex.antt =====
-- Go's package regexp, which the repository only calls: an interface of the models that use it.
use api_x.Base.{Text, Bool, Option}

-- `Compile` gives `none` for its error; `match_string` is `(*Regexp).MatchString`.
pub record RegexLib : Type 1 where
  pub Regex : Type 0
  pub compile : Text → Option Regex
  pub match_string : Regex → Text → Bool
