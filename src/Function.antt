-- ===== src/Function.antt =====
-- sdk-ts/src/function.ts: the options of a function, the context of its handler, and
-- `createFunction`.
use triggerlink.Prelude.{
  Option, none, some, List, Bool, true, false, Text, txt, is_empty, ◌&&◌, if◌then◌else◌, or_else,
}
use triggerlink.Value.{Number, nat, Value}
use triggerlink.Execx.{Host}
use triggerlink.Effects.{Outcome, returned, threw, new_error, Exec}
use triggerlink.Duration.{Duration}

pub record CancelOnRule : Type 0 where
  pub event : Text
  pub match : Option Text

-- What a handler is given. The step tool is the primitives of Step, which every `Exec` can call;
-- the payloads come from the request as they are.
pub record HandlerContext : Type 0 where
  pub event : Value
  pub events : Option Value
  pub run_id : Value
  pub attempt : Value

pub record DebounceOpts : Type 0 where
  pub period : Duration
  pub key : Option Text
  pub timeout : Option Duration

pub record ThrottleOpts : Type 0 where
  pub limit : Number
  pub period : Duration
  pub key : Option Text

pub record BatchOpts : Type 0 where
  pub max_size : Number
  pub timeout : Duration
  pub key : Option Text

abbrev pub Handler : Type 0 → Type 0
Handler W = HandlerContext → Exec W Value

pub record FunctionOpts (W : Type 0) : Type 0 where
  pub id : Text
  pub event : Option Text
  pub match : Option Text
  pub cron : Option Text
  pub retries : Option Number
  pub cancel_on : Option (List CancelOnRule)
  pub timeout : Option Duration
  pub debounce : Option DebounceOpts
  pub throttle : Option ThrottleOpts
  pub batch : Option BatchOpts
  pub on_failure : Option (Handler W)

-- `opts` with its `retries`, which is always there.
pub record TriggerFunction (W : Type 0) : Type 0 where
  pub opts : FunctionOpts W
  pub retries : Number
  pub handler : Handler W

-- An option that is a text, where it is truthy.
abbrev pub given : Option Text → Option Text
given none = none
given (some s) = if is_empty s then none else some s

abbrev is_missing : Option Text → Bool
is_missing o = elim (given o) [ none ↦ true | some s ↦ false ]

unfoldable pub create_function :
    {W : Type 0} → Host → FunctionOpts W → Handler W → Outcome (TriggerFunction W)
create_function host opts handler =
    if is_empty opts.id
    then threw (new_error host (txt "createFunction: id is required"))
    else if is_missing opts.event && is_missing opts.cron
    then threw (new_error host (txt "createFunction: event or cron is required"))
    else returned
        (record { opts = opts; retries = or_else opts.retries (nat 0); handler = handler })
