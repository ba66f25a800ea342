-- ===== src/Registry.antt =====
-- The registry `byID` that `serve` of sdk-ts/src/serve.ts builds from the functions of an application.
pub mod Lookup
pub mod Fresh
pub mod Apart
use triggerlink.Prelude.{Option, none, some, List, [], ◌∷◌, ◌++◌, Text, txt, insert, Bool}
use triggerlink.Value.{nat}
use triggerlink.Function.{FunctionOpts, Handler, TriggerFunction}

abbrev pub Registry : Type 0 → Type 0
Registry W = List (Text × TriggerFunction W)

unfoldable pub failure_id : Text → Text
failure_id id = id ++ txt "/on-failure"

module _ {W : Type 0} where
  -- the implicit function of an `onFailure` handler
  unfoldable pub failure_function : Text → Handler W → TriggerFunction W
  unfolding failure_id
  failure_function id handler = record {
    opts = record {
      id = failure_id id;
      event = some (txt "triggerlink/run.failed");
      match = some (txt "data.function_id == '" ++ (id ++ txt "'"));
      cron = none;
      retries = some (nat 0);
      cancel_on = none;
      timeout = none;
      debounce = none;
      throttle = none;
      batch = none;
      on_failure = none;
    };
    retries = nat 0;
    handler = handler;
  }

  -- the implicit function of a function, where it has an `onFailure` handler
  unfoldable pub register_failure : Text → Option (Handler W) → Registry W → Registry W
  register_failure id none reg = reg
  register_failure id (some handler) reg = insert (failure_id id) (failure_function id handler) reg

  -- one round of the loop
  unfoldable pub register : TriggerFunction W → Registry W → Registry W
  register fn reg = register_failure fn.opts.id fn.opts.on_failure (insert fn.opts.id fn reg)

  unfoldable pub register_all : List (TriggerFunction W) → Registry W → Registry W
  register_all [] reg = reg
  register_all (fn ∷ fns) reg = register_all fns (register fn reg)

  unfoldable pub registry_of : List (TriggerFunction W) → Registry W
  unfolding register_all register register_failure
  registry_of fns = register_all fns []
