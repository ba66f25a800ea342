-- ===== src/Example/Routes.antt =====
-- The routes of the example around its functions: examples/nextjs/app/api/report/route.ts,
-- api/report/followup/route.ts and api/send/route.ts, and the client of lib/platform.ts.
pub mod Reporting
use triggerlink.Prelude.{
  ℕ, Option, none, some, List, [], ◌∷◌, ◌++◌, Bool, true, false, Text, txt, or_else, leb, ◌&&◌,
  if◌then◌else◌,
}
use triggerlink.Prelude.Decimal.{print}
use triggerlink.Value.{
  Value, undefined, null, bool, str, arr, nil, obj, field, end, prop, is_nullish,
}
use triggerlink.Execx.{Host, Thrown, error}
use triggerlink.Effects.{Outcome, returned, threw}
use triggerlink.Step.{err_message}
use triggerlink.Client.{Client, ClientOptions, SendEventInput, one, Fetch, send}
use triggerlink.Example.Tasks.{TaskState, Demo, get_task}
use triggerlink.Example.Panel.{Started, accepted, refused}

-- What a route answers with.
pub record Reply : Type 0 where
  pub status : ℕ
  pub body : Value

abbrev pub ok : Value → Reply
ok v = record { status = 200; body = v }

-- the client's options; `env` reads the environment
abbrev pub platform_options : (env : Text → Option Text) → ClientOptions
platform_options env = record {
  id = txt "nextjs-demo";
  signing_key = or_else (env (txt "TRIGGERLINK_SIGNING_KEY")) (txt "dev");
  event_key = some (or_else (env (txt "TRIGGERLINK_EVENT_KEY")) (txt "dev"));
  base_url = some (or_else (env (txt "TRIGGERLINK_PLATFORM_URL")) (txt "http://localhost:8288"));
}

abbrev pub rejected : Thrown → Reply
rejected e = record {
  status = 502;
  body = obj (
      field (txt "error") (str (txt "platform rejected event"))
        (field (txt "detail") (str (err_message e)) end));
}

-- The event of a click: `uuid` is what crypto.randomUUID returns.
abbrev pub report_event : Text → SendEventInput
report_event uuid = record {
  id = some (txt "report-" ++ uuid);
  name = txt "report/requested";
  «data» = some (obj (field (txt "task_id") (str uuid) end));
  ts = none;
}

abbrev answer_report : Text → Outcome Value → Reply
answer_report uuid (returned v) = ok (obj (field (txt "task_id") (str uuid) end))
answer_report uuid (threw e) = rejected e

-- GET /api/report: none stands for `{ status: "unknown" }`
unfoldable pub get_report : (task_id : Option Text) → Demo → Option TaskState
get_report task_id w = get_task (or_else task_id []) w

module _ (host : Host) {W : Type 0} (fetch : Fetch W) (client : Client) where
  -- POST /api/report
  unfoldable pub post_report : (uuid : Text) → W → Reply × W
  post_report uuid w =
      let (result, w') = send host fetch client (one (report_event uuid)) w in
      (answer_report uuid result, w')

  abbrev doc_event : Text → Value → SendEventInput
  doc_event shown doc_id = record {
    id = some (txt "doc-uploaded-" ++ shown);
    name = txt "doc/uploaded";
    «data» = some (obj (field (txt "doc_id") doc_id end));
    ts = none;
  }

  abbrev answer_doc : Outcome Value → Reply
  answer_doc (returned result) = ok (
      obj (
        field (txt "platform_status") (prop (txt "status") result)
          (field (txt "event_ids") (prop (txt "ids") result) end)))
  answer_doc (threw e) = rejected e

  -- a default in a pattern stands in for `undefined`
  abbrev with_default : Value → Value → Value
  with_default d undefined = d
  with_default d v = v

  -- the body as JSON, or `{}`
  abbrev pub json_or_empty : Outcome Value → Value
  json_or_empty (returned v) = v
  json_or_empty (threw e) = obj end

  -- POST /api/send. `show` writes a value in a text, and `type_error` is what taking null or undefined
  -- apart throws.
  unfoldable pub post_send :
      (show : Value → Text) (type_error : Thrown) (now : ℕ) (json : Outcome Value)
      → W
      → Outcome Reply × W
  post_send show type_error now json w =
      let body = json_or_empty json in
      let doc_id = with_default (str (txt "doc-" ++ print now)) (prop (txt "doc_id") body) in
      let (result, w') = send host fetch client (one (doc_event (show doc_id) doc_id)) w in
      if is_nullish body then (threw type_error, w) else (returned (answer_doc result), w')

-- POST /api/report/followup, with the line that is logged; `json` prints a value.
unfoldable pub post_followup :
    (show json : Value → Text) (type_error : Thrown) (body : Value) → Outcome Reply × List Text
post_followup show json type_error body =
    let task_id = prop (txt "task_id") body in
    let result = prop (txt "result") body in
    let shown = json (if is_nullish result then null else result) in
    if is_nullish body then (threw type_error, []) else (
      returned (ok (obj (field (txt "archived") (bool true) (field (txt "task_id") task_id end)))),
      (txt "[nextjs] FOLLOWUP task=" ++ (show task_id ++ (txt " 报告已归档：" ++ shown))) ∷ [],
    )

-- a field of a reply, where it is a text
abbrev text_in : Value → Option Text
text_in (str s) = some s
text_in v = none

-- what the panel reads of the reply to POST /api/report
unfoldable pub started_of : Reply → Started
started_of reply =
    if leb 200 reply.status && leb reply.status 299
    then accepted (or_else (text_in (prop (txt "task_id") reply.body)) [])
    else refused reply.status (text_in (prop (txt "error") reply.body))
