-- ===== src/Control.antt =====
-- pkgs/uml/uml/control.py: what a client of a run asks for, and how a paused run goes on. What
-- `json.loads` gives is an argument; what the code that a client sends does is a parameter.
pub mod Requests
pub mod Resume
use user_mode_nixos.Prelude.{
  ℕ, zero, suc, String, ◌==◌, Bool, true, false, not, ◌&&◌, ◌||◌, Option, none, some, List, [], ◌∷◌,
  ◌++◌, if◌then◌else◌, Dict,
}

pub data Op : Type 0 where
  state exec inject run pytest continue_op : Op

-- What `json.loads` gives of a line: nothing, no object, or an object with its `op` and its `arg`,
-- each of which may be missing; a field that is no text is `not_text`.
pub data Field : Type 0 where
  missing not_text : Field
  text : String → Field

pub data Line : Type 0 where
  not_json not_object : Line
  object : (op arg : Field) → Line

-- `ValueError`, by what it says.
pub data BadRequest : Type 0 where
  no_json no_object : BadRequest
  no_such_op : Field → BadRequest
  arg_not_text : BadRequest
  needs_arg : Op → BadRequest

pub data Parsed : Type 0 where
  request : Op → String → Parsed
  bad : BadRequest → Parsed

-- `Op(text)`
abbrev pub op_of : String → Option Op
op_of t =
    if t == "state"
    then some Op.state
    else if t == "exec"
    then some Op.exec
    else if t == "inject"
    then some Op.inject
    else if t == "run"
    then some Op.run
    else if t == "pytest"
    then some Op.pytest
    else if t == "continue"
    then some Op.continue_op
    else none

-- The operations that need an argument.
abbrev pub wants_arg : Op → Bool
wants_arg Op.state = false
wants_arg Op.continue_op = false
wants_arg _ = true

-- `raw.get("arg", "")`, where it is a text.
abbrev pub arg_of : Field → Option String
arg_of Field.missing = some ""
arg_of Field.not_text = none
arg_of (Field.text a) = some a

abbrev pub checked : Op → Option String → Parsed
checked op none = Parsed.bad BadRequest.arg_not_text
checked op (some arg) =
    if wants_arg op && (arg == "")
    then Parsed.bad (BadRequest.needs_arg op)
    else Parsed.request op arg

abbrev pub known_op : Option Op → Field → Field → Parsed
known_op none op arg = Parsed.bad (BadRequest.no_such_op op)
known_op (some o) op arg = checked o (arg_of arg)

abbrev pub op_field : Field → Option Op
op_field (Field.text t) = op_of t
op_field _ = none

-- `parse_request`
unfoldable pub parse_request : Line → Parsed
parse_request Line.not_json = Parsed.bad BadRequest.no_json
parse_request Line.not_object = Parsed.bad BadRequest.no_object
parse_request (Line.object op arg) = known_op (op_field op) op arg

-- A client's reply, by what gave it.
pub data Reply : Type 0 where
  refused : BadRequest → Reply
  states : Bool → Reply
  only_while_paused : Op → Reply
  continuing : Reply
  outcome : Op → String → Reply

-- `Controller`: whether `_resume` is an event, whether that event is set, and `_continuing`.
pub record Controller : Type 0 where
  pub paused : Bool
  pub resumed : Bool
  pub asked : Bool

-- `Controller.pause`, up to its wait.
unfoldable pub pause : Controller → Controller
pause c = record { paused = true; resumed = false; asked = c.asked }

-- `Controller.pause`, once the event is set.
unfoldable pub wake : Controller → Controller
wake c = record { paused = false; resumed = false; asked = c.asked }

-- What `handle` does for an operation that is no `state`, in a paused run.
abbrev pub perform : Op → String → Controller → Controller × Reply
perform Op.continue_op arg c =
    (record { paused = c.paused; resumed = c.resumed; asked = true }, Reply.continuing)
perform op arg c = (c, Reply.outcome op arg)

-- What `handle` does for what a line is read as.
abbrev pub answer : Parsed → Controller → Controller × Reply
answer (Parsed.bad e) c = (c, Reply.refused e)
answer (Parsed.request Op.state arg) c = (c, Reply.states c.paused)
answer (Parsed.request op arg) c =
    if c.paused then perform op arg c else (c, Reply.only_while_paused op)

-- `Controller.handle`
unfoldable pub handle : Line → Controller → Controller × Reply
unfolding parse_request
handle line c = answer (parse_request line) c

-- The end of `_client`, once its reply was sent.
unfoldable pub after_reply : Controller → Controller
after_reply c =
    if c.asked && c.paused then record { paused = true; resumed = true; asked = false } else c

-- The clients whose reply is on its way, with their replies.
pub record Server : Type 0 where
  pub controller : Controller
  pub replying : List Reply

-- A client's line arrives and is handled.
unfoldable pub arrive : Line → Server → Server
unfolding handle
arrive line s =
    let h = handle line s.controller in
    record { controller = h.0; replying = s.replying ++ (h.1 ∷ []) }

-- The reply at a place, and the others.
unfoldable pub without : ℕ → List Reply → List Reply
without n [] = []
without zero (r ∷ rs) = rs
without (suc n) (r ∷ rs) = r ∷ without n rs

-- A reply is sent, and `_client` goes on.
unfoldable pub sent : ℕ → Server → Server
unfolding after_reply without
sent n s = record { controller = after_reply s.controller; replying = without n s.replying }
