-- ===== src/Control/Requests.antt =====
-- What a request means.
use user_mode_nixos.Prelude.{String, ◌==◌, ◌&&◌, some, if◌then◌else◌, ◌≡◌, refl, ap}
use user_mode_nixos.Control.{
  Op, Field, Line, BadRequest, Parsed, op_of, wants_arg, known_op, parse_request,
}

-- `str(op)`
abbrev pub op_text : Op → String
op_text Op.state = "state"
op_text Op.exec = "exec"
op_text Op.inject = "inject"
op_text Op.run = "run"
op_text Op.pytest = "pytest"
op_text Op.continue_op = "continue"

-- What `request` sends, once it is loaded.
abbrev pub request_line : Op → String → Line
request_line op arg = Line.object (Field.text (op_text op)) (Field.text arg)

op_of-op_text : (op : Op) → op_of (op_text op) ≡ some op
op_of-op_text Op.state = refl
op_of-op_text Op.exec = refl
op_of-op_text Op.inject = refl
op_of-op_text Op.run = refl
op_of-op_text Op.pytest = refl
op_of-op_text Op.continue_op = refl

-- What a client asks for is what the server reads, but that an operation that needs an argument
-- is refused without one.
pub request_roundtrip :
    (op : Op) (arg : String)
    → parse_request (request_line op arg) ≡ (
        if wants_arg op && (arg == "")
        then Parsed.bad (BadRequest.needs_arg op)
        else Parsed.request op arg)
unfolding parse_request
request_roundtrip op arg =
    ap (λ o. known_op o (Field.text (op_text op)) (Field.text arg)) (op_of-op_text op)
