-- ===== src/Http/ResponseState.antt =====
-- include/matador/http/response_parser.hpp and response.hpp: the state of the response parser, and
-- the members of a response.
use oos.Prelude.{ℕ, Bool, false, [], Option}
use oos.Prelude.Bytes.{Bytes, codes}
use oos.Http.Types.{ParamMap, Version, Content}
use oos.Http.Status.{Status, ok}

-- `return_t`
pub data Return : Type 0 where
  invalid partial finish : Return

-- `state_t`
pub data State : Type 0 where
  method status_code status_text url url_path url_query_field url_query_value url_fragment : State
  version major_version minor_version header header_key header_value_begin header_value : State
  header_newline header_finish body chunked_body chunked_body_finished : State

-- the members of `response` that the parser sets
pub record Response : Type 0 where
  pub version : Version
  pub content : Content
  pub status : Status
  pub headers : ParamMap
  pub body : Bytes

-- the members of `response_parser`
pub record Parser : Type 0 where
  pub state : State
  pub http_prefix_index : ℕ
  pub current_status : Bytes
  pub current_key : Bytes
  pub current_value : Bytes
  pub blanks : Bytes
  pub skip_blanks : Bool

-- `response_parser()`
abbrev pub response_parser : Parser
response_parser = record {
  state = version;
  http_prefix_index = 0;
  current_status = [];
  current_key = [];
  current_value = [];
  blanks = [];
  skip_blanks = false;
}

-- The members as a `response` starts with them.
abbrev pub response : Response
response = record {
  version = record { major = 0; minor = 0 };
  content = record { length = codes "0"; type = []; md5 = []; language = [] };
  status = ok;
  headers = [];
  body = [];
}

-- What a handler returns; `none` is an exception of `to_status`.
abbrev pub Outcome : Type 0
Outcome = Option (Bool × Parser × Response)
