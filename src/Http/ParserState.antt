-- ===== src/Http/ParserState.antt =====
-- include/matador/http/request_parser.hpp: the state of the request parser.
use oos.Prelude.{ℕ, Bool, false, []}
use oos.Prelude.Bytes.{Bytes}
use oos.Http.Types.{Request}

-- `return_t`
pub data Return : Type 0 where
  invalid partial finish : Return

-- `state_t`
pub data State : Type 0 where
  method url_path url_query_field url_query_value url_fragment version major_version : State
  minor_version header header_key header_value_begin header_value header_newline : State
  header_finish body : State

-- `hex_parse_t`
pub data HexState : Type 0 where
  hex_first hex_second hex_finished : HexState

-- the members of `request_parser`
pub record Parser : Type 0 where
  pub state : State
  pub http_prefix_index : ℕ
  pub current_method : Bytes
  pub current_key : Bytes
  pub current_value : Bytes
  pub current_query_field : Bytes
  pub current_query_value : Bytes
  pub blanks : Bytes
  pub skip_blanks : Bool
  pub hex_state : HexState
  pub hex_str : Bytes

-- `request_parser()`
abbrev pub request_parser : Parser
request_parser = record {
  state = method;
  http_prefix_index = 0;
  current_method = [];
  current_key = [];
  current_value = [];
  current_query_field = [];
  current_query_value = [];
  blanks = [];
  skip_blanks = false;
  hex_state = hex_finished;
  hex_str = [];
}

-- What a handler returns.
abbrev pub Outcome : Type 0
Outcome = Bool × Parser × Request
